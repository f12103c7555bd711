-- ===== src/Seals/Chains.antt =====
-- seals/src/txout/blind.rs: seals on known transactions and seals on a witness transaction.
use bp_core.Base.{◌≡◌, refl, some}
use bp_core.Base.Result.{ok}
use bp_core.Seals.{
  TxPtr, witness_tx, ptr_txid, BlindSeal, blind_txo_seal, ptr_seal_txid, ptr_known, ptr_txid_or,
  map_outpoint, outpoint_new, with_blinding, try_outpoint, to_outpoint, transmutate, resolve,
  unwrap_or,
}
use bp_core.Tx.{Txid}

resolved : (ptr : TxPtr) (txid : Txid) → unwrap_or (ptr_known ptr) txid ≡ ptr_txid_or ptr txid
unfolding ptr_known ptr_txid_or
resolved witness_tx txid = refl
resolved (ptr_txid known) txid = refl

-- A seal on a known transaction made into one that can be chained resolves to itself, whatever the
-- witness transaction, and its outpoint is the one that the chained seal has.
pub resolve-transmutate :
    (seal : BlindSeal Txid) (txid : Txid)
    → (resolve (transmutate seal) txid ≡ seal)
      × (try_outpoint (transmutate seal) ≡ ok (to_outpoint seal))
      × ((blind_txo_seal ptr_seal_txid).outpoint (transmutate seal) ≡ some (to_outpoint seal))
unfolding resolve transmutate try_outpoint to_outpoint with_blinding map_outpoint ptr_known
resolve-transmutate seal txid = (refl, refl, refl)

-- A chained seal resolved with a witness transaction has the outpoint that the seal gives with that
-- transaction as the default, keeps its method and its blinding, and resolves to the same seal when
-- it is chained again.
pub to_outpoint-resolve :
    (seal : BlindSeal TxPtr) (txid other : Txid)
    → (to_outpoint (resolve seal txid) ≡ (blind_txo_seal ptr_seal_txid).outpoint_or seal txid)
      × ((resolve seal txid).method ≡ seal.method)
      × ((resolve seal txid).blinding ≡ seal.blinding)
      × (resolve (transmutate (resolve seal txid)) other ≡ resolve seal txid)
unfolding resolve to_outpoint with_blinding transmutate outpoint_new ptr_known
to_outpoint-resolve seal txid other = (rw (resolved seal.txid txid) refl, refl, refl, refl)
