-- ===== src/Seals/Random.antt =====
-- seals/src/txout/blind.rs and explicit.rs: seals with random blinding, and the outpoints of explicit
-- seals. A random number generator is a function to the next u64 and the new generator.
use bp_core.Base.{ℕ, ◌≡◌, refl}
use bp_core.Base.Result.{Result, ok, err, ok_or}
use bp_core.Dbc.Proof.{Method, opret_first, tapret_first}
use bp_core.Seals.{
  SealTxid, BlindSeal, ExplicitSeal, TxPtr, witness_tx, WitnessVoutError, witness_vout_error,
  with_blinding, map_outpoint, ptr_known, ptr_seal_txid, txid_seal_txid, outpoint_new, try_outpoint,
  resolve, to_outpoint,
}
use bp_core.Tx.{Txid, Vout, Outpoint}

module _ {Rng : Type 0} (next_u64 : Rng → ℕ × Rng) where
  module _ (ids : SealTxid) where
    -- `BlindSeal::with_rng`, and `new_random` on the generator of the thread.
    unfoldable pub with_rng : Method → ids.SealId → Vout → Rng → BlindSeal ids.SealId × Rng
    with_rng method txid vout rng =
        let (blinding, rng') = next_u64 rng in
        (record { method = method; txid = txid; vout = vout; blinding = blinding }, rng')

    -- `tapret_first_rand` and `opret_first_rand`.
    unfoldable pub tapret_first_rand : ids.SealId → Vout → Rng → BlindSeal ids.SealId × Rng
    unfolding with_rng
    tapret_first_rand txid vout rng = with_rng tapret_first txid vout rng

    unfoldable pub opret_first_rand : ids.SealId → Vout → Rng → BlindSeal ids.SealId × Rng
    unfolding with_rng
    opret_first_rand txid vout rng = with_rng opret_first txid vout rng

    -- `tapret_first_rand_from` and `opret_first_rand_from`.
    unfoldable pub tapret_first_rand_from : Outpoint → Rng → BlindSeal ids.SealId × Rng
    unfolding tapret_first_rand
    tapret_first_rand_from outpoint rng =
        tapret_first_rand (ids.from_txid outpoint.txid) outpoint.vout rng

    unfoldable pub opret_first_rand_from : Outpoint → Rng → BlindSeal ids.SealId × Rng
    unfolding opret_first_rand
    opret_first_rand_from outpoint rng =
        opret_first_rand (ids.from_txid outpoint.txid) outpoint.vout rng

  -- `new_random_vout`
  unfoldable pub new_random_vout : Method → Vout → Rng → BlindSeal TxPtr × Rng
  new_random_vout method vout rng =
      let (blinding, rng') = next_u64 rng in
      (record { method = method; txid = witness_tx; vout = vout; blinding = blinding }, rng')

-- `Outpoint::try_from(ExplicitSeal<TxPtr>)`, by reference and by value.
unfoldable pub explicit_try_outpoint : ExplicitSeal TxPtr → Result WitnessVoutError Outpoint
explicit_try_outpoint reveal =
    ok_or witness_vout_error (ptr_seal_txid.map_to_outpoint reveal.txid reveal.vout)

-- `ExplicitSeal::<Txid>::to_outpoint`, and the conversions to an Outpoint.
unfoldable pub explicit_to_outpoint : ExplicitSeal Txid → Outpoint
unfolding outpoint_new
explicit_to_outpoint seal = outpoint_new seal.txid seal.vout

module _ {Rng : Type 0} (next_u64 : Rng → ℕ × Rng) where
  -- A random seal made from an outpoint, with either method, is on that outpoint: chained seals by
  -- the conversion that may fail, and seals on a known transaction by the one that does not.
  pub rand_from_outpoint :
      (o : Outpoint) (rng : Rng)
      → (try_outpoint (tapret_first_rand_from next_u64 ptr_seal_txid o rng).0 ≡ ok o)
        × (try_outpoint (opret_first_rand_from next_u64 ptr_seal_txid o rng).0 ≡ ok o)
        × (to_outpoint (tapret_first_rand_from next_u64 txid_seal_txid o rng).0 ≡ o)
        × (to_outpoint (opret_first_rand_from next_u64 txid_seal_txid o rng).0 ≡ o)
  unfolding tapret_first_rand_from opret_first_rand_from try_outpoint to_outpoint map_outpoint
      ptr_known
  rand_from_outpoint o rng = (refl, refl, refl, refl)

  -- A random seal on an output of the witness transaction has no outpoint until it is resolved; then
  -- it is on that output of the transaction it is resolved with, and keeps its method and blinding.
  pub random_vout_resolved :
      (method : Method) (vout : Vout) (rng : Rng) (txid : Txid)
      → (explicit_try_outpoint (record { method = method; txid = witness_tx; vout = vout })
          ≡ err witness_vout_error)
        × (try_outpoint (new_random_vout next_u64 method vout rng).0 ≡ err witness_vout_error)
        × (resolve (new_random_vout next_u64 method vout rng).0 txid
            ≡ with_blinding txid_seal_txid method txid vout (next_u64 rng).0)
  unfolding new_random_vout try_outpoint resolve explicit_try_outpoint map_outpoint ptr_known
  random_vout_resolved method vout rng txid = (refl, refl, refl)
