-- ===== src/Seals.antt =====
-- seals/src/txout: seals on transaction outputs, and the witness transactions that close them. The
-- trait TxoSeal is a record of its operations, and so is SealTxid.
pub mod Chains
pub mod Witness
pub mod Texts
pub mod Random
use bp_core.Base.{
  ℕ, Bool, true, false, ◌&&◌, ◌||◌, ◌==◌, List, [], ◌∷◌, Option, none, some, eq_bytes,
}
use bp_core.Base.Result.{Result, ok, err, ok_or}
use bp_core.Dbc.Proof.{Method}
use bp_core.Tx.{Txid, Vout, Outpoint, TxIn}

pub data TxPtr : Type 0 where
  witness_tx : TxPtr
  ptr_txid : Txid → TxPtr

pub data WitnessVoutError : Type 0 where
  witness_vout_error : WitnessVoutError

-- `Outpoint::new`
unfoldable pub outpoint_new : Txid → Vout → Outpoint
outpoint_new txid vout = record { txid = txid; vout = vout }

-- The trait SealTxid, with `From<Txid>`.
pub record SealTxid : Type 1 where
  pub SealId : Type 0
  pub from_txid : Txid → SealId
  pub txid : SealId → Option Txid
  pub txid_or : SealId → Txid → Txid
  pub map_to_outpoint : SealId → Vout → Option Outpoint

-- `impl SealTxid for Txid`
abbrev pub txid_seal_txid : SealTxid
txid_seal_txid = record {
  SealId = Txid;
  from_txid = λ txid. txid;
  txid = λ txid. some txid;
  txid_or = λ txid default. txid;
  map_to_outpoint = λ txid vout. some (outpoint_new txid vout);
}

unfoldable pub ptr_known : TxPtr → Option Txid
ptr_known witness_tx = none
ptr_known (ptr_txid txid) = some txid

unfoldable pub ptr_txid_or : TxPtr → Txid → Txid
ptr_txid_or witness_tx default = default
ptr_txid_or (ptr_txid txid) default = txid

-- `self.txid().map(|txid| Outpoint::new(txid, vout))`
unfoldable pub map_outpoint : Option Txid → Vout → Option Outpoint
unfolding outpoint_new
map_outpoint none vout = none
map_outpoint (some txid) vout = some (outpoint_new txid vout)

-- `impl SealTxid for TxPtr`
abbrev pub ptr_seal_txid : SealTxid
ptr_seal_txid = record {
  SealId = TxPtr;
  from_txid = ptr_txid;
  txid = ptr_known;
  txid_or = ptr_txid_or;
  map_to_outpoint = λ ptr vout. map_outpoint (ptr_known ptr) vout;
}

pub record ExplicitSeal (SealId : Type 0) : Type 0 where
  pub method : Method
  pub txid : SealId
  pub vout : Vout

pub record BlindSeal (SealId : Type 0) : Type 0 where
  pub method : Method
  pub txid : SealId
  pub vout : Vout
  pub blinding : ℕ

-- The trait TxoSeal.
pub record TxoSeal : Type 1 where
  pub Seal : Type 0
  pub method : Seal → Method
  pub known_txid : Seal → Option Txid
  pub seal_vout : Seal → Vout
  pub outpoint : Seal → Option Outpoint
  pub or_txid : Seal → Txid → Txid
  pub outpoint_or : Seal → Txid → Outpoint

module _ (ids : SealTxid) where
  -- `impl TxoSeal for ExplicitSeal`
  abbrev pub explicit_txo_seal : TxoSeal
  explicit_txo_seal = record {
    Seal = ExplicitSeal ids.SealId;
    method = λ seal. seal.method;
    known_txid = λ seal. ids.txid seal.txid;
    seal_vout = λ seal. seal.vout;
    outpoint = λ seal. ids.map_to_outpoint seal.txid seal.vout;
    or_txid = λ seal default. ids.txid_or seal.txid default;
    outpoint_or = λ seal default. outpoint_new (ids.txid_or seal.txid default) seal.vout;
  }

  -- `impl TxoSeal for BlindSeal`
  abbrev pub blind_txo_seal : TxoSeal
  blind_txo_seal = record {
    Seal = BlindSeal ids.SealId;
    method = λ seal. seal.method;
    known_txid = λ seal. ids.txid seal.txid;
    seal_vout = λ seal. seal.vout;
    outpoint = λ seal. ids.map_to_outpoint seal.txid seal.vout;
    or_txid = λ seal default. ids.txid_or seal.txid default;
    outpoint_or = λ seal default. outpoint_new (ids.txid_or seal.txid default) seal.vout;
  }

  -- `ExplicitSeal::new`
  unfoldable pub explicit_new : Method → Outpoint → ExplicitSeal ids.SealId
  explicit_new method outpoint = record {
    method = method;
    txid = ids.from_txid outpoint.txid;
    vout = outpoint.vout;
  }

  -- `ExplicitSeal::with`
  unfoldable pub explicit_with : Method → ids.SealId → Vout → ExplicitSeal ids.SealId
  explicit_with method txid vout = record { method = method; txid = txid; vout = vout }

  -- `BlindSeal::with_blinding`, on an identifier after `into`.
  unfoldable pub with_blinding : Method → ids.SealId → Vout → ℕ → BlindSeal ids.SealId
  with_blinding method txid vout blinding = record {
    method = method;
    txid = txid;
    vout = vout;
    blinding = blinding;
  }

-- `Outpoint::try_from(BlindSeal<TxPtr>)`
unfoldable pub try_outpoint : BlindSeal TxPtr → Result WitnessVoutError Outpoint
try_outpoint reveal =
    ok_or witness_vout_error (ptr_seal_txid.map_to_outpoint reveal.txid reveal.vout)

unfoldable pub with_blinded_vout : Method → Vout → ℕ → BlindSeal TxPtr
with_blinded_vout method vout blinding = record {
  method = method;
  txid = witness_tx;
  vout = vout;
  blinding = blinding;
}

unfoldable pub to_outpoint : BlindSeal Txid → Outpoint
unfolding outpoint_new
to_outpoint seal = outpoint_new seal.txid seal.vout

unfoldable pub transmutate : BlindSeal Txid → BlindSeal TxPtr
unfolding with_blinding
transmutate seal =
    with_blinding ptr_seal_txid seal.method (ptr_seal_txid.from_txid seal.txid) seal.vout
      seal.blinding

-- `option.unwrap_or(default)`
abbrev pub unwrap_or : Option Txid → Txid → Txid
unwrap_or none default = default
unwrap_or (some txid) default = txid

unfoldable pub resolve : BlindSeal TxPtr → Txid → BlindSeal Txid
unfolding with_blinding
resolve seal txid =
    with_blinding txid_seal_txid seal.method
      (unwrap_or ((blind_txo_seal ptr_seal_txid).known_txid seal) txid) seal.vout seal.blinding

-- `==` on outpoints.
unfoldable pub eq_outpoint : Outpoint → Outpoint → Bool
eq_outpoint a b = eq_bytes a.txid b.txid && a.vout == b.vout

-- `inputs.iter().any(|txin| txin.prev_output == outpoint)`
unfoldable pub spends : List TxIn → Outpoint → Bool
unfolding eq_outpoint
spends [] outpoint = false
spends (i ∷ is) outpoint = eq_outpoint i.prev_output outpoint || spends is outpoint
