-- ===== src/Tx.antt =====
-- consensus/src/tx.rs and the Witness of consensus/src/segwit.rs: transactions and their parts.
-- A newtype over bytes or an integer is a synonym of what it wraps.
pub mod Encoding
pub mod Ids
pub mod Texts
pub mod Hex
pub mod Standard
use bp_core.Base.{ℕ, ◌≡◌, List, [], ◌∷◌, Bytes, Bool, true, false, ◌&&◌, ◌||◌, not, map, ◌==◌}
use bp_core.Base.{replicate}
use bp_core.Base.Int.{ℤ, pos, negsuc, leb_ℤ}

-- 32 bytes.
abbrev pub Txid : Type 0
Txid = Bytes

-- u32, u32, u32, u64 and i32.
abbrev pub Vout : Type 0
Vout = ℕ

abbrev pub SeqNo : Type 0
SeqNo = ℕ

abbrev pub LockTime : Type 0
LockTime = ℕ

abbrev pub Sats : Type 0
Sats = ℕ

abbrev pub TxVer : Type 0
TxVer = ℤ

abbrev pub SigScript : Type 0
SigScript = Bytes

abbrev pub ScriptPubkey : Type 0
ScriptPubkey = Bytes

abbrev pub Witness : Type 0
Witness = List Bytes

pub record Outpoint : Type 0 where
  pub txid : Txid
  pub vout : Vout

pub record TxIn : Type 0 where
  pub prev_output : Outpoint
  pub sig_script : SigScript
  pub sequence : SeqNo
  pub witness : Witness

pub record TxOut : Type 0 where
  pub value : Sats
  pub script_pubkey : ScriptPubkey

pub record Tx : Type 0 where
  pub version : TxVer
  pub inputs : List TxIn
  pub outputs : List TxOut
  pub lock_time : LockTime

abbrev pub is_empty {ℓ} : {A : Type ℓ} → List A → Bool
is_empty [] = true
is_empty (x ∷ xs) = false

-- `inputs().any(|txin| !txin.witness.is_empty())`
unfoldable pub any_witness : List TxIn → Bool
any_witness [] = false
any_witness (i ∷ is) = not (is_empty i.witness) || any_witness is

unfoldable pub is_segwit : Tx → Bool
unfolding any_witness
is_segwit tx = any_witness tx.inputs

-- The loop body of `to_unsigned_tx`.
unfoldable pub unsigned_input : TxIn → TxIn
unsigned_input i = record i { sig_script = []; witness = [] }

unfoldable pub to_unsigned_tx : Tx → Tx
unfolding unsigned_input
to_unsigned_tx tx = record tx { inputs = map unsigned_input tx.inputs }
