-- ===== src/Tests.antt =====
-- Example data, on which the theorems of the other modules are applied below this module.
mod Verifiers
mod Transactions
mod Codecs
mod Scripts
mod Taproot
mod Amounts
mod Locks
mod Sighashes
mod Commitments
mod Seals
mod Texts
mod Keys
use bp_core.Base.{
  ℕ, zero, suc, ap, ◌≢◌, ◌+◌, ◌<◌, ◌≡◌, refl, arith, List, [], ◌∷◌, replicate, length, Bytes,
  AreBytes,
}
use bp_core.Base.Int.{pos}
use bp_core.Block.{BlockHeader, IsBlockHeader}
use bp_core.Codec.Ints.{IsBytes}
use bp_core.Tx.{Outpoint, TxIn, TxOut, Tx}
use bp_core.Tx.Encoding.RoundTrip.{IsTx}

-- `n` equal bytes.
abbrev pub sevens : ℕ → Bytes
sevens n = replicate n 7

pub sevens-AreBytes : (n : ℕ) → AreBytes (sevens n)
sevens-AreBytes zero = tt
sevens-AreBytes (suc n) = (omega arith, sevens-AreBytes n)

pub sevens-IsBytes : (n : ℕ) → IsBytes n (sevens n)
sevens-IsBytes n = (length-sevens n, sevens-AreBytes n)
  where
    length-sevens : (n : ℕ) → length (sevens n) ≡ n
    length-sevens zero = refl
    length-sevens (suc n) = ap suc (length-sevens n)

abbrev pub coin : Outpoint
coin = record { txid = sevens 32; vout = 1 }

-- An input with a witness of two elements, and the same input without one.
abbrev pub signed_input : TxIn
signed_input = record {
  prev_output = coin;
  sig_script = [];
  sequence = 0xffff_ffff;
  witness = (1 ∷ 2 ∷ []) ∷ (3 ∷ []) ∷ [];
}

abbrev pub bare_input : TxIn
bare_input = record { prev_output = coin; sig_script = []; sequence = 0xffff_ffff; witness = [] }

abbrev pub change : TxOut
change = record { value = 5000; script_pubkey = 0x6a ∷ [] }

-- A transaction with a witness, and one without.
abbrev pub segwit_tx : Tx
segwit_tx = record {
  version = pos 2;
  inputs = signed_input ∷ [];
  outputs = change ∷ [];
  lock_time = 0;
}

abbrev pub plain_tx : Tx
plain_tx = record {
  version = pos 2;
  inputs = bare_input ∷ [];
  outputs = change ∷ [];
  lock_time = 0;
}

pub segwit_tx-IsTx : IsTx segwit_tx
segwit_tx-IsTx = record {
  version = omega arith;
  inputs = ground arith;
  outputs = ground arith;
  lock_time = omega arith;
}

pub plain_tx-IsTx : IsTx plain_tx
plain_tx-IsTx = record {
  version = omega arith;
  inputs = ground arith;
  outputs = ground arith;
  lock_time = omega arith;
}

pub segwit_tx-inputs : segwit_tx.inputs ≢ []
segwit_tx-inputs e = cc

pub plain_tx-inputs : plain_tx.inputs ≢ []
plain_tx-inputs e = cc

-- The digest of a text in the examples: its length.
abbrev pub digest : Bytes → Bytes
digest bs = length bs ∷ []

abbrev pub header : BlockHeader
header = record {
  version = pos 1;
  prev_block_hash = sevens 32;
  merkle_root = sevens 32;
  time = 1231006505;
  bits = 0x1d00_ffff;
  nonce = 2083236893;
}

pub header-IsBlockHeader : IsBlockHeader header
header-IsBlockHeader = record {
  version = omega arith;
  prev_block_hash = sevens-IsBytes 32;
  merkle_root = sevens-IsBytes 32;
  time = omega arith;
  bits = omega arith;
  nonce = omega arith;
}
