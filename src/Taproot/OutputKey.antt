-- ===== src/Taproot/OutputKey.antt =====
-- consensus/src/taproot.rs: TapCode, the building of a TapScript, and the output keys of Taproot with
-- their scripts. A key is its 32 bytes, and `none` stands for a panic.
use bp_core.Base.{ℕ, ◌≡◌, [], ◌∷◌, ◌++◌, length, Option, none, some, Bytes}
use bp_core.Codec.{Confine}
use bp_core.Script.{
  push, op_pushbytes_32, op_pushdata1, op_pushdata2, op_pushdata4, op_return, ◌>>=◌,
}
use bp_core.Segwit.{p2tr_tweaked}
use bp_core.Taproot.Hashes.{TapNodeHash}
use bp_core.Taproot.Parity.{Parity}

abbrev pub op_reserved : ℕ
op_reserved = 0x50

pub data TapCode : Type 0 where
  push_bytes32 reserved return push_data1 push_data2 push_data4 : TapCode

-- `op_code as u8`
unfoldable pub tap_code_u8 : TapCode → ℕ
tap_code_u8 push_bytes32 = op_pushbytes_32
tap_code_u8 reserved = op_reserved
tap_code_u8 return = op_return
tap_code_u8 push_data1 = op_pushdata1
tap_code_u8 push_data2 = op_pushdata2
tap_code_u8 push_data4 = op_pushdata4

-- `TapScript::push_opcode`
unfoldable pub push_tap_code : {E : Type 0} → Confine E → TapCode → Bytes → Option Bytes
unfolding tap_code_u8
push_tap_code confine op_code s = push confine (tap_code_u8 op_code) s

-- `b"TapTweak"`
abbrev pub midstate_taptweak : Bytes
midstate_taptweak = b'T' ∷ b'a' ∷ b'p' ∷ b'T' ∷ b'w' ∷ b'e' ∷ b'a' ∷ b'k' ∷ []

abbrev pub InternalPk : Type 0
InternalPk = Bytes

abbrev pub OutputPk : Type 0
OutputPk = Bytes

-- The calls of the crate secp256k1: a number below the order of the curve as a scalar, and the sum of
-- a key and a multiple of the generator.
pub record Secp256k1 : Type 0 where
  pub scalar_from_be_bytes : Bytes → Option Bytes
  pub add_tweak : InternalPk → Bytes → Option (OutputPk × Parity)

-- A key that the crate gives is of 32 bytes.
pub record IsSecp256k1 (secp : Secp256k1) : Type 0 where
  pub key_size :
      (pk : InternalPk) (tweak : Bytes) (key : OutputPk) (parity : Parity)
      → secp.add_tweak pk tweak ≡ some (key, parity)
      → length key ≡ 32

-- The bytes that a hash adds to the engine, if there is one.
abbrev pub root_bytes : Option TapNodeHash → Bytes
root_bytes none = []
root_bytes (some merkle_root) = merkle_root

module _ (tagged_sha256 : Bytes → Bytes → Bytes) (secp : Secp256k1) where
  unfoldable pub to_output_pk : InternalPk → Option TapNodeHash → Option (OutputPk × Parity)
  to_output_pk pk merkle_root = do
    tweak ←
        secp.scalar_from_be_bytes (tagged_sha256 midstate_taptweak (pk ++ root_bytes merkle_root))
    secp.add_tweak pk tweak

  module _ {E : Type 0} (confine : Confine E) where
    unfoldable pub p2tr : InternalPk → Option TapNodeHash → Option Bytes
    p2tr internal_key merkle_root = do
      (output_key, parity) ← to_output_pk internal_key merkle_root
      p2tr_tweaked confine output_key

    unfoldable pub p2tr_key_only : InternalPk → Option Bytes
    p2tr_key_only internal_key = do
      (output_key, parity) ← to_output_pk internal_key none
      p2tr_tweaked confine output_key

    unfoldable pub p2tr_scripted : InternalPk → TapNodeHash → Option Bytes
    p2tr_scripted internal_key merkle_root = do
      (output_key, parity) ← to_output_pk internal_key (some merkle_root)
      p2tr_tweaked confine output_key
