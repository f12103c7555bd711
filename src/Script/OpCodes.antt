-- ===== src/Script/OpCodes.antt =====
-- consensus/src/opcodes.rs: the enum OpCode and its conversions from and to u8.
use bp_core.Base.{ℕ, ◌==◌, if◌then◌else◌, List, [], ◌∷◌, Option, none, some}

pub data OpCode : Type 0 where
  push_bytes0 push_bytes1 push_bytes2 push_bytes3 push_bytes4 push_bytes5 push_bytes6 : OpCode
  push_bytes7 push_bytes8 push_bytes9 push_bytes10 push_bytes11 push_bytes12 push_bytes13 : OpCode
  push_bytes14 push_bytes15 push_bytes16 push_bytes17 push_bytes18 push_bytes19 : OpCode
  push_bytes20 push_bytes21 push_bytes22 push_bytes23 push_bytes24 push_bytes25 : OpCode
  push_bytes26 push_bytes27 push_bytes28 push_bytes29 push_bytes30 push_bytes31 : OpCode
  push_bytes32 push_data1 push_data2 push_data4 push_num1 reserved return dup equal : OpCode
  equal_verify ripemd160 sha1 sha256 hash160 hash256 check_sig check_sig_verify : OpCode

-- `op_code as u8`
unfoldable pub to_u8 : OpCode → ℕ
to_u8 push_bytes0 = 0x00
to_u8 push_bytes1 = 0x01
to_u8 push_bytes2 = 0x02
to_u8 push_bytes3 = 0x03
to_u8 push_bytes4 = 0x04
to_u8 push_bytes5 = 0x05
to_u8 push_bytes6 = 0x06
to_u8 push_bytes7 = 0x07
to_u8 push_bytes8 = 0x08
to_u8 push_bytes9 = 0x09
to_u8 push_bytes10 = 0x0a
to_u8 push_bytes11 = 0x0b
to_u8 push_bytes12 = 0x0c
to_u8 push_bytes13 = 0x0d
to_u8 push_bytes14 = 0x0e
to_u8 push_bytes15 = 0x0f
to_u8 push_bytes16 = 0x10
to_u8 push_bytes17 = 0x11
to_u8 push_bytes18 = 0x12
to_u8 push_bytes19 = 0x13
to_u8 push_bytes20 = 0x14
to_u8 push_bytes21 = 0x15
to_u8 push_bytes22 = 0x16
to_u8 push_bytes23 = 0x17
to_u8 push_bytes24 = 0x18
to_u8 push_bytes25 = 0x19
to_u8 push_bytes26 = 0x1a
to_u8 push_bytes27 = 0x1b
to_u8 push_bytes28 = 0x1c
to_u8 push_bytes29 = 0x1d
to_u8 push_bytes30 = 0x1e
to_u8 push_bytes31 = 0x1f
to_u8 push_bytes32 = 0x20
to_u8 push_data1 = 0x4c
to_u8 push_data2 = 0x4d
to_u8 push_data4 = 0x4e
to_u8 push_num1 = 0x51
to_u8 reserved = 0x50
to_u8 return = 0x6a
to_u8 dup = 0x76
to_u8 equal = 0x87
to_u8 equal_verify = 0x88
to_u8 ripemd160 = 0xa6
to_u8 sha1 = 0xa7
to_u8 sha256 = 0xa8
to_u8 hash160 = 0xa9
to_u8 hash256 = 0xaa
to_u8 check_sig = 0xac
to_u8 check_sig_verify = 0xad

unfoldable pub op_codes : List OpCode
op_codes =
    push_bytes0 ∷ push_bytes1 ∷ push_bytes2 ∷ push_bytes3 ∷ push_bytes4 ∷ push_bytes5 ∷ push_bytes6
    ∷ push_bytes7 ∷ push_bytes8 ∷ push_bytes9 ∷ push_bytes10 ∷ push_bytes11 ∷ push_bytes12
    ∷ push_bytes13 ∷ push_bytes14 ∷ push_bytes15 ∷ push_bytes16 ∷ push_bytes17 ∷ push_bytes18
    ∷ push_bytes19 ∷ push_bytes20 ∷ push_bytes21 ∷ push_bytes22 ∷ push_bytes23 ∷ push_bytes24
    ∷ push_bytes25 ∷ push_bytes26 ∷ push_bytes27 ∷ push_bytes28 ∷ push_bytes29 ∷ push_bytes30
    ∷ push_bytes31 ∷ push_bytes32 ∷ push_data1 ∷ push_data2 ∷ push_data4 ∷ push_num1 ∷ reserved
    ∷ return ∷ dup ∷ equal ∷ equal_verify ∷ ripemd160 ∷ sha1 ∷ sha256 ∷ hash160 ∷ hash256
    ∷ check_sig ∷ check_sig_verify ∷ []

unfoldable pub find : List OpCode → ℕ → Option OpCode
find [] n = none
find (c ∷ cs) n = let rest = find cs n in if to_u8 c == n then some c else rest

-- `TryFrom<u8>`, which `try_from_u8` of the crate strict_encoding derives: the variant with that
-- value, if there is one.
unfoldable pub try_from : ℕ → Option OpCode
unfolding find op_codes to_u8
try_from n = find op_codes n
