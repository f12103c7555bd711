-- ===== src/Segwit.antt =====
-- consensus/src/segwit.rs: witness versions, witness programs and their scripts, with the scripts of
-- Taproot outputs from consensus/src/taproot.rs.
pub mod Versions
pub mod Programs
pub mod Recognition
pub mod Hashed
use bp_core.Base.{
  ℕ, ◌-◌, ◌≡◌, Bool, true, false, not, ◌&&◌, leb, ◌==◌, if◌then◌else◌, List, [], ◌∷◌, length,
  Option, none, some, Bytes,
}
use bp_core.Codec.{Confine}
use bp_core.Script.{push_opcode, push_slice, is_at, op_pushbytes_20, op_pushbytes_32, ◌>>=◌}
use bp_core.Script.OpCodes.{OpCode, to_u8, try_from}

pub data SegwitError : Type 0 where
  invalid_witness_version : ℕ → SegwitError
  malformed_witness_version : SegwitError
  invalid_witness_program_length : ℕ → SegwitError
  invalid_segwit_v0_program_length : ℕ → SegwitError
  uncompressed_pubkey : SegwitError

pub data Result (A : Type 0) : Type 0 where
  ok : A → Result A
  err : SegwitError → Result A

pub data WitnessVer : Type 0 where
  v0 v1 v2 v3 v4 v5 v6 v7 v8 v9 v10 v11 v12 v13 v14 v15 v16 : WitnessVer

-- `self as u8`: the opcode of the version.
unfoldable pub as_u8 : WitnessVer → ℕ
as_u8 v0 = 0x0
as_u8 v1 = 0x51
as_u8 v2 = 0x52
as_u8 v3 = 0x53
as_u8 v4 = 0x54
as_u8 v5 = 0x55
as_u8 v6 = 0x56
as_u8 v7 = 0x57
as_u8 v8 = 0x58
as_u8 v9 = 0x59
as_u8 v10 = 0x5a
as_u8 v11 = 0x5b
as_u8 v12 = 0x5c
as_u8 v13 = 0x5d
as_u8 v14 = 0x5e
as_u8 v15 = 0x5f
as_u8 v16 = 0x60

unfoldable pub from_op_code : OpCode → Result WitnessVer
unfolding to_u8
from_op_code op_code =
    let n = to_u8 op_code in
    if n == 0
    then ok v0
    else if n == 0x51
    then ok v1
    else if n == 0x52
    then ok v2
    else if n == 0x53
    then ok v3
    else if n == 0x54
    then ok v4
    else if n == 0x55
    then ok v5
    else if n == 0x56
    then ok v6
    else if n == 0x57
    then ok v7
    else if n == 0x58
    then ok v8
    else if n == 0x59
    then ok v9
    else if n == 0x5a
    then ok v10
    else if n == 0x5b
    then ok v11
    else if n == 0x5c
    then ok v12
    else if n == 0x5d
    then ok v13
    else if n == 0x5e
    then ok v14
    else if n == 0x5f
    then ok v15
    else if n == 0x60
    then ok v16
    else err malformed_witness_version

unfoldable pub version_no : WitnessVer → ℕ
version_no v0 = 0
version_no v1 = 1
version_no v2 = 2
version_no v3 = 3
version_no v4 = 4
version_no v5 = 5
version_no v6 = 6
version_no v7 = 7
version_no v8 = 8
version_no v9 = 9
version_no v10 = 10
version_no v11 = 11
version_no v12 = 12
version_no v13 = 13
version_no v14 = 14
version_no v15 = 15
version_no v16 = 16

unfoldable pub from_version_no : ℕ → Result WitnessVer
unfolding version_no
from_version_no no' =
    if no' == version_no v0
    then ok v0
    else if no' == version_no v1
    then ok v1
    else if no' == version_no v2
    then ok v2
    else if no' == version_no v3
    then ok v3
    else if no' == version_no v4
    then ok v4
    else if no' == version_no v5
    then ok v5
    else if no' == version_no v6
    then ok v6
    else if no' == version_no v7
    then ok v7
    else if no' == version_no v8
    then ok v8
    else if no' == version_no v9
    then ok v9
    else if no' == version_no v10
    then ok v10
    else if no' == version_no v11
    then ok v11
    else if no' == version_no v12
    then ok v12
    else if no' == version_no v13
    then ok v13
    else if no' == version_no v14
    then ok v14
    else if no' == version_no v15
    then ok v15
    else if no' == version_no v16
    then ok v16
    else err (invalid_witness_version no')

-- `OpCode::try_from(self as u8).expect(...)`: `none` is the panic.
unfoldable pub op_code : WitnessVer → Option OpCode
unfolding as_u8 try_from
op_code v = try_from (as_u8 v)

pub record WitnessProgram : Type 0 where
  pub version : WitnessVer
  pub program : Bytes

is_v0 : WitnessVer → Bool
unfolding version_no
is_v0 v = version_no v == 0

is_ok : {A : Type 0} → Result A → Bool
is_ok (ok a) = true
is_ok (err e) = false

is_version : Option OpCode → Bool
unfolding is_ok
is_version none = false
is_version (some c) = is_ok (from_op_code c)

-- The first two bytes of the script, `ver_opcode` and `push_opbyte`, in a script of that length.
is_program : ℕ → Bytes → Bool
unfolding is_version
is_program script_len (ver_opcode ∷ push_opbyte ∷ rest) =
    is_version (try_from ver_opcode)
    && (leb 2 push_opbyte && leb push_opbyte 40)
    && script_len - 2 == push_opbyte
is_program script_len s = false

unfoldable pub is_witness_program : Bytes → Bool
unfolding is_program
is_witness_program s =
    let script_len = length s in
    if not (leb 4 script_len && leb script_len 42) then false else is_program script_len s

-- `WitnessVer::V0.op_code() as u8` and `WitnessVer::V1.op_code() as u8`; neither panics.
op_code_byte : Option OpCode → ℕ
op_code_byte none = 0
op_code_byte (some c) = to_u8 c

unfoldable pub is_p2wpkh : Bytes → Bool
unfolding op_code_byte op_code to_u8
is_p2wpkh s = length s == 22 && is_at s 0 (op_code_byte (op_code v0)) && is_at s 1 op_pushbytes_20

unfoldable pub is_p2wsh : Bytes → Bool
unfolding op_code_byte op_code to_u8
is_p2wsh s = length s == 34 && is_at s 0 (op_code_byte (op_code v0)) && is_at s 1 op_pushbytes_32

unfoldable pub is_p2tr : Bytes → Bool
unfolding op_code_byte op_code to_u8
is_p2tr s = length s == 34 && is_at s 0 (op_code_byte (op_code v1)) && is_at s 1 op_pushbytes_32

module _ {E : Type 0} (confine : Confine E) where
  -- `WitnessProgram::new`
  confined_program : Option E → WitnessVer → Bytes → Result WitnessProgram
  unfolding is_v0
  confined_program none version program =
      if is_v0 version && (not (length program == 20) && not (length program == 32))
      then err (invalid_segwit_v0_program_length (length program))
      else ok (record { version = version; program = program })
  confined_program (some e) version program = err (invalid_witness_program_length (length program))

  unfoldable pub new : WitnessVer → Bytes → Result WitnessProgram
  unfolding confined_program
  new version program = confined_program (confine 2 40 (length program)) version program

  push_version : Option OpCode → Bytes → Option Bytes
  push_version none s = none
  push_version (some c) s = push_opcode confine c s

  unfoldable pub with_witness_program_unchecked : WitnessVer → Bytes → Option Bytes
  unfolding push_version op_code
  with_witness_program_unchecked ver prog = do
    s ← push_version (op_code ver) []
    push_slice confine prog s

  unfoldable pub from_witness_program : WitnessProgram → Option Bytes
  unfolding with_witness_program_unchecked
  from_witness_program w = with_witness_program_unchecked w.version w.program

  unfoldable pub p2wpkh : Bytes → Option Bytes
  unfolding with_witness_program_unchecked
  p2wpkh hash = with_witness_program_unchecked v0 hash

  unfoldable pub p2wsh : Bytes → Option Bytes
  unfolding with_witness_program_unchecked
  p2wsh hash = with_witness_program_unchecked v0 hash

  unfoldable pub p2tr_tweaked : Bytes → Option Bytes
  unfolding with_witness_program_unchecked
  p2tr_tweaked output_key = with_witness_program_unchecked v1 output_key
