-- ===== src/Tests/Scripts.antt =====
-- Examples of the theorems on scripts and witness programs.
use bp_core.Base.{
  List, All, Bytes, replicate, ℕ, ◌<◌, ◌≤◌, ◌≡◌, ◌↔◌, ◌⊎◌, ◌++◌, [], ◌∷◌, refl, arith, length, some,
  none, true,
}
use bp_core.Codec.Exact.{exact, exact-IsConfine}
use bp_core.Script.{
  is_p2pkh, is_p2sh, len_for_slice, push_opcode, push_slice, p2pkh, p2sh, op_return_script,
}
use bp_core.Script.Instructions.{
  Instruction, op, slice, build, instructions, IsInstruction, total_size,
}
use bp_core.Script.Instructions.Growth.{Grows, build-Grows}
use bp_core.Script.Instructions.Reading.{instructions-build}
use bp_core.Script.Instructions.Standard.{ReadsAs, standard_instructions}
use bp_core.Script.OpCodes.{to_u8, dup, hash160, equal_verify, check_sig, equal, return}
use bp_core.Segwit.{
  v1, WitnessProgram, version_no, as_u8, from_witness_program, is_witness_program, p2wpkh, p2wsh,
  p2tr_tweaked, is_p2wpkh, is_p2wsh, is_p2tr,
}
use bp_core.Segwit.Hashed.{
  AreHashes, witness_to_script_pubkey, to_redeem_script, redeem_to_script_pubkey, nested_scripts,
}
use bp_core.Segwit.Programs.{is_witness_program_lem, from_witness_program_lem}
use bp_core.Segwit.Recognition.{Recognises, standard_tests_iff}
use bp_core.Tests.{sevens}

is_witness_program_example : (is_witness_program (0x51 ∷ 32 ∷ sevens 32) ≡ true) ↔ (
    ((◌≡◌ {A = ℕ} 0x51 0) ⊎ (◌≡◌ {A = ℕ} 0x51 0x51))
    × (32 ≡ length (sevens 32))
    × (2 ≤ length (sevens 32))
    × (length (sevens 32) ≤ 40))
is_witness_program_example = is_witness_program_lem 0x51 32 (sevens 32)

abbrev taproot_program : WitnessProgram
taproot_program = record { version = v1; program = sevens 32 }

from_witness_program_example :
    ((version_no v1 ≤ 1)
      × (from_witness_program exact taproot_program
          ≡ some (as_u8 v1 ∷ length (sevens 32) ∷ sevens 32))
      × (is_witness_program (as_u8 v1 ∷ length (sevens 32) ∷ sevens 32) ≡ true))
    ⊎ ((1 < version_no v1) × (from_witness_program exact taproot_program ≡ none))
from_witness_program_example =
    from_witness_program_lem exact-IsConfine taproot_program (omega arith) (omega arith)

-- A P2TR script, which is no other of these.
abbrev taproot_script : Bytes
taproot_script = 0x51 ∷ 32 ∷ sevens 32

standard_tests_example :
    Recognises is_p2pkh (p2pkh exact) 20 taproot_script
    × Recognises is_p2sh (p2sh exact) 20 taproot_script
    × Recognises is_p2wpkh (p2wpkh exact) 20 taproot_script
    × Recognises is_p2wsh (p2wsh exact) 32 taproot_script
    × Recognises is_p2tr (p2tr_tweaked exact) 32 taproot_script
standard_tests_example = standard_tests_iff exact-IsConfine taproot_script

-- Hashes of the right sizes, which depend on the text.
abbrev toy_sha256 : Bytes → Bytes
toy_sha256 text = length text ∷ replicate 31 8

abbrev toy_ripemd160 : Bytes → Bytes
toy_ripemd160 text = length text ∷ replicate 19 6

toy_hashes-AreHashes : AreHashes toy_sha256 toy_ripemd160
toy_hashes-AreHashes = record { sha256_size = λ text. refl; ripemd160_size = λ text. refl }

nested_scripts_example :
    (witness_to_script_pubkey toy_sha256 toy_ripemd160 exact (sevens 3)
      ≡ some (0 ∷ 32 ∷ toy_sha256 (toy_sha256 (sevens 3))))
    × (is_p2wsh (0 ∷ 32 ∷ toy_sha256 (toy_sha256 (sevens 3))) ≡ true)
    × (to_redeem_script toy_sha256 toy_ripemd160 exact (sevens 3)
        ≡ some (0 ∷ 32 ∷ toy_sha256 (toy_sha256 (sevens 3))))
    × (redeem_to_script_pubkey toy_sha256 toy_ripemd160 exact
          (0 ∷ 32 ∷ toy_sha256 (toy_sha256 (sevens 3)))
        ≡ some (
            0xa9
            ∷ 20
            ∷ (toy_ripemd160 (toy_sha256 (0 ∷ 32 ∷ toy_sha256 (toy_sha256 (sevens 3))))
                ++ 0x87 ∷ [])))
    × (is_p2sh (
          0xa9
          ∷ 20
          ∷ (toy_ripemd160 (toy_sha256 (0 ∷ 32 ∷ toy_sha256 (toy_sha256 (sevens 3)))) ++ 0x87 ∷ []))
        ≡ true)
nested_scripts_example = nested_scripts toy_hashes-AreHashes exact-IsConfine (sevens 3)

-- OP_DUP, 300 bytes, and OP_EQUAL.
abbrev pushes : List Instruction
pushes = op dup ∷ slice (sevens 300) ∷ op equal ∷ []

pushes-IsInstruction : All IsInstruction pushes
unfolding to_u8
pushes-IsInstruction = (omega arith, (omega arith, (omega arith, tt)))

pushes_size : total_size pushes ≡ 305
unfolding total_size len_for_slice
pushes_size = refl

instructions-build_example :
    (s : Bytes) × (build exact pushes [] ≡ some s) × (instructions (length s) s ≡ some pushes)
instructions-build_example =
    instructions-build exact-IsConfine pushes pushes-IsInstruction (omega (arith, pushes_size))

standard_instructions_example :
    ReadsAs
      (p2pkh exact (sevens 20))
      (op dup ∷ op hash160 ∷ slice (sevens 20) ∷ op equal_verify ∷ op check_sig ∷ [])
    × ReadsAs (p2sh exact (sevens 20)) (op hash160 ∷ slice (sevens 20) ∷ op equal ∷ [])
    × ReadsAs (op_return_script exact (sevens 80)) (op return ∷ slice (sevens 80) ∷ [])
standard_instructions_example =
    standard_instructions exact-IsConfine (sevens 20) (sevens 80) refl (omega arith)

short_build :
    build exact (op dup ∷ slice (3 ∷ []) ∷ []) (0x51 ∷ []) ≡ some (0x51 ∷ 0x76 ∷ 1 ∷ 3 ∷ [])
unfolding build push_opcode push_slice to_u8
short_build = refl

build-Grows_example : Grows (0x51 ∷ []) (0x51 ∷ 0x76 ∷ 1 ∷ 3 ∷ [])
build-Grows_example =
    build-Grows exact-IsConfine (op dup ∷ slice (3 ∷ []) ∷ []) (0x51 ∷ [])
      (0x51 ∷ 0x76 ∷ 1 ∷ 3 ∷ []) (omega arith) short_build
