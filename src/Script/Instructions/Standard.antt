-- ===== src/Script/Instructions/Standard.antt =====
-- consensus/src/script.rs: the standard scripts as sequences of instructions.
use bp_core.Base.{
  sym, ◌∙◌, ◌+◌, ◌≤◌, ◌≡◌, refl, arith, List, [], ◌∷◌, length, Bytes, Option, none, some, All,
}
use bp_core.Codec.{Confine, u32_max}
use bp_core.Codec.Array.{IsConfine}
use bp_core.Script.{len_for_slice, ◌>>=◌}
use bp_core.Script.OpCodes.{to_u8}
use bp_core.Script.{p2pkh, p2sh, op_return_script}
use bp_core.Script.OpCodes.{dup, hash160, equal_verify, check_sig, equal, return}
use bp_core.Script.Instructions.{
  Instruction, op, slice, build, instructions, IsInstruction, size, total_size,
}
use bp_core.Script.Instructions.Reading.{instructions-build}

-- A script is made without a panic, and it reads back as these instructions.
abbrev pub ReadsAs : Option Bytes → List Instruction → Type 0
ReadsAs made is = (s : Bytes) × (made ≡ some s) × (instructions (length s) s ≡ some is)

bind_some : (o : Option Bytes) → (o >>= λ s. some s) ≡ o
bind_some none = refl
bind_some (some s) = refl

module _ {E : Type 0} {confine : Confine E} (k : IsConfine confine) where
  reads_as :
      (is : List Instruction) (o : Option Bytes)
      → build confine is [] ≡ o
      → All IsInstruction is
      → total_size is ≤ u32_max
      → ReadsAs o is
  reads_as is o e v room =
      let (s, made, read) = instructions-build k is v room in (s, sym e ∙ made, read)

  p2pkh_reads :
      (hash : Bytes)
      → length hash ≡ 20
      → ReadsAs
          (p2pkh confine hash)
          (op dup ∷ op hash160 ∷ slice hash ∷ op equal_verify ∷ op check_sig ∷ [])
  unfolding build p2pkh to_u8 total_size size len_for_slice
  p2pkh_reads hash e =
      reads_as (op dup ∷ op hash160 ∷ slice hash ∷ op equal_verify ∷ op check_sig ∷ [])
        (p2pkh confine hash) (simp bind_some) (ground arith) (ground arith)

  p2sh_reads :
      (hash : Bytes)
      → length hash ≡ 20
      → ReadsAs (p2sh confine hash) (op hash160 ∷ slice hash ∷ op equal ∷ [])
  unfolding build p2sh to_u8 total_size size len_for_slice
  p2sh_reads hash e =
      reads_as (op hash160 ∷ slice hash ∷ op equal ∷ []) (p2sh confine hash) (simp bind_some)
        (ground arith) (ground arith)

  op_return_reads :
      (bytes : Bytes)
      → length bytes + 6 ≤ u32_max
      → ReadsAs (op_return_script confine bytes) (op return ∷ slice bytes ∷ [])
  unfolding build op_return_script to_u8 total_size size len_for_slice
  op_return_reads bytes h =
      reads_as (op return ∷ slice bytes ∷ []) (op_return_script confine bytes) (simp bind_some)
        (ground arith) (ground arith)

  -- For a hash of 20 bytes and data up to six bytes below u32::MAX, the P2PKH, P2SH and OP_RETURN
  -- scripts are made without a panic and read back as their instructions, with the hash or the data
  -- as the one push.
  pub standard_instructions :
      (hash bytes : Bytes)
      → length hash ≡ 20
      → length bytes + 6 ≤ u32_max
      → ReadsAs
          (p2pkh confine hash)
          (op dup ∷ op hash160 ∷ slice hash ∷ op equal_verify ∷ op check_sig ∷ [])
        × ReadsAs (p2sh confine hash) (op hash160 ∷ slice hash ∷ op equal ∷ [])
        × ReadsAs (op_return_script confine bytes) (op return ∷ slice bytes ∷ [])
  standard_instructions hash bytes e h =
      (p2pkh_reads hash e, p2sh_reads hash e, op_return_reads bytes h)
