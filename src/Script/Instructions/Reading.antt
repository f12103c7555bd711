-- ===== src/Script/Instructions/Reading.antt =====
-- consensus/src/script.rs: scripts built by `push_opcode` and `push_slice` read back by the grammar of
-- Bitcoin scripts.
use native.Mathlib.Decide.{dec_lt}
use bp_core.Base.{
  ◌∙◌, true, false, take-append, drop-append, ℕ, zero, suc, ◌+◌, ◌^◌, ◌≤◌, ◌<◌, ◌≡◌, refl, arith,
  List, [], ◌∷◌, ◌++◌, length, Bytes, Option, none, some, length-append, append_assoc, append-nil,
  leb, ◌==◌, le→leb, lt→ltb, le→ltb, All,
}
use bp_core.Codec.{Confine, u32_max}
use bp_core.Codec.Array.{IsConfine}
use bp_core.Codec.Ints.{to_le_bytes, length-to_le_bytes, from_le_bytes-to_le_bytes}
use bp_core.Script.{len_for_slice, ◌>>=◌}
use bp_core.Script.OpCodes.{OpCode, to_u8, try_from, push_bytes0}
use bp_core.Script.Slices.{push_prefix, push_slice_lem, len_for_slice_lem}
use bp_core.Script.Standard.{opcode_fits}
use bp_core.Script.Instructions.{
  Instruction, op, slice, add, build, cut, sliced, sized, instruction, instructions, IsInstruction,
  text, size, total_size, texts,
}

length-text : (i : Instruction) → length (text i) ≡ size i
unfolding text size
length-text (op c) = refl
length-text (slice bytes) =
    omega
      (arith, len_for_slice_lem (length bytes), length-append (push_prefix (length bytes)) bytes)

module _ {E : Type 0} {confine : Confine E} (k : IsConfine confine) where
  add_fits :
      (i : Instruction) (s : Bytes)
      → IsInstruction i
      → length s + size i ≤ u32_max
      → add confine i s ≡ some (s ++ text i)
  unfolding add text size
  add_fits (op c) s v room = opcode_fits k c s room
  add_fits (slice bytes) s v room = push_slice_lem k bytes s v room

  build_fits :
      (is : List Instruction) (s : Bytes)
      → All IsInstruction is
      → length s + total_size is ≤ u32_max
      → build confine is s ≡ some (s ++ texts is)
  unfolding build texts total_size
  build_fits [] s v room = rw append-nil
  build_fits (i ∷ is) s (v, vs) room =
      let room' : length (s ++ text i) + total_size is ≤ u32_max =
        omega (arith, length-append s (text i), length-text i) in
      rw (add_fits i s v (omega arith), build_fits is (s ++ text i) vs room', append_assoc)

sliced_lem :
    (n : ℕ) (bytes rest : Bytes)
    → length bytes ≡ n
    → sliced n (bytes ++ rest) ≡ some (slice bytes, rest)
unfolding sliced cut
sliced_lem n bytes rest e =
    let enough : leb n (length (bytes ++ rest)) ≡ true =
      le→leb n _ (omega (arith, length-append bytes rest)) in
    rw (enough, take-append bytes rest n e, drop-append bytes rest n e)

sized_lem :
    (w : ℕ) (bytes rest : Bytes)
    → length bytes < 256 ^ w
    → sized w (to_le_bytes w (length bytes) ++ (bytes ++ rest)) ≡ some (slice bytes, rest)
unfolding sized cut
sized_lem w bytes rest h =
    let n = to_le_bytes w (length bytes) in
    let e = length-to_le_bytes w (length bytes) in
    let enough : leb w (length (n ++ (bytes ++ rest))) ≡ true =
      le→leb w _ (omega (arith, length-append n (bytes ++ rest))) in
    rw
      (
        enough,
        take-append n (bytes ++ rest) w e,
        drop-append n (bytes ++ rest) w e,
        from_le_bytes-to_le_bytes w (length bytes) h,
      )
      (sliced_lem (length bytes) bytes rest refl)

unfoldable head_instruction : Bytes → Option (Instruction × Bytes)
head_instruction [] = none
head_instruction (b ∷ s) = instruction b s

-- Every opcode reads back from its byte.
pub try_from-to_u8 : (c : OpCode) → try_from (to_u8 c) ≡ some c
unfolding try_from
try_from-to_u8 push_bytes0 = refl
try_from-to_u8 _ = refl

-- Data in each of the four forms of a push, by its length.
head_slice :
    (bytes rest : Bytes)
    → length bytes < 2 ^ 32
    → head_instruction ((push_prefix (length bytes) ++ bytes) ++ rest) ≡ some (slice bytes, rest)
unfolding head_instruction instruction push_prefix
head_slice bytes rest v =
    let n = length bytes in
    elim (dec_lt n 0x4c) [
      | yes a ↦ rw (lt→ltb n 0x4c a, lt→ltb n 0x4c a) (sliced_lem n bytes rest refl)
      | no a ↦ elim (dec_lt n 0x100) [
        | yes b ↦
            rw (le→ltb n 0x4c (omega arith), lt→ltb n 0x100 b, append_assoc)
              (sized_lem 1 bytes rest (omega arith))
        | no b ↦ elim (dec_lt n 0x10000) [
          | yes c ↦
              rw
                (
                  le→ltb n 0x4c (omega arith),
                  le→ltb n 0x100 (omega arith),
                  lt→ltb n 0x10000 c,
                  append_assoc,
                )
                (sized_lem 2 bytes rest (omega arith))
          | no c ↦
              rw
                (
                  le→ltb n 0x4c (omega arith),
                  le→ltb n 0x100 (omega arith),
                  le→ltb n 0x10000 (omega arith),
                  append_assoc,
                )
                (sized_lem 4 bytes rest (omega arith))
        ]
      ]
    ]

head_text :
    (i : Instruction) (rest : Bytes)
    → IsInstruction i
    → head_instruction (text i ++ rest) ≡ some (i, rest)
unfolding head_instruction text instruction
head_text (op c) rest v =
    let b = to_u8 c in
    let eq : (n : ℕ) → n < 0x4f → (b == n) ≡ false = λ n h. ground (arith, v, h) in
    rw
      (
        le→ltb b 0x4c (omega arith),
        eq 0x4c (omega arith),
        eq 0x4d (omega arith),
        eq 0x4e (omega arith),
        try_from-to_u8 c,
      )
      refl
head_text (slice bytes) rest v = head_slice bytes rest v

instructions_step :
    (fuel : ℕ) (s : Bytes) (i : Instruction) (rest : Bytes)
    → head_instruction s ≡ some (i, rest)
    → instructions (suc fuel) s ≡ (instructions fuel rest >>= λ is. some (i ∷ is))
unfolding instructions head_instruction
instructions_step fuel [] i rest e = absurd cc
instructions_step fuel (b ∷ s) i rest e = rw e refl

size_pos : (i : Instruction) → 0 < size i
unfolding size len_for_slice
size_pos (op c) = omega arith
size_pos (slice bytes) = ground arith

-- Fuel for the size of the instructions is enough, and so is any more.
instructions-texts :
    (is : List Instruction) (fuel : ℕ)
    → All IsInstruction is
    → total_size is ≤ fuel
    → instructions fuel (texts is) ≡ some is
unfolding texts total_size
instructions-texts [] fuel v h = unfold instructions in refl
instructions-texts (i ∷ is) zero v h = absurd (omega (arith, size_pos i))
instructions-texts (i ∷ is) (suc fuel) (v, vs) h =
    instructions_step fuel (text i ++ texts is) i (texts is) (head_text i (texts is) v)
    ∙ rw (instructions-texts is fuel vs (omega (arith, size_pos i))) refl

length-texts : (is : List Instruction) → length (texts is) ≡ total_size is
unfolding texts total_size
length-texts [] = refl
length-texts (i ∷ is) =
    omega (arith, length-append (text i) (texts is), length-text i, length-texts is)

-- Opcodes other than pushes, and data shorter than 2 ^ 32 bytes, whose sizes add up to at most
-- u32::MAX, are added one after another without a panic, and the script reads back as them.
pub instructions-build :
    {E : Type 0} {confine : Confine E} (k : IsConfine confine) (is : List Instruction)
    → All IsInstruction is
    → total_size is ≤ u32_max
    → (s : Bytes) × (build confine is [] ≡ some s) × (instructions (length s) s ≡ some is)
instructions-build k is v room = (
  texts is,
  build_fits k is [] v (omega arith),
  rw (length-texts is) (instructions-texts is (total_size is) v (omega arith)),
)
