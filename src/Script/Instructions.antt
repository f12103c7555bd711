-- ===== src/Script/Instructions.antt =====
-- consensus/src/script.rs: scripts built from instructions by `push_opcode` and `push_slice`, as
-- `p2pkh` and its like build them, and the reading of a script by the grammar of Bitcoin scripts.
pub mod Reading
pub mod Standard
pub mod Growth
use native.Mathlib.Decide.{dec_lt}
use bp_core.Base.{
  ◌∙◌, true, false, take-append, drop-append, ℕ, zero, suc, ◌+◌, ◌/◌, ◌%◌, ◌^◌, ◌≤◌, ◌<◌, ◌≡◌, refl,
  ap, arith, List, [], ◌∷◌, ◌++◌, length, Bytes, Option, none, some, length-append, append_assoc,
  append-nil, if◌then◌else◌, ltb, leb, ◌==◌, le→leb, lt→ltb, le→ltb, take, drop, All,
}
use bp_core.Codec.{Confine, u32_max}
use bp_core.Codec.Array.{IsConfine}
use bp_core.Codec.Ints.{to_le_bytes, from_le_bytes, length-to_le_bytes, from_le_bytes-to_le_bytes}
use bp_core.Script.{push_opcode, push_slice, len_for_slice, ◌>>=◌}
use bp_core.Script.OpCodes.{OpCode, to_u8, try_from, push_bytes0}
use bp_core.Script.Slices.{push_prefix, push_slice_lem, len_for_slice_lem}
use bp_core.Script.Standard.{opcode_fits}

-- A call of `push_opcode` or of `push_slice`.
pub data Instruction : Type 0 where
  op : OpCode → Instruction
  slice : Bytes → Instruction

-- Such calls, one after another.
module _ {E : Type 0} (confine : Confine E) where
  unfoldable pub add : Instruction → Bytes → Option Bytes
  add (op c) s = push_opcode confine c s
  add (slice bytes) s = push_slice confine bytes s

  unfoldable pub build : List Instruction → Bytes → Option Bytes
  unfolding add
  build [] s = some s
  build (i ∷ is) s = add i s >>= build is

-- The reference: a script is read from its start. A byte below OP_PUSHDATA1 is the length of the
-- data behind it; after OP_PUSHDATA1, 2 and 4 the length is a number of 1, 2 or 4 bytes, the lowest
-- first; any other byte is an opcode.
unfoldable pub cut : ℕ → Bytes → Option (Bytes × Bytes)
cut n s = if leb n (length s) then some (take n s, drop n s) else none

unfoldable pub sliced : ℕ → Bytes → Option (Instruction × Bytes)
unfolding cut
sliced n s = do (bytes, rest) ← cut n s; some (slice bytes, rest)

unfoldable pub sized : ℕ → Bytes → Option (Instruction × Bytes)
unfolding sliced
sized w s = do (size, rest) ← cut w s; sliced (from_le_bytes size) rest

unfoldable pub instruction : ℕ → Bytes → Option (Instruction × Bytes)
unfolding sized
instruction b s =
    if ltb b 0x4c
    then sliced b s
    else if b == 0x4c
    then sized 1 s
    else if b == 0x4d
    then sized 2 s
    else if b == 0x4e
    then sized 4 s
    else (do c ← try_from b; some (op c, s))

-- Fuel for the length of a script is enough, as an instruction takes a byte or more.
unfoldable pub instructions : ℕ → Bytes → Option (List Instruction)
unfolding instruction
instructions fuel [] = some []
instructions zero (b ∷ s) = none
instructions (suc fuel) (b ∷ s) = do
  (i, rest) ← instruction b s
  is ← instructions fuel rest
  some (i ∷ is)

-- An opcode that is not itself the start of a push, or data that `push_slice` takes.
abbrev pub IsInstruction : Instruction → Type 0
IsInstruction (op c) = 0x4e < to_u8 c
IsInstruction (slice bytes) = length bytes < 2 ^ 32

-- The bytes of an instruction, and their number by `len_for_slice`.
unfoldable pub text : Instruction → Bytes
text (op c) = to_u8 c ∷ []
text (slice bytes) = push_prefix (length bytes) ++ bytes

unfoldable pub size : Instruction → ℕ
size (op c) = 1
size (slice bytes) = len_for_slice (length bytes)

unfoldable pub total_size : List Instruction → ℕ
unfolding size
total_size [] = 0
total_size (i ∷ is) = size i + total_size is

unfoldable pub texts : List Instruction → Bytes
unfolding text
texts [] = []
texts (i ∷ is) = text i ++ texts is
