-- ===== src/Script/Slices.antt =====
-- consensus/src/script.rs: what `push_slice` appends to a script.
use native.Mathlib.Decide.{dec_lt}
use bp_core.Base.{
  ℕ, ◌+◌, ◌/◌, ◌%◌, ◌^◌, ◌≤◌, ◌<◌, ◌≡◌, arith, [], ◌∷◌, ◌++◌, length, Bytes, Option, some,
  length-append, append_assoc, if◌then◌else◌, ltb, lt→ltb, le→ltb,
}
use bp_core.Codec.{Confine, u32_max}
use bp_core.Codec.Array.{IsConfine}
use bp_core.Codec.Ints.{to_le_bytes}
use bp_core.Script.{
  extend, push, push_len, push_slice, len_for_slice, op_pushdata1, op_pushdata2, op_pushdata4,
  ◌>>=◌,
}

-- The length of some data as an instruction: in one byte, or after OP_PUSHDATA1, OP_PUSHDATA2 or
-- OP_PUSHDATA4 in one, two or four bytes, the lowest first.
unfoldable pub push_prefix : ℕ → Bytes
push_prefix n =
    if ltb n op_pushdata1
    then n ∷ []
    else if ltb n (2 ^ 8)
    then op_pushdata1 ∷ to_le_bytes 1 n
    else if ltb n (2 ^ 16)
    then op_pushdata2 ∷ to_le_bytes 2 n
    else op_pushdata4 ∷ to_le_bytes 4 n

pub push_prefix_1 : (n : ℕ) → n < 0x4c → push_prefix n ≡ n ∷ []
unfolding push_prefix
push_prefix_1 n h = ground arith

push_prefix_2 : (n : ℕ) → 0x4c ≤ n → n < 0x100 → push_prefix n ≡ 0x4c ∷ n ∷ []
unfolding push_prefix to_le_bytes
push_prefix_2 n l h = ground arith

push_prefix_3 :
    (n : ℕ) → 0x100 ≤ n → n < 0x10000 → push_prefix n ≡ 0x4d ∷ n % 0x100 ∷ n / 0x100 ∷ []
unfolding push_prefix to_le_bytes
push_prefix_3 n l h = ground arith

push_prefix_5 :
    (n : ℕ)
    → 0x10000 ≤ n
    → n < 0x100000000
    → push_prefix n
      ≡ 0x4e ∷ n % 0x100 ∷ n / 0x100 % 0x100 ∷ n / 0x10000 % 0x100 ∷ n / 0x1000000 ∷ []
unfolding push_prefix to_le_bytes
push_prefix_5 n l h = ground arith

-- `len_for_slice` counts the instruction and the data.
pub len_for_slice_lem : (n : ℕ) → len_for_slice n ≡ length (push_prefix n) + n
unfolding len_for_slice push_prefix to_le_bytes
len_for_slice_lem n = ground arith

module _ {E : Type 0} {confine : Confine E} (k : IsConfine confine) where
  pub extend_fits :
      (bytes s : Bytes)
      → length s + length bytes ≤ u32_max
      → extend confine bytes s ≡ some (s ++ bytes)
  unfolding extend
  extend_fits bytes s h =
      rw (k.accepts 0 u32_max (length (s ++ bytes)) (omega arith) (rw (length-append s bytes) h))

  pub push_fits :
      (b : ℕ) (s : Bytes) → length s + 1 ≤ u32_max → push confine b s ≡ some (s ++ b ∷ [])
  unfolding push
  push_fits b s h = extend_fits (b ∷ []) s h

  -- One byte after another.
  unfoldable push_all : ℕ → Bytes → Bytes → Option Bytes
  push_all b [] s = push confine b s
  push_all b (c ∷ cs) s = push confine b s >>= push_all c cs

  push_all_fits :
      (b : ℕ) (bs s : Bytes)
      → length s + (1 + length bs) ≤ u32_max
      → push_all b bs s ≡ some (s ++ b ∷ bs)
  unfolding push_all
  push_all_fits b [] s h = push_fits b s h
  push_all_fits b (c ∷ cs) s h =
      let next : length (s ++ b ∷ []) + (1 + length cs) ≤ u32_max =
        rw (length-append s (b ∷ [])) (omega arith) in
      rw (push_fits b s (omega arith), push_all_fits c cs (s ++ b ∷ []) next, append_assoc)

  push_len_fits :
      (n : ℕ) (s : Bytes)
      → n < 2 ^ 32
      → length s + length (push_prefix n) ≤ u32_max
      → push_len confine n s ≡ some (s ++ push_prefix n)
  unfolding push_len push_all
  push_len_fits n s h fits = elim (dec_lt n 0x4c) [
    | yes a ↦ let e = push_prefix_1 n a in rw (e, lt→ltb n 0x4c a) (push_fits n s (rw e at fits))
    | no a ↦ elim (dec_lt n 0x100) [
      | yes b ↦
          let e = push_prefix_2 n (omega arith) b in
          rw (e, le→ltb n 0x4c (omega arith), lt→ltb n 0x100 b)
            (push_all_fits 0x4c (n ∷ []) s (rw e at fits))
      | no b ↦ elim (dec_lt n 0x10000) [
        | yes c ↦
            let e = push_prefix_3 n (omega arith) c in
            rw (e, le→ltb n 0x4c (omega arith), le→ltb n 0x100 (omega arith), lt→ltb n 0x10000 c)
              (push_all_fits 0x4d (n % 0x100 ∷ n / 0x100 ∷ []) s (rw e at fits))
        | no c ↦
            let e = push_prefix_5 n (omega arith) h in
            rw
              (
                e,
                le→ltb n 0x4c (omega arith),
                le→ltb n 0x100 (omega arith),
                le→ltb n 0x10000 (omega arith),
                lt→ltb n 0x100000000 h,
              )
              (push_all_fits 0x4e
                (n % 0x100 ∷ n / 0x100 % 0x100 ∷ n / 0x10000 % 0x100 ∷ n / 0x1000000 ∷ []) s
                (rw e at fits))
      ]
    ]
  ]

  -- Data shorter than 2 ^ 32 bytes, which the script has room for, is pushed as its instruction
  -- followed by itself, and nothing panics.
  pub push_slice_lem :
      (bytes s : Bytes)
      → length bytes < 2 ^ 32
      → length s + len_for_slice (length bytes) ≤ u32_max
      → push_slice confine bytes s ≡ some (s ++ (push_prefix (length bytes) ++ bytes))
  unfolding push_slice
  push_slice_lem bytes s h room =
      let n = length bytes in
      let size = len_for_slice_lem n in
      let prefix = push_prefix n in
      let room' : length (s ++ prefix) + n ≤ u32_max = rw (length-append s prefix) (omega arith) in
      rw (push_len_fits n s h (omega arith), extend_fits bytes (s ++ prefix) room', append_assoc)
