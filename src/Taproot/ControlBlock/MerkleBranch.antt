-- ===== src/Taproot/ControlBlock/MerkleBranch.antt =====
-- consensus/src/coding.rs: the Merkle branch that the decoder of control blocks reads off the bytes
-- behind the key.
use native.Mathlib.Decide.{dec_le}
use bp_core.Base.{
  ◌+◌, ◌*◌, ◌/◌, ◌%◌, ◌<◌, ◌≤◌, ◌≡◌, ◌≢◌, ◌⊎◌, inl, inr, refl, arith, Bool, List, [], ◌∷◌, length,
  Bytes, AreBytes, AreBytes-left, AreBytes-right, All, append-nil, some, none, length-append,
  Option-cases,
}
use bp_core.Codec.{
  Confine, Result, ok, err, data_error, long_tap_merkle_path, invalid_tap_merkle_path,
}
use bp_core.Codec.Ints.{IsBytes}
use bp_core.Codec.Array.{IsConfine}
use bp_core.Taproot.ControlBlock.{chunks_exact, decode_merkle_branch}
use bp_core.Taproot.ControlBlock.Chunks.{joined, IsCut, chunks_exact-IsCut}

length-joined :
    (xs : List Bytes) → All (λ x. length x ≡ 32) xs → length (joined xs) ≡ 32 * length xs
length-joined [] h = refl
length-joined (x ∷ xs) (e, es) = omega (arith, length-append x (joined xs), length-joined xs es)

chunks-AreBytes :
    (xs : List Bytes) → All (λ x. length x ≡ 32) xs → AreBytes (joined xs) → All (IsBytes 32) xs
chunks-AreBytes [] h b = tt
chunks-AreBytes (x ∷ xs) (e, es) b =
    ((e, AreBytes-left x (joined xs) b), chunks-AreBytes xs es (AreBytes-right x (joined xs) b))

module _ {E : Type 0} {confine : Confine E} (k : IsConfine confine)
    (is_xonly_pk : Bytes → Bool) where
  -- The branch that is read off the bytes behind the key: more than 128 hashes are refused first,
  -- then bytes that are left.
  abbrev pub BranchCases : Bytes → Result E (List Bytes × Bytes) → Type 0
  BranchCases tail r =
      ((128 < length tail / 32) × (r ≡ err (data_error long_tap_merkle_path)))
      ⊎ (((length tail / 32 ≤ 128)
            × (length tail % 32 ≢ 0)
            × (r ≡ err (data_error invalid_tap_merkle_path)))
          ⊎ ((branch : List Bytes) × (length tail ≡ 32 * length branch)
              × (length branch ≤ 128)
              × All (IsBytes 32) branch
              × (joined branch ≡ tail)
              × (r ≡ ok (branch, []))))

  long_branch :
      (chunks : List Bytes) (remainder : Bytes) (e : E)
      → confine 0 128 (length chunks) ≡ some e
      → (128 < length chunks)
        × (decode_merkle_branch confine is_xonly_pk (chunks, remainder) []
            ≡ err (data_error long_tap_merkle_path))
  unfolding decode_merkle_branch
  long_branch chunks remainder e refused = elim (dec_le (length chunks) 128) [
    | yes h ↦ absurd (let fits = k.accepts 0 128 (length chunks) (omega arith) h in cc)
    | no h ↦ (omega arith, rw refused refl)
  ]

  at_most : (chunks : List Bytes) → confine 0 128 (length chunks) ≡ none → length chunks ≤ 128
  at_most chunks fits = elim (dec_le (length chunks) 128) [
    | yes h ↦ h
    | no h ↦ absurd (k.rejects_long 0 128 (length chunks) (omega arith) fits)
  ]

  short_branch :
      (tail : Bytes) (chunks : List Bytes) (remainder : Bytes)
      → AreBytes tail
      → IsCut tail (chunks, remainder)
      → confine 0 128 (length chunks) ≡ none
      → BranchCases tail (decode_merkle_branch confine is_xonly_pk (chunks, remainder) [])
  unfolding IsCut decode_merkle_branch
  short_branch tail chunks [] bytes (sizes, short, whole) fits =
      let same : joined chunks ≡ tail = rw (append-nil (joined chunks)) at whole in
      let size : length tail ≡ 32 * length chunks = rw (← same) (length-joined chunks sizes) in
      let few = at_most chunks fits in
      inr
        (inr (chunks, size, few, chunks-AreBytes chunks sizes (rw same bytes), same, rw fits refl))
  short_branch tail chunks (b ∷ bs) bytes (sizes, short, whole) fits =
      let size : length tail ≡ 32 * length chunks + length (b ∷ bs) =
        rw (← whole)
          (omega (arith, length-append (joined chunks) (b ∷ bs), length-joined chunks sizes)) in
      let few = at_most chunks fits in
      inr (inl (omega arith, (λ e. absurd (omega arith)), rw fits refl))

  branch_cases :
      (tail : Bytes) (chunks : List Bytes) (remainder : Bytes)
      → AreBytes tail
      → IsCut tail (chunks, remainder)
      → BranchCases tail (decode_merkle_branch confine is_xonly_pk (chunks, remainder) [])
  unfolding IsCut
  branch_cases tail chunks remainder bytes (sizes, short, whole) =
      elim (Option-cases (confine 0 128 (length chunks))) [
        | inl fits ↦ short_branch tail chunks remainder bytes (sizes, short, whole) fits
        | inr (e, refused) ↦
            let (many, stopped) = long_branch chunks remainder e refused in
            let size : length tail ≡ 32 * length chunks + length remainder = rw (← whole) (
              omega (arith, length-append (joined chunks) remainder, length-joined chunks sizes)) in
            inl (omega arith, stopped)
      ]

  pub read_branch :
      (tail : Bytes)
      → AreBytes tail
      → BranchCases tail
          (decode_merkle_branch confine is_xonly_pk (chunks_exact (length tail) tail) [])
  read_branch tail bytes =
      branch_cases tail _ _ bytes (chunks_exact-IsCut (length tail) tail (omega arith))
