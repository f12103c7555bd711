-- ===== src/Script/Recognition.antt =====
-- consensus/src/script.rs: the scripts that `is_p2pkh` and `is_p2sh` hold of.
use bp_core.Base.{
  get_after, ℕ, zero, suc, ◌+◌, ◌≡◌, ◌↔◌, refl, sym, ap, ◌∙◌, arith, true, [], ◌∷◌, ◌++◌, length,
  Bytes, some, length-append,
}
use bp_core.Base.Result.{some-injective}
use bp_core.Codec.{Confine}
use bp_core.Codec.Array.{IsConfine}
use bp_core.Script.{p2pkh, p2sh, is_p2pkh, is_p2sh}
use bp_core.Script.Standard.{is_p2pkh-p2pkh, is_p2sh-p2sh}

pub cut_at :
    (s : Bytes) (n m : ℕ)
    → length s ≡ n + m
    → (a : Bytes) × (b : Bytes) × (s ≡ a ++ b) × (length a ≡ n) × (length b ≡ m)
cut_at s zero m e = ([], s, refl, refl, omega arith)
cut_at [] (suc n) m e = absurd (omega arith)
cut_at (x ∷ s) (suc n) m e =
    let (a, b, same, la, lb) = cut_at s n m (omega arith) in
    (x ∷ a, b, ap (λ t. x ∷ t) same, ap suc la, lb)

p2pkh_values :
    (a b c : ℕ) (hash : Bytes) (x y : ℕ)
    → length hash ≡ 20
    → is_p2pkh (a ∷ b ∷ c ∷ (hash ++ x ∷ y ∷ [])) ≡ true
    → (a ≡ 0x76) × (b ≡ 0xa9) × (c ≡ 20) × (x ≡ 0x88) × (y ≡ 0xac)
unfolding is_p2pkh
p2pkh_values a b c hash x y size e =
    let tests =
      rw
        (
          length-append hash (x ∷ y ∷ []),
          size,
          get_after hash (x ∷ y ∷ []) 20 0 (omega arith),
          get_after hash (x ∷ y ∷ []) 21 1 (omega arith),
        )
        at e in
    (
      ground (arith, tests),
      ground (arith, tests),
      ground (arith, tests),
      ground (arith, tests),
      ground (arith, tests),
    )

p2sh_values :
    (a b : ℕ) (hash : Bytes) (x : ℕ)
    → length hash ≡ 20
    → is_p2sh (a ∷ b ∷ (hash ++ x ∷ [])) ≡ true
    → (a ≡ 0xa9) × (b ≡ 20) × (x ≡ 0x87)
unfolding is_p2sh
p2sh_values a b hash x size e =
    let tests =
      rw (length-append hash (x ∷ []), size, get_after hash (x ∷ []) 20 0 (omega arith)) at e in
    (ground (arith, tests), ground (arith, tests), ground (arith, tests))

p2pkh_length : (s : Bytes) → is_p2pkh s ≡ true → length s ≡ 25
unfolding is_p2pkh
p2pkh_length s e = ground (arith, e)

p2sh_length : (s : Bytes) → is_p2sh s ≡ true → length s ≡ 23
unfolding is_p2sh
p2sh_length s e = ground (arith, e)

one : (s : Bytes) → length s ≡ 1 → (x : ℕ) × (s ≡ x ∷ [])
one [] e = absurd (omega arith)
one (x ∷ []) e = (x, refl)
one (x ∷ y ∷ s) e = absurd (omega arith)

pub two : (s : Bytes) → length s ≡ 2 → (x : ℕ) × (y : ℕ) × (s ≡ x ∷ y ∷ [])
two [] e = absurd (omega arith)
two (x ∷ s) e = let (y, same) = one s (omega arith) in (x, y, rw same refl)

three : (s : Bytes) → length s ≡ 3 → (x : ℕ) × (y : ℕ) × (z : ℕ) × (s ≡ x ∷ y ∷ z ∷ [])
three [] e = absurd (omega arith)
three (x ∷ s) e = let (y, z, same) = two s (omega arith) in (x, y, z, rw same refl)

-- The bytes of a script that the test holds of.
p2pkh_form :
    (s : Bytes)
    → is_p2pkh s ≡ true
    → (hash : Bytes) × (length hash ≡ 20) × (s ≡ 0x76 ∷ 0xa9 ∷ 20 ∷ (hash ++ 0x88 ∷ 0xac ∷ []))
p2pkh_form s e =
    let (front, tail, same, lf, lt) = cut_at s 3 22 (p2pkh_length s e) in
    let (hash, back, same', lh, lb) = cut_at tail 20 2 lt in
    let (a, b, c, first) = three front lf in
    let (x, y, last) = two back lb in
    let whole : s ≡ a ∷ b ∷ c ∷ (hash ++ x ∷ y ∷ []) = rw (same, same', first, last) refl in
    let (ea, eb, ec, ex, ey) = p2pkh_values a b c hash x y lh (rw whole at e) in
    (hash, lh, rw (whole, ea, eb, ec, ex, ey) refl)

p2sh_form :
    (s : Bytes)
    → is_p2sh s ≡ true
    → (hash : Bytes) × (length hash ≡ 20) × (s ≡ 0xa9 ∷ 20 ∷ (hash ++ 0x87 ∷ []))
p2sh_form s e =
    let (front, tail, same, lf, lt) = cut_at s 2 21 (p2sh_length s e) in
    let (hash, back, same', lh, lb) = cut_at tail 20 1 lt in
    let (a, b, first) = two front lf in
    let (x, last) = one back lb in
    let whole : s ≡ a ∷ b ∷ (hash ++ x ∷ []) = rw (same, same', first, last) refl in
    let (ea, eb, ex) = p2sh_values a b hash x lh (rw whole at e) in
    (hash, lh, rw (whole, ea, eb, ex) refl)

module _ {E : Type 0} {confine : Confine E} (k : IsConfine confine) where
  -- `is_p2pkh` holds of exactly the scripts that `p2pkh` makes of a hash of 20 bytes.
  pub is_p2pkh_iff :
      (s : Bytes)
      → (is_p2pkh s ≡ true) ↔ ((hash : Bytes) × (length hash ≡ 20) × (p2pkh confine hash ≡ some s))
  is_p2pkh_iff s = (
    λ e.
        let (hash, size, same) = p2pkh_form s e in
        (hash, size, rw same (is_p2pkh-p2pkh k hash size).0),
    λ (hash, size, made).
        let (made', holds) = is_p2pkh-p2pkh k hash size in
        rw (← some-injective _ _ (sym made' ∙ made)) holds,
  )

  -- `is_p2sh` holds of exactly the scripts that `p2sh` makes of a hash of 20 bytes.
  pub is_p2sh_iff :
      (s : Bytes)
      → (is_p2sh s ≡ true) ↔ ((hash : Bytes) × (length hash ≡ 20) × (p2sh confine hash ≡ some s))
  is_p2sh_iff s = (
    λ e.
        let (hash, size, same) = p2sh_form s e in
        (hash, size, rw same (is_p2sh-p2sh k hash size).0),
    λ (hash, size, made).
        let (made', holds) = is_p2sh-p2sh k hash size in
        rw (← some-injective _ _ (sym made' ∙ made)) holds,
  )
