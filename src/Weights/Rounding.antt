-- ===== src/Weights/Rounding.antt =====
-- consensus/src/weights.rs: virtual bytes, which are computed through an f32.
use native.Mathlib.Decide.{dec_lt, ℕ_discrete}
use bp_core.Base.{
  ℕ, ◌+◌, ◌*◌, ◌/◌, ◌%◌, ◌^◌, ◌≤◌, ◌<◌, ◌≡◌, ◌⊎◌, inl, inr, refl, ltb, if◌then◌else◌, arith, lt→ltb,
  le→ltb,
}
use native.Mathlib.Nat.{div-add-mod', mod-lt, add-mul, add-zero}
use bp_core.Weights.{round_to, as_f32, vbytes}

-- Up to 2 ^ 24 weight units a virtual byte is four units, rounded up.
pub vbytes_exact : (w : ℕ) → w ≤ 2 ^ 24 → vbytes w ≡ (w + 3) / 4
unfolding vbytes round_to
vbytes_exact w h = ground arith

-- A weight of 4 * k + 1 units between 2 ^ 24 and 2 ^ 25 gives one virtual byte less than a fourth
-- of it rounded up.
pub vbytes_short :
    (k : ℕ) → 2 ^ 24 < 4 * k + 1 → 4 * k + 1 < 2 ^ 25 → vbytes (4 * k + 1) + 1 ≡ (4 * k + 1 + 3) / 4
unfolding vbytes round_to
vbytes_short k lo hi = ground arith

-- The value `f` is a multiple of the unit `u` nearest to `w`, an even one where two are as near.
abbrev pub IsNearest : ℕ → ℕ → ℕ → Type 0
IsNearest u w f =
    (q : ℕ) × (f ≡ q * u)
    × (((2 * w < 2 * f + u) × (2 * f < 2 * w + u))
        ⊎ (((2 * w ≡ 2 * f + u) ⊎ (2 * f ≡ 2 * w + u)) × (q % 2 ≡ 0)))

-- The value `f` is `w` in a format of 24 bits: the unit is a power of two, with `w` below 2 ^ 24
-- units, and it is the least such.
abbrev pub IsF32 : ℕ → ℕ → Type 0
IsF32 w f =
    (e : ℕ) × (w < 2 ^ 24 * 2 ^ e) × ((e ≡ 0) ⊎ (2 ^ 23 * 2 ^ e ≤ w)) × IsNearest (2 ^ e) w f

round_to-IsNearest : (u w : ℕ) → 0 < u → IsNearest u w (round_to u w)
unfolding round_to
round_to-IsNearest u w pos =
    let q = w / u in
    let whole = div-add-mod' w u in
    let below = mod-lt w pos in
    let next : (q + 1) * u ≡ q * u + u = rw (add-mul q 1 u) (omega arith) in
    elim (dec_lt (2 * (w % u)) u) [
      | yes low ↦
          rw (lt→ltb (2 * (w % u)) u low)
            (q, refl, inl (omega (arith, whole), omega (arith, whole)))
      | no middle ↦ elim (dec_lt u (2 * (w % u))) [
        | yes high ↦
            rw (le→ltb (2 * (w % u)) u (omega arith), lt→ltb u (2 * (w % u)) high)
              (q + 1, refl, inl (omega (arith, whole, next), omega (arith, whole, next)))
        | no tie ↦
            rw (le→ltb (2 * (w % u)) u (omega arith), le→ltb u (2 * (w % u)) (omega arith))
              (elim (ℕ_discrete (q % 2) 0) [
                | yes even ↦ rw (even, add-zero q) (q, refl, inr (inl (omega (arith, whole)), even))
                | no odd ↦
                    let one : q % 2 ≡ 1 = omega arith in
                    rw one (q + 1, refl, inr (inr (omega (arith, whole, next)), omega arith))
              ])
      ]
    ]

by_bound :
    (P : ℕ → Type 0) (w bound x y : ℕ)
    → (w < bound → P x)
    → (bound ≤ w → P y)
    → P (if ltb w bound then x else y)
by_bound P w bound x y below above = elim (dec_lt w bound) [
  | yes a ↦ rw (lt→ltb w bound a) (below a)
  | no a ↦ rw (le→ltb w bound (omega arith)) (above (omega arith))
]

-- A weight of that many bits, rounded to the unit with that exponent.
rounded :
    (e w : ℕ) → 0 < 2 ^ e → 2 ^ 23 * 2 ^ e ≤ w → w < 2 ^ 24 * 2 ^ e → IsF32 w (round_to (2 ^ e) w)
rounded e w pos low high = (e, high, inr low, round_to-IsNearest (2 ^ e) w pos)

as_f32-IsF32 : (w : ℕ) → w < 2 ^ 32 → IsF32 w (as_f32 w)
unfolding as_f32
as_f32-IsF32 w h =
    let at = by_bound (IsF32 w) w in
    at (2 ^ 24) _ _ (λ b. (0, b, inl refl, (w, omega arith, inl (omega arith, omega arith))))
      (λ a.
        at (2 ^ 25) _ _ (λ b. rounded 1 w (omega arith) (omega arith) (omega arith))
          (λ a.
            at (2 ^ 26) _ _ (λ b. rounded 2 w (omega arith) (omega arith) (omega arith))
              (λ a.
                at (2 ^ 27) _ _ (λ b. rounded 3 w (omega arith) (omega arith) (omega arith))
                  (λ a.
                    at (2 ^ 28) _ _ (λ b. rounded 4 w (omega arith) (omega arith) (omega arith))
                      (λ a.
                        at (2 ^ 29) _ _ (λ b. rounded 5 w (omega arith) (omega arith) (omega arith))
                          (λ a.
                            at (2 ^ 30) _ _
                              (λ b. rounded 6 w (omega arith) (omega arith) (omega arith))
                              (λ a.
                                at (2 ^ 31) _ _
                                  (λ b. rounded 7 w (omega arith) (omega arith) (omega arith))
                                  (λ a.
                                    rounded 8 w (omega arith) (omega arith) (omega arith)))))))))

-- For every weight that is a u32, the virtual bytes are the fourth, rounded up, of the weight as a
-- number of 24 bits: the nearest multiple of the least power of two that has the weight below
-- 2 ^ 24 units, an even multiple where two are as near.
pub vbytes_lem :
    (w : ℕ) → w < 2 ^ 32 → (f : ℕ) × IsF32 w f × (f ≤ 4 * vbytes w) × (4 * vbytes w < f + 4)
unfolding vbytes
vbytes_lem w h = (as_f32 w, as_f32-IsF32 w h, omega arith, omega arith)
