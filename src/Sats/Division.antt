-- ===== src/Sats/Division.antt =====
-- consensus/src/tx.rs: the signed form of an amount, its division by a number, and its text.
use native.Mathlib.Nat.{div-add-mod'}
use native.Mathlib.Decide.{ℕ_discrete}
use bp_core.Base.{
  ℕ, ◌+◌, ◌*◌, ◌/◌, ◌%◌, ◌^◌, ◌<◌, ◌≡◌, ◌≢◌, ◌⊎◌, ◌↔◌, inl, inr, sym, arith, Bool, Option, none,
  some, ltb, ◌==◌, if◌then◌else◌,
}
use bp_core.Base.Result.{Result, ok}
use bp_core.Sats.{saturating_add, saturating_sub}
use bp_core.Text.{Text, ParseIntError, from_str_radix, to_string}
use bp_core.Text.Numbers.{from_str_radix-to_string}
use bp_core.Tx.{Sats}

-- `i64::try_from(self.0).expect(..)`, where `none` stands for a panic.
unfoldable pub sats_i64 : Sats → Option ℕ
sats_i64 s = if ltb s (2 ^ 63) then some s else none

-- `Div<usize>` and `Rem<usize>`, which panic on 0.
unfoldable pub div : Sats → ℕ → Option Sats
div s rhs = if rhs == 0 then none else some (s / rhs)

unfoldable pub rem : Sats → ℕ → Option Sats
rem s rhs = if rhs == 0 then none else some (s % rhs)

-- The new value of `self`.
unfoldable pub saturating_add_assign : Sats → Sats → Sats
saturating_add_assign a b = saturating_add a b

unfoldable pub saturating_sub_assign : Sats → Sats → Sats
saturating_sub_assign a b = saturating_sub a b

-- `PartialEq<u64>`
unfoldable pub eq_u64 : Sats → ℕ → Bool
eq_u64 s n = s == n

-- `Display for Sats`, and the derived `FromStr`, that of u64.
unfoldable pub sats_display : Sats → Text
sats_display s = to_string s

unfoldable pub sats_from_str : Text → Result ParseIntError Sats
sats_from_str s = from_str_radix 10 (2 ^ 64) s

-- An amount divided by a number other than 0: the quotient, as often as the number, and the
-- remainder below the number make up the amount; by 0 both panic.
pub div-rem :
    (s : Sats) (n : ℕ)
    → ((n ≢ 0)
        × (q : Sats) × (r : Sats) × (div s n ≡ some q)
        × (rem s n ≡ some r)
        × (s ≡ q * n + r)
        × (r < n))
      ⊎ ((n ≡ 0) × (div s n ≡ none) × (rem s n ≡ none))
unfolding div rem
div-rem s n = elim (ℕ_discrete n 0) [
  | yes zero' ↦ inr (zero', ground (arith, zero'), ground (arith, zero'))
  | no nonzero ↦ inl (
    nonzero,
    s / n,
    s % n,
    ground (arith, nonzero),
    ground (arith, nonzero),
    sym (div-add-mod' s n),
    grind (arith, nonzero),
  )
]

-- A u64 amount reads back from its text.
pub sats_from_str-sats_display : (s : Sats) → s < 2 ^ 64 → sats_from_str (sats_display s) ≡ ok s
unfolding sats_from_str sats_display
sats_from_str-sats_display s h = from_str_radix-to_string (2 ^ 64) s h (omega arith)

-- An amount is an i64 exactly if it is below 2 ^ 63.
pub sats_i64_iff : (s : Sats) → (sats_i64 s ≡ some s) ↔ (s < 2 ^ 63)
unfolding sats_i64
sats_i64_iff s = (λ e. ground (arith, e), λ h. ground (arith, h))
