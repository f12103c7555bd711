-- ===== src/Sats.antt =====
-- consensus/src/tx.rs: Sats, amounts in u64 with checked and saturating arithmetic.
pub mod Division
use bp_core.Base.{
  ℕ, ◌+◌, ◌-◌, ◌*◌, ◌/◌, ◌%◌, ◌^◌, ◌≤◌, ◌<◌, ◌≡◌, arith, Option, none, some, Bool, ltb, leb, ◌==◌,
  not, if◌then◌else◌, List, [], ◌∷◌, ◌⊎◌,
}
use bp_core.Tx.{Sats}
use Prim.Native.Nat.{min}

abbrev pub u64_max : ℕ
u64_max = 2 ^ 64 - 1

abbrev pub btc : Sats
btc = 1_000_000_00

unfoldable pub from_btc : ℕ → Sats
from_btc n = n * btc

unfoldable pub is_zero : Sats → Bool
is_zero s = s == 0

unfoldable pub is_non_zero : Sats → Bool
is_non_zero s = not (s == 0)

unfoldable pub sats_rem : Sats → ℕ
sats_rem s = s % btc

-- `2 * self.sats_rem()` is below 2 * BTC, so no u64 operation here can overflow.
unfoldable pub btc_round : Sats → ℕ
unfolding sats_rem
btc_round s = if s == 0 then 0 else (let inc = 2 * sats_rem s / btc in s / btc + inc)

unfoldable pub btc_ceil : Sats → ℕ
unfolding sats_rem
btc_ceil s =
    if s == 0 then 0 else (let inc = (if ltb 0 (sats_rem s) then 1 else 0) in s / btc + inc)

unfoldable pub btc_floor : Sats → ℕ
btc_floor s = if s == 0 then 0 else s / btc

unfoldable pub btc_sats : Sats → ℕ × ℕ
unfolding btc_floor sats_rem
btc_sats s = (btc_floor s, sats_rem s)

-- `u64::checked_add` and its kin of the standard library.
unfoldable pub checked_add : Sats → Sats → Option Sats
checked_add a b = if leb (a + b) u64_max then some (a + b) else none

unfoldable pub checked_sub : Sats → Sats → Option Sats
checked_sub a b = if leb b a then some (a - b) else none

-- The new value of `self`, and the result; on overflow `self` stays.
unfoldable pub checked_add_assign : Sats → Sats → Sats × Option Sats
unfolding checked_add
checked_add_assign a b = elim (checked_add a b) [ none ↦ (a, none) | some c ↦ (c, some c) ]

unfoldable pub checked_sub_assign : Sats → Sats → Sats × Option Sats
unfolding checked_sub
checked_sub_assign a b = elim (checked_sub a b) [ none ↦ (a, none) | some c ↦ (c, some c) ]

unfoldable pub saturating_add : Sats → Sats → Sats
saturating_add a b = if leb (a + b) u64_max then a + b else u64_max

unfoldable pub saturating_sub : Sats → Sats → Sats
saturating_sub a b = if leb b a then a - b else 0

-- `iter.fold(Sats::ZERO, |sum, value| sum.saturating_add(value))`
unfoldable pub sum_from : Sats → List Sats → Sats
sum_from acc [] = acc
sum_from acc (s ∷ ss) = sum_from (saturating_add acc s) ss

unfoldable pub sum : List Sats → Sats
unfolding sum_from
sum ss = sum_from 0 ss

-- The sum with no bound.
unfoldable pub total : List Sats → ℕ
total [] = 0
total (s ∷ ss) = s + total ss

-- The whole coins and the remainder make up the amount, and the remainder is below one coin.
pub btc_sats_lem : (s : Sats) → (s ≡ (btc_sats s).0 * btc + (btc_sats s).1) × ((btc_sats s).1 < btc)
unfolding btc_sats
btc_sats_lem s = ground arith

-- The three roundings in coins of 10 ^ 8: `btc_floor` is the last whole number not above the amount,
-- `btc_ceil` the first not below it, and `btc_round` is at most half a coin above the amount and
-- less than half a coin below it.
pub btc_roundings :
    (s : Sats)
    → (btc_floor s * btc ≤ s)
      × (s < (btc_floor s + 1) * btc)
      × (s ≤ btc_ceil s * btc)
      × (btc_ceil s * btc < s + btc)
      × (btc_round s * btc ≤ s + btc / 2)
      × (s < btc_round s * btc + btc / 2)
unfolding btc_floor btc_ceil btc_round
btc_roundings s = ground arith

sum_from-eq-min :
    (acc : Sats) (ss : List Sats) → acc ≤ u64_max → sum_from acc ss ≡ min (acc + total ss) u64_max
unfolding sum_from total saturating_add
sum_from-eq-min acc [] h = omega arith
sum_from-eq-min acc (s ∷ ss) h = ground (arith, sum_from-eq-min (saturating_add acc s) ss)

-- The sum of amounts is their exact total, or u64::MAX where that is larger.
pub sum-eq-min : (ss : List Sats) → sum ss ≡ min (total ss) u64_max
unfolding sum
sum-eq-min ss = omega (arith, sum_from-eq-min 0 ss (omega arith))

-- On two u64 amounts checked and saturating arithmetic agree: where the exact result is a u64 both
-- give it; elsewhere the checked form gives none and keeps the amount, and the saturating form
-- gives the nearest bound.
pub checked_assign :
    (a b : Sats)
    → a ≤ u64_max
    → b ≤ u64_max
    → (((checked_add_assign a b ≡ (a + b, some (a + b)))
          × (saturating_add a b ≡ a + b)
          × (a + b ≤ u64_max))
        ⊎ ((checked_add_assign a b ≡ (a, none))
            × (saturating_add a b ≡ u64_max)
            × (u64_max < a + b)))
      × (((checked_sub_assign a b ≡ (a - b, some (a - b))) × (saturating_sub a b ≡ a - b) × (b ≤ a))
          ⊎ ((checked_sub_assign a b ≡ (a, none)) × (saturating_sub a b ≡ 0) × (a < b)))
unfolding checked_add_assign checked_sub_assign saturating_add saturating_sub
checked_assign a b ha hb = ground arith
