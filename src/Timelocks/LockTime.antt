-- ===== src/Timelocks/LockTime.antt =====
-- consensus/src/timelocks.rs: LockTime, a block height below the threshold and a UNIX time above it.
use bp_core.Base.{
  ℕ, ◌<◌, ◌≡◌, ◌≢◌, ◌↔◌, Bool, true, false, not, ltb, if◌then◌else◌, Option, none, some, arith,
}
use bp_core.Tx.{LockTime}
use bp_core.Timelocks.{locktime_threshold}
use Prim.Native.Nat.{compare, Ordering}

unfoldable pub is_height_based : LockTime → Bool
is_height_based t = ltb t locktime_threshold

unfoldable pub is_time_based : LockTime → Bool
unfolding is_height_based
is_time_based t = not (is_height_based t)

unfoldable pub from_height : ℕ → Option LockTime
from_height height = if ltb height locktime_threshold then some height else none

unfoldable pub from_unix_timestamp : ℕ → Option LockTime
from_unix_timestamp timestamp = if ltb timestamp locktime_threshold then none else some timestamp

-- `impl PartialOrd`: `is_height_based() != is_height_based()` gives None.
same : Bool → Bool → Bool
same true b = b
same false b = not b

unfoldable pub partial_cmp : LockTime → LockTime → Option Ordering
unfolding is_height_based same
partial_cmp a b = if same (is_height_based a) (is_height_based b) then some (compare a b) else none

-- Every u32 is accepted by exactly one of the two constructors, with its kind.
pub constructors :
    (n : ℕ)
    → ((from_height n ≡ some n) ↔ (is_height_based n ≡ true))
      × ((from_unix_timestamp n ≡ some n) ↔ (is_time_based n ≡ true))
      × ((from_height n ≡ none) ↔ (is_time_based n ≡ true))
      × ((from_unix_timestamp n ≡ none) ↔ (is_height_based n ≡ true))
unfolding from_height from_unix_timestamp is_time_based
constructors n = ground arith

-- Two locks compare exactly when they are of one kind, and then as numbers: they do not compare
-- when their kinds differ, the first is below when its number is and the kinds agree, and they are
-- equal when the numbers are.
pub partial_cmp_lem :
    (a b : ℕ)
    → ((partial_cmp a b ≡ none) ↔ (is_height_based a ≢ is_height_based b))
      × ((partial_cmp a b ≡ some Ordering.lt) ↔ ((a < b) × (is_height_based a ≡ is_height_based b)))
      × ((partial_cmp a b ≡ some Ordering.eq) ↔ (a ≡ b))
unfolding partial_cmp
partial_cmp_lem a b = ground arith

-- Below is transitive: a lock below a second one, which is below a third, is below the third.
pub partial_cmp_trans :
    (a b c : ℕ)
    → partial_cmp a b ≡ some Ordering.lt
    → partial_cmp b c ≡ some Ordering.lt
    → partial_cmp a c ≡ some Ordering.lt
unfolding partial_cmp
partial_cmp_trans a b c h k = ground arith
