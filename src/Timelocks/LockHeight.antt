-- ===== src/Timelocks/LockHeight.antt =====
-- consensus/src/timelocks.rs: LockHeight, the time locks that are block heights.
use bp_core.Base.{ℕ, ◌≤◌, ◌<◌, ◌≡◌, ◌↔◌, not, ltb, if◌then◌else◌, Option, none, some, arith}
use bp_core.Timelocks.{locktime_threshold, Checked, ok, invalid_timelock}
use bp_core.Timelocks.LockTime.{is_height_based}
use bp_core.Timelocks.LockTimestamp
use bp_core.Tx.{LockTime}

abbrev pub LockHeight : Type 0
LockHeight = ℕ

unfoldable pub anytime : LockHeight
anytime = 0

unfoldable pub from_height : ℕ → Option LockHeight
from_height height = if ltb height locktime_threshold then some height else none

unfoldable pub try_from_consensus_u32 : ℕ → Checked LockHeight
unfolding is_height_based
try_from_consensus_u32 lock_time =
    if not (is_height_based lock_time) then invalid_timelock lock_time else ok lock_time

unfoldable pub try_from_lock_time : LockTime → Checked LockHeight
unfolding try_from_consensus_u32
try_from_lock_time lock_time = try_from_consensus_u32 lock_time

unfoldable pub into_lock_time : LockHeight → LockTime
into_lock_time t = t

-- A conversion keeps the value and accepts exactly the heights, `anytime` among them, refusing any
-- other with itself; what this type refuses LockTimestamp accepts, and the other way round.
pub height_conversions :
    (n : ℕ)
    → ((try_from_lock_time (into_lock_time n) ≡ ok n) ↔ (n < locktime_threshold))
      × ((try_from_lock_time (into_lock_time n) ≡ invalid_timelock n) ↔ (locktime_threshold ≤ n))
      × ((from_height n ≡ some n) ↔ (try_from_consensus_u32 n ≡ ok n))
      × (try_from_lock_time (into_lock_time anytime) ≡ ok anytime)
      × ((try_from_lock_time n ≡ ok n) ↔ (LockTimestamp.try_from_lock_time n ≡ invalid_timelock n))
unfolding try_from_lock_time into_lock_time from_height anytime LockTimestamp.try_from_lock_time
height_conversions n = ground arith
