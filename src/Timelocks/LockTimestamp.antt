-- ===== src/Timelocks/LockTimestamp.antt =====
-- consensus/src/timelocks.rs: LockTimestamp, the time locks that are UNIX times.
use bp_core.Base.{ℕ, ◌≤◌, ◌<◌, ◌≡◌, ◌↔◌, not, ltb, if◌then◌else◌, Option, none, some, arith}
use bp_core.Timelocks.{locktime_threshold, Checked, ok, invalid_timelock}
use bp_core.Timelocks.LockTime.{is_time_based}
use bp_core.Tx.{LockTime}

abbrev pub LockTimestamp : Type 0
LockTimestamp = ℕ

unfoldable pub anytime : LockTimestamp
anytime = 0

unfoldable pub from_unix_timestamp : ℕ → Option LockTimestamp
from_unix_timestamp timestamp = if ltb timestamp locktime_threshold then none else some timestamp

unfoldable pub try_from_consensus_u32 : ℕ → Checked LockTimestamp
unfolding is_time_based
try_from_consensus_u32 lock_time =
    if not (is_time_based lock_time) then invalid_timelock lock_time else ok lock_time

unfoldable pub try_from_lock_time : LockTime → Checked LockTimestamp
unfolding try_from_consensus_u32
try_from_lock_time lock_time = try_from_consensus_u32 lock_time

unfoldable pub into_lock_time : LockTimestamp → LockTime
into_lock_time t = t

-- A conversion keeps the value and accepts exactly the UNIX times, refusing any other with itself;
-- so it accepts no `anytime`.
pub timestamp_conversions :
    (n : ℕ)
    → ((try_from_lock_time (into_lock_time n) ≡ ok n) ↔ (locktime_threshold ≤ n))
      × ((try_from_lock_time (into_lock_time n) ≡ invalid_timelock n) ↔ (n < locktime_threshold))
      × ((from_unix_timestamp n ≡ some n) ↔ (try_from_consensus_u32 n ≡ ok n))
      × (try_from_lock_time (into_lock_time anytime) ≡ invalid_timelock 0)
unfolding try_from_lock_time into_lock_time from_unix_timestamp anytime
timestamp_conversions n = ground arith
