-- ===== src/Tests/Locks.antt =====
-- Examples of the theorems on time locks.
use bp_core.Base.{◌/◌, ◌%◌, ◌^◌, ◌≡◌, ◌↔◌, ◌==◌, if◌then◌else◌, true, none, some}
use bp_core.Timelocks.SeqNo.{
  height, time, time_lock_interval, is_timelock, time_lock_interval_lem, is_timelock-none,
}

time_lock_interval_example : time_lock_interval 0x40_0003 ≡ (
    if 0x40_0003 / 2 ^ 31 % 2 == 1
    then none
    else if 0x40_0003 / 2 ^ 22 % 2 == 1
    then some (time (0x40_0003 % 2 ^ 16))
    else some (height (0x40_0003 % 2 ^ 16)))
time_lock_interval_example = time_lock_interval_lem 0x40_0003

is_timelock-none_example : (is_timelock 144 ≡ true) ↔ (time_lock_interval 144 ≡ none)
is_timelock-none_example = is_timelock-none 144
