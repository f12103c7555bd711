-- ===== src/Timelocks/SeqNo.antt =====
-- consensus/src/timelocks.rs: SeqNo, with the relative time lock in its bits.
use bp_core.Base.{
  ℕ, ◌+◌, ◌*◌, ◌/◌, ◌%◌, ◌^◌, ◌<◌, ◌≡◌, ◌↔◌, Bool, true, not, ltb, ◌==◌, if◌then◌else◌, Option,
  none, some, arith, bit_and, bit_or,
}
use bp_core.Base.Bits.{bit_and-pow, bit_and-ones, bit_or-pow}
use bp_core.Tx.{SeqNo}
use bp_core.Timelocks.{seq_no_csv_disable_mask, seq_no_csv_type_mask}

-- Blocks, or intervals of 512 seconds, both u16.
pub data TimeLockInterval : Type 0 where
  height : ℕ → TimeLockInterval
  time : ℕ → TimeLockInterval

unfoldable pub from_height : ℕ → SeqNo
from_height blocks = blocks

unfoldable pub from_intervals : ℕ → SeqNo
from_intervals intervals = bit_or intervals seq_no_csv_type_mask

-- `as u16` keeps the low 16 bits.
unfoldable pub time_lock_interval : SeqNo → Option TimeLockInterval
time_lock_interval s =
    if not (bit_and s seq_no_csv_disable_mask == 0)
    then none
    else if not (bit_and s seq_no_csv_type_mask == 0)
    then some (time (bit_and s 0xffff % 2 ^ 16))
    else some (height (bit_and s 0xffff % 2 ^ 16))

-- In Rust `&` binds tighter than `>`.
unfoldable pub is_timelock : SeqNo → Bool
is_timelock s = ltb 1 (bit_and s seq_no_csv_disable_mask)

-- The three masks as arithmetic.
disable_bit : (s : ℕ) → bit_and s seq_no_csv_disable_mask ≡ s / 2 ^ 31 % 2 * 2 ^ 31
disable_bit = bit_and-pow 31

type_bit : (s : ℕ) → bit_and s seq_no_csv_type_mask ≡ s / 2 ^ 22 % 2 * 2 ^ 22
type_bit = bit_and-pow 22

value_bits : (s : ℕ) → bit_and s 0xffff ≡ s % 2 ^ 16
value_bits = bit_and-ones 16

-- A relative lock made of a u16 gives that lock back.
pub interval_of_height : (n : ℕ) → n < 2 ^ 16 → time_lock_interval (from_height n) ≡ some (height n)
unfolding time_lock_interval from_height
interval_of_height n h = rw (disable_bit n, type_bit n, value_bits n) (ground arith)

pub interval_of_intervals :
    (n : ℕ) → n < 2 ^ 16 → time_lock_interval (from_intervals n) ≡ some (time n)
unfolding time_lock_interval from_intervals
interval_of_intervals n h =
    let s = n + 2 ^ 22 in
    rw (bit_or-pow 22 n (omega arith), disable_bit s, type_bit s, value_bits s) (ground arith)

-- A lock is read from the fields of the number: none with bit 31 set, else the low 16 bits, as a
-- time with bit 22 set and as a height without.
pub time_lock_interval_lem :
    (s : ℕ)
    → time_lock_interval s ≡ (
        if s / 2 ^ 31 % 2 == 1
        then none
        else if s / 2 ^ 22 % 2 == 1
        then some (time (s % 2 ^ 16))
        else some (height (s % 2 ^ 16)))
unfolding time_lock_interval
time_lock_interval_lem s = rw (disable_bit s, type_bit s, value_bits s) (ground arith)

-- `is_timelock` holds exactly of the numbers with no time lock.
pub is_timelock-none : (s : ℕ) → (is_timelock s ≡ true) ↔ (time_lock_interval s ≡ none)
unfolding is_timelock time_lock_interval
is_timelock-none s = rw (disable_bit s) (ground arith)
