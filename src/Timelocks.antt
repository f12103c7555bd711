-- ===== src/Timelocks.antt =====
-- consensus/src/timelocks.rs: absolute time locks (LockTime, LockTimestamp, LockHeight) and relative
-- ones (SeqNo). Each is its u32.
pub mod LockTime
pub mod LockTimestamp
pub mod LockHeight
pub mod SeqNo
pub mod Texts
use bp_core.Base.{ℕ}

abbrev pub locktime_threshold : ℕ
locktime_threshold = 500_000_000

abbrev pub seq_no_csv_disable_mask : ℕ
seq_no_csv_disable_mask = 0x80000000

abbrev pub seq_no_csv_type_mask : ℕ
seq_no_csv_type_mask = 0x00400000

-- The error holds the refused value.
pub data Checked (A : Type 0) : Type 0 where
  ok : A → Checked A
  invalid_timelock : ℕ → Checked A
