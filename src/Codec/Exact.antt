-- ===== src/Codec/Exact.antt =====
-- A concrete `Confined::try_from`, which the theorems are applied at: its error is the length.
use bp_core.Base.{ℕ, none, some, ◌&&◌, leb, if◌then◌else◌, arith}
use bp_core.Codec.{Confine}
use bp_core.Codec.Array.{IsConfine}

abbrev pub exact : Confine ℕ
exact min max len = if leb min len && leb len max then none else some len

pub exact-IsConfine : IsConfine exact
exact-IsConfine = record {
  accepts = λ min max len h k. ground arith;
  rejects_short = λ min max len h e. ground arith;
  rejects_long = λ min max len h e. ground arith;
}
