-- ===== src/Base/Int.antt =====
-- Signed machine integers: ℤ over the native numbers, and an i32 with its two's complement pattern.
use Prim.Native.Nat.{ℕ, ◌+◌, ◌-◌, ◌^◌, ◌<◌}
use mathlib.Core.Path.{◌≡◌}
use mathlib.Core.Bool.{Bool, true, false}
use native.Mathlib.Omega.{arith}
use bp_core.Base.Tests.{ltb, leb, if◌then◌else◌}

-- `negsuc n` is -(n + 1).
pub data ℤ : Type 0 where
  pos : ℕ → ℤ
  negsuc : ℕ → ℤ

abbrev pub IsI32 : ℤ → Type 0
IsI32 (pos n) = n < 2 ^ 31
IsI32 (negsuc n) = n < 2 ^ 31

-- The bit pattern of an i32, as a number below 2 ^ 32, and the i32 that a pattern stands for.
unfoldable pub i32_bits : ℤ → ℕ
i32_bits (pos n) = n
i32_bits (negsuc n) = 2 ^ 32 - (n + 1)

unfoldable pub i32_of_bits : ℕ → ℤ
i32_of_bits w = if ltb w (2 ^ 31) then pos w else negsuc (2 ^ 32 - w - 1)

pub i32_bits-lt : (z : ℤ) → IsI32 z → i32_bits z < 2 ^ 32
unfolding i32_bits
i32_bits-lt (pos n) h = omega arith
i32_bits-lt (negsuc n) h = omega arith

pub i32_of_bits-i32_bits : (z : ℤ) → IsI32 z → i32_of_bits (i32_bits z) ≡ z
unfolding i32_bits i32_of_bits
i32_of_bits-i32_bits (pos n) h = ground arith
i32_of_bits-i32_bits (negsuc n) h = ground arith

pub i32_bits-i32_of_bits : (w : ℕ) → w < 2 ^ 32 → i32_bits (i32_of_bits w) ≡ w
unfolding i32_bits i32_of_bits
i32_bits-i32_of_bits w h = ground arith

pub i32_of_bits-IsI32 : (w : ℕ) → w < 2 ^ 32 → IsI32 (i32_of_bits w)
unfolding i32_of_bits
i32_of_bits-IsI32 w h = ground arith

-- Order on i32 values.
abbrev pub leb_ℤ : ℤ → ℤ → Bool
leb_ℤ (pos a) (pos b) = leb a b
leb_ℤ (pos a) (negsuc b) = false
leb_ℤ (negsuc a) (pos b) = true
leb_ℤ (negsuc a) (negsuc b) = leb b a
