-- ===== src/Tests/Amounts.antt =====
-- Examples of the theorems on amounts and virtual bytes.
use Prim.Native.Nat.{min}
use bp_core.Base.{ℕ, ◌<◌, ◌+◌, ◌*◌, ◌≤◌, ◌≡◌, [], ◌∷◌, arith}
use bp_core.Sats.{u64_max, sum, total, sum-eq-min}
use bp_core.Weights.{vbytes}
use bp_core.Weights.Rounding.{IsF32, vbytes_lem}

sum_example : sum (3 ∷ u64_max ∷ []) ≡ min (total (3 ∷ u64_max ∷ [])) u64_max
sum_example = sum-eq-min (3 ∷ u64_max ∷ [])

vbytes_example :
    (f : ℕ) × IsF32 20_000_001 f × (f ≤ 4 * vbytes 20_000_001) × (4 * vbytes 20_000_001 < f + 4)
vbytes_example = vbytes_lem 20_000_001 (omega arith)
