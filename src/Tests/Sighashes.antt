-- ===== src/Tests/Sighashes.antt =====
-- Examples of the theorems on signature hash types.
use bp_core.Base.{◌≡◌, ◌≢◌, ◌⊎◌, true}
use bp_core.Sighash.{
  single, sighash, ok, non_standard, from_consensus_u32, from_standard_u32, into_consensus_u32,
}
use bp_core.Sighash.Numbers.{IsStandard, from_standard_u32_lem}

from_standard_u32_example :
    (from_standard_u32 (into_consensus_u32 (sighash single true)) ≡ ok (sighash single true))
    × (IsStandard 0x84
        ⊎ ((from_standard_u32 0x84 ≡ non_standard 0x84)
            × (into_consensus_u32 (from_consensus_u32 0x84) ≢ 0x84)))
from_standard_u32_example = from_standard_u32_lem (sighash single true) 0x84
