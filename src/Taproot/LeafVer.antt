-- ===== src/Taproot/LeafVer.antt =====
-- consensus/src/taproot.rs: LeafVer and FutureLeafVer, the byte of a leaf version.
use native.Mathlib.Decide.{ℕ_discrete, dec_lt}
use bp_core.Base.{
  ℕ, ◌-◌, ◌%◌, ◌<◌, ◌≡◌, ◌≢◌, ◌⊎◌, inl, inr, refl, true, not, ◌==◌, ==_iff, if◌then◌else◌, arith,
  bit_and, holds_below, holds_below_at,
}

abbrev pub taproot_annex_prefix : ℕ
taproot_annex_prefix = 0x50

abbrev pub taproot_leaf_tapscript : ℕ
taproot_leaf_tapscript = 0xc0

-- `InvalidLeafVer` holds the refused byte.
pub data Parsed (A : Type 0) : Type 0 where
  ok : A → Parsed A
  invalid : ℕ → Parsed A
  unreachable : Parsed A

pub data LeafVer : Type 0 where
  tap_script : LeafVer
  future : ℕ → LeafVer

-- `FutureLeafVer::from_consensus`: the byte of a future version.
unfoldable pub from_consensus : ℕ → Parsed ℕ
from_consensus version =
    if version == taproot_leaf_tapscript
    then unreachable
    else if version == taproot_annex_prefix
    then invalid taproot_annex_prefix
    else if not (bit_and version 0xfe == version)
    then invalid version
    else ok version

abbrev map_future : Parsed ℕ → Parsed LeafVer
map_future (ok v) = ok (future v)
map_future (invalid v) = invalid v
map_future unreachable = unreachable

unfoldable pub from_consensus_u8 : ℕ → Parsed LeafVer
unfolding from_consensus
from_consensus_u8 version =
    if version == taproot_leaf_tapscript
    then ok tap_script
    else if version == taproot_annex_prefix
    then invalid taproot_annex_prefix
    else map_future (from_consensus version)

unfoldable pub to_consensus_u8 : LeafVer → ℕ
to_consensus_u8 tap_script = taproot_leaf_tapscript
to_consensus_u8 (future version) = version

-- The values that `from_consensus_u8` makes. The derived strict and serde decoders of FutureLeafVer
-- can make others.
abbrev pub IsLeafVer : LeafVer → Type 0
IsLeafVer tap_script = Unit {0}
IsLeafVer (future v) =
    (v < 256) × (v % 2 ≡ 0) × (v ≢ taproot_leaf_tapscript) × (v ≢ taproot_annex_prefix)

-- The mask drops the lowest bit.
pub low_bit : (n : ℕ) → n < 256 → bit_and n 0xfe ≡ n - n % 2
low_bit n h = (==_iff _ _).0 (holds_below_at (λ n. bit_and n 0xfe == n - n % 2) 256 n table h)
  where
    table : holds_below (λ n. bit_and n 0xfe == n - n % 2) 256 ≡ true
    table = unfold holds_below in refl

-- The byte of a leaf version reads back as that version.
pub from_consensus_u8-to_consensus_u8 :
    (v : LeafVer) → IsLeafVer v → from_consensus_u8 (to_consensus_u8 v) ≡ ok v
unfolding from_consensus_u8 to_consensus_u8
from_consensus_u8-to_consensus_u8 tap_script h = refl
from_consensus_u8-to_consensus_u8 (future v) (lt, even, h, k) = ground (arith, low_bit v lt)

-- Every byte gives a leaf version with that byte, or is refused with itself, the latter exactly if
-- it is odd or the annex prefix; the `unreachable!` is never reached.
pub from_consensus_u8_lem :
    (n : ℕ)
    → n < 256
    → ((v : LeafVer) × (from_consensus_u8 n ≡ ok v)
        × IsLeafVer v
        × (to_consensus_u8 v ≡ n)
        × (n % 2 ≡ 0)
        × (n ≢ taproot_annex_prefix))
      ⊎ ((from_consensus_u8 n ≡ invalid n) × ((n % 2 ≡ 1) ⊎ (n ≡ taproot_annex_prefix)))
unfolding from_consensus_u8 to_consensus_u8
from_consensus_u8_lem n h = elim (ℕ_discrete n taproot_leaf_tapscript) [
  | yes e ↦ inl (tap_script, rw e, tt, rw e, rw e, omega arith)
  | no other ↦ elim (ℕ_discrete n taproot_annex_prefix) [
    | yes e ↦ inr (rw e, inr e)
    | no other' ↦ elim (dec_lt (n % 2) 1) [
      | yes even ↦ inl (
        future n,
        ground (arith, low_bit n h),
        (h, omega arith, other, other'),
        refl,
        omega arith,
        other',
      )
      | no odd ↦ inr (ground (arith, low_bit n h), inl (omega arith))
    ]
  ]
]
