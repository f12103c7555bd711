-- ===== src/Taproot/Parity.antt =====
-- consensus/src/taproot.rs: Parity, a bit in consensus data.
use bp_core.Base.{ℕ, ◌%◌, ◌≡◌, ◌==◌, if◌then◌else◌, arith, ◌+◌}
use bp_core.Taproot.LeafVer.{Parsed, ok, invalid}

pub data Parity : Type 0 where
  even odd : Parity

unfoldable pub to_consensus_u8 : Parity → ℕ
to_consensus_u8 even = 0
to_consensus_u8 odd = 1

unfoldable pub from_consensus_u8 : ℕ → Parsed Parity
from_consensus_u8 parity =
    if parity == 0 then ok even else if parity == 1 then ok odd else invalid parity

-- `impl BitXor`; `==` on the two values.
unfoldable pub bitxor : Parity → Parity → Parity
bitxor even even = even
bitxor odd odd = even
bitxor even odd = odd
bitxor odd even = odd

-- The byte of a parity reads back as it, every byte above 1 is refused, and exclusive or adds the
-- bits modulo 2.
pub parity_bits :
    (p q : Parity) (n : ℕ)
    → (from_consensus_u8 (to_consensus_u8 p) ≡ ok p)
      × (from_consensus_u8 (n + 2) ≡ invalid (n + 2))
      × (to_consensus_u8 (bitxor p q) ≡ (to_consensus_u8 p + to_consensus_u8 q) % 2)
unfolding from_consensus_u8 to_consensus_u8 bitxor
parity_bits p q n = ground arith
