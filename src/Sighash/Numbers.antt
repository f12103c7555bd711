-- ===== src/Sighash/Numbers.antt =====
-- consensus/src/sigtypes.rs: what the numbers of signature hash types mean.
use native.Mathlib.Decide.{ℕ_discrete}
use bp_core.Base.{
  ℕ, ◌+◌, ◌*◌, ◌/◌, ◌%◌, ◌≡◌, ◌≢◌, ◌⊎◌, inl, inr, refl, sym, arith, Bool, true, false, ◌==◌,
  if◌then◌else◌, bit_and,
}
use bp_core.Base.Bits.{bit_and-pow, and_halves, bit_and-zero}
use bp_core.Sighash.{
  SighashFlag, SighashType, all, none, single, sighash, ok, non_standard, from_consensus_u32,
  from_standard_u32, into_consensus_u32,
}

and_odd : (a b : ℕ) → b % 2 ≡ 1 → bit_and a b ≡ a % 2 + 2 * bit_and (a / 2) (b / 2)
and_odd a b h = omega (arith, and_halves a b)

and_even : (a b : ℕ) → b % 2 ≡ 0 → bit_and a b ≡ 2 * bit_and (a / 2) (b / 2)
and_even a b h = omega (arith, and_halves a b)

-- The mask keeps the five lowest bits and bit 7.
masked : (n : ℕ) → bit_and n 0x9f ≡ n % 32 + n / 128 % 2 * 128
masked n = omega (
  arith,
  and_odd n 0x9f refl,
  and_odd (n / 2) 0x4f refl,
  and_odd (n / 2 / 2) 0x27 refl,
  and_odd (n / 2 / 2 / 2) 0x13 refl,
  and_odd (n / 2 / 2 / 2 / 2) 0x9 refl,
  and_even (n / 2 / 2 / 2 / 2 / 2) 0x4 refl,
  and_even (n / 2 / 2 / 2 / 2 / 2 / 2) 0x2 refl,
  and_odd (n / 2 / 2 / 2 / 2 / 2 / 2 / 2) 0x1 refl,
  bit_and-zero (n / 2 / 2 / 2 / 2 / 2 / 2 / 2 / 2),
)

-- Every number is a signature hash type by consensus: bit 7 lets anyone pay, and the five lowest
-- bits are the flag, 2 for none, 3 for single and anything else for all.
pub from_consensus_u32_lem :
    (n : ℕ)
    → from_consensus_u32 n ≡ (
        if n % 32 == 2
        then sighash none (n / 128 % 2 == 1)
        else if n % 32 == 3
        then sighash single (n / 128 % 2 == 1)
        else sighash all (n / 128 % 2 == 1))
unfolding from_consensus_u32
from_consensus_u32_lem n =
    rw (masked n) (ground (arith, bit_and-pow 7 (n % 32 + n / 128 % 2 * 128)))

numbers :
    (flag : SighashFlag) (b : Bool) (n : ℕ)
    → n ≢ 0x01
    → n ≢ 0x02
    → n ≢ 0x03
    → n ≢ 0x81
    → n ≢ 0x82
    → n ≢ 0x83
    → into_consensus_u32 (sighash flag b) ≢ n
unfolding into_consensus_u32
numbers all false n a b c d e f same = a (sym same)
numbers none false n a b c d e f same = b (sym same)
numbers single false n a b c d e f same = c (sym same)
numbers all true n a b c d e f same = d (sym same)
numbers none true n a b c d e f same = e (sym same)
numbers single true n a b c d e f same = f (sym same)

consensus_back :
    (flag : SighashFlag) (b : Bool)
    → from_consensus_u32 (into_consensus_u32 (sighash flag b)) ≡ sighash flag b
unfolding from_consensus_u32 into_consensus_u32
consensus_back all false = refl
consensus_back none false = refl
consensus_back single false = refl
consensus_back all true = refl
consensus_back none true = refl
consensus_back single true = refl

pub back :
    (flag : SighashFlag) (b : Bool)
    → from_standard_u32 (into_consensus_u32 (sighash flag b)) ≡ ok (sighash flag b)
unfolding from_standard_u32 into_consensus_u32
back all false = refl
back none false = refl
back single false = refl
back all true = refl
back none true = refl
back single true = refl

-- A number that `from_standard_u32` accepts, as the type that consensus reads from it.
abbrev pub IsStandard : ℕ → Type 0
IsStandard n =
    (from_standard_u32 n ≡ ok (from_consensus_u32 n))
    × (into_consensus_u32 (from_consensus_u32 n) ≡ n)

standard : (n : ℕ) → (t : SighashType) → n ≡ into_consensus_u32 t → IsStandard n
standard n t e = rw (e, consensus_back t.flag t.anyone_can_pay) (back t.flag t.anyone_can_pay, refl)

refused :
    (n : ℕ)
    → n ≢ 0x01
    → n ≢ 0x02
    → n ≢ 0x03
    → n ≢ 0x81
    → n ≢ 0x82
    → n ≢ 0x83
    → from_standard_u32 n ≡ non_standard n
unfolding from_standard_u32
refused n a b c d e f = ground arith

-- The number of a type is read back as that type. A number is standard exactly if it is the number
-- of the type that consensus reads from it, and then that type is the result; any other is refused
-- with itself.
pub from_standard_u32_lem :
    (t : SighashType) (n : ℕ)
    → (from_standard_u32 (into_consensus_u32 t) ≡ ok t)
      × (IsStandard n
          ⊎ ((from_standard_u32 n ≡ non_standard n)
              × (into_consensus_u32 (from_consensus_u32 n) ≢ n)))
unfolding into_consensus_u32
from_standard_u32_lem t n = (
  back t.flag t.anyone_can_pay,
  elim (ℕ_discrete n 0x01) [
    | yes e ↦ inl (standard n (sighash all false) e)
    | no a ↦ elim (ℕ_discrete n 0x02) [
      | yes e ↦ inl (standard n (sighash none false) e)
      | no b ↦ elim (ℕ_discrete n 0x03) [
        | yes e ↦ inl (standard n (sighash single false) e)
        | no c ↦ elim (ℕ_discrete n 0x81) [
          | yes e ↦ inl (standard n (sighash all true) e)
          | no d ↦ elim (ℕ_discrete n 0x82) [
            | yes e ↦ inl (standard n (sighash none true) e)
            | no e ↦ elim (ℕ_discrete n 0x83) [
              | yes e ↦ inl (standard n (sighash single true) e)
              | no f ↦
                  let r = from_consensus_u32 n in
                  inr (refused n a b c d e f, numbers r.flag r.anyone_can_pay n a b c d e f)
            ]
          ]
        ]
      ]
    ]
  ],
)
