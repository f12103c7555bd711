-- ===== src/Base/Bits.antt =====
-- Masks of one bit, and of all bits below one, as arithmetic.
use Prim.Native.Nat.{
  ℕ, zero, suc, ◌+◌, ◌-◌, ◌*◌, ◌/◌, ◌%◌, ◌^◌, ◌≤◌, ◌<◌, min, max, bit_and, bit_or, bitwise, digits,
  bit_and-bitwise, bit_or-bitwise,
}
use mathlib.Core.Path.{◌≡◌, refl, ap}
use native.Mathlib.Omega.{arith}
use native.Mathlib.Nat.{pow-suc, div-div-eq-div-mul, mod-add-div'}

-- Any bitwise operation, by its table on digits and what it does with the rest of `b` when `a` ends.
module _ (rest : ℕ → ℕ) (op : ℕ → ℕ → ℕ) where
  -- Fuel above `a` changes nothing.
  digits_fuel : (m n a b : ℕ) → a ≤ m → a ≤ n → digits rest op m a b ≡ digits rest op n a b
  digits_fuel zero zero zero b h k = refl
  digits_fuel zero (suc n) zero b h k = refl
  digits_fuel (suc m) zero zero b h k = refl
  digits_fuel (suc m) (suc n) zero b h k = refl
  digits_fuel zero n (suc a) b h k = absurd (omega arith)
  digits_fuel (suc m) zero (suc a) b h k = absurd (omega arith)
  digits_fuel (suc m) (suc n) (suc a) b h k =
      omega (arith, digits_fuel m n (suc a / 2) (b / 2) (omega arith) (omega arith))

  bitwise-suc :
      (a b : ℕ)
      → bitwise rest op (suc a) b ≡ bitwise rest op (suc a / 2) (b / 2) * 2 + op (suc a % 2) (b % 2)
  bitwise-suc a b =
      ap (λ t. t * 2 + op (suc a % 2) (b % 2))
        (digits_fuel a (suc a / 2) (suc a / 2) (b / 2) (omega arith) (omega arith))

pow-pos : (k : ℕ) → 1 ≤ 2 ^ k
pow-pos zero = omega arith
pow-pos (suc k) = omega (arith, pow-pos k, pow-suc 2 k)

-- An operation on two numbers is that on their halves and that on their lowest digits.
or_halves : (a b : ℕ) → bit_or a b ≡ max (a % 2) (b % 2) + 2 * bit_or (a / 2) (b / 2)
or_halves (suc a) b =
    let digit = bitwise-suc (λ t. t) max a b in
    omega (arith, digit, bit_or-bitwise (suc a / 2) (b / 2), bit_or-bitwise (suc a) b)
or_halves zero b = omega (arith, bit_or-bitwise 0 (b / 2), bit_or-bitwise 0 b)

pub and_halves : (a b : ℕ) → bit_and a b ≡ min (a % 2) (b % 2) + 2 * bit_and (a / 2) (b / 2)
and_halves (suc a) b =
    let digit = bitwise-suc (λ _. 0) min a b in
    omega (arith, digit, bit_and-bitwise (suc a / 2) (b / 2), bit_and-bitwise (suc a) b)
and_halves zero b = omega (arith, bit_and-bitwise 0 (b / 2), bit_and-bitwise 0 b)

bit_and-zero_below : (n a : ℕ) → a < n → bit_and a 0 ≡ 0
bit_and-zero_below zero a h = absurd (omega arith)
bit_and-zero_below (suc n) zero h = bit_and-bitwise 0 0
bit_and-zero_below (suc n) (suc a) h =
    omega (arith, and_halves (suc a) 0, bit_and-zero_below n (suc a / 2) (omega arith))

pub bit_and-zero : (a : ℕ) → bit_and a 0 ≡ 0
bit_and-zero a = bit_and-zero_below (suc a) a (omega arith)

module _ (k : ℕ) where
  double : 2 ^ suc k ≡ 2 * 2 ^ k
  double = omega (arith, pow-suc 2 k)

  half_pow : 2 ^ suc k / 2 ≡ 2 ^ k
  half_pow = omega (arith, double)

  half_ones : (2 ^ suc k - 1) / 2 ≡ 2 ^ k - 1
  half_ones = omega (arith, double)

  even_pow : 2 ^ suc k % 2 ≡ 0
  even_pow = omega (arith, double)

  odd_ones : (2 ^ suc k - 1) % 2 ≡ 1
  odd_ones = omega (arith, double, pow-pos k)

  halve-div : (a : ℕ) → a / 2 / 2 ^ k ≡ a / 2 ^ suc k
  halve-div a = rw double (div-div-eq-div-mul a 2 (2 ^ k))

-- The mask of bit k, and the mask of the k lowest bits.
pub bit_and-pow : (k a : ℕ) → bit_and a (2 ^ k) ≡ a / 2 ^ k % 2 * 2 ^ k
bit_and-pow zero a = omega (arith, and_halves a 1, bit_and-zero (a / 2))
bit_and-pow (suc k) a =
    rw (and_halves a (2 ^ suc k), half_pow k, even_pow k, bit_and-pow k (a / 2), halve-div k a)
      (omega (arith, ap (λ t. a / 2 ^ suc k % 2 * t) (double k)))

pub bit_and-ones : (k a : ℕ) → bit_and a (2 ^ k - 1) ≡ a % 2 ^ k
bit_and-ones zero a = omega (arith, bit_and-zero a)
bit_and-ones (suc k) a =
    rw (and_halves a (2 ^ suc k - 1), half_ones k, odd_ones k, bit_and-ones k (a / 2))
      (omega (
        arith,
        mod-add-div' (a / 2) (2 ^ k),
        mod-add-div' a (2 ^ suc k),
        ap (λ t. t * 2 ^ k) (halve-div k a),
        ap (λ t. a / 2 ^ suc k * t) (double k),
      ))

-- Bit k set over smaller bits.
pub bit_or-pow : (k a : ℕ) → a < 2 ^ k → bit_or a (2 ^ k) ≡ a + 2 ^ k
bit_or-pow zero zero h = refl
bit_or-pow zero (suc a) h = absurd (omega arith)
bit_or-pow (suc k) a h =
    rw
      (
        or_halves a (2 ^ suc k),
        half_pow k,
        even_pow k,
        bit_or-pow k (a / 2) (omega (arith, double k)),
      )
      (omega (arith, double k))
