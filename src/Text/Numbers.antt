-- ===== src/Text/Numbers.antt =====
-- Numbers read back from their decimal and hexadecimal texts.
use bp_core.Base.{
  ℕ, zero, suc, ◌+◌, ◌-◌, ◌*◌, ◌/◌, ◌%◌, ◌^◌, ◌≤◌, ◌<◌, ◌≡◌, ◌⊎◌, inl, inr, refl, ap, arith, ltb,
  [], ◌∷◌, ◌++◌, All, replicate, length, lt→ltb, Bool-cases, ltb→lt, ◌∙◌, length-append,
}
use bp_core.Base.Result.{ok}
use bp_core.Text.{
  Text, digit_value, digit_char, scan, from_str_radix, parse_u32, digits, to_string, to_hex,
}

-- A lower-case hexadecimal digit.
abbrev pub IsDigit : ℕ → Type 0
IsDigit c = ((48 ≤ c) × (c ≤ 57)) ⊎ ((97 ≤ c) × (c ≤ 102))

pub digit_char-IsDigit : (d : ℕ) → d < 16 → IsDigit (digit_char d)
unfolding digit_char
digit_char-IsDigit d h = ground arith

pub digit_value-digit_char : (d : ℕ) → d < 16 → digit_value (digit_char d) ≡ d
unfolding digit_value digit_char
digit_value-digit_char d h = ground arith

-- What division by a radix from 2 to 16 gives.
pub record IsRadix (radix : ℕ) : Type 0 where
  pub most : radix ≤ 16
  pub low : (n : ℕ) → n % radix < radix
  pub whole : (n : ℕ) → n / radix * radix + n % radix ≡ n
  pub half : (n : ℕ) → 2 * (n / radix) ≤ n

pub ten-IsRadix : IsRadix 10
ten-IsRadix = record {
  most = omega arith;
  low = λ n. omega arith;
  whole = λ n. omega arith;
  half = λ n. omega arith;
}

pub sixteen-IsRadix : IsRadix 16
sixteen-IsRadix = record {
  most = omega arith;
  low = λ n. omega arith;
  whole = λ n. omega arith;
  half = λ n. omega arith;
}

zero_below : (n : ℕ) → n < 2 ^ 0 → 0 ≡ n
zero_below n h = omega arith

halved : (fuel n m : ℕ) → n < 2 ^ suc fuel → 2 * m ≤ n → m < 2 ^ fuel
halved fuel n m h k = omega arith

module _ {radix : ℕ} (r : IsRadix radix) where
  low-IsDigit : (n : ℕ) → IsDigit (digit_char (n % radix))
  low-IsDigit n =
      let small = r.low n in let bound = r.most in digit_char-IsDigit (n % radix) (omega arith)

  -- The digits of a number are digits, and at least one.
  digits-AreDigits :
      (fuel n : ℕ) (out : Text) → All IsDigit out → All IsDigit (digits fuel radix n out)
  unfolding digits
  digits-AreDigits zero n out h = h
  digits-AreDigits (suc fuel) n out h = elim (Bool-cases (ltb n radix)) [
    | inl small ↦
        let below = ltb→lt n radix small in
        let bound = r.most in rw small (digit_char-IsDigit n (omega arith), h)
    | inr big ↦
        rw big (digits-AreDigits fuel (n / radix) (digit_char (n % radix) ∷ out) (low-IsDigit n, h))
  ]

  scan_digit :
      (bound d : ℕ) (s : Text) (n : ℕ)
      → d < radix
      → n * radix + d < bound
      → scan radix bound (digit_char d ∷ s) n ≡ scan radix bound s (n * radix + d)
  unfolding scan
  scan_digit bound d s n h k =
      let most = r.most in
      rw (digit_value-digit_char d (omega arith), lt→ltb d radix h, lt→ltb (n * radix + d) bound k)
        refl

  -- Scanning the digits of a number gives the number.
  scan-digits :
      (bound fuel n : ℕ) (out : Text)
      → n < 2 ^ fuel
      → n < bound
      → scan radix bound (digits fuel radix n out) 0 ≡ scan radix bound out n
  unfolding digits
  scan-digits bound zero n out small below = ap (scan radix bound out) (zero_below n small)
  scan-digits bound (suc fuel) n out small below = elim (Bool-cases (ltb n radix)) [
    | inl one ↦
        let first : 0 * radix + n ≡ n = omega arith in
        rw (one, scan_digit bound n out 0 (ltb→lt n radix one) (rw first below), first) refl
    | inr more ↦
        let half = r.half n in
        let whole = r.whole n in
        rw
          (
            more,
            scan-digits bound fuel (n / radix) (digit_char (n % radix) ∷ out)
                (halved fuel n (n / radix) small half) (omega arith),
            scan_digit bound (n % radix) out (n / radix) (r.low n) (rw whole below),
            whole,
          )
          refl
  ]

  more_digits : (fuel n : ℕ) (out : Text) → 0 < length out → 0 < length (digits fuel radix n out)
  unfolding digits
  more_digits zero n out h = h
  more_digits (suc fuel) n out h = elim (Bool-cases (ltb n radix)) [
    | inl small ↦ rw small (omega arith)
    | inr big ↦ rw big (more_digits fuel (n / radix) (digit_char (n % radix) ∷ out) (omega arith))
  ]

  some_digit : (fuel n : ℕ) → 0 < length (digits (suc fuel) radix n [])
  unfolding digits
  some_digit fuel n = elim (Bool-cases (ltb n radix)) [
    | inl small ↦ rw small (omega arith)
    | inr big ↦ rw big (more_digits fuel (n / radix) (digit_char (n % radix) ∷ []) (omega arith))
  ]

-- A text that begins with a digit has no plus sign to skip.
from_str_radix-scan :
    (radix bound : ℕ) (s : Text)
    → 0 < length s
    → All IsDigit s
    → from_str_radix radix bound s ≡ scan radix bound s 0
unfolding from_str_radix
from_str_radix-scan radix bound [] h digit = absurd (omega arith)
from_str_radix-scan radix bound (c ∷ []) h (digit, rest) = ground (arith, digit)
from_str_radix-scan radix bound (c ∷ d ∷ cs) h (digit, rest) = ground (arith, digit)

pub to_string-AreDigits : (n : ℕ) → All IsDigit (to_string n)
unfolding to_string
to_string-AreDigits n = digits-AreDigits ten-IsRadix 64 n [] tt

pub some_string : (n : ℕ) → 0 < length (to_string n)
unfolding to_string
some_string n = some_digit ten-IsRadix 63 n

-- A number below a bound of at most 2 ^ 64 reads back from its decimal text.
pub from_str_radix-to_string :
    (bound n : ℕ) → n < bound → bound ≤ 2 ^ 64 → from_str_radix 10 bound (to_string n) ≡ ok n
from_str_radix-to_string bound n h small =
    from_str_radix-scan 10 bound (to_string n) (some_string n) (to_string-AreDigits n)
    ∙ unfold to_string scan in scan-digits ten-IsRadix bound 64 n [] (omega arith) h

-- A u32 reads back from its decimal text.
pub parse_u32-to_string : (n : ℕ) → n < 2 ^ 32 → parse_u32 (to_string n) ≡ ok n
unfolding parse_u32
parse_u32-to_string n h = from_str_radix-to_string 0x1_0000_0000 n h (omega arith)

zeros_scan :
    (bound k : ℕ) (s : Text)
    → 0 < bound
    → scan 16 bound (replicate k b'0' ++ s) 0 ≡ scan 16 bound s 0
unfolding scan digit_value
zeros_scan bound zero s h = refl
zeros_scan bound (suc k) s h = rw (lt→ltb 0 bound h, zeros_scan bound k s h) refl

zeros-AreDigits : (k : ℕ) (s : Text) → All IsDigit s → All IsDigit (replicate k b'0' ++ s)
zeros-AreDigits zero s h = h
zeros-AreDigits (suc k) s h = (inl (omega arith, omega arith), zeros-AreDigits k s h)

-- The digits of `{:#010x}` after its prefix.
abbrev pub hex_body : ℕ → Text
hex_body n = replicate (8 - length (to_hex n)) b'0' ++ to_hex n

pub hex_body-AreDigits : (n : ℕ) → All IsDigit (hex_body n)
unfolding to_hex
hex_body-AreDigits n =
    zeros-AreDigits (8 - length (to_hex n)) (to_hex n) (digits-AreDigits sixteen-IsRadix 64 n [] tt)

-- A u64 reads back from its padded hexadecimal text.
pub from_str_radix-hex_body : (n : ℕ) → n < 2 ^ 64 → from_str_radix 16 (2 ^ 64) (hex_body n) ≡ ok n
unfolding to_hex scan
from_str_radix-hex_body n h =
    let pad = 8 - length (to_hex n) in
    let size = length-append (replicate pad b'0') (to_hex n) in
    let some_hex = some_digit sixteen-IsRadix 63 n in
    from_str_radix-scan 16 (2 ^ 64) (hex_body n) (rw size (omega arith)) (hex_body-AreDigits n)
    ∙ (zeros_scan (2 ^ 64) pad (to_hex n) (omega arith)
        ∙ scan-digits sixteen-IsRadix (2 ^ 64) 64 n [] (omega arith) (omega arith))
