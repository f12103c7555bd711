-- ===== src/Text/HexDigits.antt =====
-- A concrete hexadecimal codec, which the theorems are applied at: two lower-case digits for a byte,
-- and upper case read too. Its only error is 0.
use bp_core.Base.{
  ℕ, ◌+◌, ◌*◌, ◌/◌, ◌%◌, ◌≡◌, ◌<◌, refl, arith, All, eq_bytes, false, [], ◌∷◌, length, Bytes,
  AreBytes, ltb, ◌==◌, ◌&&◌, if◌then◌else◌, Bool-cases, inl, inr,
}
use bp_core.Base.Result.{Result, ok, err, panic, ok-injective}
use bp_core.Text.{Text, digit_value, digit_char}
use bp_core.Text.Hex.{HexCodec, IsHex}
use bp_core.Text.Numbers.{IsDigit, digit_char-IsDigit, digit_value-digit_char}

unfoldable pub hex_text : Bytes → Text
hex_text [] = []
hex_text (b ∷ bs) = digit_char (b / 16) ∷ digit_char (b % 16) ∷ hex_text bs

-- A byte before what was read behind it.
unfoldable pub byte_before : ℕ → ℕ → Result ℕ Bytes → Result ℕ Bytes
byte_before high low (ok bs) =
    if ltb high 16 && ltb low 16 then ok ((16 * high + low) ∷ bs) else err 0
byte_before high low (err e) = err e
byte_before high low panic = panic

unfoldable pub hex_bytes_of : Text → Result ℕ Bytes
unfolding byte_before
hex_bytes_of [] = ok []
hex_bytes_of (c ∷ []) = err 0
hex_bytes_of (c ∷ d ∷ cs) = byte_before (digit_value c) (digit_value d) (hex_bytes_of cs)

unfoldable pub of_size : ℕ → Result ℕ Bytes → Result ℕ Bytes
of_size n (ok bs) = if length bs == n then ok bs else err 0
of_size n (err e) = err e
of_size n panic = panic

abbrev pub hex_digits : HexCodec ℕ
hex_digits = record {
  to_hex = hex_text;
  from_hex = hex_bytes_of;
  from_hex_array = λ n s. of_size n (hex_bytes_of s);
}

text_reads : (bs : Bytes) → AreBytes bs → hex_bytes_of (hex_text bs) ≡ ok bs
unfolding hex_bytes_of hex_text byte_before
text_reads [] v = refl
text_reads (b ∷ bs) (v, vs) =
    let high = digit_value-digit_char (b / 16) (omega arith) in
    let low = digit_value-digit_char (b % 16) (omega arith) in
    rw (text_reads bs vs, high, low) (ground arith)

before_bytes :
    (high low : ℕ) (r : Result ℕ Bytes) (bs : Bytes)
    → ((cs : Bytes) → r ≡ ok cs → AreBytes cs)
    → byte_before high low r ≡ ok bs
    → AreBytes bs
unfolding byte_before
before_bytes high low (ok cs) bs h e = elim (Bool-cases (ltb high 16 && ltb low 16)) [
  | inl digits ↦
      let same = ok-injective _ _ (rw digits at e) in
      rw (← same) (ground (arith, digits), h cs refl)
  | inr other ↦ absurd (let r = rw other at e in cc)
]
before_bytes high low (err x) bs h e = absurd cc
before_bytes high low panic bs h e = absurd cc

text_bytes : (s : Text) (bs : Bytes) → hex_bytes_of s ≡ ok bs → AreBytes bs
unfolding hex_bytes_of
text_bytes [] bs e = let same = ok-injective _ _ e in rw (← same) tt
text_bytes (c ∷ []) bs e = absurd cc
text_bytes (c ∷ d ∷ cs) bs e =
    before_bytes (digit_value c) (digit_value d) (hex_bytes_of cs) bs (text_bytes cs) e

sized_bytes :
    (n : ℕ) (r : Result ℕ Bytes) (bs : Bytes) → of_size n r ≡ ok bs → (r ≡ ok bs) × (length bs ≡ n)
unfolding of_size
sized_bytes n (ok cs) bs e = elim (Bool-cases (length cs == n)) [
  | inl fits ↦
      let same = ok-injective _ _ (rw fits at e) in
      (rw same refl, rw (← same) (ground (arith, fits)))
  | inr other ↦ absurd (let r = rw other at e in cc)
]
sized_bytes n (err x) bs e = absurd cc
sized_bytes n panic bs e = absurd cc

pub hex_digits-IsHex : IsHex hex_digits
unfolding of_size
hex_digits-IsHex = record {
  hex_reads = text_reads;
  hex_bytes = text_bytes;
  array_reads = λ n bs v size. rw (text_reads bs v) (ground (arith, size));
  array_refuses = λ n bs v other. (0, rw (text_reads bs v) (ground (arith, other)));
  array_size = λ n s bs e.
      let (read, size) = sized_bytes n (hex_bytes_of s) bs e in (text_bytes s bs read, size);
}

pub hex_text-AreDigits : (t : Bytes) → AreBytes t → All IsDigit (hex_text t)
unfolding hex_text
hex_text-AreDigits [] h = tt
hex_text-AreDigits (b ∷ bs) (h, hs) = (
  digit_char-IsDigit (b / 16) (omega arith),
  (digit_char-IsDigit (b % 16) (omega arith), hex_text-AreDigits bs hs),
)

pub hex_text-filled : (t : Bytes) (n : ℕ) → length t ≡ n → 0 < n → eq_bytes (hex_text t) [] ≡ false
unfolding hex_text eq_bytes
hex_text-filled [] n e h = absurd (omega arith)
hex_text-filled (b ∷ bs) n e h = refl
