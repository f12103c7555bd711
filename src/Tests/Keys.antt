-- ===== src/Tests/Keys.antt =====
-- Examples of the theorems on keys, with toy encodings.
use native.Mathlib.Decide.{ℕ_discrete}
use bp_core.Base.{
  ℕ, ◌≡◌, ◌⊎◌, inl, inr, refl, arith, Bool, true, false, ◌||◌, ◌==◌, if◌then◌else◌, [], ◌∷◌, length,
  Option, none, some, Bytes, AreBytes,
}
use bp_core.Base.Result.{ok, err}
use bp_core.Pubkeys.{Points, IsPoints, compressed, uncompressed}
use bp_core.Pubkeys.Hex.{
  bad_hex, IsPointText, compressed_from_str, uncompressed_from_str, legacy_from_str, legacy_display,
  legacy_texts,
}
use bp_core.Text.{Text}
use bp_core.Text.HexDigits.{hex_digits, hex_digits-IsHex}
use bp_core.Tests.{sevens, sevens-AreBytes}

-- Points that are a Boolean: 33 and 65 bytes of which the first is the point.
abbrev byte_of : Bool → ℕ
byte_of b = if b then 1 else 0

abbrev point_in : Bytes → Option Bool
point_in [] = none
point_in (b ∷ bs) = if length bs == 32 || length bs == 64 then some (b == 1) else none

abbrev toy_points : Points
toy_points = record {
  PublicKey = Bool;
  from_slice = point_in;
  serialize = λ pk. byte_of pk ∷ sevens 32;
  serialize_uncompressed = λ pk. byte_of pk ∷ sevens 64;
}

point_size :
    (bytes : Bytes) (pk : Bool)
    → point_in bytes ≡ some pk
    → (length bytes ≡ 33) ⊎ (length bytes ≡ 65)
point_size [] pk e = absurd cc
point_size (b ∷ bs) pk e = elim (ℕ_discrete (length bs) 32) [
  | yes short ↦ inl (omega arith)
  | no other ↦ elim (ℕ_discrete (length bs) 64) [
    | yes long ↦ inr (omega arith)
    | no neither ↦ absurd (ground (arith, e, other, neither))
  ]
]

point_reads : (pk : Bool) → point_in (byte_of pk ∷ sevens 32) ≡ some pk
point_reads true = refl
point_reads false = refl

point_reads_long : (pk : Bool) → point_in (byte_of pk ∷ sevens 64) ≡ some pk
point_reads_long true = refl
point_reads_long false = refl

toy_points-IsPoints : IsPoints toy_points
toy_points-IsPoints = record {
  size = point_size;
  reads = point_reads;
  reads_uncompressed = point_reads_long;
  short = λ pk. refl;
  long = λ pk. refl;
}

point_bytes : (pk : Bool) → AreBytes (byte_of pk ∷ sevens 32)
point_bytes true = (omega arith, sevens-AreBytes 32)
point_bytes false = (omega arith, sevens-AreBytes 32)

abbrev point_text : Bool → Text
point_text pk = hex_digits.to_hex (byte_of pk ∷ sevens 32)

point_text-IsPointText : IsPointText hex_digits toy_points point_text
point_text-IsPointText = record { text_of = λ pk. refl; point_bytes = point_bytes }

legacy_texts_example :
    (compressed_from_str hex_digits toy_points
        (legacy_display point_text (uncompressed toy_points true))
      ≡ ok true)
    × ((e : ℕ) × (uncompressed_from_str hex_digits toy_points
            (legacy_display point_text (uncompressed toy_points true))
          ≡ err (bad_hex e)))
    × (legacy_from_str hex_digits toy_points
          (legacy_display point_text (uncompressed toy_points true))
        ≡ ok (compressed toy_points true))
unfolding uncompressed
legacy_texts_example =
    legacy_texts hex_digits-IsHex toy_points-IsPoints point_text-IsPointText
      (uncompressed toy_points true)
