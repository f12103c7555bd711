-- ===== src/Seals/Texts/RoundTrip.antt =====
-- seals/src/txout/blind.rs: a seal reads back from its text.
use bp_core.Base.{ℕ, ◌<◌, ◌^◌, ◌≡◌, refl, arith, true, false, [], ◌∷◌, All, eq_bytes}
use bp_core.Base.Result.{ok}
use bp_core.Dbc.Proof.{Method, opret_first, tapret_first}
use bp_core.Seals.{BlindSeal}
use bp_core.Seals.Texts.{
  IdText, method_display, method_from_str, is_mark, no_method, blind_display, blind_parts,
  blind_after, blind_rest, blind_fields, blind_from_str,
}
use bp_core.Text.{
  Text, to_string, to_hex_010, to_lowercase, starts_with, trim_0x, split, from_str_radix,
}
use bp_core.Text.Numbers.{
  IsDigit, to_string-AreDigits, parse_u32-to_string, hex_body, hex_body-AreDigits,
  from_str_radix-hex_body,
}
use bp_core.Text.Splits.{split_at, split_none, trim_0x_digits, All-IsDigit}

-- No character is one that parts of a seal's text are cut at.
abbrev pub Unmarked : Text → Type 0
Unmarked s = All (λ c. is_mark c ≡ false) s

-- An identifier reads back from its text, which is not empty and holds no mark.
pub record IsIdText (ids : IdText) (Valid : ids.SealId → Type 0) : Type 0 where
  pub reads : (id : ids.SealId) → Valid id → ids.from_str (ids.display id) ≡ ok id
  pub filled : (id : ids.SealId) → Valid id → eq_bytes (ids.display id) [] ≡ false
  pub unmarked : (id : ids.SealId) → Valid id → Unmarked (ids.display id)

pub digit_unmarked : (c : ℕ) → IsDigit c → is_mark c ≡ false
unfolding is_mark
digit_unmarked c d = ground (arith, d)

pub digits-Unmarked : (s : Text) → All IsDigit s → Unmarked s
digits-Unmarked s h = All-IsDigit (λ c. is_mark c ≡ false) s digit_unmarked h

pub method-Unmarked : (m : Method) → Unmarked (method_display m)
unfolding method_display is_mark
method-Unmarked opret_first = (refl, (refl, (refl, (refl, (refl, (refl, (refl, (refl, tt))))))))
method-Unmarked tapret_first =
    (refl, (refl, (refl, (refl, (refl, (refl, (refl, (refl, (refl, tt)))))))))

pub method_reads : (m : Method) → method_from_str (method_display m) ≡ ok m
unfolding method_from_str method_display to_lowercase eq_bytes
method_reads opret_first = refl
method_reads tapret_first = refl

pub method_named : (m : Method) → no_method (method_display m) ≡ false
unfolding no_method method_display eq_bytes
method_named opret_first = refl
method_named tapret_first = refl

hex-Unmarked : (n : ℕ) → Unmarked (to_hex_010 n)
unfolding to_hex_010
hex-Unmarked n = (
  unfold is_mark in refl,
  (unfold is_mark in refl, digits-Unmarked (hex_body n) (hex_body-AreDigits n)),
)

hex_reads : (n : ℕ) → n < 2 ^ 64 → from_str_radix 16 (2 ^ 64) (trim_0x (to_hex_010 n)) ≡ ok n
unfolding to_hex_010 trim_0x
hex_reads n h =
    rw (trim_0x_digits (hex_body n) (hex_body-AreDigits n)) (from_str_radix-hex_body n h)

hex_starts : (n : ℕ) → starts_with (to_hex_010 n) (b'0' ∷ b'x' ∷ []) ≡ true
unfolding to_hex_010 starts_with
hex_starts n = refl

module _ {ids : IdText} {Valid : ids.SealId → Type 0} (text : IsIdText ids Valid) where
  blind_split :
      (seal : BlindSeal ids.SealId)
      → Valid seal.txid
      → split is_mark (blind_display ids seal)
        ≡ method_display seal.method
          ∷ ids.display seal.txid
          ∷ to_string seal.vout
          ∷ to_hex_010 seal.blinding
          ∷ []
  unfolding blind_display
  blind_split seal valid =
      rw
        (
          split_at is_mark (method_display seal.method) _ b':' (method-Unmarked seal.method)
              (unfold is_mark in refl),
          split_at is_mark (ids.display seal.txid) _ b':' (text.unmarked seal.txid valid)
              (unfold is_mark in refl),
          split_at is_mark (to_string seal.vout) _ b'#'
              (digits-Unmarked (to_string seal.vout) (to_string-AreDigits seal.vout))
              (unfold is_mark in refl),
          split_none is_mark (to_hex_010 seal.blinding) (hex-Unmarked seal.blinding),
        )
        refl

  -- A seal with blinding, whose identifier reads back from its text, reads back from its own.
  pub blind_from_str-blind_display :
      (seal : BlindSeal ids.SealId)
      → Valid seal.txid
      → seal.vout < 2 ^ 32
      → seal.blinding < 2 ^ 64
      → blind_from_str ids (blind_display ids seal) ≡ ok seal
  unfolding blind_from_str blind_parts blind_after blind_rest blind_fields
  blind_from_str-blind_display seal valid vout blinding =
      rw
        (
          blind_split seal valid,
          method_named seal.method,
          text.filled seal.txid valid,
          hex_starts seal.blinding,
          method_reads seal.method,
          hex_reads seal.blinding blinding,
          text.reads seal.txid valid,
          parse_u32-to_string seal.vout vout,
        )
        refl
