-- ===== src/Seals/Texts/Explicit.antt =====
-- seals/src/txout/explicit.rs: the text of an explicit seal, its parsing, and that it reads back.
use bp_core.Base.{◌<◌, ◌^◌, ◌≡◌, refl, if◌then◌else◌, List, [], ◌∷◌, ◌++◌, eq_bytes}
use bp_core.Base.Result.{Result, ok, err, try, map_err}
use bp_core.Seals.{ExplicitSeal}
use bp_core.Seals.Texts.{
  IdText, MethodParseError, method_display, method_from_str, is_mark, no_method,
}
use bp_core.Seals.Texts.RoundTrip.{
  IsIdText, digits-Unmarked, method-Unmarked, method_reads, method_named,
}
use bp_core.Text.{Text, parse_u32, to_string, split}
use bp_core.Text.Numbers.{to_string-AreDigits, parse_u32-to_string}
use bp_core.Text.Splits.{split_at, split_none}

pub data ParseError (H : Type 0) : Type 0 where
  method_required txid_required : ParseError H
  wrong_method : MethodParseError → ParseError H
  wrong_txid : H → ParseError H
  wrong_vout wrong_structure : ParseError H

module _ (ids : IdText) where
  -- `Display for ExplicitSeal`
  unfoldable pub explicit_display : ExplicitSeal ids.SealId → Text
  explicit_display seal =
      method_display seal.method ++ b':' ∷ (ids.display seal.txid ++ b':' ∷ to_string seal.vout)

  -- The fields of a text of three parts.
  unfoldable pub explicit_fields :
      Text → Text → Text → Result (ParseError ids.HexError) (ExplicitSeal ids.SealId)
  explicit_fields method txid vout = try (map_err wrong_method (method_from_str method)) (λ m.
      try (map_err wrong_txid (ids.from_str txid)) (λ id.
        try (map_err (λ e. wrong_vout) (parse_u32 vout))
          (λ v. ok (record { method = m; txid = id; vout = v }))))

  unfoldable pub explicit_rest :
      Text → Text → List Text → Result (ParseError ids.HexError) (ExplicitSeal ids.SealId)
  unfolding explicit_fields
  explicit_rest method txid [] = err wrong_structure
  explicit_rest method txid (vout ∷ []) = explicit_fields method txid vout
  explicit_rest method txid (vout ∷ more ∷ parts) = err wrong_structure

  unfoldable pub explicit_after :
      Text → List Text → Result (ParseError ids.HexError) (ExplicitSeal ids.SealId)
  unfolding explicit_rest
  explicit_after method [] = err wrong_structure
  explicit_after method (txid ∷ parts) =
      if eq_bytes txid [] then err txid_required else explicit_rest method txid parts

  -- The match on the parts of a text.
  unfoldable pub explicit_parts :
      List Text → Result (ParseError ids.HexError) (ExplicitSeal ids.SealId)
  unfolding explicit_after no_method
  explicit_parts [] = err wrong_structure
  explicit_parts (method ∷ parts) =
      if no_method method then err method_required else explicit_after method parts

  -- `ExplicitSeal::from_str`
  unfoldable pub explicit_from_str :
      Text → Result (ParseError ids.HexError) (ExplicitSeal ids.SealId)
  unfolding explicit_parts is_mark
  explicit_from_str s = explicit_parts (split is_mark s)

module _ {ids : IdText} {Valid : ids.SealId → Type 0} (text : IsIdText ids Valid) where
  explicit_split :
      (seal : ExplicitSeal ids.SealId)
      → Valid seal.txid
      → split is_mark (explicit_display ids seal)
        ≡ method_display seal.method ∷ ids.display seal.txid ∷ to_string seal.vout ∷ []
  unfolding explicit_display
  explicit_split seal valid =
      rw
        (
          split_at is_mark (method_display seal.method) _ b':' (method-Unmarked seal.method)
              (unfold is_mark in refl),
          split_at is_mark (ids.display seal.txid) _ b':' (text.unmarked seal.txid valid)
              (unfold is_mark in refl),
          split_none is_mark (to_string seal.vout)
              (digits-Unmarked (to_string seal.vout) (to_string-AreDigits seal.vout)),
        )
        refl

  -- An explicit seal, whose identifier reads back from its text, reads back from its own.
  pub explicit_from_str-explicit_display :
      (seal : ExplicitSeal ids.SealId)
      → Valid seal.txid
      → seal.vout < 2 ^ 32
      → explicit_from_str ids (explicit_display ids seal) ≡ ok seal
  unfolding explicit_from_str explicit_parts explicit_after explicit_rest explicit_fields
  explicit_from_str-explicit_display seal valid vout =
      rw
        (
          explicit_split seal valid,
          method_named seal.method,
          text.filled seal.txid valid,
          method_reads seal.method,
          text.reads seal.txid valid,
          parse_u32-to_string seal.vout vout,
        )
        refl
