-- ===== src/Tx/Texts.antt =====
-- consensus/src/tx.rs: the text of an outpoint and its parsing. The hexadecimal text of a Txid, of
-- the crate amplify, is a parameter.
use bp_core.Base.{
  ◌<◌, ◌^◌, ◌≡◌, ◌↔◌, refl, arith, false, [], ◌∷◌, ◌++◌, Option, none, some, eq_bytes, All, ◌==◌, ℕ,
}
use bp_core.Base.Result.{Result, ok, err, try, map_err, try_inv, map_err_inv, ok-injective}
use bp_core.Codec.Ints.{IsBytes}
use bp_core.Text.{Text, ParseIntError, parse_u32, to_string, split_once}
use bp_core.Text.Numbers.{IsDigit, parse_u32-to_string}
use bp_core.Text.Joins.{IsCutOnce, split_once_inv}
use bp_core.Text.Splits.{split_once_at, split_once_none, All-IsDigit}
use bp_core.Tx.{Txid, Outpoint}

pub data OutpointParseError (H : Type 0) : Type 0 where
  malformed_separator : Text → OutpointParseError H
  invalid_vout : ParseIntError → OutpointParseError H
  invalid_txid : H → OutpointParseError H

-- A Txid of 32 bytes reads back from its text, which is one of digits and not empty.
pub record IsTxidText {H : Type 0} (display : Txid → Text) (from_str : Text → Result H Txid)
    : Type 0 where
  pub txid_reads : (t : Txid) → IsBytes 32 t → from_str (display t) ≡ ok t
  pub txid_filled : (t : Txid) → IsBytes 32 t → eq_bytes (display t) [] ≡ false
  pub txid_digits : (t : Txid) → IsBytes 32 t → All IsDigit (display t)

-- `Display for Outpoint`
unfoldable pub outpoint_display : (Txid → Text) → Outpoint → Text
outpoint_display display o = display o.txid ++ b':' ∷ to_string o.vout

module _ {H : Type 0} (from_str : Text → Result H Txid) where
  -- What follows `split_once`.
  unfoldable pub outpoint_parts :
      Text → Option (Text × Text) → Result (OutpointParseError H) Outpoint
  outpoint_parts s none = err (malformed_separator s)
  outpoint_parts s (some (txid, vout)) =
      try (map_err invalid_txid (from_str txid))
        (λ t. try (map_err invalid_vout (parse_u32 vout)) (λ v. ok (record { txid = t; vout = v })))

  -- `Outpoint::from_str`
  unfoldable pub outpoint_from_str : Text → Result (OutpointParseError H) Outpoint
  unfolding outpoint_parts
  outpoint_from_str s = outpoint_parts s (split_once b':' s)

no_colon : (c : ℕ) → IsDigit c → (c == b':') ≡ false
no_colon c d = ground (arith, d)

-- An outpoint whose identifier is of 32 bytes reads back from its text.
pub outpoint_from_str-outpoint_display :
    {H : Type 0} {display : Txid → Text} {from_str : Text → Result H Txid}
    (text : IsTxidText display from_str) (o : Outpoint)
    → IsBytes 32 o.txid
    → o.vout < 2 ^ 32
    → outpoint_from_str from_str (outpoint_display display o) ≡ ok o
unfolding outpoint_from_str outpoint_display outpoint_parts
outpoint_from_str-outpoint_display {display = display} text o valid vout =
    let clean =
      All-IsDigit (λ c. (c == b':') ≡ false) (display o.txid) no_colon
        (text.txid_digits o.txid valid) in
    rw
      (
        split_once_at b':' (display o.txid) (to_string o.vout) clean,
        text.txid_reads o.txid valid,
        parse_u32-to_string o.vout vout,
      )
      refl

module _ {H : Type 0} (from_str : Text → Result H Txid) where
  parts_inv :
      (s : Text) (r : Option (Text × Text)) (o : Outpoint)
      → outpoint_parts from_str s r ≡ ok o
      → (txid : Text) × (vout : Text) × (r ≡ some (txid, vout))
        × (from_str txid ≡ ok o.txid)
        × (parse_u32 vout ≡ ok o.vout)
  unfolding outpoint_parts
  parts_inv s none o e = absurd cc
  parts_inv s (some (txid, vout)) o e =
      let (t, read, e₁) = try_inv (map_err invalid_txid (from_str txid)) _ o e in
      let (v, read₁, e₂) = try_inv (map_err invalid_vout (parse_u32 vout)) _ o e₁ in
      let same = ok-injective _ _ e₂ in
      rw (← same) (txid, vout, refl, map_err_inv _ _ t read, map_err_inv _ _ v read₁)

  -- A text is read as an outpoint exactly if, at its first colon, it is cut into a text that is read
  -- as the identifier and one that is read as the output number.
  pub outpoint_from_str_iff :
      (s : Text) (o : Outpoint)
      → (outpoint_from_str from_str s ≡ ok o) ↔ (
          (txid : Text) × (vout : Text) × IsCutOnce b':' s txid vout
          × (from_str txid ≡ ok o.txid)
          × (parse_u32 vout ≡ ok o.vout))
  unfolding outpoint_from_str
  outpoint_from_str_iff s o = (
    λ e.
        let (txid, vout, cut, read, read') = parts_inv s (split_once b':' s) o e in
        (txid, vout, split_once_inv b':' s txid vout cut, read, read'),
    λ (txid, vout, (same, h), read, read').
        rw (same, split_once_at b':' txid vout h) (unfold outpoint_parts in rw (read, read') refl),
  )

-- A text without a colon has no separator, and the error holds the text.
pub outpoint_no_separator :
    {H : Type 0} (from_str : Text → Result H Txid) (s : Text)
    → All (λ c. (c == b':') ≡ false) s
    → outpoint_from_str from_str s ≡ err (malformed_separator s)
unfolding outpoint_from_str outpoint_parts
outpoint_no_separator from_str s h = rw (split_once_none b':' s h) refl
