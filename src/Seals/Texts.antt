-- ===== src/Seals/Texts.antt =====
-- The texts of seals and their parsing: seals/src/txout/{seal,blind}.rs, and the texts of
-- methods in dbc/src/proof.rs. The hexadecimal text of a Txid, of the crate amplify, is a parameter.
pub mod RoundTrip
pub mod Pointers
pub mod Explicit
pub mod Language
use bp_core.Base.{
  ℕ, ◌^◌, Bool, true, false, not, ◌||◌, ◌==◌, if◌then◌else◌, List, [], ◌∷◌, ◌++◌, eq_bytes,
}
use bp_core.Base.Result.{Result, ok, err, try, map_err}
use bp_core.Dbc.Proof.{Method, opret_first, tapret_first}
use bp_core.Seals.{TxPtr, witness_tx, ptr_txid, BlindSeal}
use bp_core.Text.{
  Text, ParseIntError, from_str_radix, parse_u32, to_string, to_hex_010, to_lowercase, starts_with,
  trim_0x, split, contains,
}
use bp_core.Tx.{Txid}

-- `Display for Method`
unfoldable pub method_display : Method → Text
method_display opret_first = b'o' ∷ b'p' ∷ b'r' ∷ b'e' ∷ b't' ∷ b'1' ∷ b's' ∷ b't' ∷ []
method_display tapret_first = b't' ∷ b'a' ∷ b'p' ∷ b'r' ∷ b'e' ∷ b't' ∷ b'1' ∷ b's' ∷ b't' ∷ []

pub data MethodParseError : Type 0 where
  method_parse_error : Text → MethodParseError

-- `Method::from_str`; the error holds the text as it was given.
unfoldable pub method_from_str : Text → Result MethodParseError Method
unfolding method_display
method_from_str s =
    if eq_bytes (to_lowercase s) (method_display opret_first)
    then ok opret_first
    else if eq_bytes (to_lowercase s) (method_display tapret_first)
    then ok tapret_first
    else err (method_parse_error s)

-- `Display` and `FromStr` of an identifier, with hex::Error.
pub record IdText : Type 1 where
  pub SealId : Type 0
  pub HexError : Type 0
  pub display : SealId → Text
  pub from_str : Text → Result HexError SealId

-- `Display for TxPtr`
unfoldable pub ptr_display : (Txid → Text) → TxPtr → Text
ptr_display display witness_tx = b'~' ∷ []
ptr_display display (ptr_txid txid) = display txid

-- `TxPtr::from_str`
unfoldable pub ptr_from_str : {H : Type 0} → (Text → Result H Txid) → Text → Result H TxPtr
ptr_from_str from_str s =
    if eq_bytes s (b'~' ∷ []) then ok witness_tx else try (from_str s) (λ txid. ok (ptr_txid txid))

-- The parse errors of a BlindSeal.
pub data ParseError (H : Type 0) : Type 0 where
  method_required txid_required blinding_required : ParseError H
  wrong_method : MethodParseError → ParseError H
  wrong_blinding : ParseError H
  wrong_txid : H → ParseError H
  wrong_vout wrong_structure non_hex_blinding : ParseError H

-- `[':', '#']`
unfoldable pub is_mark : ℕ → Bool
is_mark c = c == b':' || c == b'#'

-- `"~"` and `""` are no methods.
unfoldable pub no_method : Text → Bool
no_method s = eq_bytes s (b'~' ∷ []) || eq_bytes s []

module _ (ids : IdText) where
  -- `Display for BlindSeal`
  unfoldable pub blind_display : BlindSeal ids.SealId → Text
  blind_display seal =
      method_display seal.method
      ++ b':'
        ∷ (ids.display seal.txid ++ b':' ∷ (to_string seal.vout ++ b'#' ∷ to_hex_010 seal.blinding))

  -- The fields of a text of four parts, read in the order of the code.
  unfoldable pub blind_fields :
      Text → Text → Text → Text → Result (ParseError ids.HexError) (BlindSeal ids.SealId)
  blind_fields method txid vout blinding = try (map_err wrong_method (method_from_str method)) (λ m.
      try (map_err (λ e. wrong_blinding) (from_str_radix 16 (2 ^ 64) (trim_0x blinding))) (λ b.
        try (map_err wrong_txid (ids.from_str txid)) (λ id.
          try (map_err (λ e. wrong_vout) (parse_u32 vout))
            (λ v. ok (record { method = m; txid = id; vout = v; blinding = b })))))

  unfoldable pub blind_rest :
      Text → Text → Text → List Text → Result (ParseError ids.HexError) (BlindSeal ids.SealId)
  unfolding blind_fields
  blind_rest s method txid [] =
      if contains s b':' then err blinding_required else err wrong_structure
  blind_rest s method txid (vout ∷ []) = err wrong_structure
  blind_rest s method txid (vout ∷ blinding ∷ []) =
      if not (starts_with blinding (b'0' ∷ b'x' ∷ []))
      then err non_hex_blinding
      else blind_fields method txid vout blinding
  blind_rest s method txid (vout ∷ blinding ∷ more ∷ parts) = err wrong_structure

  unfoldable pub blind_after :
      Text → Text → List Text → Result (ParseError ids.HexError) (BlindSeal ids.SealId)
  unfolding blind_rest
  blind_after s method [] = err wrong_structure
  blind_after s method (txid ∷ parts) =
      if eq_bytes txid [] then err txid_required else blind_rest s method txid parts

  -- The match on the parts of a text.
  unfoldable pub blind_parts :
      Text → List Text → Result (ParseError ids.HexError) (BlindSeal ids.SealId)
  unfolding blind_after no_method
  blind_parts s [] = err wrong_structure
  blind_parts s (method ∷ parts) =
      if no_method method then err method_required else blind_after s method parts

  -- `BlindSeal::from_str`
  unfoldable pub blind_from_str : Text → Result (ParseError ids.HexError) (BlindSeal ids.SealId)
  unfolding blind_parts is_mark
  blind_from_str s = blind_parts s (split is_mark s)
