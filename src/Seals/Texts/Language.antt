-- ===== src/Seals/Texts/Language.antt =====
-- seals/src/txout/blind.rs: the texts that the parser of seals takes, all of them.
use bp_core.Base.{◌^◌, ◌≡◌, ◌↔◌, refl, true, false, List, [], ◌∷◌, eq_bytes, Bool-cases, inl, inr}
use bp_core.Base.Result.{ok, map_err, try_inv, map_err_inv, ok-injective}
use bp_core.Seals.{BlindSeal}
use bp_core.Seals.Texts.{
  IdText, method_from_str, is_mark, no_method, blind_fields, blind_rest, blind_after, blind_parts,
  blind_from_str, wrong_method, wrong_blinding, wrong_txid, wrong_vout,
}
use bp_core.Text.{Text, from_str_radix, parse_u32, starts_with, trim_0x, split, contains}
use bp_core.Text.Joins.{IsJoin, IsJoin-split, split-IsJoin}

-- The four parts of the text of a seal, each read by the parser of its field. The method is none of
-- the two texts that stand for a missing one, the identifier is not empty, and the blinding begins
-- with `0x`.
pub record IsSealParts (ids : IdText) (method txid vout blinding : Text)
    (seal : BlindSeal ids.SealId) : Type 0 where
  pub method_reads : method_from_str method ≡ ok seal.method
  pub method_given : no_method method ≡ false
  pub txid_reads : ids.from_str txid ≡ ok seal.txid
  pub txid_given : eq_bytes txid [] ≡ false
  pub vout_reads : parse_u32 vout ≡ ok seal.vout
  pub blinding_hex : starts_with blinding (b'0' ∷ b'x' ∷ []) ≡ true
  pub blinding_reads : from_str_radix 16 (2 ^ 64) (trim_0x blinding) ≡ ok seal.blinding

module _ (ids : IdText) where
  -- The parts of the text of a seal.
  abbrev ArePartsOf : List Text → BlindSeal ids.SealId → Type 0
  ArePartsOf parts seal =
      (method : Text) × (txid : Text) × (vout : Text) × (blinding : Text) × (parts
        ≡ method ∷ txid ∷ vout ∷ blinding ∷ [])
      × IsSealParts ids method txid vout blinding seal

  fields_inv :
      (method txid vout blinding : Text) (seal : BlindSeal ids.SealId)
      → no_method method ≡ false
      → eq_bytes txid [] ≡ false
      → starts_with blinding (b'0' ∷ b'x' ∷ []) ≡ true
      → blind_fields ids method txid vout blinding ≡ ok seal
      → IsSealParts ids method txid vout blinding seal
  unfolding blind_fields
  fields_inv method txid vout blinding seal given given' hex e =
      let (m, read, e₁) = try_inv (map_err wrong_method (method_from_str method)) _ seal e in
      let (b, read₁, e₂) =
        try_inv (map_err (λ x. wrong_blinding) (from_str_radix 16 (2 ^ 64) (trim_0x blinding))) _
          seal e₁ in
      let (id, read₂, e₃) = try_inv (map_err wrong_txid (ids.from_str txid)) _ seal e₂ in
      let (v, read₃, e₄) = try_inv (map_err (λ x. wrong_vout) (parse_u32 vout)) _ seal e₃ in
      let same = ok-injective _ _ e₄ in
      rw (← same) (record {
        method_reads = map_err_inv _ _ m read;
        method_given = given;
        txid_reads = map_err_inv _ _ id read₂;
        txid_given = given';
        vout_reads = map_err_inv _ _ v read₃;
        blinding_hex = hex;
        blinding_reads = map_err_inv _ _ b read₁;
      })

  rest_inv :
      (s method txid : Text) (parts : List Text) (seal : BlindSeal ids.SealId)
      → no_method method ≡ false
      → eq_bytes txid [] ≡ false
      → blind_rest ids s method txid parts ≡ ok seal
      → ArePartsOf (method ∷ txid ∷ parts) seal
  unfolding blind_rest
  rest_inv s method txid [] seal given given' e = elim (Bool-cases (contains s b':')) [
    | inl yes' ↦ absurd (let r = rw yes' at e in cc)
    | inr no' ↦ absurd (let r = rw no' at e in cc)
  ]
  rest_inv s method txid (vout ∷ []) seal given given' e = absurd cc
  rest_inv s method txid (vout ∷ blinding ∷ []) seal given given' e =
      elim (Bool-cases (starts_with blinding (b'0' ∷ b'x' ∷ []))) [
        | inl hex ↦ (
          method,
          txid,
          vout,
          blinding,
          refl,
          fields_inv method txid vout blinding seal given given' hex (rw hex at e),
        )
        | inr other ↦ absurd (let r = rw other at e in cc)
      ]
  rest_inv s method txid (vout ∷ blinding ∷ more ∷ parts) seal given given' e = absurd cc

  after_inv :
      (s method : Text) (parts : List Text) (seal : BlindSeal ids.SealId)
      → no_method method ≡ false
      → blind_after ids s method parts ≡ ok seal
      → ArePartsOf (method ∷ parts) seal
  unfolding blind_after
  after_inv s method [] seal given e = absurd cc
  after_inv s method (txid ∷ parts) seal given e = elim (Bool-cases (eq_bytes txid [])) [
    | inl missing ↦ absurd (let r = rw missing at e in cc)
    | inr given' ↦ rest_inv s method txid parts seal given given' (rw given' at e)
  ]

  parts_inv :
      (s : Text) (parts : List Text) (seal : BlindSeal ids.SealId)
      → blind_parts ids s parts ≡ ok seal
      → ArePartsOf parts seal
  unfolding blind_parts
  parts_inv s [] seal e = absurd cc
  parts_inv s (method ∷ parts) seal e = elim (Bool-cases (no_method method)) [
    | inl missing ↦ absurd (let r = rw missing at e in cc)
    | inr given ↦ after_inv s method parts seal given (rw given at e)
  ]

  parts_read :
      (s method txid vout blinding : Text) (seal : BlindSeal ids.SealId)
      → IsSealParts ids method txid vout blinding seal
      → blind_parts ids s (method ∷ txid ∷ vout ∷ blinding ∷ []) ≡ ok seal
  unfolding blind_parts blind_after blind_rest blind_fields
  parts_read s method txid vout blinding seal p =
      rw
        (
          p.method_given, p.txid_given, p.blinding_hex, p.method_reads, p.blinding_reads,
          p.txid_reads, p.vout_reads,
        )
        refl

  -- A text is read as a seal exactly if it is four parts that hold neither a colon nor a hash, with
  -- a colon or a hash, whichever it is, between each two, and the parts are read as the method, the
  -- identifier, the output number and the blinding of the seal, the last one behind `0x`.
  pub blind_from_str_iff :
      (s : Text) (seal : BlindSeal ids.SealId)
      → (blind_from_str ids s ≡ ok seal) ↔ (
          (method : Text) × (txid : Text) × (vout : Text) × (blinding : Text) × IsJoin is_mark
            (method ∷ txid ∷ vout ∷ blinding ∷ [])
            s
          × IsSealParts ids method txid vout blinding seal)
  unfolding blind_from_str
  blind_from_str_iff s seal = (
    λ e.
        let (method, txid, vout, blinding, same, p) = parts_inv s (split is_mark s) seal e in
        (method, txid, vout, blinding, rw same at (IsJoin-split is_mark s), p),
    λ (method, txid, vout, blinding, j, p).
        rw (split-IsJoin is_mark (method ∷ txid ∷ vout ∷ blinding ∷ []) s j)
          (parts_read s method txid vout blinding seal p),
  )
