-- ===== src/Pubkeys/Hex.antt =====
-- consensus/src/pubkeys.rs: the texts of public keys and their parsing. How the crate secp256k1
-- writes a point as text is a parameter.
use bp_core.Base.{◌≡◌, refl, arith, true, AreBytes}
use bp_core.Base.Result.{Result, ok, err, try, map_err}
use bp_core.Text.{Text}
use bp_core.Text.Hex.{HexCodec, IsHex}
use bp_core.Pubkeys.{
  Points, IsPoints, InvalidPubkey, LegacyPk, from_byte_array, legacy_pk_from_bytes, compressed,
  legacy_reads, bytes_of,
}

pub data PubkeyParseError (H : Type 0) : Type 0 where
  bad_hex : H → PubkeyParseError H
  invalid_pubkey : InvalidPubkey → PubkeyParseError H

-- `Display` of a point, as secp256k1 documents it: the hexadecimal text of its compressed form.
pub record IsPointText {H : Type 0} (hex : HexCodec H) (points : Points)
    (display : points.PublicKey → Text) : Type 0 where
  pub text_of : (pk : points.PublicKey) → display pk ≡ hex.to_hex (points.serialize pk)
  pub point_bytes : (pk : points.PublicKey) → AreBytes (points.serialize pk)

module _ {H : Type 0} (hex : HexCodec H) (points : Points) where
  -- `CompressedPk::from_str`
  unfoldable pub compressed_from_str : Text → Result (PubkeyParseError H) points.PublicKey
  compressed_from_str s =
      try (map_err bad_hex (hex.from_hex_array 33 s))
        (λ bs. map_err invalid_pubkey (from_byte_array points bs))

  -- `UncompressedPk::from_str`
  unfoldable pub uncompressed_from_str : Text → Result (PubkeyParseError H) points.PublicKey
  uncompressed_from_str s =
      try (map_err bad_hex (hex.from_hex_array 65 s))
        (λ bs. map_err invalid_pubkey (from_byte_array points bs))

  -- `LegacyPk::from_str`
  unfoldable pub legacy_from_str : Text → Result (PubkeyParseError H) (LegacyPk points.PublicKey)
  legacy_from_str s =
      try (map_err bad_hex (hex.from_hex s))
        (λ bs. map_err invalid_pubkey (legacy_pk_from_bytes points bs))

-- `Display` of `CompressedPk`, `UncompressedPk` and `LegacyPk`, derived: that of the point inside.
unfoldable pub legacy_display : {Point : Type 0} → (Point → Text) → LegacyPk Point → Text
legacy_display display pk = display pk.pubkey

compressed_reads :
    {points : Points} (laws : IsPoints points) (pk : points.PublicKey)
    → legacy_pk_from_bytes points (points.serialize pk) ≡ ok (compressed points pk)
unfolding bytes_of compressed
compressed_reads laws pk = legacy_reads laws true pk

-- The text of a legacy key, which is that of its point: as a compressed key it reads back, as an
-- uncompressed key it is refused as wrong hexadecimal, and as a legacy key it is read in the
-- compressed form, whatever form the key had.
pub legacy_texts :
    {H : Type 0} {hex : HexCodec H} {points : Points} {display : points.PublicKey → Text}
    (h : IsHex hex) (laws : IsPoints points) (text : IsPointText hex points display)
    (pk : LegacyPk points.PublicKey)
    → (compressed_from_str hex points (legacy_display display pk) ≡ ok pk.pubkey)
      × ((e : H) × (uncompressed_from_str hex points (legacy_display display pk) ≡ err (bad_hex e)))
      × (legacy_from_str hex points (legacy_display display pk) ≡ ok (compressed points pk.pubkey))
unfolding legacy_display
legacy_texts {hex = hex} {points = points} h laws text pk =
    let key = points.serialize pk.pubkey in
    let bytes = text.point_bytes pk.pubkey in
    let (e, refused) =
      h.array_refuses 65 key bytes (λ same. absurd (omega (arith, laws.short pk.pubkey, same))) in
    (
      rw (text.text_of pk.pubkey) (
          unfold compressed_from_str from_byte_array in
          rw (h.array_reads 33 key bytes (laws.short pk.pubkey), laws.reads pk.pubkey) refl),
      (e, rw (text.text_of pk.pubkey) (unfold uncompressed_from_str in rw refused refl)),
      rw (text.text_of pk.pubkey) (
          unfold legacy_from_str in
          rw (h.hex_reads key bytes, compressed_reads laws pk.pubkey) refl),
    )
