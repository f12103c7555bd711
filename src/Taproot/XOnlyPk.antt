-- ===== src/Taproot/XOnlyPk.antt =====
-- consensus/src/taproot.rs: x-only public keys as bytes, as texts and in the strict encoding. The
-- keys of the crate secp256k1 and their bytes are parameters.
use bp_core.Base.{◌≡◌, refl, ◌++◌, Option, some, length, Bytes, AreBytes}
use bp_core.Base.Result.{Result, ok, try, map_err, ok_or}
use bp_core.Pubkeys.{InvalidPubkey, unspecified, specified}
use bp_core.Pubkeys.Hex.{PubkeyParseError, bad_hex, invalid_pubkey}
use bp_core.Pubkeys.Strict.{HasSize}
use bp_core.Strict.{DecodeError, strict, data_integrity_error, Field, IsField}
use bp_core.Text.{Text}
use bp_core.Text.Hex.{HexCodec, IsHex}

-- XOnlyPublicKey of the crate secp256k1, and the key of a full point.
pub record XOnlyPoints : Type 1 where
  pub XOnlyPublicKey : Type 0
  pub PublicKey : Type 0
  pub from_slice : Bytes → Option XOnlyPublicKey
  pub serialize : XOnlyPublicKey → Bytes
  pub x_only_public_key : PublicKey → XOnlyPublicKey

-- A key reads back from its 32 bytes.
pub record IsXOnlyPoints (points : XOnlyPoints) : Type 0 where
  pub key_reads : (pk : points.XOnlyPublicKey) → points.from_slice (points.serialize pk) ≡ some pk
  pub key_size : (pk : points.XOnlyPublicKey) → length (points.serialize pk) ≡ 32
  pub key_bytes : (pk : points.XOnlyPublicKey) → AreBytes (points.serialize pk)

module _ (points : XOnlyPoints) where
  -- `XOnlyPk::from_byte_array`, and those of InternalPk and OutputPk.
  unfoldable pub from_byte_array : Bytes → Result InvalidPubkey points.XOnlyPublicKey
  from_byte_array bytes = ok_or (specified bytes) (points.from_slice bytes)

  -- `XOnlyPk::from_bytes`, and those of InternalPk and OutputPk.
  unfoldable pub from_bytes : Bytes → Result InvalidPubkey points.XOnlyPublicKey
  from_bytes bytes = ok_or unspecified (points.from_slice bytes)

  -- `to_byte_array` of the three.
  unfoldable pub to_byte_array : points.XOnlyPublicKey → Bytes
  to_byte_array pk = points.serialize pk

  -- `From<CompressedPk>` and `From<PublicKey>`.
  unfoldable pub from_public_key : points.PublicKey → points.XOnlyPublicKey
  from_public_key pubkey = points.x_only_public_key pubkey

  -- `XOnlyPk::from_str`
  unfoldable pub xonly_from_str :
      {H : Type 0} → HexCodec H → Text → Result (PubkeyParseError H) points.XOnlyPublicKey
  unfolding from_byte_array
  xonly_from_str hex s =
      try (map_err bad_hex (hex.from_hex_array 32 s))
        (λ bs. map_err invalid_pubkey (from_byte_array bs))

  module _ {D : Type 0} (array : Field D Bytes) where
    -- `StrictEncode for XOnlyPk`
    unfoldable pub xonly_strict_encode : points.XOnlyPublicKey → Bytes
    unfolding to_byte_array
    xonly_strict_encode pk = array.write_field (to_byte_array pk)

    -- `StrictDecode for XOnlyPk`
    unfoldable pub xonly_strict_decode :
        Bytes → Result (DecodeError D InvalidPubkey) (points.XOnlyPublicKey × Bytes)
    unfolding from_byte_array
    xonly_strict_decode s = try (map_err strict (array.read_field s)) (λ (bytes, rest).
        try (map_err data_integrity_error (from_byte_array bytes)) (λ pk. ok (pk, rest)))

-- An x-only key reads back from its bytes by both readers, from the hexadecimal text of its bytes,
-- and from its strict encoding, where the reader stops at its end.
pub xonly_reads :
    {H D : Type 0} {hex : HexCodec H} {array : Field D Bytes} {points : XOnlyPoints} (h : IsHex hex)
    (is32 : IsField (HasSize 32) array) (laws : IsXOnlyPoints points) (pk : points.XOnlyPublicKey)
    (rest : Bytes)
    → (from_byte_array points (to_byte_array points pk) ≡ ok pk)
      × (from_bytes points (to_byte_array points pk) ≡ ok pk)
      × (xonly_from_str points hex (hex.to_hex (to_byte_array points pk)) ≡ ok pk)
      × (xonly_strict_decode points array (xonly_strict_encode points array pk ++ rest)
          ≡ ok (pk, rest))
unfolding from_byte_array from_bytes to_byte_array xonly_from_str xonly_strict_encode
    xonly_strict_decode
xonly_reads {points = points} h is32 laws pk rest =
    let key = points.serialize pk in
    (
      rw (laws.key_reads pk) refl,
      rw (laws.key_reads pk) refl,
      rw (h.array_reads 32 key (laws.key_bytes pk) (laws.key_size pk), laws.key_reads pk) refl,
      rw (is32.field_reads key (laws.key_size pk) rest, laws.key_reads pk) refl,
    )
