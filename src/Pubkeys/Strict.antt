-- ===== src/Pubkeys/Strict.antt =====
-- consensus/src/pubkeys.rs: the strict encoding of public keys.
use bp_core.Base.{◌≡◌, refl, Bool, ◌++◌, append_assoc, length, Bytes, ℕ}
use bp_core.Base.Result.{Result, ok, try, map_err, ok_or}
use bp_core.Strict.{DecodeError, strict, data_integrity_error, Field, IsField}
use bp_core.Pubkeys.{Points, IsPoints, InvalidPubkey, LegacyPk, specified}

module _ {D : Type 0} (points : Points) where
  -- `PublicKey::from_slice(bytes.as_slice()).map_err(|_| InvalidPubkey::Specified(bytes))`
  unfoldable pub point_of : Bytes → Result (DecodeError D InvalidPubkey) points.PublicKey
  point_of bytes = map_err data_integrity_error (ok_or (specified bytes) (points.from_slice bytes))

  module _ (array : Field D Bytes) where
    -- `CompressedPk::strict_encode`, with an array of 33 bytes.
    unfoldable pub compressed_strict_encode : points.PublicKey → Bytes
    compressed_strict_encode pk = array.write_field (points.serialize pk)

    -- `UncompressedPk::strict_encode`, with an array of 65 bytes.
    unfoldable pub uncompressed_strict_encode : points.PublicKey → Bytes
    uncompressed_strict_encode pk = array.write_field (points.serialize_uncompressed pk)

    -- `CompressedPk::strict_decode`, and `UncompressedPk::strict_decode` with 65 bytes.
    unfoldable pub point_strict_decode :
        Bytes → Result (DecodeError D InvalidPubkey) (points.PublicKey × Bytes)
    unfolding point_of
    point_strict_decode s =
        try (map_err strict (array.read_field s))
          (λ (bytes, rest). try (point_of bytes) (λ pk. ok (pk, rest)))

    module _ (bool : Field D Bool) where
      -- `LegacyPk::strict_encode`
      unfoldable pub legacy_strict_encode : LegacyPk points.PublicKey → Bytes
      legacy_strict_encode pk =
          bool.write_field pk.compressed ++ array.write_field (points.serialize pk.pubkey)

      -- `LegacyPk::strict_decode`
      unfoldable pub legacy_strict_decode :
          Bytes → Result (DecodeError D InvalidPubkey) (LegacyPk points.PublicKey × Bytes)
      unfolding point_of
      legacy_strict_decode s = try (map_err strict (bool.read_field s)) (λ (compressed, s).
          try (map_err strict (array.read_field s)) (λ (bytes, rest).
            try (point_of bytes)
              (λ pubkey. ok (record { compressed = compressed; pubkey = pubkey }, rest))))

-- Every flag is a Boolean.
abbrev pub IsFlag : Bool → Type 0
IsFlag b = Unit {0}

abbrev pub HasSize : ℕ → Bytes → Type 0
HasSize n bytes = length bytes ≡ n

-- Where fields of the crate read back: a compressed, an uncompressed and a legacy key read back from
-- their strict encodings, the legacy key in its form, and the reader stops where they end.
pub strict_keys :
    {D : Type 0} {points : Points} {array33 array65 : Field D Bytes} {bool : Field D Bool}
    (laws : IsPoints points) (is33 : IsField (HasSize 33) array33)
    (is65 : IsField (HasSize 65) array65) (is_bool : IsField IsFlag bool) (pk : points.PublicKey)
    (legacy : LegacyPk points.PublicKey) (rest : Bytes)
    → (point_strict_decode points array33 (compressed_strict_encode points array33 pk ++ rest)
        ≡ ok (pk, rest))
      × (point_strict_decode points array65 (uncompressed_strict_encode points array65 pk ++ rest)
          ≡ ok (pk, rest))
      × (legacy_strict_decode points array33 bool
            (legacy_strict_encode points array33 bool legacy ++ rest)
          ≡ ok (legacy, rest))
unfolding compressed_strict_encode uncompressed_strict_encode point_strict_decode
    legacy_strict_encode legacy_strict_decode
strict_keys {points = points} laws is33 is65 is_bool pk legacy rest = (
  rw (is33.field_reads (points.serialize pk) (laws.short pk) rest, laws.reads pk) refl,
  rw
      (
        is65.field_reads (points.serialize_uncompressed pk) (laws.long pk) rest,
        laws.reads_uncompressed pk,
      )
      refl,
  rw
      (
        append_assoc,
        is_bool.field_reads legacy.compressed tt _,
        is33.field_reads (points.serialize legacy.pubkey) (laws.short legacy.pubkey) rest,
        laws.reads legacy.pubkey,
      )
      refl,
)
