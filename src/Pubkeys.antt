-- ===== src/Pubkeys.antt =====
-- consensus/src/pubkeys.rs: compressed, uncompressed and legacy public keys as bytes. The points of
-- the crate secp256k1 and their encodings are parameters.
pub mod Hex
pub mod Strict
use bp_core.Base.{
  ◌≡◌, ◌≢◌, ◌⊎◌, inl, inr, refl, Bool, true, false, ◌==◌, if◌then◌else◌, length, Option, none, some,
  Bytes, ℕ,
}
use bp_core.Base.Result.{Result, ok, panic, try, ok_or}

-- PublicKey of the crate secp256k1.
pub record Points : Type 1 where
  pub PublicKey : Type 0
  pub from_slice : Bytes → Option PublicKey
  pub serialize : PublicKey → Bytes
  pub serialize_uncompressed : PublicKey → Bytes

-- A point is read from 33 or 65 bytes, and reads back from both of its encodings.
pub record IsPoints (points : Points) : Type 0 where
  pub size :
      (bytes : Bytes) (pk : points.PublicKey)
      → points.from_slice bytes ≡ some pk
      → (length bytes ≡ 33) ⊎ (length bytes ≡ 65)
  pub reads : (pk : points.PublicKey) → points.from_slice (points.serialize pk) ≡ some pk
  pub reads_uncompressed :
      (pk : points.PublicKey) → points.from_slice (points.serialize_uncompressed pk) ≡ some pk
  pub short : (pk : points.PublicKey) → length (points.serialize pk) ≡ 33
  pub long : (pk : points.PublicKey) → length (points.serialize_uncompressed pk) ≡ 65

pub data InvalidPubkey : Type 0 where
  unspecified : InvalidPubkey
  specified : Bytes → InvalidPubkey

pub record LegacyPk (Point : Type 0) : Type 0 where
  pub compressed : Bool
  pub pubkey : Point

module _ (points : Points) where
  -- `CompressedPk::from_byte_array`, and `UncompressedPk::from_byte_array` on 65 bytes.
  unfoldable pub from_byte_array : Bytes → Result InvalidPubkey points.PublicKey
  from_byte_array bytes = ok_or (specified bytes) (points.from_slice bytes)

  -- `CompressedPk::from_bytes`
  unfoldable pub compressed_from_bytes : Bytes → Result InvalidPubkey points.PublicKey
  compressed_from_bytes bytes = ok_or unspecified (points.from_slice bytes)

  unfoldable pub compressed : points.PublicKey → LegacyPk points.PublicKey
  compressed pubkey = record { compressed = true; pubkey = pubkey }

  unfoldable pub uncompressed : points.PublicKey → LegacyPk points.PublicKey
  uncompressed pubkey = record { compressed = false; pubkey = pubkey }

  -- The match of `LegacyPk::from_bytes` on the length, with `unreachable!()` as a panic.
  unfoldable pub of_length : ℕ → points.PublicKey → Result InvalidPubkey (LegacyPk points.PublicKey)
  unfolding compressed uncompressed
  of_length n pubkey =
      if n == 33
      then ok (compressed pubkey)
      else if n == 65
      then ok (uncompressed pubkey)
      else panic

  -- `LegacyPk::from_bytes`
  unfoldable pub legacy_pk_from_bytes : Bytes → Result InvalidPubkey (LegacyPk points.PublicKey)
  unfolding of_length
  legacy_pk_from_bytes bytes =
      try (ok_or unspecified (points.from_slice bytes)) (of_length (length bytes))

  unfoldable pub bytes_of : Bool → points.PublicKey → Bytes
  bytes_of true pubkey = points.serialize pubkey
  bytes_of false pubkey = points.serialize_uncompressed pubkey

  -- `LegacyPk::to_vec`
  unfoldable pub legacy_pk_to_vec : LegacyPk points.PublicKey → Bytes
  unfolding bytes_of
  legacy_pk_to_vec pk = bytes_of pk.compressed pk.pubkey

module _ {points : Points} (laws : IsPoints points) where
  pub legacy_reads :
      (is_compressed : Bool) (pubkey : points.PublicKey)
      → legacy_pk_from_bytes points (bytes_of points is_compressed pubkey)
        ≡ ok (record { compressed = is_compressed; pubkey = pubkey })
  unfolding legacy_pk_from_bytes bytes_of of_length compressed uncompressed
  legacy_reads true pubkey = rw (laws.reads pubkey, laws.short pubkey) refl
  legacy_reads false pubkey = rw (laws.reads_uncompressed pubkey, laws.long pubkey) refl

  -- A legacy key reads back from its bytes in its form, compressed or not.
  pub legacy_pk_from_bytes-legacy_pk_to_vec :
      (pk : LegacyPk points.PublicKey)
      → legacy_pk_from_bytes points (legacy_pk_to_vec points pk) ≡ ok pk
  unfolding legacy_pk_to_vec
  legacy_pk_from_bytes-legacy_pk_to_vec pk = legacy_reads pk.compressed pk.pubkey

  no_panic_of :
      (bytes : Bytes) (o : Option points.PublicKey)
      → points.from_slice bytes ≡ o
      → try (ok_or unspecified o) (of_length points (length bytes)) ≢ panic
  unfolding of_length
  no_panic_of bytes none e stopped = absurd cc
  no_panic_of bytes (some pk) e stopped = elim (laws.size bytes pk e) [
    | inl short ↦ absurd (let r = rw short at stopped in cc)
    | inr long ↦ absurd (let r = rw long at stopped in cc)
  ]

  -- Reading a legacy key never reaches the unreachable branch.
  pub legacy_pk_no_panic : (bytes : Bytes) → legacy_pk_from_bytes points bytes ≢ panic
  unfolding legacy_pk_from_bytes
  legacy_pk_no_panic bytes = no_panic_of bytes _ refl
