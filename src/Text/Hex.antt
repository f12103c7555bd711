-- ===== src/Text/Hex.antt =====
-- The hexadecimal text of bytes, which the crate amplify gives and reads (ToHex and FromHex), as a
-- parameter, and BlockDataParseError of consensus/src/tx.rs, with which transactions and headers
-- are read from such texts.
use bp_core.Base.{◌≡◌, ◌≢◌, refl, ap, [], ◌∷◌, Bytes, AreBytes, length, ℕ}
use bp_core.Base.Result.{Result, ok, err, panic, try, map_err}
use bp_core.Codec
use bp_core.Codec.{
  Decoder, Encoded, ConsensusDecodeError, consensus_serialize, consensus_deserialize,
}
use bp_core.Text.{Text}

-- `to_hex`, `Vec::<u8>::from_hex`, and `<[u8; n]>::from_hex` with its length.
pub record HexCodec (H : Type 0) : Type 0 where
  pub to_hex : Bytes → Text
  pub from_hex : Text → Result H Bytes
  pub from_hex_array : ℕ → Text → Result H Bytes

-- Bytes read back from their text, and what is read is bytes, of the length asked for.
pub record IsHex {H : Type 0} (hex : HexCodec H) : Type 0 where
  pub hex_reads : (bs : Bytes) → AreBytes bs → hex.from_hex (hex.to_hex bs) ≡ ok bs
  pub hex_bytes : (s : Text) (bs : Bytes) → hex.from_hex s ≡ ok bs → AreBytes bs
  pub array_reads :
      (n : ℕ) (bs : Bytes)
      → AreBytes bs
      → length bs ≡ n
      → hex.from_hex_array n (hex.to_hex bs) ≡ ok bs
  pub array_refuses :
      (n : ℕ) (bs : Bytes)
      → AreBytes bs
      → length bs ≢ n
      → (e : H) × (hex.from_hex_array n (hex.to_hex bs) ≡ err e)
  pub array_size :
      (n : ℕ) (s : Text) (bs : Bytes)
      → hex.from_hex_array n s ≡ ok bs
      → AreBytes bs × (length bs ≡ n)

pub data BlockDataParseError (H E : Type 0) : Type 0 where
  bad_hex : H → BlockDataParseError H E
  consensus : ConsensusDecodeError E → BlockDataParseError H E

-- `map_err(BlockDataParseError::from)`
unfoldable pub map_consensus :
    {H E A : Type 0} → Codec.Result E A → Result (BlockDataParseError H E) A
map_consensus (Codec.ok a) = ok a
map_consensus (Codec.err e) = err (consensus e)
map_consensus Codec.panic = panic

-- `LowerHex`, which `Display` is too: `consensus_serialize().to_hex()`
unfoldable pub lower_hex : {H A : Type 0} → HexCodec H → (A → Encoded) → A → Text
lower_hex hex encode a = hex.to_hex (consensus_serialize encode a)

module _ {H E A : Type 0} (hex : HexCodec H) where
  -- `from_str`: the bytes of the text, then `consensus_deserialize`.
  unfoldable pub data_from_str : Decoder E A → Text → Result (BlockDataParseError H E) A
  unfolding map_consensus
  data_from_str decode s =
      try (map_err bad_hex (hex.from_hex s)) (λ bs. map_consensus (consensus_deserialize decode bs))

module _ {H E A : Type 0} (hex : HexCodec H) (decode : Decoder E A) where
  -- The text of some bytes is read as the bytes are.
  pub from_str_at :
      (s : Text) (bs : Bytes)
      → hex.from_hex s ≡ ok bs
      → data_from_str hex decode s ≡ map_consensus (consensus_deserialize decode bs)
  unfolding data_from_str
  from_str_at s bs e = rw e refl

  map_consensus_inv :
      (r : Codec.Result E A) (a : A) → map_consensus {H = H} r ≡ ok a → r ≡ Codec.ok a
  unfolding map_consensus
  map_consensus_inv (Codec.ok b) a e = cc
  map_consensus_inv (Codec.err x) a e = absurd cc
  map_consensus_inv Codec.panic a e = absurd cc

  from_str_of :
      (s : Text) (r : Result H Bytes) (a : A)
      → hex.from_hex s ≡ r
      → data_from_str hex decode s ≡ ok a
      → (bs : Bytes) × (hex.from_hex s ≡ ok bs) × (consensus_deserialize decode bs ≡ Codec.ok a)
  unfolding data_from_str
  from_str_of s (ok bs) a e h = (bs, e, map_consensus_inv _ a (rw e at h))
  from_str_of s (err x) a e h = absurd (let r = rw e at h in cc)
  from_str_of s panic a e h = absurd (let r = rw e at h in cc)

  -- What is read from a text is read from its bytes.
  pub from_str_inv :
      (s : Text) (a : A)
      → data_from_str hex decode s ≡ ok a
      → (bs : Bytes) × (hex.from_hex s ≡ ok bs) × (consensus_deserialize decode bs ≡ Codec.ok a)
  from_str_inv s a h = from_str_of s _ a refl h

-- A whole input that deserializes is read with nothing left.
consumed_inv :
    {E A : Type 0} (r : Codec.Result E (A × Bytes)) (a : A)
    → Codec.bind r Codec.consumed ≡ Codec.ok a
    → r ≡ Codec.ok (a, [])
unfolding Codec.consumed
consumed_inv (Codec.ok (b, [])) a e = let same : b ≡ a = cc in ap (λ x. Codec.ok (x, [])) same
consumed_inv (Codec.ok (b, c ∷ cs)) a e = absurd cc
consumed_inv (Codec.err x) a e = absurd cc
consumed_inv Codec.panic a e = absurd cc

pub deserialize_inv :
    {E A : Type 0} (decode : Decoder E A) (bs : Bytes) (a : A)
    → consensus_deserialize decode bs ≡ Codec.ok a
    → decode bs ≡ Codec.ok (a, [])
unfolding consensus_deserialize
deserialize_inv decode bs a e = consumed_inv (decode bs) a e
