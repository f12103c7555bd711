-- ===== src/Block.antt =====
-- consensus/src/block.rs and consensus/src/coding.rs: block headers, their encoding and their hash.
pub mod Hex
use bp_core.Base.{ℕ, ◌^◌, ◌<◌, ◌≡◌, refl, sym, ap, ◌++◌, length, Bytes, AreBytes}
use bp_core.Base.Int.{ℤ, IsI32}
use bp_core.Codec.{Decoder, ◌>>=◌, pure, Encoded, ◌<+>◌, ok}
use bp_core.Codec.Ints.{
  IsBytes, encode_i32, decode_i32, encode_u32, decode_u32, encode_bytes32, Bytes32-IsCodec,
  U32-IsCodec, I32-IsCodec,
}
use bp_core.Codec.Newtypes.{
  encode_block_hash, decode_block_hash, encode_block_merkle_root, decode_block_merkle_root,
}
use bp_core.Codec.Laws.{IsCodec, IsCodec-field, IsCodec-last, IsCodec-iff}

abbrev pub BlockHash : Type 0
BlockHash = Bytes

abbrev pub BlockMerkleRoot : Type 0
BlockMerkleRoot = Bytes

pub record BlockHeader : Type 0 where
  pub version : ℤ
  pub prev_block_hash : BlockHash
  pub merkle_root : BlockMerkleRoot
  pub time : ℕ
  pub bits : ℕ
  pub nonce : ℕ

unfoldable pub encode_block_header : BlockHeader → Encoded
encode_block_header h =
    encode_i32 h.version
    <+> encode_block_hash h.prev_block_hash
    <+> encode_block_merkle_root h.merkle_root
    <+> encode_u32 h.time
    <+> encode_u32 h.bits
    <+> encode_u32 h.nonce

unfoldable pub decode_block_header : {E : Type 0} → Decoder E BlockHeader
decode_block_header = do
  version ← decode_i32
  prev_block_hash ← decode_block_hash
  merkle_root ← decode_block_merkle_root
  time ← decode_u32
  bits ← decode_u32
  nonce ← decode_u32
  pure (record {
    version = version;
    prev_block_hash = prev_block_hash;
    merkle_root = merkle_root;
    time = time;
    bits = bits;
    nonce = nonce;
  })

-- SHA-256 of the crate commit_verify stands for any function here; the hash is taken twice.
unfoldable pub block_hash : (sha256 : Bytes → Bytes) → BlockHeader → BlockHash
block_hash sha256 h = sha256 (sha256 (encode_block_header h).bytes)

-- A header that the Rust types allow.
pub record IsBlockHeader (h : BlockHeader) : Type 0 where
  pub version : IsI32 h.version
  pub prev_block_hash : IsBytes 32 h.prev_block_hash
  pub merkle_root : IsBytes 32 h.merkle_root
  pub time : h.time < 2 ^ 32
  pub bits : h.bits < 2 ^ 32
  pub nonce : h.nonce < 2 ^ 32

pub BlockHeader-IsCodec :
    (E : Type 0) → IsCodec {E = E} IsBlockHeader encode_block_header decode_block_header
unfolding encode_block_header decode_block_header
BlockHeader-IsCodec E =
    IsCodec-iff IsBlockHeader
      (IsCodec-field I32-IsCodec (λ h. h.version)
        (λ version.
          IsCodec-field Bytes32-IsCodec (λ h. h.prev_block_hash)
            (λ prev.
              IsCodec-field Bytes32-IsCodec (λ h. h.merkle_root)
                (λ root.
                  IsCodec-field U32-IsCodec (λ h. h.time)
                    (λ time.
                      IsCodec-field U32-IsCodec (λ h. h.bits)
                        (λ bits.
                          IsCodec-last U32-IsCodec (λ h. h.nonce)
                            (λ nonce. record {
                              version = version;
                              prev_block_hash = prev;
                              merkle_root = root;
                              time = time;
                              bits = bits;
                              nonce = nonce;
                            })
                            (λ nonce. refl))
                        (λ bits h (_, e). ap (λ (x : BlockHeader). x.bits) e))
                    (λ time h (_, (_, e)). ap (λ (x : BlockHeader). x.time) e))
                (λ root h (_, (_, (_, e))). ap (λ (x : BlockHeader). x.merkle_root) e))
            (λ prev h (_, (_, (_, (_, e)))). ap (λ (x : BlockHeader). x.prev_block_hash) e))
        (λ version h (_, (_, (_, (_, (_, e))))). ap (λ (x : BlockHeader). x.version) e))
      (λ h v.
        (v.version, (v.prev_block_hash, (v.merkle_root, (v.time, (v.bits, (v.nonce, refl)))))))
      (λ h (a, (b, (c, (d, (e, (f, _)))))). record {
        version = a;
        prev_block_hash = b;
        merkle_root = c;
        time = d;
        bits = e;
        nonce = f;
      })

module _ (E : Type 0) where
  -- A header that the Rust types allow reads back from what it writes, and the decoder stops where
  -- the encoding ends.
  pub decode_block_header-encode_block_header :
      (h : BlockHeader)
      → IsBlockHeader h
      → (rest : Bytes)
      → decode_block_header {E = E} ((encode_block_header h).bytes ++ rest) ≡ ok (h, rest)
  decode_block_header-encode_block_header = (BlockHeader-IsCodec E).reads

  -- A header read off an input of bytes is one that the Rust types allow, and the input is its
  -- encoding, then what is left.
  pub decode_block_header_canonical :
      (bs rest : Bytes) (h : BlockHeader)
      → AreBytes bs
      → decode_block_header {E = E} bs ≡ ok (h, rest)
      → IsBlockHeader h × (bs ≡ (encode_block_header h).bytes ++ rest)
  decode_block_header_canonical bs rest h ab e =
      let (cs, p, (v, q), _) = (BlockHeader-IsCodec E).consumes bs rest h ab e in (v, rw (← q) p)

-- A header that the Rust types allow is written as 80 bytes, and the count returned is 80.
pub encode_block_header_size :
    (h : BlockHeader)
    → IsBlockHeader h
    → (length (encode_block_header h).bytes ≡ 80) × ((encode_block_header h).counter ≡ 80)
unfolding encode_block_header encode_i32 encode_u32 encode_bytes32
encode_block_header_size h v =
    let counted = (BlockHeader-IsCodec ℕ).counted h v in (sym counted, refl)
