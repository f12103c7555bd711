-- ===== src/Taproot/ControlBlock.antt =====
-- consensus/src/taproot.rs and consensus/src/coding.rs: control blocks and their codec. Whether 32
-- bytes are an x-only public key is for the crate secp256k1 to say, here `is_xonly_pk`.
pub mod Layout
pub mod Chunks
pub mod MerkleBranch
pub mod Branches
use bp_core.Base.{
  ℕ, zero, suc, ◌+◌, ◌-◌, ◌*◌, ◌%◌, ◌<◌, ◌≤◌, ◌≡◌, refl, sym, ap, arith, Bool, true, false, ltb,
  if◌then◌else◌, bit_and, Option, none, some, List, [], ◌∷◌, ◌++◌, length, take, drop, Bytes, All,
  length-append, lt→ltb, le→ltb,
}
use bp_core.Base.Bits.{bit_and-ones}
use bp_core.Codec.{
  Confine, Decoder, ◌>>=◌, pure, fail, ok, panic, Encoded, ◌<+>◌, encode_items,
  invalid_xonly_pubkey, invalid_leaf_ver, long_tap_merkle_path, invalid_tap_merkle_path,
}
use bp_core.Codec.Ints.{
  encode_u8, decode_u8, encode_bytes32, decode_bytes32, IsBytes, U8-IsCodec, Bytes32-IsCodec,
}
use bp_core.Codec.Newtypes.{encode_tap_branch_hash}
use bp_core.Codec.Array.{IsConfine}
use bp_core.Taproot.LeafVer
use bp_core.Taproot.LeafVer.{LeafVer, Parsed, future, IsLeafVer, low_bit}
use bp_core.Taproot.Parity
use bp_core.Taproot.Parity.{Parity, even, odd}

pub record ControlBlock : Type 0 where
  pub leaf_version : LeafVer
  pub output_key_parity : Parity
  pub internal_pk : Bytes
  pub merkle_branch : List Bytes

unfoldable pub encode_internal_pk : Bytes → Encoded
encode_internal_pk = encode_bytes32

unfoldable pub encode_control_block : ControlBlock → Encoded
unfolding encode_internal_pk
encode_control_block cb =
    let first_byte =
      bit_and (LeafVer.to_consensus_u8 cb.leaf_version)
        (Parity.to_consensus_u8 cb.output_key_parity) in
    record { bytes = (encode_u8 first_byte).bytes; counter = 1 }
    <+> encode_internal_pk cb.internal_pk
    <+> encode_items encode_tap_branch_hash cb.merkle_branch

-- `buf.chunks_exact(32)` on `fuel`: the chunks and the remainder. As every chunk takes bytes, the
-- length of the input is fuel enough.
unfoldable pub chunks_exact : ℕ → Bytes → List Bytes × Bytes
chunks_exact zero buf = ([], buf)
chunks_exact (suc fuel) buf =
    let (chunks, remainder) = chunks_exact fuel (drop 32 buf) in
    if ltb (length buf) 32 then ([], buf) else (take 32 buf ∷ chunks, remainder)

-- `LeafVer::from_consensus_u8(...)?`
leaf_version : {E : Type 0} → Parsed LeafVer → Decoder E LeafVer
leaf_version (LeafVer.ok v) = pure v
leaf_version (LeafVer.invalid n) = fail (invalid_leaf_ver n)
leaf_version LeafVer.unreachable = λ bs. panic

-- `Parity::from_consensus_u8(...).expect("binary value")`
binary_value : {E : Type 0} → Parsed Parity → Decoder E Parity
binary_value (LeafVer.ok p) = pure p
binary_value (LeafVer.invalid n) = λ bs. panic
binary_value LeafVer.unreachable = λ bs. panic

read_to_end : {E : Type 0} → Decoder E Bytes
read_to_end bs = ok (bs, [])

long_path : {E : Type 0} → Option E → List Bytes → Decoder E (List Bytes)
long_path none path = pure path
long_path (some e) path = fail long_tap_merkle_path

whole_path : {E : Type 0} → Bytes → List Bytes → Decoder E (List Bytes)
whole_path [] path = pure path
whole_path (b ∷ bs) path = fail invalid_tap_merkle_path

module _ {E : Type 0} (confine : Confine E) (is_xonly_pk : Bytes → Bool) where
  unfoldable pub decode_internal_pk : Decoder E Bytes
  decode_internal_pk = do
    buf ← decode_bytes32
    (if is_xonly_pk buf then pure buf else fail (invalid_xonly_pubkey buf))

  unfoldable pub decode_merkle_branch : List Bytes × Bytes → Decoder E (List Bytes)
  unfolding long_path whole_path
  decode_merkle_branch (chunks, remainder) = do
    path ← long_path (confine 0 128 (length chunks)) chunks
    whole_path remainder path

  unfoldable pub decode_control_block : Decoder E ControlBlock
  unfolding decode_internal_pk decode_merkle_branch leaf_version binary_value read_to_end
  decode_control_block = do
    first_byte ← decode_u8
    version ← leaf_version (LeafVer.from_consensus_u8 (bit_and first_byte 0xfe))
    parity ← binary_value (Parity.from_consensus_u8 (bit_and first_byte 0x01))
    internal_key ← decode_internal_pk
    buf ← read_to_end
    merkle_branch ← decode_merkle_branch (chunks_exact (length buf) buf)
    pure (record {
      leaf_version = version;
      output_key_parity = parity;
      internal_pk = internal_key;
      merkle_branch = merkle_branch;
    })
