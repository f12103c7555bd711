-- ===== src/Taproot/ControlBlock/Layout.antt =====
-- consensus/src/coding.rs: the layout of control blocks that the decoder reads, and the one that the
-- encoder writes.
use bp_core.Base.{
  take-append, drop-append, ℕ, zero, suc, ◌+◌, ◌-◌, ◌%◌, ◌<◌, ◌≤◌, ◌≡◌, refl, arith, Bool, true,
  false, ltb, bit_and, List, [], ◌∷◌, ◌++◌, length, Bytes, All, length-append, le→ltb,
}
use bp_core.Base.Bits.{bit_and-ones}
use bp_core.Codec.{Confine, ok, encode_items}
use bp_core.Codec.Ints.{encode_u8, encode_bytes32, IsBytes, U8-IsCodec, Bytes32-IsCodec}
use bp_core.Codec.Newtypes.{encode_tap_branch_hash}
use bp_core.Codec.Array.{IsConfine}
use bp_core.Taproot.LeafVer
use bp_core.Taproot.LeafVer.{
  LeafVer, Parsed, tap_script, future, IsLeafVer, low_bit, from_consensus_u8-to_consensus_u8,
}
use bp_core.Taproot.Parity
use bp_core.Taproot.Parity.{Parity, even, odd, parity_bits}
use bp_core.Taproot.ControlBlock.{
  ControlBlock, encode_control_block, chunks_exact, decode_control_block,
}

-- A control block that the Rust types allow, its key one that the library of keys accepts.
pub record IsControlBlock (is_xonly_pk : Bytes → Bool) (cb : ControlBlock) : Type 0 where
  pub leaf_version : IsLeafVer cb.leaf_version
  pub internal_pk : IsBytes 32 cb.internal_pk
  pub is_key : is_xonly_pk cb.internal_pk ≡ true
  pub merkle_branch : All (IsBytes 32) cb.merkle_branch
  pub short : length cb.merkle_branch ≤ 128

-- What follows the first byte: the key and the hashes of the branch.
unfoldable pub key_and_branch : ControlBlock → Bytes
key_and_branch cb =
    (encode_bytes32 cb.internal_pk).bytes
    ++ (encode_items encode_tap_branch_hash cb.merkle_branch).bytes

-- Every hash is a chunk, and nothing remains, on fuel for as many chunks.
chunks_of_branch :
    (fuel : ℕ) (hashes : List Bytes)
    → All (IsBytes 32) hashes
    → length hashes ≤ fuel
    → chunks_exact fuel (encode_items encode_tap_branch_hash hashes).bytes ≡ (hashes, [])
unfolding chunks_exact encode_items encode_bytes32
chunks_of_branch zero [] v h = refl
chunks_of_branch zero (x ∷ xs) v h = absurd (omega arith)
chunks_of_branch (suc fuel) [] v h = refl
chunks_of_branch (suc fuel) (x ∷ xs) ((l, _), vs) h =
    let rest = (encode_items encode_tap_branch_hash xs).bytes in
    let long : ltb (length (x ++ rest)) 32 ≡ false =
      le→ltb _ 32 (rw (length-append x rest) (omega arith)) in
    rw (
      long,
      take-append x rest 32 l,
      drop-append x rest 32 l,
      chunks_of_branch fuel xs vs (omega arith),
    )

fuel_for_branch :
    (hashes : List Bytes)
    → All (IsBytes 32) hashes
    → length hashes ≤ length (encode_items encode_tap_branch_hash hashes).bytes
unfolding encode_items encode_bytes32
fuel_for_branch [] v = omega arith
fuel_for_branch (x ∷ xs) ((l, _), vs) =
    rw (length-append x (encode_items encode_tap_branch_hash xs).bytes)
      (omega (arith, fuel_for_branch xs vs))

-- The byte of a version is even and below 255.
version_bits :
    (v : LeafVer)
    → IsLeafVer v
    → (LeafVer.to_consensus_u8 v < 256) × (LeafVer.to_consensus_u8 v % 2 ≡ 0)
unfolding LeafVer.to_consensus_u8
version_bits tap_script h = (omega arith, refl)
version_bits (future v) (lt, e, _, _) = (lt, e)

parity_bit : (p : Parity) → Parity.to_consensus_u8 p < 2
unfolding Parity.to_consensus_u8
parity_bit even = omega arith
parity_bit odd = omega arith

parity_back : (p : Parity) → Parity.from_consensus_u8 (Parity.to_consensus_u8 p) ≡ LeafVer.ok p
parity_back p = (parity_bits p p 0).0

first_byte_zero :
    (v : LeafVer) (p : Parity)
    → IsLeafVer v
    → bit_and (LeafVer.to_consensus_u8 v) (Parity.to_consensus_u8 p) ≡ 0
unfolding Parity.to_consensus_u8
first_byte_zero v even h = omega (arith, bit_and-ones 0 (LeafVer.to_consensus_u8 v))
first_byte_zero v odd h =
    omega (arith, bit_and-ones 1 (LeafVer.to_consensus_u8 v), (version_bits v h).1)

module _ {E : Type 0} {confine : Confine E} (k : IsConfine confine)
    (is_xonly_pk : Bytes → Bool) where
  -- The first byte decides the version and the parity.
  layout :
      (cb : ControlBlock) (first : ℕ)
      → IsControlBlock is_xonly_pk cb
      → first < 256
      → LeafVer.from_consensus_u8 (first - first % 2) ≡ LeafVer.ok cb.leaf_version
      → Parity.from_consensus_u8 (first % 2) ≡ LeafVer.ok cb.output_key_parity
      → decode_control_block confine is_xonly_pk ((encode_u8 first).bytes ++ key_and_branch cb)
        ≡ ok (cb, [])
  unfolding decode_control_block key_and_branch
  layout cb first v byte e f =
      let branch = (encode_items encode_tap_branch_hash cb.merkle_branch).bytes in
      rw (
        U8-IsCodec.reads first byte ((encode_bytes32 cb.internal_pk).bytes ++ branch),
        low_bit first byte,
        bit_and-ones 1 first,
        e,
        f,
        Bytes32-IsCodec.reads cb.internal_pk v.internal_pk branch,
        v.is_key,
        chunks_of_branch (length branch) cb.merkle_branch v.merkle_branch
            (fuel_for_branch cb.merkle_branch v.merkle_branch),
        k.accepts 0 128 (length cb.merkle_branch) (omega arith) v.short,
      )

  -- For a control block that the Rust types allow, with a valid key, the decoder reads the layout
  -- of BIP-341: the version and the parity added in the first byte, then the key and at most 128
  -- hashes.
  pub decode_control_block_layout :
      (cb : ControlBlock)
      → IsControlBlock is_xonly_pk cb
      → decode_control_block confine is_xonly_pk (
          (encode_u8 (
            LeafVer.to_consensus_u8 cb.leaf_version
            + Parity.to_consensus_u8 cb.output_key_parity)).bytes
          ++ key_and_branch cb)
        ≡ ok (cb, [])
  decode_control_block_layout cb v =
      let (below, e) = version_bits cb.leaf_version v.leaf_version in
      let bit = parity_bit cb.output_key_parity in
      let version = LeafVer.to_consensus_u8 cb.leaf_version in
      let parity = Parity.to_consensus_u8 cb.output_key_parity in
      let first = version + parity in
      let high : first - first % 2 ≡ version = omega arith in
      let low : first % 2 ≡ parity = omega arith in
      layout cb first v (omega arith)
        (rw high (from_consensus_u8-to_consensus_u8 cb.leaf_version v.leaf_version))
        (rw low (parity_back cb.output_key_parity))

  -- What the encoder writes of a control block that the Rust types allow, with a valid key, decodes
  -- to the same key and branch, but always with the future version 0 and the even parity.
  pub decode_control_block-encode_control_block :
      (cb : ControlBlock)
      → IsControlBlock is_xonly_pk cb
      → decode_control_block confine is_xonly_pk (encode_control_block cb).bytes
        ≡ ok (record cb { leaf_version = future 0; output_key_parity = even }, [])
  decode_control_block-encode_control_block cb v =
      let zeroed = record cb { leaf_version = future 0; output_key_parity = even } in
      let v' : IsControlBlock is_xonly_pk zeroed = record {
        leaf_version = (omega arith, refl, omega arith, omega arith);
        internal_pk = v.internal_pk;
        is_key = v.is_key;
        merkle_branch = v.merkle_branch;
        short = v.short;
      } in
      let read =
        layout zeroed 0 v' (omega arith) (unfold LeafVer.from_consensus_u8 in refl)
          (unfold Parity.from_consensus_u8 in refl) in
      unfold encode_control_block key_and_branch in
      rw (first_byte_zero cb.leaf_version cb.output_key_parity v.leaf_version)
        (unfold key_and_branch in read)
