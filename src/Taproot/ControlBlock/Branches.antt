-- ===== src/Taproot/ControlBlock/Branches.antt =====
-- consensus/src/coding.rs: all that the decoder of control blocks makes of a first byte, a key and
-- what follows.
use native.Mathlib.Decide.{ℕ_discrete}
use bp_core.Base.{
  ℕ, ◌+◌, ◌-◌, ◌/◌, ◌%◌, ◌<◌, ◌≤◌, ◌≡◌, ◌≢◌, ◌⊎◌, inl, inr, refl, arith, Bool, true, false, [], ◌∷◌,
  ◌++◌, length, Bytes, AreBytes, ◌∙◌, if◌then◌else◌, Bool-cases,
}
use bp_core.Base.Bits.{bit_and-ones}
use bp_core.Codec.{
  bind, Confine, Result, ok, err, data_error, invalid_xonly_pubkey, invalid_leaf_ver,
  long_tap_merkle_path, invalid_tap_merkle_path,
}
use bp_core.Codec.Ints.{
  decode_u8, decode_bytes32, encode_u8, encode_bytes32, IsBytes, U8-IsCodec, Bytes32-IsCodec,
}
use bp_core.Codec.Array.{IsConfine}
use bp_core.Taproot.LeafVer
use bp_core.Taproot.LeafVer.{
  LeafVer, IsLeafVer, low_bit, taproot_annex_prefix, from_consensus_u8_lem,
}
use bp_core.Taproot.Parity
use bp_core.Taproot.Parity.{Parity, even, odd}
use bp_core.Taproot.ControlBlock.{
  ControlBlock, chunks_exact, decode_merkle_branch, decode_control_block,
}
use bp_core.Taproot.ControlBlock.Chunks.{joined}
use bp_core.Taproot.ControlBlock.Layout.{IsControlBlock}
use bp_core.Taproot.ControlBlock.MerkleBranch.{read_branch}

module _ {E : Type 0} {confine : Confine E} (k : IsConfine confine)
    (is_xonly_pk : Bytes → Bool) where
  -- What the decoder makes of a byte, a key and what follows, by the first test that fails: the
  -- version, which is refused only as the annex prefix, the key, the number of hashes, and the bytes
  -- left behind the hashes.
  unfoldable pub Decoded : ℕ → Bytes → Bytes → Type 0
  Decoded first key tail =
      let result = decode_control_block confine is_xonly_pk (first ∷ (key ++ tail)) in
      ((first - first % 2 ≡ taproot_annex_prefix)
        × (result ≡ err (data_error (invalid_leaf_ver taproot_annex_prefix))))
      ⊎ ((first - first % 2 ≢ taproot_annex_prefix)
          × (((is_xonly_pk key ≡ false) × (result ≡ err (data_error (invalid_xonly_pubkey key))))
              ⊎ ((is_xonly_pk key ≡ true)
                  × (((128 < length tail / 32) × (result ≡ err (data_error long_tap_merkle_path)))
                      ⊎ (((length tail / 32 ≤ 128)
                            × (length tail % 32 ≢ 0)
                            × (result ≡ err (data_error invalid_tap_merkle_path)))
                          ⊎ ((cb : ControlBlock) × IsControlBlock is_xonly_pk cb
                              × (first
                                  ≡ LeafVer.to_consensus_u8 cb.leaf_version
                                    + Parity.to_consensus_u8 cb.output_key_parity)
                              × (cb.internal_pk ≡ key)
                              × (joined cb.merkle_branch ≡ tail)
                              × (result ≡ ok (cb, []))))))))

  parity_of :
      (first : ℕ)
      → (p : Parity) × (Parity.from_consensus_u8 (first % 2) ≡ LeafVer.ok p)
        × (Parity.to_consensus_u8 p ≡ first % 2)
  parity_of first = elim (ℕ_discrete (first % 2) 0) [
    | yes e ↦ (
      even,
      rw e (unfold Parity.from_consensus_u8 in refl),
      rw e (unfold Parity.to_consensus_u8 in refl),
    )
    | no e ↦
        let one : first % 2 ≡ 1 = omega arith in
        (
          odd,
          rw one (unfold Parity.from_consensus_u8 in refl),
          rw one (unfold Parity.to_consensus_u8 in refl),
        )
  ]

  u8_read : (first : ℕ) (s : Bytes) → first < 256 → decode_u8 {E = E} (first ∷ s) ≡ ok (first, s)
  u8_read first s byte = unfold encode_u8 in U8-IsCodec.reads first byte s

  key_read : (key s : Bytes) → IsBytes 32 key → decode_bytes32 {E = E} (key ++ s) ≡ ok (key, s)
  key_read key s h = unfold encode_bytes32 in Bytes32-IsCodec.reads key h s

  version_refused :
      (first : ℕ) (key tail : Bytes)
      → first < 256
      → first - first % 2 ≡ taproot_annex_prefix
      → decode_control_block confine is_xonly_pk (first ∷ (key ++ tail))
        ≡ err (data_error (invalid_leaf_ver taproot_annex_prefix))
  unfolding decode_control_block
  version_refused first key tail byte e =
      rw (u8_read first (key ++ tail) byte, low_bit first byte, e)
        (unfold LeafVer.from_consensus_u8 in refl)

  -- What follows a version and a parity that are read.
  after_key : LeafVer → Parity → Bytes → Bytes → Result E (ControlBlock × Bytes)
  after_key v p key tail =
      if is_xonly_pk key
      then bind (decode_merkle_branch confine is_xonly_pk (chunks_exact (length tail) tail) [])
          (λ (branch, rest). ok (
            record {
              leaf_version = v;
              output_key_parity = p;
              internal_pk = key;
              merkle_branch = branch;
            },
            rest,
          ))
      else err (data_error (invalid_xonly_pubkey key))

  to_after_key :
      (first : ℕ) (key tail : Bytes) (v : LeafVer) (p : Parity)
      → first < 256
      → IsBytes 32 key
      → LeafVer.from_consensus_u8 (first - first % 2) ≡ LeafVer.ok v
      → Parity.from_consensus_u8 (first % 2) ≡ LeafVer.ok p
      → decode_control_block confine is_xonly_pk (first ∷ (key ++ tail)) ≡ after_key v p key tail
  unfolding decode_control_block after_key
  to_after_key first key tail v p byte kb e f = elim (Bool-cases (is_xonly_pk key)) [
    | inl good ↦
        rw
          (
            u8_read first (key ++ tail) byte,
            low_bit first byte,
            bit_and-ones 1 first,
            e,
            f,
            key_read key tail kb,
            good,
          )
          refl
    | inr bad ↦
        rw
          (
            u8_read first (key ++ tail) byte,
            low_bit first byte,
            bit_and-ones 1 first,
            e,
            f,
            key_read key tail kb,
            bad,
          )
          refl
  ]

  decoded :
      (first : ℕ) (key tail : Bytes) (v : LeafVer) (p : Parity)
      → IsBytes 32 key
      → AreBytes tail
      → IsLeafVer v
      → LeafVer.to_consensus_u8 v ≡ first - first % 2
      → Parity.to_consensus_u8 p ≡ first % 2
      → first - first % 2 ≢ taproot_annex_prefix
      → decode_control_block confine is_xonly_pk (first ∷ (key ++ tail)) ≡ after_key v p key tail
      → Decoded first key tail
  unfolding Decoded after_key
  decoded first key tail v p kb bytes valid version parity other step =
      elim (Bool-cases (is_xonly_pk key)) [
        | inr bad ↦ inr (other, inl (bad, step ∙ rw bad refl))
        | inl good ↦ inr (
          other,
          inr (
            good,
            elim (read_branch k is_xonly_pk tail bytes) [
              | inl (many, stopped) ↦ inl (many, step ∙ rw (good, stopped) refl)
              | inr (inl (few, left, stopped)) ↦
                  inr (inl (few, left, step ∙ rw (good, stopped) refl))
              | inr (inr (branch, size, few, hashes, whole, read)) ↦ inr (
                  inr (
                    record {
                      leaf_version = v;
                      output_key_parity = p;
                      internal_pk = key;
                      merkle_branch = branch;
                    },
                    record {
                      leaf_version = valid;
                      internal_pk = kb;
                      is_key = good;
                      merkle_branch = hashes;
                      short = few;
                    },
                    omega (arith, version, parity),
                    refl,
                    whole,
                    step ∙ rw (good, read) refl,
                  ))
            ],
          ),
        )
      ]

  -- A byte, a key of 32 bytes and any bytes behind it are decoded in one of five ways, by the first
  -- test that fails: a version that is the annex prefix, a key that is not valid, more than 128
  -- hashes, and bytes that are left behind the last hash are each its own error; otherwise the
  -- result is the control block that the types allow with the version and the parity that add up to
  -- the byte, the key, and the hashes that joined are the bytes behind it. Nothing panics.
  pub decode_control_block_lem :
      (first : ℕ) (key tail : Bytes)
      → first < 256
      → IsBytes 32 key
      → AreBytes tail
      → Decoded first key tail
  decode_control_block_lem first key tail byte kb bytes =
      elim (from_consensus_u8_lem (first - first % 2) (omega arith)) [
        | inr (refused, inl uneven) ↦ absurd (omega arith)
        | inr (refused, inr annex) ↦
            unfold Decoded in inl (annex, version_refused first key tail byte annex)
        | inl (v, found, valid, back, even', other) ↦
            let (p, found', back') = parity_of first in
            decoded first key tail v p kb bytes valid back back' other
              (to_after_key first key tail v p byte kb found found')
      ]
