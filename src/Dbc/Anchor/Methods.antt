-- ===== src/Dbc/Anchor/Methods.antt =====
-- dbc/src/opret/mod.rs and dbc/src/tapret/mod.rs: the trait Proof for the two methods, and which
-- transactions their anchors verify. Both call the default `verify` of commit_verify, which is a
-- parameter.
use bp_core.Base.{◌≡◌, ◌↔◌, refl, Bool, true, length, Bytes, some}
use bp_core.Base.Result.{Result, ok, to_option_inv}
use bp_core.Codec.{Confine}
use bp_core.Codec.Array.{IsConfine}
use bp_core.Dbc.{Commitment}
use bp_core.Dbc.Anchor.{Mpc, ProofAnchor, verify}
use bp_core.Dbc.Anchor.Laws.{IsMpc, IsVerifier, verify_iff}
use bp_core.Dbc.Opret.{OpretProof, opret_proof}
use bp_core.Dbc.Opret.Branches.{commitment_script}
use bp_core.Dbc.Opret.Restore as Opret
use bp_core.Dbc.Opret.Scheme.{opret, opret-Accepts}
use bp_core.Dbc.Outputs.{first_script}
use bp_core.Dbc.Proof.{DbcProof, opret_first, tapret_first}
use bp_core.Dbc.Schemes.{Accepts}
use bp_core.Dbc.Tapret.{TapretCommitment, TapretProof}
use bp_core.Dbc.Tapret.Commitments.{IsStrict}
use bp_core.Dbc.Tapret.Restore as Tapret
use bp_core.Dbc.Tapret.Scheme.{tapret}
use bp_core.Script.{is_op_return}
use bp_core.Taproot.OutputKey.{Secp256k1, IsSecp256k1}
use bp_core.Tx.{Tx}

-- `Proof for OpretProof`, over `EmbedCommitVerify::verify`.
abbrev pub opret_proofs : {F : Type 0} → (Tx → Commitment → OpretProof → Result F Unit) → DbcProof
opret_proofs {F = F} tx_verify = record {
  Proof = OpretProof;
  Error = F;
  method = opret_first;
  eq_proof = λ a b. true;
  verify = λ proof msg tx. tx_verify tx msg proof;
}

-- `Proof for TapretProof`, over `ConvolveCommitProof::verify` and the derived `==`.
abbrev pub tapret_proofs :
    {F : Type 0}
    → (TapretProof → TapretProof → Bool)
    → (TapretProof → Commitment → Tx → Result F Unit)
    → DbcProof
tapret_proofs {F = F} eq_tapret commit_verify = record {
  Proof = TapretProof;
  Error = F;
  method = tapret_first;
  eq_proof = eq_tapret;
  verify = λ proof msg tx. commit_verify proof msg tx;
}

opret-Accepts_iff :
    {E : Type 0} {confine : Confine E} (k : IsConfine confine) (proof : OpretProof)
    (msg : Commitment) (tx : Tx)
    → length msg ≡ 32
    → Accepts (opret confine) proof msg tx
      ↔ (first_script is_op_return tx.outputs ≡ some (commitment_script msg))
unfolding Accepts Opret.Accepted
opret-Accepts_iff k opret_proof msg tx size = (
  opret-Accepts k opret_proof msg tx size,
  λ holds.
      let (original, restored, done) = (Opret.verifies_iff k msg tx size).1 holds in
      (original, rw restored refl, rw done refl),
)

module _ (tagged_sha256 : Bytes → Bytes → Bytes) {secp : Secp256k1} (curve : IsSecp256k1 secp)
    {E : Type 0} {confine : Confine E} (k : IsConfine confine)
    (strict_write : TapretCommitment → Bytes) (strict : IsStrict strict_write) where
  tapret-Accepts_iff :
      (proof : TapretProof) (msg : Commitment) (tx : Tx) (s : Bytes)
      → length msg ≡ 32
      → Tapret.HasOriginal tagged_sha256 curve k strict_write strict proof s
      → Accepts (tapret tagged_sha256 secp confine strict_write) proof msg tx
        ↔ Tapret.Pays tagged_sha256 curve k strict_write strict proof msg tx
  unfolding Accepts Tapret.Accepted
  tapret-Accepts_iff proof msg tx s size e =
      let verifies =
        Tapret.tapret_verifies_iff tagged_sha256 curve k strict_write strict proof msg tx s size
          e in
      (
        λ (original, restored, done).
            verifies.0 (original, restored, to_option_inv _ (tx, proof) done),
        λ pays.
            let (original, restored, done) = verifies.1 pays in (original, restored, rw done refl),
      )

  module _ {tree : Mpc} (laws : IsMpc tree) {F G : Type 0}
      {tx_verify : Tx → Commitment → OpretProof → Result F Unit}
      {eq_tapret : TapretProof → TapretProof → Bool}
      {commit_verify : TapretProof → Commitment → Tx → Result G Unit}
      (embeds : IsVerifier (opret confine) (opret_proofs tx_verify) (λ p. p))
      (convolves : IsVerifier
        (tapret tagged_sha256 secp confine strict_write)
        (tapret_proofs eq_tapret commit_verify)
        (λ p. p)) where
    opret_anchor_iff :
        (a : ProofAnchor tree (opret_proofs tx_verify)) (i : tree.ProtocolId) (m : tree.Message)
        (c : Commitment) (tx : Tx)
        → (verify tree (opret_proofs tx_verify) a i m tx ≡ ok c) ↔ (
            (tree.convolve a.mpc_proof i m ≡ ok c)
            × (first_script is_op_return tx.outputs ≡ some (commitment_script c)))
    opret_anchor_iff a i m c tx =
        let whole = verify_iff laws (opret_proofs tx_verify) a i m c tx in
        let proof = embeds.accepts a.dbc_proof c tx in
        (
          λ e.
              let (found, passed) = whole.0 e in
              (
                found,
                (opret-Accepts_iff k a.dbc_proof c tx (laws.commitment_size _ i m c found)).0
                    (proof.0 passed),
              ),
          λ (found, holds). whole.1 (
            found,
            proof.1 (
                (opret-Accepts_iff k a.dbc_proof c tx (laws.commitment_size _ i m c found)).1
                  holds),
          ),
        )

    tapret_anchor_iff :
        (a : ProofAnchor tree (tapret_proofs eq_tapret commit_verify)) (i : tree.ProtocolId)
        (m : tree.Message) (c : Commitment) (tx : Tx) (s : Bytes)
        → Tapret.HasOriginal tagged_sha256 curve k strict_write strict a.dbc_proof s
        → (verify tree (tapret_proofs eq_tapret commit_verify) a i m tx ≡ ok c) ↔ (
            (tree.convolve a.mpc_proof i m ≡ ok c)
            × Tapret.Pays tagged_sha256 curve k strict_write strict a.dbc_proof c tx)
    tapret_anchor_iff a i m c tx s original =
        let whole = verify_iff laws (tapret_proofs eq_tapret commit_verify) a i m c tx in
        let proof = convolves.accepts a.dbc_proof c tx in
        let iff = λ (found : tree.convolve a.mpc_proof i m ≡ ok c).
          tapret-Accepts_iff a.dbc_proof c tx s (laws.commitment_size _ i m c found) original in
        (
          λ e. let (found, passed) = whole.0 e in (found, (iff found).0 (proof.0 passed)),
          λ (found, pays). whole.1 (found, proof.1 ((iff found).1 pays)),
        )

    -- An anchor of the OP_RETURN method verifies a message in a transaction, with a commitment, exactly
    -- if that is the commitment of the tree and the first OP_RETURN output has its script. An anchor
    -- of the Taproot method, where the original script of its proof exists, does so exactly if it is
    -- the commitment of the tree and the first Taproot output pays to the key that the proof and the
    -- commitment give.
    pub anchors_verify_iff :
        (a : ProofAnchor tree (opret_proofs tx_verify))
        (b : ProofAnchor tree (tapret_proofs eq_tapret commit_verify)) (i : tree.ProtocolId)
        (m : tree.Message) (c : Commitment) (tx : Tx) (s : Bytes)
        → Tapret.HasOriginal tagged_sha256 curve k strict_write strict b.dbc_proof s
        → ((verify tree (opret_proofs tx_verify) a i m tx ≡ ok c) ↔ (
            (tree.convolve a.mpc_proof i m ≡ ok c)
            × (first_script is_op_return tx.outputs ≡ some (commitment_script c))))
          × ((verify tree (tapret_proofs eq_tapret commit_verify) b i m tx ≡ ok c) ↔ (
              (tree.convolve b.mpc_proof i m ≡ ok c)
              × Tapret.Pays tagged_sha256 curve k strict_write strict b.dbc_proof c tx))
    anchors_verify_iff a b i m c tx s original =
        (opret_anchor_iff a i m c tx, tapret_anchor_iff b i m c tx s original)
