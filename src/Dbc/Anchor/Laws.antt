-- ===== src/Dbc/Anchor/Laws.antt =====
-- dbc/src/anchor.rs: an anchor of a committed transaction verifies, and what merging keeps.
use bp_core.Base.{◌≡◌, ◌↔◌, ◌⊎◌, inl, inr, refl, sym, true, false, length, some, Bool-cases}
use bp_core.Base.Result.{Result, ok, err, panic, try, map_err, try_inv, map_err_inv, ok-injective}
use bp_core.Dbc.{Commitment}
use bp_core.Dbc.Anchor.{
  Mpc, mpc, dbc, mpc_mismatch, dbc_mismatch, method_mismatch, ProofAnchor, BlockAnchor, new,
  into_merkle_block, convolve, verify, into_merkle_proof, merge_reveal,
}
use bp_core.Dbc.Proof.{eq_method, DbcProof}
use bp_core.Dbc.Schemes.{Scheme, IsScheme, Accepts, Accepts-commit}
use bp_core.Tx.{Tx}

-- The verification of a proof, which commit_verify implements: it returns without an error exactly
-- where committing again to the restored transaction gives the transaction and the proof.
pub record IsVerifier (s : Scheme) (proofs : DbcProof) (proof_of : s.Proof → proofs.Proof)
    : Type 0 where
  pub accepts :
      (proof : s.Proof) (msg : Commitment) (tx : Tx)
      → (proofs.verify (proof_of proof) msg tx ≡ ok tt) ↔ Accepts s proof msg tx

-- What the tree promises: its commitments are of 32 bytes, and revealing one message in a proof and
-- concealing the rest again gives the proof.
pub record IsMpc (tree : Mpc) : Type 0 where
  pub commitment_size :
      (p : tree.MerkleProof) (i : tree.ProtocolId) (m : tree.Message) (c : Commitment)
      → tree.convolve p i m ≡ ok c
      → length c ≡ 32
  pub reveals :
      (p : tree.MerkleProof) (i : tree.ProtocolId) (m : tree.Message) (b : tree.MerkleBlock)
      → tree.block_with p i m ≡ ok b
      → tree.to_merkle_proof b i ≡ ok p

module _ {tree : Mpc} (laws : IsMpc tree) (proofs : DbcProof) where
  verified :
      (a : ProofAnchor tree proofs) (i : tree.ProtocolId) (m : tree.Message) (c : Commitment)
      (tx : Tx)
      → verify tree proofs a i m tx ≡ ok c
      → (tree.convolve a.mpc_proof i m ≡ ok c) × (proofs.verify a.dbc_proof c tx ≡ ok tt)
  unfolding verify convolve
  verified a i m c tx e =
      let (c', found, e₁) = try_inv (map_err mpc (tree.convolve a.mpc_proof i m)) _ c e in
      let (done, passed, e₂) = try_inv (map_err dbc (proofs.verify a.dbc_proof c' tx)) _ c e₁ in
      let same = ok-injective _ _ e₂ in
      rw (← same) (map_err_inv _ _ c' found, map_err_inv _ _ done passed)

  -- An anchor verifies a message exactly if its tree gives the commitment and the commitment proof
  -- verifies that.
  pub verify_iff :
      (a : ProofAnchor tree proofs) (i : tree.ProtocolId) (m : tree.Message) (c : Commitment)
      (tx : Tx)
      → (verify tree proofs a i m tx ≡ ok c)
        ↔ ((tree.convolve a.mpc_proof i m ≡ ok c) × (proofs.verify a.dbc_proof c tx ≡ ok tt))
  unfolding verify convolve
  verify_iff a i m c tx = (verified a i m c tx, λ (found, passed). rw (found, passed) refl)

  -- For a method that keeps the promises of a commitment scheme: if the message of a tree is
  -- committed to in a transaction that fits, the anchor of the two proofs verifies the message in
  -- the new transaction.
  pub verify-commit :
      {s : Scheme} (scheme : IsScheme s) (proof_of : s.Proof → proofs.Proof)
      (verifier : IsVerifier s proofs proof_of) (mpc_proof : tree.MerkleProof)
      (protocol_id : tree.ProtocolId) (message : tree.Message) (commitment : Commitment)
      (supplement : s.Supplement) (proof : s.Proof) (tx tx' : Tx)
      → tree.convolve mpc_proof protocol_id message ≡ ok commitment
      → s.Fits supplement tx
      → s.commit supplement commitment tx ≡ some (tx', proof)
      → verify tree proofs (new tree proofs mpc_proof (proof_of proof)) protocol_id message tx'
        ≡ ok commitment
  unfolding new
  verify-commit scheme proof_of verifier p i m c supplement proof tx tx' found fits done =
      let size = laws.commitment_size p i m c found in
      let again = Accepts-commit scheme supplement proof c tx tx' size fits done in
      (verify_iff (new tree proofs p (proof_of proof)) i m c tx').1
        (found, (verifier.accepts proof c tx').1 again)

  back :
      (a : ProofAnchor tree proofs) (i : tree.ProtocolId) (m : tree.Message)
      (b : BlockAnchor tree proofs) (r : Result tree.InvalidProof tree.MerkleBlock)
      → tree.block_with a.mpc_proof i m ≡ r
      → try r
          (λ block. ok (record { mpc_proof = block; dbc_proof = a.dbc_proof; method = a.method }))
        ≡ ok b
      → into_merkle_proof tree proofs b i ≡ ok a
  unfolding into_merkle_proof
  back a i m b (ok block) found e =
      let same = ok-injective _ _ (sym e) in
      rw (same, laws.reveals a.mpc_proof i m block found) refl
  back a i m b (err error) found e = absurd cc
  back a i m b panic found e = absurd cc

  -- An anchor turned into one with a merkle block, and that back into one with a merkle proof, is
  -- the anchor it was.
  pub into_merkle_proof-into_merkle_block :
      (a : ProofAnchor tree proofs) (protocol_id : tree.ProtocolId) (message : tree.Message)
      (b : BlockAnchor tree proofs)
      → into_merkle_block tree proofs a protocol_id message ≡ ok b
      → into_merkle_proof tree proofs b protocol_id ≡ ok a
  unfolding into_merkle_block
  into_merkle_proof-into_merkle_block a i m b e = back a i m b _ refl e

module _ (tree : Mpc) (proofs : DbcProof) where
  -- The branches of `merge_reveal`.
  unfoldable pub MergeBranches : BlockAnchor tree proofs → BlockAnchor tree proofs → Type 0
  MergeBranches a other =
      ((merge_reveal tree proofs a other ≡ err method_mismatch)
        × (eq_method a.method other.method ≡ false))
      ⊎ (((merge_reveal tree proofs a other ≡ err dbc_mismatch)
            × (eq_method a.method other.method ≡ true)
            × (proofs.eq_proof a.dbc_proof other.dbc_proof ≡ false))
          ⊎ ((eq_method a.method other.method ≡ true)
              × (proofs.eq_proof a.dbc_proof other.dbc_proof ≡ true)
              × (merge_reveal tree proofs a other
                  ≡ try (map_err mpc_mismatch (tree.merge_reveal a.mpc_proof other.mpc_proof).1)
                      (λ count. ok (record a {
                        mpc_proof = (tree.merge_reveal a.mpc_proof other.mpc_proof).0;
                      })))))

  -- Merging two anchors fails for different methods, then for different commitment proofs, then
  -- with the error of the tree; otherwise only the tree of the first anchor changes.
  pub merge_reveal_lem : (a other : BlockAnchor tree proofs) → MergeBranches a other
  unfolding MergeBranches merge_reveal
  merge_reveal_lem a other = elim (Bool-cases (eq_method a.method other.method)) [
    | inr different ↦ inl (rw different refl, different)
    | inl same ↦ elim (Bool-cases (proofs.eq_proof a.dbc_proof other.dbc_proof)) [
      | inr other_proof ↦ inr (inl (rw (same, other_proof) refl, same, other_proof))
      | inl same_proof ↦ inr (inr (same, same_proof, rw (same, same_proof) refl))
    ]
  ]
