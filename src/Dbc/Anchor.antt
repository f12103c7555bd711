-- ===== src/Dbc/Anchor.antt =====
-- dbc/src/anchor.rs: anchors, which join a proof of the multi-protocol tree and a proof of a
-- commitment. The tree is that of the crate commit_verify, and its operations are a parameter.
pub mod Laws
pub mod Methods
use bp_core.Base.{ℕ, Bool, true, false, not, ◌&&◌, if◌then◌else◌, List}
use bp_core.Base.Result.{Result, ok, err, panic, try, map_err}
use bp_core.Dbc.{Commitment}
use bp_core.Dbc.Proof.{Method, eq_method, DbcProof}
use bp_core.Tx.{Tx}

-- The module `mpc` of commit_verify; a call on `&mut self` gives the block after it too.
pub record Mpc : Type 1 where
  pub MerkleProof : Type 0
  pub MerkleBlock : Type 0
  pub ProtocolId : Type 0
  pub Message : Type 0
  pub InvalidProof : Type 0
  pub LeafNotKnown : Type 0
  pub MergeError : Type 0
  pub matches : MerkleProof → MerkleProof → Bool
  pub convolve : MerkleProof → ProtocolId → Message → Result InvalidProof Commitment
  pub block_with : MerkleProof → ProtocolId → Message → Result InvalidProof MerkleBlock
  pub to_merkle_proof : MerkleBlock → ProtocolId → Result LeafNotKnown MerkleProof
  pub conceal_except : MerkleBlock → List ProtocolId → MerkleBlock × Result LeafNotKnown ℕ
  pub merge_reveal : MerkleBlock → MerkleBlock → MerkleBlock × Result MergeError ℕ

pub record Anchor (L D : Type 0) : Type 0 where
  pub mpc_proof : L
  pub dbc_proof : D
  pub method : Method

pub data VerifyError (E I : Type 0) : Type 0 where
  dbc : E → VerifyError E I
  mpc : I → VerifyError E I

pub data MergeError (E : Type 0) : Type 0 where
  mpc_mismatch : E → MergeError E
  dbc_mismatch method_mismatch : MergeError E

module _ (tree : Mpc) (proofs : DbcProof) where
  abbrev pub ProofAnchor : Type 0
  ProofAnchor = Anchor tree.MerkleProof proofs.Proof

  abbrev pub BlockAnchor : Type 0
  BlockAnchor = Anchor tree.MerkleBlock proofs.Proof

  unfoldable pub new : tree.MerkleProof → proofs.Proof → ProofAnchor
  new mpc_proof dbc_proof = record {
    mpc_proof = mpc_proof;
    dbc_proof = dbc_proof;
    method = proofs.method;
  }

  unfoldable pub matches : ProofAnchor → ProofAnchor → Bool
  matches a other =
      tree.matches a.mpc_proof other.mpc_proof
      && proofs.eq_proof a.dbc_proof other.dbc_proof
      && eq_method a.method other.method

  unfoldable pub into_merkle_block :
      ProofAnchor → tree.ProtocolId → tree.Message → Result tree.InvalidProof BlockAnchor
  into_merkle_block a protocol_id message =
      try (tree.block_with a.mpc_proof protocol_id message) (λ lnpbp4_proof.
        ok (record { mpc_proof = lnpbp4_proof; dbc_proof = a.dbc_proof; method = a.method }))

  unfoldable pub convolve :
      ProofAnchor → tree.ProtocolId → tree.Message → Result tree.InvalidProof Commitment
  convolve a protocol_id message = tree.convolve a.mpc_proof protocol_id message

  unfoldable pub verify :
      ProofAnchor
      → tree.ProtocolId
      → tree.Message
      → Tx
      → Result (VerifyError proofs.Error tree.InvalidProof) Commitment
  unfolding convolve
  verify a protocol_id message tx =
      try (map_err mpc (convolve a protocol_id message)) (λ mpc_commitment.
        try (map_err dbc (proofs.verify a.dbc_proof mpc_commitment tx))
          (λ verified. ok mpc_commitment))

  unfoldable pub into_merkle_proof :
      BlockAnchor → tree.ProtocolId → Result tree.LeafNotKnown ProofAnchor
  into_merkle_proof a protocol = try (tree.to_merkle_proof a.mpc_proof protocol) (λ lnpbp4_proof.
      ok (record { mpc_proof = lnpbp4_proof; dbc_proof = a.dbc_proof; method = a.method }))

  unfoldable pub conceal_except :
      BlockAnchor → List tree.ProtocolId → BlockAnchor × Result tree.LeafNotKnown ℕ
  conceal_except a protocols =
      let (block, result) = tree.conceal_except a.mpc_proof protocols in
      (record a { mpc_proof = block }, result)

  unfoldable pub merge_reveal :
      BlockAnchor → BlockAnchor → Result (MergeError tree.MergeError) BlockAnchor
  merge_reveal a other =
      if not (eq_method a.method other.method)
      then err method_mismatch
      else if not (proofs.eq_proof a.dbc_proof other.dbc_proof)
      then err dbc_mismatch
      else (let (block, result) = tree.merge_reveal a.mpc_proof other.mpc_proof in
          try (map_err mpc_mismatch result) (λ count. ok (record a { mpc_proof = block })))
