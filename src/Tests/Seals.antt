-- ===== src/Tests/Seals.antt =====
-- Examples of the theorems on anchors and seals.
use bp_core.Base.{
  ◌⊎◌, List, ℕ, ◌≡◌, ◌↔◌, refl, [], ◌∷◌, length, some, Bool, true, false, sym, ap, replicate,
}
use bp_core.Base.Result.{Result, ok, err, ok-injective}
use bp_core.Codec.Exact.{exact, exact-IsConfine}
use bp_core.Dbc.Anchor.{Mpc, new, verify}
use bp_core.Dbc.{Commitment}
use bp_core.Dbc.Anchor.Laws.{IsMpc, IsVerifier}
use bp_core.Dbc.Anchor.Methods.{opret_proofs, tapret_proofs, anchors_verify_iff}
use bp_core.Dbc.Tapret.{TapretProof, original_pubkey_script, original_merkle_root}
use bp_core.Dbc.Tapret.Restore.{Pays}
use bp_core.Dbc.Tapret.Scheme.{tapret}
use bp_core.Segwit.{p2tr_tweaked}
use bp_core.Taproot.OutputKey.{p2tr, to_output_pk}
use bp_core.Tests.Commitments.{
  toy_hash, toy_curve, toy_curve-IsSecp256k1, in_order, in_order-IsStrict, proof, original_script,
}
use bp_core.Tests.Verifiers.{recommit, recommit_iff, OpretProof-discrete, TapretProof-discrete}
use bp_core.Dbc.Opret.{OpretProof, opret_proof}
use bp_core.Dbc.Opret.Branches.{commitment_script}
use bp_core.Dbc.Opret.Scheme.{opret}
use bp_core.Dbc.Outputs.{first_script}
use bp_core.Script.{is_op_return, push_opcode, push_slice}
use bp_core.Dbc.Proof.{opret_first, tapret_first, DbcProof}
use bp_core.Seals.{TxPtr, witness_tx, BlindSeal, blind_txo_seal, txid_seal_txid}
use bp_core.Seals.Witness.{VerifyError, Witness, verify_dbc, verify_many_seals}
use bp_core.Seals.Witness.Faults.{FailsAt, verify_many_seals_cases}
use bp_core.Seals.Witness.Batches.{Batch, verify_many_seals_iff}
use bp_core.Tests.{sevens, plain_tx, change}
use bp_core.Tx.{Tx, Txid}

-- A proof that is a Boolean, which verifies if it is true.
verdict : Bool → Result ℕ Unit
verdict true = ok tt
verdict false = err 1

abbrev sample_proofs : DbcProof
sample_proofs = record {
  Proof = Bool;
  Error = ℕ;
  method = tapret_first;
  eq_proof = λ a b. a;
  verify = λ p msg tx. verdict p;
}

abbrev witness : Witness Bool
witness = record { tx = plain_tx; txid = sevens 32; proof = true }

-- The seal on the output that the sample transaction spends.
abbrev seal : BlindSeal Txid
seal = record { method = opret_first; txid = sevens 32; vout = 1; blinding = 5 }

abbrev chained : BlindSeal TxPtr
chained = record { method = opret_first; txid = witness_tx; vout = 1; blinding = 5 }

verify_many_seals_example :
    (verify_many_seals
        (blind_txo_seal txid_seal_txid)
        sample_proofs
        witness
        (seal ∷ seal ∷ [])
        (sevens 32)
      ≡ ok tt)
    ↔ (Batch (blind_txo_seal txid_seal_txid) sample_proofs witness (seal ∷ seal ∷ [])
        × (sample_proofs.verify true (sevens 32) plain_tx ≡ ok tt))
verify_many_seals_example =
    verify_many_seals_iff (blind_txo_seal txid_seal_txid) sample_proofs witness (seal ∷ seal ∷ [])
      (sevens 32)

-- The second seal has the other method.
abbrev mixed : List (BlindSeal Txid)
mixed = seal ∷ record seal { method = tapret_first } ∷ []

verify_many_seals_cases_example :
    (Batch (blind_txo_seal txid_seal_txid) sample_proofs witness mixed
      × (verify_many_seals (blind_txo_seal txid_seal_txid) sample_proofs witness mixed (sevens 32)
          ≡ verify_dbc (blind_txo_seal txid_seal_txid) sample_proofs witness (sevens 32)))
    ⊎ ((e : VerifyError ℕ) × FailsAt (blind_txo_seal txid_seal_txid) sample_proofs witness mixed e
        × (verify_many_seals (blind_txo_seal txid_seal_txid) sample_proofs witness mixed (sevens 32)
            ≡ err e))
verify_many_seals_cases_example =
    verify_many_seals_cases (blind_txo_seal txid_seal_txid) sample_proofs witness mixed (sevens 32)

-- A tree of one leaf: its commitment is the message, 32 times.
abbrev one_leaf : Mpc
one_leaf = record {
  MerkleProof = ℕ;
  MerkleBlock = ℕ;
  ProtocolId = ℕ;
  Message = ℕ;
  InvalidProof = ℕ;
  LeafNotKnown = ℕ;
  MergeError = ℕ;
  matches = λ a b. true;
  convolve = λ p i m. ok (replicate 32 m);
  block_with = λ p i m. ok p;
  to_merkle_proof = λ b i. ok b;
  conceal_except = λ b is. (b, ok 0);
  merge_reveal = λ a b. (a, ok 0);
}

one_leaf-IsMpc : IsMpc one_leaf
one_leaf-IsMpc = record {
  commitment_size = λ p i m c e. sym (ap length (ok-injective _ _ e));
  reveals = λ p i m b e. ap ok (sym (ok-injective _ _ e));
}

-- The two verifiers of the methods, with the sample hash and curve of the examples on commitments.
abbrev tx_verify : Tx → Commitment → OpretProof → Result ℕ Unit
tx_verify tx msg proof = recommit (opret exact) OpretProof-discrete proof msg tx

tx_verify-IsVerifier : IsVerifier (opret exact) (opret_proofs tx_verify) (λ p. p)
tx_verify-IsVerifier = record {
  accepts = λ proof msg tx. recommit_iff (opret exact) OpretProof-discrete proof msg tx;
}

abbrev tapret_verify : TapretProof → Commitment → Tx → Result ℕ Unit
tapret_verify = recommit (tapret toy_hash toy_curve exact in_order) TapretProof-discrete

abbrev is_yes : {P : Type 0} → Dec P → Bool
is_yes (yes p) = true
is_yes (no p) = false

abbrev same_tapret : TapretProof → TapretProof → Bool
same_tapret a b = is_yes (TapretProof-discrete a b)

tapret_verify-IsVerifier :
    IsVerifier
      (tapret toy_hash toy_curve exact in_order)
      (tapret_proofs same_tapret tapret_verify)
      (λ p. p)
tapret_verify-IsVerifier = record {
  accepts = recommit_iff (tapret toy_hash toy_curve exact in_order) TapretProof-discrete;
}

-- The sample transaction with 32 bytes committed to in its OP_RETURN output.
abbrev committed_tx : Tx
committed_tx = record plain_tx {
  outputs = record change { script_pubkey = 0x6a ∷ 32 ∷ replicate 32 4 } ∷ [];
}

anchors_verify_example :
    ((verify one_leaf
          (opret_proofs tx_verify)
          (new one_leaf (opret_proofs tx_verify) 0 opret_proof)
          1
          4
          committed_tx
        ≡ ok (replicate 32 4))
      ↔ ((one_leaf.convolve 0 1 4 ≡ ok (replicate 32 4))
          × (first_script is_op_return committed_tx.outputs
              ≡ some (commitment_script (replicate 32 4)))))
    × ((verify one_leaf
            (tapret_proofs same_tapret tapret_verify)
            (new one_leaf (tapret_proofs same_tapret tapret_verify) 0 proof)
            1
            4
            committed_tx
          ≡ ok (replicate 32 4))
        ↔ ((one_leaf.convolve 0 1 4 ≡ ok (replicate 32 4))
            × Pays toy_hash toy_curve-IsSecp256k1 exact-IsConfine in_order in_order-IsStrict proof
                (replicate 32 4)
                committed_tx))
unfolding new
anchors_verify_example =
    anchors_verify_iff toy_hash toy_curve-IsSecp256k1 exact-IsConfine in_order in_order-IsStrict
      one_leaf-IsMpc tx_verify-IsVerifier tapret_verify-IsVerifier
      (new one_leaf (opret_proofs tx_verify) 0 opret_proof)
      (new one_leaf (tapret_proofs same_tapret tapret_verify) 0 proof) 1 4 (replicate 32 4)
      committed_tx original_script
      (unfold original_pubkey_script p2tr to_output_pk original_merkle_root p2tr_tweaked push_opcode
          push_slice in
        refl)
