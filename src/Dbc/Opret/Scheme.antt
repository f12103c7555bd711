-- ===== src/Dbc/Opret/Scheme.antt =====
-- dbc/src/opret as a commitment scheme, with no supplement and for every transaction.
use bp_core.Base.{◌≡◌, ◌∙◌, refl, sym, ap, map, length, Option, some, none}
use bp_core.Base.Result.{ok, err, panic, to_option, to_option_inv, some-injective}
use bp_core.Codec.{Confine}
use bp_core.Codec.Array.{IsConfine}
use bp_core.Dbc.{Commitment}
use bp_core.Dbc.Opret.{Embedded, OpretProof, opret_proof, embed_tx, restore_tx}
use bp_core.Dbc.Opret.Branches.{commitment_script}
use bp_core.Dbc.Opret.Restore.{Embedding, embedding, restore_tx-embed_tx, Accepted, verifies_iff}
use bp_core.Dbc.Outputs.{first_script, values-with_script}
use bp_core.Dbc.Schemes.{Scheme, IsScheme, SamePayments, Accepts}
use bp_core.Script.{is_op_return}
use bp_core.Tx.{Tx}

-- The transaction and the proof of a successful call.
abbrev pub success : Embedded Tx → Option (Tx × OpretProof)
success (tx, ok proof) = some (tx, proof)
success (tx, err e) = none
success (tx, panic) = none

success_inv :
    (r : Embedded Tx) (tx : Tx) (proof : OpretProof)
    → success r ≡ some (tx, proof)
    → r ≡ (tx, ok opret_proof)
success_inv (tx', ok opret_proof) tx proof e =
    ap (λ q. (q.0, ok opret_proof)) (some-injective _ _ e)
success_inv (tx', err e') tx proof e = absurd cc
success_inv (tx', panic) tx proof e = absurd cc

abbrev pub opret : {E : Type 0} → Confine E → Scheme
opret confine = record {
  Supplement = Unit;
  Proof = OpretProof;
  supplement = λ proof. tt;
  Fits = λ supplement tx. Unit;
  commit = λ supplement msg tx. success (embed_tx confine msg tx);
  restore = λ proof tx. to_option (restore_tx proof tx);
}

module _ {E : Type 0} {confine : Confine E} (k : IsConfine confine) where
  opret_restores :
      (proof : OpretProof) (msg : Commitment) (tx tx' : Tx)
      → length msg ≡ 32
      → embed_tx confine msg tx ≡ (tx', ok opret_proof)
      → to_option (restore_tx proof tx') ≡ some tx
  opret_restores opret_proof msg tx tx' size done =
      rw (restore_tx-embed_tx k msg tx tx' size done) refl

  opret_keeps :
      (msg : Commitment) (tx tx' : Tx)
      → length msg ≡ 32
      → embed_tx confine msg tx ≡ (tx', ok opret_proof)
      → SamePayments tx tx'
  unfolding Embedding SamePayments
  opret_keeps msg tx tx' size done =
      let (first, sole, same) = embedding k msg tx tx' size done in
      let values =
        values-with_script first.before first.output first.after (commitment_script msg) in
      rw same (refl, refl, refl, ap (map (λ o. o.value)) first.split ∙ sym values)

  -- The OP_RETURN method keeps the promises of a commitment scheme.
  pub opret-IsScheme : IsScheme (opret confine)
  opret-IsScheme = record {
    restores = λ supplement proof msg tx tx' size fits e.
        (opret_restores proof msg tx tx' size (success_inv _ tx' proof e), refl);
    keeps = λ supplement proof msg tx tx' size e.
        opret_keeps msg tx tx' size (success_inv _ tx' proof e);
  }

  -- A message is accepted only where the first OP_RETURN output holds it.
  pub opret-Accepts :
      (proof : OpretProof) (msg : Commitment) (tx : Tx)
      → length msg ≡ 32
      → Accepts (opret confine) proof msg tx
      → first_script is_op_return tx.outputs ≡ some (commitment_script msg)
  unfolding Accepts Accepted
  opret-Accepts opret_proof msg tx size (original, restored, done) =
      (verifies_iff k msg tx size).0
        (original, to_option_inv _ original restored, success_inv _ tx opret_proof done)
