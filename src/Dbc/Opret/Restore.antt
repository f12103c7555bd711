-- ===== src/Dbc/Opret/Restore.antt =====
-- dbc/src/opret: restoring undoes embedding, and which transactions hold a message.
use bp_core.Base.{
  ◌≡◌, ◌↔◌, inl, inr, refl, sym, ap, ◌∙◌, true, List, [], ◌∷◌, ◌++◌, length, Bytes, some, arith,
}
use bp_core.Base.Result.{ok, some-injective}
use bp_core.Codec.{Confine}
use bp_core.Codec.Array.{IsConfine}
use bp_core.Dbc.{Commitment}
use bp_core.Dbc.Opret.{opret_proof, embed_tx, restore_script, restore_outputs, restore_tx}
use bp_core.Dbc.Opret.Branches.{EmbedBranches, commitment_script, embed_tx_lem, embed_first_done}
use bp_core.Dbc.Outputs.{
  Without, Leading, first_output, first_script, first_script_none, first_script_at, with_script,
}
use bp_core.Script.{is_op_return}
use bp_core.Script.OpCodes.{to_u8}
use bp_core.Tx.{Tx, TxOut}

abbrev empty_script : Bytes
empty_script = 0x6a ∷ []

commitment-op_return : (msg : Commitment) → is_op_return (commitment_script msg) ≡ true
unfolding is_op_return to_u8
commitment-op_return msg = ground arith

restore_outputs_first :
    (before : List TxOut) (o : TxOut) (after : List TxOut) (msg : Commitment)
    → length msg ≡ 32
    → Without is_op_return before
    → restore_outputs opret_proof (before ++ with_script (commitment_script msg) o ∷ after)
      ≡ ok (before ++ with_script empty_script o ∷ after)
unfolding restore_outputs restore_script
restore_outputs_first [] o after msg size w = rw (commitment-op_return msg, size)
restore_outputs_first (b ∷ bs) o after msg size (w, ws) =
    rw (w, restore_outputs_first bs o after msg size ws)

-- The state and the result of two equal calls are equal.
state_of : {A B : Type 0} {a a' : A} {b b' : B} → ◌≡◌ {A = A × B} (a, b) (a', b') → a ≡ a'
state_of e = ap (λ p. p.0) e

result_of : {A B : Type 0} {a a' : A} {b b' : B} → ◌≡◌ {A = A × B} (a, b) (a', b') → b ≡ b'
result_of e = ap (λ p. p.1) e

module _ {E : Type 0} {confine : Confine E} (k : IsConfine confine) where
  -- A successful call found a first OP_RETURN output with that opcode alone, and gave it the script
  -- of the commitment.
  unfoldable pub Embedding : Commitment → Tx → Tx → Type 0
  Embedding msg tx tx' =
      (first : Leading is_op_return tx.outputs) × (first.output.script_pubkey ≡ empty_script)
      × (tx' ≡ record tx {
        outputs = first.before ++ with_script (commitment_script msg) first.output ∷ first.after;
      })

  pub embedding :
      (msg : Commitment) (tx tx' : Tx)
      → length msg ≡ 32
      → embed_tx confine msg tx ≡ (tx', ok opret_proof)
      → Embedding msg tx tx'
  unfolding EmbedBranches Embedding
  embedding msg tx tx' size e = elim (embed_tx_lem k msg tx size) [
    | inl (none', failed) ↦ let r = result_of (sym failed ∙ e) in cc
    | inr (first, inl (sole, done)) ↦ (first, sole, state_of (sym e ∙ done))
    | inr (first, inr (more, failed)) ↦ let r = result_of (sym failed ∙ e) in cc
  ]

  -- Restoring a transaction that a message of 32 bytes has been embedded into gives the transaction
  -- before that.
  pub restore_tx-embed_tx :
      (msg : Commitment) (tx tx' : Tx)
      → length msg ≡ 32
      → embed_tx confine msg tx ≡ (tx', ok opret_proof)
      → restore_tx opret_proof tx' ≡ ok tx
  unfolding restore_tx Embedding
  restore_tx-embed_tx msg tx tx' size e =
      let (first, sole, same) = embedding msg tx tx' size e in
      let back =
        restore_outputs_first first.before first.output first.after msg size first.skipped in
      let script : with_script empty_script first.output ≡ first.output =
        ap (λ s. with_script s first.output) (sym sole) in
      let outputs : first.before ++ with_script empty_script first.output ∷ first.after
          ≡ tx.outputs =
        ap (λ o. first.before ++ o ∷ first.after) script ∙ sym first.split in
      rw (same, back, outputs)

  -- What the verification of a proof requires: the restored transaction, with the message embedded
  -- again, is the given one.
  unfoldable pub Accepted : Commitment → Tx → Type 0
  Accepted msg tx =
      (original : Tx) × (restore_tx opret_proof tx ≡ ok original)
      × (embed_tx confine msg original ≡ (tx, ok opret_proof))

  verifies→holds :
      (msg : Commitment) (tx : Tx)
      → length msg ≡ 32
      → Accepted msg tx
      → first_script is_op_return tx.outputs ≡ some (commitment_script msg)
  unfolding Accepted Embedding
  verifies→holds msg tx size (original, restored, e) =
      let (first, sole, same) = embedding msg original tx size e in
      rw same (
        first_script_at is_op_return first.before (with_script (commitment_script msg) first.output)
          first.after first.skipped (commitment-op_return msg))

  -- The transaction before the commitment of its first OP_RETURN output.
  first→verifies :
      (msg : Commitment) (tx : Tx) (first : Leading is_op_return tx.outputs)
      → length msg ≡ 32
      → first.output.script_pubkey ≡ commitment_script msg
      → Accepted msg tx
  unfolding Accepted restore_tx
  first→verifies msg tx first size e =
      let whole : with_script (commitment_script msg) first.output ≡ first.output =
        ap (λ s. with_script s first.output) (sym e) in
      let outputs : first.before ++ with_script (commitment_script msg) first.output ∷ first.after
          ≡ tx.outputs =
        ap (λ o. first.before ++ o ∷ first.after) whole ∙ sym first.split in
      let back =
        restore_outputs_first first.before first.output first.after msg size first.skipped in
      let original = record tx {
        outputs = first.before ++ with_script empty_script first.output ∷ first.after;
      } in
      let again : Leading is_op_return original.outputs = record {
        before = first.before;
        output = with_script empty_script first.output;
        after = first.after;
        split = refl;
        skipped = first.skipped;
        found = unfold is_op_return to_u8 in refl;
      } in
      (
        original,
        rw (← outputs) (rw back),
        embed_first_done k msg original again size refl
            ∙ ap (λ os. (record tx { outputs = os }, ok opret_proof)) outputs,
      )

  holds→verifies :
      (msg : Commitment) (tx : Tx)
      → length msg ≡ 32
      → first_script is_op_return tx.outputs ≡ some (commitment_script msg)
      → Accepted msg tx
  holds→verifies msg tx size e = elim (first_output is_op_return tx.outputs) [
    | inl none' ↦ absurd (let n = first_script_none is_op_return tx.outputs none' in cc)
    | inr first ↦
        let at =
          first_script_at is_op_return first.before first.output first.after first.skipped
            first.found in
        let same : some first.output.script_pubkey ≡ some (commitment_script msg) =
          sym at ∙ (ap (first_script is_op_return) (sym first.split) ∙ e) in
        first→verifies msg tx first size (some-injective _ _ same)
  ]

  -- A transaction passes the verification of a message of 32 bytes exactly if its first OP_RETURN
  -- output has the script of 34 bytes with that message.
  pub verifies_iff :
      (msg : Commitment) (tx : Tx)
      → length msg ≡ 32
      → Accepted msg tx ↔ (first_script is_op_return tx.outputs ≡ some (commitment_script msg))
  verifies_iff msg tx size = (verifies→holds msg tx size, holds→verifies msg tx size)
