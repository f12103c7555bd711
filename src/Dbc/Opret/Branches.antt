-- ===== src/Dbc/Opret/Branches.antt =====
-- dbc/src/opret: what embedding a message does on each branch, and what restoring undoes.
use bp_core.Base.{
  ap, ◌∙◌, ◌≡◌, ◌≢◌, refl, arith, true, ◌⊎◌, inl, inr, Bool-cases, ==_iff, sym, List, [], ◌∷◌, ◌++◌,
  length, Bytes, some, ◌==◌,
}
use bp_core.Base.Result.{Result, ok, err}
use bp_core.Codec.{Confine}
use bp_core.Codec.Array.{IsConfine}
use bp_core.Dbc.{Commitment}
use bp_core.Dbc.Opret.{
  OpretError, OpretProof, opret_proof, no_opret_output, invalid_opret_script, embed_script,
  embed_outputs, embed_tx,
}
use bp_core.Dbc.Outputs.{Without, Leading, first_output, with_script}
use bp_core.Script.{is_op_return, op_return_script}
use bp_core.Script.OpCodes.{return, to_u8}
use bp_core.Script.Standard.{opcode_fits, short_slice}
use bp_core.Tx.{Tx, TxOut}

-- The script of a commitment: OP_RETURN and a push of the 32 bytes of the message.
abbrev pub commitment_script : Commitment → Bytes
commitment_script msg = 0x6a ∷ 32 ∷ msg

module _ {E : Type 0} {confine : Confine E} (k : IsConfine confine) where
  op_return_32 :
      (msg : Commitment)
      → length msg ≡ 32
      → op_return_script confine msg ≡ some (commitment_script msg)
  unfolding op_return_script to_u8
  op_return_32 msg e = rw (
    opcode_fits k return [] (omega arith),
    short_slice k msg (0x6a ∷ []) 32 e (omega arith) (omega arith),
  )

  embed_script_done :
      (msg : Commitment)
      → length msg ≡ 32
      → embed_script confine msg (0x6a ∷ []) ≡ (commitment_script msg, ok opret_proof)
  unfolding embed_script is_op_return to_u8
  embed_script_done msg e = rw (op_return_32 msg e)

embed_script_refused :
    {E : Type 0} (confine : Confine E) (msg : Commitment) (s : Bytes)
    → is_op_return s ≡ true
    → length s ≢ 1
    → embed_script confine msg s ≡ (s, err invalid_opret_script)
unfolding embed_script
embed_script_refused confine msg s h e = ground (arith, h)

module _ {E : Type 0} (confine : Confine E) where
  embed_outputs_none :
      (msg : Commitment) (os : List TxOut)
      → Without is_op_return os
      → embed_outputs confine msg os ≡ (os, err no_opret_output)
  unfolding embed_outputs
  embed_outputs_none msg [] h = refl
  embed_outputs_none msg (o ∷ os) (h, hs) = rw (h, embed_outputs_none msg os hs)

  embed_outputs_first :
      (msg : Commitment) (before : List TxOut) (o : TxOut) (after : List TxOut) (s : Bytes)
      (r : Result OpretError OpretProof)
      → Without is_op_return before
      → is_op_return o.script_pubkey ≡ true
      → embed_script confine msg o.script_pubkey ≡ (s, r)
      → embed_outputs confine msg (before ++ o ∷ after) ≡ (before ++ with_script s o ∷ after, r)
  unfolding embed_outputs
  embed_outputs_first msg [] o after s r w h e = rw (h, e)
  embed_outputs_first msg (b ∷ bs) o after s r (w, ws) h e =
      rw (w, embed_outputs_first msg bs o after s r ws h e)

sole_op_return : (s : Bytes) → is_op_return s ≡ true → length s ≡ 1 → s ≡ 0x6a ∷ []
unfolding is_op_return to_u8
sole_op_return [] h e = absurd (omega arith)
sole_op_return (b ∷ []) h e = let value : b ≡ 0x6a = ground (arith, h) in ap (λ c. c ∷ []) value
sole_op_return (b ∷ c ∷ bs) h e = absurd (omega arith)

-- The branches of `embed_commit` on a transaction.
unfoldable pub EmbedBranches : {E : Type 0} → Confine E → Commitment → Tx → Type 0
EmbedBranches confine msg tx =
    (Without is_op_return tx.outputs × (embed_tx confine msg tx ≡ (tx, err no_opret_output)))
    ⊎ ((first : Leading is_op_return tx.outputs) × (((first.output.script_pubkey ≡ 0x6a ∷ [])
            × (embed_tx confine msg tx ≡ (
              record tx {
                outputs =
                    first.before ++ with_script (commitment_script msg) first.output ∷ first.after;
              },
              ok opret_proof,
            )))
          ⊎ ((length first.output.script_pubkey ≢ 1)
              × (embed_tx confine msg tx ≡ (tx, err invalid_opret_script)))))

module _ {E : Type 0} {confine : Confine E} (k : IsConfine confine) where
  embed_first :
      (msg : Commitment) (tx : Tx) (first : Leading is_op_return tx.outputs) (s : Bytes)
      (r : Result OpretError OpretProof)
      → embed_script confine msg first.output.script_pubkey ≡ (s, r)
      → embed_tx confine msg tx
        ≡ (record tx { outputs = first.before ++ with_script s first.output ∷ first.after }, r)
  unfolding embed_tx
  embed_first msg tx first s r e = rw (
    first.split,
    embed_outputs_first confine msg first.before first.output first.after s r first.skipped
        first.found e,
  )

  pub embed_first_done :
      (msg : Commitment) (tx : Tx) (first : Leading is_op_return tx.outputs)
      → length msg ≡ 32
      → first.output.script_pubkey ≡ 0x6a ∷ []
      → embed_tx confine msg tx ≡ (
        record tx {
          outputs = first.before ++ with_script (commitment_script msg) first.output ∷ first.after;
        },
        ok opret_proof,
      )
  embed_first_done msg tx first size e =
      embed_first msg tx first (commitment_script msg) (ok opret_proof)
        (rw e (embed_script_done k msg size))

  embed_first_refused :
      (msg : Commitment) (tx : Tx) (first : Leading is_op_return tx.outputs)
      → length first.output.script_pubkey ≢ 1
      → embed_tx confine msg tx ≡ (tx, err invalid_opret_script)
  embed_first_refused msg tx first more =
      embed_first msg tx first first.output.script_pubkey (err invalid_opret_script)
        (embed_script_refused confine msg first.output.script_pubkey first.found more)
      ∙ ap (λ os. (record tx { outputs = os }, err invalid_opret_script)) (sym first.split)

  -- Embedding a message of 32 bytes in a transaction: with no OP_RETURN output, it is an error that
  -- changes nothing; if the script of the first OP_RETURN output is more than the opcode, it is
  -- another error that changes nothing; otherwise that output gets the script of the commitment,
  -- and nothing else changes.
  pub embed_tx_lem : (msg : Commitment) (tx : Tx) → length msg ≡ 32 → EmbedBranches confine msg tx
  unfolding embed_tx EmbedBranches
  embed_tx_lem msg tx size = elim (first_output is_op_return tx.outputs) [
    | inl none' ↦ inl (none', rw (embed_outputs_none confine msg tx.outputs none'))
    | inr first ↦
        let s = first.output.script_pubkey in
        elim (Bool-cases (length s == 1)) [
          | inl one ↦
              let e = sole_op_return s first.found ((==_iff (length s) 1).0 one) in
              inr (first, inl (e, embed_first_done msg tx first size e))
          | inr more ↦
              let ne : length s ≢ 1 = ground (arith, more) in
              inr (first, inr (ne, embed_first_refused msg tx first ne))
        ]
  ]
