-- ===== src/Dbc/Opret.antt =====
-- dbc/src/opret: commitments in the first OP_RETURN output of a transaction. A call that takes
-- `&mut self` gives the value after it and its result.
pub mod Branches
pub mod Restore
pub mod Scheme
use bp_core.Base.{not, ◌==◌, if◌then◌else◌, List, [], ◌∷◌, length, Option, none, some, Bytes}
use bp_core.Base.Result.{Result, ok, err, panic, try}
use bp_core.Codec.{Confine}
use bp_core.Dbc.{Commitment}
use bp_core.Script.{is_op_return, op_return_script, op_return}
use bp_core.Tx.{Tx, TxOut, ScriptPubkey}

pub data OpretError : Type 0 where
  no_opret_output invalid_opret_script : OpretError

pub data OpretProof : Type 0 where
  opret_proof : OpretProof

-- `embed_commit` changes what it is called on and returns a proof or an error.
abbrev pub Embedded : Type 0 → Type 0
Embedded A = A × Result OpretError OpretProof

-- `*self = ScriptPubkey::op_return(..)`
assign_script : ScriptPubkey → Option Bytes → Embedded ScriptPubkey
assign_script s none = (s, panic)
assign_script s (some new) = (new, ok opret_proof)

module _ {E : Type 0} (confine : Confine E) where
  unfoldable pub embed_script : Commitment → ScriptPubkey → Embedded ScriptPubkey
  unfolding assign_script
  embed_script msg s =
      if not (is_op_return s)
      then (s, err no_opret_output)
      else if not (length s == 1)
      then (s, err invalid_opret_script)
      else assign_script s (op_return_script confine msg)

  unfoldable pub embed_txout : Commitment → TxOut → Embedded TxOut
  embed_txout msg o =
      let (script, result) = embed_script msg o.script_pubkey in
      (record o { script_pubkey = script }, result)

  -- The loop of `embed_commit` over the outputs.
  unfoldable pub embed_outputs : Commitment → List TxOut → Embedded (List TxOut)
  unfolding embed_txout
  embed_outputs msg [] = ([], err no_opret_output)
  embed_outputs msg (o ∷ os) =
      let (os', rest) = embed_outputs msg os in
      if is_op_return o.script_pubkey
      then (let (o', result) = embed_txout msg o in (o' ∷ os, result))
      else (o ∷ os', rest)

  unfoldable pub embed_tx : Commitment → Tx → Embedded Tx
  unfolding embed_outputs
  embed_tx msg tx =
      let (os, result) = embed_outputs msg tx.outputs in (record tx { outputs = os }, result)

unfoldable pub restore_script : OpretProof → ScriptPubkey → Result OpretError ScriptPubkey
restore_script proof s =
    if not (is_op_return s)
    then err no_opret_output
    else if not (length s == 34)
    then err invalid_opret_script
    else ok (op_return ∷ [])

unfoldable pub restore_txout : OpretProof → TxOut → Result OpretError TxOut
restore_txout proof o =
    try (restore_script proof o.script_pubkey) (λ s. ok (record o { script_pubkey = s }))

-- The loop of `restore_original_container` over the outputs.
unfoldable pub restore_outputs : OpretProof → List TxOut → Result OpretError (List TxOut)
unfolding restore_txout
restore_outputs proof [] = err no_opret_output
restore_outputs proof (o ∷ os) =
    let rest = restore_outputs proof os in
    if is_op_return o.script_pubkey
    then try (restore_txout proof o) (λ o'. ok (o' ∷ os))
    else try rest (λ os'. ok (o ∷ os'))

unfoldable pub restore_tx : OpretProof → Tx → Result OpretError Tx
unfolding restore_outputs
restore_tx proof tx = try (restore_outputs proof tx.outputs) (λ os. ok (record tx { outputs = os }))
