-- ===== src/Dbc/Tapret.antt =====
-- dbc/src/tapret: commitments in the script tree of the first Taproot output. The strict encoding
-- of the crate strict_encoding, the tagged hash and the curve are parameters. A hash is its bytes.
pub mod Commitments
pub mod Partners
pub mod Keys
pub mod Branches
pub mod Restore
pub mod Scheme
pub mod Texts
use bp_core.Base.{
  ℕ, zero, suc, Bool, true, false, not, ltb, leb, if◌then◌else◌, [], ◌∷◌, ◌++◌, replicate, take,
  length, Option, none, some, Bytes, eq_bytes, List,
}
use bp_core.Base.Result.{Result, ok, err, panic, try, map_err, or_panic}
use bp_core.Codec.{Confine}
use bp_core.Dbc.{Commitment}
use bp_core.Script.{push_slice, ◌>>=◌}
use bp_core.Segwit.{p2tr_tweaked, is_p2tr}
use bp_core.Taproot.Hashes.{
  TapNodeHash, LeafScript, lt_bytes, with_leaf_script, with_tap_script, with_nodes,
}
use bp_core.Taproot.OutputKey.{
  push_tap_code, reserved, return, InternalPk, OutputPk, Secp256k1, to_output_pk, p2tr,
}
use bp_core.Tx.{Tx, TxOut, ScriptPubkey}

-- `TAPRET_SCRIPT_COMMITMENT_PREFIX`
abbrev pub tapret_script_commitment_prefix : Bytes
tapret_script_commitment_prefix = replicate 29 0x50 ++ 0x6a ∷ 0x21 ∷ []

pub record TapretCommitment : Type 0 where
  pub mpc : Commitment
  pub nonce : ℕ

pub record TapretRightBranch : Type 0 where
  pub left_node_hash : TapNodeHash
  pub right_node_hash : TapNodeHash

pub data TapretNodePartner : Type 0 where
  left_node : TapNodeHash → TapretNodePartner
  right_leaf : LeafScript → TapretNodePartner
  right_branch : TapretRightBranch → TapretNodePartner

pub record TapretPathProof : Type 0 where
  pub partner_node : Option TapretNodePartner
  pub nonce : ℕ

pub record TapretProof : Type 0 where
  pub path_proof : TapretPathProof
  pub internal_pk : InternalPk

pub data TapretPathError : Type 0 where
  max_depth_exceeded : TapretPathError
  invalid_node_partner : TapretNodePartner → TapretPathError

pub data TapretKeyError : Type 0 where
  alternative_commitment : TapretNodePartner → TapretKeyError
  incorrect_ordering : TapretNodePartner → TapNodeHash → TapretKeyError

pub data TapretError : Type 0 where
  key_embedding : TapretKeyError → TapretError
  no_taproot_output : TapretError

-- `TapretRightBranch::with`
unfoldable pub right_branch_with : TapNodeHash → TapNodeHash → TapretRightBranch
right_branch_with a b =
    if lt_bytes a b
    then record { left_node_hash = a; right_node_hash = b }
    else record { left_node_hash = b; right_node_hash = a }

-- `TapretNodePartner::check_no_commitment`
unfoldable pub check_no_commitment : TapretNodePartner → Bool
check_no_commitment (left_node hash) = true
check_no_commitment (right_leaf leaf_script) =
    if ltb (length leaf_script.script) 64
    then true
    else not (eq_bytes (take 31 leaf_script.script) tapret_script_commitment_prefix)
check_no_commitment (right_branch branch) =
    not (eq_bytes (take 31 branch.left_node_hash) tapret_script_commitment_prefix)

-- `TapretPathProof::root`
unfoldable pub root : ℕ → TapretPathProof
root nonce = record { partner_node = none; nonce = nonce }

-- `TapretPathProof::with`
unfoldable pub path_with : TapretNodePartner → ℕ → Result TapretPathError TapretPathProof
path_with elem nonce =
    if not (check_no_commitment elem)
    then err (invalid_node_partner elem)
    else ok (record { partner_node = some elem; nonce = nonce })

-- `TapretPathProof::check_no_commitment`
unfoldable pub path_check_no_commitment : Option TapretNodePartner → Bool
path_check_no_commitment none = true
path_check_no_commitment (some partner) = check_no_commitment partner

-- `expect("tapret commitment must be fitting 33 bytes")`
unfoldable pub fits_33 : Bytes → Option Bytes
fits_33 bytes = if leb (length bytes) 33 then some bytes else none

module _ {E : Type 0} (confine : Confine E) (strict_write : TapretCommitment → Bytes) where
  -- `for _ in 0..n { tapret.push_opcode(TapCode::Reserved); }`
  unfoldable pub push_reserved : ℕ → Bytes → Option Bytes
  push_reserved zero s = some s
  push_reserved (suc n) s = push_tap_code confine reserved s >>= push_reserved n

  -- `TapScript::commit`
  unfoldable pub commit : TapretCommitment → Option Bytes
  unfolding push_reserved fits_33
  commit commitment = do
    tapret ← push_reserved 29 []
    tapret ← push_tap_code confine return tapret
    bytes ← fits_33 (strict_write commitment)
    push_slice confine bytes tapret

module _ (tagged_sha256 : Bytes → Bytes → Bytes) where
  -- `TapretRightBranch::node_hash`
  unfoldable pub node_hash : TapretRightBranch → TapNodeHash
  node_hash branch = with_nodes tagged_sha256 branch.left_node_hash branch.right_node_hash

  -- `TapretNodePartner::tap_node_hash`
  unfoldable pub tap_node_hash : TapretNodePartner → TapNodeHash
  tap_node_hash (left_node hash) = hash
  tap_node_hash (right_leaf leaf_script) = with_leaf_script tagged_sha256 leaf_script
  tap_node_hash (right_branch branch) = node_hash branch

  -- `TapretNodePartner::check_ordering`; `a <= b` on hashes is that `b < a` does not hold.
  unfoldable pub check_ordering : TapretNodePartner → TapNodeHash → Bool
  check_ordering (left_node left) other_node = not (lt_bytes other_node left)
  check_ordering (right_leaf leaf_script) other_node =
      not (lt_bytes (with_leaf_script tagged_sha256 leaf_script) other_node)
  check_ordering (right_branch branch) other_node = not (lt_bytes (node_hash branch) other_node)

  -- `TapretPathProof::original_merkle_root`
  unfoldable pub original_merkle_root : Option TapretNodePartner → Option TapNodeHash
  original_merkle_root none = none
  original_merkle_root (some partner) = some (tap_node_hash partner)

  -- The root of the tree with the leaf of the commitment added.
  unfoldable pub commitment_root :
      Option TapretNodePartner → TapNodeHash → Result TapretKeyError TapNodeHash
  commitment_root none leaf = ok leaf
  commitment_root (some partner) leaf =
      if not (check_no_commitment partner)
      then err (alternative_commitment partner)
      else if not (check_ordering partner leaf)
      then err (incorrect_ordering partner leaf)
      else ok (with_nodes tagged_sha256 leaf (tap_node_hash partner))

  module _ (secp : Secp256k1) {E : Type 0} (confine : Confine E) where
    unfoldable pub original_pubkey_script : TapretProof → Option ScriptPubkey
    original_pubkey_script proof =
        p2tr tagged_sha256 secp confine proof.internal_pk
          (original_merkle_root proof.path_proof.partner_node)

    -- The loop of `restore_original` over the outputs.
    unfoldable pub restore_outputs : TapretProof → List TxOut → Option (List TxOut)
    restore_outputs proof [] = some []
    restore_outputs proof (o ∷ os) =
        let rest = restore_outputs proof os in
        if is_p2tr o.script_pubkey
        then (do
          script ← original_pubkey_script proof
          some (record o { script_pubkey = script } ∷ os))
        else (do os' ← rest; some (o ∷ os'))

    unfoldable pub restore_txout : TapretProof → TxOut → Option TxOut
    restore_txout proof commitment = do
      script ← original_pubkey_script proof
      some (record { value = commitment.value; script_pubkey = script })

    unfoldable pub restore_tx : TapretProof → Tx → Option Tx
    restore_tx proof tx = do
      os ← restore_outputs proof tx.outputs
      some (record tx { outputs = os })

    module _ (strict_write : TapretCommitment → Bytes) where
      -- `InternalPk::convolve_commit`
      unfoldable pub convolve_key :
          TapretPathProof → Commitment → InternalPk → Result TapretKeyError (OutputPk × TapretProof)
      convolve_key supplement msg pk =
          try
            (or_panic
              (commit confine strict_write (record { mpc = msg; nonce = supplement.nonce })))
            (λ script_commitment.
              try
                (commitment_root supplement.partner_node
                  (with_tap_script tagged_sha256 script_commitment))
                (λ merkle_root.
                  try (or_panic (to_output_pk tagged_sha256 secp pk (some merkle_root)))
                    (λ (output_key, parity).
                      ok (output_key, record { path_proof = supplement; internal_pk = pk }))))

      -- `ScriptPubkey::convolve_commit`, which does not read the script it is called on.
      unfoldable pub convolve_script :
          TapretProof
          → Commitment
          → ScriptPubkey
          → Result TapretKeyError (ScriptPubkey × TapretProof)
      convolve_script supplement msg s =
          try (convolve_key supplement.path_proof msg supplement.internal_pk)
            (λ (output_key, proof).
              try (or_panic (p2tr_tweaked confine output_key)) (λ script. ok (script, supplement)))

      unfoldable pub convolve_txout :
          TapretProof → Commitment → TxOut → Result TapretKeyError (TxOut × TapretProof)
      convolve_txout supplement msg o =
          try (convolve_key supplement.path_proof msg supplement.internal_pk)
            (λ (output_key, proof).
              try (or_panic (p2tr_tweaked confine output_key))
                (λ script. ok (record { value = o.value; script_pubkey = script }, supplement)))

      -- The loop of `convolve_commit` over the outputs.
      unfoldable pub convolve_outputs :
          TapretProof → Commitment → List TxOut → Result TapretError (List TxOut × TapretProof)
      convolve_outputs supplement msg [] = err no_taproot_output
      convolve_outputs supplement msg (o ∷ os) =
          let rest = convolve_outputs supplement msg os in
          if is_p2tr o.script_pubkey
          then try (map_err key_embedding (convolve_txout supplement msg o))
              (λ (o', proof). ok (o' ∷ os, proof))
          else try rest (λ (os', proof). ok (o ∷ os', proof))

      unfoldable pub convolve_tx :
          TapretProof → Commitment → Tx → Result TapretError (Tx × TapretProof)
      convolve_tx supplement msg tx =
          try (convolve_outputs supplement msg tx.outputs)
            (λ (os, proof). ok (record tx { outputs = os }, proof))
