-- ===== src/Dbc/Tapret/Branches.antt =====
-- dbc/src/tapret/{spk,txout,tx}.rs: a commitment in the first Taproot output, on every branch.
use bp_core.Base.{
  ◌≡◌, ◌⊎◌, inl, inr, refl, sym, ap, ◌∙◌, true, List, [], ◌∷◌, ◌++◌, replicate, length, Bytes, some,
  none, Option,
}
use bp_core.Base.Result.{Result, ok, err, panic, try, map_err, or_panic, ok-injective}
use bp_core.Codec.{Confine}
use bp_core.Codec.Array.{IsConfine}
use bp_core.Dbc.{Commitment}
use bp_core.Dbc.Outputs.{Without, Leading, first_output, with_script}
use bp_core.Dbc.Tapret.{
  TapretCommitment, TapretProof, TapretKeyError, TapretError, key_embedding, no_taproot_output,
  convolve_key, convolve_txout, convolve_outputs, convolve_tx,
}
use bp_core.Dbc.Tapret.Commitments.{IsStrict}
use bp_core.Dbc.Tapret.Keys.{KeyBranches, root_of, convolve_key_lem}
use bp_core.Script.{◌>>=◌}
use bp_core.Segwit.{p2tr_tweaked, is_p2tr}
use bp_core.Segwit.Programs.{witness_scripts}
use bp_core.Taproot.Hashes.{TapNodeHash}
use bp_core.Taproot.OutputKey.{InternalPk, OutputPk, Secp256k1, IsSecp256k1, to_output_pk}
use bp_core.Taproot.Parity.{Parity}
use bp_core.Tx.{Tx, TxOut}

-- The script of an output key.
abbrev pub key_script : OutputPk → Bytes
key_script key = 0x51 ∷ 32 ∷ key

pub key_script_lem :
    {E : Type 0} {confine : Confine E} (k : IsConfine confine) (key : OutputPk)
    → length key ≡ 32
    → (p2tr_tweaked confine key ≡ some (key_script key)) × (is_p2tr (key_script key) ≡ true)
key_script_lem k key size =
    let (a, b, (script, wpkh, wsh, tr, program)) =
      witness_scripts k (replicate 20 0) key refl size in
    (script, tr)

module _ (tagged_sha256 : Bytes → Bytes → Bytes) {secp : Secp256k1} (curve : IsSecp256k1 secp) where
  size_of :
      (pk : InternalPk) (tweak : Option Bytes) (key : OutputPk) (parity : Parity)
      → (tweak >>= secp.add_tweak pk) ≡ some (key, parity)
      → length key ≡ 32
  size_of pk none key parity e = cc
  size_of pk (some tweak) key parity e = curve.key_size pk tweak key parity e

  pub to_output_pk_size :
      (pk : InternalPk) (root : Option TapNodeHash) (key : OutputPk) (parity : Parity)
      → to_output_pk tagged_sha256 secp pk root ≡ some (key, parity)
      → length key ≡ 32
  unfolding to_output_pk
  to_output_pk_size pk root key parity e = size_of pk _ key parity e

  module _ {E : Type 0} {confine : Confine E} (k : IsConfine confine)
      (strict_write : TapretCommitment → Bytes) (strict : IsStrict strict_write) where
    -- The key that the proof gives for the message.
    abbrev pub Key : TapretProof → Commitment → Result TapretKeyError (OutputPk × TapretProof)
    Key proof msg =
        convolve_key tagged_sha256 secp confine strict_write proof.path_proof msg proof.internal_pk

    -- The transaction with the first Taproot output paying to a key.
    abbrev pub keyed : (tx : Tx) → Leading is_p2tr tx.outputs → OutputPk → Tx
    keyed tx first key = record tx {
      outputs = first.before ++ with_script (key_script key) first.output ∷ first.after;
    }

    txout_ok :
        (proof p : TapretProof) (msg : Commitment) (o : TxOut) (key : OutputPk)
        → Key proof msg ≡ ok (key, p)
        → length key ≡ 32
        → convolve_txout tagged_sha256 secp confine strict_write proof msg o
          ≡ ok (with_script (key_script key) o, proof)
    unfolding convolve_txout
    txout_ok proof p msg o key e size = let s = key_script_lem k key size in rw (e, s.0)

    outputs_none :
        (proof : TapretProof) (msg : Commitment) (os : List TxOut)
        → Without is_p2tr os
        → convolve_outputs tagged_sha256 secp confine strict_write proof msg os
          ≡ err no_taproot_output
    unfolding convolve_outputs
    outputs_none proof msg [] w = refl
    outputs_none proof msg (o ∷ os) (w, ws) = rw (w, outputs_none proof msg os ws)

    -- What the loop makes of the first Taproot output.
    replaced :
        List TxOut
        → List TxOut
        → Result TapretKeyError (TxOut × TapretProof)
        → Result TapretError (List TxOut × TapretProof)
    replaced before after result =
        try (map_err key_embedding result) (λ (o, proof). ok (before ++ o ∷ after, proof))

    skip :
        (b : TxOut) (before after : List TxOut) (r : Result TapretKeyError (TxOut × TapretProof))
        → try (replaced before after r) (λ (os, proof). ok (b ∷ os, proof))
          ≡ replaced (b ∷ before) after r
    unfolding replaced
    skip b before after (ok (o, p)) = refl
    skip b before after (err e) = refl
    skip b before after panic = refl

    outputs_first :
        (proof : TapretProof) (msg : Commitment) (before : List TxOut) (o : TxOut)
        (after : List TxOut)
        → Without is_p2tr before
        → is_p2tr o.script_pubkey ≡ true
        → convolve_outputs tagged_sha256 secp confine strict_write proof msg (before ++ o ∷ after)
          ≡ replaced before after
              (convolve_txout tagged_sha256 secp confine strict_write proof msg o)
    unfolding convolve_outputs replaced
    outputs_first proof msg [] o after w h = rw h refl
    outputs_first proof msg (b ∷ bs) o after (w, ws) h =
        let r = convolve_txout tagged_sha256 secp confine strict_write proof msg o in
        rw (w, outputs_first proof msg bs o after ws h) (skip b bs after r)

    -- The branches of `convolve_commit` on a transaction.
    unfoldable pub ConvolveBranches : TapretProof → Commitment → Tx → Type 0
    ConvolveBranches proof msg tx =
        (Without is_p2tr tx.outputs
          × (convolve_tx tagged_sha256 secp confine strict_write proof msg tx
              ≡ err no_taproot_output))
        ⊎ ((first : Leading is_p2tr tx.outputs) × (((key : OutputPk) × (Key proof msg
                  ≡ ok (key, proof))
                × (length key ≡ 32)
                × (convolve_tx tagged_sha256 secp confine strict_write proof msg tx
                    ≡ ok (keyed tx first key, proof)))
              ⊎ (((e : TapretKeyError) × (Key proof msg ≡ err e)
                    × (convolve_tx tagged_sha256 secp confine strict_write proof msg tx
                        ≡ err (key_embedding e)))
                  ⊎ ((Key proof msg ≡ panic)
                      × (convolve_tx tagged_sha256 secp confine strict_write proof msg tx
                          ≡ panic)))))

    KeyCases : TapretProof → Commitment → Type 0
    KeyCases proof msg =
        ((key : OutputPk) × (Key proof msg ≡ ok (key, proof)) × (length key ≡ 32))
        ⊎ (((e : TapretKeyError) × (Key proof msg ≡ err e)) ⊎ (Key proof msg ≡ panic))

    tweaked :
        (proof : TapretProof) (msg : Commitment) (tweak : Option (OutputPk × Parity))
        → to_output_pk tagged_sha256 secp proof.internal_pk
            (some (root_of tagged_sha256 secp k strict_write strict proof.path_proof msg))
          ≡ tweak
        → Key proof msg ≡ try (or_panic tweak) (λ (output_key, parity). ok (output_key, proof))
        → KeyCases proof msg
    unfolding KeyCases
    tweaked proof msg none t e = inr (inr e)
    tweaked proof msg (some (key, parity)) t e =
        inl (key, e, to_output_pk_size proof.internal_pk _ key parity t)

    key_cases : (proof : TapretProof) (msg : Commitment) → length msg ≡ 32 → KeyCases proof msg
    unfolding KeyBranches KeyCases
    key_cases proof msg size =
        elim (convolve_key_lem tagged_sha256 secp k strict_write strict proof.path_proof msg
          proof.internal_pk size) [
            | inl (passes, e) ↦ tweaked proof msg _ refl e
            | inr (partner, found, inl (e, bad)) ↦ inr (inl (_, e))
            | inr (partner, found, inr (e, good, order)) ↦ inr (inl (_, e))
          ]

    convolve_first :
        (proof : TapretProof) (msg : Commitment) (tx : Tx) (first : Leading is_p2tr tx.outputs)
        (r : Result TapretKeyError (TxOut × TapretProof))
        → convolve_txout tagged_sha256 secp confine strict_write proof msg first.output ≡ r
        → convolve_tx tagged_sha256 secp confine strict_write proof msg tx
          ≡ try
              (replaced first.before first.after r)
              (λ (os, p). ok (record tx { outputs = os }, p))
    unfolding convolve_tx
    convolve_first proof msg tx first r e =
        rw
          (
            first.split,
            outputs_first proof msg first.before first.output first.after first.skipped first.found,
            e,
          )
          refl

    pub key_size :
        (proof : TapretProof) (msg : Commitment) (key : OutputPk)
        → length msg ≡ 32
        → Key proof msg ≡ ok (key, proof)
        → length key ≡ 32
    unfolding KeyCases
    key_size proof msg key size e = elim (key_cases proof msg size) [
      | inl (key', e', fits) ↦
          let same = ok-injective _ _ (sym e ∙ e') in rw (ap (λ q. q.0) same) fits
      | inr (inl (error, refused)) ↦ absurd (let r = sym refused ∙ e in cc)
      | inr (inr stopped) ↦ absurd (let r = sym stopped ∙ e in cc)
    ]

    pub convolve_first_ok :
        (proof : TapretProof) (msg : Commitment) (tx : Tx) (first : Leading is_p2tr tx.outputs)
        (key : OutputPk)
        → Key proof msg ≡ ok (key, proof)
        → length key ≡ 32
        → convolve_tx tagged_sha256 secp confine strict_write proof msg tx
          ≡ ok (keyed tx first key, proof)
    unfolding replaced
    convolve_first_ok proof msg tx first key e fits =
        convolve_first proof msg tx first (ok (with_script (key_script key) first.output, proof))
          (txout_ok proof proof msg first.output key e fits)

    -- Convolving a transaction with a message of 32 bytes: with no Taproot output it is an error;
    -- otherwise the first such output pays to the key that the proof and the message give, whatever
    -- its script was, nothing else changes, the proof comes back as it was, and an error or a panic
    -- of the key is one here.
    pub convolve_tx_lem :
        (proof : TapretProof) (msg : Commitment) (tx : Tx)
        → length msg ≡ 32
        → ConvolveBranches proof msg tx
    unfolding ConvolveBranches KeyCases convolve_tx replaced
    convolve_tx_lem proof msg tx size = elim (first_output is_p2tr tx.outputs) [
      | inl none' ↦ inl (none', rw (outputs_none proof msg tx.outputs none') refl)
      | inr first ↦ inr (
        first,
        elim (key_cases proof msg size) [
          | inl (key, e, fits) ↦ inl (key, e, fits, convolve_first_ok proof msg tx first key e fits)
          | inr (inl (e, refused)) ↦ inr (
              inl (
                e,
                refused,
                convolve_first proof msg tx first (err e)
                    (unfold convolve_txout in rw refused refl),
              ))
          | inr (inr stopped) ↦ inr (
              inr (
                stopped,
                convolve_first proof msg tx first panic (unfold convolve_txout in rw stopped refl),
              ))
        ],
      )
    ]
