-- ===== src/Dbc/Tapret/Restore.antt =====
-- dbc/src/tapret: restoring undoes the commitment, and which transactions hold a message.
use bp_core.Base.{
  ◌≡◌, ◌↔◌, inl, inr, refl, sym, ap, ◌∙◌, true, List, [], ◌∷◌, ◌++◌, length, Bytes, some, none,
  Option,
}
use bp_core.Base.Result.{ok, ok-injective, some-injective}
use bp_core.Codec.{Confine}
use bp_core.Codec.Array.{IsConfine}
use bp_core.Dbc.{Commitment}
use bp_core.Dbc.Outputs.{
  Without, Leading, first_output, first_script, first_script_none, first_script_at, with_script,
}
use bp_core.Dbc.Tapret.{
  TapretCommitment, TapretProof, original_pubkey_script, original_merkle_root, restore_outputs,
  restore_tx, convolve_tx,
}
use bp_core.Dbc.Tapret.Branches.{
  key_script, key_script_lem, Key, to_output_pk_size, ConvolveBranches, convolve_tx_lem, key_size,
  convolve_first_ok,
}
use bp_core.Dbc.Tapret.Commitments.{IsStrict}
use bp_core.Script.{◌>>=◌}
use bp_core.Segwit.{p2tr_tweaked, is_p2tr}
use bp_core.Taproot.OutputKey.{OutputPk, Secp256k1, IsSecp256k1, to_output_pk, p2tr}
use bp_core.Taproot.Parity.{Parity}
use bp_core.Tx.{Tx, TxOut}

module _ (tagged_sha256 : Bytes → Bytes → Bytes) {secp : Secp256k1} (curve : IsSecp256k1 secp)
    {E : Type 0} {confine : Confine E} (k : IsConfine confine)
    (strict_write : TapretCommitment → Bytes) (strict : IsStrict strict_write) where
  -- The script of the output before the commitment.
  abbrev pub HasOriginal : TapretProof → Bytes → Type 0
  HasOriginal proof s = original_pubkey_script tagged_sha256 secp confine proof ≡ some s

  of_tweaked :
      (proof : TapretProof) (s : Bytes) (tweak : Option (OutputPk × Parity))
      → to_output_pk tagged_sha256 secp proof.internal_pk
          (original_merkle_root tagged_sha256 proof.path_proof.partner_node)
        ≡ tweak
      → (tweak >>= (λ (key, parity). p2tr_tweaked confine key)) ≡ some s
      → is_p2tr s ≡ true
  of_tweaked proof s none t e = cc
  of_tweaked proof s (some (key, parity)) t e =
      let size = to_output_pk_size tagged_sha256 curve proof.internal_pk _ key parity t in
      let (script, is) = key_script_lem k key size in
      let same : key_script key ≡ s = some-injective _ _ (sym script ∙ e) in rw same at is

  is_p2tr-original_pubkey_script :
      (proof : TapretProof) (s : Bytes) → HasOriginal proof s → is_p2tr s ≡ true
  unfolding original_pubkey_script p2tr
  is_p2tr-original_pubkey_script proof s e = of_tweaked proof s _ refl e

  restore_outputs_first :
      (proof : TapretProof) (before : List TxOut) (o : TxOut) (after : List TxOut) (s : Bytes)
      → Without is_p2tr before
      → is_p2tr o.script_pubkey ≡ true
      → HasOriginal proof s
      → restore_outputs tagged_sha256 secp confine proof (before ++ o ∷ after)
        ≡ some (before ++ with_script s o ∷ after)
  unfolding restore_outputs
  restore_outputs_first proof [] o after s w h e = rw (h, e) refl
  restore_outputs_first proof (b ∷ bs) o after s (w, ws) h e =
      rw (w, restore_outputs_first proof bs o after s ws h e) refl

  -- Restoring a transaction that a message of 32 bytes was committed in gives the transaction before
  -- that, if its first Taproot output had the script of the proof.
  pub restore_tx-convolve_tx :
      (proof p : TapretProof) (msg : Commitment) (tx tx' : Tx) (s : Bytes)
      → length msg ≡ 32
      → HasOriginal proof s
      → first_script is_p2tr tx.outputs ≡ some s
      → convolve_tx tagged_sha256 secp confine strict_write proof msg tx ≡ ok (tx', p)
      → (p ≡ proof) × (restore_tx tagged_sha256 secp confine proof tx' ≡ some tx)
  unfolding ConvolveBranches restore_tx
  restore_tx-convolve_tx proof p msg tx tx' s size e at done =
      elim (convolve_tx_lem tagged_sha256 curve k strict_write strict proof msg tx size) [
        | inl (none', failed) ↦ absurd (let r = sym failed ∙ done in cc)
        | inr (first, inr (inl (error, refused, failed))) ↦ absurd (let r = sym failed ∙ done in cc)
        | inr (first, inr (inr (stopped, failed))) ↦ absurd (let r = sym failed ∙ done in cc)
        | inr (first, inl (key, found, fits, made)) ↦
            let same = ok-injective _ _ (sym done ∙ made) in
            let there =
              first_script_at is_p2tr first.before first.output first.after first.skipped
                first.found in
            let script : first.output.script_pubkey ≡ s =
              some-injective _ _ (sym there ∙ (ap (first_script is_p2tr) (sym first.split) ∙ at)) in
            let back =
              restore_outputs_first proof first.before (with_script (key_script key) first.output)
                first.after s first.skipped (key_script_lem k key fits).1 e in
            let outputs : first.before ++ with_script s first.output ∷ first.after ≡ tx.outputs =
              ap (λ t. first.before ++ with_script t first.output ∷ first.after) (sym script)
              ∙ sym first.split in
            (ap (λ q. q.1) same, rw (ap (λ q. q.0) same, back, outputs) refl)
      ]

  -- What the verification of a proof requires: the message convolved again with the restored
  -- transaction gives the transaction and the proof.
  unfoldable pub Accepted : TapretProof → Commitment → Tx → Type 0
  Accepted proof msg tx =
      (original : Tx) × (restore_tx tagged_sha256 secp confine proof tx ≡ some original)
      × (convolve_tx tagged_sha256 secp confine strict_write proof msg original ≡ ok (tx, proof))

  -- The first Taproot output pays to the key that the proof and the message give.
  unfoldable pub Pays : TapretProof → Commitment → Tx → Type 0
  Pays proof msg tx =
      (key : OutputPk) × (Key tagged_sha256 curve k strict_write strict proof msg ≡ ok (key, proof))
      × (first_script is_p2tr tx.outputs ≡ some (key_script key))

  verifies→pays :
      (proof : TapretProof) (msg : Commitment) (tx : Tx)
      → length msg ≡ 32
      → Accepted proof msg tx
      → Pays proof msg tx
  unfolding Accepted Pays ConvolveBranches
  verifies→pays proof msg tx size (original, restored, done) =
      elim (convolve_tx_lem tagged_sha256 curve k strict_write strict proof msg original size) [
        | inl (none', failed) ↦ absurd (let r = sym failed ∙ done in cc)
        | inr (first, inr (inl (error, refused, failed))) ↦ absurd (let r = sym failed ∙ done in cc)
        | inr (first, inr (inr (stopped, failed))) ↦ absurd (let r = sym failed ∙ done in cc)
        | inr (first, inl (key, found, fits, made)) ↦
            let same = ok-injective _ _ (sym done ∙ made) in
            (
              key,
              found,
              rw (ap (λ q. q.0) same) (
                  first_script_at is_p2tr first.before (with_script (key_script key) first.output)
                    first.after first.skipped (key_script_lem k key fits).1),
            )
      ]

  -- The transaction before a commitment of its first Taproot output.
  first→verifies :
      (proof : TapretProof) (msg : Commitment) (tx : Tx) (first : Leading is_p2tr tx.outputs)
      (s : Bytes) (key : OutputPk)
      → HasOriginal proof s
      → length key ≡ 32
      → Key tagged_sha256 curve k strict_write strict proof msg ≡ ok (key, proof)
      → first.output.script_pubkey ≡ key_script key
      → Accepted proof msg tx
  unfolding Accepted restore_tx
  first→verifies proof msg tx first s key e fits found script =
      let whole : with_script (key_script key) first.output ≡ first.output =
        ap (λ t. with_script t first.output) (sym script) in
      let outputs : first.before ++ with_script (key_script key) first.output ∷ first.after
          ≡ tx.outputs =
        ap (λ o. first.before ++ o ∷ first.after) whole ∙ sym first.split in
      let back =
        restore_outputs_first proof first.before first.output first.after s first.skipped
          first.found e in
      let original = record tx {
        outputs = first.before ++ with_script s first.output ∷ first.after;
      } in
      let again : Leading is_p2tr original.outputs = record {
        before = first.before;
        output = with_script s first.output;
        after = first.after;
        split = refl;
        skipped = first.skipped;
        found = is_p2tr-original_pubkey_script proof s e;
      } in
      (
        original,
        rw (first.split, back) refl,
        convolve_first_ok tagged_sha256 curve k strict_write strict proof msg original again key
              found fits
            ∙ ap (λ os. ok (record tx { outputs = os }, proof)) outputs,
      )

  pays→verifies :
      (proof : TapretProof) (msg : Commitment) (tx : Tx) (s : Bytes)
      → length msg ≡ 32
      → HasOriginal proof s
      → Pays proof msg tx
      → Accepted proof msg tx
  unfolding Pays
  pays→verifies proof msg tx s size e (key, found, at) = elim (first_output is_p2tr tx.outputs) [
    | inl none' ↦ absurd (let n = first_script_none is_p2tr tx.outputs none' in cc)
    | inr first ↦
        let there =
          first_script_at is_p2tr first.before first.output first.after first.skipped first.found in
        let script : first.output.script_pubkey ≡ key_script key =
          some-injective _ _ (sym there ∙ (ap (first_script is_p2tr) (sym first.split) ∙ at)) in
        let fits = key_size tagged_sha256 curve k strict_write strict proof msg key size found in
        first→verifies proof msg tx first s key e fits found script
  ]

  -- For a proof whose original script exists, a transaction passes the verification of a message of
  -- 32 bytes exactly if its first Taproot output pays to the key that the proof and the message
  -- give.
  pub tapret_verifies_iff :
      (proof : TapretProof) (msg : Commitment) (tx : Tx) (s : Bytes)
      → length msg ≡ 32
      → HasOriginal proof s
      → Accepted proof msg tx ↔ Pays proof msg tx
  tapret_verifies_iff proof msg tx s size e =
      (verifies→pays proof msg tx size, pays→verifies proof msg tx s size e)
