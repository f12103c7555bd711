-- ===== src/Dbc/Tapret/Scheme.antt =====
-- dbc/src/tapret as a commitment scheme: a proof is its own supplement, and it fits a transaction
-- whose first Taproot output has the original script of the proof.
use bp_core.Base.{◌≡◌, ◌∙◌, refl, sym, ap, inl, inr, map, length, some, Bytes}
use bp_core.Base.Result.{ok, to_option, to_option_inv, ok-injective}
use bp_core.Codec.{Confine}
use bp_core.Codec.Array.{IsConfine}
use bp_core.Dbc.{Commitment}
use bp_core.Dbc.Outputs.{first_script, values-with_script}
use bp_core.Dbc.Schemes.{Scheme, IsScheme, SamePayments}
use bp_core.Dbc.Tapret.{
  TapretCommitment, TapretProof, original_pubkey_script, restore_tx, convolve_tx,
}
use bp_core.Dbc.Tapret.Branches.{key_script, ConvolveBranches, convolve_tx_lem}
use bp_core.Dbc.Tapret.Commitments.{IsStrict}
use bp_core.Dbc.Tapret.Restore.{restore_tx-convolve_tx}
use bp_core.Segwit.{is_p2tr}
use bp_core.Taproot.OutputKey.{Secp256k1, IsSecp256k1}
use bp_core.Tx.{Tx}

abbrev pub tapret :
    (tagged_sha256 : Bytes → Bytes → Bytes) (secp : Secp256k1) {E : Type 0} (confine : Confine E)
    (strict_write : TapretCommitment → Bytes)
    → Scheme
tapret tagged_sha256 secp confine strict_write = record {
  Supplement = TapretProof;
  Proof = TapretProof;
  supplement = λ proof. proof;
  Fits = λ proof tx.
      (s : Bytes) × (original_pubkey_script tagged_sha256 secp confine proof ≡ some s)
      × (first_script is_p2tr tx.outputs ≡ some s);
  commit =
      λ proof msg tx. to_option (convolve_tx tagged_sha256 secp confine strict_write proof msg tx);
  restore = restore_tx tagged_sha256 secp confine;
}

module _ (tagged_sha256 : Bytes → Bytes → Bytes) {secp : Secp256k1} (curve : IsSecp256k1 secp)
    {E : Type 0} {confine : Confine E} (k : IsConfine confine)
    (strict_write : TapretCommitment → Bytes) (strict : IsStrict strict_write) where
  tapret_keeps :
      (proof p : TapretProof) (msg : Commitment) (tx tx' : Tx)
      → length msg ≡ 32
      → convolve_tx tagged_sha256 secp confine strict_write proof msg tx ≡ ok (tx', p)
      → SamePayments tx tx'
  unfolding ConvolveBranches SamePayments
  tapret_keeps proof p msg tx tx' size done =
      elim (convolve_tx_lem tagged_sha256 curve k strict_write strict proof msg tx size) [
        | inl (none', failed) ↦ absurd (let r = sym failed ∙ done in cc)
        | inr (first, inr (inl (error, refused, failed))) ↦ absurd (let r = sym failed ∙ done in cc)
        | inr (first, inr (inr (stopped, failed))) ↦ absurd (let r = sym failed ∙ done in cc)
        | inr (first, inl (key, found, fits, made)) ↦
            let same = ap (λ q. q.0) (ok-injective _ _ (sym done ∙ made)) in
            let values =
              values-with_script first.before first.output first.after (key_script key) in
            rw same (refl, refl, refl, ap (map (λ o. o.value)) first.split ∙ sym values)
      ]

  -- The Taproot method keeps the promises of a commitment scheme.
  pub tapret-IsScheme : IsScheme (tapret tagged_sha256 secp confine strict_write)
  tapret-IsScheme = record {
    restores = λ proof p msg tx tx' size (s, original, at) e.
        let (same, back) =
          restore_tx-convolve_tx tagged_sha256 curve k strict_write strict proof p msg tx tx' s size
            original at (to_option_inv _ (tx', p) e) in
        (rw same back, same);
    keeps = λ proof p msg tx tx' size e.
        tapret_keeps proof p msg tx tx' size (to_option_inv _ (tx', p) e);
  }
