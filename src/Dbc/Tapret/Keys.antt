-- ===== src/Dbc/Tapret/Keys.antt =====
-- dbc/src/tapret/xonlypk.rs: the output key of a commitment, on every branch.
use bp_core.Base.{ℕ, ◌≡◌, ◌⊎◌, inl, inr, refl, ◌∙◌, true, false, Option, none, some, Bytes, length}
use bp_core.Base.Result.{ok, err, try, or_panic}
use bp_core.Codec.{Confine}
use bp_core.Codec.Array.{IsConfine}
use bp_core.Dbc.{Commitment}
use bp_core.Dbc.Tapret.{
  TapretCommitment, TapretNodePartner, TapretPathProof, alternative_commitment, incorrect_ordering,
  check_no_commitment, check_ordering, commitment_root, convolve_key, right_leaf,
}
use bp_core.Dbc.Tapret.Commitments.{
  IsStrict, commitment_script, commit_lem, check_no_commitment_leaf,
}
use bp_core.Dbc.Tapret.Partners.{placed, RootBranches, commitment_root_lem}
use bp_core.Taproot.Hashes.{TapNodeHash, with_tap_script}
use bp_core.Taproot.LeafVer.{LeafVer}
use bp_core.Taproot.OutputKey.{InternalPk, Secp256k1, to_output_pk}

module _ (tagged_sha256 : Bytes → Bytes → Bytes) (secp : Secp256k1) {E : Type 0}
    {confine : Confine E} (k : IsConfine confine) (strict_write : TapretCommitment → Bytes)
    (strict : IsStrict strict_write) where
  -- The leaf of the commitment to a message with a nonce.
  abbrev pub leaf_of : TapretPathProof → Commitment → TapNodeHash
  leaf_of supplement msg =
      with_tap_script tagged_sha256
        (commitment_script (record { mpc = msg; nonce = supplement.nonce }))

  -- The root of the tree with that leaf as placed by the partner, and the output key of it.
  abbrev pub root_of : TapretPathProof → Commitment → TapNodeHash
  root_of supplement msg = placed tagged_sha256 supplement.partner_node (leaf_of supplement msg)

  convolve_key_root :
      (supplement : TapretPathProof) (msg : Commitment) (pk : InternalPk)
      → length msg ≡ 32
      → convolve_key tagged_sha256 secp confine strict_write supplement msg pk
        ≡ try
            (commitment_root tagged_sha256 supplement.partner_node (leaf_of supplement msg))
            (λ merkle_root.
              try
                (or_panic (to_output_pk tagged_sha256 secp pk (some merkle_root)))
                (λ (output_key, parity).
                  ok (output_key, record { path_proof = supplement; internal_pk = pk })))
  unfolding convolve_key
  convolve_key_root supplement msg pk size =
      let script =
        commit_lem k strict_write strict (record { mpc = msg; nonce = supplement.nonce }) size in
      rw script.0 refl

  -- No partner, or one that holds no commitment and is in order next to the leaf.
  abbrev pub Passes : Option TapretNodePartner → TapNodeHash → Type 0
  Passes partner_node leaf =
      (partner_node ≡ none)
      ⊎ ((partner : TapretNodePartner) × (partner_node ≡ some partner)
          × (check_no_commitment partner ≡ true)
          × (check_ordering tagged_sha256 partner leaf ≡ true))

  -- The branches of `convolve_commit` on a key, with the condition of each.
  unfoldable pub KeyBranches : TapretPathProof → Commitment → InternalPk → Type 0
  KeyBranches supplement msg pk =
      (Passes supplement.partner_node (leaf_of supplement msg)
        × (convolve_key tagged_sha256 secp confine strict_write supplement msg pk
            ≡ try (or_panic (to_output_pk tagged_sha256 secp pk (some (root_of supplement msg))))
                (λ (output_key, parity).
                  ok (output_key, record { path_proof = supplement; internal_pk = pk }))))
      ⊎ ((partner : TapretNodePartner) × (supplement.partner_node ≡ some partner)
          × (((convolve_key tagged_sha256 secp confine strict_write supplement msg pk
                  ≡ err (alternative_commitment partner))
                × (check_no_commitment partner ≡ false))
              ⊎ ((convolve_key tagged_sha256 secp confine strict_write supplement msg pk
                    ≡ err (incorrect_ordering partner (leaf_of supplement msg)))
                  × (check_no_commitment partner ≡ true)
                  × (check_ordering tagged_sha256 partner (leaf_of supplement msg) ≡ false))))

  key_branches :
      (partner_node : Option TapretNodePartner) (nonce : ℕ) (msg : Commitment) (pk : InternalPk)
      → length msg ≡ 32
      → KeyBranches (record { partner_node = partner_node; nonce = nonce }) msg pk
  unfolding KeyBranches RootBranches placed
  key_branches none nonce msg pk size =
      let s : TapretPathProof = record { partner_node = none; nonce = nonce } in
      inl (
        inl refl,
        convolve_key_root s msg pk size
            ∙ rw (commitment_root_lem tagged_sha256 none (leaf_of s msg)) refl,
      )
  key_branches (some partner) nonce msg pk size =
      let s : TapretPathProof = record { partner_node = some partner; nonce = nonce } in
      let step = convolve_key_root s msg pk size in
      elim (commitment_root_lem tagged_sha256 (some partner) (leaf_of s msg)) [
        | inl (placed', good, order) ↦
            inl (inr (partner, refl, good, order), step ∙ rw placed' refl)
        | inr (inl (refused, bad)) ↦ inr (partner, refl, inl (step ∙ rw refused refl, bad))
        | inr (inr (refused, good, order)) ↦
            inr (partner, refl, inr (step ∙ rw refused refl, good, order))
      ]

  -- Convolving a key with a message of 32 bytes: with no partner, or one that passes both checks, it
  -- tweaks the key with the root where the commitment stands on the side that the partner leaves
  -- free, and panics only where the tweak does; with a partner that fails a check, it gives the
  -- error of the first that fails.
  pub convolve_key_lem :
      (supplement : TapretPathProof) (msg : Commitment) (pk : InternalPk)
      → length msg ≡ 32
      → KeyBranches supplement msg pk
  convolve_key_lem supplement msg pk size =
      key_branches supplement.partner_node supplement.nonce msg pk size

  -- A partner leaf that holds the script of any commitment is refused, for every key and message.
  pub convolve_key_refuses :
      (version : LeafVer) (c : TapretCommitment) (nonce : ℕ) (msg : Commitment) (pk : InternalPk)
      → length c.mpc ≡ 32
      → length msg ≡ 32
      → convolve_key tagged_sha256 secp confine strict_write
          (record {
            partner_node =
                some (right_leaf (record { version = version; script = commitment_script c }));
            nonce = nonce;
          })
          msg
          pk
        ≡ err (
            alternative_commitment
              (right_leaf (record { version = version; script = commitment_script c })))
  unfolding commitment_root
  convolve_key_refuses version c nonce msg pk e size =
      let partner = right_leaf (record { version = version; script = commitment_script c }) in
      convolve_key_root (record { partner_node = some partner; nonce = nonce }) msg pk size
      ∙ rw (check_no_commitment_leaf version c e) refl
