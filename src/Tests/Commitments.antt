-- ===== src/Tests/Commitments.antt =====
-- Examples of the theorems on commitments, with a toy hash and a toy curve.
use bp_core.Base.{
  ℕ, ◌+◌, ◌%◌, ◌≡◌, ◌↔◌, refl, sym, ap, [], ◌∷◌, replicate, length, Bytes, none, some, ◌++◌,
}
use bp_core.Base.Result.{err, some-injective}
use bp_core.Codec.Exact.{exact, exact-IsConfine}
use bp_core.Dbc.Opret.Branches.{EmbedBranches, commitment_script, embed_tx_lem}
use bp_core.Dbc.Opret.Restore.{Accepted, verifies_iff}
use bp_core.Dbc.Opret.Scheme.{opret, opret-IsScheme}
use bp_core.Dbc.Outputs.{first_script}
use bp_core.Dbc.Schemes.{IsScheme}
use bp_core.Dbc.Tapret.{
  TapretCommitment, TapretPathProof, TapretProof, right_leaf, convolve_key, alternative_commitment,
  original_pubkey_script, original_merkle_root,
}
use bp_core.Segwit.{p2tr_tweaked}
use bp_core.Dbc.Tapret.Branches.{ConvolveBranches, convolve_tx_lem}
use bp_core.Dbc.Tapret.Commitments.{IsStrict}
use bp_core.Dbc.Tapret.Keys.{KeyBranches, convolve_key_lem, convolve_key_refuses}
use bp_core.Dbc.Tapret.Restore.{Pays, tapret_verifies_iff}
use bp_core.Dbc.Tapret.Restore as Tapret
use bp_core.Dbc.Tapret.Scheme.{tapret, tapret-IsScheme}
use bp_core.Script.{is_op_return, push_opcode, push_slice}
use bp_core.Taproot.LeafVer.{tap_script}
use bp_core.Taproot.OutputKey.{Secp256k1, IsSecp256k1, midstate_taptweak, p2tr, to_output_pk}
use bp_core.Taproot.Parity.{even}
use bp_core.Tests.{sevens, plain_tx, change}
use bp_core.Tx.{Tx}

abbrev total : Bytes → ℕ
total [] = 0
total (b ∷ bs) = b + total bs

-- A hash and a key of 32 bytes, which depend on all their input.
abbrev pub toy_hash : Bytes → Bytes → Bytes
toy_hash tag text = total (tag ++ text) % 256 ∷ replicate 31 5

abbrev pub toy_curve : Secp256k1
toy_curve = record {
  scalar_from_be_bytes = λ bytes. some bytes;
  add_tweak = λ pk tweak. some (total (pk ++ tweak) % 256 ∷ replicate 31 9, even);
}

pub toy_curve-IsSecp256k1 : IsSecp256k1 toy_curve
toy_curve-IsSecp256k1 = record {
  key_size = λ pk tweak key parity e. sym (ap (λ p. length p.0) (some-injective _ _ e));
}

-- The strict encoding of a commitment.
abbrev pub in_order : TapretCommitment → Bytes
in_order c = c.mpc ++ c.nonce ∷ []

pub in_order-IsStrict : IsStrict in_order
in_order-IsStrict = record { layout = λ c. refl }

embed_tx_example : EmbedBranches exact (sevens 32) plain_tx
embed_tx_example = embed_tx_lem exact-IsConfine (sevens 32) plain_tx refl

-- A transaction whose OP_RETURN output holds 32 bytes.
abbrev committed_tx : Tx
committed_tx = record plain_tx {
  outputs = record change { script_pubkey = 0x6a ∷ 32 ∷ sevens 32 } ∷ change ∷ [];
}

verifies_iff_example :
    Accepted exact-IsConfine (sevens 32) committed_tx
    ↔ (first_script is_op_return committed_tx.outputs ≡ some (commitment_script (sevens 32)))
verifies_iff_example = verifies_iff exact-IsConfine (sevens 32) committed_tx refl

opret-IsScheme_example : IsScheme (opret exact)
opret-IsScheme_example = opret-IsScheme exact-IsConfine

abbrev commitment : TapretCommitment
commitment = record { mpc = sevens 32; nonce = 8 }

abbrev bare_path : TapretPathProof
bare_path = record { partner_node = none; nonce = 8 }

-- A path next to a leaf with an empty script.
abbrev leaf_path : TapretPathProof
leaf_path = record {
  partner_node = some (right_leaf (record { version = tap_script; script = [] }));
  nonce = 1;
}

convolve_key_example :
    KeyBranches toy_hash toy_curve exact-IsConfine in_order in_order-IsStrict leaf_path
      (sevens 32)
      (sevens 32)
convolve_key_example =
    convolve_key_lem toy_hash toy_curve exact-IsConfine in_order in_order-IsStrict leaf_path
      (sevens 32) (sevens 32) refl

convolve_key_refuses_example :
    convolve_key toy_hash toy_curve exact in_order
      (record {
        partner_node = some (
            right_leaf (record {
              version = tap_script;
              script = replicate 29 0x50 ++ 0x6a ∷ 0x21 ∷ (sevens 32 ++ 8 ∷ []);
            }));
        nonce = 3;
      })
      (replicate 32 2)
      (sevens 32)
    ≡ err (
        alternative_commitment (
          right_leaf (record {
            version = tap_script;
            script = replicate 29 0x50 ++ 0x6a ∷ 0x21 ∷ (sevens 32 ++ 8 ∷ []);
          })))
convolve_key_refuses_example =
    convolve_key_refuses toy_hash toy_curve exact-IsConfine in_order in_order-IsStrict tap_script
      commitment 3 (replicate 32 2) (sevens 32) refl refl

abbrev pub proof : TapretProof
proof = record { path_proof = bare_path; internal_pk = sevens 32 }

-- The output of the proof before the commitment: the sum of the tag and the key is the first byte
-- of the tweak.
abbrev pub original_script : Bytes
original_script =
    0x51 ∷ 32 ∷ (total (sevens 32 ++ toy_hash midstate_taptweak (sevens 32)) % 256 ∷ replicate 31 9)

abbrev taproot_tx : Tx
taproot_tx = record plain_tx {
  outputs = change ∷ record change { script_pubkey = original_script } ∷ [];
}

convolve_tx_example :
    ConvolveBranches toy_hash toy_curve-IsSecp256k1 exact-IsConfine in_order in_order-IsStrict proof
      (sevens 32)
      taproot_tx
convolve_tx_example =
    convolve_tx_lem toy_hash toy_curve-IsSecp256k1 exact-IsConfine in_order in_order-IsStrict proof
      (sevens 32) taproot_tx refl

tapret_verifies_example :
    Tapret.Accepted toy_hash toy_curve-IsSecp256k1 exact-IsConfine in_order in_order-IsStrict proof
      (sevens 32)
      taproot_tx
    ↔ Pays toy_hash toy_curve-IsSecp256k1 exact-IsConfine in_order in_order-IsStrict proof
        (sevens 32)
        taproot_tx
tapret_verifies_example =
    tapret_verifies_iff toy_hash toy_curve-IsSecp256k1 exact-IsConfine in_order in_order-IsStrict
      proof (sevens 32) taproot_tx original_script refl
      (unfold original_pubkey_script p2tr to_output_pk original_merkle_root p2tr_tweaked push_opcode
          push_slice in
        refl)

tapret-IsScheme_example : IsScheme (tapret toy_hash toy_curve exact in_order)
tapret-IsScheme_example =
    tapret-IsScheme toy_hash toy_curve-IsSecp256k1 exact-IsConfine in_order in_order-IsStrict
