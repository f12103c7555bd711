-- ===== src/Segwit/Hashed.antt =====
-- consensus/src/hashtypes.rs, and the scripts by hash of consensus/src/{script,segwit}.rs. SHA-256 and
-- RIPEMD-160 of the crate commit_verify stand for any functions of a text.
use bp_core.Base.{◌≡◌, refl, true, [], ◌∷◌, ◌++◌, replicate, length, Option, some, Bytes}
use bp_core.Codec.{Confine}
use bp_core.Codec.Array.{IsConfine}
use bp_core.Script.{p2sh, is_p2sh}
use bp_core.Script.Standard.{is_p2sh-p2sh}
use bp_core.Segwit.{p2wsh, is_p2wsh}
use bp_core.Segwit.Programs.{witness_scripts}

-- The sizes of the hashes.
pub record AreHashes (sha256 ripemd160 : Bytes → Bytes) : Type 0 where
  pub sha256_size : (text : Bytes) → length (sha256 text) ≡ 32
  pub ripemd160_size : (text : Bytes) → length (ripemd160 text) ≡ 20

module _ (sha256 ripemd160 : Bytes → Bytes) where
  -- `PubkeyHash::from`, of the bytes of a compressed, an uncompressed or a legacy key.
  unfoldable pub pubkey_hash : Bytes → Bytes
  pubkey_hash pk = ripemd160 (sha256 pk)

  -- `WPubkeyHash::from`
  unfoldable pub w_pubkey_hash : Bytes → Bytes
  w_pubkey_hash pk = ripemd160 (sha256 pk)

  -- `ScriptHash::from`
  unfoldable pub script_hash : Bytes → Bytes
  script_hash redeem_script = ripemd160 (sha256 redeem_script)

  -- `WScriptHash::from`
  unfoldable pub w_script_hash : Bytes → Bytes
  w_script_hash witness_script = sha256 (sha256 witness_script)

  module _ {E : Type 0} (confine : Confine E) where
    -- `WitnessScript::to_script_pubkey`
    unfoldable pub witness_to_script_pubkey : Bytes → Option Bytes
    unfolding w_script_hash
    witness_to_script_pubkey witness_script = p2wsh confine (w_script_hash witness_script)

    -- `WitnessScript::to_redeem_script`
    unfoldable pub to_redeem_script : Bytes → Option Bytes
    unfolding w_script_hash
    to_redeem_script witness_script = p2wsh confine (w_script_hash witness_script)

    -- `RedeemScript::to_script_pubkey`
    unfoldable pub redeem_to_script_pubkey : Bytes → Option Bytes
    unfolding script_hash
    redeem_to_script_pubkey redeem_script = p2sh confine (script_hash redeem_script)

module _ {sha256 ripemd160 : Bytes → Bytes} (hashes : AreHashes sha256 ripemd160) {E : Type 0}
    {confine : Confine E} (k : IsConfine confine) where
  -- The script of a witness script by hash, and that of the redeem script made from it: neither
  -- panics, each is recognised by its own test, the program is SHA-256 of SHA-256 of the witness
  -- script, and the outer hash is taken of the redeem script.
  pub nested_scripts :
      (s : Bytes)
      → (witness_to_script_pubkey sha256 ripemd160 confine s ≡ some (0 ∷ 32 ∷ sha256 (sha256 s)))
        × (is_p2wsh (0 ∷ 32 ∷ sha256 (sha256 s)) ≡ true)
        × (to_redeem_script sha256 ripemd160 confine s ≡ some (0 ∷ 32 ∷ sha256 (sha256 s)))
        × (redeem_to_script_pubkey sha256 ripemd160 confine (0 ∷ 32 ∷ sha256 (sha256 s))
            ≡ some (0xa9 ∷ 20 ∷ (ripemd160 (sha256 (0 ∷ 32 ∷ sha256 (sha256 s))) ++ 0x87 ∷ [])))
        × (is_p2sh (0xa9 ∷ 20 ∷ (ripemd160 (sha256 (0 ∷ 32 ∷ sha256 (sha256 s))) ++ 0x87 ∷ []))
            ≡ true)
  unfolding witness_to_script_pubkey to_redeem_script redeem_to_script_pubkey
  nested_scripts s =
      let hash = sha256 (sha256 s) in
      let outer = ripemd160 (sha256 (0 ∷ 32 ∷ hash)) in
      let (wpkh, (script, not_wpkh, is, not_tr, program), tr) =
        witness_scripts k (replicate 20 0) hash refl (hashes.sha256_size (sha256 s)) in
      let (nested, is_nested) =
        is_p2sh-p2sh k outer (hashes.ripemd160_size (sha256 (0 ∷ 32 ∷ hash))) in
      (script, is, script, nested, is_nested)
