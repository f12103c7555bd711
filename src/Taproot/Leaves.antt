-- ===== src/Taproot/Leaves.antt =====
-- consensus/src/taproot.rs: scripts of leaves with their version, Merkle paths, and the strict encoding
-- of leaf versions.
use bp_core.Base.{ℕ, ◌≡◌, refl, ◌++◌, List, length, Option, none, some, Bytes, IsByte}
use bp_core.Base.Result.{Result, ok, err, panic, try, map_err}
use bp_core.Codec.{Confine, u32_max}
use bp_core.Strict.{DecodeError, strict, data_integrity_error, Field, IsField}
use bp_core.Taproot.Hashes.{TapNodeHash, LeafScript, with_leaf_script, with_tap_script}
use bp_core.Taproot.LeafVer
use bp_core.Taproot.LeafVer.{
  LeafVer, tap_script, Parsed, invalid, unreachable, from_consensus_u8, to_consensus_u8, IsLeafVer,
  from_consensus_u8-to_consensus_u8,
}

-- `Confined::try_from` of some items, with its error.
unfoldable pub accepted : {E A : Type 0} → Option E → A → Result E A
accepted none a = ok a
accepted (some e) a = err e

-- `LeafScript::new`
unfoldable pub leaf_script : LeafVer → Bytes → LeafScript
leaf_script version script = record { version = version; script = script }

-- `LeafScript::with_bytes`
unfoldable pub with_bytes : {E : Type 0} → Confine E → LeafVer → Bytes → Result E LeafScript
unfolding accepted leaf_script
with_bytes confine version script =
    try (accepted (confine 0 u32_max (length script)) script) (λ s. ok (leaf_script version s))

-- `From<TapScript> for LeafScript` and `LeafScript::from_tap_script`.
unfoldable pub from_tap_script : Bytes → LeafScript
from_tap_script script = record { version = tap_script; script = script }

-- `TapMerklePath::try_from` and `try_from_iter`.
unfoldable pub tap_merkle_path :
    {E : Type 0} → Confine E → List TapNodeHash → Result E (List TapNodeHash)
unfolding accepted
tap_merkle_path confine path = accepted (confine 0 128 (length path)) path

-- `LeafScript::tap_leaf_hash`, and that of a TapScript.
unfoldable pub tap_leaf_hash : (Bytes → Bytes → Bytes) → LeafScript → TapNodeHash
tap_leaf_hash tagged_sha256 leaf = with_leaf_script tagged_sha256 leaf

module _ {D : Type 0} (u8 : Field D ℕ) where
  -- `StrictEncode for LeafVer`
  unfoldable pub leaf_ver_strict_encode : LeafVer → Bytes
  leaf_ver_strict_encode v = u8.write_field (to_consensus_u8 v)

  -- The error of a refused byte holds it.
  unfoldable pub leaf_ver_of : Parsed LeafVer → Bytes → Result (DecodeError D ℕ) (LeafVer × Bytes)
  leaf_ver_of (LeafVer.ok v) rest = ok (v, rest)
  leaf_ver_of (invalid n) rest = err (data_integrity_error n)
  leaf_ver_of unreachable rest = panic

  -- `StrictDecode for LeafVer`
  unfoldable pub leaf_ver_strict_decode : Bytes → Result (DecodeError D ℕ) (LeafVer × Bytes)
  unfolding leaf_ver_of
  leaf_ver_strict_decode s =
      try (map_err strict (u8.read_field s))
        (λ (version, rest). leaf_ver_of (from_consensus_u8 version) rest)

-- A leaf version reads back from its strict encoding, and the reader stops at its end.
pub leaf_ver_strict :
    {D : Type 0} {u8 : Field D ℕ} (is_u8 : IsField IsByte u8) (v : LeafVer) (rest : Bytes)
    → IsByte (to_consensus_u8 v)
    → IsLeafVer v
    → leaf_ver_strict_decode u8 (leaf_ver_strict_encode u8 v ++ rest) ≡ ok (v, rest)
unfolding leaf_ver_strict_decode leaf_ver_strict_encode
leaf_ver_strict is_u8 v rest byte valid =
    rw (is_u8.field_reads (to_consensus_u8 v) byte rest, from_consensus_u8-to_consensus_u8 v valid)
      refl

-- A Tapscript and the leaf made from it have one leaf hash.
pub tap_leaf_hash-from_tap_script :
    (tagged_sha256 : Bytes → Bytes → Bytes) (script : Bytes)
    → tap_leaf_hash tagged_sha256 (from_tap_script script) ≡ with_tap_script tagged_sha256 script
unfolding tap_leaf_hash from_tap_script with_leaf_script with_tap_script
tap_leaf_hash-from_tap_script tagged_sha256 script = refl
