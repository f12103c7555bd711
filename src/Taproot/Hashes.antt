-- ===== src/Taproot/Hashes.antt =====
-- consensus/src/taproot.rs: the hashes of leaves and branches of the script tree. The tagged
-- SHA-256 of the crate commit_verify stands for any function of a tag and a text here.
use bp_core.Base.{
  ◌≡◌, refl, sym, ap, Bool, true, false, ltb, ◌==◌, if◌then◌else◌, [], ◌∷◌, ◌++◌, Bytes, arith, inl,
  inr, Bool-cases,
}
use bp_core.Codec.Array.{encode_byte_str}
use bp_core.Taproot.LeafVer.{LeafVer, tap_script, to_consensus_u8}

-- `b"TapLeaf"`, `b"TapBranch"`.
abbrev pub midstate_tapleaf : Bytes
midstate_tapleaf = b'T' ∷ b'a' ∷ b'p' ∷ b'L' ∷ b'e' ∷ b'a' ∷ b'f' ∷ []

abbrev pub midstate_tapbranch : Bytes
midstate_tapbranch = b'T' ∷ b'a' ∷ b'p' ∷ b'B' ∷ b'r' ∷ b'a' ∷ b'n' ∷ b'c' ∷ b'h' ∷ []

abbrev pub TapNodeHash : Type 0
TapNodeHash = Bytes

pub record LeafScript : Type 0 where
  pub version : LeafVer
  pub script : Bytes

-- The order on hashes is the lexicographic one on their bytes.
unfoldable pub lt_bytes : Bytes → Bytes → Bool
lt_bytes [] [] = false
lt_bytes [] (b ∷ bs) = true
lt_bytes (a ∷ as') [] = false
lt_bytes (a ∷ as') (b ∷ bs) =
    let rest = lt_bytes as' bs in if ltb a b then true else if a == b then rest else false

-- `cmp::min` gives the first of two equals, and `cmp::max` the second.
unfoldable pub min_bytes : Bytes → Bytes → Bytes
unfolding lt_bytes
min_bytes a b = if lt_bytes b a then b else a

unfoldable pub max_bytes : Bytes → Bytes → Bytes
unfolding lt_bytes
max_bytes a b = if lt_bytes b a then a else b

module _ (tagged_sha256 : Bytes → Bytes → Bytes) where
  -- `TapLeafHash::with_raw_script`: the version, the length and the script.
  unfoldable pub with_raw_script : LeafVer → Bytes → TapNodeHash
  with_raw_script version script =
      tagged_sha256 midstate_tapleaf (to_consensus_u8 version ∷ (encode_byte_str script).bytes)

  unfoldable pub with_leaf_script : LeafScript → TapNodeHash
  unfolding with_raw_script
  with_leaf_script leaf_script = with_raw_script leaf_script.version leaf_script.script

  unfoldable pub with_tap_script : Bytes → TapNodeHash
  unfolding with_raw_script
  with_tap_script script = with_raw_script tap_script script

  unfoldable pub with_nodes : TapNodeHash → TapNodeHash → TapNodeHash
  unfolding min_bytes max_bytes
  with_nodes node1 node2 =
      tagged_sha256 midstate_tapbranch (min_bytes node1 node2 ++ max_bytes node1 node2)

-- The order is total: of two different byte strings one is below the other, and never both.
pub lt_bytes_cases : (a b : Bytes) → lt_bytes a b ≡ false → lt_bytes b a ≡ false → a ≡ b
unfolding lt_bytes
lt_bytes_cases [] [] h k = refl
lt_bytes_cases [] (b ∷ bs) h k = cc
lt_bytes_cases (a ∷ as') [] h k = cc
lt_bytes_cases (a ∷ as') (b ∷ bs) h k = ground (arith, lt_bytes_cases as' bs)

pub lt_bytes_asym : (a b : Bytes) → lt_bytes a b ≡ true → lt_bytes b a ≡ false
unfolding lt_bytes
lt_bytes_asym [] [] h = refl
lt_bytes_asym [] (b ∷ bs) h = refl
lt_bytes_asym (a ∷ as') [] h = cc
lt_bytes_asym (a ∷ as') (b ∷ bs) h = ground (arith, lt_bytes_asym as' bs)

ordered :
    (a b : Bytes)
    → lt_bytes a b ≡ true
    → min_bytes a b ++ max_bytes a b ≡ min_bytes b a ++ max_bytes b a
unfolding min_bytes max_bytes
ordered a b h = rw (h, lt_bytes_asym a b h)

-- Whatever the tagged hash, the hash of a branch does not depend on the order of its two nodes.
pub with_nodes_comm :
    (tagged_sha256 : Bytes → Bytes → Bytes) (a b : TapNodeHash)
    → with_nodes tagged_sha256 a b ≡ with_nodes tagged_sha256 b a
unfolding with_nodes
with_nodes_comm h a b = elim (Bool-cases (lt_bytes a b)) [
  | inl below ↦ ap (h midstate_tapbranch) (ordered a b below)
  | inr above ↦ elim (Bool-cases (lt_bytes b a)) [
    | inl below ↦ ap (h midstate_tapbranch) (sym (ordered b a below))
    | inr above' ↦ rw (lt_bytes_cases a b above above')
  ]
]
