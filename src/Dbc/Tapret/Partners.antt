-- ===== src/Dbc/Tapret/Partners.antt =====
-- dbc/src/tapret/mod.rs: the place of a commitment next to its partner in the tree.
use bp_core.Base.{
  ◌≡◌, ◌⊎◌, inl, inr, refl, true, false, not, ◌++◌, Option, none, some, Bytes, Bool-cases, arith,
}
use bp_core.Base.Result.{ok, err}
use bp_core.Dbc.Tapret.{
  TapretNodePartner, left_node, right_leaf, right_branch, alternative_commitment,
  incorrect_ordering, right_branch_with, check_no_commitment, node_hash, tap_node_hash,
  check_ordering, commitment_root,
}
use bp_core.Taproot.Hashes.{
  TapNodeHash, lt_bytes, lt_bytes_asym, min_bytes, max_bytes, with_leaf_script, with_nodes,
  with_nodes_comm, midstate_tapbranch,
}

module _ (tagged_sha256 : Bytes → Bytes → Bytes) where
  -- The hash of a branch from the child on the left and the child on the right.
  abbrev pub branch_of : TapNodeHash → TapNodeHash → TapNodeHash
  branch_of left right = tagged_sha256 midstate_tapbranch (left ++ right)

  -- The root of the tree: the leaf itself, or a branch where the leaf is on the side that the
  -- partner leaves free.
  unfoldable pub placed : Option TapretNodePartner → TapNodeHash → TapNodeHash
  placed none leaf = leaf
  placed (some (left_node hash)) leaf = branch_of hash leaf
  placed (some (right_leaf leaf_script)) leaf =
      branch_of leaf (with_leaf_script tagged_sha256 leaf_script)
  placed (some (right_branch branch)) leaf = branch_of leaf (node_hash tagged_sha256 branch)

  nodes_right :
      (leaf node : TapNodeHash)
      → not (lt_bytes node leaf) ≡ true
      → with_nodes tagged_sha256 leaf node ≡ branch_of leaf node
  unfolding with_nodes min_bytes max_bytes
  nodes_right leaf node h =
      let no_less : lt_bytes node leaf ≡ false = ground (arith, h) in rw no_less

  ordered_nodes :
      (partner : TapretNodePartner) (leaf : TapNodeHash)
      → check_ordering tagged_sha256 partner leaf ≡ true
      → with_nodes tagged_sha256 leaf (tap_node_hash tagged_sha256 partner)
        ≡ placed (some partner) leaf
  unfolding check_ordering tap_node_hash placed
  ordered_nodes (left_node hash) leaf h =
      rw (with_nodes_comm tagged_sha256 leaf hash) (nodes_right hash leaf h)
  ordered_nodes (right_leaf leaf_script) leaf h =
      nodes_right leaf (with_leaf_script tagged_sha256 leaf_script) h
  ordered_nodes (right_branch branch) leaf h = nodes_right leaf (node_hash tagged_sha256 branch) h

  -- The root of a tree with a commitment, by what its partner passes.
  unfoldable pub RootBranches : Option TapretNodePartner → TapNodeHash → Type 0
  RootBranches none leaf = commitment_root tagged_sha256 none leaf ≡ ok leaf
  RootBranches (some partner) leaf =
      ((commitment_root tagged_sha256 (some partner) leaf ≡ ok (placed (some partner) leaf))
        × (check_no_commitment partner ≡ true)
        × (check_ordering tagged_sha256 partner leaf ≡ true))
      ⊎ (((commitment_root tagged_sha256 (some partner) leaf ≡ err (alternative_commitment partner))
            × (check_no_commitment partner ≡ false))
          ⊎ ((commitment_root tagged_sha256 (some partner) leaf
                ≡ err (incorrect_ordering partner leaf))
              × (check_no_commitment partner ≡ true)
              × (check_ordering tagged_sha256 partner leaf ≡ false)))

  pub commitment_root_lem :
      (partner_node : Option TapretNodePartner) (leaf : TapNodeHash)
      → RootBranches partner_node leaf
  unfolding RootBranches commitment_root
  commitment_root_lem none leaf = refl
  commitment_root_lem (some partner) leaf = elim (Bool-cases (check_no_commitment partner)) [
    | inr bad ↦ inr (inl (rw bad, bad))
    | inl good ↦ elim (Bool-cases (check_ordering tagged_sha256 partner leaf)) [
      | inl order ↦ inl (rw (good, order, ordered_nodes partner leaf order), good, order)
      | inr order ↦ inr (inr (rw (good, order), good, order))
    ]
  ]

  -- The children of a right branch are put in order, and the hash of the branch is that of its
  -- children in this order, whichever is given first.
  pub right_branch_with_lem :
      (a b : TapNodeHash)
      → (lt_bytes (right_branch_with a b).right_node_hash (right_branch_with a b).left_node_hash
          ≡ false)
        × (node_hash tagged_sha256 (right_branch_with a b)
            ≡ branch_of
                (right_branch_with a b).left_node_hash
                (right_branch_with a b).right_node_hash)
        × (node_hash tagged_sha256 (right_branch_with a b) ≡ with_nodes tagged_sha256 b a)
  unfolding right_branch_with node_hash
  right_branch_with_lem a b = elim (Bool-cases (lt_bytes a b)) [
    | inl h ↦ rw h (
      lt_bytes_asym a b h,
      nodes_right a b (rw (lt_bytes_asym a b h)),
      with_nodes_comm tagged_sha256 a b,
    )
    | inr h ↦ rw h (h, nodes_right b a (rw h), refl)
  ]
