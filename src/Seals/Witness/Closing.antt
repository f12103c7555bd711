-- ===== src/Seals/Witness/Closing.antt =====
-- seals/src/txout/witness.rs: which seals a witness transaction closes.
use bp_core.Base.{
  ◌≡◌, ◌↔◌, inl, inr, refl, ap, ◌∙◌, true, List, [], ◌∷◌, ◌++◌, some, Bool-cases, Option-cases,
  arith, eq_bytes_refl, eq_bytes→eq,
}
use bp_core.Base.Result.{ok}
use bp_core.Dbc.Proof.{Method, opret_first, tapret_first, eq_method, DbcProof}
use bp_core.Seals.{TxoSeal, eq_outpoint, spends}
use bp_core.Seals.Witness.{Witness, closes}
use bp_core.Tx.{TxIn, Outpoint}

eq_outpoint_iff : (a b : Outpoint) → (eq_outpoint a b ≡ true) ↔ (a ≡ b)
unfolding eq_outpoint
eq_outpoint_iff a b = (
  λ h.
      let txids = eq_bytes→eq a.txid b.txid (ground (arith, h)) in
      let vouts : a.vout ≡ b.vout = ground (arith, h) in
      ap (λ t. record { txid = t; vout = a.vout }) txids
      ∙ ap (λ v. record { txid = b.txid; vout = v }) vouts,
  λ e. rw (e, eq_bytes_refl b.txid) (ground arith),
)

-- An input with the outpoint.
abbrev pub Spent : List TxIn → Outpoint → Type 0
Spent is outpoint =
    (before : List TxIn) × (i : TxIn) × (after : List TxIn) × (is ≡ before ++ i ∷ after)
    × (i.prev_output ≡ outpoint)

pub spends→spent : (is : List TxIn) (o : Outpoint) → spends is o ≡ true → Spent is o
unfolding spends
spends→spent [] o h = absurd cc
spends→spent (i ∷ is) o h = elim (Bool-cases (eq_outpoint i.prev_output o)) [
  | inl here ↦ ([], i, is, refl, (eq_outpoint_iff i.prev_output o).0 here)
  | inr other ↦
      let rest : spends is o ≡ true = rw other at h in
      let (before, j, after, split, same) = spends→spent is o rest in
      (i ∷ before, j, after, ap (◌∷◌ i) split, same)
]

spends_at :
    (before : List TxIn) (i : TxIn) (after : List TxIn)
    → spends (before ++ i ∷ after) i.prev_output ≡ true
unfolding spends
spends_at [] i after = rw ((eq_outpoint_iff i.prev_output i.prev_output).1 refl) refl
spends_at (b ∷ bs) i after = rw (spends_at bs i after) (ground arith)

pub spent→spends : (is : List TxIn) (o : Outpoint) → Spent is o → spends is o ≡ true
spent→spends is o (before, i, after, split, same) = rw (split, ← same) (spends_at before i after)

pub eq_method_iff : (a b : Method) → (eq_method a b ≡ true) ↔ (a ≡ b)
unfolding eq_method
eq_method_iff opret_first opret_first = (λ h. refl, λ h. refl)
eq_method_iff opret_first tapret_first = (λ h. absurd cc, λ h. absurd cc)
eq_method_iff tapret_first opret_first = (λ h. absurd cc, λ h. absurd cc)
eq_method_iff tapret_first tapret_first = (λ h. refl, λ h. refl)

module _ (seals : TxoSeal) (proofs : DbcProof) where
  -- The seal knows its transaction, and the witness transaction spends its output.
  abbrev pub Closes : Witness proofs.Proof → seals.Seal → Type 0
  Closes w seal =
      (outpoint : Outpoint) × (seals.outpoint seal ≡ some outpoint) × Spent w.tx.inputs outpoint

  pub closes→Closes :
      (w : Witness proofs.Proof) (seal : seals.Seal)
      → closes seals proofs w seal ≡ ok tt
      → Closes w seal
  unfolding closes
  closes→Closes w seal e = elim (Option-cases (seals.outpoint seal)) [
    | inl missing ↦ absurd (let r = rw missing at e in cc)
    | inr (o, known) ↦ elim (Bool-cases (spends w.tx.inputs o)) [
      | inl spent ↦ (o, known, spends→spent w.tx.inputs o spent)
      | inr unspent ↦ absurd (let r = rw (known, unspent) at e in cc)
    ]
  ]

  pub Closes→closes :
      (w : Witness proofs.Proof) (seal : seals.Seal)
      → Closes w seal
      → closes seals proofs w seal ≡ ok tt
  unfolding closes
  Closes→closes w seal (o, known, spent) = rw (known, spent→spends w.tx.inputs o spent) refl
