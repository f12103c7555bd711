-- ===== src/Text/Joins.antt =====
-- The inverse of cutting a text at every separator: texts joined by separators.
use bp_core.Base.{
  ℕ, ◌≡◌, refl, sym, ap, Option, none, some, ◌==◌, ==_iff, Bool, true, false, List, [], ◌∷◌, ◌++◌,
  All, Bool-cases, inl, inr,
}
use bp_core.Base.Result.{some-injective}
use bp_core.Text.{Text, split, split_cons, once_cons, split_once}
use bp_core.Text.Splits.{split_at, split_none}

module _ (sep : ℕ → Bool) where
  -- No character of the text is a separator.
  abbrev pub Uncut : Text → Type 0
  Uncut s = All (λ c. sep c ≡ false) s

  -- The text is these parts with one separator, whichever it is, between each two of them.
  abbrev pub IsJoin : List Text → Text → Type 0
  IsJoin [] s = ⊥
  IsJoin (p ∷ []) s = (s ≡ p) × Uncut p
  IsJoin (p ∷ q ∷ ps) s =
      (m : ℕ) × (t : Text) × (s ≡ p ++ m ∷ t) × (sep m ≡ true) × Uncut p × IsJoin (q ∷ ps) t

  IsJoin-mark :
      (parts : List Text) (c : ℕ) (s : Text)
      → sep c ≡ true
      → IsJoin parts s
      → IsJoin ([] ∷ parts) (c ∷ s)
  IsJoin-mark [] c s e j = absurd j
  IsJoin-mark (p ∷ ps) c s e j = (c, s, refl, e, tt, j)

  IsJoin-split_cons :
      (parts : List Text) (c : ℕ) (s : Text)
      → sep c ≡ false
      → IsJoin parts s
      → IsJoin (split_cons c parts) (c ∷ s)
  unfolding split_cons
  IsJoin-split_cons [] c s e j = absurd j
  IsJoin-split_cons (p ∷ []) c s e (same, h) = (ap (λ t. c ∷ t) same, (e, h))
  IsJoin-split_cons (p ∷ q ∷ ps) c s e (m, t, same, mark, h, j) =
      (m, t, ap (λ t. c ∷ t) same, mark, (e, h), j)

  pub IsJoin-split : (s : Text) → IsJoin (split sep s) s
  unfolding split
  IsJoin-split [] = (refl, tt)
  IsJoin-split (c ∷ cs) = elim (Bool-cases (sep c)) [
    | inl mark ↦ rw mark (IsJoin-mark (split sep cs) c cs mark (IsJoin-split cs))
    | inr other ↦ rw other (IsJoin-split_cons (split sep cs) c cs other (IsJoin-split cs))
  ]

  pub split-IsJoin : (parts : List Text) (s : Text) → IsJoin parts s → split sep s ≡ parts
  split-IsJoin [] s j = absurd j
  split-IsJoin (p ∷ []) s (same, h) = rw same (split_none sep p h)
  split-IsJoin (p ∷ q ∷ ps) s (m, t, same, mark, h, j) =
      rw (same, split_at sep p t m h mark, split-IsJoin (q ∷ ps) t j) refl

-- The first part of a text and what follows a separator.
abbrev pub IsCutOnce : ℕ → Text → Text → Text → Type 0
IsCutOnce m s a b = (s ≡ a ++ m ∷ b) × All (λ c. (c == m) ≡ false) a

once_cons_inv :
    (c : ℕ) (o : Option (Text × Text)) (a b : Text)
    → once_cons c o ≡ some (a, b)
    → (a' : Text) × (o ≡ some (a', b)) × (a ≡ c ∷ a')
unfolding once_cons
once_cons_inv c none a b e = absurd cc
once_cons_inv c (some (a', b')) a b e =
    let same : (c ∷ a', b') ≡ (a, b) = some-injective _ _ e in
    (a', ap (λ p. some (a', p.1)) same, sym (ap (λ p. p.0) same))

pub split_once_inv : (m : ℕ) (s a b : Text) → split_once m s ≡ some (a, b) → IsCutOnce m s a b
unfolding split_once
split_once_inv m [] a b e = absurd cc
split_once_inv m (c ∷ cs) a b e = elim (Bool-cases (c == m)) [
  | inl found ↦
      let same : ([], cs) ≡ (a, b) = some-injective _ _ (rw found at e) in
      let first : [] ≡ a = ap (λ p. p.0) same in
      let rest : cs ≡ b = ap (λ p. p.1) same in
      rw (← first, ← rest, (==_iff c m).0 found) (refl, tt)
  | inr other ↦
      let (a', e', first) = once_cons_inv c (split_once m cs) a b (rw other at e) in
      let (same, h) = split_once_inv m cs a' b e' in rw first (ap (λ t. c ∷ t) same, (other, h))
]
