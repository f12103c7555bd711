-- ===== src/Dbc/Outputs.antt =====
-- The first output of a transaction whose script passes a test, where dbc/src puts a commitment.
use bp_core.Base.{
  ◌≡◌, refl, ap, Bool, true, false, ◌⊎◌, inl, inr, List, [], ◌∷◌, ◌++◌, All, map, Bytes, Bool-cases,
  Option, none, some, if◌then◌else◌,
}
use bp_core.Tx.{TxOut}

-- An output with another script.
abbrev pub with_script : Bytes → TxOut → TxOut
with_script s o = record o { script_pubkey = s }

-- A new script leaves the amounts alone.
pub values-with_script :
    (before : List TxOut) (o : TxOut) (after : List TxOut) (s : Bytes)
    → map (λ o'. o'.value) (before ++ with_script s o ∷ after)
      ≡ map (λ o'. o'.value) (before ++ o ∷ after)
values-with_script [] o after s = refl
values-with_script (b ∷ bs) o after s = ap (◌∷◌ b.value) (values-with_script bs o after s)

module _ (test : Bytes → Bool) where
  -- The script of the first output that passes the test.
  unfoldable pub first_script : List TxOut → Option Bytes
  first_script [] = none
  first_script (o ∷ os) = if test o.script_pubkey then some o.script_pubkey else first_script os

  -- No output passes the test.
  abbrev pub Without : List TxOut → Type 0
  Without os = All (λ o. test o.script_pubkey ≡ false) os

  -- The outputs around the first one that passes the test.
  pub record Leading (os : List TxOut) : Type 0 where
    pub before : List TxOut
    pub output : TxOut
    pub after : List TxOut
    pub split : os ≡ before ++ output ∷ after
    pub skipped : Without before
    pub found : test output.script_pubkey ≡ true

  later :
      (o : TxOut) (os : List TxOut) → test o.script_pubkey ≡ false → Leading os → Leading (o ∷ os)
  later o os missed first = record {
    before = o ∷ first.before;
    output = first.output;
    after = first.after;
    split = ap (◌∷◌ o) first.split;
    skipped = (missed, first.skipped);
    found = first.found;
  }

  -- Either no output passes the test, or there is a first one that does.
  pub first_output : (os : List TxOut) → Without os ⊎ Leading os
  first_output [] = inl tt
  first_output (o ∷ os) = elim (Bool-cases (test o.script_pubkey)) [
    | inl yes' ↦
        inr
          (record { before = []; output = o; after = os; split = refl; skipped = tt; found = yes' })
    | inr no' ↦ elim (first_output os) [
      | inl none' ↦ inl (no', none')
      | inr first ↦ inr (later o os no' first)
    ]
  ]

  pub first_script_none : (os : List TxOut) → Without os → first_script os ≡ none
  unfolding first_script
  first_script_none [] w = refl
  first_script_none (o ∷ os) (w, ws) = rw w (first_script_none os ws)

  pub first_script_at :
      (before : List TxOut) (o : TxOut) (after : List TxOut)
      → Without before
      → test o.script_pubkey ≡ true
      → first_script (before ++ o ∷ after) ≡ some o.script_pubkey
  unfolding first_script
  first_script_at [] o after w h = rw h
  first_script_at (b ∷ bs) o after (w, ws) h = rw w (first_script_at bs o after ws h)
