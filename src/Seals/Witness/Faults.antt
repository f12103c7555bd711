-- ===== src/Seals/Witness/Faults.antt =====
-- seals/src/txout/witness.rs: which error the verification of many seals gives, and for which seal.
use bp_core.Base.{
  ◌≡◌, ◌≢◌, ◌⊎◌, inl, inr, refl, sym, ap, List, [], ◌∷◌, ◌++◌, Option, none, some, Bool-cases,
  Option-cases,
}
use bp_core.Base.Result.{ok, err}
use bp_core.Dbc.{Commitment}
use bp_core.Dbc.Proof.{Method, opret_first, DbcProof}
use bp_core.Seals.{TxoSeal, spends}
use bp_core.Seals.Witness.{
  VerifyError, inconsistent_close_method, witness_not_closing_seal, no_witness_txid, Witness,
  closes, verify_dbc, differs, remembered, close_all, verify_many_seals,
}
use bp_core.Seals.Witness.Batches.{Batch, Followers, agrees, agrees'}
use bp_core.Seals.Witness.Closing.{Closes, Spent, spends→spent, spent→spends}
use bp_core.Tx.{Outpoint}

module _ (seals : TxoSeal) (proofs : DbcProof) where
  -- The method that the seals before have, if there are any.
  abbrev pub first_method : List seals.Seal → Option Method
  first_method [] = none
  first_method (seal ∷ rest) = some (seals.method seal)

  -- What is wrong with a seal that is not closed: its transaction is unknown, or its output is not
  -- spent.
  pub data Open (w : Witness proofs.Proof) (seal : seals.Seal)
      : VerifyError proofs.Error → Type 0 where
    unknown : seals.outpoint seal ≡ none → Open w seal no_witness_txid
    unspent :
        (o : Outpoint)
        → seals.outpoint seal ≡ some o
        → (Spent w.tx.inputs o → ⊥)
        → Open w seal (witness_not_closing_seal o)

  -- What is wrong with a seal behind others: its method differs from theirs, whether it is closed or
  -- not, or it has their method and is not closed.
  pub data Fault (w : Witness proofs.Proof) (before : Option Method) (seal : seals.Seal)
      : VerifyError proofs.Error → Type 0 where
    other_method :
        (m : Method)
        → before ≡ some m
        → seals.method seal ≢ m
        → Fault w before seal inconsistent_close_method
    open_seal :
        (e : VerifyError proofs.Error)
        → (before ≡ none) ⊎ (before ≡ some (seals.method seal))
        → Open w seal e
        → Fault w before seal e

  -- The seals split at the first that has a fault, with its error.
  abbrev pub FailsAt : Witness proofs.Proof → List seals.Seal → VerifyError proofs.Error → Type 0
  FailsAt w many e =
      (good : List seals.Seal) × (bad : seals.Seal) × (rest : List seals.Seal) × (many
        ≡ good ++ bad ∷ rest)
      × Batch seals proofs w good
      × Fault w (first_method good) bad e

  closes_cases :
      (w : Witness proofs.Proof) (seal : seals.Seal)
      → (Closes seals proofs w seal × (closes seals proofs w seal ≡ ok tt))
        ⊎ ((e : VerifyError proofs.Error) × Open w seal e × (closes seals proofs w seal ≡ err e))
  unfolding closes
  closes_cases w seal = elim (Option-cases (seals.outpoint seal)) [
    | inl missing ↦ inr (no_witness_txid, unknown missing, rw missing refl)
    | inr (o, known) ↦ elim (Bool-cases (spends w.tx.inputs o)) [
      | inl spent ↦ inl ((o, known, spends→spent w.tx.inputs o spent), rw (known, spent) refl)
      | inr not_spent ↦ inr (
        witness_not_closing_seal o,
        unspent o known (λ s.
            let found = spent→spends w.tx.inputs o s in
            absurd (let r = rw not_spent at found in cc)),
        rw (known, not_spent) refl,
      )
    ]
  ]

  -- The seals behind one of the method `m`.
  Followers-cases :
      (w : Witness proofs.Proof) (m : Method) (many : List seals.Seal)
      → (Followers seals proofs w m many × (close_all seals proofs w (some m) many ≡ ok tt))
        ⊎ ((e : VerifyError proofs.Error) × (good : List seals.Seal) × (bad : seals.Seal)
            × (rest : List seals.Seal) × (many ≡ good ++ bad ∷ rest)
            × Followers seals proofs w m good
            × Fault w (some m) bad e
            × (close_all seals proofs w (some m) many ≡ err e))
  unfolding close_all remembered Followers
  Followers-cases w m [] = inl ((tt, tt), refl)
  Followers-cases w m (seal ∷ rest) =
      elim (Bool-cases (differs seals proofs (some m) (seals.method seal))) [
        | inl other ↦ inr (
          inconsistent_close_method,
          [],
          seal,
          rest,
          refl,
          (tt, tt),
          other_method m refl (λ same.
              let agree = agrees' seals proofs m seal same in
              absurd (let r = rw other at agree in cc)),
          rw other refl,
        )
        | inr same ↦ elim (closes_cases w seal) [
          | inl (here, closed) ↦ elim (Followers-cases w m rest) [
            | inl ((methods, all), later) ↦
                inl (
                  ((agrees seals proofs m seal same, methods), (here, all)),
                  rw (same, closed) later,
                )
            | inr (e, good, bad, rest', split, (methods, all), fault, later) ↦ inr (
              e,
              seal ∷ good,
              bad,
              rest',
              ap (λ ss. seal ∷ ss) split,
              ((agrees seals proofs m seal same, methods), (here, all)),
              fault,
              rw (same, closed) later,
            )
          ]
          | inr (e, fault, failed) ↦ inr (
            e,
            [],
            seal,
            rest,
            refl,
            (tt, tt),
            open_seal e (inr (ap some (sym (agrees seals proofs m seal same)))) fault,
            rw (same, failed) refl,
          )
        ]
      ]

  -- The verification of many seals ends in one of two ways: all have one method and are closed by
  -- the witness transaction, and the result is that of the commitment proof; or there is a first
  -- seal with a fault behind seals of one method that are closed, and the result is its error: a
  -- method that differs, an unknown transaction, or an output that is not spent, in this order.
  pub verify_many_seals_cases :
      (w : Witness proofs.Proof) (many : List seals.Seal) (msg : Commitment)
      → (Batch seals proofs w many
          × (verify_many_seals seals proofs w many msg ≡ verify_dbc seals proofs w msg))
        ⊎ ((e : VerifyError proofs.Error) × FailsAt w many e
            × (verify_many_seals seals proofs w many msg ≡ err e))
  unfolding verify_many_seals close_all remembered differs Followers Batch
  verify_many_seals_cases w [] msg = inl (((opret_first, tt), tt), refl)
  verify_many_seals_cases w (seal ∷ rest) msg = elim (closes_cases w seal) [
    | inl (here, closed) ↦ elim (Followers-cases w (seals.method seal) rest) [
      | inl ((methods, all), later) ↦
          inl (((seals.method seal, (refl, methods)), (here, all)), rw (closed, later) refl)
      | inr (e, good, bad, rest', split, (methods, all), fault, later) ↦ inr (
        e,
        (
          seal ∷ good,
          bad,
          rest',
          ap (λ ss. seal ∷ ss) split,
          ((seals.method seal, (refl, methods)), (here, all)),
          fault,
        ),
        rw (closed, later) refl,
      )
    ]
    | inr (e, fault, failed) ↦ inr (
      e,
      ([], seal, rest, refl, ((opret_first, tt), tt), open_seal e (inl refl) fault),
      rw failed refl,
    )
  ]
