-- ===== src/Seals/Witness/Batches.antt =====
-- seals/src/txout/witness.rs: what the verification of one seal and of many seals requires.
use bp_core.Base.{
  ◌≡◌, ◌↔◌, inl, inr, refl, sym, false, List, [], ◌∷◌, All, none, some, Bool-cases, arith,
}
use bp_core.Base.Result.{Result, ok, err, panic, try, map_err}
use bp_core.Dbc.{Commitment}
use bp_core.Dbc.Proof.{Method, opret_first, DbcProof}
use bp_core.Seals.{TxoSeal}
use bp_core.Seals.Witness.{
  dbc, Witness, closes, verify_dbc, verify_seal, differs, remembered, close_all, verify_many_seals,
}
use bp_core.Seals.Witness.Closing.{Closes, closes→Closes, Closes→closes, eq_method_iff}

-- Both of two calls return without an error where one after the other does.
try_iff :
    {E : Type 0} (r s : Result E Unit) → (try r (λ u. s) ≡ ok tt) ↔ ((r ≡ ok tt) × (s ≡ ok tt))
try_iff (ok tt) s = (λ e. (refl, e), λ (r, e). e)
try_iff (err e') s = (λ e. absurd cc, λ (r, e). absurd cc)
try_iff panic s = (λ e. absurd cc, λ (r, e). absurd cc)

map_err_iff : {E F : Type 0} (f : E → F) (r : Result E Unit) → (map_err f r ≡ ok tt) ↔ (r ≡ ok tt)
map_err_iff f (ok tt) = (λ e. refl, λ e. refl)
map_err_iff f (err e') = (λ e. absurd cc, λ e. absurd cc)
map_err_iff f panic = (λ e. absurd cc, λ e. absurd cc)

module _ (seals : TxoSeal) (proofs : DbcProof) where
  -- The seals that follow one of a method.
  unfoldable pub Followers : Witness proofs.Proof → Method → List seals.Seal → Type 0
  Followers w m many = All (λ seal. seals.method seal ≡ m) many × All (Closes seals proofs w) many

  pub agrees :
      (m : Method) (seal : seals.Seal)
      → differs seals proofs (some m) (seals.method seal) ≡ false
      → seals.method seal ≡ m
  unfolding differs
  agrees m seal h = sym ((eq_method_iff m (seals.method seal)).0 (ground (arith, h)))

  pub agrees' :
      (m : Method) (seal : seals.Seal)
      → seals.method seal ≡ m
      → differs seals proofs (some m) (seals.method seal) ≡ false
  unfolding differs
  agrees' m seal e = rw ((eq_method_iff m (seals.method seal)).1 (sym e)) refl

  followers→ :
      (w : Witness proofs.Proof) (m : Method) (many : List seals.Seal)
      → close_all seals proofs w (some m) many ≡ ok tt
      → Followers w m many
  unfolding close_all remembered Followers
  followers→ w m [] e = (tt, tt)
  followers→ w m (seal ∷ rest) e =
      elim (Bool-cases (differs seals proofs (some m) (seals.method seal))) [
        | inl other ↦ absurd (let r = rw other at e in cc)
        | inr same ↦
            let (here, later) = (try_iff (closes seals proofs w seal) _).0 (rw same at e) in
            let (methods, all) = followers→ w m rest later in
            ((agrees m seal same, methods), (closes→Closes seals proofs w seal here, all))
      ]

  followers← :
      (w : Witness proofs.Proof) (m : Method) (many : List seals.Seal)
      → Followers w m many
      → close_all seals proofs w (some m) many ≡ ok tt
  unfolding close_all remembered Followers
  followers← w m [] h = refl
  followers← w m (seal ∷ rest) ((same, methods), (here, all)) =
      rw
        (
          agrees' m seal same,
          Closes→closes seals proofs w seal here,
          followers← w m rest (methods, all),
        )
        refl

  -- The seals have one method, and the witness transaction spends the output of each.
  unfoldable pub Batch : Witness proofs.Proof → List seals.Seal → Type 0
  Batch w many =
      ((m : Method) × All (λ seal. seals.method seal ≡ m) many) × All (Closes seals proofs w) many

  batch→ :
      (w : Witness proofs.Proof) (many : List seals.Seal)
      → close_all seals proofs w none many ≡ ok tt
      → Batch w many
  unfolding close_all remembered differs Batch Followers
  batch→ w [] e = ((opret_first, tt), tt)
  batch→ w (seal ∷ rest) e =
      let (here, later) = (try_iff (closes seals proofs w seal) _).0 e in
      let (methods, all) = followers→ w (seals.method seal) rest later in
      ((seals.method seal, (refl, methods)), (closes→Closes seals proofs w seal here, all))

  batch← :
      (w : Witness proofs.Proof) (many : List seals.Seal)
      → Batch w many
      → close_all seals proofs w none many ≡ ok tt
  unfolding close_all remembered differs Batch Followers
  batch← w [] h = refl
  batch← w (seal ∷ rest) ((m, (same, methods)), (here, all)) =
      let later = followers← w m rest (methods, all) in
      rw (Closes→closes seals proofs w seal here, same, later) refl

  -- Seals verify together exactly if all have one method, the witness transaction spends the known
  -- output of each, and the commitment proof verifies.
  pub verify_many_seals_iff :
      (w : Witness proofs.Proof) (many : List seals.Seal) (msg : Commitment)
      → (verify_many_seals seals proofs w many msg ≡ ok tt)
        ↔ (Batch w many × (proofs.verify w.proof msg w.tx ≡ ok tt))
  unfolding verify_many_seals verify_dbc
  verify_many_seals_iff w many msg =
      let both = try_iff (close_all seals proofs w none many) (verify_dbc seals proofs w msg) in
      let proof = map_err_iff dbc (proofs.verify w.proof msg w.tx) in
      (
        λ e. let (closed, verified) = both.0 e in (batch→ w many closed, proof.0 verified),
        λ (batch, verified). both.1 (batch← w many batch, proof.1 verified),
      )

  assoc : {F : Type 0} (r s : Result F Unit) → try (try r (λ u. ok tt)) (λ u. s) ≡ try r (λ u. s)
  assoc (ok tt) s = refl
  assoc (err e) s = refl
  assoc panic s = refl

  -- One seal alone verifies as it does in a batch, with the same error if not.
  pub verify_many_seals-one :
      (w : Witness proofs.Proof) (seal : seals.Seal) (msg : Commitment)
      → verify_many_seals seals proofs w (seal ∷ []) msg ≡ verify_seal seals proofs w seal msg
  unfolding verify_many_seals verify_seal close_all differs
  verify_many_seals-one w seal msg =
      assoc (closes seals proofs w seal) (verify_dbc seals proofs w msg)

  -- Two seals with one outpoint verify alike, whatever their methods and the method of the proof.
  pub verify_seal_method :
      (w : Witness proofs.Proof) (seal other : seals.Seal) (msg : Commitment)
      → seals.outpoint seal ≡ seals.outpoint other
      → verify_seal seals proofs w seal msg ≡ verify_seal seals proofs w other msg
  unfolding verify_seal closes
  verify_seal_method w seal other msg e = rw e refl
