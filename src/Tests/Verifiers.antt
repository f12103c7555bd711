-- ===== src/Tests/Verifiers.antt =====
-- The verification of a commitment, as commit_verify documents it: the transaction is restored, the
-- message committed again, and what comes back compared.
use native.Mathlib.Decide.{ℕ_discrete}
use bp_core.Base.{ℕ, ◌≡◌, ◌↔◌, refl, ap, Option, none, some}
use bp_core.Base.Result.{Result, ok, err, some-injective}
use bp_core.Dbc.{Commitment}
use bp_core.Dbc.Opret.{OpretProof}
use bp_core.Dbc.Schemes.{Scheme, Accepts}
use bp_core.Dbc.Tapret.{TapretProof}
use bp_core.Tx.{Tx}

Tx-discrete : Discrete Tx
Tx-discrete = hlevel ℕ_discrete

pub OpretProof-discrete : Discrete OpretProof
OpretProof-discrete = hlevel

pub TapretProof-discrete : Discrete TapretProof
TapretProof-discrete = hlevel ℕ_discrete

agree : {P Q : Type 0} → Dec P → Dec Q → Result ℕ Unit
agree (no p) q = err 2
agree (yes p) (no q) = err 3
agree (yes p) (yes q) = ok tt

agree_iff : {P Q : Type 0} (p : Dec P) (q : Dec Q) → (agree p q ≡ ok tt) ↔ (P × Q)
unfolding agree
agree_iff (no p) q = (λ e. absurd cc, λ (a, b). absurd (p a))
agree_iff (yes p) (no q) = (λ e. absurd cc, λ (a, b). absurd (q b))
agree_iff (yes p) (yes q) = (λ e. (p, q), λ both. refl)

module _ (s : Scheme) (same_proof : Discrete s.Proof) where
  compared : s.Proof → Tx → Option (Tx × s.Proof) → Result ℕ Unit
  compared proof tx none = err 1
  compared proof tx (some (tx', proof')) = agree (Tx-discrete tx' tx) (same_proof proof' proof)

  committed_again : s.Proof → Commitment → Tx → Option Tx → Result ℕ Unit
  committed_again proof msg tx none = err 0
  committed_again proof msg tx (some original) =
      compared proof tx (s.commit (s.supplement proof) msg original)

  pub recommit : s.Proof → Commitment → Tx → Result ℕ Unit
  recommit proof msg tx = committed_again proof msg tx (s.restore proof tx)

  compared_iff :
      (proof : s.Proof) (tx : Tx) (o : Option (Tx × s.Proof))
      → (compared proof tx o ≡ ok tt) ↔ (o ≡ some (tx, proof))
  unfolding compared
  compared_iff proof tx none = (λ e. absurd cc, λ e. absurd cc)
  compared_iff proof tx (some (tx', proof')) =
      let both = agree_iff (Tx-discrete tx' tx) (same_proof proof' proof) in
      (
        λ e. let (p, q) = both.0 e in rw (p, q) refl,
        λ e. let same = some-injective _ _ e in both.1 (ap (λ r. r.0) same, ap (λ r. r.1) same),
      )

  again_iff :
      (proof : s.Proof) (msg : Commitment) (tx : Tx) (o : Option Tx)
      → (committed_again proof msg tx o ≡ ok tt) ↔ (
          (original : Tx) × (o ≡ some original)
          × (s.commit (s.supplement proof) msg original ≡ some (tx, proof)))
  unfolding committed_again
  again_iff proof msg tx none = (λ e. absurd cc, λ (original, e, done). absurd cc)
  again_iff proof msg tx (some original) =
      let whole = compared_iff proof tx (s.commit (s.supplement proof) msg original) in
      (
        λ e. (original, refl, whole.0 e),
        λ (other, e, done). whole.1 (rw (some-injective _ _ e) done),
      )

  pub recommit_iff :
      (proof : s.Proof) (msg : Commitment) (tx : Tx)
      → (recommit proof msg tx ≡ ok tt) ↔ Accepts s proof msg tx
  unfolding recommit Accepts
  recommit_iff proof msg tx = again_iff proof msg tx (s.restore proof tx)
