-- ===== src/Seals/Witness.antt =====
-- seals/src/txout/witness.rs: the verification of seals.
pub mod Closing
pub mod Batches
pub mod Faults
use bp_core.Base.{
  ◌≡◌, ◌≢◌, ◌↔◌, ◌⊎◌, inl, inr, refl, sym, ap, ◌∙◌, Bool, true, false, not, if◌then◌else◌, List, [],
  ◌∷◌, All, Option, none, some, Bytes, Bool-cases, Option-cases, arith,
}
use bp_core.Base.Result.{Result, ok, err, panic, try, map_err, ok_or, ok-injective}
use bp_core.Dbc.{Commitment}
use bp_core.Dbc.Proof.{Method, opret_first, tapret_first, eq_method, DbcProof}
use bp_core.Seals.{TxoSeal, spends}
use bp_core.Tx.{Tx, Txid, Outpoint}
use bp_core.Tx.Ids.{txid}

pub data VerifyError (E : Type 0) : Type 0 where
  inconsistent_close_method : VerifyError E
  witness_not_closing_seal : Outpoint → VerifyError E
  no_witness_txid : VerifyError E
  dbc : E → VerifyError E

pub record Witness (D : Type 0) : Type 0 where
  pub tx : Tx
  pub txid : Txid
  pub proof : D

-- `Witness::with`
unfoldable pub witness_with : {D : Type 0} → (Bytes → Bytes) → Tx → D → Witness D
witness_with sha256 tx proof = record { tx = tx; txid = txid sha256 tx; proof = proof }

module _ (seals : TxoSeal) (proofs : DbcProof) where
  -- The seal must match an input of the transaction.
  unfoldable pub closes : Witness proofs.Proof → seals.Seal → Result (VerifyError proofs.Error) Unit
  closes w seal = try (ok_or no_witness_txid (seals.outpoint seal)) (λ outpoint.
      if not (spends w.tx.inputs outpoint) then err (witness_not_closing_seal outpoint) else ok tt)

  unfoldable pub verify_dbc :
      Witness proofs.Proof → Commitment → Result (VerifyError proofs.Error) Unit
  verify_dbc w msg = map_err dbc (proofs.verify w.proof msg w.tx)

  unfoldable pub verify_seal :
      Witness proofs.Proof → seals.Seal → Commitment → Result (VerifyError proofs.Error) Unit
  unfolding closes verify_dbc
  verify_seal w seal msg = try (closes w seal) (λ closed. verify_dbc w msg)

  -- Whether the method of a seal differs from that of the seals before it.
  unfoldable pub differs : Option Method → Method → Bool
  unfolding eq_method
  differs none method = false
  differs (some first) method = not (eq_method first method)

  -- The method that the loop remembers after a seal.
  unfoldable pub remembered : Option Method → Method → Option Method
  remembered none method = some method
  remembered (some first) method = some first

  -- The loop of `verify_many_seals`.
  unfoldable pub close_all :
      Witness proofs.Proof
      → Option Method
      → List seals.Seal
      → Result (VerifyError proofs.Error) Unit
  unfolding closes differs remembered
  close_all w method [] = ok tt
  close_all w method (seal ∷ rest) =
      let later = close_all w (remembered method (seals.method seal)) rest in
      if differs method (seals.method seal)
      then err inconsistent_close_method
      else try (closes w seal) (λ closed. later)

  unfoldable pub verify_many_seals :
      Witness proofs.Proof → List seals.Seal → Commitment → Result (VerifyError proofs.Error) Unit
  unfolding close_all verify_dbc
  verify_many_seals w many msg = try (close_all w none many) (λ closed. verify_dbc w msg)
