-- ===== src/Dbc/Schemes.antt =====
-- dbc/src: what the two commitment methods promise, as an interface. A scheme puts a message into a
-- transaction and gives a proof, and can take the transaction back with the proof.
use bp_core.Base.{◌≡◌, map, length, Option, some}
use bp_core.Dbc.{Commitment}
use bp_core.Tx.{Tx}

pub record Scheme : Type 1 where
  -- What a commitment needs beside the message, and how it stands in a proof.
  pub Supplement : Type 0
  pub Proof : Type 0
  pub supplement : Proof → Supplement
  -- The transactions that a commitment with the supplement is meant for.
  pub Fits : Supplement → Tx → Type 0
  pub commit : Supplement → Commitment → Tx → Option (Tx × Proof)
  pub restore : Proof → Tx → Option Tx

-- Two transactions spend the same inputs and pay the same amounts, output by output.
unfoldable pub SamePayments : Tx → Tx → Type 0
SamePayments tx tx' =
    (tx.version ≡ tx'.version)
    × (tx.inputs ≡ tx'.inputs)
    × (tx.lock_time ≡ tx'.lock_time)
    × (map (λ o. o.value) tx.outputs ≡ map (λ o. o.value) tx'.outputs)

pub record IsScheme (s : Scheme) : Type 0 where
  pub restores :
      (supplement : s.Supplement) (proof : s.Proof) (msg : Commitment) (tx tx' : Tx)
      → length msg ≡ 32
      → s.Fits supplement tx
      → s.commit supplement msg tx ≡ some (tx', proof)
      → (s.restore proof tx' ≡ some tx) × (s.supplement proof ≡ supplement)
  pub keeps :
      (supplement : s.Supplement) (proof : s.Proof) (msg : Commitment) (tx tx' : Tx)
      → length msg ≡ 32
      → s.commit supplement msg tx ≡ some (tx', proof)
      → SamePayments tx tx'

-- What the verification of a proof requires: with the message committed again, the restored
-- transaction gives the transaction and the proof.
unfoldable pub Accepts : (s : Scheme) → s.Proof → Commitment → Tx → Type 0
Accepts s proof msg tx =
    (original : Tx) × (s.restore proof tx ≡ some original)
    × (s.commit (s.supplement proof) msg original ≡ some (tx, proof))

-- A commitment is accepted with its proof.
pub Accepts-commit :
    {s : Scheme} (laws : IsScheme s) (supplement : s.Supplement) (proof : s.Proof)
    (msg : Commitment) (tx tx' : Tx)
    → length msg ≡ 32
    → s.Fits supplement tx
    → s.commit supplement msg tx ≡ some (tx', proof)
    → Accepts s proof msg tx'
unfolding Accepts
Accepts-commit laws supplement proof msg tx tx' size fits e =
    let (back, same) = laws.restores supplement proof msg tx tx' size fits e in
    (tx, back, rw same e)
