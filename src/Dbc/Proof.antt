-- ===== src/Dbc/Proof.antt =====
-- dbc/src/proof.rs: the trait of proofs, and the two methods.
use bp_core.Base.{Bool, true, false}
use bp_core.Base.Result.{Result}
use bp_core.Dbc.{Commitment}
use bp_core.Tx.{Tx}

pub data Method : Type 0 where
  opret_first tapret_first : Method

-- `==` on methods.
unfoldable pub eq_method : Method → Method → Bool
eq_method opret_first opret_first = true
eq_method opret_first tapret_first = false
eq_method tapret_first opret_first = false
eq_method tapret_first tapret_first = true

-- The trait `Proof`, with the `==` of its types.
pub record DbcProof : Type 1 where
  pub Proof : Type 0
  pub Error : Type 0
  pub method : Method
  pub eq_proof : Proof → Proof → Bool
  pub verify : Proof → Commitment → Tx → Result Error Unit
