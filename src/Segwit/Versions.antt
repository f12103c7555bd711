-- ===== src/Segwit/Versions.antt =====
-- consensus/src/segwit.rs: the conversions of witness versions.
use bp_core.Base.{ℕ, ◌+◌, ◌<◌, ◌≤◌, ◌≡◌, ◌⊎◌, inl, inr, refl, arith, some, none}
use bp_core.Script.OpCodes.{OpCode, push_bytes0, push_num1}
use bp_core.Segwit.{
  WitnessVer, ok, err, invalid_witness_version, version_no, from_version_no, op_code, from_op_code,
  v0, v1, v2, v3, v4, v5, v6, v7, v8, v9, v10, v11, v12, v13, v14, v15, v16,
}

-- The number of a version reads back as that version, and a number above 16 is refused with itself.
pub from_version_no_lem :
    (v : WitnessVer) (n : ℕ)
    → (from_version_no (version_no v) ≡ ok v)
      × (from_version_no (n + 17) ≡ err (invalid_witness_version (n + 17)))
unfolding from_version_no
from_version_no_lem v n = (go v, ground arith)
  where
    go : (v : WitnessVer) → from_version_no (version_no v) ≡ ok v
    go v0 = refl
    go v1 = refl
    go v2 = refl
    go v3 = refl
    go v4 = refl
    go v5 = refl
    go v6 = refl
    go v7 = refl
    go v8 = refl
    go v9 = refl
    go v10 = refl
    go v11 = refl
    go v12 = refl
    go v13 = refl
    go v14 = refl
    go v15 = refl
    go v16 = refl

-- The versions 0 and 1 have an opcode, from which they are read back; for every version above 1
-- the conversion to an opcode panics, as the enum OpCode lacks OP_PUSHNUM_2 to OP_PUSHNUM_16.
pub op_code_lem :
    (v : WitnessVer)
    → ((version_no v ≤ 1) × (c : OpCode) × (op_code v ≡ some c) × (from_op_code c ≡ ok v))
      ⊎ ((1 < version_no v) × (op_code v ≡ none))
unfolding version_no op_code from_op_code
op_code_lem v0 = inl (omega arith, push_bytes0, refl, refl)
op_code_lem v1 = inl (omega arith, push_num1, refl, refl)
op_code_lem v2 = inr (omega arith, refl)
op_code_lem v3 = inr (omega arith, refl)
op_code_lem v4 = inr (omega arith, refl)
op_code_lem v5 = inr (omega arith, refl)
op_code_lem v6 = inr (omega arith, refl)
op_code_lem v7 = inr (omega arith, refl)
op_code_lem v8 = inr (omega arith, refl)
op_code_lem v9 = inr (omega arith, refl)
op_code_lem v10 = inr (omega arith, refl)
op_code_lem v11 = inr (omega arith, refl)
op_code_lem v12 = inr (omega arith, refl)
op_code_lem v13 = inr (omega arith, refl)
op_code_lem v14 = inr (omega arith, refl)
op_code_lem v15 = inr (omega arith, refl)
op_code_lem v16 = inr (omega arith, refl)
