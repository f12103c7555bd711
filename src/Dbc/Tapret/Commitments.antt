-- ===== src/Dbc/Tapret/Commitments.antt =====
-- dbc/src/tapret/tapscript.rs: the script of a commitment, byte for byte, and that a partner in the
-- tree with such a script is refused.
use bp_core.Base.{
  ℕ, zero, suc, ◌+◌, ◌≤◌, ◌≡◌, refl, arith, [], ◌∷◌, ◌++◌, replicate, length, length-append, some,
  Bytes, append_assoc, append-nil, eq_bytes_refl, false,
}
use bp_core.Codec.{Confine, u32_max}
use bp_core.Codec.Array.{IsConfine}
use bp_core.Dbc.Tapret.{
  TapretCommitment, right_leaf, tapret_script_commitment_prefix, check_no_commitment, push_reserved,
  commit,
}
use bp_core.Script.Slices.{push_fits}
use bp_core.Script.Standard.{short_slice}
use bp_core.Taproot.LeafVer.{LeafVer}
use bp_core.Taproot.OutputKey.{push_tap_code, tap_code_u8}

-- The strict encoding writes the fields of a record one after another, a number below 256 as a byte.
pub record IsStrict (strict_write : TapretCommitment → Bytes) : Type 0 where
  pub layout : (c : TapretCommitment) → strict_write c ≡ c.mpc ++ c.nonce ∷ []

-- The bytes of the script of a commitment.
abbrev pub commitment_script : TapretCommitment → Bytes
commitment_script c = tapret_script_commitment_prefix ++ (c.mpc ++ c.nonce ∷ [])

pub commitment_script_size :
    (c : TapretCommitment) → length c.mpc ≡ 32 → length (commitment_script c) ≡ 64
commitment_script_size c e = rw (length-append c.mpc (c.nonce ∷ []), e) refl

module _ {E : Type 0} {confine : Confine E} (k : IsConfine confine) where
  push_reserved_fits :
      (strict_write : TapretCommitment → Bytes) (n : ℕ) (s : Bytes)
      → length s + n ≤ u32_max
      → push_reserved confine strict_write n s ≡ some (s ++ replicate n 0x50)
  unfolding push_reserved push_tap_code tap_code_u8
  push_reserved_fits strict_write zero s h = rw (append-nil s)
  push_reserved_fits strict_write (suc n) s h =
      let next : length (s ++ 0x50 ∷ []) + n ≤ u32_max =
        rw (length-append s (0x50 ∷ [])) (omega arith) in
      rw (
        push_fits k 0x50 s (omega arith),
        push_reserved_fits strict_write n (s ++ 0x50 ∷ []) next,
        append_assoc,
      )

  -- The script of a commitment to 32 bytes is the prefix of 31 bytes, the message and the nonce,
  -- 64 bytes in all, and building it does not panic.
  pub commit_lem :
      (strict_write : TapretCommitment → Bytes)
      → IsStrict strict_write
      → (c : TapretCommitment) → length c.mpc ≡ 32
      → (commit confine strict_write c ≡ some (commitment_script c))
        × (length (commitment_script c) ≡ 64)
  unfolding commit push_tap_code tap_code_u8
  commit_lem strict_write strict c e =
      let size : length (c.mpc ++ c.nonce ∷ []) ≡ 33 =
        rw (length-append c.mpc (c.nonce ∷ []), e) refl in
      (
        rw (
          push_reserved_fits strict_write 29 [] (omega arith),
          push_fits k 0x6a (replicate 29 0x50) (omega arith),
          strict.layout c,
          size,
          short_slice k (c.mpc ++ c.nonce ∷ []) (replicate 29 0x50 ++ 0x6a ∷ []) 33 size
              (omega arith) (omega arith),
        ),
        commitment_script_size c e,
      )

-- A leaf of the tree with the script of a commitment is not accepted next to another commitment.
pub check_no_commitment_leaf :
    (version : LeafVer) (c : TapretCommitment)
    → length c.mpc ≡ 32
    → check_no_commitment (right_leaf (record { version = version; script = commitment_script c }))
      ≡ false
unfolding check_no_commitment
check_no_commitment_leaf version c e =
    rw (commitment_script_size c e, eq_bytes_refl tapret_script_commitment_prefix)
