-- ===== src/Script/Standard.antt =====
-- consensus/src/script.rs: the scripts that `p2pkh`, `p2sh` and `op_return` make.
use bp_core.Base.{
  get_after, ℕ, ◌+◌, ◌≤◌, ◌<◌, ◌≡◌, refl, arith, [], ◌∷◌, ◌++◌, length, Bytes, some, true,
  length-append, append_assoc,
}
use bp_core.Codec.{Confine, u32_max}
use bp_core.Codec.Array.{IsConfine}
use bp_core.Script.{
  push_opcode, push_slice, p2pkh, p2sh, op_return_script, is_p2pkh, is_p2sh, is_op_return,
  len_for_slice,
}
use bp_core.Script.OpCodes.{OpCode, to_u8, dup, hash160, equal_verify, check_sig, equal, return}
use bp_core.Script.Slices.{push_prefix, push_prefix_1, push_slice_lem, push_fits, len_for_slice_lem}

module _ {E : Type 0} {confine : Confine E} (k : IsConfine confine) where
  pub opcode_fits :
      (op_code : OpCode) (s : Bytes)
      → length s + 1 ≤ u32_max
      → push_opcode confine op_code s ≡ some (s ++ to_u8 op_code ∷ [])
  unfolding push_opcode
  opcode_fits op_code s h = push_fits k (to_u8 op_code) s h

  -- A short text is pushed as its length and itself.
  pub short_slice :
      (bytes s : Bytes) (n : ℕ)
      → length bytes ≡ n
      → n < 0x4c
      → length s + (1 + n) ≤ u32_max
      → push_slice confine bytes s ≡ some (s ++ n ∷ bytes)
  short_slice bytes s n e h room =
      let prefix = push_prefix_1 n h in
      let size : len_for_slice n ≡ 1 + n = rw (len_for_slice_lem n, prefix) refl in
      rw (push_slice_lem k bytes s (omega arith) (rw e (omega arith)), e, prefix)

  -- A hash of 20 bytes gives the 25 bytes of a P2PKH script, without a panic, and `is_p2pkh` holds
  -- of it.
  pub is_p2pkh-p2pkh :
      (hash : Bytes)
      → length hash ≡ 20
      → (p2pkh confine hash ≡ some (0x76 ∷ 0xa9 ∷ 20 ∷ (hash ++ 0x88 ∷ 0xac ∷ [])))
        × (is_p2pkh (0x76 ∷ 0xa9 ∷ 20 ∷ (hash ++ 0x88 ∷ 0xac ∷ [])) ≡ true)
  unfolding p2pkh is_p2pkh to_u8
  is_p2pkh-p2pkh hash e = (
    rw (
      opcode_fits dup [] (omega arith),
      opcode_fits hash160 (0x76 ∷ []) (omega arith),
      short_slice hash (0x76 ∷ 0xa9 ∷ []) 20 e (omega arith) (omega arith),
      opcode_fits equal_verify (0x76 ∷ 0xa9 ∷ 20 ∷ hash) (omega arith),
      opcode_fits check_sig (0x76 ∷ 0xa9 ∷ 20 ∷ (hash ++ 0x88 ∷ []))
          (rw (length-append hash (0x88 ∷ [])) (omega arith)),
      append_assoc,
    ),
    rw (
      length-append hash (0x88 ∷ 0xac ∷ []),
      e,
      get_after hash (0x88 ∷ 0xac ∷ []) 20 0 (omega arith),
      get_after hash (0x88 ∷ 0xac ∷ []) 21 1 (omega arith),
    ),
  )

  -- A hash of 20 bytes gives the 23 bytes of a P2SH script, without a panic, and `is_p2sh` holds of
  -- it.
  pub is_p2sh-p2sh :
      (hash : Bytes)
      → length hash ≡ 20
      → (p2sh confine hash ≡ some (0xa9 ∷ 20 ∷ (hash ++ 0x87 ∷ [])))
        × (is_p2sh (0xa9 ∷ 20 ∷ (hash ++ 0x87 ∷ [])) ≡ true)
  unfolding p2sh is_p2sh to_u8
  is_p2sh-p2sh hash e = (
    rw (
      opcode_fits hash160 [] (omega arith),
      short_slice hash (0xa9 ∷ []) 20 e (omega arith) (omega arith),
      opcode_fits equal (0xa9 ∷ 20 ∷ hash) (omega arith),
    ),
    rw (length-append hash (0x87 ∷ []), e, get_after hash (0x87 ∷ []) 20 0 (omega arith)),
  )

  -- Data that a script has room for gives OP_RETURN and its push, without a panic, and
  -- `is_op_return` holds of it.
  pub is_op_return-op_return :
      (bytes : Bytes)
      → 1 + len_for_slice (length bytes) ≤ u32_max
      → (op_return_script confine bytes ≡ some (0x6a ∷ (push_prefix (length bytes) ++ bytes)))
        × (is_op_return (0x6a ∷ (push_prefix (length bytes) ++ bytes)) ≡ true)
  unfolding op_return_script is_op_return to_u8
  is_op_return-op_return bytes room = (
    rw (
      opcode_fits return [] (omega arith),
      push_slice_lem k bytes (0x6a ∷ []) (omega (arith, len_for_slice_lem (length bytes))) room,
    ),
    ground arith,
  )
