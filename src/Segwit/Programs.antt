-- ===== src/Segwit/Programs.antt =====
-- consensus/src/segwit.rs: witness programs and their scripts.
use native.Mathlib.Decide.{dec_le}
use bp_core.Base.{
  ℕ, ◌<◌, ◌≤◌, ◌≡◌, ◌≢◌, ◌↔◌, ◌⊎◌, inl, inr, refl, sym, arith, some, none, Bool, not, true, false,
  ◌==◌, ◌||◌, ◌&&◌, Bytes, Bool-cases, Option, List, [], ◌∷◌, length, Option-cases, ==_iff,
}
use bp_core.Codec.{Confine}
use bp_core.Codec.Array.{IsConfine}
use bp_core.Script.{is_at}
use bp_core.Script.OpCodes.{OpCode, try_from, find, op_codes, to_u8, push_bytes0, push_num1}
use bp_core.Script.Standard.{opcode_fits, short_slice}
use bp_core.Segwit.Versions.{op_code_lem}
use bp_core.Segwit.{
  WitnessVer, v0, v1, v2, v3, v4, v5, v6, v7, v8, v9, v10, v11, v12, v13, v14, v15, v16,
  WitnessProgram, ok, err, invalid_witness_program_length, invalid_segwit_v0_program_length,
  version_no, op_code, from_op_code, as_u8, is_version, is_program, is_v0, is_witness_program, new,
  from_witness_program, with_witness_program_unchecked, p2wpkh, p2wsh, p2tr_tweaked, is_p2wpkh,
  is_p2wsh, is_p2tr,
}

-- Only two opcodes are versions.
allowed : OpCode → Bool
allowed c = not (is_version (some c)) || (to_u8 c == 0) || (to_u8 c == 0x51)

all_allowed : List OpCode → Bool
all_allowed [] = true
all_allowed (c ∷ cs) = allowed c && all_allowed cs

allowed_sound :
    (c : OpCode) → allowed c ≡ true → is_version (some c) ≡ true → (to_u8 c ≡ 0) ⊎ (to_u8 c ≡ 0x51)
unfolding allowed
allowed_sound c h v = ground (arith, h, v)

find_version :
    (cs : List OpCode) (b : ℕ)
    → all_allowed cs ≡ true
    → is_version (find cs b) ≡ true
    → (b ≡ 0) ⊎ (b ≡ 0x51)
unfolding all_allowed find
find_version [] b h v = absurd (unfold is_version in cc)
find_version (c ∷ cs) b h v = elim (Bool-cases (to_u8 c == b)) [
  | inl e ↦
      let same = (==_iff (to_u8 c) b).0 e in
      let here : is_version (some c) ≡ true = rw e at v in
      rw same at (allowed_sound c (ground (arith, h)) here)
  | inr other ↦
      let later : is_version (find cs b) ≡ true = rw other at v in
      find_version cs b (ground (arith, h)) later
]

find_value : (cs : List OpCode) (b : ℕ) (c : OpCode) → find cs b ≡ some c → to_u8 c ≡ b
unfolding find
find_value [] b c e = cc
find_value (c' ∷ cs) b c e = elim (Bool-cases (to_u8 c' == b)) [
  | inl h ↦
      let same : Option.some c' ≡ some c = rw h at e in
      let first : c' ≡ c = cc in rw (← first) ((==_iff (to_u8 c') b).0 h)
  | inr h ↦ find_value cs b c (rw h at e)
]

version_byte : (b : ℕ) → (is_version (try_from b) ≡ true) ↔ ((b ≡ 0) ⊎ (b ≡ 0x51))
unfolding try_from
version_byte b = (
  λ v. find_version op_codes b (unfold all_allowed allowed is_version from_op_code in refl) v,
  λ h. elim h [
    | inl e ↦ rw e (unfold is_version from_op_code in refl)
    | inr e ↦ rw e (unfold is_version from_op_code in refl)
  ],
)

-- A script of an opcode, a push byte and the rest is a witness program exactly if the opcode is that
-- of version 0 or 1, and the push byte is the number of the bytes left, from 2 to 40.
pub is_witness_program_lem :
    (opcode push_opbyte : ℕ) (rest : Bytes)
    → (is_witness_program (opcode ∷ push_opbyte ∷ rest) ≡ true) ↔ (
        ((opcode ≡ 0) ⊎ (opcode ≡ 0x51))
        × (push_opbyte ≡ length rest)
        × (2 ≤ length rest)
        × (length rest ≤ 40))
unfolding is_witness_program is_program
is_witness_program_lem opcode push_opbyte rest = ground (arith, version_byte opcode)

to_u8_of_op_code : (v : WitnessVer) (c : OpCode) → op_code v ≡ some c → to_u8 c ≡ as_u8 v
unfolding op_code try_from
to_u8_of_op_code v c e = find_value op_codes (as_u8 v) c e

low_byte : (v : WitnessVer) → version_no v ≤ 1 → (as_u8 v ≡ 0) ⊎ (as_u8 v ≡ 0x51)
unfolding version_no as_u8
low_byte v0 h = inl refl
low_byte v1 h = inr refl
low_byte v2 h = absurd (omega arith)
low_byte v3 h = absurd (omega arith)
low_byte v4 h = absurd (omega arith)
low_byte v5 h = absurd (omega arith)
low_byte v6 h = absurd (omega arith)
low_byte v7 h = absurd (omega arith)
low_byte v8 h = absurd (omega arith)
low_byte v9 h = absurd (omega arith)
low_byte v10 h = absurd (omega arith)
low_byte v11 h = absurd (omega arith)
low_byte v12 h = absurd (omega arith)
low_byte v13 h = absurd (omega arith)
low_byte v14 h = absurd (omega arith)
low_byte v15 h = absurd (omega arith)
low_byte v16 h = absurd (omega arith)

module _ {E : Type 0} {confine : Confine E} (k : IsConfine confine) where
  -- `new` accepts a program of 2 to 40 bytes, in version 0 only of 20 or 32; it refuses another
  -- length with the one error and, in version 0, one within the bounds with the other.
  pub new_lem :
      (v : WitnessVer) (p : Bytes)
      → ((new confine v p ≡ ok (record { version = v; program = p }))
          × (2 ≤ length p)
          × (length p ≤ 40)
          × ((1 ≤ version_no v) ⊎ ((length p ≡ 20) ⊎ (length p ≡ 32))))
        ⊎ (((new confine v p ≡ err (invalid_witness_program_length (length p)))
              × ((length p < 2) ⊎ (40 < length p)))
            ⊎ ((new confine v p ≡ err (invalid_segwit_v0_program_length (length p)))
                × (version_no v ≡ 0)
                × (2 ≤ length p)
                × (length p ≤ 40)
                × (length p ≢ 20)
                × (length p ≢ 32)))
  unfolding new is_v0
  new_lem v p = elim (Option-cases (confine 2 40 (length p))) [
    | inl fits ↦
        let least : 2 ≤ length p = elim (dec_le 2 (length p)) [
          | yes h ↦ h
          | no h ↦ absurd (k.rejects_short 2 40 (length p) (omega arith) fits)
        ] in
        let most : length p ≤ 40 = elim (dec_le (length p) 40) [
          | yes h ↦ h
          | no h ↦ absurd (k.rejects_long 2 40 (length p) (omega arith) fits)
        ] in
        rw fits (ground arith)
    | inr (e, refused) ↦ elim (dec_le 2 (length p)) [
      | yes least ↦ elim (dec_le (length p) 40) [
        | yes most ↦ let accepted = k.accepts 2 40 (length p) least most in absurd cc
        | no more ↦ inr (inl (rw refused refl, inr (omega arith)))
      ]
      | no less ↦ inr (inl (rw refused refl, inl (omega arith)))
    ]
  ]

  -- A program of 2 to 40 bytes in version 0 or 1.
  pub unchecked_lem :
      (v : WitnessVer) (c : OpCode) (p : Bytes)
      → op_code v ≡ some c
      → 2 ≤ length p
      → length p ≤ 40
      → with_witness_program_unchecked confine v p ≡ some (to_u8 c ∷ length p ∷ p)
  unfolding with_witness_program_unchecked
  unchecked_lem v c p e least most = rw (
    e,
    opcode_fits k c [] (omega arith),
    short_slice k p (to_u8 c ∷ []) (length p) refl (omega arith) (omega arith),
  )

  -- The script of a program of 2 to 40 bytes: in the versions 0 and 1 the opcode, the length and the
  -- program, which `is_witness_program` holds of; in every version above 1 a panic.
  pub from_witness_program_lem :
      (w : WitnessProgram)
      → 2 ≤ length w.program
      → length w.program ≤ 40
      → ((version_no w.version ≤ 1)
          × (from_witness_program confine w ≡ some (as_u8 w.version ∷ length w.program ∷ w.program))
          × (is_witness_program (as_u8 w.version ∷ length w.program ∷ w.program) ≡ true))
        ⊎ ((1 < version_no w.version) × (from_witness_program confine w ≡ none))
  unfolding from_witness_program
  from_witness_program_lem w least most = elim (op_code_lem w.version) [
    | inr (above, e) ↦ inr (above, unfold with_witness_program_unchecked in rw e refl)
    | inl (low, c, e, _) ↦
        let byte : to_u8 c ≡ as_u8 w.version = to_u8_of_op_code w.version c e in
        inl (
          low,
          rw byte at (unchecked_lem w.version c w.program e least most),
          (is_witness_program_lem (as_u8 w.version) (length w.program) w.program).1
              (low_byte w.version low, refl, least, most),
        )
  ]

  -- The scripts of a 20-byte hash, of a 32-byte hash and of a 32-byte output key: none panics, each
  -- is a witness program, and its own test holds of it and no other.
  pub witness_scripts :
      (hash key : Bytes)
      → length hash ≡ 20
      → length key ≡ 32
      → ((p2wpkh confine hash ≡ some (0 ∷ 20 ∷ hash))
          × (is_p2wpkh (0 ∷ 20 ∷ hash) ≡ true)
          × (is_p2wsh (0 ∷ 20 ∷ hash) ≡ false)
          × (is_p2tr (0 ∷ 20 ∷ hash) ≡ false)
          × (is_witness_program (0 ∷ 20 ∷ hash) ≡ true))
        × ((p2wsh confine key ≡ some (0 ∷ 32 ∷ key))
            × (is_p2wpkh (0 ∷ 32 ∷ key) ≡ false)
            × (is_p2wsh (0 ∷ 32 ∷ key) ≡ true)
            × (is_p2tr (0 ∷ 32 ∷ key) ≡ false)
            × (is_witness_program (0 ∷ 32 ∷ key) ≡ true))
        × ((p2tr_tweaked confine key ≡ some (0x51 ∷ 32 ∷ key))
            × (is_p2wpkh (0x51 ∷ 32 ∷ key) ≡ false)
            × (is_p2wsh (0x51 ∷ 32 ∷ key) ≡ false)
            × (is_p2tr (0x51 ∷ 32 ∷ key) ≡ true)
            × (is_witness_program (0x51 ∷ 32 ∷ key) ≡ true))
  unfolding p2wpkh p2wsh p2tr_tweaked is_p2wpkh is_p2wsh is_p2tr is_at
  witness_scripts hash key e f = (
    (
      rw (unchecked_lem v0 push_bytes0 hash refl (omega arith) (omega arith), e),
      rw e refl,
      rw e refl,
      rw e refl,
      (is_witness_program_lem 0 20 hash).1 (inl refl, sym e, omega arith, omega arith),
    ),
    (
      rw (unchecked_lem v0 push_bytes0 key refl (omega arith) (omega arith), f),
      rw f refl,
      rw f refl,
      rw f refl,
      (is_witness_program_lem 0 32 key).1 (inl refl, sym f, omega arith, omega arith),
    ),
    (
      rw (unchecked_lem v1 push_num1 key refl (omega arith) (omega arith), f),
      rw f refl,
      rw f refl,
      rw f refl,
      (is_witness_program_lem 0x51 32 key).1 (inr refl, sym f, omega arith, omega arith),
    ),
  )
