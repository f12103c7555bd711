-- ===== src/Segwit/Recognition.antt =====
-- consensus/src/segwit.rs, script.rs and taproot.rs: the scripts that the tests of the standard
-- forms hold of.
use bp_core.Base.{
  ℕ, ◌+◌, ◌≡◌, ◌↔◌, refl, sym, ◌∙◌, arith, Bool, true, Option, ◌∷◌, length, Bytes, some,
}
use bp_core.Base.Result.{some-injective}
use bp_core.Codec.{Confine}
use bp_core.Codec.Array.{IsConfine}
use bp_core.Script.{is_at, p2pkh, p2sh, is_p2pkh, is_p2sh}
use bp_core.Script.OpCodes.{push_bytes0, push_num1}
use bp_core.Script.Recognition.{cut_at, two, is_p2pkh_iff, is_p2sh_iff}
use bp_core.Segwit.{v0, v1, p2wpkh, p2wsh, p2tr_tweaked, is_p2wpkh, is_p2wsh, is_p2tr}
use bp_core.Segwit.Programs.{unchecked_lem}

-- A test holds of a script exactly if a constructor makes the script of `n` bytes.
abbrev pub Recognises : (Bytes → Bool) → (Bytes → Option Bytes) → ℕ → Bytes → Type 0
Recognises test make n s =
    (test s ≡ true) ↔ ((bytes : Bytes) × (length bytes ≡ n) × (make bytes ≡ some s))

-- A test of the length and of the two bytes in front.
two_in_front :
    (test : Bytes → Bool) (make : Bytes → Option Bytes) (n a b : ℕ)
    → ((s : Bytes) → test s ≡ true → length s ≡ 2 + n)
    → ((x y : ℕ) (bytes : Bytes) → test (x ∷ y ∷ bytes) ≡ true → (x ≡ a) × (y ≡ b))
    → ((bytes : Bytes) → length bytes ≡ n → test (a ∷ b ∷ bytes) ≡ true)
    → ((bytes : Bytes) → length bytes ≡ n → make bytes ≡ some (a ∷ b ∷ bytes))
    → (s : Bytes) → Recognises test make n s
two_in_front test make n a b size values holds makes s = (
  λ e.
      let (front, bytes, same, lf, lb) = cut_at s 2 n (size s e) in
      let (x, y, first) = two front lf in
      let whole : s ≡ x ∷ y ∷ bytes = rw (same, first) refl in
      let (ex, ey) = values x y bytes (rw whole at e) in
      (bytes, lb, rw (whole, ex, ey) (makes bytes lb)),
  λ (bytes, l, made). rw (← some-injective _ _ (sym (makes bytes l) ∙ made)) (holds bytes l),
)

module _ {E : Type 0} {confine : Confine E} (k : IsConfine confine) where
  is_p2wpkh_iff : (s : Bytes) → Recognises is_p2wpkh (p2wpkh confine) 20 s
  unfolding is_p2wpkh p2wpkh is_at
  is_p2wpkh_iff =
      two_in_front is_p2wpkh (p2wpkh confine) 20 0 20 (λ s e. ground (arith, e))
        (λ x y bytes e. (ground (arith, e), ground (arith, e))) (λ bytes l. rw l refl)
        (λ bytes l. rw (unchecked_lem k v0 push_bytes0 bytes refl (omega arith) (omega arith), l))

  is_p2wsh_iff : (s : Bytes) → Recognises is_p2wsh (p2wsh confine) 32 s
  unfolding is_p2wsh p2wsh is_at
  is_p2wsh_iff =
      two_in_front is_p2wsh (p2wsh confine) 32 0 32 (λ s e. ground (arith, e))
        (λ x y bytes e. (ground (arith, e), ground (arith, e))) (λ bytes l. rw l refl)
        (λ bytes l. rw (unchecked_lem k v0 push_bytes0 bytes refl (omega arith) (omega arith), l))

  is_p2tr_iff : (s : Bytes) → Recognises is_p2tr (p2tr_tweaked confine) 32 s
  unfolding is_p2tr p2tr_tweaked is_at
  is_p2tr_iff =
      two_in_front is_p2tr (p2tr_tweaked confine) 32 0x51 32 (λ s e. ground (arith, e))
        (λ x y bytes e. (ground (arith, e), ground (arith, e))) (λ bytes l. rw l refl)
        (λ bytes l. rw (unchecked_lem k v1 push_num1 bytes refl (omega arith) (omega arith), l))

  -- The tests of P2PKH, P2SH and P2WPKH hold of a script exactly if their constructors make it of a
  -- hash of 20 bytes, those of P2WSH and P2TR exactly if theirs make it of a hash or an output key
  -- of 32 bytes.
  pub standard_tests_iff :
      (s : Bytes)
      → Recognises is_p2pkh (p2pkh confine) 20 s
        × Recognises is_p2sh (p2sh confine) 20 s
        × Recognises is_p2wpkh (p2wpkh confine) 20 s
        × Recognises is_p2wsh (p2wsh confine) 32 s
        × Recognises is_p2tr (p2tr_tweaked confine) 32 s
  standard_tests_iff s =
      (is_p2pkh_iff k s, is_p2sh_iff k s, is_p2wpkh_iff s, is_p2wsh_iff s, is_p2tr_iff s)
