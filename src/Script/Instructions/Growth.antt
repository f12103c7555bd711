-- ===== src/Script/Instructions/Growth.antt =====
-- consensus/src/script.rs: whatever is pushed to a script, it is only appended to, and stays within
-- u32::MAX bytes.
use bp_core.Base.{
  ℕ, ◌/◌, ◌%◌, ◌≤◌, ◌≡◌, refl, sym, List, [], ◌∷◌, ◌++◌, length, Bytes, Bool, true, false, Option,
  none, some, append_assoc, append-nil, if◌then◌else◌, ltb, inl, inr, Option-cases,
}
use bp_core.Base.Result.{some-injective}
use bp_core.Codec.{Confine, u32_max}
use bp_core.Codec.Array.{IsConfine, within}
use bp_core.Script.{
  extend, push, push_len, push_opcode, push_slice, op_pushdata1, op_pushdata2, op_pushdata4, ◌>>=◌,
}
use bp_core.Script.Instructions.{Instruction, op, slice, add, build}
use bp_core.Script.OpCodes.{to_u8}

-- The script `t` is `s` with more bytes behind it, and within the bound.
abbrev pub Grows : Bytes → Bytes → Type 0
Grows s t = ((more : Bytes) × (t ≡ s ++ more)) × (length t ≤ u32_max)

-- A step that does not panic makes the script grow.
abbrev IsGrowing : (Bytes → Option Bytes) → Type 0
IsGrowing f = (s t : Bytes) → length s ≤ u32_max → f s ≡ some t → Grows s t

Grows-trans : (s t u : Bytes) → Grows s t → Grows t u → Grows s u
Grows-trans s t u ((more, e), h) ((more', e'), h') =
    ((more ++ more', rw (e', e, append_assoc) refl), h')

bind_some :
    (o : Option Bytes) (f : Bytes → Option Bytes) (u : Bytes)
    → (o >>= f) ≡ some u
    → (t : Bytes) × (o ≡ some t) × (f t ≡ some u)
bind_some none f u e = absurd cc
bind_some (some t) f u e = (t, refl, e)

then-IsGrowing :
    (f g : Bytes → Option Bytes) → IsGrowing f → IsGrowing g → IsGrowing (λ s. f s >>= g)
then-IsGrowing f g hf hg s u room e =
    let (t, e₁, e₂) = bind_some (f s) g u e in
    let step = hf s t room e₁ in Grows-trans s t u step (hg t u step.1 e₂)

if-IsGrowing :
    (b : Bool) (f g : Bytes → Option Bytes)
    → IsGrowing f
    → IsGrowing g
    → IsGrowing (λ s. if b then f s else g s)
if-IsGrowing true f g hf hg = hf
if-IsGrowing false f g hf hg = hg

module _ {E : Type 0} {confine : Confine E} (k : IsConfine confine) where
  extend-IsGrowing : (bytes : Bytes) → IsGrowing (extend confine bytes)
  unfolding extend
  extend-IsGrowing bytes s t room e =
      elim (Option-cases (confine 0 u32_max (length (s ++ bytes)))) [
        | inl accepted ↦
            let same : s ++ bytes ≡ t = some-injective _ _ (rw accepted at e) in
            ((bytes, sym same), rw (← same) (within k (length (s ++ bytes)) accepted))
        | inr (x, refused) ↦ absurd (let r = rw refused at e in cc)
      ]

  push-IsGrowing : (b : ℕ) → IsGrowing (push confine b)
  unfolding push
  push-IsGrowing b = extend-IsGrowing (b ∷ [])

  push_len-IsGrowing : (n : ℕ) → IsGrowing (push_len confine n)
  unfolding push_len
  push_len-IsGrowing n =
      let one = λ (b : ℕ). push-IsGrowing b in
      if-IsGrowing (ltb n op_pushdata1) _ _ (one n) (
        if-IsGrowing (ltb n 0x100) _ _ (then-IsGrowing _ _ (one op_pushdata1) (one n)) (
          if-IsGrowing (ltb n 0x10000) _ _
            (then-IsGrowing _ _ (one op_pushdata2)
              (then-IsGrowing _ _ (one (n % 0x100)) (one (n / 0x100))))
            (if-IsGrowing (ltb n 0x100000000) _ _
              (then-IsGrowing _ _ (one op_pushdata4) (
                then-IsGrowing _ _ (one (n % 0x100)) (
                  then-IsGrowing _ _ (one (n / 0x100 % 0x100))
                    (then-IsGrowing _ _ (one (n / 0x10000 % 0x100)) (one (n / 0x1000000))))))
              (λ s t room e. absurd cc))))

  add-IsGrowing : (i : Instruction) → IsGrowing (add confine i)
  unfolding add push_opcode push_slice
  add-IsGrowing (op c) = push-IsGrowing (to_u8 c)
  add-IsGrowing (slice bytes) =
      then-IsGrowing _ _ (push_len-IsGrowing (length bytes)) (extend-IsGrowing bytes)

  -- Whatever opcodes and data are pushed one after another to a script within u32::MAX bytes: if
  -- nothing panics, the script is still within u32::MAX bytes and begins with what it was.
  pub build-Grows :
      (is : List Instruction) (s t : Bytes)
      → length s ≤ u32_max
      → build confine is s ≡ some t
      → Grows s t
  unfolding build
  build-Grows [] s t room e =
      let same : s ≡ t = some-injective s t e in (([], rw append-nil (sym same)), rw (← same) room)
  build-Grows (i ∷ is) s u room e =
      let (t, e₁, e₂) = bind_some (add confine i s) (build confine is) u e in
      let step = add-IsGrowing i s t room e₁ in
      Grows-trans s t u step (build-Grows is t u step.1 e₂)
