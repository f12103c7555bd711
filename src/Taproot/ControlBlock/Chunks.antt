-- ===== src/Taproot/ControlBlock/Chunks.antt =====
-- consensus/src/coding.rs: the cutting of the Merkle branch of a control block ends with all of it cut.
use bp_core.Base.{
  ℕ, zero, suc, ◌+◌, ◌≤◌, ◌<◌, ◌≡◌, refl, ap, ◌∙◌, arith, ltb, ltb→lt, List, [], ◌∷◌, ◌++◌, length,
  take, drop, Bytes, All, Bool-cases, inl, inr, append_assoc,
}
use bp_core.Taproot.ControlBlock.{chunks_exact}

-- One text after another.
abbrev pub joined : List Bytes → Bytes
joined [] = []
joined (x ∷ xs) = x ++ joined xs

take-drop : (n : ℕ) (bs : Bytes) → take n bs ++ drop n bs ≡ bs
take-drop zero bs = refl
take-drop (suc n) [] = refl
take-drop (suc n) (b ∷ bs) = ap (◌∷◌ b) (take-drop n bs)

length-take : (n : ℕ) (bs : Bytes) → n ≤ length bs → length (take n bs) ≡ n
length-take zero bs h = refl
length-take (suc n) [] h = absurd (omega arith)
length-take (suc n) (b ∷ bs) h = ap suc (length-take n bs (omega arith))

length-drop : (n : ℕ) (bs : Bytes) → n ≤ length bs → n + length (drop n bs) ≡ length bs
length-drop zero bs h = omega arith
length-drop (suc n) [] h = absurd (omega arith)
length-drop (suc n) (b ∷ bs) h = omega (arith, length-drop n bs (omega arith))

-- The chunks are of 32 bytes, what remains is shorter, and both together are the text.
unfoldable pub IsCut : Bytes → List Bytes × Bytes → Type 0
IsCut buf cut =
    All (λ chunk. length chunk ≡ 32) cut.0 × (length cut.1 < 32) × (joined cut.0 ++ cut.1 ≡ buf)

-- Fuel for a text's length, as the decoder gives, is enough: on it and on any more, chunks of 32
-- bytes are cut until fewer are left, and nothing is lost.
pub chunks_exact-IsCut :
    (fuel : ℕ) (buf : Bytes) → length buf ≤ fuel → IsCut buf (chunks_exact fuel buf)
unfolding chunks_exact IsCut
chunks_exact-IsCut zero buf h = (tt, omega arith, refl)
chunks_exact-IsCut (suc fuel) buf h = elim (Bool-cases (ltb (length buf) 32)) [
  | inl short ↦ rw short (tt, ltb→lt (length buf) 32 short, refl)
  | inr long ↦
      let enough : 32 ≤ length buf = ground (arith, long) in
      let size = length-drop 32 buf enough in
      let (sizes, left, whole) = chunks_exact-IsCut fuel (drop 32 buf) (omega arith) in
      rw long (
        (length-take 32 buf enough, sizes),
        left,
        append_assoc (take 32 buf) _ _ ∙ (ap (λ t. take 32 buf ++ t) whole ∙ take-drop 32 buf),
      )
]
