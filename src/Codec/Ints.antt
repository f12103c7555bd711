-- ===== src/Codec/Ints.antt =====
-- consensus/src/coding.rs: the codecs of u8, u16, u32, i32, u64 and of 32-byte arrays.
use mathlib.Core.Path.{subst}
use native.Mathlib.Nat.{pow-suc}
use bp_core.Base.{
  ℕ, zero, suc, ◌+◌, ◌*◌, ◌/◌, ◌%◌, ◌^◌, ◌<◌, ◌≡◌, refl, sym, ap, arith, [], ◌∷◌, ◌++◌, length,
  Bytes, IsByte, AreBytes, AreBytes-left, AreBytes-right,
}
use bp_core.Base.Int.{
  ℤ, IsI32, i32_bits, i32_of_bits, i32_bits-lt, i32_of_bits-i32_bits, i32_bits-i32_of_bits,
  i32_of_bits-IsI32,
}
use bp_core.Codec.{
  Result, ok, err, panic, io, data_error, Decoder, bind, ◌>>=◌, pure, Encoded, read_exact,
}
use bp_core.Codec.Laws.{Streams, Reads, Consumes, IsCodec, IsCodec-wrap, Extends}

-- `to_le_bytes` and `from_le_bytes` of an unsigned integer of w bytes.
unfoldable pub to_le_bytes : ℕ → ℕ → Bytes
to_le_bytes zero n = []
to_le_bytes (suc w) n = n % 256 ∷ to_le_bytes w (n / 256)

unfoldable pub from_le_bytes : Bytes → ℕ
from_le_bytes [] = 0
from_le_bytes (b ∷ bs) = b + 256 * from_le_bytes bs

unfoldable pub encode_u8 : ℕ → Encoded
encode_u8 n = record { bytes = n ∷ []; counter = 1 }

unfoldable pub decode_u8 : {E : Type 0} → Decoder E ℕ
decode_u8 = do buf ← read_exact 1; pure (from_le_bytes buf)

unfoldable pub encode_u16 : ℕ → Encoded
encode_u16 n = record { bytes = to_le_bytes 2 n; counter = 2 }

unfoldable pub decode_u16 : {E : Type 0} → Decoder E ℕ
decode_u16 = do buf ← read_exact 2; pure (from_le_bytes buf)

unfoldable pub encode_u32 : ℕ → Encoded
encode_u32 n = record { bytes = to_le_bytes 4 n; counter = 4 }

unfoldable pub decode_u32 : {E : Type 0} → Decoder E ℕ
decode_u32 = do buf ← read_exact 4; pure (from_le_bytes buf)

-- The bytes of an i32 are those of its two's complement pattern.
unfoldable pub encode_i32 : ℤ → Encoded
encode_i32 z = record { bytes = to_le_bytes 4 (i32_bits z); counter = 4 }

unfoldable pub decode_i32 : {E : Type 0} → Decoder E ℤ
decode_i32 = do buf ← read_exact 4; pure (i32_of_bits (from_le_bytes buf))

unfoldable pub encode_u64 : ℕ → Encoded
encode_u64 n = record { bytes = to_le_bytes 8 n; counter = 8 }

unfoldable pub decode_u64 : {E : Type 0} → Decoder E ℕ
decode_u64 = do buf ← read_exact 8; pure (from_le_bytes buf)

-- `writer.write_all(&self.to_byte_array())?; Ok(32)`, and `<[u8; 32]>::consensus_decode`.
unfoldable pub encode_bytes32 : Bytes → Encoded
encode_bytes32 bs = record { bytes = bs; counter = 32 }

unfoldable pub decode_bytes32 : {E : Type 0} → Decoder E Bytes
decode_bytes32 = read_exact 32

abbrev pub IsBytes : ℕ → Bytes → Type 0
IsBytes n bs = (length bs ≡ n) × AreBytes bs

module _ {E : Type 0} where
  read_exact-Reads : (n : ℕ) (bs : Bytes) → length bs ≡ n → Reads {E = E} (read_exact n) bs bs
  unfolding read_exact
  read_exact-Reads zero [] e rest = refl
  read_exact-Reads zero (b ∷ bs) e rest = absurd (omega arith)
  read_exact-Reads (suc n) [] e rest = absurd (omega arith)
  read_exact-Reads (suc n) (b ∷ bs) e rest = rw (read_exact-Reads n bs (omega arith) rest)

  cons-eq-ok :
      (b : ℕ) (r : Result E (Bytes × Bytes)) (a rest : Bytes)
      → bind {B = Bytes × Bytes} r (λ (xs, rest). ok (b ∷ xs, rest)) ≡ ok (a, rest)
      → (xs : Bytes) × (r ≡ ok (xs, rest)) × (a ≡ b ∷ xs)
  cons-eq-ok b (ok (xs, mid)) a rest e = (xs, cc, cc)
  cons-eq-ok b (err x) a rest e = cc
  cons-eq-ok b panic a rest e = cc

  read_exact-eq-ok :
      (n : ℕ) (bs rest a : Bytes)
      → read_exact {E = E} n bs ≡ ok (a, rest)
      → (bs ≡ a ++ rest) × (length a ≡ n)
  unfolding read_exact
  read_exact-eq-ok zero bs rest a e = let nil : [] ≡ a = cc in (rw (← nil) (cc), rw (← nil))
  read_exact-eq-ok (suc n) [] rest a e = cc
  read_exact-eq-ok (suc n) (b ∷ bs) rest a e =
      let (xs, e₁, e₂) = cons-eq-ok b (read_exact n bs) a rest e in
      let (e₃, l) = read_exact-eq-ok n bs rest xs e₁ in
      (rw e₂ (ap (λ t. b ∷ t) e₃), rw e₂ (ap suc l))

  read_exact-Consumes : (n : ℕ) → Consumes {E = E} (read_exact n) (λ a cs. IsBytes n a × (cs ≡ a))
  read_exact-Consumes n bs rest a ab e =
      let (e₁, l) = read_exact-eq-ok n bs rest a e in
      let split : AreBytes (a ++ rest) = subst AreBytes e₁ ab in
      (a, e₁, ((l, AreBytes-left a rest split), refl), AreBytes-right a rest split)

read_exact-Streams : (E : Type 0) (n : ℕ) → Streams {E = E} {A = Bytes} (read_exact n)
unfolding read_exact
read_exact-Streams E zero bs more = refl
read_exact-Streams E (suc n) [] more = tt
read_exact-Streams E (suc n) (b ∷ bs) more =
    extends_cons (read_exact n bs) (read_exact n (bs ++ more)) (read_exact-Streams E n bs more)
  where
    extends_cons :
        (r s : Result E (Bytes × Bytes))
        → Extends r more s
        → Extends {A = Bytes}
            (bind r (λ (xs, rest). ok (b ∷ xs, rest)))
            more
            (bind s (λ (xs, rest). ok (b ∷ xs, rest)))
    extends_cons (ok (xs, rest)) s h = rw h
    extends_cons (err (io k)) s h = tt
    extends_cons (err (data_error x)) s h = rw h
    extends_cons panic s h = rw h

module _ {E : Type 0} where
  pub Bytes-IsCodec :
      (n : ℕ)
      → IsCodec {E = E} (IsBytes n) (λ bs. record { bytes = bs; counter = n }) (read_exact n)
  Bytes-IsCodec n = record {
    counted = λ bs (l, _). sym l;
    writes_bytes = λ bs (_, v). v;
    reads = λ bs (l, _). read_exact-Reads n bs l;
    consumes = read_exact-Consumes n;
    streams = read_exact-Streams E n;
  }

pub length-to_le_bytes : (w n : ℕ) → length (to_le_bytes w n) ≡ w
unfolding to_le_bytes
length-to_le_bytes zero n = refl
length-to_le_bytes (suc w) n = ap suc (length-to_le_bytes w (n / 256))

to_le_bytes-AreBytes : (w n : ℕ) → AreBytes (to_le_bytes w n)
unfolding to_le_bytes
to_le_bytes-AreBytes zero n = tt
to_le_bytes-AreBytes (suc w) n = (omega arith, to_le_bytes-AreBytes w (n / 256))

pub from_le_bytes-to_le_bytes : (w n : ℕ) → n < 256 ^ w → from_le_bytes (to_le_bytes w n) ≡ n
unfolding to_le_bytes from_le_bytes
from_le_bytes-to_le_bytes zero n h = omega arith
from_le_bytes-to_le_bytes (suc w) n h =
    omega (arith, from_le_bytes-to_le_bytes w (n / 256) (omega arith))

from_le_bytes-lt : (bs : Bytes) → AreBytes bs → from_le_bytes bs < 256 ^ length bs
unfolding from_le_bytes
from_le_bytes-lt [] h = omega arith
from_le_bytes-lt (b ∷ bs) (h, hs) = omega (arith, from_le_bytes-lt bs hs, pow-suc 256 (length bs))

to_le_bytes-from_le_bytes :
    (bs : Bytes) → AreBytes bs → to_le_bytes (length bs) (from_le_bytes bs) ≡ bs
unfolding to_le_bytes from_le_bytes
to_le_bytes-from_le_bytes [] h = refl
to_le_bytes-from_le_bytes (b ∷ bs) (h, hs) =
    let low : (b + 256 * from_le_bytes bs) % 256 ≡ b = omega arith in
    let high : (b + 256 * from_le_bytes bs) / 256 ≡ from_le_bytes bs = omega arith in
    rw (low, high, to_le_bytes-from_le_bytes bs hs)

-- An unsigned integer of w bytes.
abbrev IsUint : ℕ → ℕ → Type 0
IsUint w n = n < 256 ^ w

module _ {E : Type 0} where
  Uint-IsCodec :
      (w : ℕ)
      → IsCodec {E = E}
          (IsUint w)
          (λ n. record { bytes = to_le_bytes w n; counter = w })
          (read_exact w >>= λ buf. pure (from_le_bytes buf))
  Uint-IsCodec w =
      IsCodec-wrap (Bytes-IsCodec w) (IsUint w) from_le_bytes (to_le_bytes w)
        (λ n h. (length-to_le_bytes w n, to_le_bytes-AreBytes w n))
        (λ bs (l, v). subst (λ k. from_le_bytes bs < 256 ^ k) l (from_le_bytes-lt bs v))
        (λ n h. from_le_bytes-to_le_bytes w n h)
        (λ bs (l, v).
          subst (λ k. to_le_bytes k (from_le_bytes bs) ≡ bs) l (to_le_bytes-from_le_bytes bs v))

  pub U16-IsCodec : IsCodec {E = E} (λ n. n < 2 ^ 16) encode_u16 decode_u16
  unfolding encode_u16 decode_u16
  U16-IsCodec = Uint-IsCodec 2

  pub U32-IsCodec : IsCodec {E = E} (λ n. n < 2 ^ 32) encode_u32 decode_u32
  unfolding encode_u32 decode_u32
  U32-IsCodec = Uint-IsCodec 4

  pub U64-IsCodec : IsCodec {E = E} (λ n. n < 2 ^ 64) encode_u64 decode_u64
  unfolding encode_u64 decode_u64
  U64-IsCodec = Uint-IsCodec 8

  pub Bytes32-IsCodec : IsCodec {E = E} (IsBytes 32) encode_bytes32 decode_bytes32
  unfolding encode_bytes32 decode_bytes32
  Bytes32-IsCodec = Bytes-IsCodec 32

  -- A u8 is written as itself: it is no more than its own low byte.
  pub U8-IsCodec : IsCodec {E = E} IsByte encode_u8 decode_u8
  unfolding encode_u8 decode_u8
  U8-IsCodec =
      IsCodec-wrap (Bytes-IsCodec 1) IsByte from_le_bytes (λ n. n ∷ []) (λ n h. (refl, (h, tt)))
        single-lt (λ n h. unfold from_le_bytes in omega arith) single-from_le_bytes
    where
      single-lt : (bs : Bytes) → IsBytes 1 bs → from_le_bytes bs < 256
      single-lt (b ∷ []) (l, (h, _)) = unfold from_le_bytes in omega arith
      single-lt [] (l, v) = absurd (omega arith)
      single-lt (b ∷ c ∷ bs) (l, v) = absurd (omega arith)

      single-from_le_bytes : (bs : Bytes) → IsBytes 1 bs → from_le_bytes bs ∷ [] ≡ bs
      single-from_le_bytes (b ∷ []) (l, v) = ap (λ t. t ∷ []) (unfold from_le_bytes in omega arith)
      single-from_le_bytes [] (l, v) = absurd (omega arith)
      single-from_le_bytes (b ∷ c ∷ bs) (l, v) = absurd (omega arith)

  pub I32-IsCodec : IsCodec {E = E} IsI32 encode_i32 decode_i32
  unfolding encode_i32 decode_i32
  I32-IsCodec =
      IsCodec-wrap (Bytes-IsCodec 4) IsI32 (λ bs. i32_of_bits (from_le_bytes bs))
        (λ z. to_le_bytes 4 (i32_bits z))
        (λ z h. (length-to_le_bytes 4 (i32_bits z), to_le_bytes-AreBytes 4 (i32_bits z)))
        (λ bs v. i32_of_bits-IsI32 _ (below bs v))
        (λ z h. rw (from_le_bytes-to_le_bytes 4 _ (i32_bits-lt z h)) (i32_of_bits-i32_bits z h))
        (λ bs v. rw (i32_bits-i32_of_bits _ (below bs v)) (
          subst (λ k. to_le_bytes k (from_le_bytes bs) ≡ bs) v.0
            (to_le_bytes-from_le_bytes bs v.1)))
    where
      below : (bs : Bytes) → IsBytes 4 bs → from_le_bytes bs < 2 ^ 32
      below bs (l, v) = subst (λ k. from_le_bytes bs < 256 ^ k) l (from_le_bytes-lt bs v)
