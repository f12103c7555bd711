-- ===== src/Codec/VarInt.antt =====
-- consensus/src/coding.rs: VarInt, the length prefix of one, three, five or nine bytes.
use native.Mathlib.Decide.{dec_lt}
use bp_core.Base.{
  ℕ, sym, IsByte, AreBytes, ◌%◌, ◌^◌, ◌≤◌, ◌<◌, ◌≡◌, refl, arith, [], ◌∷◌, ◌++◌, length, Bytes, ltb,
  leb, ◌==◌, if◌then◌else◌, append-nil, ==_iff, le→ltb,
}
use bp_core.Codec.{Decoder, ◌>>=◌, pure, fail, Encoded, non_minimal_var_int}
use bp_core.Codec.Ints.{
  to_le_bytes, encode_u8, decode_u8, encode_u16, decode_u16, encode_u32, decode_u32, encode_u64,
  decode_u64, U8-IsCodec, U16-IsCodec, U32-IsCodec, U64-IsCodec,
}
use bp_core.Codec.Laws.{
  Streams, Reads, Consumes, Streams-bind, Streams-pure, Reads-bind, Consumes-bind, Consumes-pure,
  IsCodec, Consumes-if, Consumes-fail, Streams-if, Streams-fail, Consumes-mono,
}

-- `VarInt::len`
unfoldable pub var_int_len : ℕ → ℕ
var_int_len n =
    if leb n 0xfc then 1 else if leb n 0xffff then 3 else if leb n 0xffff_ffff then 5 else 9

unfoldable pub encode_var_int : ℕ → Encoded
encode_var_int n =
    if leb n 0xfc
    then record { bytes = (encode_u8 (n % 2 ^ 8)).bytes; counter = 1 }
    else if leb n 0xffff
    then record { bytes = (encode_u8 0xfd).bytes ++ (encode_u16 (n % 2 ^ 16)).bytes; counter = 3 }
    else if leb n 0xffff_ffff
    then record { bytes = (encode_u8 0xfe).bytes ++ (encode_u32 (n % 2 ^ 32)).bytes; counter = 5 }
    else record { bytes = (encode_u8 0xff).bytes ++ (encode_u64 n).bytes; counter = 9 }

-- The value of a longer form, refused where a shorter form would hold it.
unfoldable pub minimal : {E : Type 0} → ℕ → ℕ → Decoder E ℕ
minimal least x = if ltb x least then fail non_minimal_var_int else pure x

-- What follows the first byte.
unfoldable pub decode_var_int_tail : {E : Type 0} → ℕ → Decoder E ℕ
decode_var_int_tail n =
    if n == 0xff
    then decode_u64 >>= minimal 0x1_0000_0000
    else if n == 0xfe
    then decode_u32 >>= minimal 0x1_0000
    else if n == 0xfd
    then decode_u16 >>= minimal 0xfd
    else pure n

unfoldable pub decode_var_int : {E : Type 0} → Decoder E ℕ
unfolding decode_var_int_tail
decode_var_int = do n ← decode_u8; decode_var_int_tail n

encode_var_int_1 : (n : ℕ) → n < 0xfd → (encode_var_int n).bytes ≡ n ∷ []
unfolding encode_var_int encode_u8
encode_var_int_1 n h = ground arith

encode_var_int_3 :
    (n : ℕ)
    → 0xfd ≤ n
    → n < 2 ^ 16
    → (encode_var_int n).bytes ≡ (encode_u8 0xfd).bytes ++ (encode_u16 n).bytes
unfolding encode_var_int
encode_var_int_3 n h k = ground arith

encode_var_int_5 :
    (n : ℕ)
    → 2 ^ 16 ≤ n
    → n < 2 ^ 32
    → (encode_var_int n).bytes ≡ (encode_u8 0xfe).bytes ++ (encode_u32 n).bytes
unfolding encode_var_int
encode_var_int_5 n h k = ground arith

encode_var_int_9 :
    (n : ℕ) → 2 ^ 32 ≤ n → (encode_var_int n).bytes ≡ (encode_u8 0xff).bytes ++ (encode_u64 n).bytes
unfolding encode_var_int
encode_var_int_9 n h = ground arith

encode_var_int_counted : (n : ℕ) → (encode_var_int n).counter ≡ length (encode_var_int n).bytes
unfolding encode_var_int encode_u8 encode_u16 encode_u32 encode_u64 to_le_bytes
encode_var_int_counted n = ground arith

encode_var_int-AreBytes : (n : ℕ) → AreBytes (encode_var_int n).bytes
unfolding encode_var_int encode_u8 encode_u16 encode_u32 encode_u64 to_le_bytes
encode_var_int-AreBytes n = ground arith

-- The four forms, by the size of the number.
data Form (n : ℕ) : Type 0 where
  form_1 : n < 0xfd → Form n
  form_3 : 0xfd ≤ n → n < 2 ^ 16 → Form n
  form_5 : 2 ^ 16 ≤ n → n < 2 ^ 32 → Form n
  form_9 : 2 ^ 32 ≤ n → Form n

form : (n : ℕ) → Form n
form n = elim (dec_lt n 0xfd) [
  | yes a ↦ form_1 a
  | no a ↦ elim (dec_lt n (2 ^ 16)) [
    | yes b ↦ form_3 (omega arith) b
    | no b ↦ elim (dec_lt n (2 ^ 32)) [
      | yes c ↦ form_5 (omega arith) c
      | no c ↦ form_9 (omega arith)
    ]
  ]
]

module _ {E : Type 0} where
  minimal-Reads : (least x : ℕ) → least ≤ x → Reads {E = E} (minimal least x) [] x
  unfolding minimal
  minimal-Reads least x h rest = rw (le→ltb x least h)

  minimal-Consumes :
      (least x : ℕ) → Consumes {E = E} (minimal least x) (λ y cs. (least ≤ x) × (y ≡ x) × (cs ≡ []))
  unfolding minimal
  minimal-Consumes least x =
      Consumes-if (ltb x least) _ _ _ (λ small. Consumes-fail _ non_minimal_var_int)
        (λ large. Consumes-pure _ x (ground arith, refl, refl))

  -- A longer form: the decoder of its bytes, and the test.
  long-Reads :
      {IsValid : ℕ → Type 0} {encode : ℕ → Encoded} {d : Decoder E ℕ} (c : IsCodec IsValid encode d)
      (least x : ℕ)
      → IsValid x
      → least ≤ x
      → Reads (d >>= minimal least) (encode x).bytes x
  long-Reads {d = d} c least x v h rest = rw (c.reads x v rest) (minimal-Reads least x h rest)

  long-Consumes :
      {IsValid : ℕ → Type 0} {encode : ℕ → Encoded} {d : Decoder E ℕ} (c : IsCodec IsValid encode d)
      (least : ℕ)
      → Consumes (d >>= minimal least) (λ x cs. (least ≤ x) × IsValid x × (cs ≡ (encode x).bytes))
  long-Consumes {d = d} c least =
      Consumes-bind d (minimal least) _ _ c.consumes λ x cs (v, e) bs rest y ab h.
        let (cs', p, (l, same, nil), ar) = minimal-Consumes least x bs rest y ab h in
        (cs', p, (rw same l, rw same v, rw (same, nil, append-nil) e), ar)

minimal-Streams : (E : Type 0) (least x : ℕ) → Streams {E = E} {A = ℕ} (minimal least x)
unfolding minimal
minimal-Streams E least x =
    Streams-if (ltb x least) _ _ (Streams-fail ℕ non_minimal_var_int) (Streams-pure x)

tail-Streams : (E : Type 0) (n : ℕ) → Streams {E = E} {A = ℕ} (decode_var_int_tail n)
unfolding decode_var_int_tail
tail-Streams E n =
    Streams-if (n == 0xff) _ _
      (Streams-bind decode_u64 _ U64-IsCodec.streams (minimal-Streams E 0x1_0000_0000))
      (Streams-if (n == 0xfe) _ _
        (Streams-bind decode_u32 _ U32-IsCodec.streams (minimal-Streams E 0x1_0000))
        (Streams-if (n == 0xfd) _ _
          (Streams-bind decode_u16 _ U16-IsCodec.streams (minimal-Streams E 0xfd))
          (Streams-pure n)))

abbrev IsVarInt : ℕ → Bytes → Type 0
IsVarInt x cs = (x < 2 ^ 64) × (cs ≡ (encode_var_int x).bytes)

module _ {E : Type 0} where
  tail-Consumes :
      (n : ℕ)
      → IsByte n
      → Consumes {E = E} (decode_var_int_tail n) (λ x cs. IsVarInt x ((encode_u8 n).bytes ++ cs))
  unfolding decode_var_int_tail
  tail-Consumes n byte =
      Consumes-if (n == 0xff) _ _ _
        (λ e.
          Consumes-mono _ (long-Consumes U64-IsCodec _)
            (λ x cs (l, v, q). (v, rw ((==_iff n 0xff).0 e, q) (sym (encode_var_int_9 x l)))))
        (λ n₁.
          Consumes-if (n == 0xfe) _ _ _
            (λ e. Consumes-mono _ (long-Consumes U32-IsCodec _) (λ x cs (l, v, q).
              (omega arith, rw ((==_iff n 0xfe).0 e, q) (sym (encode_var_int_5 x l v)))))
            (λ n₂.
              Consumes-if (n == 0xfd) _ _ _
                (λ e. Consumes-mono _ (long-Consumes U16-IsCodec _) (λ x cs (l, v, q).
                  (omega arith, rw ((==_iff n 0xfd).0 e, q) (sym (encode_var_int_3 x l v)))))
                (λ n₃. Consumes-pure _ n (
                  omega arith,
                  rw (encode_var_int_1 n (ground arith)) (unfold encode_u8 in refl),
                ))))

  tail-Reads : (n : ℕ) → n < 0xfd → Reads {E = E} (decode_var_int_tail n) [] n
  unfolding decode_var_int_tail
  tail-Reads n h rest = ground arith

  var_int-Reads :
      (n : ℕ) → n < 2 ^ 64 → Form n → Reads {E = E} decode_var_int (encode_var_int n).bytes n
  unfolding decode_var_int decode_var_int_tail
  var_int-Reads n v (form_1 h) = rw (encode_var_int_1 n h) (
      unfold encode_u8 in
      Reads-bind decode_u8 decode_var_int_tail (n ∷ []) [] n n (U8-IsCodec.reads n (omega arith))
        (tail-Reads n h))
  var_int-Reads n v (form_3 h k) = rw (encode_var_int_3 n h k) (
      Reads-bind decode_u8 decode_var_int_tail _ _ 0xfd n (U8-IsCodec.reads 0xfd (omega arith))
        (long-Reads U16-IsCodec 0xfd n k h))
  var_int-Reads n v (form_5 h k) = rw (encode_var_int_5 n h k) (
      Reads-bind decode_u8 decode_var_int_tail _ _ 0xfe n (U8-IsCodec.reads 0xfe (omega arith))
        (long-Reads U32-IsCodec 0x1_0000 n k h))
  var_int-Reads n v (form_9 h) = rw (encode_var_int_9 n h) (
      Reads-bind decode_u8 decode_var_int_tail _ _ 0xff n (U8-IsCodec.reads 0xff (omega arith))
        (long-Reads U64-IsCodec 0x1_0000_0000 n v h))

  pub VarInt-IsCodec : IsCodec {E = E} (λ n. n < 2 ^ 64) encode_var_int decode_var_int
  unfolding decode_var_int
  VarInt-IsCodec = record {
    counted = λ n v. encode_var_int_counted n;
    writes_bytes = λ n v. encode_var_int-AreBytes n;
    reads = λ n v. var_int-Reads n v (form n);
    consumes =
        Consumes-bind decode_u8 decode_var_int_tail _ _ U8-IsCodec.consumes
          (λ n cs (v, e). rw e (tail-Consumes n v));
    streams = Streams-bind decode_u8 _ U8-IsCodec.streams (tail-Streams E);
  }
