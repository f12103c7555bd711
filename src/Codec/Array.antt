-- ===== src/Codec/Array.antt =====
-- consensus/src/coding.rs: VarIntArray, and the byte strings and scripts that wrap it.
use native.Mathlib.Decide.{dec_le}
use bp_core.Base.{
  ℕ, ◌≤◌, ◌<◌, ◌≡◌, refl, arith, List, [], ◌++◌, length, Bytes, IsByte, All, AreBytes, ◌≢◌, none,
  some, Option, append_assoc, append-nil, length-append, AreBytes-append,
}
use bp_core.Codec.{
  Decoder, ◌>>=◌, Encoded, ◌<+>◌, decode_items, encode_items, Confine, confine_with, u32_max,
  confined,
}
use bp_core.Codec.Ints.{encode_u8, decode_u8, U8-IsCodec}
use bp_core.Codec.VarInt.{encode_var_int, decode_var_int, VarInt-IsCodec}
use bp_core.Codec.Laws.{
  Streams, Consumes, Reads, Streams-bind, Streams-pure, Streams-fail, Consumes-bind, Consumes-pure,
  Consumes-fail, Consumes-mono, IsCodec, items_counted, items_write_bytes, items_read,
  items_consume, items_stream,
}

-- What `Confined::try_from` of amplify does: it accepts exactly the lengths within the bounds.
pub record IsConfine {E : Type 0} (confine : Confine E) : Type 0 where
  pub accepts : (min max len : ℕ) → min ≤ len → len ≤ max → confine min max len ≡ none
  pub rejects_short : (min max len : ℕ) → len < min → confine min max len ≢ none
  pub rejects_long : (min max len : ℕ) → max < len → confine min max len ≢ none

-- An accepted length is within u32::MAX.
pub within :
    {E : Type 0} {confine : Confine E} (k : IsConfine confine) (len : ℕ)
    → confine 0 u32_max len ≡ none
    → len ≤ u32_max
within k len fits = elim (dec_le len u32_max) [
  | yes h ↦ h
  | no h ↦ absurd (k.rejects_long 0 u32_max len (omega arith) fits)
]

unfoldable pub encode_array {ℓ} : {A : Type ℓ} → (A → Encoded) → List A → Encoded
encode_array item xs = encode_var_int (length xs) <+> encode_items item xs

unfoldable pub decode_array {ℓ} :
    {E : Type 0} {A : Type ℓ} → Confine E → Decoder E A → Decoder E (List A)
decode_array confine item = do
  len ← decode_var_int
  arr ← decode_items item len
  confine_with (confine 0 u32_max (length arr)) arr

-- ByteStr, ScriptBytes, ScriptPubkey, SigScript, RedeemScript, WitnessScript and TapScript: each
-- wraps a VarIntArray of bytes, and its codec is that of the array.
unfoldable pub encode_byte_str : Bytes → Encoded
encode_byte_str = encode_array encode_u8

unfoldable pub decode_byte_str : {E : Type 0} → Confine E → Decoder E Bytes
decode_byte_str confine = decode_array confine decode_u8

pub confine_with-Consumes :
    {E A : Type 0} (o : Option E) (a : A)
    → Consumes {E = E} (confine_with o a) (λ b cs. (o ≡ none) × (b ≡ a) × (cs ≡ []))
unfolding confine_with
confine_with-Consumes none a = Consumes-pure _ a (refl, refl, refl)
confine_with-Consumes (some e) a = Consumes-fail _ (confined e)

pub confine_with-Streams : {E A : Type 0} (o : Option E) (a : A) → Streams (confine_with o a)
unfolding confine_with
confine_with-Streams none a = Streams-pure a
confine_with-Streams {A} (some e) a = Streams-fail A (confined e)

-- A length within u32::MAX is what a VarIntArray may have.
abbrev pub IsArray : {A : Type 0} → (A → Type 0) → List A → Type 0
IsArray IsValid xs = All IsValid xs × (length xs ≤ u32_max)

module _ {E A : Type 0} {IsValid : A → Type 0} {encode : A → Encoded} {decode : Decoder E A}
    (c : IsCodec IsValid encode decode) {confine : Confine E} (k : IsConfine confine) where
  -- The writes of an array are bytes, counted; reading them back gives the array.
  array_counted :
      (xs : List A)
      → IsArray IsValid xs
      → (encode_array encode xs).counter ≡ length (encode_array encode xs).bytes
  unfolding encode_array
  array_counted xs (v, l) =
      rw (length-append (encode_var_int (length xs)).bytes (encode_items encode xs).bytes)
        (omega (arith, VarInt-IsCodec.counted (length xs) (omega arith), items_counted c xs v))

  array_write_bytes : (xs : List A) → IsArray IsValid xs → AreBytes (encode_array encode xs).bytes
  unfolding encode_array
  array_write_bytes xs (v, l) =
      AreBytes-append _ _ ((VarInt-IsCodec {E = E}).writes_bytes (length xs) (omega arith))
        (items_write_bytes c xs v)

  array_stream : Streams (decode_array confine decode)
  unfolding decode_array
  array_stream = Streams-bind decode_var_int _ VarInt-IsCodec.streams λ n.
      Streams-bind (decode_items decode n) _ (items_stream c n)
        λ xs. confine_with-Streams (confine 0 u32_max (length xs)) xs

  array_read :
      (xs : List A)
      → IsArray IsValid xs
      → Reads (decode_array confine decode) (encode_array encode xs).bytes xs
  unfolding encode_array decode_array confine_with
  array_read xs (v, l) rest = rw (
    append_assoc,
    VarInt-IsCodec.reads (length xs) (omega arith) ((encode_items encode xs).bytes ++ rest),
    items_read c xs v rest,
    k.accepts 0 u32_max (length xs) (omega arith) l,
  )

  decode_array-Consumes :
      Consumes
        (decode_array confine decode)
        (λ xs cs. IsArray IsValid xs × (cs ≡ (encode_array encode xs).bytes))
  unfolding encode_array decode_array
  decode_array-Consumes = Consumes-bind decode_var_int _ _ _ VarInt-IsCodec.consumes λ n cs (v, e).
      Consumes-bind (decode_items decode n) _ _ _ (items_consume c n) λ xs cs' (l, vs, e').
        Consumes-mono _ (confine_with-Consumes (confine 0 u32_max (length xs)) xs)
          λ ys cs'' (fits, same, nil).
            (rw same (vs, within k (length xs) fits), rw (same, nil, append-nil, e, e', l))

  pub Array-IsCodec : IsCodec (IsArray IsValid) (encode_array encode) (decode_array confine decode)
  Array-IsCodec = record {
    counted = array_counted;
    writes_bytes = array_write_bytes;
    reads = array_read;
    consumes = decode_array-Consumes;
    streams = array_stream;
  }

module _ {E : Type 0} {confine : Confine E} (k : IsConfine confine) where
  pub ByteStr-IsCodec : IsCodec (IsArray IsByte) encode_byte_str (decode_byte_str confine)
  unfolding encode_byte_str decode_byte_str
  ByteStr-IsCodec = Array-IsCodec U8-IsCodec k
