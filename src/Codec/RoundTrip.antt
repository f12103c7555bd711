-- ===== src/Codec/RoundTrip.antt =====
-- consensus/src/coding.rs: the round trips of VarInt and of ByteStr, from their codecs.
use bp_core.Base.{ℕ, ◌^◌, ◌<◌, ◌≡◌, ◌++◌, Bytes, IsByte, AreBytes}
use bp_core.Codec.{ok, Confine}
use bp_core.Codec.VarInt.{encode_var_int, decode_var_int, VarInt-IsCodec}
use bp_core.Codec.Array.{encode_byte_str, decode_byte_str, IsConfine, IsArray, ByteStr-IsCodec}

module _ (E : Type 0) where
  -- A u64 reads back from its variable-length form, and the decoder stops where the form ends.
  pub decode_var_int-encode_var_int :
      (n : ℕ)
      → n < 2 ^ 64
      → (rest : Bytes) → decode_var_int {E = E} ((encode_var_int n).bytes ++ rest) ≡ ok (n, rest)
  decode_var_int-encode_var_int = VarInt-IsCodec.reads

  -- A number that the decoder reads off an input of bytes is a u64, and the input is its one form,
  -- the shortest, then what is left.
  pub decode_var_int_canonical :
      (bs rest : Bytes) (n : ℕ)
      → AreBytes bs
      → decode_var_int {E = E} bs ≡ ok (n, rest)
      → (n < 2 ^ 64) × (bs ≡ (encode_var_int n).bytes ++ rest)
  decode_var_int_canonical bs rest n ab e =
      let (cs, p, (v, q), _) = (VarInt-IsCodec {E = E}).consumes bs rest n ab e in (v, rw (← q) p)

module _ {E : Type 0} {confine : Confine E} (k : IsConfine confine) where
  -- A byte string of at most u32::MAX bytes reads back from what it writes, and the decoder stops
  -- where the encoding ends.
  pub decode_byte_str-encode_byte_str :
      (s : Bytes)
      → IsArray IsByte s
      → (rest : Bytes) → decode_byte_str confine ((encode_byte_str s).bytes ++ rest) ≡ ok (s, rest)
  decode_byte_str-encode_byte_str = (ByteStr-IsCodec k).reads

  -- A byte string read off bytes has at most u32::MAX bytes, and the input is its encoding, then
  -- what is left.
  pub decode_byte_str_canonical :
      (bs rest s : Bytes)
      → AreBytes bs
      → decode_byte_str confine bs ≡ ok (s, rest)
      → IsArray IsByte s × (bs ≡ (encode_byte_str s).bytes ++ rest)
  decode_byte_str_canonical bs rest s ab e =
      let (cs, p, (v, q), _) = (ByteStr-IsCodec k).consumes bs rest s ab e in (v, rw (← q) p)
