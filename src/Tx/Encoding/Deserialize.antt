-- ===== src/Tx/Encoding/Deserialize.antt =====
-- consensus/src/coding.rs: `consensus_deserialize` and the panics of the transaction decoder.
use bp_core.Base.{
  ℕ, ◌==◌, ◌*◌, ◌-◌, ◌^◌, ◌≤◌, ◌<◌, ◌≡◌, ◌≢◌, refl, List, [], ◌∷◌, ◌++◌, length, Bytes, Bool, false,
  append-nil, arith, inl, inr, Bool-cases, leb, lt→leb,
}
use bp_core.Base.Int.{ℤ, IsI32}
use bp_core.Codec.{
  Confine, Decoder, Result, ok, err, panic, io, data_error, unexpected_eof, unsupported_segwit_flag,
  data_not_consumed, consensus_serialize, consensus_deserialize, u32_max,
}
use bp_core.Codec.Ints.{
  decode_u8, encode_i32, decode_u32, decode_i32, U8-IsCodec, U32-IsCodec, I32-IsCodec,
}
use bp_core.Codec.VarInt.{encode_var_int, decode_var_int, VarInt-IsCodec}
use bp_core.Codec.Array.{IsConfine, Array-IsCodec, decode_array, confine_with-Streams}
use bp_core.Codec.Laws.{
  Streams, Extends, Streams-bind, Streams-pure, Streams-if, Streams-fail, items_stream,
}
use bp_core.Tx.{TxIn, Tx, TxVer}
use bp_core.Tx.Encoding.{
  encode_tx, decode_tx_out, decode_tx, decode_tx_body, decode_tx_rest, decode_marked_inputs,
  decode_counted_inputs, with_capacity, decode_witnesses,
}
use bp_core.Tx.Encoding.Parts.{TxIn-IsCodec, TxOut-IsCodec}
use bp_core.Tx.Encoding.Witnesses.{witnesses-Streams}
use bp_core.Tx.Encoding.RoundTrip.{IsTx, decode_tx-encode_tx}

append-ne-nil : (r : Bytes) (b : ℕ) (back : Bytes) → r ++ b ∷ back ≢ []
append-ne-nil [] b back e = cc
append-ne-nil (x ∷ r) b back e = cc

-- A decoder that takes a whole input gives up with an end of file on every shorter one.
module _ {E A : Type 0} (a : A) (b : ℕ) (back : Bytes) where
  eof_of_Extends :
      (r s : Result E (A × Bytes))
      → Extends r (b ∷ back) s
      → s ≡ ok (a, [])
      → r ≡ err (io unexpected_eof)
  eof_of_Extends (ok (a', r)) s h e = absurd (append-ne-nil r b back (cc))
  eof_of_Extends (err (io unexpected_eof)) s h e = refl
  eof_of_Extends (err (data_error x)) s h e = cc
  eof_of_Extends panic s h e = cc

with_capacity-Streams :
    {E A : Type 0} (size n : ℕ) (d : Decoder E A) → Streams d → Streams (with_capacity size n d)
unfolding with_capacity
with_capacity-Streams size n d h bs more = elim (Bool-cases (leb (size * n) (2 ^ 63 - 1))) [
  | inl fits ↦ rw fits (h bs more)
  | inr big ↦ rw big
]

module _ {E : Type 0} {confine : Confine E} (k : IsConfine confine) (size : ℕ) where
  marked-Streams : Streams (decode_marked_inputs confine size)
  unfolding decode_marked_inputs
  marked-Streams = Streams-bind decode_u8 _ U8-IsCodec.streams λ flag.
      Streams-if (flag == 1) _ _ (Array-IsCodec (TxIn-IsCodec k) k).streams
        (Streams-fail (List TxIn) (unsupported_segwit_flag flag))

  counted-Streams : (n : ℕ) → Streams (decode_counted_inputs confine size n)
  unfolding decode_counted_inputs
  counted-Streams n = with_capacity-Streams size n _ (
      Streams-bind _ _ (items_stream (TxIn-IsCodec k) n)
        λ is. confine_with-Streams (confine 0 u32_max (length is)) is)

  rest-Streams :
      (version : TxVer) (segwit : Bool) (is : List TxIn)
      → Streams (decode_tx_rest confine size version segwit is)
  unfolding decode_tx_rest
  rest-Streams version segwit is =
      Streams-bind (decode_array confine (decode_tx_out confine)) _
        (Array-IsCodec (TxOut-IsCodec k) k).streams
        λ outputs.
          Streams-bind _ _
            (Streams-if segwit (decode_witnesses confine is) _ (witnesses-Streams k is)
              (Streams-pure is))
            λ is'. Streams-bind decode_u32 _ U32-IsCodec.streams λ lock_time. Streams-pure _

  decode_tx-Streams : Streams (decode_tx confine size)
  unfolding decode_tx decode_tx_body
  decode_tx-Streams = Streams-bind decode_i32 _ I32-IsCodec.streams λ version.
      Streams-bind decode_var_int _ VarInt-IsCodec.streams λ prefix.
        Streams-bind _ _ (Streams-if (prefix == 0) _ _ marked-Streams (counted-Streams prefix))
          (rest-Streams version (prefix == 0))

  -- On a version and a nonzero u64 prefix `n` such that `n` inputs would take 2 ^ 63 bytes of
  -- memory or more, the decoder panics, whatever follows.
  pub decode_tx_capacity :
      (version : ℤ) (n : ℕ) (rest : Bytes)
      → IsI32 version
      → 0 < n
      → n < 2 ^ 64
      → 2 ^ 63 ≤ size * n
      → decode_tx confine size ((encode_i32 version).bytes ++ ((encode_var_int n).bytes ++ rest))
        ≡ panic
  unfolding decode_tx decode_tx_body decode_counted_inputs with_capacity
  decode_tx_capacity version n rest vv pos below big =
      let nonzero : (n == 0) ≡ false = ground arith in
      rw (
        I32-IsCodec.reads version vv _,
        VarInt-IsCodec.reads n below rest,
        nonzero,
        lt→leb (size * n) (2 ^ 63 - 1) (omega arith),
      )

  module _ (tx : Tx) (v : IsTx tx) (n : tx.inputs ≢ [])
      (h : size * length tx.inputs ≤ 2 ^ 63 - 1) where
    -- The serialization of a transaction that the Rust types allow, with at least one input and
    -- inputs that take at most isize::MAX bytes of memory, deserializes to it.
    pub deserialize_serialize :
        consensus_deserialize (decode_tx confine size) (consensus_serialize encode_tx tx) ≡ ok tx
    unfolding consensus_deserialize consensus_serialize
    deserialize_serialize =
        let whole = decode_tx-encode_tx k size tx v n h [] in rw (rw append-nil at whole)

    -- The serialization of a transaction that the Rust types allow, with at least one input and
    -- inputs that take at most isize::MAX bytes of memory, followed by at least one byte, is
    -- refused as data not consumed.
    pub deserialize_trailing :
        (b : ℕ) (more : Bytes)
        → consensus_deserialize
            (decode_tx confine size)
            (consensus_serialize encode_tx tx ++ b ∷ more)
          ≡ err (data_error data_not_consumed)
    unfolding consensus_deserialize consensus_serialize
    deserialize_trailing b more = rw (decode_tx-encode_tx k size tx v n h (b ∷ more))

    -- Every proper prefix of the serialization of a transaction that the Rust types allow, with at
    -- least one input and inputs that take at most isize::MAX bytes of memory, is refused with an
    -- unexpected end of file.
    pub deserialize_truncated :
        (front : Bytes) (b : ℕ) (back : Bytes)
        → consensus_serialize encode_tx tx ≡ front ++ b ∷ back
        → consensus_deserialize (decode_tx confine size) front ≡ err (io unexpected_eof)
    unfolding consensus_deserialize consensus_serialize
    deserialize_truncated front b back e =
        let whole = decode_tx-encode_tx k size tx v n h [] in
        rw (
          eof_of_Extends tx b back _ _ (decode_tx-Streams front (b ∷ back))
            (rw (append-nil, e) at whole))
