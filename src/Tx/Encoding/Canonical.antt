-- ===== src/Tx/Encoding/Canonical.antt =====
-- consensus/src/coding.rs: what a transaction that was read tells of the bytes it was read from.
use bp_core.Base.{
  ℕ, ◌==◌, ==_iff, ◌≡◌, refl, sym, List, [], ◌∷◌, ◌++◌, length, Bytes, AreBytes, true, false, All,
  append-nil, inl, inr, Bool-cases,
}
use bp_core.Base.Int.{IsI32}
use bp_core.Codec.{Confine, ◌>>=◌, encode_items, decode_items, u32_max, ok, unsupported_segwit_flag}
use bp_core.Codec.Ints.{
  encode_u8, decode_u8, encode_i32, decode_u32, decode_i32, U8-IsCodec, U32-IsCodec, I32-IsCodec,
}
use bp_core.Codec.VarInt.{encode_var_int, decode_var_int, VarInt-IsCodec}
use bp_core.Codec.Array.{
  IsConfine, IsArray, Array-IsCodec, encode_array, decode_array, confine_with-Consumes, within,
}
use bp_core.Codec.Laws.{
  Consumes, Consumes-bind, Consumes-pure, Consumes-mono, Consumes-if, Consumes-fail, items_consume,
}
use bp_core.Tx.{TxIn, Tx, TxVer, any_witness, is_segwit}
use bp_core.Tx.Encoding.{
  encode_tx_in, decode_tx_in, decode_tx_out, encode_witnesses, decode_witnesses, decode_tx,
  decode_tx_body, decode_tx_rest, decode_marked_inputs, decode_counted_inputs,
}
use bp_core.Tx.Encoding.Parts.{TxIn-IsCodec, TxOut-IsCodec}
use bp_core.Tx.Encoding.Witnesses.{array-eq_of_bare, witnesses-Consumes}
use bp_core.Tx.Encoding.RoundTrip.{IsTx}
use bp_core.Tx.Encoding.Forms.{
  encode_marked, IsRead, with_capacity-Consumes, no_witness, empty_witnesses, IsRestOf,
  IsTx-of_rest, IsEncodingOf, marked-IsEncodingOf, counted_bytes,
}

module _ {E : Type 0} {confine : Confine E} (k : IsConfine confine) (size : ℕ) where
  marked-Consumes :
      Consumes
        (decode_marked_inputs confine size)
        (λ is cs. IsArray IsRead is × (cs ≡ 1 ∷ (encode_array encode_tx_in is).bytes))
  unfolding decode_marked_inputs encode_u8
  marked-Consumes = Consumes-bind decode_u8 _ _ _ U8-IsCodec.consumes λ flag cs (v, e).
      Consumes-if (flag == 1) _ _ _
        (λ one.
          Consumes-mono _ (Array-IsCodec (TxIn-IsCodec k) k).consumes
            λ is cs' (v', e'). (v', rw (e, e', (==_iff flag 1).0 one)))
        (λ other. Consumes-fail _ (unsupported_segwit_flag flag))

  counted-Consumes :
      (n : ℕ)
      → Consumes (decode_counted_inputs confine size n) (λ is cs.
        (length is ≡ n) × IsArray IsRead is × (cs ≡ (encode_items encode_tx_in is).bytes))
  unfolding decode_counted_inputs
  counted-Consumes n = with_capacity-Consumes size n _ _ (
      Consumes-bind (decode_items (decode_tx_in confine) n) _ _ _ (items_consume (TxIn-IsCodec k) n)
        λ is cs (l, v, e).
          Consumes-mono _ (confine_with-Consumes (confine 0 u32_max (length is)) is)
            λ is' cs' (fits, same, nil).
              (rw same l, (rw same (v, within k (length is) fits)), rw (same, nil, append-nil) e))

  rest_segwit-Consumes :
      (version : TxVer) (is : List TxIn)
      → Consumes
          (decode_tx_rest confine size version true is)
          (λ tx cs. IsRestOf version is (encode_witnesses tx.inputs).bytes tx cs)
  unfolding decode_tx_rest
  rest_segwit-Consumes version is =
      Consumes-bind (decode_array confine (decode_tx_out confine)) _ _ _
        (Array-IsCodec (TxOut-IsCodec k) k).consumes
        λ outputs cs (v, e).
          Consumes-bind (decode_witnesses confine is) _ _ _ (witnesses-Consumes k is)
            λ is' cs' (ws, same, e').
              Consumes-bind decode_u32 _ _ _ U32-IsCodec.consumes λ lock_time cs'' (l, e'').
                Consumes-pure _ _ (record {
                  version_eq = refl;
                  inputs_eq = same;
                  have_witness = ws;
                  outputs = v;
                  lock_time = l;
                  bytes = rw (append-nil, e, e', e'');
                })

  rest_plain-Consumes :
      (version : TxVer) (is : List TxIn)
      → All IsRead is
      → Consumes
          (decode_tx_rest confine size version false is)
          (λ tx cs. (any_witness tx.inputs ≡ false) × IsRestOf version is [] tx cs)
  unfolding decode_tx_rest
  rest_plain-Consumes version is r =
      Consumes-bind (decode_array confine (decode_tx_out confine)) _ _ _
        (Array-IsCodec (TxOut-IsCodec k) k).consumes
        λ outputs cs (v, e).
          Consumes-bind decode_u32 _ _ _ U32-IsCodec.consumes λ lock_time cs'' (l, e'').
            Consumes-pure _ _ (
              no_witness is r,
              record {
                version_eq = refl;
                inputs_eq = refl;
                have_witness = empty_witnesses is r;
                outputs = v;
                lock_time = l;
                bytes = rw (append-nil, e, e'');
              },
            )

  -- The two ways on from the prefix.
  marked_body-Consumes :
      (version : TxVer)
      → IsI32 version
      → Consumes
          (decode_marked_inputs confine size >>= decode_tx_rest confine size version true)
          (λ tx cs. IsTx tx × IsEncodingOf tx ((encode_i32 version).bytes ++ (0 ∷ cs)))
  unfolding encode_marked
  marked_body-Consumes version vv =
      Consumes-bind (decode_marked_inputs confine size) _ _ _ marked-Consumes λ is cs (v, e).
        Consumes-mono _ (rest_segwit-Consumes version is) λ tx cs' r. (
          IsTx-of_rest version is _ tx cs' vv v r,
          marked-IsEncodingOf tx _
              (rw (e, r.bytes, array-eq_of_bare is tx.inputs (sym r.inputs_eq), ← r.version_eq)),
        )

  counted_body-Consumes :
      (version : TxVer) (n : ℕ)
      → IsI32 version
      → Consumes
          (decode_counted_inputs confine size n >>= decode_tx_rest confine size version false)
          (λ tx cs.
            IsTx tx
            × IsEncodingOf tx ((encode_i32 version).bytes ++ ((encode_var_int n).bytes ++ cs)))
  unfolding is_segwit
  counted_body-Consumes version n vv =
      Consumes-bind (decode_counted_inputs confine size n) _ _ _ (counted-Consumes n)
        λ is cs (l, v, e). Consumes-mono _ (rest_plain-Consumes version is v.0) λ tx cs' (plain, r).
          (
            IsTx-of_rest version is _ tx cs' vv v r,
            inl (counted_bytes version n is tx cs cs' l plain e r),
          )

  body-Consumes :
      (version : TxVer) (prefix : ℕ)
      → IsI32 version
      → Consumes (decode_tx_body confine size version prefix) (λ tx cs.
        IsTx tx
        × IsEncodingOf tx ((encode_i32 version).bytes ++ ((encode_var_int prefix).bytes ++ cs)))
  unfolding decode_tx_body
  body-Consumes version prefix vv = elim (Bool-cases (prefix == 0)) [
    | inl zero' ↦ rw zero' (
        Consumes-mono _ (marked_body-Consumes version vv) λ tx cs (v, e).
          (v, rw ((==_iff prefix 0).0 zero') (unfold encode_var_int encode_u8 in e)))
    | inr more ↦ rw more (counted_body-Consumes version prefix vv)
  ]

  -- If a transaction is read off an input of bytes, it is one that the Rust types allow, and the
  -- bytes taken are what `encode_tx` writes of it or, where it has no witness, its form with the
  -- marker and the flag.
  pub decode_tx_canonical :
      (bs rest : Bytes) (tx : Tx)
      → AreBytes bs
      → decode_tx confine size bs ≡ ok (tx, rest)
      → (cs : Bytes) × (bs ≡ cs ++ rest) × (IsTx tx × IsEncodingOf tx cs) × AreBytes rest
  unfolding decode_tx
  decode_tx_canonical = Consumes-bind decode_i32 _ _ _ I32-IsCodec.consumes λ version cs (vv, e).
      Consumes-bind decode_var_int _ _ _ VarInt-IsCodec.consumes λ prefix cs' (_, e').
        Consumes-mono _ (body-Consumes version prefix vv) λ tx cs'' (v, h). (v, rw (e, e') h)
