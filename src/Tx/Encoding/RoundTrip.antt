-- ===== src/Tx/Encoding/RoundTrip.antt =====
-- consensus/src/coding.rs: reading back a transaction that was written.
use bp_core.Base.{
  ℕ, ◌==◌, ◌*◌, ◌-◌, ◌^◌, ◌≤◌, ◌<◌, ◌≡◌, ◌≢◌, refl, List, [], ◌∷◌, ◌++◌, length, map, Bytes, true,
  false, All, append_assoc, arith, inl, inr, Bool-cases, length-map, le→leb,
}
use bp_core.Base.Int.{IsI32}
use bp_core.Codec.{Confine, encode_items, decode_items, u32_max, ok, confine_with}
use bp_core.Codec.Ints.{
  encode_u8, decode_u8, encode_i32, encode_u32, decode_i32, U8-IsCodec, U32-IsCodec, I32-IsCodec,
}
use bp_core.Codec.VarInt.{encode_var_int, decode_var_int, VarInt-IsCodec}
use bp_core.Codec.Array.{IsConfine, IsArray, Array-IsCodec, encode_array}
use bp_core.Codec.Laws.{Reads, Reads-bind, items_read}
use bp_core.Tx.{TxIn, Tx, any_witness, is_segwit}
use bp_core.Tx.Encoding.{
  encode_tx_in, decode_tx_in, encode_tx_out, encode_witnesses, encode_tx, decode_tx, decode_tx_body,
  decode_tx_rest, decode_marked_inputs, decode_counted_inputs, with_capacity,
}
use bp_core.Tx.Encoding.Parts.{IsTxIn, IsTxOut, IsBareTxIn, TxIn-IsCodec, TxOut-IsCodec}
use bp_core.Tx.Encoding.Witnesses.{
  bare, HasWitness, encode_tx_segwit, encode_tx_plain, encode_items-bare, bare_of_any_witness,
  witnesses-Reads,
}

-- A transaction that the Rust types allow.
pub record IsTx (tx : Tx) : Type 0 where
  pub version : IsI32 tx.version
  pub inputs : IsArray IsTxIn tx.inputs
  pub outputs : IsArray IsTxOut tx.outputs
  pub lock_time : tx.lock_time < 2 ^ 32

pub bare_inputs :
    (is : List TxIn) → All IsTxIn is → All (λ i. IsBareTxIn i × (i.witness ≡ [])) (map bare is)
bare_inputs [] v = tt
bare_inputs (i ∷ is) (v, vs) = ((v.0, refl), bare_inputs is vs)

pub input_witnesses : (is : List TxIn) → All IsTxIn is → All HasWitness is
input_witnesses [] v = tt
input_witnesses (i ∷ is) (v, vs) = (v.1, input_witnesses is vs)

zero-Reads : {E : Type 0} → Reads {E = E} decode_var_int (0 ∷ []) 0
unfolding encode_var_int encode_u8
zero-Reads = VarInt-IsCodec.reads 0 (omega arith)

length-ne-zero : (is : List TxIn) → is ≢ [] → (length is == 0) ≡ false
length-ne-zero [] n = absurd (n refl)
length-ne-zero (i ∷ is) n = ground arith

module _ {E : Type 0} {confine : Confine E} (k : IsConfine confine) (size : ℕ) (tx : Tx)
    (v : IsTx tx) where
  rest_segwit-Reads :
      Reads
        (decode_tx_rest confine size tx.version true (map bare tx.inputs))
        ((encode_array encode_tx_out tx.outputs).bytes
          ++ ((encode_witnesses tx.inputs).bytes ++ (encode_u32 tx.lock_time).bytes))
        tx
  unfolding decode_tx_rest
  rest_segwit-Reads rest = rw (
    append_assoc,
    (Array-IsCodec (TxOut-IsCodec k) k).reads tx.outputs v.outputs _,
    append_assoc,
    witnesses-Reads k tx.inputs (input_witnesses tx.inputs v.inputs.0) _,
    U32-IsCodec.reads tx.lock_time v.lock_time rest,
  )

  rest_plain-Reads :
      any_witness tx.inputs ≡ false
      → Reads
          (decode_tx_rest confine size tx.version false (map bare tx.inputs))
          ((encode_array encode_tx_out tx.outputs).bytes ++ (encode_u32 tx.lock_time).bytes)
          tx
  unfolding decode_tx_rest
  rest_plain-Reads e rest = rw (
    append_assoc,
    (Array-IsCodec (TxOut-IsCodec k) k).reads tx.outputs v.outputs _,
    bare_of_any_witness tx.inputs e,
    U32-IsCodec.reads tx.lock_time v.lock_time rest,
  )

  array-bare :
      (encode_array encode_tx_in (map bare tx.inputs)).bytes
      ≡ (encode_array encode_tx_in tx.inputs).bytes
  unfolding encode_array
  array-bare = rw (encode_items-bare tx.inputs, length-map bare tx.inputs)

  marked-Reads :
      Reads
        (decode_marked_inputs confine size)
        (1 ∷ (encode_array encode_tx_in tx.inputs).bytes)
        (map bare tx.inputs)
  unfolding decode_marked_inputs encode_u8
  marked-Reads =
      Reads-bind decode_u8 _ (1 ∷ []) _ 1 (map bare tx.inputs) (U8-IsCodec.reads 1 (omega arith)) (
        rw (← array-bare) (
          (Array-IsCodec (TxIn-IsCodec k) k).reads (map bare tx.inputs)
            (bare_inputs tx.inputs v.inputs.0, rw (length-map bare tx.inputs) (v.inputs.1))))

  items-Reads :
      Reads
        (decode_items (decode_tx_in confine) (length tx.inputs))
        (encode_items encode_tx_in tx.inputs).bytes
        (map bare tx.inputs)
  items-Reads =
      rw (← length-map bare tx.inputs, ← encode_items-bare tx.inputs)
        (items_read (TxIn-IsCodec k) (map bare tx.inputs) (bare_inputs tx.inputs v.inputs.0))

  counted-Reads :
      size * length tx.inputs ≤ 2 ^ 63 - 1
      → Reads
          (decode_counted_inputs confine size (length tx.inputs))
          (encode_items encode_tx_in tx.inputs).bytes
          (map bare tx.inputs)
  unfolding decode_counted_inputs with_capacity confine_with
  counted-Reads h rest = rw (
    le→leb _ _ h,
    items-Reads rest,
    length-map bare tx.inputs,
    k.accepts 0 u32_max (length tx.inputs) (omega arith) v.inputs.1,
  )

  version-Reads : Reads {E = E} decode_i32 (encode_i32 tx.version).bytes tx.version
  version-Reads = I32-IsCodec.reads tx.version v.version

  marked_body-Reads :
      Reads
        (decode_tx_body confine size tx.version 0)
        (1
          ∷ ((encode_array encode_tx_in tx.inputs).bytes
              ++ ((encode_array encode_tx_out tx.outputs).bytes
                  ++ ((encode_witnesses tx.inputs).bytes ++ (encode_u32 tx.lock_time).bytes))))
        tx
  unfolding decode_tx_body
  marked_body-Reads =
      Reads-bind (decode_marked_inputs confine size) (decode_tx_rest confine size tx.version true)
        (1 ∷ (encode_array encode_tx_in tx.inputs).bytes) _ (map bare tx.inputs) tx marked-Reads
        rest_segwit-Reads

  counted_body-Reads :
      any_witness tx.inputs ≡ false
      → tx.inputs ≢ []
      → size * length tx.inputs ≤ 2 ^ 63 - 1
      → Reads
          (decode_tx_body confine size tx.version (length tx.inputs))
          ((encode_items encode_tx_in tx.inputs).bytes
            ++ ((encode_array encode_tx_out tx.outputs).bytes ++ (encode_u32 tx.lock_time).bytes))
          tx
  unfolding decode_tx_body
  counted_body-Reads e n h = rw (length-ne-zero tx.inputs n) (
      Reads-bind (decode_counted_inputs confine size (length tx.inputs))
        (decode_tx_rest confine size tx.version false) _ _ (map bare tx.inputs) tx (counted-Reads h)
        (rest_plain-Reads e))

  segwit-Reads : is_segwit tx ≡ true → Reads (decode_tx confine size) (encode_tx tx).bytes tx
  unfolding decode_tx
  segwit-Reads e = rw (encode_tx_segwit tx e) (
      Reads-bind decode_i32 _ _ _ tx.version tx version-Reads (
        Reads-bind decode_var_int (decode_tx_body confine size tx.version) (0 ∷ [])
          (1
            ∷ ((encode_array encode_tx_in tx.inputs).bytes
                ++ ((encode_array encode_tx_out tx.outputs).bytes
                    ++ ((encode_witnesses tx.inputs).bytes ++ (encode_u32 tx.lock_time).bytes))))
          0 tx zero-Reads marked_body-Reads))

  plain-Reads :
      is_segwit tx ≡ false
      → tx.inputs ≢ []
      → size * length tx.inputs ≤ 2 ^ 63 - 1
      → Reads (decode_tx confine size) (encode_tx tx).bytes tx
  unfolding decode_tx encode_array
  plain-Reads e n h =
      rw (encode_tx_plain tx e, append_assoc)
        (Reads-bind decode_i32 _ _ _ tx.version tx version-Reads (
          Reads-bind decode_var_int (decode_tx_body confine size tx.version) _ _ (length tx.inputs)
            tx (VarInt-IsCodec.reads (length tx.inputs) (omega arith))
            (counted_body-Reads (unfold is_segwit in e) n h)))

  -- A transaction that the Rust types allow, with at least one input and inputs that take at most
  -- isize::MAX bytes of memory, reads back from what it writes, whatever follows, and the decoder
  -- stops where the encoding ends.
  pub decode_tx-encode_tx :
      tx.inputs ≢ []
      → size * length tx.inputs ≤ 2 ^ 63 - 1
      → (rest : Bytes) → decode_tx confine size ((encode_tx tx).bytes ++ rest) ≡ ok (tx, rest)
  decode_tx-encode_tx n h rest = elim (Bool-cases (is_segwit tx)) [
    | inl e ↦ segwit-Reads e rest
    | inr e ↦ plain-Reads e n h rest
  ]
