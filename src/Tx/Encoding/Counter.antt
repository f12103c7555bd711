-- ===== src/Tx/Encoding/Counter.antt =====
-- consensus/src/coding.rs: the count that the encoder of transactions returns, and its bytes.
use bp_core.Base.{
  AreBytes, AreBytes-append, ℕ, ◌≤◌, not, ◌&&◌, ◌≡◌, refl, arith, List, [], ◌∷◌, length,
  length-append, length-map, map, Bool, true, false, All, if◌then◌else◌,
}
use bp_core.Codec.{Decoder, Encoded, ◌<+>◌, nothing, encode_items, u32_max}
use bp_core.Codec.Laws.{IsCodec}
use bp_core.Codec.Ints.{encode_u8, U32-IsCodec, I32-IsCodec}
use bp_core.Codec.Array.{Array-IsCodec, encode_array}
use bp_core.Codec.Newtypes.{encode_witness}
use bp_core.Codec.Exact.{exact-IsConfine}
use bp_core.Tx.{TxIn, Tx, is_segwit, is_empty}
use bp_core.Tx.Encoding.{encode_tx, encode_tx_in, encode_witnesses, segwit_marker}
use bp_core.Tx.Encoding.Parts.{IsTxIn, TxIn-IsCodec, TxOut-IsCodec, Witness-IsCodec}
use bp_core.Tx.Encoding.Witnesses.{bare, HasWitness, encode_items-bare}
use bp_core.Tx.Encoding.RoundTrip.{IsTx, bare_inputs, input_witnesses}

-- The count is that of the bytes written, and they are bytes.
abbrev IsWritten : Encoded → Type 0
IsWritten e = (e.counter ≡ length e.bytes) × AreBytes e.bytes

codec-IsWritten :
    {E A : Type 0} {IsValid : A → Type 0} {encode : A → Encoded} {decode : Decoder E A}
    (c : IsCodec IsValid encode decode) (a : A)
    → IsValid a
    → IsWritten (encode a)
codec-IsWritten c a v = (c.counted a v, c.writes_bytes a v)

then-IsWritten : (a b : Encoded) → IsWritten a → IsWritten b → IsWritten (a <+> b)
then-IsWritten a b (h, ha) (k, kb) =
    (rw (length-append a.bytes b.bytes) (omega arith), AreBytes-append a.bytes b.bytes ha kb)

array-bare :
    (is : List TxIn) → encode_array encode_tx_in (map bare is) ≡ encode_array encode_tx_in is
unfolding encode_array
array-bare is = rw (encode_items-bare is, length-map bare is)

inputs-IsWritten :
    (is : List TxIn)
    → All IsTxIn is
    → length is ≤ u32_max
    → IsWritten (encode_array encode_tx_in is)
inputs-IsWritten is v l = rw (← array-bare is) (
    codec-IsWritten (Array-IsCodec (TxIn-IsCodec exact-IsConfine) exact-IsConfine) (map bare is)
      (bare_inputs is v, rw (length-map bare is) l))

witnesses-IsWritten : (is : List TxIn) → All HasWitness is → IsWritten (encode_witnesses is)
unfolding encode_witnesses encode_items
witnesses-IsWritten [] v = (refl, tt)
witnesses-IsWritten (i ∷ is) (v, vs) =
    then-IsWritten (encode_witness i.witness) (encode_witnesses is)
      (codec-IsWritten (Witness-IsCodec exact-IsConfine) i.witness v) (witnesses-IsWritten is vs)

marker-IsWritten : (b : Bool) → IsWritten (segwit_marker b)
unfolding segwit_marker encode_u8
marker-IsWritten true = (refl, omega arith)
marker-IsWritten false = (refl, tt)

if-IsWritten : (b : Bool) (e : Encoded) → IsWritten e → IsWritten (if b then e else nothing)
if-IsWritten true e h = h
if-IsWritten false e h = (refl, tt)

-- For a transaction that the Rust types allow, the count that `encode_tx` returns is the number of
-- bytes it writes, and each is below 256.
pub encode_tx_counted :
    (tx : Tx)
    → IsTx tx
    → ((encode_tx tx).counter ≡ length (encode_tx tx).bytes) × AreBytes (encode_tx tx).bytes
unfolding encode_tx
encode_tx_counted tx v =
    then-IsWritten _ _ (codec-IsWritten (I32-IsCodec {E = ℕ}) tx.version v.version) (
      then-IsWritten _ _ (marker-IsWritten (is_segwit tx && not (is_empty tx.inputs))) (
        then-IsWritten _ _ (inputs-IsWritten tx.inputs v.inputs.0 v.inputs.1) (
          then-IsWritten _ _
            (codec-IsWritten (Array-IsCodec (TxOut-IsCodec exact-IsConfine) exact-IsConfine)
              tx.outputs v.outputs)
            (then-IsWritten _ _
              (if-IsWritten (is_segwit tx) (encode_witnesses tx.inputs)
                (witnesses-IsWritten tx.inputs (input_witnesses tx.inputs v.inputs.0)))
              (codec-IsWritten (U32-IsCodec {E = ℕ}) tx.lock_time v.lock_time)))))
