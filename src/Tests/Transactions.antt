-- ===== src/Tests/Transactions.antt =====
-- Examples of the theorems on transactions.
use bp_core.Base.{
  ◌++◌, [], ◌∷◌, ◌≡◌, refl, append-nil, arith, length, Bytes, AreBytes, ◌*◌, ◌+◌, ◌%◌, ◌^◌, drop,
}
use bp_core.Base.Int.{pos, i32_bits}
use bp_core.Codec.{
  ok, panic, io, data_error, unexpected_eof, data_not_consumed, consensus_serialize, encode_items,
}
use bp_core.Codec.Ints.{encode_i32, encode_u8, encode_u32, encode_u64, encode_bytes32, to_le_bytes}
use bp_core.Codec.VarInt.{encode_var_int}
use bp_core.Codec.Array.{encode_array, encode_byte_str}
use bp_core.Codec.Exact.{exact, exact-IsConfine}
use bp_core.Base.Result.{ok as ok_text, err as err_text}
use bp_core.Text.Hex.{consensus}
use bp_core.Text.HexDigits.{hex_digits, hex_digits-IsHex}
use bp_core.Tx.Hex.{tx_display, tx_from_str, tx_from_str-tx_display, tx_text_refused}
use bp_core.Tx.{is_segwit}
use bp_core.Tx.Encoding.{
  encode_tx, decode_tx, segwit_marker, encode_tx_in, encode_outpoint, encode_tx_out,
  encode_witnesses,
}
use bp_core.Tx.Encoding.RoundTrip.{IsTx, decode_tx-encode_tx}
use bp_core.Tx.Encoding.Canonical.{decode_tx_canonical}
use bp_core.Tx.Encoding.Forms.{IsEncodingOf}
use bp_core.Tx.Encoding.Deserialize.{decode_tx_capacity}
use bp_core.Tx.Ids.{stripped}
use bp_core.Weights.{tx_weight_units}
use bp_core.Weights.Size.{tx_weight_units_lem}
use bp_core.Tests.{segwit_tx, segwit_tx-IsTx, segwit_tx-inputs, sevens}

decode_tx-encode_tx_example :
    decode_tx exact 160 ((encode_tx segwit_tx).bytes ++ 9 ∷ []) ≡ ok (segwit_tx, 9 ∷ [])
decode_tx-encode_tx_example =
    decode_tx-encode_tx exact-IsConfine 160 segwit_tx segwit_tx-IsTx segwit_tx-inputs (omega arith)
      (9 ∷ [])

-- The serialization of the transaction, written out.
abbrev segwit_bytes : Bytes
segwit_bytes =
    2
    ∷ 0
    ∷ 0
    ∷ 0
    ∷ 0
    ∷ 1
    ∷ 1
    ∷ (sevens 32
        ++ 1 ∷ 0 ∷ 0 ∷ 0 ∷ 0 ∷ 255 ∷ 255 ∷ 255 ∷ 255 ∷ 1 ∷ 136 ∷ 19 ∷ 0 ∷ 0 ∷ 0 ∷ 0 ∷ 0 ∷ 0 ∷ 1
          ∷ 106 ∷ 2 ∷ 2 ∷ 1 ∷ 2 ∷ 1 ∷ 3 ∷ 0 ∷ 0 ∷ 0 ∷ 0 ∷ [])

segwit_bytes-eq : (encode_tx segwit_tx).bytes ≡ segwit_bytes
unfolding encode_tx encode_i32 to_le_bytes i32_bits segwit_marker is_segwit encode_u8 encode_array
    encode_var_int encode_items encode_tx_in encode_outpoint encode_bytes32 encode_u32
    encode_byte_str encode_tx_out encode_u64 encode_witnesses
segwit_bytes-eq = refl

segwit_bytes-read : decode_tx exact 160 segwit_bytes ≡ ok (segwit_tx, [])
segwit_bytes-read = rw (← segwit_bytes-eq) (
    rw append-nil at (
      decode_tx-encode_tx exact-IsConfine 160 segwit_tx segwit_tx-IsTx segwit_tx-inputs
        (omega arith) []))

decode_tx_canonical_example :
    (cs : Bytes) × (segwit_bytes ≡ cs ++ [])
    × (IsTx segwit_tx × IsEncodingOf segwit_tx cs)
    × AreBytes []
decode_tx_canonical_example =
    decode_tx_canonical exact-IsConfine 160 segwit_bytes [] segwit_tx (ground arith)
      segwit_bytes-read

decode_tx_capacity_example :
    decode_tx exact 160 ((encode_i32 (pos 1)).bytes ++ ((encode_var_int (2 ^ 60)).bytes ++ []))
    ≡ panic
decode_tx_capacity_example =
    decode_tx_capacity exact-IsConfine 160 (pos 1) (2 ^ 60) [] (omega arith) (omega arith)
      (omega arith) (omega arith)

tx_weight_units_example :
    tx_weight_units segwit_tx
    ≡ (3 * length (stripped segwit_tx) + length (encode_tx segwit_tx).bytes) % 2 ^ 32
tx_weight_units_example = tx_weight_units_lem segwit_tx segwit_tx-IsTx

tx_from_str-tx_display_example :
    tx_from_str hex_digits exact 160 (tx_display hex_digits segwit_tx) ≡ ok_text segwit_tx
tx_from_str-tx_display_example =
    tx_from_str-tx_display hex_digits-IsHex exact-IsConfine 160 segwit_tx segwit_tx-IsTx
      segwit_tx-inputs (omega arith)

tx_text_refused_example :
    (tx_from_str hex_digits exact 160 (hex_digits.to_hex (2 ∷ 0 ∷ 0 ∷ 0 ∷ []))
      ≡ err_text (consensus (io unexpected_eof)))
    × (tx_from_str hex_digits exact 160
          (hex_digits.to_hex (consensus_serialize encode_tx segwit_tx ++ 7 ∷ []))
        ≡ err_text (consensus (data_error data_not_consumed)))
tx_text_refused_example =
    tx_text_refused hex_digits-IsHex exact-IsConfine 160 segwit_tx segwit_tx-IsTx segwit_tx-inputs
      (omega arith) (2 ∷ 0 ∷ 0 ∷ 0 ∷ []) 0 (drop 5 segwit_bytes) 7 []
      (unfold consensus_serialize in segwit_bytes-eq) (omega arith)
