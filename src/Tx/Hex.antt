-- ===== src/Tx/Hex.antt =====
-- consensus/src/tx.rs: the text of a transaction, the hexadecimal form of its serialization, and its
-- parsing.
use bp_core.Base.{
  ℕ, ◌*◌, ◌-◌, ◌^◌, ◌≤◌, ◌≡◌, ◌≢◌, refl, AreBytes, AreBytes-left, AreBytes-append, ◌∙◌, [], ◌∷◌,
  ◌++◌, length, Bytes, append-nil,
}
use bp_core.Base.Result.{Result, ok, err}
use bp_core.Codec.{Confine, consensus_serialize, io, data_error, unexpected_eof, data_not_consumed}
use bp_core.Codec.Array.{IsConfine}
use bp_core.Text.{Text}
use bp_core.Text.Hex.{
  HexCodec, IsHex, BlockDataParseError, consensus, map_consensus, lower_hex, data_from_str,
  from_str_at, from_str_inv, deserialize_inv,
}
use bp_core.Tx.{Tx}
use bp_core.Tx.Encoding.{encode_tx, decode_tx}
use bp_core.Tx.Encoding.Canonical.{decode_tx_canonical}
use bp_core.Tx.Encoding.Forms.{IsEncodingOf}
use bp_core.Tx.Encoding.Counter.{encode_tx_counted}
use bp_core.Tx.Encoding.Deserialize.{
  deserialize_serialize, deserialize_trailing, deserialize_truncated,
}
use bp_core.Tx.Encoding.RoundTrip.{IsTx}

-- `LowerHex for Tx`
unfoldable pub tx_display : {H : Type 0} → HexCodec H → Tx → Text
unfolding lower_hex
tx_display hex tx = lower_hex hex encode_tx tx

-- `Tx::from_str`
unfoldable pub tx_from_str :
    {H E : Type 0} → HexCodec H → Confine E → ℕ → Text → Result (BlockDataParseError H E) Tx
unfolding data_from_str
tx_from_str hex confine size_of_tx_in s = data_from_str hex (decode_tx confine size_of_tx_in) s

module _ {H E : Type 0} {hex : HexCodec H} {confine : Confine E} (h : IsHex hex)
    (k : IsConfine confine) (size : ℕ) where
  -- If a text is read as a transaction, it is one that the Rust types allow, and the bytes of the
  -- text are what `encode_tx` writes of it or, where it has no witness, its form with the marker
  -- and the flag.
  pub tx_from_str_canonical :
      (s : Text) (tx : Tx)
      → tx_from_str hex confine size s ≡ ok tx
      → (bs : Bytes) × (hex.from_hex s ≡ ok bs) × IsTx tx × IsEncodingOf tx bs
  unfolding tx_from_str
  tx_from_str_canonical s tx e =
      let (bs, e₁, e₂) = from_str_inv hex (decode_tx confine size) s tx e in
      let whole = deserialize_inv (decode_tx confine size) bs tx e₂ in
      let (cs, e₃, (v, f), _) = decode_tx_canonical k size bs [] tx (h.hex_bytes s bs e₁) whole in
      (bs, e₁, v, rw (e₃, append-nil) f)

  module _ (tx : Tx) (v : IsTx tx) (n : tx.inputs ≢ [])
      (room : size * length tx.inputs ≤ 2 ^ 63 - 1) where
    -- A transaction that the Rust types allow, with at least one input and inputs that take at most
    -- isize::MAX bytes of memory, reads back from its text.
    pub tx_from_str-tx_display : tx_from_str hex confine size (tx_display hex tx) ≡ ok tx
    unfolding tx_from_str tx_display consensus_serialize
    tx_from_str-tx_display =
        from_str_at hex (decode_tx confine size) _ (consensus_serialize encode_tx tx)
          (h.hex_reads _ (encode_tx_counted tx v).1)
        ∙ rw (deserialize_serialize k size tx v n room) (unfold map_consensus in refl)

    -- For a transaction that the Rust types allow, with at least one input and inputs that take at
    -- most isize::MAX bytes of memory: the text of a proper prefix of its serialization is refused
    -- with an unexpected end of file, and that of its serialization followed by at least one byte
    -- as data not consumed.
    pub tx_text_refused :
        (front : Bytes) (b : ℕ) (back : Bytes) (c : ℕ) (more : Bytes)
        → consensus_serialize encode_tx tx ≡ front ++ b ∷ back
        → AreBytes (c ∷ more)
        → (tx_from_str hex confine size (hex.to_hex front) ≡ err (consensus (io unexpected_eof)))
          × (tx_from_str hex confine size
                (hex.to_hex (consensus_serialize encode_tx tx ++ c ∷ more))
              ≡ err (consensus (data_error data_not_consumed)))
    unfolding tx_from_str consensus_serialize
    tx_text_refused front b back c more cut bytes =
        let written = (encode_tx_counted tx v).1 in
        (
          from_str_at hex (decode_tx confine size) _ front
                (h.hex_reads front (AreBytes-left front (b ∷ back) (rw cut at written)))
              ∙ rw (deserialize_truncated k size tx v n room front b back cut)
                  (unfold map_consensus in refl),
          from_str_at hex (decode_tx confine size) _ ((encode_tx tx).bytes ++ c ∷ more)
                (h.hex_reads _ (AreBytes-append (encode_tx tx).bytes (c ∷ more) written bytes))
              ∙ rw (deserialize_trailing k size tx v n room c more) (unfold map_consensus in refl),
        )
