-- ===== src/Block/Hex.antt =====
-- consensus/src/block.rs: the text of a block header, the hexadecimal form of its serialization, and
-- its parsing.
use bp_core.Base.{◌≡◌, ◌↔◌, ◌∙◌, refl, [], append-nil}
use bp_core.Base.Result.{Result, ok}
use bp_core.Codec.{consensus_serialize, consensus_deserialize}
use bp_core.Text.{Text}
use bp_core.Text.Hex.{
  HexCodec, IsHex, BlockDataParseError, map_consensus, lower_hex, data_from_str, from_str_at,
  from_str_inv, deserialize_inv,
}
use bp_core.Block.{
  BlockHeader, IsBlockHeader, encode_block_header, decode_block_header,
  decode_block_header-encode_block_header, decode_block_header_canonical, BlockHeader-IsCodec,
}

-- `LowerHex for BlockHeader`
unfoldable pub header_display : {H : Type 0} → HexCodec H → BlockHeader → Text
unfolding lower_hex
header_display hex header = lower_hex hex encode_block_header header

-- `BlockHeader::from_str`
unfoldable pub header_from_str :
    {H E : Type 0} → HexCodec H → Text → Result (BlockDataParseError H E) BlockHeader
unfolding data_from_str
header_from_str hex s = data_from_str hex decode_block_header s

module _ {H E : Type 0} {hex : HexCodec H} (h : IsHex hex) where
  header_reads :
      (s : Text) (header : BlockHeader)
      → IsBlockHeader header
      → hex.from_hex s ≡ ok (encode_block_header header).bytes
      → header_from_str {E = E} hex s ≡ ok header
  unfolding header_from_str
  header_reads s header v e =
      let whole = decode_block_header-encode_block_header E header v [] in
      from_str_at hex decode_block_header s _ e
      ∙ (unfold consensus_deserialize map_consensus in rw (rw append-nil at whole) refl)

  header_read :
      (s : Text) (header : BlockHeader)
      → header_from_str {E = E} hex s ≡ ok header
      → IsBlockHeader header × (hex.from_hex s ≡ ok (encode_block_header header).bytes)
  unfolding header_from_str
  header_read s header e =
      let (bs, e₁, e₂) = from_str_inv hex decode_block_header s header e in
      let (v, e₃) =
        decode_block_header_canonical E bs [] header (h.hex_bytes s bs e₁)
          (deserialize_inv decode_block_header bs header e₂) in
      (v, rw (← append-nil (encode_block_header header).bytes, ← e₃) e₁)

  -- A text is read as a header exactly if the header is one that the Rust types allow and the bytes
  -- of the text are its encoding.
  pub header_from_str_iff :
      (s : Text) (header : BlockHeader)
      → (header_from_str {E = E} hex s ≡ ok header)
        ↔ (IsBlockHeader header × (hex.from_hex s ≡ ok (encode_block_header header).bytes))
  header_from_str_iff s header = (header_read s header, λ (v, e). header_reads s header v e)

  -- A header that the Rust types allow reads back from its text.
  pub header_from_str-header_display :
      (header : BlockHeader)
      → IsBlockHeader header
      → header_from_str {E = E} hex (header_display hex header) ≡ ok header
  unfolding header_display consensus_serialize
  header_from_str-header_display header v =
      header_reads _ header v (h.hex_reads _ ((BlockHeader-IsCodec E).writes_bytes header v))
