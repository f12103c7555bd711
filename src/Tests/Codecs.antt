-- ===== src/Tests/Codecs.antt =====
-- Examples of the theorems on variable-length integers and the texts of block headers.
use bp_core.Base.Result.{ok as ok_text}
use bp_core.Block.{IsBlockHeader, encode_block_header}
use bp_core.Block.Hex.{header_display, header_from_str, header_from_str_iff}
use bp_core.Text.HexDigits.{hex_digits, hex_digits-IsHex}
use bp_core.Tests.{header}
use bp_core.Base.{ℕ, ◌↔◌, ◌<◌, ◌≡◌, ◌++◌, ◌^◌, [], ◌∷◌, arith}
use bp_core.Codec.{ok}
use bp_core.Codec.Ints.{to_le_bytes, encode_u8, encode_u16}
use bp_core.Codec.VarInt.{encode_var_int, decode_var_int}
use bp_core.Codec.RoundTrip.{decode_var_int-encode_var_int, decode_var_int_canonical}

decode_var_int-encode_var_int_example :
    decode_var_int {E = ℕ} ((encode_var_int 515).bytes ++ 9 ∷ []) ≡ ok (515, 9 ∷ [])
decode_var_int-encode_var_int_example = decode_var_int-encode_var_int ℕ 515 (omega arith) (9 ∷ [])

var_int_read : decode_var_int {E = ℕ} (253 ∷ 3 ∷ 2 ∷ 9 ∷ []) ≡ ok (515, 9 ∷ [])
unfolding encode_var_int encode_u8 encode_u16 to_le_bytes
var_int_read = decode_var_int-encode_var_int_example

decode_var_int_canonical_example :
    (515 < 2 ^ 64) × (253 ∷ 3 ∷ 2 ∷ 9 ∷ [] ≡ (encode_var_int 515).bytes ++ 9 ∷ [])
decode_var_int_canonical_example =
    decode_var_int_canonical ℕ (253 ∷ 3 ∷ 2 ∷ 9 ∷ []) (9 ∷ []) 515 (ground arith) var_int_read

header_from_str_iff_example :
    (header_from_str {E = ℕ} hex_digits (header_display hex_digits header) ≡ ok_text header) ↔ (
      IsBlockHeader header
      × (hex_digits.from_hex (header_display hex_digits header)
          ≡ ok_text (encode_block_header header).bytes))
header_from_str_iff_example =
    header_from_str_iff hex_digits-IsHex (header_display hex_digits header) header
