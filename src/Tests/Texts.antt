-- ===== src/Tests/Texts.antt =====
-- Examples of the theorems on texts, with hexadecimal identifiers.
use bp_core.Base.{◌≤◌, ◌<◌, ◌≡◌, ◌↔◌, refl, arith, [], ◌∷◌, eq_bytes}
use bp_core.Base.Result.{ok, err}
use bp_core.Dbc.Proof.{tapret_first}
use bp_core.Seals.{TxPtr, ptr_txid, witness_tx, BlindSeal}
use bp_core.Seals.Texts.{is_mark, method_from_str, ptr_from_str, blind_display, blind_from_str}
use bp_core.Seals.Texts.Pointers.{ptr_text, chained_seal_text}
use bp_core.Tests.{sevens, sevens-IsBytes, coin}
use bp_core.Text.HexDigits.{
  hex_text, hex_bytes_of, hex_digits-IsHex, hex_text-AreDigits, hex_text-filled,
}
use bp_core.Text.{Text, split, starts_with, to_lowercase, from_str_radix, trim_0x, parse_u32}
use bp_core.Text.Joins.{IsJoin, IsCutOnce}
use bp_core.Seals.Texts.Language.{IsSealParts, blind_from_str_iff}
use bp_core.Timelocks.{locktime_threshold}
use bp_core.Timelocks.LockTimestamp
use bp_core.Timelocks.Texts.{
  timestamp_display, timestamp_from_str, invalid_timestamp, timestamp_texts,
}
use bp_core.Tx.Texts.{IsTxidText, outpoint_display, outpoint_from_str, outpoint_from_str_iff}

hex-IsTxidText : IsTxidText hex_text hex_bytes_of
hex-IsTxidText = record {
  txid_reads = λ t h. hex_digits-IsHex.hex_reads t h.1;
  txid_filled = λ t h. hex_text-filled t 32 h.0 (omega arith);
  txid_digits = λ t h. hex_text-AreDigits t h.1;
}

timestamp_texts_example :
    ((timestamp_from_str (timestamp_display 1_700_000_000) ≡ ok 1_700_000_000)
      ↔ (locktime_threshold ≤ 1_700_000_000))
    × ((timestamp_from_str (timestamp_display 1_700_000_000)
          ≡ err (invalid_timestamp 1_700_000_000))
        ↔ (1_700_000_000 < locktime_threshold))
    × (timestamp_from_str (timestamp_display LockTimestamp.anytime) ≡ err (invalid_timestamp 0))
timestamp_texts_example = timestamp_texts 1_700_000_000 (omega arith)

outpoint_from_str_example :
    (outpoint_from_str hex_bytes_of (outpoint_display hex_text coin) ≡ ok coin) ↔ (
      (txid : Text) × (vout : Text) × IsCutOnce b':' (outpoint_display hex_text coin) txid vout
      × (hex_bytes_of txid ≡ ok coin.txid)
      × (parse_u32 vout ≡ ok coin.vout))
outpoint_from_str_example = outpoint_from_str_iff hex_bytes_of (outpoint_display hex_text coin) coin

abbrev blind_seal : BlindSeal TxPtr
blind_seal = record {
  method = tapret_first;
  txid = ptr_txid (sevens 32);
  vout = 21;
  blinding = 0x31bb_ed7e_7b2d;
}

chained_seal_text_example :
    blind_from_str
      (ptr_text hex_text hex_bytes_of)
      (blind_display (ptr_text hex_text hex_bytes_of) blind_seal)
    ≡ ok blind_seal
chained_seal_text_example =
    chained_seal_text hex-IsTxidText blind_seal (sevens-IsBytes 32) (omega arith) (omega arith)

-- `tapret1st#~#21:0x0x10`: the marks are not those that the text of a seal has.
abbrev odd_text : Text
odd_text =
    b't' ∷ b'a' ∷ b'p' ∷ b'r' ∷ b'e' ∷ b't' ∷ b'1' ∷ b's' ∷ b't' ∷ b'#' ∷ b'~' ∷ b'#' ∷ b'2' ∷ b'1'
    ∷ b':' ∷ b'0' ∷ b'x' ∷ b'0' ∷ b'x' ∷ b'1' ∷ b'0' ∷ []

abbrev odd_seal : BlindSeal TxPtr
odd_seal = record { method = tapret_first; txid = witness_tx; vout = 21; blinding = 16 }

blind_from_str_example :
    (blind_from_str (ptr_text hex_text hex_bytes_of) odd_text ≡ ok odd_seal) ↔ (
      (method : Text) × (txid : Text) × (vout : Text) × (blinding : Text) × IsJoin is_mark
        (method ∷ txid ∷ vout ∷ blinding ∷ [])
        odd_text
      × IsSealParts (ptr_text hex_text hex_bytes_of) method txid vout blinding odd_seal)
blind_from_str_example = blind_from_str_iff (ptr_text hex_text hex_bytes_of) odd_text odd_seal

odd_text_reads : blind_from_str (ptr_text hex_text hex_bytes_of) odd_text ≡ ok odd_seal
unfolding blind_from_str split eq_bytes starts_with method_from_str to_lowercase from_str_radix
    trim_0x ptr_from_str parse_u32
odd_text_reads = refl
