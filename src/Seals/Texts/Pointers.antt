-- ===== src/Seals/Texts/Pointers.antt =====
-- seals/src/txout/seal.rs: the text of a transaction pointer reads back, and so do those of chained
-- seals.
use bp_core.Base.{◌<◌, ◌^◌, ◌≡◌, refl, arith, false, [], ◌∷◌, eq_bytes, All}
use bp_core.Base.Result.{Result, ok}
use bp_core.Codec.Ints.{IsBytes}
use bp_core.Seals.{TxPtr, witness_tx, ptr_txid, BlindSeal}
use bp_core.Seals.Texts.{IdText, ptr_display, ptr_from_str, is_mark, blind_display, blind_from_str}
use bp_core.Seals.Texts.RoundTrip.{IsIdText, digits-Unmarked, blind_from_str-blind_display}
use bp_core.Text.{Text}
use bp_core.Tx.{Txid}
use bp_core.Tx.Texts.{IsTxidText}
use bp_core.Text.Numbers.{IsDigit}

-- The texts of transaction pointers, made from those of transaction identifiers.
abbrev pub ptr_text : {H : Type 0} → (Txid → Text) → (Text → Result H Txid) → IdText
ptr_text {H = H} display from_str = record {
  SealId = TxPtr;
  HexError = H;
  display = ptr_display display;
  from_str = ptr_from_str from_str;
}

-- A pointer to a transaction that is not the witness transaction has an identifier of 32 bytes.
abbrev pub IsTxPtr : TxPtr → Type 0
IsTxPtr witness_tx = Unit
IsTxPtr (ptr_txid txid) = IsBytes 32 txid

no_tilde : (s : Text) → All IsDigit s → eq_bytes s (b'~' ∷ []) ≡ false
unfolding eq_bytes
no_tilde [] h = refl
no_tilde (c ∷ cs) (d, ds) = ground (arith, d)

module _ {H : Type 0} {display : Txid → Text} {from_str : Text → Result H Txid}
    (text : IsTxidText display from_str) where
  ptr_reads : (ptr : TxPtr) → IsTxPtr ptr → ptr_from_str from_str (ptr_display display ptr) ≡ ok ptr
  unfolding ptr_from_str ptr_display
  ptr_reads witness_tx h = unfold eq_bytes in refl
  ptr_reads (ptr_txid txid) h =
      rw (no_tilde (display txid) (text.txid_digits txid h), text.txid_reads txid h) refl

  ptr_filled : (ptr : TxPtr) → IsTxPtr ptr → eq_bytes (ptr_display display ptr) [] ≡ false
  unfolding ptr_display
  ptr_filled witness_tx h = unfold eq_bytes in refl
  ptr_filled (ptr_txid txid) h = text.txid_filled txid h

  ptr_unmarked :
      (ptr : TxPtr) → IsTxPtr ptr → All (λ c. is_mark c ≡ false) (ptr_display display ptr)
  unfolding ptr_display
  ptr_unmarked witness_tx h = (unfold is_mark in refl, tt)
  ptr_unmarked (ptr_txid txid) h = digits-Unmarked (display txid) (text.txid_digits txid h)

  pub ptr_text-IsIdText : IsIdText (ptr_text display from_str) IsTxPtr
  ptr_text-IsIdText = record { reads = ptr_reads; filled = ptr_filled; unmarked = ptr_unmarked }

  -- A chained seal with blinding, on a witness transaction or on one with an identifier of 32
  -- bytes, reads back from its text.
  pub chained_seal_text :
      (seal : BlindSeal TxPtr)
      → IsTxPtr seal.txid
      → seal.vout < 2 ^ 32
      → seal.blinding < 2 ^ 64
      → blind_from_str (ptr_text display from_str) (blind_display (ptr_text display from_str) seal)
        ≡ ok seal
  chained_seal_text seal valid vout blinding =
      blind_from_str-blind_display ptr_text-IsIdText seal valid vout blinding
