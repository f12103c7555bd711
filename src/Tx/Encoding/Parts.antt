-- ===== src/Tx/Encoding/Parts.antt =====
-- consensus/src/coding.rs: the codecs of Outpoint, TxIn, TxOut and of the witnesses of the inputs.
use bp_core.Base.{◌^◌, ◌<◌, ◌≡◌, refl, ap, [], IsByte}
use bp_core.Codec.{Confine}
use bp_core.Codec.Ints.{IsBytes, Bytes32-IsCodec, U32-IsCodec, U64-IsCodec}
use bp_core.Codec.Newtypes.{encode_witness, decode_witness}
use bp_core.Codec.Array.{IsConfine, IsArray, ByteStr-IsCodec, Array-IsCodec}
use bp_core.Codec.Laws.{IsCodec, IsCodec-field, IsCodec-last, IsCodec-iff}
use bp_core.Tx.{Outpoint, TxIn, TxOut, Witness}
use bp_core.Tx.Encoding.{
  encode_outpoint, decode_outpoint, encode_tx_in, decode_tx_in, encode_tx_out, decode_tx_out,
}

abbrev pub IsOutpoint : Outpoint → Type 0
IsOutpoint o = IsBytes 32 o.txid × (o.vout < 2 ^ 32)

-- What is written of an input in its place: all but the witness.
abbrev pub IsBareTxIn : TxIn → Type 0
IsBareTxIn i = IsOutpoint i.prev_output × IsArray IsByte i.sig_script × (i.sequence < 2 ^ 32)

abbrev pub IsWitness : Witness → Type 0
IsWitness = IsArray (IsArray IsByte)

abbrev pub IsTxIn : TxIn → Type 0
IsTxIn i = IsBareTxIn i × IsWitness i.witness

abbrev pub IsTxOut : TxOut → Type 0
IsTxOut o = (o.value < 2 ^ 64) × IsArray IsByte o.script_pubkey

pub Outpoint-IsCodec : (E : Type 0) → IsCodec {E = E} IsOutpoint encode_outpoint decode_outpoint
unfolding encode_outpoint decode_outpoint
Outpoint-IsCodec E =
    IsCodec-iff IsOutpoint
      (IsCodec-field Bytes32-IsCodec (λ o. o.txid)
        (λ txid.
          IsCodec-last U32-IsCodec (λ o. o.vout) (λ vout. record { txid = txid; vout = vout })
            (λ vout. refl))
        (λ txid o (v, e). ap (λ (x : Outpoint). x.txid) e))
      (λ o (a, b). (a, (b, refl))) (λ o (a, (b, _)). (a, b))

module _ {E : Type 0} {confine : Confine E} (k : IsConfine confine) where
  pub TxIn-IsCodec :
      IsCodec (λ i. IsBareTxIn i × (i.witness ≡ [])) encode_tx_in (decode_tx_in confine)
  unfolding encode_tx_in decode_tx_in
  TxIn-IsCodec =
      IsCodec-iff _
        (IsCodec-field (Outpoint-IsCodec E) (λ i. i.prev_output)
          (λ prev_output.
            IsCodec-field (ByteStr-IsCodec k) (λ i. i.sig_script)
              (λ sig_script.
                IsCodec-last U32-IsCodec (λ i. i.sequence)
                  (λ sequence. record {
                    prev_output = prev_output;
                    sig_script = sig_script;
                    sequence = sequence;
                    witness = [];
                  })
                  (λ sequence. refl))
              (λ sig_script i (v, e). ap (λ (x : TxIn). x.sig_script) e))
          (λ prev_output i (v, (w, e)). ap (λ (x : TxIn). x.prev_output) e))
        (λ i ((a, b, c), e). (a, (b, (c, λ j. record i { witness = e j }))))
        (λ i (a, (b, (c, e))). ((a, b, c), ap (λ (x : TxIn). x.witness) e))

  pub TxOut-IsCodec : IsCodec IsTxOut encode_tx_out (decode_tx_out confine)
  unfolding encode_tx_out decode_tx_out
  TxOut-IsCodec =
      IsCodec-iff IsTxOut
        (IsCodec-field U64-IsCodec (λ o. o.value)
          (λ value.
            IsCodec-last (ByteStr-IsCodec k) (λ o. o.script_pubkey)
              (λ script_pubkey. record { value = value; script_pubkey = script_pubkey })
              (λ script_pubkey. refl))
          (λ value o (v, e). ap (λ (x : TxOut). x.value) e))
        (λ o (a, b). (a, (b, refl))) (λ o (a, (b, _)). (a, b))

  pub Witness-IsCodec : IsCodec IsWitness encode_witness (decode_witness confine)
  Witness-IsCodec = Array-IsCodec (ByteStr-IsCodec k) k
