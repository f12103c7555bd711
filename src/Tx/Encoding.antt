-- ===== src/Tx/Encoding.antt =====
-- consensus/src/coding.rs: the consensus encoding of transactions, and its decoder.
pub mod Parts
pub mod Witnesses
pub mod RoundTrip
pub mod Forms
pub mod Canonical
pub mod Deserialize
pub mod Counter
use bp_core.Base.{
  ℕ, ◌*◌, ◌-◌, ◌^◌, List, [], ◌∷◌, length, Bool, true, false, ◌&&◌, not, if◌then◌else◌, ◌==◌, leb,
}
use bp_core.Codec.{
  Decoder, ◌>>=◌, pure, fail, panic, Encoded, ◌<+>◌, nothing, decode_items, encode_items, Confine,
  confine_with, u32_max, unsupported_segwit_flag,
}
use bp_core.Codec.Ints.{encode_u8, decode_u8}
use bp_core.Codec.VarInt.{decode_var_int}
use bp_core.Codec.Array.{encode_array, decode_array}
use bp_core.Codec.Newtypes.{
  encode_txid, decode_txid, encode_vout, decode_vout, encode_sig_script, decode_sig_script,
  encode_seq_no, decode_seq_no, encode_sats, decode_sats, encode_script_pubkey,
  decode_script_pubkey, encode_witness, decode_witness, encode_lock_time, decode_lock_time,
  encode_tx_ver, decode_tx_ver,
}
use bp_core.Tx.{Outpoint, TxIn, TxOut, Tx, TxVer, is_segwit, is_empty}

unfoldable pub encode_outpoint : Outpoint → Encoded
encode_outpoint o = encode_txid o.txid <+> encode_vout o.vout

unfoldable pub decode_outpoint : {E : Type 0} → Decoder E Outpoint
decode_outpoint = do
  txid ← decode_txid
  vout ← decode_vout
  pure (record { txid = txid; vout = vout })

-- The witness is not written here: it follows all outputs.
unfoldable pub encode_tx_in : TxIn → Encoded
encode_tx_in i =
    encode_outpoint i.prev_output <+> encode_sig_script i.sig_script <+> encode_seq_no i.sequence

unfoldable pub decode_tx_in : {E : Type 0} → Confine E → Decoder E TxIn
decode_tx_in confine = do
  prev_output ← decode_outpoint
  sig_script ← decode_sig_script confine
  sequence ← decode_seq_no
  pure (record {
    prev_output = prev_output;
    sig_script = sig_script;
    sequence = sequence;
    witness = [];
  })

unfoldable pub encode_tx_out : TxOut → Encoded
encode_tx_out o = encode_sats o.value <+> encode_script_pubkey o.script_pubkey

unfoldable pub decode_tx_out : {E : Type 0} → Confine E → Decoder E TxOut
decode_tx_out confine = do
  value ← decode_sats
  script_pubkey ← decode_script_pubkey confine
  pure (record { value = value; script_pubkey = script_pubkey })

-- `for input in self.inputs() { counter += input.witness.consensus_encode(writer)? }`
unfoldable pub encode_witnesses : List TxIn → Encoded
encode_witnesses = encode_items (λ i. encode_witness i.witness)

-- `for input in &mut inputs { input.witness = Witness::consensus_decode(reader)? }`
unfoldable pub decode_witnesses : {E : Type 0} → Confine E → List TxIn → Decoder E (List TxIn)
decode_witnesses confine [] = pure []
decode_witnesses confine (i ∷ is) = do
  w ← decode_witness confine
  rest ← decode_witnesses confine is
  pure (record i { witness = w } ∷ rest)

-- The marker and the flag byte; `counter += 2`.
unfoldable pub segwit_marker : Bool → Encoded
segwit_marker marked =
    if marked
    then record { bytes = (encode_u8 0x00 <+> encode_u8 0x01).bytes; counter = 2 }
    else nothing

unfoldable pub encode_tx : Tx → Encoded
encode_tx tx =
    encode_tx_ver tx.version
    <+> segwit_marker (is_segwit tx && not (is_empty tx.inputs))
    <+> encode_array encode_tx_in tx.inputs
    <+> encode_array encode_tx_out tx.outputs
    <+> (if is_segwit tx then encode_witnesses tx.inputs else nothing)
    <+> encode_lock_time tx.lock_time

-- `Vec::with_capacity(n)` panics where n items of `size` bytes are more than isize::MAX bytes.
unfoldable pub with_capacity {ℓ} : {E : Type 0} {A : Type ℓ} → ℕ → ℕ → Decoder E A → Decoder E A
with_capacity size n d bs = if leb (size * n) (2 ^ 63 - 1) then d bs else panic

module _ {E : Type 0} (confine : Confine E) (size_of_tx_in : ℕ) where
  -- The inputs: behind the flag byte, or as many as the prefix says.
  unfoldable pub decode_marked_inputs : Decoder E (List TxIn)
  decode_marked_inputs = do
    flag ← decode_u8
    (if flag == 0x01
        then decode_array confine (decode_tx_in confine)
        else fail (unsupported_segwit_flag flag))

  unfoldable pub decode_counted_inputs : ℕ → Decoder E (List TxIn)
  decode_counted_inputs prefix = with_capacity size_of_tx_in prefix do
    inputs ← decode_items (decode_tx_in confine) prefix
    confine_with (confine 0 u32_max (length inputs)) inputs

  -- What follows the inputs.
  unfoldable pub decode_tx_rest : TxVer → Bool → List TxIn → Decoder E Tx
  decode_tx_rest version segwit inputs = do
    outputs ← decode_array confine (decode_tx_out confine)
    inputs' ← (if segwit then decode_witnesses confine inputs else pure inputs)
    lock_time ← decode_lock_time
    pure (record { version = version; inputs = inputs'; outputs = outputs; lock_time = lock_time })

  -- What follows the version and the prefix.
  unfoldable pub decode_tx_body : TxVer → ℕ → Decoder E Tx
  decode_tx_body version prefix = do
    let segwit = prefix == 0
    inputs ← (if segwit then decode_marked_inputs else decode_counted_inputs prefix)
    decode_tx_rest version segwit inputs

  unfoldable pub decode_tx : Decoder E Tx
  decode_tx = do version ← decode_tx_ver; prefix ← decode_var_int; decode_tx_body version prefix
