-- ===== src/Codec/Newtypes.antt =====
-- consensus/src/coding.rs: the codecs of newtypes, each that of the wrapped value.
use bp_core.Base.{ℕ, List, Bytes}
use bp_core.Base.Int.{ℤ}
use bp_core.Codec.{Decoder, Encoded, Confine}
use bp_core.Codec.Ints.{
  encode_bytes32, decode_bytes32, encode_u32, decode_u32, encode_u64, decode_u64, encode_i32,
  decode_i32,
}
use bp_core.Codec.Array.{encode_byte_str, decode_byte_str, encode_array, decode_array}

abbrev pub encode_block_hash : Bytes → Encoded
encode_block_hash = encode_bytes32

abbrev pub decode_block_hash : {E : Type 0} → Decoder E Bytes
decode_block_hash = decode_bytes32

abbrev pub encode_block_merkle_root : Bytes → Encoded
encode_block_merkle_root = encode_bytes32

abbrev pub decode_block_merkle_root : {E : Type 0} → Decoder E Bytes
decode_block_merkle_root = decode_bytes32

abbrev pub encode_txid : Bytes → Encoded
encode_txid = encode_bytes32

abbrev pub decode_txid : {E : Type 0} → Decoder E Bytes
decode_txid = decode_bytes32

abbrev pub encode_tap_branch_hash : Bytes → Encoded
encode_tap_branch_hash = encode_bytes32

abbrev pub decode_tap_branch_hash : {E : Type 0} → Decoder E Bytes
decode_tap_branch_hash = decode_bytes32

abbrev pub encode_vout : ℕ → Encoded
encode_vout = encode_u32

abbrev pub decode_vout : {E : Type 0} → Decoder E ℕ
decode_vout = decode_u32

abbrev pub encode_seq_no : ℕ → Encoded
encode_seq_no = encode_u32

abbrev pub decode_seq_no : {E : Type 0} → Decoder E ℕ
decode_seq_no = decode_u32

abbrev pub encode_lock_time : ℕ → Encoded
encode_lock_time = encode_u32

abbrev pub decode_lock_time : {E : Type 0} → Decoder E ℕ
decode_lock_time = decode_u32

abbrev pub encode_sats : ℕ → Encoded
encode_sats = encode_u64

abbrev pub decode_sats : {E : Type 0} → Decoder E ℕ
decode_sats = decode_u64

abbrev pub encode_tx_ver : ℤ → Encoded
encode_tx_ver = encode_i32

abbrev pub decode_tx_ver : {E : Type 0} → Decoder E ℤ
decode_tx_ver = decode_i32

-- The script types all wrap ScriptBytes.
abbrev pub encode_script_bytes : Bytes → Encoded
encode_script_bytes = encode_byte_str

abbrev pub decode_script_bytes : {E : Type 0} → Confine E → Decoder E Bytes
decode_script_bytes = decode_byte_str

abbrev pub encode_script_pubkey : Bytes → Encoded
encode_script_pubkey = encode_script_bytes

abbrev pub decode_script_pubkey : {E : Type 0} → Confine E → Decoder E Bytes
decode_script_pubkey = decode_script_bytes

abbrev pub encode_sig_script : Bytes → Encoded
encode_sig_script = encode_script_bytes

abbrev pub decode_sig_script : {E : Type 0} → Confine E → Decoder E Bytes
decode_sig_script = decode_script_bytes

abbrev pub encode_witness : List Bytes → Encoded
encode_witness = encode_array encode_byte_str

abbrev pub decode_witness : {E : Type 0} → Confine E → Decoder E (List Bytes)
decode_witness confine = decode_array confine (decode_byte_str confine)

abbrev pub encode_witness_script : Bytes → Encoded
encode_witness_script = encode_script_bytes

abbrev pub decode_witness_script : {E : Type 0} → Confine E → Decoder E Bytes
decode_witness_script = decode_script_bytes

abbrev pub encode_redeem_script : Bytes → Encoded
encode_redeem_script = encode_script_bytes

abbrev pub decode_redeem_script : {E : Type 0} → Confine E → Decoder E Bytes
decode_redeem_script = decode_script_bytes

abbrev pub encode_tap_script : Bytes → Encoded
encode_tap_script = encode_script_bytes

abbrev pub decode_tap_script : {E : Type 0} → Confine E → Decoder E Bytes
decode_tap_script = decode_script_bytes
