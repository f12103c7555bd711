-- ===== src/Tx/Ids.antt =====
-- consensus/src/tx.rs: the identifiers txid, wtxid and ntxid. SHA-256 of the crate commit_verify
-- stands for any function here; each identifier hashes twice.
use bp_core.Base.{◌≡◌, List, ◌++◌, map, Bytes, false}
use bp_core.Codec.Array.{encode_array}
use bp_core.Codec.Newtypes.{encode_tx_ver, encode_lock_time}
use bp_core.Tx.{TxIn, Tx, Txid, is_segwit, unsigned_input, to_unsigned_tx}
use bp_core.Tx.Encoding.{encode_tx, encode_tx_in, encode_tx_out}
use bp_core.Tx.Encoding.Witnesses.{bare, encode_tx_plain, array-eq_of_bare}

-- What `txid` feeds to the hash engine: the encoding with no marker, no flag and no witness.
unfoldable pub stripped : Tx → Bytes
stripped tx =
    (encode_tx_ver tx.version).bytes
    ++ ((encode_array encode_tx_in tx.inputs).bytes
        ++ ((encode_array encode_tx_out tx.outputs).bytes ++ (encode_lock_time tx.lock_time).bytes))

module _ (sha256 : Bytes → Bytes) where
  unfoldable pub txid : Tx → Txid
  txid tx = sha256 (sha256 (stripped tx))

  unfoldable pub wtxid : Tx → Bytes
  wtxid tx = sha256 (sha256 (encode_tx tx).bytes)

  unfoldable pub ntxid : Tx → Bytes
  ntxid tx = txid (to_unsigned_tx tx)

  -- If no input of a transaction has a witness, its wtxid and its txid are equal, whatever the
  -- hash.
  pub wtxid-eq-txid : (tx : Tx) → is_segwit tx ≡ false → wtxid tx ≡ txid tx
  unfolding wtxid txid stripped
  wtxid-eq-txid tx e = rw (encode_tx_plain tx e)

  -- Inputs that differ from those of a transaction in their witnesses alone give the same txid.
  pub txid_of_bare :
      (tx : Tx) (is : List TxIn)
      → map bare is ≡ map bare tx.inputs
      → txid (record tx { inputs = is }) ≡ txid tx
  unfolding txid stripped
  txid_of_bare tx is e = rw (array-eq_of_bare is tx.inputs e)

  -- Inputs that differ from those of a transaction in their signature scripts and witnesses alone
  -- give the same ntxid.
  pub ntxid_of_unsigned :
      (tx : Tx) (is : List TxIn)
      → map unsigned_input is ≡ map unsigned_input tx.inputs
      → ntxid (record tx { inputs = is }) ≡ ntxid tx
  unfolding ntxid to_unsigned_tx
  ntxid_of_unsigned tx is e = rw e
