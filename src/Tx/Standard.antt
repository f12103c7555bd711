-- ===== src/Tx/Standard.antt =====
-- consensus/src/tx.rs: standard versions, and the outpoint of a coinbase input.
use bp_core.Base.{
  ◌≡◌, arith, Bool, true, not, ◌&&◌, ◌==◌, if◌then◌else◌, replicate, eq_bytes, eq_bytes→eq,
}
use bp_core.Base.Int.{ℤ, pos, leb_ℤ}
use bp_core.Base.Result.{Result, ok, err}
use bp_core.Tx.{Txid, Outpoint, TxVer}

-- The refused value of NonStandardValue<i32>.
pub data NonStandardValue : Type 0 where
  non_standard_value : ℤ → NonStandardValue

unfoldable pub is_standard : TxVer → Bool
is_standard ver = leb_ℤ ver (pos 2)

unfoldable pub try_from_standard : ℤ → Result NonStandardValue TxVer
unfolding is_standard
try_from_standard ver = if not (is_standard ver) then err (non_standard_value ver) else ok ver

-- `Txid::coinbase`
unfoldable pub coinbase_txid : Txid
coinbase_txid = replicate 32 0

-- `Txid::is_coinbase`
unfoldable pub is_coinbase_txid : Txid → Bool
is_coinbase_txid txid = eq_bytes txid (replicate 32 0)

-- `Outpoint::coinbase`
unfoldable pub coinbase : Outpoint
unfolding coinbase_txid
coinbase = record { txid = coinbase_txid; vout = 0 }

-- `Outpoint::is_coinbase`
unfoldable pub is_coinbase : Outpoint → Bool
unfolding is_coinbase_txid
is_coinbase o = is_coinbase_txid o.txid && o.vout == 0

-- Only the outpoint of zeros and output 0 is that of a coinbase.
pub is_coinbase_iff :
    (o : Outpoint) → is_coinbase o ≡ true → (o.txid ≡ replicate 32 0) × (o.vout ≡ 0)
unfolding is_coinbase
is_coinbase_iff o h = (eq_bytes→eq o.txid (replicate 32 0) (ground (arith, h)), ground (arith, h))
