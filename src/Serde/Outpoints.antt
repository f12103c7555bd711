-- ===== src/Serde/Outpoints.antt =====
-- consensus/src/tx.rs: the serde form of outpoints. Those of a Txid and of a Vout are parameters.
use bp_core.Base.{◌<◌, ◌^◌, ◌≡◌, refl, List, [], ◌∷◌, if◌then◌else◌, Bool-cases, inl, inr}
use bp_core.Base.Result.{Result, ok, err, try, map_err}
use bp_core.Codec.Ints.{IsBytes}
use bp_core.Serde.{Format, IsFormat, SerdeError, format, invalid_length_0, invalid_length_1, custom}
use bp_core.Text.{Text}
use bp_core.Tx.{Txid, Vout, Outpoint}
use bp_core.Tx.Texts.{
  outpoint_display, outpoint_from_str, IsTxidText, outpoint_from_str-outpoint_display,
}

-- The derived forms of Txid and Vout.
pub record Parts (V F : Type 0) : Type 0 where
  pub put_txid : Txid → V
  pub put_vout : Vout → V
  pub get_txid : V → Result F Txid
  pub get_vout : V → Result F Vout

pub record IsParts {V F : Type 0} (parts : Parts V F) : Type 0 where
  pub txid_part : (t : Txid) → IsBytes 32 t → parts.get_txid (parts.put_txid t) ≡ ok t
  pub vout_part : (v : Vout) → v < 2 ^ 32 → parts.get_vout (parts.put_vout v) ≡ ok v

module _ {V F : Type 0} (f : Format V F) (parts : Parts V F) where
  -- `Serialize for Outpoint`
  unfoldable pub serialize_outpoint : (Txid → Text) → Outpoint → V
  serialize_outpoint display o =
      if f.is_human_readable
      then f.put_str (outpoint_display display o)
      else f.put_seq (parts.put_txid o.txid ∷ parts.put_vout o.vout ∷ [])

module _ {V F H : Type 0} (f : Format V F) (parts : Parts V F)
    (from_str : Text → Result H Txid) where
  -- `visit_seq`: both elements are asked for in order, and none behind them.
  unfoldable pub visit_seq : List V → Result (SerdeError F) Outpoint
  visit_seq [] = err invalid_length_0
  visit_seq (t ∷ []) = try (map_err format (parts.get_txid t)) (λ txid. err invalid_length_1)
  visit_seq (t ∷ v ∷ vs) = try (map_err format (parts.get_txid t)) (λ txid.
      try (map_err format (parts.get_vout v)) (λ vout. ok (record { txid = txid; vout = vout })))

  -- `Deserialize for Outpoint`
  unfoldable pub deserialize_outpoint : V → Result (SerdeError F) Outpoint
  unfolding visit_seq
  deserialize_outpoint v =
      if f.is_human_readable
      then try (map_err format (f.get_str v))
          (λ s. map_err (λ e. custom) (outpoint_from_str from_str s))
      else try (map_err format (f.get_seq v)) visit_seq

-- An outpoint whose identifier is of 32 bytes reads back, from its text in a human-readable format
-- and from its two parts in any other.
pub serde_outpoint :
    {V F H : Type 0} {f : Format V F} {parts : Parts V F} {display : Txid → Text}
    {from_str : Text → Result H Txid} (laws : IsFormat f) (p : IsParts parts)
    (text : IsTxidText display from_str) (o : Outpoint)
    → IsBytes 32 o.txid
    → o.vout < 2 ^ 32
    → deserialize_outpoint f parts from_str (serialize_outpoint f parts display o) ≡ ok o
unfolding serialize_outpoint deserialize_outpoint
serde_outpoint {f = f} {parts = parts} {display = display} laws p text o valid small =
    elim (Bool-cases f.is_human_readable) [
      | inl readable ↦
          rw
            (
              readable,
              laws.str_reads (outpoint_display display o),
              outpoint_from_str-outpoint_display text o valid small,
            )
            refl
      | inr binary ↦
          rw
            (
              binary,
              laws.seq_reads (parts.put_txid o.txid ∷ parts.put_vout o.vout ∷ []),
              p.txid_part o.txid valid,
              p.vout_part o.vout small,
            )
            refl
    ]
