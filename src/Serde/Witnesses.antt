-- ===== src/Serde/Witnesses.antt =====
-- consensus/src/segwit.rs: witnesses from a stack of items, and their serde form, a sequence of byte
-- strings.
use bp_core.Base.{
  ◌≤◌, ◌≡◌, refl, arith, List, [], ◌∷◌, map, length, Option, none, some, Bytes, AreBytes, All,
}
use bp_core.Base.Result.{Result, ok, panic, try, map_err}
use bp_core.Codec.{Confine, u32_max}
use bp_core.Codec.Array.{IsConfine}
use bp_core.Serde.{
  Format, IsFormat, SerdeError, format, byte_str_from, serialize_bytes, deserialize_byte_str,
  serde_bytes,
}
use bp_core.Text.Hex.{HexCodec, IsHex}
use bp_core.Tx.{Witness}

-- The items of a stack as byte strings, one after another.
unfoldable pub byte_strs : {E F : Type 0} → Confine E → List Bytes → Result F (List Bytes)
byte_strs confine [] = ok []
byte_strs confine (item ∷ items) =
    let later = byte_strs confine items in
    try (byte_str_from confine item) (λ b. try later (λ bs. ok (b ∷ bs)))

-- `try_from_iter(iter).expect(..)` on the collected items.
unfoldable pub stack_of : {E F : Type 0} → Option E → List Bytes → Result F Witness
stack_of none items = ok items
stack_of (some e) items = panic

-- `Witness::from_consensus_stack`
unfoldable pub from_consensus_stack : {E F : Type 0} → Confine E → List Bytes → Result F Witness
unfolding byte_strs stack_of
from_consensus_stack confine witness =
    try (byte_strs confine witness) (λ items. stack_of (confine 0 u32_max (length items)) items)

module _ {V F H : Type 0} (f : Format V F) (hex : HexCodec H) where
  -- `Serialize for Witness`
  unfoldable pub serialize_witness : Witness → V
  serialize_witness w = f.put_seq (map (serialize_bytes f hex) w)

  module _ {E : Type 0} (confine : Confine E) where
    -- `Vec::<ByteStr>::deserialize`, past the sequence.
    unfoldable pub read_items : List V → Result (SerdeError F) (List Bytes)
    read_items [] = ok []
    read_items (v ∷ vs) =
        let later = read_items vs in
        try (deserialize_byte_str f hex confine v) (λ b. try later (λ bs. ok (b ∷ bs)))

    -- `Deserialize for Witness`
    unfoldable pub deserialize_witness : V → Result (SerdeError F) Witness
    unfolding read_items
    deserialize_witness v =
        try (map_err format (f.get_seq v))
          (λ vs. try (read_items vs) (from_consensus_stack confine))

-- An item that a byte string holds.
abbrev pub IsItem : Bytes → Type 0
IsItem item = AreBytes item × (length item ≤ u32_max)

module _ {E : Type 0} {confine : Confine E} (k : IsConfine confine) where
  byte_str_fits :
      (F : Type 0) (item : Bytes)
      → length item ≤ u32_max
      → byte_str_from {F = F} confine item ≡ ok item
  unfolding byte_str_from
  byte_str_fits F item h = rw (k.accepts 0 u32_max (length item) (omega arith) h) refl

  byte_strs_fit :
      (F : Type 0) (items : List Bytes)
      → All IsItem items
      → byte_strs {F = F} confine items ≡ ok items
  unfolding byte_strs
  byte_strs_fit F [] v = refl
  byte_strs_fit F (item ∷ items) ((bytes, h), vs) =
      rw (byte_str_fits F item h, byte_strs_fit F items vs) refl

  -- A stack of at most u32::MAX items of at most u32::MAX bytes each is a witness as it is.
  pub from_consensus_stack_lem :
      (F : Type 0) (items : List Bytes)
      → All IsItem items
      → length items ≤ u32_max
      → from_consensus_stack {F = F} confine items ≡ ok items
  unfolding from_consensus_stack
  from_consensus_stack_lem F items v h =
      rw (byte_strs_fit F items v, k.accepts 0 u32_max (length items) (omega arith) h) refl

  module _ {V F H : Type 0} {f : Format V F} {hex : HexCodec H} (laws : IsFormat f)
      (h : IsHex hex) where
    items_read :
        (items : List Bytes)
        → All IsItem items
        → read_items f hex confine (map (serialize_bytes f hex) items) ≡ ok items
    unfolding read_items
    items_read [] v = refl
    items_read (item ∷ items) ((bytes, small), vs) =
        rw ((serde_bytes laws h k item bytes small).0, items_read items vs) refl

    -- A witness of at most u32::MAX items of at most u32::MAX bytes each reads back, in a
    -- human-readable format and in any other.
    pub serde_witness :
        (w : Witness)
        → All IsItem w
        → length w ≤ u32_max
        → deserialize_witness f hex confine (serialize_witness f hex w) ≡ ok w
    unfolding serialize_witness deserialize_witness
    serde_witness w v room =
        rw
          (
            laws.seq_reads (map (serialize_bytes f hex) w),
            items_read w v,
            from_consensus_stack_lem (SerdeError F) w v room,
          )
          refl
