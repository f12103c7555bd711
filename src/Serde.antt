-- ===== src/Serde.antt =====
-- The serde forms that the program writes by hand: ByteStr of consensus/src/coding.rs and ScriptBytes
-- of consensus/src/script.rs here, outpoints and witnesses in the children. The data format, which
-- the crate serde leaves open, is a parameter.
pub mod Outpoints
pub mod Witnesses
use bp_core.Base.{
  ◌<◌, Option-cases, ◌≤◌, ◌≡◌, refl, arith, Bool, true, false, List, AreBytes, length, Option, none,
  some, Bytes, if◌then◌else◌, Bool-cases, inl, inr,
}
use bp_core.Base.Result.{Result, ok, err, panic, try, map_err}
use bp_core.Codec.{Confine, u32_max}
use bp_core.Codec.Array.{IsConfine}
use bp_core.Text.{Text}
use bp_core.Text.Hex.{HexCodec, IsHex}

-- A format with its values `V` and errors `F`: what `is_human_readable` says, the writing of a text,
-- of bytes and of a sequence, and `String::deserialize`, `Vec::<u8>::deserialize` and the elements
-- of a sequence. A custom error is `custom`, and one of a missing element is its index.
pub record Format (V F : Type 0) : Type 0 where
  pub is_human_readable : Bool
  pub put_str : Text → V
  pub put_bytes : Bytes → V
  pub put_seq : List V → V
  pub get_str : V → Result F Text
  pub get_bytes : V → Result F Bytes
  pub get_seq : V → Result F (List V)

pub data SerdeError (F : Type 0) : Type 0 where
  format : F → SerdeError F
  invalid_length_0 invalid_length_1 : SerdeError F
  custom : SerdeError F

-- What a format writes, it reads.
pub record IsFormat {V F : Type 0} (f : Format V F) : Type 0 where
  pub str_reads : (s : Text) → f.get_str (f.put_str s) ≡ ok s
  pub bytes_reads : (bs : Bytes) → f.get_bytes (f.put_bytes bs) ≡ ok bs
  pub seq_reads : (vs : List V) → f.get_seq (f.put_seq vs) ≡ ok vs

-- `ByteStr::from(Vec<u8>)`, which panics above u32::MAX bytes.
unfoldable pub stop_on : {E F : Type 0} → Option E → Bytes → Result F Bytes
stop_on none bytes = ok bytes
stop_on (some e) bytes = panic

unfoldable pub byte_str_from : {E F : Type 0} → Confine E → Bytes → Result F Bytes
unfolding stop_on
byte_str_from confine bytes = stop_on (confine 0 u32_max (length bytes)) bytes

-- `ScriptBytes::try_from(Vec<u8>)`, and its error as a custom one.
unfoldable pub custom_on : {E F : Type 0} → Option E → Bytes → Result (SerdeError F) Bytes
custom_on none bytes = ok bytes
custom_on (some e) bytes = err custom

module _ {V F H : Type 0} (f : Format V F) (hex : HexCodec H) where
  -- `Serialize for ByteStr`, and `Serialize for ScriptBytes`.
  unfoldable pub serialize_bytes : Bytes → V
  serialize_bytes bytes =
      if f.is_human_readable then f.put_str (hex.to_hex bytes) else f.put_bytes bytes

  -- The form that is human-readable, of both.
  unfoldable pub bytes_of_text : V → Result (SerdeError F) Bytes
  bytes_of_text v = try (map_err format (f.get_str v)) (λ s. map_err (λ e. custom) (hex.from_hex s))

  module _ {E : Type 0} (confine : Confine E) where
    -- `Deserialize for ByteStr`
    unfoldable pub deserialize_byte_str : V → Result (SerdeError F) Bytes
    unfolding bytes_of_text byte_str_from
    deserialize_byte_str v =
        if f.is_human_readable
        then bytes_of_text v
        else try (map_err format (f.get_bytes v)) (byte_str_from confine)

    -- `Deserialize for ScriptBytes`
    unfoldable pub deserialize_script_bytes : V → Result (SerdeError F) Bytes
    unfolding bytes_of_text custom_on
    deserialize_script_bytes v =
        if f.is_human_readable
        then bytes_of_text v
        else try (map_err format (f.get_bytes v))
            (λ bytes. custom_on (confine 0 u32_max (length bytes)) bytes)

module _ {V F H E : Type 0} {f : Format V F} {hex : HexCodec H} {confine : Confine E}
    (laws : IsFormat f) (h : IsHex hex) (k : IsConfine confine) where
  -- Bytes, at most u32::MAX of them, read back as a byte string and as a script, in a human-readable
  -- format and in any other.
  pub serde_bytes :
      (bytes : Bytes)
      → AreBytes bytes
      → length bytes ≤ u32_max
      → (deserialize_byte_str f hex confine (serialize_bytes f hex bytes) ≡ ok bytes)
        × (deserialize_script_bytes f hex confine (serialize_bytes f hex bytes) ≡ ok bytes)
  unfolding serialize_bytes deserialize_byte_str deserialize_script_bytes
  serde_bytes bytes valid room = elim (Bool-cases f.is_human_readable) [
    | inl readable ↦
        let text = laws.str_reads (hex.to_hex bytes) in
        let back = h.hex_reads bytes valid in
        (rw (readable, text, back) refl, rw (readable, text, back) refl)
    | inr binary ↦
        let data' = laws.bytes_reads bytes in
        let fits = k.accepts 0 u32_max (length bytes) (omega arith) room in
        (rw (binary, data', fits) refl, rw (binary, data', fits) refl)
  ]

  -- More than u32::MAX bytes of a format that is not human-readable: a byte string panics, a script is a custom error.
  pub serde_oversized :
      (v : V) (bytes : Bytes)
      → f.is_human_readable ≡ false
      → f.get_bytes v ≡ ok bytes
      → u32_max < length bytes
      → (deserialize_byte_str f hex confine v ≡ panic)
        × (deserialize_script_bytes f hex confine v ≡ err custom)
  unfolding deserialize_byte_str deserialize_script_bytes
  serde_oversized v bytes binary read big = elim (Option-cases (confine 0 u32_max (length bytes))) [
    | inl accepted ↦ absurd (k.rejects_long 0 u32_max (length bytes) big accepted)
    | inr (e, refused) ↦ (rw (binary, read, refused) refl, rw (binary, read, refused) refl)
  ]
