-- ===== src/Dbc/Tapret/Texts.antt =====
-- dbc/src/tapret/tapscript.rs: commitments as 33 bytes and as texts. Base85 and the reading of the
-- strict encoding are parameters.
use bp_core.Base.{
  ◌<◌, ◌≡◌, refl, arith, [], ◌∷◌, ◌++◌, length, length-append, AreBytes, AreBytes-append, Option,
  none, some, Bytes, Option-cases, inl, inr,
}
use bp_core.Base.Result.{Result, ok, err, try, map_err, to_option}
use bp_core.Codec.{Confine}
use bp_core.Codec.Array.{IsConfine}
use bp_core.Dbc.Tapret.{TapretCommitment, fits_33}
use bp_core.Dbc.Tapret.Commitments.{IsStrict}
use bp_core.Script.{◌>>=◌}
use bp_core.Text.{Text}

-- `base85::encode` and `base85::decode`, with the error `B`.
pub record Base85 (B : Type 0) : Type 0 where
  pub encode : Bytes → Text
  pub decode : Text → Result B Bytes

pub record IsBase85 {B : Type 0} (base85 : Base85 B) : Type 0 where
  pub decodes : (bs : Bytes) → AreBytes bs → base85.decode (base85.encode bs) ≡ ok bs

-- The Rust types allow the commitment.
pub record IsCommitment (c : TapretCommitment) : Type 0 where
  pub mpc_size : length c.mpc ≡ 32
  pub mpc_bytes : AreBytes c.mpc
  pub nonce_byte : c.nonce < 256

-- `from_strict_serialized` reads the fields one after another.
pub record IsStrictRead {D : Type 0} (strict_read : Bytes → Result D TapretCommitment)
    : Type 0 where
  pub reads_layout :
      (c : TapretCommitment) → IsCommitment c → strict_read (c.mpc ++ c.nonce ∷ []) ≡ ok c

-- `DeserializeError`: of Base85, with the text that was given, of the size, or of the encoding.
pub data DeserializeError (B E D : Type 0) : Type 0 where
  invalid_base85 : Text → B → DeserializeError B E D
  confinement : E → DeserializeError B E D
  decode_error : D → DeserializeError B E D

-- `TapretCommitment::to_vec`, where `none` is a panic.
unfoldable pub to_vec : (TapretCommitment → Bytes) → TapretCommitment → Option Bytes
to_vec strict_write c = fits_33 (strict_write c)

-- `Confined::try_from(data).map_err(DecodeError::from)`
unfoldable pub sized_data :
    {B E D : Type 0} → Option E → Bytes → Result (DeserializeError B E D) Bytes
sized_data none data' = ok data'
sized_data (some e) data' = err (confinement e)

-- `expect("exact size match")`
unfoldable pub exact_size : {A E : Type 0} → Option E → Option A → Option A
exact_size none a = a
exact_size (some e) a = none

module _ {B : Type 0} (base85 : Base85 B) where
  -- `Display for TapretCommitment`
  unfoldable pub commitment_display : (TapretCommitment → Bytes) → TapretCommitment → Option Text
  unfolding to_vec
  commitment_display strict_write c = to_vec strict_write c >>= λ bytes. some (base85.encode bytes)

module _ {E D : Type 0} (confine : Confine E)
    (strict_read : Bytes → Result D TapretCommitment) where
  -- `From<[u8; 33]> for TapretCommitment`
  unfoldable pub commitment_from : Bytes → Option TapretCommitment
  unfolding exact_size
  commitment_from value = exact_size (confine 0 33 (length value)) (to_option (strict_read value))

  -- `TapretCommitment::from_str`
  unfoldable pub commitment_from_str :
      {B : Type 0} → Base85 B → Text → Result (DeserializeError B E D) TapretCommitment
  unfolding sized_data
  commitment_from_str base85 s = try (map_err (invalid_base85 s) (base85.decode s)) (λ bytes.
      try (sized_data (confine 0 33 (length bytes)) bytes)
        (λ bytes. map_err decode_error (strict_read bytes)))

module _ {B E D : Type 0} {base85 : Base85 B} {confine : Confine E}
    {strict_write : TapretCommitment → Bytes} {strict_read : Bytes → Result D TapretCommitment}
    (b : IsBase85 base85) (k : IsConfine confine) (w : IsStrict strict_write)
    (r : IsStrictRead strict_read) where
  -- A commitment that the Rust types allow is of 33 bytes, from which it is made again, and it has a
  -- text, from which it reads back; nothing panics.
  pub commitment_texts :
      (c : TapretCommitment)
      → IsCommitment c
      → ((bs : Bytes) × (to_vec strict_write c ≡ some bs)
          × (length bs ≡ 33)
          × (commitment_from confine strict_read bs ≡ some c))
        × ((s : Text) × (commitment_display base85 strict_write c ≡ some s)
            × (commitment_from_str confine strict_read base85 s ≡ ok c))
  unfolding to_vec fits_33 commitment_display commitment_from commitment_from_str
  commitment_texts c v =
      let bytes = c.mpc ++ c.nonce ∷ [] in
      let size : length bytes ≡ 33 = rw (length-append c.mpc (c.nonce ∷ []), v.mpc_size) refl in
      let valid = AreBytes-append c.mpc (c.nonce ∷ []) v.mpc_bytes (v.nonce_byte, tt) in
      let fits = k.accepts 0 33 33 (omega arith) (omega arith) in
      (
        (bytes, rw (w.layout c, size) refl, size, rw (size, fits, r.reads_layout c v) refl),
        (
          base85.encode bytes,
          rw (w.layout c, size) refl,
          rw (b.decodes bytes valid, size, fits, r.reads_layout c v) refl,
        ),
      )

  -- A text of more than 33 bytes is refused for its size.
  pub commitment_text_oversized :
      (s : Text) (bytes : Bytes)
      → base85.decode s ≡ ok bytes
      → 33 < length bytes
      → (e : E) × (commitment_from_str confine strict_read base85 s ≡ err (confinement e))
  unfolding commitment_from_str
  commitment_text_oversized s bytes read big = elim (Option-cases (confine 0 33 (length bytes))) [
    | inl accepted ↦ absurd (k.rejects_long 0 33 (length bytes) big accepted)
    | inr (e, refused) ↦ (e, rw (read, refused) refl)
  ]
