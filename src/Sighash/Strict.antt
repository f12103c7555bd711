-- ===== src/Sighash/Strict.antt =====
-- consensus/src/sigtypes.rs: the strict encoding of signatures. A legacy signature is a text of at
-- most 255 bytes, and `none` stands for a panic.
use bp_core.Base.{◌≤◌, ◌≡◌, refl, arith, ◌++◌, append_assoc, length, Option, none, some, Bytes}
use bp_core.Base.Result.{Result, ok, try, map_err, ok_or}
use bp_core.Codec.{Confine}
use bp_core.Codec.Array.{IsConfine}
use bp_core.Strict.{DecodeError, strict, data_integrity_error, Field, IsField}
use bp_core.Sighash.{SighashType}
use bp_core.Sighash.Signatures.{SigCodec, IsSigCodec, LegacySig, Bip340Sig}

-- The signature that is refused: a DER encoding, or the 64 bytes of BIP-340.
pub data BadSig : Type 0 where
  der : BadSig
  bip340 : Bytes → BadSig

-- `TinyBlob::try_from(bytes).expect("invalid signature")`, with bounds from 0 to 255.
unfoldable pub tiny_blob : {E : Type 0} → Option E → Bytes → Option Bytes
tiny_blob none bytes = some bytes
tiny_blob (some e) bytes = none

-- `write_field` of what did not panic, and of the hash type behind it.
abbrev pub written : {D : Type 0} → Field D Bytes → Bytes → Option Bytes → Option Bytes
written blob more none = none
written blob more (some bytes) = some (blob.write_field bytes ++ more)

module _ {D : Type 0} (sigs : SigCodec) (blob : Field D Bytes) where
  module _ (sighash_type : Field D SighashType) where
    -- `LegacySig::strict_encode`
    unfoldable pub legacy_strict_encode :
        {E : Type 0} → Confine E → LegacySig sigs.Signature → Option Bytes
    unfolding tiny_blob
    legacy_strict_encode confine s =
        let bytes = sigs.serialize s.sig in
        written blob (sighash_type.write_field s.sighash_type)
          (tiny_blob (confine 0 255 (length bytes)) bytes)

    -- `LegacySig::strict_decode`
    unfoldable pub legacy_strict_decode :
        Bytes → Result (DecodeError D BadSig) (LegacySig sigs.Signature × Bytes)
    legacy_strict_decode s = try (map_err strict (blob.read_field s)) (λ (bytes, s).
        try (map_err data_integrity_error (ok_or der (sigs.from_slice bytes))) (λ sig.
          try (map_err strict (sighash_type.read_field s))
            (λ (t, rest). ok (record { sig = sig; sighash_type = t }, rest))))

  module _ (sighash_type : Field D (Option SighashType)) where
    -- `Bip340Sig::strict_encode`
    unfoldable pub bip340_strict_encode : Bip340Sig sigs.Signature → Bytes
    bip340_strict_encode s =
        blob.write_field (sigs.serialize s.sig) ++ sighash_type.write_field s.sighash_type

    -- `Bip340Sig::strict_decode`
    unfoldable pub bip340_strict_decode :
        Bytes → Result (DecodeError D BadSig) (Bip340Sig sigs.Signature × Bytes)
    bip340_strict_decode s = try (map_err strict (blob.read_field s)) (λ (bytes, s).
        try (map_err data_integrity_error (ok_or (bip340 bytes) (sigs.from_slice bytes))) (λ sig.
          try (map_err strict (sighash_type.read_field s))
            (λ (t, rest). ok (record { sig = sig; sighash_type = t }, rest))))

abbrev pub IsTiny : Bytes → Type 0
IsTiny bytes = length bytes ≤ 255

abbrev pub IsBytes64 : Bytes → Type 0
IsBytes64 bytes = length bytes ≡ 64

abbrev pub IsAny : {A : Type 0} → A → Type 0
IsAny a = Unit {0}

module _ {D E : Type 0} {confine : Confine E} (k : IsConfine confine) {sigs : SigCodec}
    (c : IsSigCodec sigs) where
  -- Where fields of the crate read back: a legacy signature of at most 255 bytes is encoded without
  -- a panic and reads back with its hash type, and the reader stops where the encoding ends.
  pub strict_legacy_sig :
      {blob : Field D Bytes} {sighash_type : Field D SighashType} (b : IsField IsTiny blob)
      (t : IsField IsAny sighash_type) (s : LegacySig sigs.Signature) (rest : Bytes)
      → length (sigs.serialize s.sig) ≤ 255
      → (bytes : Bytes) × (legacy_strict_encode sigs blob sighash_type confine s ≡ some bytes)
        × (legacy_strict_decode sigs blob sighash_type (bytes ++ rest) ≡ ok (s, rest))
  unfolding legacy_strict_encode legacy_strict_decode
  strict_legacy_sig {blob = blob} {sighash_type = sighash_type} b t s rest size =
      let bytes = sigs.serialize s.sig in
      (
        blob.write_field bytes ++ sighash_type.write_field s.sighash_type,
        rw (k.accepts 0 255 (length bytes) (omega arith) size) refl,
        rw
            (
              append_assoc,
              b.field_reads bytes size _,
              c.sig_reads s.sig,
              t.field_reads s.sighash_type tt rest,
            )
            refl,
      )

  -- Where fields of the crate read back: a BIP-340 signature of 64 bytes reads back from its strict
  -- encoding, with and without a hash type, and the reader stops where the encoding ends.
  pub strict_bip340_sig :
      {array : Field D Bytes} {sighash_type : Field D (Option SighashType)}
      (b : IsField IsBytes64 array) (t : IsField IsAny sighash_type) (s : Bip340Sig sigs.Signature)
      (rest : Bytes)
      → length (sigs.serialize s.sig) ≡ 64
      → bip340_strict_decode sigs array sighash_type
          (bip340_strict_encode sigs array sighash_type s ++ rest)
        ≡ ok (s, rest)
  unfolding bip340_strict_encode bip340_strict_decode
  strict_bip340_sig b t s rest size =
      rw
        (
          append_assoc,
          b.field_reads (sigs.serialize s.sig) size _,
          c.sig_reads s.sig,
          t.field_reads s.sighash_type tt rest,
        )
        refl
