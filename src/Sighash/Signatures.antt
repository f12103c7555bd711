-- ===== src/Sighash/Signatures.antt =====
-- consensus/src/sigtypes.rs: signatures with their hash types, as bytes. The signatures of the crate
-- secp256k1 and their encodings are parameters.
use bp_core.Base.{
  take-append, get_after, ℕ, ◌≡◌, ◌≢◌, refl, ap, arith, ◌==◌, if◌then◌else◌, [], ◌∷◌, ◌++◌, length,
  length-append, take, get_elem?, Option, none, some, Bytes, append-nil,
}
use bp_core.Base.Result.{Result, ok, err, panic, try, ok_or}
use bp_core.Sighash.{
  SighashType, Standard, non_standard, from_standard_u32, into_consensus_u8, into_consensus_u32,
}
use bp_core.Sighash.Numbers.{back}

pub data SigError : Type 0 where
  sighash_type : ℕ → SigError
  empty_signature der_encoding : SigError
  bip340_encoding : ℕ → SigError
  invalid_signature : SigError

-- A signature type of the crate: its reading of bytes and its bytes.
pub record SigCodec : Type 1 where
  pub Signature : Type 0
  pub from_slice : Bytes → Option Signature
  pub serialize : Signature → Bytes

-- A signature reads back from its bytes.
pub record IsSigCodec (c : SigCodec) : Type 0 where
  pub sig_reads : (sig : c.Signature) → c.from_slice (c.serialize sig) ≡ some sig

pub record LegacySig (Sig : Type 0) : Type 0 where
  pub sig : Sig
  pub sighash_type : SighashType

pub record Bip340Sig (Sig : Type 0) : Type 0 where
  pub sig : Sig
  pub sighash_type : Option SighashType

-- The conversion of NonStandardValue by `?`.
unfoldable pub standard_type : Standard → Result SigError SighashType
standard_type (Standard.ok t) = ok t
standard_type (non_standard n) = err (SigError.sighash_type n)

-- `slice::split_last`
unfoldable pub last_cons : ℕ → Option (ℕ × Bytes) → Option (ℕ × Bytes)
last_cons b none = some (b, [])
last_cons b (some (last, init)) = some (last, b ∷ init)

unfoldable pub split_last : Bytes → Option (ℕ × Bytes)
unfolding last_cons
split_last [] = none
split_last (b ∷ bs) = last_cons b (split_last bs)

-- `hash_ty.map(SighashType::from_standard_u32).transpose()?`
unfoldable pub transposed : Option ℕ → Result SigError (Option SighashType)
unfolding standard_type
transposed none = ok none
transposed (some n) = try (standard_type (from_standard_u32 n)) (λ t. ok (some t))

-- `bytes[64]`, which the length guards.
abbrev pub byte_at : Option ℕ → Result SigError ℕ
byte_at none = panic
byte_at (some b) = ok b

module _ (ecdsa : SigCodec) where
  -- `LegacySig::from_bytes`
  unfoldable pub legacy_from_bytes : Bytes → Result SigError (LegacySig ecdsa.Signature)
  unfolding split_last standard_type
  legacy_from_bytes bytes = try (ok_or empty_signature (split_last bytes)) (λ (hash_ty, sig).
      try (standard_type (from_standard_u32 hash_ty)) (λ t.
        try (ok_or der_encoding (ecdsa.from_slice sig))
          (λ s. ok (record { sig = s; sighash_type = t }))))

  -- `LegacySig::to_vec`
  unfoldable pub legacy_to_vec : LegacySig ecdsa.Signature → Bytes
  legacy_to_vec s = ecdsa.serialize s.sig ++ into_consensus_u8 s.sighash_type ∷ []

module _ (schnorr : SigCodec) where
  -- `Bip340Sig::from_bytes`, past the match on the length.
  unfoldable pub bip340_of : Option ℕ → Bytes → Result SigError (Bip340Sig schnorr.Signature)
  unfolding transposed
  bip340_of hash_ty sig = try (transposed hash_ty) (λ t.
      try (ok_or invalid_signature (schnorr.from_slice sig))
        (λ s. ok (record { sig = s; sighash_type = t })))

  -- `Bip340Sig::from_bytes`
  unfoldable pub bip340_from_bytes : Bytes → Result SigError (Bip340Sig schnorr.Signature)
  unfolding bip340_of
  bip340_from_bytes bytes =
      if length bytes == 0
      then err empty_signature
      else if length bytes == 64
      then bip340_of none bytes
      else if length bytes == 65
      then try (byte_at (get_elem? bytes 64)) (λ b. bip340_of (some b) (take 64 bytes))
      else err (bip340_encoding (length bytes))

  -- The byte of a hash type, if there is one.
  unfoldable pub type_bytes : Option SighashType → Bytes
  type_bytes none = []
  type_bytes (some t) = into_consensus_u8 t ∷ []

  -- `Bip340Sig::to_vec`
  unfoldable pub bip340_to_vec : Bip340Sig schnorr.Signature → Bytes
  unfolding type_bytes
  bip340_to_vec s = schnorr.serialize s.sig ++ type_bytes s.sighash_type

split_last-append : (bs : Bytes) (b : ℕ) → split_last (bs ++ b ∷ []) ≡ some (b, bs)
unfolding split_last last_cons
split_last-append [] b = refl
split_last-append (c ∷ cs) b = rw (split_last-append cs b) refl

standard_byte : (t : SighashType) → standard_type (from_standard_u32 (into_consensus_u8 t)) ≡ ok t
unfolding standard_type into_consensus_u32
standard_byte t = ap standard_type (back t.flag t.anyone_can_pay)

-- A legacy signature reads back from its bytes, whatever its hash type.
pub legacy_from_bytes-legacy_to_vec :
    (ecdsa : SigCodec) (c : IsSigCodec ecdsa) (s : LegacySig ecdsa.Signature)
    → legacy_from_bytes ecdsa (legacy_to_vec ecdsa s) ≡ ok s
unfolding legacy_from_bytes legacy_to_vec
legacy_from_bytes-legacy_to_vec ecdsa c s =
    rw
      (
        split_last-append (ecdsa.serialize s.sig) (into_consensus_u8 s.sighash_type),
        standard_byte s.sighash_type,
        c.sig_reads s.sig,
      )
      refl

bip340_reads :
    (schnorr : SigCodec) (c : IsSigCodec schnorr) (sig : schnorr.Signature) (t : Option SighashType)
    → length (schnorr.serialize sig) ≡ 64
    → bip340_from_bytes schnorr (bip340_to_vec schnorr (record { sig = sig; sighash_type = t }))
      ≡ ok (record { sig = sig; sighash_type = t })
unfolding bip340_from_bytes bip340_to_vec type_bytes bip340_of transposed
bip340_reads schnorr c sig none size =
    rw (append-nil (schnorr.serialize sig), size, c.sig_reads sig) refl
bip340_reads schnorr c sig (some t) size =
    rw
      (
        length-append (schnorr.serialize sig) (into_consensus_u8 t ∷ []),
        size,
        get_after (schnorr.serialize sig) (into_consensus_u8 t ∷ []) 64 0 (omega arith),
        take-append (schnorr.serialize sig) (into_consensus_u8 t ∷ []) 64 size,
        standard_byte t,
        c.sig_reads sig,
      )
      refl

-- A BIP-340 signature of 64 bytes reads back from its bytes, with and without a hash type.
pub bip340_from_bytes-bip340_to_vec :
    (schnorr : SigCodec) (c : IsSigCodec schnorr) (s : Bip340Sig schnorr.Signature)
    → length (schnorr.serialize s.sig) ≡ 64
    → bip340_from_bytes schnorr (bip340_to_vec schnorr s) ≡ ok s
bip340_from_bytes-bip340_to_vec schnorr c s size = bip340_reads schnorr c s.sig s.sighash_type size

-- Bytes of any other number than 0, 64 and 65 are refused with their number.
pub bip340_refused :
    (schnorr : SigCodec) (bytes : Bytes)
    → length bytes ≢ 0
    → length bytes ≢ 64
    → length bytes ≢ 65
    → bip340_from_bytes schnorr bytes ≡ err (bip340_encoding (length bytes))
unfolding bip340_from_bytes
bip340_refused schnorr bytes a b c = ground (arith, a, b, c)
