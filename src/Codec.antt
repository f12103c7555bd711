-- ===== src/Codec.antt =====
-- consensus/src/coding.rs: the traits ConsensusEncode and ConsensusDecode with their errors.
-- A reader is the list of the bytes not yet read, and a writer is what is appended to a Vec<u8>.
pub mod Laws
pub mod Ints
pub mod VarInt
pub mod Array
pub mod Newtypes
pub mod Exact
pub mod RoundTrip
use bp_core.Base.{
  ℕ, zero, suc, ◌+◌, ◌≡◌, List, [], ◌∷◌, ◌++◌, Bytes, Bool, true, false, if◌then◌else◌, Option,
  none, some,
}

-- The kind of std::io::Error that reading from memory can give.
pub data ErrorKind : Type 0 where
  unexpected_eof : ErrorKind

-- `E` is confinement::Error of the crate amplify, and an InvalidLeafVer is its byte.
pub data ConsensusDataError (E : Type 0) : Type 0 where
  data_not_consumed non_minimal_var_int : ConsensusDataError E
  invalid_xonly_pubkey : Bytes → ConsensusDataError E
  long_tap_merkle_path invalid_tap_merkle_path : ConsensusDataError E
  invalid_leaf_ver : ℕ → ConsensusDataError E
  confined : E → ConsensusDataError E
  unsupported_segwit_flag : ℕ → ConsensusDataError E

pub data ConsensusDecodeError (E : Type 0) : Type 0 where
  io : ErrorKind → ConsensusDecodeError E
  data_error : ConsensusDataError E → ConsensusDecodeError E

-- What a call gives: a value, an error value, or a panic.
pub data Result {ℓ} (E : Type 0) (A : Type ℓ) : Type ℓ where
  ok : A → Result E A
  err : ConsensusDecodeError E → Result E A
  panic : Result E A

abbrev pub bind {ℓ κ} :
    {E : Type 0} {A : Type ℓ} {B : Type κ} → Result E A → (A → Result E B) → Result E B
bind (ok a) f = f a
bind (err e) f = err e
bind panic f = panic

-- `fn consensus_decode(reader) -> Result<Self, ConsensusDecodeError>`
abbrev pub Decoder {ℓ} : Type 0 → Type ℓ → Type ℓ
Decoder E A = Bytes → Result E (A × Bytes)

abbrev pub pure {ℓ} : {E : Type 0} {A : Type ℓ} → A → Decoder E A
pure a bs = ok (a, bs)

abbrev pub fail {ℓ} : {E : Type 0} {A : Type ℓ} → ConsensusDataError E → Decoder E A
fail e bs = err (data_error e)

infixl 5 ◌>>=◌
abbrev pub ◌>>=◌ {ℓ κ} :
    {E : Type 0} {A : Type ℓ} {B : Type κ} → Decoder E A → (A → Decoder E B) → Decoder E B
◌>>=◌ d f bs = bind (d bs) (λ (a, rest). f a rest)

-- What a call of `consensus_encode` appends to the writer, and the count that it returns.
pub record Encoded : Type 0 where
  pub bytes : Bytes
  pub counter : ℕ

-- One write after another; `counter += ...`.
infixr 64 ◌<+>◌
abbrev pub ◌<+>◌ : Encoded → Encoded → Encoded
a <+> b = record { bytes = a.bytes ++ b.bytes; counter = a.counter + b.counter }

abbrev pub nothing : Encoded
nothing = record { bytes = []; counter = 0 }

-- `Read::read_exact` on a buffer of n bytes.
unfoldable pub read_exact : {E : Type 0} → ℕ → Decoder E Bytes
read_exact zero bs = ok ([], bs)
read_exact (suc n) [] = err (io unexpected_eof)
read_exact (suc n) (b ∷ bs) = bind (read_exact n bs) (λ (xs, rest). ok (b ∷ xs, rest))

-- The items of a loop `for _ in 0..n { arr.push(T::consensus_decode(reader)?) }`.
unfoldable pub decode_items {ℓ} : {E : Type 0} {A : Type ℓ} → Decoder E A → ℕ → Decoder E (List A)
decode_items item zero = pure []
decode_items item (suc n) = do x ← item; xs ← decode_items item n; pure (x ∷ xs)

-- The writes of a loop `for item in self { counter += item.consensus_encode(writer)? }`.
unfoldable pub encode_items {ℓ} : {A : Type ℓ} → (A → Encoded) → List A → Encoded
encode_items item [] = nothing
encode_items item (x ∷ xs) = item x <+> encode_items item xs

-- `consensus_serialize`
unfoldable pub consensus_serialize {ℓ} : {A : Type ℓ} → (A → Encoded) → A → Bytes
consensus_serialize encode a = (encode a).bytes

-- `consensus_deserialize`: the cursor must have reached the end of the input.
unfoldable pub consumed {ℓ} : {E : Type 0} {A : Type ℓ} → A × Bytes → Result E A
consumed (me, []) = ok me
consumed (me, b ∷ rest) = err (data_error data_not_consumed)

unfoldable pub consensus_deserialize {ℓ} :
    {E : Type 0} {A : Type ℓ} → Decoder E A → Bytes → Result E A
unfolding consumed
consensus_deserialize decode bs = bind (decode bs) consumed

-- `Confined::try_from` of the crate amplify on a collection of `len` items: the error that it
-- gives for the bounds `min` and `max`, or `none` where it accepts.
abbrev pub Confine : Type 0 → Type 0
Confine E = ℕ → ℕ → ℕ → Option E

-- The bounds of VarIntArray: 0 to u32::MAX.
abbrev pub u32_max : ℕ
u32_max = 0xffff_ffff

unfoldable pub confine_with {ℓ} : {E : Type 0} {A : Type ℓ} → Option E → A → Decoder E A
confine_with none a = pure a
confine_with (some e) a = fail (confined e)
