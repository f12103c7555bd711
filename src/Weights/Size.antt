-- ===== src/Weights/Size.antt =====
-- consensus/src/weights.rs: the weight of a transaction against the size of its encoding.
use bp_core.Base.{
  ℕ, ◌+◌, ◌*◌, ◌%◌, ◌^◌, ◌<◌, ◌≡◌, refl, arith, List, [], ◌∷◌, map, length, length-append,
  if◌then◌else◌, Bytes, All, inl, inr, Bool-cases,
}
use bp_core.Base.Int.{ℤ}
use bp_core.Codec.{Encoded, encode_items}
use bp_core.Codec.Ints.{
  encode_u8, encode_i32, encode_u32, encode_u64, encode_u16, encode_bytes32, to_le_bytes,
}
use bp_core.Codec.VarInt.{var_int_len, encode_var_int}
use bp_core.Codec.Array.{encode_array, encode_byte_str}
use bp_core.Tx.{TxIn, TxOut, Tx, Witness, is_segwit}
use bp_core.Tx.Encoding.{encode_tx, encode_outpoint, encode_tx_in, encode_tx_out, encode_witnesses}
use bp_core.Tx.Encoding.Parts.{IsTxIn, IsBareTxIn}
use bp_core.Tx.Encoding.Witnesses.{encode_tx_segwit, encode_tx_plain}
use bp_core.Tx.Encoding.RoundTrip.{IsTx}
use bp_core.Tx.Ids.{stripped}
use bp_core.Weights.{
  WeightUnits, add_weight, sum_weights, sum_weights_from, no_discount, witness_discount,
  script_weight_units, tx_in_weight_units, tx_out_weight_units, elements_size, witness_weight_units,
  tx_weight_units,
}

abbrev size {ℓ} : {A : Type ℓ} → (A → Encoded) → A → ℕ
size encode a = length (encode a).bytes

-- The length that `VarInt::len` gives is the number of bytes written.
pub size_var_int : (n : ℕ) → size encode_var_int n ≡ var_int_len n
unfolding encode_var_int var_int_len encode_u8 encode_u16 encode_u32 encode_u64 to_le_bytes
size_var_int n = ground arith

size_u32 : (n : ℕ) → size encode_u32 n ≡ 4
unfolding encode_u32 to_le_bytes
size_u32 n = refl

size_i32 : (z : ℤ) → size encode_i32 z ≡ 4
unfolding encode_i32 to_le_bytes
size_i32 z = refl

size_u64 : (n : ℕ) → size encode_u64 n ≡ 8
unfolding encode_u64 to_le_bytes
size_u64 n = refl

sum_by {ℓ} : {A : Type ℓ} → (A → ℕ) → List A → ℕ
sum_by f [] = 0
sum_by f (x ∷ xs) = f x + sum_by f xs

sum_by-four {ℓ} :
    {A : Type ℓ} (f : A → ℕ) (xs : List A) → sum_by (λ x. 4 * f x) xs ≡ 4 * sum_by f xs
unfolding sum_by
sum_by-four f [] = refl
sum_by-four f (x ∷ xs) = omega (arith, sum_by-four f xs)

abbrev size_items {ℓ} : {A : Type ℓ} → (A → Encoded) → List A → ℕ
size_items encode = sum_by (size encode)

size-encode_items {ℓ} :
    {A : Type ℓ} (encode : A → Encoded) (xs : List A)
    → size (encode_items encode) xs ≡ size_items encode xs
unfolding encode_items sum_by
size-encode_items encode [] = refl
size-encode_items encode (x ∷ xs) =
    rw (length-append (encode x).bytes (encode_items encode xs).bytes, size-encode_items encode xs)

size_array {ℓ} :
    {A : Type ℓ} (encode : A → Encoded) (xs : List A)
    → size (encode_array encode) xs ≡ var_int_len (length xs) + size_items encode xs
unfolding encode_array
size_array encode xs = rw (
  length-append (encode_var_int (length xs)).bytes (encode_items encode xs).bytes,
  size_var_int (length xs),
  size-encode_items encode xs,
)

size_bytes : (bs : Bytes) → size_items encode_u8 bs ≡ length bs
unfolding sum_by encode_u8
size_bytes [] = refl
size_bytes (b ∷ bs) = omega (arith, size_bytes bs)

size_byte_str : (bs : Bytes) → size encode_byte_str bs ≡ var_int_len (length bs) + length bs
unfolding encode_byte_str
size_byte_str bs = rw (size_array encode_u8 bs, size_bytes bs)

size_tx_in :
    (i : TxIn)
    → IsBareTxIn i
    → size encode_tx_in i ≡ 40 + (var_int_len (length i.sig_script) + length i.sig_script)
unfolding encode_tx_in encode_outpoint encode_bytes32
size_tx_in i v =
    rw
      (
        length-append {0},
        length-append {0},
        length-append {0},
        size_u32 i.prev_output.vout,
        size_u32 i.sequence,
        size_byte_str i.sig_script,
      )
      (omega (arith, v.0.0.0))

size_tx_out :
    (o : TxOut)
    → size encode_tx_out o ≡ 8 + (var_int_len (length o.script_pubkey) + length o.script_pubkey)
unfolding encode_tx_out
size_tx_out o = rw (length-append {0}, size_u64 o.value, size_byte_str o.script_pubkey)

size_elements : (w : Witness) → size_items encode_byte_str w ≡ elements_size w
unfolding sum_by elements_size
size_elements [] = refl
size_elements (e ∷ es) = rw (size_byte_str e, size_elements es)

-- Each weight is a size, four times for what is not discounted, modulo 2 ^ 32.
script_weight :
    (s : Bytes) → script_weight_units s ≡ 4 * (var_int_len (length s) + length s) % 2 ^ 32
unfolding script_weight_units no_discount
script_weight s = omega arith

tx_in_weight : (i : TxIn) → IsBareTxIn i → tx_in_weight_units i ≡ 4 * size encode_tx_in i % 2 ^ 32
unfolding tx_in_weight_units no_discount add_weight
tx_in_weight i v = omega (arith, script_weight i.sig_script, size_tx_in i v)

tx_out_weight : (o : TxOut) → tx_out_weight_units o ≡ 4 * size encode_tx_out o % 2 ^ 32
unfolding tx_out_weight_units no_discount add_weight
tx_out_weight o = omega (arith, script_weight o.script_pubkey, size_tx_out o)

witness_weight :
    (w : Witness) → witness_weight_units w ≡ size (encode_array encode_byte_str) w % 2 ^ 32
unfolding witness_weight_units witness_discount
witness_weight w = rw (size_array encode_byte_str w, size_elements w)

-- A sum of weights is the sum of what each stands for, modulo 2 ^ 32.
sum_weights_from-eq-mod {ℓ} :
    {A : Type ℓ} (f : A → ℕ) (weigh : A → WeightUnits) (xs : List A) (acc : ℕ)
    → acc < 2 ^ 32
    → All (λ x. weigh x ≡ f x % 2 ^ 32) xs
    → sum_weights_from acc (map weigh xs) ≡ (acc + sum_by f xs) % 2 ^ 32
unfolding sum_weights_from sum_by
sum_weights_from-eq-mod f weigh [] acc h v = omega arith
sum_weights_from-eq-mod f weigh (x ∷ xs) acc h (v, vs) =
    omega (arith, v, sum_weights_from-eq-mod f weigh xs ((acc + weigh x) % 2 ^ 32) (omega arith) vs)

sum_weights-eq-mod {ℓ} :
    {A : Type ℓ} (f : A → ℕ) (weigh : A → WeightUnits) (xs : List A)
    → All (λ x. weigh x ≡ f x % 2 ^ 32) xs
    → sum_weights (map weigh xs) ≡ sum_by f xs % 2 ^ 32
unfolding sum_weights
sum_weights-eq-mod f weigh xs v =
    omega (arith, sum_weights_from-eq-mod f weigh xs 0 (omega arith) v)

All-inputs :
    (is : List TxIn)
    → All IsTxIn is
    → All (λ i. tx_in_weight_units i ≡ 4 * size encode_tx_in i % 2 ^ 32) is
All-inputs [] v = tt
All-inputs (i ∷ is) (v, vs) = (tx_in_weight i v.0, All-inputs is vs)

every {ℓ κ} : {A : Type ℓ} {P : A → Type κ} (h : (a : A) → P a) (xs : List A) → All P xs
every h [] = tt
every h (x ∷ xs) = (h x, every h xs)

inputs_weight :
    (is : List TxIn)
    → All IsTxIn is
    → sum_weights (map tx_in_weight_units is) ≡ 4 * size_items encode_tx_in is % 2 ^ 32
inputs_weight is v = rw (
  sum_weights-eq-mod _ tx_in_weight_units is (All-inputs is v),
  sum_by-four (size encode_tx_in) is,
)

outputs_weight :
    (os : List TxOut)
    → sum_weights (map tx_out_weight_units os) ≡ 4 * size_items encode_tx_out os % 2 ^ 32
outputs_weight os = rw (
  sum_weights-eq-mod _ tx_out_weight_units os (every tx_out_weight os),
  sum_by-four (size encode_tx_out) os,
)

witnesses_weight :
    (is : List TxIn)
    → sum_weights (map (λ i. witness_weight_units i.witness) is) ≡ size encode_witnesses is % 2 ^ 32
unfolding encode_witnesses
witnesses_weight is =
    rw (size-encode_items _ is)
      (sum_weights-eq-mod _ _ is (every (λ i. witness_weight i.witness) is))

size_stripped :
    (tx : Tx)
    → length (stripped tx)
      ≡ 8
        + (var_int_len (length tx.inputs) + size_items encode_tx_in tx.inputs)
        + (var_int_len (length tx.outputs) + size_items encode_tx_out tx.outputs)
unfolding stripped
size_stripped tx = simp length-append (
    omega (
      arith,
      size_i32 tx.version,
      size_u32 tx.lock_time,
      size_array encode_tx_in tx.inputs,
      size_array encode_tx_out tx.outputs,
    ))

size-encode_tx :
    (tx : Tx)
    → length (encode_tx tx).bytes
      ≡ length (stripped tx) + (if is_segwit tx then 2 + size encode_witnesses tx.inputs else 0)
size-encode_tx tx = elim (Bool-cases (is_segwit tx)) [
  | inl e ↦ rw (e, encode_tx_segwit tx e) (unfold stripped in simp length-append (omega arith))
  | inr e ↦ rw (e, encode_tx_plain tx e) (unfold stripped in omega arith)
]

-- The weight of a transaction that the Rust types allow is three times the size of its encoding
-- without witnesses, marker and flag, and once the size of its whole encoding, modulo 2 ^ 32.
pub tx_weight_units_lem :
    (tx : Tx)
    → IsTx tx
    → tx_weight_units tx ≡ (3 * length (stripped tx) + length (encode_tx tx).bytes) % 2 ^ 32
unfolding tx_weight_units no_discount add_weight witness_discount
tx_weight_units_lem tx v = rw (size-encode_tx tx) (
    ground (
      arith,
      inputs_weight tx.inputs v.inputs.0,
      outputs_weight tx.outputs,
      witnesses_weight tx.inputs,
      size_stripped tx,
    ))
