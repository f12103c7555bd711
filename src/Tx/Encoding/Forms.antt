-- ===== src/Tx/Encoding/Forms.antt =====
-- consensus/src/coding.rs: the encodings of a transaction that the decoder takes, in parts.
use mathlib.Core.Path.{subst}
use bp_core.Base.{
  ℕ, ◌*◌, ◌-◌, ◌^◌, ◌<◌, ◌≡◌, ◌⊎◌, refl, sym, ap, ◌∙◌, List, [], ◌∷◌, ◌++◌, length, map, Bytes,
  false, All, append_assoc, arith, inl, inr, Bool-cases, length-map, leb,
}
use bp_core.Base.Int.{IsI32}
use bp_core.Codec.{Decoder, encode_items}
use bp_core.Codec.Ints.{encode_i32, encode_u32}
use bp_core.Codec.VarInt.{encode_var_int}
use bp_core.Codec.Array.{IsArray, encode_array}
use bp_core.Codec.Laws.{Consumes}
use bp_core.Tx.{TxIn, Tx, TxVer, any_witness, is_segwit}
use bp_core.Tx.Encoding.{encode_tx_in, encode_tx_out, encode_witnesses, encode_tx, with_capacity}
use bp_core.Tx.Encoding.Parts.{IsTxIn, IsTxOut, IsBareTxIn}
use bp_core.Tx.Encoding.Witnesses.{
  bare, HasWitness, encode_tx_segwit, encode_tx_plain, array-eq_of_bare,
}
use bp_core.Tx.Encoding.RoundTrip.{IsTx}

-- The form with the marker and the flag, whether or not an input has a witness.
unfoldable pub encode_marked : Tx → Bytes
encode_marked tx =
    (encode_i32 tx.version).bytes
    ++ (0
        ∷ 1
        ∷ ((encode_array encode_tx_in tx.inputs).bytes
            ++ ((encode_array encode_tx_out tx.outputs).bytes
                ++ ((encode_witnesses tx.inputs).bytes ++ (encode_u32 tx.lock_time).bytes))))

-- An input as it is read in its place.
abbrev pub IsRead : TxIn → Type 0
IsRead i = IsBareTxIn i × (i.witness ≡ [])

pub with_capacity-Consumes :
    {E A : Type 0} (size n : ℕ) (d : Decoder E A) (P : A → Bytes → Type 0)
    → Consumes d P
    → Consumes (with_capacity size n d) P
unfolding with_capacity
with_capacity-Consumes size n d P h bs rest a ab e =
    elim (Bool-cases (leb (size * n) (2 ^ 63 - 1))) [
      | inl fits ↦ h bs rest a ab (rw fits at e)
      | inr big ↦ cc
    ]

filled_inputs :
    (is is' : List TxIn)
    → All IsRead is
    → All HasWitness is'
    → map bare is' ≡ map bare is
    → All IsTxIn is'
filled_inputs is [] v w e = tt
filled_inputs [] (i' ∷ is') v w e = cc
filled_inputs (i ∷ is) (i' ∷ is') ((b, _), v) (w, ws) e =
    let head : bare i ≡ bare i' = cc in
    ((subst IsBareTxIn head b, w), filled_inputs is is' v ws (cc))

pub no_witness : (is : List TxIn) → All IsRead is → any_witness is ≡ false
unfolding any_witness
no_witness [] v = refl
no_witness (i ∷ is) ((_, e), v) = rw (e, no_witness is v)

pub empty_witnesses : (is : List TxIn) → All IsRead is → All HasWitness is
empty_witnesses [] v = tt
empty_witnesses (i ∷ is) ((_, e), v) = (rw e (tt, omega arith), empty_witnesses is v)

-- What `decode_tx_rest` adds to the version and the inputs.
pub record IsRestOf (version : TxVer) (is : List TxIn) (tail : Bytes) (tx : Tx) (cs : Bytes)
    : Type 0 where
  pub version_eq : tx.version ≡ version
  pub inputs_eq : map bare tx.inputs ≡ map bare is
  pub have_witness : All HasWitness tx.inputs
  pub outputs : IsArray IsTxOut tx.outputs
  pub lock_time : tx.lock_time < 2 ^ 32
  pub bytes :
      cs
      ≡ (encode_array encode_tx_out tx.outputs).bytes ++ (tail ++ (encode_u32 tx.lock_time).bytes)

pub IsTx-of_rest :
    (version : TxVer) (is : List TxIn) (tail : Bytes) (tx : Tx) (cs : Bytes)
    → IsI32 version
    → IsArray IsRead is
    → IsRestOf version is tail tx cs
    → IsTx tx
IsTx-of_rest version is tail tx cs vv (v, short) r =
    let l : length tx.inputs ≡ length is =
      sym (length-map bare tx.inputs) ∙ ap length r.inputs_eq ∙ length-map bare is in
    record {
      version = rw r.version_eq vv;
      inputs = (filled_inputs is tx.inputs v r.have_witness r.inputs_eq, omega arith);
      outputs = r.outputs;
      lock_time = r.lock_time;
    }

-- The bytes `cs` are what `encode_tx` writes, or the marked form of a transaction with no witness.
abbrev pub IsEncodingOf : Tx → Bytes → Type 0
IsEncodingOf tx cs =
    (cs ≡ (encode_tx tx).bytes) ⊎ ((is_segwit tx ≡ false) × (cs ≡ encode_marked tx))

pub marked-IsEncodingOf : (tx : Tx) (cs : Bytes) → cs ≡ encode_marked tx → IsEncodingOf tx cs
unfolding encode_marked
marked-IsEncodingOf tx cs e = elim (Bool-cases (is_segwit tx)) [
  | inl yes' ↦ inl (rw (encode_tx_segwit tx yes') e)
  | inr no' ↦ inr (no', e)
]

pub counted_bytes :
    (version : TxVer) (n : ℕ) (is : List TxIn) (tx : Tx) (cs cs' : Bytes)
    → length is ≡ n
    → is_segwit tx ≡ false
    → cs ≡ (encode_items encode_tx_in is).bytes
    → IsRestOf version is [] tx cs'
    → (encode_i32 version).bytes ++ ((encode_var_int n).bytes ++ (cs ++ cs')) ≡ (encode_tx tx).bytes
unfolding encode_array
counted_bytes version n is tx cs cs' l plain e r =
    let inputs_eq : (encode_array encode_tx_in tx.inputs).bytes
        ≡ (encode_var_int n).bytes ++ (encode_items encode_tx_in is).bytes =
      array-eq_of_bare tx.inputs is r.inputs_eq ∙ rw l in
    rw (encode_tx_plain tx plain, inputs_eq, append_assoc, e, r.bytes, ← r.version_eq)
