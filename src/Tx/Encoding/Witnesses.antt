-- ===== src/Tx/Encoding/Witnesses.antt =====
-- consensus/src/coding.rs: the loops that write and read the witnesses of all inputs.
use mathlib.Core.Path.{ap₂}
use bp_core.Base.{
  length, length-map, ◌∙◌, ◌≡◌, refl, sym, ap, List, [], ◌∷◌, ◌++◌, map, Bool, true, false, All,
  append_assoc, append-nil, not, ◌||◌,
}
use bp_core.Codec.{Confine, encode_items}
use bp_core.Codec.Newtypes.{decode_witness}
use bp_core.Codec.Array.{IsConfine}
use bp_core.Codec.Laws.{
  Reads, Consumes, Streams, Consumes-bind, Consumes-pure, Streams-bind, Streams-pure,
}
use bp_core.Tx.{TxIn, Witness, Tx, any_witness, is_segwit, is_empty}
use bp_core.Codec.Array.{encode_array}
use bp_core.Codec.Ints.{encode_u8, encode_i32, encode_u32}
use bp_core.Tx.Encoding.{
  encode_tx, encode_tx_out, segwit_marker, encode_tx_in, encode_witnesses, decode_witnesses,
}
use bp_core.Tx.Encoding.Parts.{IsWitness, Witness-IsCodec}

-- An input as it is read in its place, with no witness yet.
abbrev pub bare : TxIn → TxIn
bare i = record i { witness = [] }

abbrev pub HasWitness : TxIn → Type 0
HasWitness i = IsWitness i.witness

pub encode_items-bare :
    (is : List TxIn) → encode_items encode_tx_in (map bare is) ≡ encode_items encode_tx_in is
unfolding encode_items encode_tx_in
encode_items-bare [] = refl
encode_items-bare (i ∷ is) = rw (encode_items-bare is)

pub array-eq_of_bare :
    (is is' : List TxIn)
    → map bare is ≡ map bare is'
    → (encode_array encode_tx_in is).bytes ≡ (encode_array encode_tx_in is').bytes
unfolding encode_array
array-eq_of_bare is is' e =
    let l : length is ≡ length is' = sym (length-map bare is) ∙ ap length e ∙ length-map bare is' in
    rw (l, ← encode_items-bare is, ← encode_items-bare is', e)

no_witness : (w : Witness) (b : Bool) → (not (is_empty w) || b) ≡ false → (w ≡ []) × (b ≡ false)
no_witness [] b e = (refl, e)
no_witness (x ∷ w) b e = cc

bare_of_empty : (i : TxIn) → i.witness ≡ [] → bare i ≡ i
bare_of_empty i e = λ j. record i { witness = sym e j }

pub bare_of_any_witness : (is : List TxIn) → any_witness is ≡ false → map bare is ≡ is
unfolding any_witness
bare_of_any_witness [] e = refl
bare_of_any_witness (i ∷ is) e =
    let (empty, others) = no_witness i.witness (any_witness is) e in
    ap₂ (λ x xs. x ∷ xs) (bare_of_empty i empty) (bare_of_any_witness is others)

pub nonempty_of_any_witness : (is : List TxIn) → any_witness is ≡ true → is_empty is ≡ false
unfolding any_witness
nonempty_of_any_witness [] e = cc
nonempty_of_any_witness (i ∷ is) e = refl

-- The bytes of a transaction with witnesses, and of one without.
pub encode_tx_segwit :
    (tx : Tx)
    → is_segwit tx ≡ true
    → (encode_tx tx).bytes
      ≡ (encode_i32 tx.version).bytes
        ++ (0
            ∷ 1
            ∷ ((encode_array encode_tx_in tx.inputs).bytes
                ++ ((encode_array encode_tx_out tx.outputs).bytes
                    ++ ((encode_witnesses tx.inputs).bytes ++ (encode_u32 tx.lock_time).bytes))))
unfolding encode_tx segwit_marker encode_u8
encode_tx_segwit tx e = rw (e, nonempty_of_any_witness tx.inputs (unfold is_segwit in e))

pub encode_tx_plain :
    (tx : Tx)
    → is_segwit tx ≡ false
    → (encode_tx tx).bytes
      ≡ (encode_i32 tx.version).bytes
        ++ ((encode_array encode_tx_in tx.inputs).bytes
            ++ ((encode_array encode_tx_out tx.outputs).bytes ++ (encode_u32 tx.lock_time).bytes))
unfolding encode_tx segwit_marker
encode_tx_plain tx e = rw e

module _ {E : Type 0} {confine : Confine E} (k : IsConfine confine) where
  pub witnesses-Reads :
      (is : List TxIn)
      → All HasWitness is
      → Reads (decode_witnesses confine (map bare is)) (encode_witnesses is).bytes is
  unfolding decode_witnesses encode_witnesses encode_items
  witnesses-Reads [] v rest = refl
  witnesses-Reads (i ∷ is) (v, vs) rest =
      rw (append_assoc, (Witness-IsCodec k).reads i.witness v _, witnesses-Reads is vs rest)

  pub witnesses-Consumes :
      (is : List TxIn)
      → Consumes (decode_witnesses confine is) (λ is' cs.
        All HasWitness is' × (map bare is' ≡ map bare is) × (cs ≡ (encode_witnesses is').bytes))
  unfolding decode_witnesses encode_witnesses encode_items
  witnesses-Consumes [] = Consumes-pure _ [] (tt, refl, refl)
  witnesses-Consumes (i ∷ is) =
      Consumes-bind (decode_witness confine) _ _ _ (Witness-IsCodec k).consumes λ w cs (v, e).
        Consumes-bind (decode_witnesses confine is) _ _ _ (witnesses-Consumes is)
          λ is' cs' (vs, same, e').
            Consumes-pure _ (record i { witness = w } ∷ is')
              ((v, vs), ap (λ t. bare i ∷ t) same, rw (append-nil, e, e'))

  pub witnesses-Streams : (is : List TxIn) → Streams (decode_witnesses confine is)
  unfolding decode_witnesses
  witnesses-Streams [] = Streams-pure []
  witnesses-Streams (i ∷ is) =
      Streams-bind (decode_witness confine) _ (Witness-IsCodec k).streams λ w.
        Streams-bind (decode_witnesses confine is) _ (witnesses-Streams is)
          λ is'. Streams-pure (record i { witness = w } ∷ is')
