-- ===== src/Weights.antt =====
-- consensus/src/weights.rs: weight units and virtual bytes. Arithmetic on u32 wraps, as it does where
-- overflow checks are off.
pub mod Size
pub mod Rounding
use bp_core.Base.{
  ℕ, zero, suc, ◌+◌, ◌-◌, ◌*◌, ◌/◌, ◌%◌, ◌^◌, ◌≤◌, ◌<◌, ◌≡◌, refl, arith, List, [], ◌∷◌, map,
  length, Bool, true, false, ltb, if◌then◌else◌, Bytes,
}
use bp_core.Codec.VarInt.{var_int_len}
use bp_core.Tx.{TxIn, TxOut, Tx, Witness, is_segwit}

abbrev pub WeightUnits : Type 0
WeightUnits = ℕ

abbrev pub VBytes : Type 0
VBytes = ℕ

abbrev wrap : ℕ → ℕ
wrap n = n % 2 ^ 32

unfoldable pub add_weight : WeightUnits → WeightUnits → WeightUnits
add_weight a b = wrap (a + b)

-- `impl Sum`: the fold of `add` from 0.
unfoldable pub sum_weights_from : WeightUnits → List WeightUnits → WeightUnits
sum_weights_from acc [] = acc
sum_weights_from acc (w ∷ ws) = sum_weights_from (wrap (acc + w)) ws

unfoldable pub sum_weights : List WeightUnits → WeightUnits
unfolding sum_weights_from
sum_weights ws = sum_weights_from 0 ws

-- `Add for VBytes`, and its `Sum`.
unfoldable pub add_vbytes : VBytes → VBytes → VBytes
add_vbytes a b = wrap (a + b)

unfoldable pub sum_vbytes : List VBytes → VBytes
unfolding sum_weights_from
sum_vbytes vs = sum_weights_from 0 vs

-- `bytes as u32 * 4`
unfoldable pub no_discount : ℕ → WeightUnits
no_discount bytes = wrap (wrap bytes * 4)

unfoldable pub witness_discount : ℕ → WeightUnits
witness_discount bytes = wrap bytes

-- A signature script, and a script pubkey.
unfoldable pub script_weight_units : Bytes → WeightUnits
script_weight_units s = no_discount (var_int_len (length s) + length s)

unfoldable pub tx_in_weight_units : TxIn → WeightUnits
tx_in_weight_units i = add_weight (no_discount (32 + 4 + 4)) (script_weight_units i.sig_script)

unfoldable pub tx_out_weight_units : TxOut → WeightUnits
tx_out_weight_units o = add_weight (no_discount 8) (script_weight_units o.script_pubkey)

-- `self.iter().map(|item| item.len_var_int().len() + item.len()).sum::<usize>()`
unfoldable pub elements_size : Witness → ℕ
elements_size [] = 0
elements_size (item ∷ items) = var_int_len (length item) + length item + elements_size items

unfoldable pub witness_weight_units : Witness → WeightUnits
unfolding elements_size
witness_weight_units w = witness_discount (var_int_len (length w) + elements_size w)

unfoldable pub tx_weight_units : Tx → WeightUnits
tx_weight_units tx =
    let bytes = 4 + var_int_len (length tx.inputs) + var_int_len (length tx.outputs) + 4 in
    let weight =
      add_weight (add_weight (no_discount bytes) (sum_weights (map tx_in_weight_units tx.inputs)))
        (sum_weights (map tx_out_weight_units tx.outputs)) in
    if is_segwit tx
    then add_weight (add_weight weight (witness_discount 2))
        (sum_weights (map (λ i. witness_weight_units i.witness) tx.inputs))
    else weight

-- `wu.0 as f32`: up to 2 ^ 24 exact, above that rounded to a multiple of `unit`, to the nearest one
-- and to the even one of two that are as near.
unfoldable pub round_to : ℕ → ℕ → ℕ
round_to unit w =
    let q = w / unit in
    let r = w % unit in
    if ltb (2 * r) unit
    then q * unit
    else if ltb unit (2 * r)
    then (q + 1) * unit
    else (q + q % 2) * unit

unfoldable pub as_f32 : WeightUnits → ℕ
as_f32 w =
    if ltb w (2 ^ 24)
    then w
    else if ltb w (2 ^ 25)
    then round_to 2 w
    else if ltb w (2 ^ 26)
    then round_to 4 w
    else if ltb w (2 ^ 27)
    then round_to 8 w
    else if ltb w (2 ^ 28)
    then round_to 16 w
    else if ltb w (2 ^ 29)
    then round_to 32 w
    else if ltb w (2 ^ 30)
    then round_to 64 w
    else if ltb w (2 ^ 31)
    then round_to 128 w
    else round_to 256 w

-- `VBytes((wu.0 as f32 / 4.0).ceil() as u32)`; a division by four is exact.
unfoldable pub vbytes : WeightUnits → VBytes
unfolding as_f32
vbytes w = (as_f32 w + 3) / 4
