-- ===== src/Script.antt =====
-- consensus/src/script.rs: ScriptBytes, the standard forms of ScriptPubkey and their tests. A script
-- is its bytes, and `none` stands for a panic.
pub mod OpCodes
pub mod Constants
pub mod Slices
pub mod Standard
pub mod Recognition
pub mod Instructions
use bp_core.Base.{
  ℕ, ◌+◌, ◌*◌, ◌/◌, ◌%◌, ◌^◌, ◌≡◌, Bool, true, false, not, ◌&&◌, ltb, leb, ◌==◌, if◌then◌else◌,
  List, [], ◌∷◌, ◌++◌, length, get_elem?, Option, none, some, Bytes,
}
use bp_core.Codec.{Confine, u32_max}
use bp_core.Script.OpCodes.{OpCode, to_u8, dup, hash160, equal_verify, check_sig, equal, return}

-- One panicking step after another.
infixl 5 ◌>>=◌
abbrev pub ◌>>=◌ : {A B : Type 0} → Option A → (A → Option B) → Option B
none >>= f = none
some s >>= f = f s

-- `OP_PUSHDATA1` and the other constants that the code compares with.
abbrev pub op_pushbytes_20 : ℕ
op_pushbytes_20 = 0x14

abbrev pub op_pushbytes_32 : ℕ
op_pushbytes_32 = 0x20

abbrev pub op_pushdata1 : ℕ
op_pushdata1 = 0x4c

abbrev pub op_pushdata2 : ℕ
op_pushdata2 = 0x4d

abbrev pub op_pushdata4 : ℕ
op_pushdata4 = 0x4e

abbrev pub op_return : ℕ
op_return = 0x6a

abbrev pub op_dup : ℕ
op_dup = 0x76

abbrev pub op_equal : ℕ
op_equal = 0x87

abbrev pub op_equalverify : ℕ
op_equalverify = 0x88

abbrev pub op_hash160 : ℕ
op_hash160 = 0xa9

abbrev pub op_checksig : ℕ
op_checksig = 0xac

-- `Confined::extend(...).expect("script exceeds 4GB")`: the new length must be within the bounds.
extend_checked : {E : Type 0} → Option E → Bytes → Option Bytes
extend_checked none s = some s
extend_checked (some e) s = none

-- `ScriptBytes::len_for_slice`
unfoldable pub len_for_slice : ℕ → ℕ
len_for_slice len =
    len + (if leb len 0x4b then 1 else if leb len 0xff then 2 else if leb len 0xffff then 3 else 5)

-- `self.0.len() == n && self.0[i] == b`, of which the first guards the second.
is_byte : ℕ → Option ℕ → Bool
is_byte b none = false
is_byte b (some x) = x == b

unfoldable pub is_at : Bytes → ℕ → ℕ → Bool
unfolding is_byte
is_at s i b = is_byte b (get_elem? s i)

unfoldable pub is_p2pkh : Bytes → Bool
unfolding is_at
is_p2pkh s =
    length s == 25
    && is_at s 0 op_dup
    && is_at s 1 op_hash160
    && is_at s 2 op_pushbytes_20
    && is_at s 23 op_equalverify
    && is_at s 24 op_checksig

unfoldable pub is_p2sh : Bytes → Bool
unfolding is_at
is_p2sh s =
    length s == 23 && is_at s 0 op_hash160 && is_at s 1 op_pushbytes_20 && is_at s 22 op_equal

unfoldable pub is_op_return : Bytes → Bool
unfolding is_at
is_op_return s = not (length s == 0) && is_at s 0 (to_u8 return)

module _ {E : Type 0} (confine : Confine E) where
  unfoldable pub extend : Bytes → Bytes → Option Bytes
  unfolding extend_checked
  extend bytes s = extend_checked (confine 0 u32_max (length (s ++ bytes))) (s ++ bytes)

  unfoldable pub push : ℕ → Bytes → Option Bytes
  unfolding extend
  push b s = extend (b ∷ []) s

  unfoldable pub push_opcode : OpCode → Bytes → Option Bytes
  unfolding push
  push_opcode op_code s = push (to_u8 op_code) s

  -- The instruction before the data, by the length `n` of the data.
  unfoldable pub push_len : ℕ → Bytes → Option Bytes
  unfolding push
  push_len n s =
      if ltb n op_pushdata1
      then push n s
      else if ltb n 0x100
      then (do s ← push op_pushdata1 s; push n s)
      else if ltb n 0x10000
      then (do s ← push op_pushdata2 s; s ← push (n % 0x100) s; push (n / 0x100) s)
      else if ltb n 0x100000000
      then (do
        s ← push op_pushdata4 s
        s ← push (n % 0x100) s
        s ← push (n / 0x100 % 0x100) s
        s ← push (n / 0x10000 % 0x100) s
        push (n / 0x1000000) s)
      else none

  unfoldable pub push_slice : Bytes → Bytes → Option Bytes
  unfolding push_len extend
  push_slice bytes s = do s ← push_len (length bytes) s; extend bytes s

  unfoldable pub p2pkh : Bytes → Option Bytes
  unfolding push_opcode push_slice
  p2pkh hash = do
    s ← push_opcode dup []
    s ← push_opcode hash160 s
    s ← push_slice hash s
    s ← push_opcode equal_verify s
    push_opcode check_sig s

  unfoldable pub p2sh : Bytes → Option Bytes
  unfolding push_opcode push_slice
  p2sh hash = do s ← push_opcode hash160 []; s ← push_slice hash s; push_opcode equal s

  unfoldable pub op_return_script : Bytes → Option Bytes
  unfolding push_opcode push_slice
  op_return_script bytes = do s ← push_opcode return []; push_slice bytes s
