-- ===== src/Sighash.antt =====
-- consensus/src/sigtypes.rs: signature hash types and their conversions from and to numbers.
pub mod Numbers
pub mod Signatures
pub mod Strict
use bp_core.Base.{ℕ, ◌+◌, ◌*◌, Bool, true, false, ◌==◌, if◌then◌else◌, bit_and, bit_or}

pub data SighashFlag : Type 0 where
  all none single : SighashFlag

pub record SighashType : Type 0 where
  pub flag : SighashFlag
  pub anyone_can_pay : Bool

-- `Result<SighashType, NonStandardValue<u32>>`, the error with the refused value.
pub data Standard : Type 0 where
  ok : SighashType → Standard
  non_standard : ℕ → Standard

-- `self.flag as u8`
unfoldable pub flag_u8 : SighashFlag → ℕ
flag_u8 all = 0x01
flag_u8 none = 0x02
flag_u8 single = 0x03

-- `(self.anyone_can_pay as u8) << 7`
unfoldable pub mask_u8 : Bool → ℕ
mask_u8 false = 0
mask_u8 true = 0x80

abbrev pub sighash : SighashFlag → Bool → SighashType
sighash flag anyone_can_pay = record { flag = flag; anyone_can_pay = anyone_can_pay }

-- The match on the masked number.
unfoldable pub from_masked : ℕ → SighashType
from_masked x =
    if x == 0x01
    then sighash all false
    else if x == 0x02
    then sighash none false
    else if x == 0x03
    then sighash single false
    else if x == 0x81
    then sighash all true
    else if x == 0x82
    then sighash none true
    else if x == 0x83
    then sighash single true
    else if bit_and x 0x80 == 0x80
    then sighash all true
    else sighash all false

unfoldable pub from_consensus_u32 : ℕ → SighashType
unfolding from_masked
from_consensus_u32 n = let mask = bit_or 0x1f 0x80 in from_masked (bit_and n mask)

unfoldable pub from_standard_u32 : ℕ → Standard
from_standard_u32 n =
    if n == 0x01
    then ok (sighash all false)
    else if n == 0x02
    then ok (sighash none false)
    else if n == 0x03
    then ok (sighash single false)
    else if n == 0x81
    then ok (sighash all true)
    else if n == 0x82
    then ok (sighash none true)
    else if n == 0x83
    then ok (sighash single true)
    else non_standard n

unfoldable pub into_consensus_u8 : SighashType → ℕ
unfolding flag_u8 mask_u8
into_consensus_u8 t = bit_or (flag_u8 t.flag) (mask_u8 t.anyone_can_pay)

unfoldable pub into_consensus_u32 : SighashType → ℕ
unfolding into_consensus_u8
into_consensus_u32 t = into_consensus_u8 t
