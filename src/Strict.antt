-- ===== src/Strict.antt =====
-- The strict encoding of the crate strict_encoding, as far as the program calls it by hand: a field of
-- a type is what `write_field` appends and `read_field` takes, the fields of a tuple or of a structure
-- stand one after another, and the error of a refused value holds the value.
use bp_core.Base.{◌≡◌, ◌++◌, Bytes}
use bp_core.Base.Result.{Result, ok}

-- `DecodeError`: an error of the crate, or `DataIntegrityError` for a value that is refused.
pub data DecodeError (D R : Type 0) : Type 0 where
  strict : D → DecodeError D R
  data_integrity_error : R → DecodeError D R

pub record Field (D A : Type 0) : Type 0 where
  pub write_field : A → Bytes
  pub read_field : Bytes → Result D (A × Bytes)

-- A field reads back, and the reader stops where it ends.
pub record IsField {D A : Type 0} (IsValid : A → Type 0) (field : Field D A) : Type 0 where
  pub field_reads :
      (a : A)
      → IsValid a
      → (rest : Bytes) → field.read_field (field.write_field a ++ rest) ≡ ok (a, rest)
