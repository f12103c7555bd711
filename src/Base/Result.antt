-- ===== src/Base/Result.antt =====
-- Rust's Result, with a panic as a third outcome, for code whose errors are not the codec's.
use mathlib.Core.Path.{◌≡◌, refl, ap}
use mathlib.Core.Logic.{◌⊎◌, inl, inr}
use mathlib.Core.Option.{Option, none, some}

pub data Result (E A : Type 0) : Type 0 where
  ok : A → Result E A
  err : E → Result E A
  panic : Result E A

-- The operator `?`.
abbrev pub try : {E A B : Type 0} → Result E A → (A → Result E B) → Result E B
try (ok a) f = f a
try (err e) f = err e
try panic f = panic

-- `result.map_err(f)`
abbrev pub map_err : {E F A : Type 0} → (E → F) → Result E A → Result F A
map_err f (ok a) = ok a
map_err f (err e) = err (f e)
map_err f panic = panic

-- `option.ok_or(e)`
abbrev pub ok_or : {E A : Type 0} → E → Option A → Result E A
ok_or e none = err e
ok_or e (some a) = ok a

-- A call that panics instead of returning an error.
abbrev pub or_panic : {E A : Type 0} → Option A → Result E A
or_panic none = panic
or_panic (some a) = ok a

abbrev pub from_ok : {E A : Type 0} → A → Result E A → A
from_ok a (ok b) = b
from_ok a (err e) = a
from_ok a panic = a

pub ok-injective : {E A : Type 0} (a b : A) → ◌≡◌ {A = Result E A} (ok a) (ok b) → a ≡ b
ok-injective a b e = ap (from_ok a) e

pub Result-cases :
    {E A : Type 0} (r : Result E A)
    → ((a : A) × (r ≡ ok a)) ⊎ (((e : E) × (r ≡ err e)) ⊎ (r ≡ panic))
Result-cases (ok a) = inl (a, refl)
Result-cases (err e) = inr (inl (e, refl))
Result-cases panic = inr (inr refl)

abbrev from_some : {A : Type 0} → A → Option A → A
from_some a none = a
from_some a (some b) = b

pub some-injective : {A : Type 0} (a b : A) → ◌≡◌ {A = Option A} (some a) (some b) → a ≡ b
some-injective a b e = ap (from_some a) e

-- `result.ok()`, where a panic is no value either.
abbrev pub to_option : {E A : Type 0} → Result E A → Option A
to_option (ok a) = some a
to_option (err e) = none
to_option panic = none

pub to_option_inv : {E A : Type 0} (r : Result E A) (a : A) → to_option r ≡ some a → r ≡ ok a
to_option_inv (ok b) a e = ap ok (some-injective b a e)
to_option_inv (err e') a e = absurd cc
to_option_inv panic a e = absurd cc

-- A chain that ends in a value had one at each step.
pub try_inv :
    {E A B : Type 0} (r : Result E A) (f : A → Result E B) (b : B)
    → try r f ≡ ok b
    → (a : A) × (r ≡ ok a) × (f a ≡ ok b)
try_inv (ok a) f b e = (a, refl, e)
try_inv (err x) f b e = absurd cc
try_inv panic f b e = absurd cc

pub map_err_inv :
    {E F A : Type 0} (f : E → F) (r : Result E A) (a : A) → map_err f r ≡ ok a → r ≡ ok a
map_err_inv f (ok b) a e = cc
map_err_inv f (err x) a e = absurd cc
map_err_inv f panic a e = absurd cc
