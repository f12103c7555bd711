-- ===== src/Facade.antt =====
-- src/bp.rs: values of one of two chains.
use bp_core.Base.{◌≡◌, refl, Bool, true, false, Option, none, some}
use bp_core.Base.Result.{Result, ok, err, panic, try, to_option}

pub data Bp (T : Type 0) : Type 0 where
  bitcoin liquid : T → Bp T

unfoldable pub is_bitcoin : {T : Type 0} → Bp T → Bool
is_bitcoin (bitcoin t) = true
is_bitcoin (liquid t) = false

unfoldable pub is_liquid : {T : Type 0} → Bp T → Bool
is_liquid (bitcoin t) = false
is_liquid (liquid t) = true

-- `as_bitcoin` and `into_bitcoin`.
unfoldable pub into_bitcoin : {T : Type 0} → Bp T → Option T
into_bitcoin (bitcoin t) = some t
into_bitcoin (liquid t) = none

-- `as_liquid` and `into_liquid`.
unfoldable pub into_liquid : {T : Type 0} → Bp T → Option T
into_liquid (bitcoin t) = none
into_liquid (liquid t) = some t

unfoldable pub map_bp : {T U : Type 0} → (T → U) → Bp T → Bp U
map_bp f (bitcoin t) = bitcoin (f t)
map_bp f (liquid t) = liquid (f t)

unfoldable pub try_map : {T U E : Type 0} → (T → Result E U) → Bp T → Result E (Bp U)
try_map f (bitcoin t) = try (f t) (λ u. ok (bitcoin u))
try_map f (liquid t) = try (f t) (λ u. ok (liquid u))

-- `option.map(f)`
unfoldable pub map_option : {T U : Type 0} → (T → U) → Option T → Option U
map_option f none = none
map_option f (some t) = some (f t)

unfoldable pub maybe_map : {T U : Type 0} → (T → Option U) → Bp T → Option (Bp U)
unfolding map_option
maybe_map f (bitcoin t) = map_option bitcoin (f t)
maybe_map f (liquid t) = map_option liquid (f t)

optional :
    {T U E : Type 0} (c : U → T) (r : Result E U)
    → to_option (try r (λ u. ok (c u))) ≡ map_option c (to_option r)
unfolding map_option
optional c (ok u) = refl
optional c (err e) = refl
optional c panic = refl

-- Mapping with a call that may fail, and forgetting the error, is mapping with the call that forgets
-- its error.
pub maybe_map-try_map :
    {T U E : Type 0} (f : T → Result E U) (b : Bp T)
    → to_option (try_map f b) ≡ maybe_map (λ t. to_option (f t)) b
unfolding try_map maybe_map
maybe_map-try_map f (bitcoin t) = optional bitcoin (f t)
maybe_map-try_map f (liquid t) = optional liquid (f t)
