-- ===== src/Base/Lists.antt =====
-- Lists measured and indexed by native numbers, and byte strings.
use Prim.Native.Nat.{ℕ, zero, suc, ◌+◌, ◌<◌}
use mathlib.Core.Path.{◌≡◌, refl, ap}
use mathlib.Core.List.{List, [], ◌∷◌, ◌++◌, map}
use mathlib.Core.Option.{Option, none, some}
use mathlib.Core.Bool.{Bool, true, false, ◌&&◌}
use bp_core.Base.Tests.{◌==◌}
use native.Mathlib.Omega.{arith}

module _ {ℓ} {A : Type ℓ} where
  abbrev pub length : List A → ℕ
  length [] = 0
  length (x ∷ xs) = suc (length xs)

  abbrev pub get_elem? : List A → ℕ → Option A
  get_elem? [] i = none
  get_elem? (x ∷ xs) zero = some x
  get_elem? (x ∷ xs) (suc i) = get_elem? xs i

  abbrev pub take : ℕ → List A → List A
  take zero xs = []
  take (suc n) [] = []
  take (suc n) (x ∷ xs) = x ∷ take n xs

  abbrev pub drop : ℕ → List A → List A
  drop zero xs = xs
  drop (suc n) [] = []
  drop (suc n) (x ∷ xs) = drop n xs

  abbrev pub replicate : ℕ → A → List A
  replicate zero a = []
  replicate (suc n) a = a ∷ replicate n a

  pub length-append : (xs ys : List A) → length (xs ++ ys) ≡ length xs + length ys
  length-append [] ys = omega arith
  length-append (x ∷ xs) ys = omega (arith, length-append xs ys)

  -- Taking, dropping and indexing at the seam of two lists.
  pub take-append : (xs ys : List A) (n : ℕ) → length xs ≡ n → take n (xs ++ ys) ≡ xs
  take-append [] ys zero e = refl
  take-append [] ys (suc n) e = absurd (omega arith)
  take-append (x ∷ xs) ys zero e = absurd (omega arith)
  take-append (x ∷ xs) ys (suc n) e = ap (λ zs. x ∷ zs) (take-append xs ys n (omega arith))

  pub drop-append : (xs ys : List A) (n : ℕ) → length xs ≡ n → drop n (xs ++ ys) ≡ ys
  drop-append [] ys zero e = refl
  drop-append [] ys (suc n) e = absurd (omega arith)
  drop-append (x ∷ xs) ys zero e = absurd (omega arith)
  drop-append (x ∷ xs) ys (suc n) e = drop-append xs ys n (omega arith)

  pub get_after :
      (xs ys : List A) (m i : ℕ) → m ≡ length xs + i → get_elem? (xs ++ ys) m ≡ get_elem? ys i
  get_after [] ys m i e = let same : m ≡ i = omega arith in ap (get_elem? ys) same
  get_after (x ∷ xs) ys zero i e = absurd (omega arith)
  get_after (x ∷ xs) ys (suc m) i e = get_after xs ys m i (omega arith)

  -- A predicate of every element.
  abbrev pub All {κ} : (A → Type κ) → List A → Type κ
  All P [] = Unit {κ}
  All P (x ∷ xs) = P x × All P xs

-- A byte string is a list of numbers below 256.
abbrev pub Bytes : Type 0
Bytes = List ℕ

abbrev pub IsByte : ℕ → Type 0
IsByte b = b < 256

abbrev pub AreBytes : Bytes → Type 0
AreBytes bs = All IsByte bs

pub length-map {ℓ κ} :
    {A : Type ℓ} {B : Type κ} (f : A → B) (xs : List A) → length (map f xs) ≡ length xs
length-map f [] = refl
length-map f (x ∷ xs) = ap suc (length-map f xs)

pub AreBytes-append : (xs ys : Bytes) → AreBytes xs → AreBytes ys → AreBytes (xs ++ ys)
AreBytes-append [] ys p q = q
AreBytes-append (x ∷ xs) ys (p, ps) q = (p, AreBytes-append xs ys ps q)

pub AreBytes-left : (xs ys : Bytes) → AreBytes (xs ++ ys) → AreBytes xs
AreBytes-left [] ys p = tt
AreBytes-left (x ∷ xs) ys (p, ps) = (p, AreBytes-left xs ys ps)

pub AreBytes-right : (xs ys : Bytes) → AreBytes (xs ++ ys) → AreBytes ys
AreBytes-right [] ys p = p
AreBytes-right (x ∷ xs) ys (p, ps) = AreBytes-right xs ys ps

-- `==` on byte strings.
unfoldable pub eq_bytes : Bytes → Bytes → Bool
eq_bytes [] [] = true
eq_bytes [] (c ∷ cs) = false
eq_bytes (b ∷ bs) [] = false
eq_bytes (b ∷ bs) (c ∷ cs) = b == c && eq_bytes bs cs

pub eq_bytes_refl : (bs : Bytes) → eq_bytes bs bs ≡ true
unfolding eq_bytes
eq_bytes_refl [] = refl
eq_bytes_refl (b ∷ bs) = ground (arith, eq_bytes_refl bs)

pub eq_bytes→eq : (bs cs : Bytes) → eq_bytes bs cs ≡ true → bs ≡ cs
unfolding eq_bytes
eq_bytes→eq [] [] h = refl
eq_bytes→eq [] (c ∷ cs) h = cc
eq_bytes→eq (b ∷ bs) [] h = cc
eq_bytes→eq (b ∷ bs) (c ∷ cs) h =
    let same : b ≡ c = ground (arith, h) in let rest = eq_bytes→eq bs cs (ground (arith, h)) in cc
