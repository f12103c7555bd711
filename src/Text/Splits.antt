-- ===== src/Text/Splits.antt =====
-- What cutting and trimming do to a text made of digits and marks.
use bp_core.Base.{
  ℕ, ◌+◌, ◌≡◌, refl, arith, Bool, true, false, ◌==◌, ◌&&◌, leb, if◌then◌else◌, [], ◌∷◌, ◌++◌, All,
  none, some,
}
use bp_core.Text.{
  Text, to_lowercase, ends_with, trim_cons, trim_end_matches, trim_0x, split_cons, split, once_cons,
  split_once,
}
use bp_core.Text.Numbers.{IsDigit}

-- A digit is no capital letter.
pub lowercase_digits : (s t : Text) → All IsDigit s → to_lowercase (s ++ t) ≡ s ++ to_lowercase t
unfolding to_lowercase
lowercase_digits [] t h = refl
lowercase_digits (c ∷ cs) t (d, ds) =
    let same : (if leb b'A' c && leb c b'Z' then c + 32 else c) ≡ c = ground (arith, d) in
    rw (same, lowercase_digits cs t ds) refl

pub ends_with-append : (s : Text) (p : ℕ) → ends_with (s ++ p ∷ []) p ≡ true
unfolding ends_with
ends_with-append [] p = ground arith
ends_with-append (c ∷ []) p = ground arith
ends_with-append (c ∷ d ∷ cs) p = ends_with-append (d ∷ cs) p

trim_digit : (c : ℕ) (s : Text) → IsDigit c → trim_cons b')' c s ≡ c ∷ s
unfolding trim_cons
trim_digit c [] d = ground (arith, d)
trim_digit c (e ∷ es) d = refl

-- Of digits and one closing parenthesis, the digits are left.
pub trim_digits : (s : Text) → All IsDigit s → trim_end_matches (s ++ b')' ∷ []) b')' ≡ s
unfolding trim_end_matches
trim_digits [] h = unfold trim_cons in refl
trim_digits (c ∷ cs) (d, ds) = rw (trim_digits cs ds) (trim_digit c cs d)

-- A text without separators, in front of a separator, is the first part.
pub split_at :
    (sep : ℕ → Bool) (s t : Text) (m : ℕ)
    → All (λ c. sep c ≡ false) s
    → sep m ≡ true
    → split sep (s ++ m ∷ t) ≡ s ∷ split sep t
unfolding split
split_at sep [] t m h e = rw e refl
split_at sep (c ∷ cs) t m (h, hs) e = rw (h, split_at sep cs t m hs e) (unfold split_cons in refl)

pub split_none : (sep : ℕ → Bool) (s : Text) → All (λ c. sep c ≡ false) s → split sep s ≡ s ∷ []
unfolding split
split_none sep [] h = refl
split_none sep (c ∷ cs) (h, hs) = rw (h, split_none sep cs hs) (unfold split_cons in refl)

pub split_once_at :
    (m : ℕ) (s t : Text) → All (λ c. (c == m) ≡ false) s → split_once m (s ++ m ∷ t) ≡ some (s, t)
unfolding split_once
split_once_at m [] t h = ground arith
split_once_at m (c ∷ cs) t (h, hs) = rw (h, split_once_at m cs t hs) (unfold once_cons in refl)

pub split_once_none : (m : ℕ) (s : Text) → All (λ c. (c == m) ≡ false) s → split_once m s ≡ none
unfolding split_once
split_once_none m [] h = refl
split_once_none m (c ∷ cs) (h, hs) = rw (h, split_once_none m cs hs) (unfold once_cons in refl)

-- A text of digits does not begin with `0x`.
pub trim_0x_digits : (s : Text) → All IsDigit s → trim_0x s ≡ s
unfolding trim_0x
trim_0x_digits [] h = refl
trim_0x_digits (c ∷ []) h = refl
trim_0x_digits (c ∷ d ∷ cs) (h, (k, ks)) = ground (arith, k)

-- A property of digits holds of every character of a text of digits.
pub All-IsDigit :
    (P : ℕ → Type 0) (s : Text) → ((c : ℕ) → IsDigit c → P c) → All IsDigit s → All P s
All-IsDigit P [] f h = tt
All-IsDigit P (c ∷ cs) f (d, ds) = (f c d, All-IsDigit P cs f ds)
