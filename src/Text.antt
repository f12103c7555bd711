-- ===== src/Text.antt =====
-- The parts of Rust's standard library that parse and print texts. A text is the list of its
-- characters' codes, and its letters are those of ASCII.
pub mod Numbers
pub mod Splits
pub mod Joins
pub mod Hex
pub mod HexDigits
use bp_core.Base.{
  ℕ, zero, suc, ◌+◌, ◌-◌, ◌*◌, ◌/◌, ◌%◌, Bool, true, false, not, ◌&&◌, ltb, leb, ◌==◌,
  if◌then◌else◌, List, [], ◌∷◌, ◌++◌, map, length, replicate, Option, none, some, Bytes,
}
use bp_core.Base.Result.{Result, ok, err}

abbrev pub Text : Type 0
Text = Bytes

-- The kinds of std::num::ParseIntError that an unsigned integer gives.
pub data ParseIntError : Type 0 where
  empty invalid_digit pos_overflow : ParseIntError

-- `char::to_digit`, with 36 for no digit.
unfoldable pub digit_value : ℕ → ℕ
digit_value c =
    if leb b'0' c && leb c b'9'
    then c - b'0'
    else if leb b'a' c && leb c b'z'
    then c - b'a' + 10
    else if leb b'A' c && leb c b'Z'
    then c - b'A' + 10
    else 36

unfoldable pub digit_char : ℕ → ℕ
digit_char d = if ltb d 10 then b'0' + d else b'a' + (d - 10)

-- The loop of `from_str_radix`: each digit is read, and then the number tested to be below `bound`.
unfoldable pub scan : ℕ → ℕ → Text → ℕ → Result ParseIntError ℕ
unfolding digit_value
scan radix bound [] n = ok n
scan radix bound (c ∷ cs) n =
    let d = digit_value c in
    let rest = scan radix bound cs (n * radix + d) in
    if not (ltb d radix)
    then err invalid_digit
    else if not (ltb (n * radix + d) bound)
    then err pos_overflow
    else rest

-- `from_str_radix` of an unsigned integer below `bound`: one plus sign may lead.
unfoldable pub from_str_radix : ℕ → ℕ → Text → Result ParseIntError ℕ
unfolding scan
from_str_radix radix bound [] = err empty
from_str_radix radix bound (c ∷ []) =
    if c == b'+' then err invalid_digit else scan radix bound (c ∷ []) 0
from_str_radix radix bound (c ∷ d ∷ cs) =
    if c == b'+' then scan radix bound (d ∷ cs) 0 else scan radix bound (c ∷ d ∷ cs) 0

-- `str::parse` of a u32.
unfoldable pub parse_u32 : Text → Result ParseIntError ℕ
parse_u32 s = from_str_radix 10 0x1_0000_0000 s

-- The digits of a number before a text; `fuel` bounds their number.
unfoldable pub digits : ℕ → ℕ → ℕ → Text → Text
unfolding digit_char
digits zero radix n out = out
digits (suc fuel) radix n out =
    let rest = digits fuel radix (n / radix) (digit_char (n % radix) ∷ out) in
    if ltb n radix then digit_char n ∷ out else rest

-- `Display` and `LowerHex` of a u32 or a u64.
unfoldable pub to_string : ℕ → Text
to_string n = digits 64 10 n []

unfoldable pub to_hex : ℕ → Text
to_hex n = digits 64 16 n []

-- `{:#010x}`: at least eight digits after the prefix.
unfoldable pub to_hex_010 : ℕ → Text
unfolding to_hex
to_hex_010 n = b'0' ∷ b'x' ∷ (replicate (8 - length (to_hex n)) b'0' ++ to_hex n)

-- `str::to_lowercase` on letters of ASCII.
unfoldable pub to_lowercase : Text → Text
to_lowercase s = map (λ c. if leb b'A' c && leb c b'Z' then c + 32 else c) s

unfoldable pub starts_with : Text → Text → Bool
starts_with s [] = true
starts_with [] (p ∷ ps) = false
starts_with (c ∷ cs) (p ∷ ps) = c == p && starts_with cs ps

unfoldable pub ends_with : Text → ℕ → Bool
ends_with [] p = false
ends_with (c ∷ []) p = c == p
ends_with (c ∷ d ∷ cs) p = ends_with (d ∷ cs) p

-- A character before a text without its trailing `p`: dropped if nothing is left behind it.
unfoldable pub trim_cons : ℕ → ℕ → Text → Text
trim_cons p c [] = if c == p then [] else c ∷ []
trim_cons p c (d ∷ ds) = c ∷ d ∷ ds

unfoldable pub trim_end_matches : Text → ℕ → Text
unfolding trim_cons
trim_end_matches [] p = []
trim_end_matches (c ∷ cs) p = trim_cons p c (trim_end_matches cs p)

-- `trim_start_matches("0x")`: every leading `0x` is dropped.
unfoldable pub trim_0x : Text → Text
trim_0x [] = []
trim_0x (c ∷ []) = c ∷ []
trim_0x (c ∷ d ∷ cs) = let rest = trim_0x cs in if c == b'0' && d == b'x' then rest else c ∷ d ∷ cs

-- The first part of a text before a separator, and the parts after it.
unfoldable pub split_cons : ℕ → List Text → List Text
split_cons c [] = (c ∷ []) ∷ []
split_cons c (part ∷ parts) = (c ∷ part) ∷ parts

-- `str::split` at every character that is a separator: there is always a part.
unfoldable pub split : (ℕ → Bool) → Text → List Text
unfolding split_cons
split sep [] = [] ∷ []
split sep (c ∷ cs) = let parts = split sep cs in if sep c then [] ∷ parts else split_cons c parts

-- `str::split_once`
unfoldable pub once_cons : ℕ → Option (Text × Text) → Option (Text × Text)
once_cons c none = none
once_cons c (some (a, b)) = some (c ∷ a, b)

unfoldable pub split_once : ℕ → Text → Option (Text × Text)
unfolding once_cons
split_once sep [] = none
split_once sep (c ∷ cs) =
    let rest = split_once sep cs in if c == sep then some ([], cs) else once_cons c rest

-- `str::contains` of a character.
unfoldable pub contains : Text → ℕ → Bool
contains [] p = false
contains (c ∷ cs) p = let rest = contains cs p in if c == p then true else rest
