-- ===== src/Timelocks/Texts.antt =====
-- consensus/src/timelocks.rs: the texts of LockTimestamp and LockHeight, and their parsing.
use bp_core.Base.{
  ℕ, ◌≤◌, ◌<◌, ◌≡◌, ◌↔◌, ◌^◌, ◌∙◌, refl, ap, arith, ◌&&◌, ◌||◌, if◌then◌else◌, [], ◌∷◌, ◌++◌, drop,
  eq_bytes,
}
use bp_core.Base.Result.{Result, ok, err, try, map_err}
use bp_core.Text.{
  Text, ParseIntError, parse_u32, to_string, to_lowercase, starts_with, ends_with, trim_end_matches,
}
use bp_core.Text.Numbers.{to_string-AreDigits, parse_u32-to_string}
use bp_core.Text.Splits.{lowercase_digits, ends_with-append, trim_digits}
use bp_core.Timelocks.{locktime_threshold, Checked, invalid_timelock}
use bp_core.Timelocks.LockTime.{is_time_based, is_height_based}
use bp_core.Timelocks.LockHeight
use bp_core.Timelocks.LockHeight.{LockHeight}
use bp_core.Timelocks.LockTimestamp
use bp_core.Timelocks.LockTimestamp.{LockTimestamp}

pub data TimelockParseError : Type 0 where
  invalid_number : ParseIntError → TimelockParseError
  invalid_height invalid_timestamp : ℕ → TimelockParseError
  invalid_descriptor : Text → TimelockParseError
  no_rand : TimelockParseError

abbrev pub zero_text : Text
zero_text = b'0' ∷ []

abbrev pub none_text : Text
none_text = b'n' ∷ b'o' ∷ b'n' ∷ b'e' ∷ []

abbrev pub time_text : Text
time_text = b't' ∷ b'i' ∷ b'm' ∷ b'e' ∷ b'(' ∷ []

abbrev pub height_text : Text
height_text = b'h' ∷ b'e' ∷ b'i' ∷ b'g' ∷ b'h' ∷ b't' ∷ b'(' ∷ []

-- `try_from(no).map_err(|_| error(no))`
checked : {A : Type 0} → (ℕ → TimelockParseError) → Checked A → Result TimelockParseError A
checked error (Checked.ok a) = ok a
checked error (invalid_timelock n) = err (error n)

-- `Display for LockTimestamp`
unfoldable pub timestamp_display : LockTimestamp → Text
timestamp_display t = time_text ++ (to_string t ++ b')' ∷ [])

-- `Display for LockHeight`
unfoldable pub height_display : LockHeight → Text
height_display t = height_text ++ (to_string t ++ b')' ∷ [])

-- `LockTimestamp::from_str`, past `to_lowercase`.
unfoldable pub timestamp_from_lower : Text → Result TimelockParseError LockTimestamp
unfolding checked
timestamp_from_lower s =
    if eq_bytes s zero_text || eq_bytes s none_text
    then ok LockTimestamp.anytime
    else if starts_with s time_text && ends_with s b')'
    then try (map_err invalid_number (parse_u32 (trim_end_matches (drop 5 s) b')')))
        (λ no. checked invalid_timestamp (LockTimestamp.try_from_consensus_u32 no))
    else err (invalid_descriptor s)

unfoldable pub timestamp_from_str : Text → Result TimelockParseError LockTimestamp
unfolding timestamp_from_lower
timestamp_from_str s = timestamp_from_lower (to_lowercase s)

-- `LockHeight::from_str`, past `to_lowercase`.
unfoldable pub height_from_lower : Text → Result TimelockParseError LockHeight
unfolding checked
height_from_lower s =
    if eq_bytes s zero_text || eq_bytes s none_text
    then ok LockHeight.anytime
    else if starts_with s height_text && ends_with s b')'
    then try (map_err invalid_number (parse_u32 (trim_end_matches (drop 7 s) b')')))
        (λ no. checked invalid_height (LockHeight.try_from_consensus_u32 no))
    else err (invalid_descriptor s)

unfoldable pub height_from_str : Text → Result TimelockParseError LockHeight
unfolding height_from_lower
height_from_str s = height_from_lower (to_lowercase s)

closed : (n : ℕ) → to_lowercase (to_string n ++ b')' ∷ []) ≡ to_string n ++ b')' ∷ []
closed n =
    lowercase_digits (to_string n) (b')' ∷ []) (to_string-AreDigits n) ∙ unfold to_lowercase in refl

timestamp_read :
    (n : ℕ)
    → n < 2 ^ 32
    → timestamp_from_str (timestamp_display n)
      ≡ checked invalid_timestamp (LockTimestamp.try_from_consensus_u32 n)
unfolding timestamp_from_str timestamp_display timestamp_from_lower
timestamp_read n h =
    let lower : to_lowercase (time_text ++ (to_string n ++ b')' ∷ []))
        ≡ time_text ++ (to_string n ++ b')' ∷ []) =
      unfold to_lowercase in ap (λ t. time_text ++ t) (closed n) in
    rw
      (
        lower,
        ends_with-append (time_text ++ to_string n) b')',
        trim_digits (to_string n) (to_string-AreDigits n),
        parse_u32-to_string n h,
      )
      (unfold eq_bytes starts_with in refl)

height_read :
    (n : ℕ)
    → n < 2 ^ 32
    → height_from_str (height_display n)
      ≡ checked invalid_height (LockHeight.try_from_consensus_u32 n)
unfolding height_from_str height_display height_from_lower
height_read n h =
    let lower : to_lowercase (height_text ++ (to_string n ++ b')' ∷ []))
        ≡ height_text ++ (to_string n ++ b')' ∷ []) =
      unfold to_lowercase in ap (λ t. height_text ++ t) (closed n) in
    rw
      (
        lower,
        ends_with-append (height_text ++ to_string n) b')',
        trim_digits (to_string n) (to_string-AreDigits n),
        parse_u32-to_string n h,
      )
      (unfold eq_bytes starts_with in refl)

-- The text of a UNIX time from the threshold up reads back as it, and the text of any smaller
-- number, that of `anytime` among them, is refused with the number.
pub timestamp_texts :
    (n : ℕ)
    → n < 2 ^ 32
    → ((timestamp_from_str (timestamp_display n) ≡ ok n) ↔ (locktime_threshold ≤ n))
      × ((timestamp_from_str (timestamp_display n) ≡ err (invalid_timestamp n))
          ↔ (n < locktime_threshold))
      × (timestamp_from_str (timestamp_display LockTimestamp.anytime) ≡ err (invalid_timestamp 0))
unfolding checked LockTimestamp.try_from_consensus_u32 is_time_based LockTimestamp.anytime
timestamp_texts n h = (
  rw (timestamp_read n h) (ground arith),
  rw (timestamp_read n h) (ground arith),
  timestamp_read 0 (omega arith) ∙ refl,
)

-- The text of a height below the threshold reads back as it, that of `anytime` among them, and the
-- text of any other number is refused with the number.
pub height_texts :
    (n : ℕ)
    → n < 2 ^ 32
    → ((height_from_str (height_display n) ≡ ok n) ↔ (n < locktime_threshold))
      × ((height_from_str (height_display n) ≡ err (invalid_height n)) ↔ (locktime_threshold ≤ n))
      × (height_from_str (height_display LockHeight.anytime) ≡ ok LockHeight.anytime)
unfolding checked LockHeight.try_from_consensus_u32 is_height_based LockHeight.anytime
height_texts n h = (
  rw (height_read n h) (ground arith),
  rw (height_read n h) (ground arith),
  height_read 0 (omega arith) ∙ refl,
)
