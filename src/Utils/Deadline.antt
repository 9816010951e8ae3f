-- ===== src/Utils/Deadline.antt =====
-- `parseRfc3339` and `validateTimeExpire` of utils/PayUtils.cc.
pub mod Calendar
pub mod Stamp
use drogon_pay.Common.{
  ℕ, zero, suc, ◌+◌, ◌-◌, ◌*◌, ◌/◌, ◌%◌, String, Bool, not, ◌&&◌, ◌||◌, Option, none, some, [], ◌∷◌,
  ltb, leb, ◌==◌, if◌then◌else◌, Bytes, codes, length, drop, get_or, bytes_eq, is_empty, is_digit,
}
use drogon_pay.Common.Int.{ℤ, pos_part, sub_ℕ, ◌+ℤ◌, ◌-ℤ◌, ◌*ℤ◌, ltb_ℤ, leb_ℤ, pos, negsuc}

-- The loop of `readFixedDigits`, behind its bounds check.
unfoldable pub read_digits : ℕ → ℕ → Bytes → Option ℕ
read_digits accumulated zero s = some accumulated
read_digits accumulated (suc count) [] = none
read_digits accumulated (suc count) (c ∷ s) =
    if is_digit c then read_digits (accumulated * 10 + (c - b'0')) count s else none

unfoldable pub read_fixed_digits : Bytes → ℕ → ℕ → Option ℕ
read_fixed_digits s at count =
    if ltb (length s) (at + count) then none else read_digits 0 count (drop at s)

abbrev pub is_leap_year : ℕ → Bool
is_leap_year year = (year % 4 == 0 && not (year % 100 == 0)) || year % 400 == 0

-- `kDaysInMonth[month - 1]`, with the leap day.
unfoldable pub days_in_month : ℕ → ℕ → ℕ
days_in_month year month =
    if month == 2 && is_leap_year year
    then 29
    else get_or (31 ∷ 28 ∷ 31 ∷ 30 ∷ 31 ∷ 30 ∷ 31 ∷ 31 ∷ 30 ∷ 31 ∷ 30 ∷ 31 ∷ []) (month - 1) 0

-- `(year >= 0 ? year : year - 399) / 400`, where the division of C++ cuts toward zero.
unfoldable pub era_of : ℤ → ℤ
era_of (pos y) = pos (y / 400)
era_of (negsuc n) = sub_ℕ 0 ((n + 400) / 400)

-- The days of a year that begins in March, for its number and the day within it.
unfoldable pub days_of_year : ℤ → ℕ → ℤ
days_of_year y day_of_year =
    let era : ℤ = era_of y in
    let year_of_era : ℕ = pos_part (y -ℤ (era *ℤ pos 400)) in
    let day_of_era : ℕ = year_of_era * 365 + year_of_era / 4 - year_of_era / 100 + day_of_year in
    ((era *ℤ pos 146097) +ℤ pos day_of_era) -ℤ pos 719468

unfoldable pub days_from_civil : ℕ → ℕ → ℕ → ℤ
days_from_civil year month day =
    let y : ℤ = if leb month 2 then sub_ℕ year 1 else pos year in
    let shifted_month : ℕ = if ltb 2 month then month - 3 else month + 9 in
    days_of_year y ((153 * shifted_month + 2) / 5 + day - 1)

-- What a reader answers: a value, or `errorMessage`.
pub data Parsed (A : Type 0) : Type 0 where
  accepted : A → Parsed A
  refused : String → Parsed A

infixl 5 ◌>>=◌
abbrev pub ◌>>=◌ : {A B : Type 0} → Parsed A → (A → Parsed B) → Parsed B
accepted a >>= f = f a
refused message >>= f = refused message

-- `kFormatError`
abbrev pub format_error : {A : Type 0} → Parsed A
format_error = refused "expected RFC 3339 (yyyy-MM-DDTHH:mm:ss with a Z or ±HH:MM timezone)"

abbrev pub or_format_error : {A : Type 0} → Option A → Parsed A
or_format_error none = format_error
or_format_error (some a) = accepted a

pub record Fields : Type 0 where
  pub year : ℕ
  pub month : ℕ
  pub day : ℕ
  pub hour : ℕ
  pub minute : ℕ
  pub second : ℕ

-- The separators of the first nineteen bytes.
unfoldable pub has_separators : Bytes → Bool
has_separators value =
    get_or value 4 0 == b'-'
    && (get_or value 7 0 == b'-'
        && (get_or value 10 0 == b'T' && (get_or value 13 0 == b':' && get_or value 16 0 == b':')))

unfoldable pub read_fields : Bytes → Parsed Fields
read_fields value = if ltb (length value) 20 || not (has_separators value) then format_error else do
  year ← or_format_error (read_fixed_digits value 0 4)
  month ← or_format_error (read_fixed_digits value 5 2)
  day ← or_format_error (read_fixed_digits value 8 2)
  hour ← or_format_error (read_fixed_digits value 11 2)
  minute ← or_format_error (read_fixed_digits value 14 2)
  second ← or_format_error (read_fixed_digits value 17 2)
  accepted (record {
    year = year;
    month = month;
    day = day;
    hour = hour;
    minute = minute;
    second = second;
  })

unfoldable pub moment_exists : Fields → Bool
moment_exists f = not (
    ltb f.month 1
    || (ltb 12 f.month
        || (ltb f.day 1
            || (ltb (days_in_month f.year f.month) f.day
                || (ltb 23 f.hour || (ltb 59 f.minute || ltb 59 f.second))))))

-- From here on the text from `at` on is passed, in place of the index.
unfoldable pub skip_digits : Bytes → Bytes
skip_digits [] = []
skip_digits (c ∷ s) = if is_digit c then skip_digits s else c ∷ s

-- The fraction of a second is dropped, but a point needs a digit.
unfoldable pub skip_fraction : Bytes → Parsed Bytes
skip_fraction [] = accepted []
skip_fraction (c ∷ []) = if c == b'.' then format_error else accepted (c ∷ [])
skip_fraction (c ∷ d ∷ s) =
    if c == b'.'
    then (if is_digit d then accepted (skip_digits s) else format_error)
    else accepted (c ∷ d ∷ s)

-- `HH:MM` behind the sign, to the end of the text: the minutes of the offset.
unfoldable pub read_offset : Bytes → Parsed ℕ
read_offset s = do
  offset_hour ← or_format_error (read_digits 0 2 s)
  offset_minute ←
      (if ltb (length s) 3 || not (get_or s 2 0 == b':')
        then format_error
        else or_format_error (read_digits 0 2 (drop 3 s)))
  (if ltb 23 offset_hour || ltb 59 offset_minute
      then refused "the timezone offset is out of range"
      else if is_empty (drop 5 s)
      then accepted (offset_hour * 3600 + offset_minute * 60)
      else format_error)

unfoldable pub read_zone : Bytes → Parsed ℤ
read_zone [] = refused "the timestamp must carry a timezone (Z or ±HH:MM)"
read_zone (c ∷ s) =
    if c == b'Z'
    then (if is_empty s then accepted (pos 0) else format_error)
    else if c == b'+'
    then read_offset s >>= (λ n. accepted (pos n))
    else if c == b'-'
    then read_offset s >>= (λ n. accepted (sub_ℕ 0 n))
    else format_error

unfoldable pub seconds_since_epoch : Fields → ℤ → ℤ
unfolding ◌+ℤ◌ ◌-ℤ◌ ◌*ℤ◌
seconds_since_epoch f offset =
    ((days_from_civil f.year f.month f.day *ℤ pos 86400)
      +ℤ pos (f.hour * 3600 + f.minute * 60 + f.second))
    -ℤ offset

unfoldable pub parse_rfc3339 : Bytes → Parsed ℤ
parse_rfc3339 value = do
  f ← read_fields value
  (if not (moment_exists f) then refused "the timestamp names a moment that does not exist" else do
    rest ← skip_fraction (drop 19 value)
    offset ← read_zone rest
    accepted (seconds_since_epoch f offset))

-- The error of `validateTimeExpire`, where there is one; a parse error has "time_expire " before it.
pub data DeadlineError : Type 0 where
  unreadable : String → DeadlineError
  in_the_past beyond_seven_days : DeadlineError

unfoldable pub validate_time_expire : Bytes → Bytes → ℤ → Option DeadlineError
unfolding ◌+ℤ◌
validate_time_expire time_expire channel now_seconds = elim (parse_rfc3339 time_expire) [
  | refused message ↦ some (unreadable message)
  | accepted expiry_seconds ↦
      if leb_ℤ expiry_seconds now_seconds
      then some in_the_past
      else if bytes_eq channel (codes "wechat")
          && ltb_ℤ (now_seconds +ℤ pos (7 * 86400)) expiry_seconds
      then some beyond_seven_days
      else none
]
