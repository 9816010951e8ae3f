-- ===== src/Utils/Deadline/Stamp.antt =====
-- About `parseRfc3339`, on printed moments.
use drogon_pay.Common.{
  ℕ, ◌+◌, ◌-◌, ◌*◌, ◌/◌, ◌%◌, ◌≤◌, ◌<◌, ◌≡◌, refl, Bool, true, false, some, [], ◌∷◌, ◌++◌, arith,
  ltb, leb, Bytes, codes, length, get_or, all, is_digit,
}
use drogon_pay.Common.Int.{ℤ, sub_ℕ, ◌+ℤ◌, ◌-ℤ◌, ◌*ℤ◌, int_laws, pos}
use drogon_pay.Common.Table.{holds_from, holds_below-at}
use drogon_pay.Utils.Deadline.{
  read_digits, read_fixed_digits, days_in_month, days_from_civil, Fields, has_separators,
  read_fields, moment_exists, skip_digits, skip_fraction, read_offset, read_zone,
  seconds_since_epoch, parse_rfc3339, accepted,
}

abbrev pub print2 : ℕ → Bytes → Bytes
print2 n s = (48 + n / 10) ∷ (48 + n % 10) ∷ s

abbrev pub print4 : ℕ → Bytes → Bytes
print4 n s = (48 + n / 1000) ∷ (48 + n / 100 % 10) ∷ (48 + n / 10 % 10) ∷ (48 + n % 10) ∷ s

pub data Zone : Type 0 where
  utc : Zone
  east west : ℕ → ℕ → Zone

abbrev pub print_zone : Zone → Bytes
print_zone utc = codes "Z"
print_zone (east hour minute) = b'+' ∷ print2 hour (b':' ∷ print2 minute [])
print_zone (west hour minute) = b'-' ∷ print2 hour (b':' ∷ print2 minute [])

abbrev pub offset_of : Zone → ℤ
offset_of utc = pos 0
offset_of (east hour minute) = pos (hour * 3600 + minute * 60)
offset_of (west hour minute) = sub_ℕ 0 (hour * 3600 + minute * 60)

abbrev pub IsZone : Zone → Type 0
IsZone utc = Unit {0}
IsZone (east hour minute) = (hour < 24) × (minute < 60)
IsZone (west hour minute) = (hour < 24) × (minute < 60)

-- The digits of a fraction of a second, or nothing.
abbrev pub print_fraction : Bytes → Bytes → Bytes
print_fraction [] s = s
print_fraction (d ∷ ds) s = b'.' ∷ d ∷ ds ++ s

abbrev pub print_stamp : Fields → Bytes → Zone → Bytes
print_stamp f fraction zone = print4 f.year (
    b'-'
    ∷ print2 f.month (
        b'-'
        ∷ print2 f.day (
            b'T'
            ∷ print2 f.hour (
                b':'
                ∷ print2 f.minute
                    (b':' ∷ print2 f.second (print_fraction fraction (print_zone zone)))))))

read_digits-print2 : (n : ℕ) (s : Bytes) → n < 100 → read_digits 0 2 (print2 n s) ≡ some n
unfolding read_digits
read_digits-print2 n s h = ground arith

read_digits-print4 : (n : ℕ) (s : Bytes) → n < 10000 → read_digits 0 4 (print4 n s) ≡ some n
unfolding read_digits
read_digits-print4 n s h = ground arith

read_offset-print2 :
    (hour minute : ℕ)
    → hour < 24
    → minute < 60
    → read_offset (print2 hour (b':' ∷ print2 minute [])) ≡ accepted (hour * 3600 + minute * 60)
unfolding read_offset
read_offset-print2 hour minute h m =
    rw
      (
        read_digits-print2 hour (b':' ∷ print2 minute []) (omega (arith, h)),
        read_digits-print2 minute [] (omega (arith, m)),
      )
      (ground (arith, h, m))

read_zone-print_zone :
    (zone : Zone) → IsZone zone → read_zone (print_zone zone) ≡ accepted (offset_of zone)
unfolding read_zone
read_zone-print_zone utc h = refl
read_zone-print_zone (east hour minute) h = rw (read_offset-print2 hour minute h.0 h.1) refl
read_zone-print_zone (west hour minute) h = rw (read_offset-print2 hour minute h.0 h.1) refl

skip_digits-zone :
    (ds : Bytes) (zone : Zone)
    → all is_digit ds ≡ true
    → skip_digits (ds ++ print_zone zone) ≡ print_zone zone
unfolding skip_digits
skip_digits-zone [] utc h = refl
skip_digits-zone [] (east hour minute) h = refl
skip_digits-zone [] (west hour minute) h = refl
skip_digits-zone (d ∷ ds) zone h = ground (arith, h, skip_digits-zone ds zone)

skip_fraction-print_fraction :
    (fraction : Bytes) (zone : Zone)
    → all is_digit fraction ≡ true
    → skip_fraction (print_fraction fraction (print_zone zone)) ≡ accepted (print_zone zone)
unfolding skip_fraction
skip_fraction-print_fraction [] utc h = refl
skip_fraction-print_fraction [] (east hour minute) h = refl
skip_fraction-print_fraction [] (west hour minute) h = refl
skip_fraction-print_fraction (d ∷ ds) zone h = ground (arith, h, skip_digits-zone ds zone)

print_fraction_not_empty :
    (fraction : Bytes) (zone : Zone) → 1 ≤ length (print_fraction fraction (print_zone zone))
print_fraction_not_empty [] utc = ground arith
print_fraction_not_empty [] (east hour minute) = ground arith
print_fraction_not_empty [] (west hour minute) = ground arith
print_fraction_not_empty (d ∷ ds) zone = ground arith

abbrev is_short : ℕ → Bool
is_short month =
    leb (get_or (31 ∷ 28 ∷ 31 ∷ 30 ∷ 31 ∷ 30 ∷ 31 ∷ 31 ∷ 30 ∷ 31 ∷ 30 ∷ 31 ∷ []) (month - 1) 0) 31

short_table : holds_from 0 13 is_short ≡ true
unfolding holds_from
short_table = refl

days_in_month-short : (year month : ℕ) → month ≤ 12 → days_in_month year month ≤ 31
unfolding days_in_month
days_in_month-short year month h =
    ground (arith, holds_below-at 13 month is_short (omega (arith, h)) short_table)

moment_exists-bounds :
    (f : Fields)
    → moment_exists f ≡ true
    → (f.month < 100) × (f.day < 100) × (f.hour < 100) × (f.minute < 100) × (f.second < 100)
unfolding moment_exists
moment_exists-bounds f h = (
  ground (arith, h),
  ground (arith, h, days_in_month-short f.year f.month),
  ground (arith, h),
  ground (arith, h),
  ground (arith, h),
)

read_fields-print_stamp :
    (f : Fields) (fraction : Bytes) (zone : Zone)
    → f.year < 10000
    → moment_exists f ≡ true
    → read_fields (print_stamp f fraction zone) ≡ accepted f
unfolding read_fields has_separators read_fixed_digits
read_fields-print_stamp f fraction zone small exists =
    rw
      (
        long 20 (omega arith),
        long 4 (omega arith),
        read_digits-print4 f.year _ small,
        long 7 (omega arith),
        read_digits-print2 f.month _ bounds.0,
        long 10 (omega arith),
        read_digits-print2 f.day _ bounds.1,
        long 13 (omega arith),
        read_digits-print2 f.hour _ bounds.2,
        long 16 (omega arith),
        read_digits-print2 f.minute _ bounds.3,
        long 19 (omega arith),
        read_digits-print2 f.second _ bounds.4,
      )
      refl
  where
    long : (n : ℕ) → n ≤ 20 → ltb (length (print_stamp f fraction zone)) n ≡ false
    long n h = ground (arith, h, print_fraction_not_empty fraction zone)

    bounds : (f.month < 100) × (f.day < 100) × (f.hour < 100) × (f.minute < 100) × (f.second < 100)
    bounds = moment_exists-bounds f exists

-- The seconds of a local moment since 1970-01-01T00:00:00 of that place: the days that
-- `daysFromCivil` counts, and the time of the day.
abbrev pub local_seconds : Fields → ℤ
local_seconds f =
    (days_from_civil f.year f.month f.day *ℤ pos 86400)
    +ℤ pos (f.hour * 3600 + f.minute * 60 + f.second)

sub_add : (a b : ℤ) → (a -ℤ b) +ℤ b ≡ a
sub_add a b = grind int_laws

seconds_since_epoch-local :
    (f : Fields) (offset : ℤ) → seconds_since_epoch f offset +ℤ offset ≡ local_seconds f
unfolding seconds_since_epoch
seconds_since_epoch-local f offset = sub_add (local_seconds f) offset

-- A moment that exists, of a year below 10000, printed with any fraction of a second and any zone below
-- a day, is read as a number of seconds that, with what the zone is ahead of UTC, is the local moment:
-- the days that `daysFromCivil` counts since 1970-01-01, and the time of the day.
pub parse_rfc3339-print_stamp :
    (f : Fields) (fraction : Bytes) (zone : Zone)
    → f.year < 10000
    → moment_exists f ≡ true
    → all is_digit fraction ≡ true
    → IsZone zone
    → (s : ℤ) × (parse_rfc3339 (print_stamp f fraction zone) ≡ accepted s)
      × (s +ℤ offset_of zone ≡ local_seconds f)
unfolding parse_rfc3339
parse_rfc3339-print_stamp f fraction zone small exists digits in_range = (
  seconds_since_epoch f (offset_of zone),
  rw
      (
        read_fields-print_stamp f fraction zone small exists,
        exists,
        skip_fraction-print_fraction fraction zone digits,
        read_zone-print_zone zone in_range,
      )
      refl,
  seconds_since_epoch-local f (offset_of zone),
)
