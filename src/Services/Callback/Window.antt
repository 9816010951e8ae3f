-- ===== src/Services/Callback/Window.antt =====
-- `isTimestampFresh`: `std::stoll` on any text, and the distance in `int64_t`.
pub mod Fresh
use drogon_pay.Common.{
  ℕ, suc, ◌+◌, ◌-◌, ◌*◌, ◌%◌, ◌^◌, Bool, ◌&&◌, ◌||◌, Option, none, some, [], ◌∷◌, ltb, leb, ◌==◌,
  if◌then◌else◌, Bytes, codes, is_digit,
}
use drogon_pay.Common.Int.{ℤ, pos_part, neg_part, sub_ℕ, ◌-ℤ◌, ltb_ℤ, pos, negsuc}
use drogon_pay.Utils.Amount.{int64_max, decimal}

-- `std::isspace` in the C locale.
abbrev pub is_space : ℕ → Bool
is_space c = c == b' ' || (leb 9 c && leb c 13)

abbrev pub skip_spaces : Bytes → Bytes
skip_spaces [] = []
skip_spaces (c ∷ s) = if is_space c then skip_spaces s else c ∷ s

-- The digits at the front.
abbrev pub leading_digits : Bytes → Bytes
leading_digits [] = []
leading_digits (c ∷ s) = if is_digit c then c ∷ leading_digits s else []

-- The number of the digits, and its negation; `none` is an exception.
unfoldable pub read_positive : Bytes → Option ℤ
read_positive [] = none
read_positive (c ∷ s) =
    if ltb int64_max (decimal (c ∷ s)) then none else some (pos (decimal (c ∷ s)))

unfoldable pub read_negative : Bytes → Option ℤ
read_negative [] = none
read_negative (c ∷ s) =
    if ltb (suc int64_max) (decimal (c ∷ s)) then none else some (sub_ℕ 0 (decimal (c ∷ s)))

unfoldable pub read_sign : Bytes → Option ℤ
unfolding read_positive read_negative
read_sign [] = none
read_sign (c ∷ s) =
    if c == b'-'
    then read_negative (leading_digits s)
    else if c == b'+'
    then read_positive (leading_digits s)
    else read_positive (leading_digits (c ∷ s))

unfoldable pub stoll_signed : Bytes → Option ℤ
unfolding read_sign
stoll_signed s = read_sign (skip_spaces s)

-- An integer in 64 bits of two's complement.
abbrev pub wrap_int64 : ℤ → ℤ
wrap_int64 (pos n) =
    if ltb (n % 2 ^ 64) (2 ^ 63) then pos (n % 2 ^ 64) else negsuc (2 ^ 64 - 1 - n % 2 ^ 64)
wrap_int64 (negsuc n) =
    if ltb (n % 2 ^ 64) (2 ^ 63) then negsuc (n % 2 ^ 64) else pos (2 ^ 64 - 1 - n % 2 ^ 64)

-- `std::llabs`; the least integer has no opposite in 64 bits and stays.
abbrev pub llabs : ℤ → ℤ
llabs a = wrap_int64 (pos (pos_part a + neg_part a))

abbrev pub max_skew_seconds : ℕ
max_skew_seconds = 300

-- `none` is fresh; otherwise the error message.
unfoldable pub is_timestamp_fresh : ℕ → Bytes → Option Bytes
unfolding stoll_signed ◌-ℤ◌
is_timestamp_fresh now_sec timestamp = elim (stoll_signed timestamp) [
  | none ↦ some (codes "invalid timestamp")
  | some cb_time ↦
      if ltb_ℤ (pos max_skew_seconds) (llabs (wrap_int64 (pos now_sec -ℤ cb_time)))
      then some (codes "timestamp out of acceptable window")
      else none
]
