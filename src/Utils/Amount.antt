-- ===== src/Utils/Amount.antt =====
-- Amounts of libs/drogon-pay/src/utils/PayUtils.cc: `parseAmountToFen` and `amountEqualsFen`. An
-- amount is its bytes; an `int64_t` that the caller may have negative is in ℤ.
pub mod Parse
use drogon_pay.Common.{
  ℕ, suc, ◌+◌, ◌-◌, ◌*◌, ◌/◌, ◌^◌, Bool, true, false, not, Option, none, some, List, [], ◌∷◌, ◌++◌,
  Bytes, codes, ltb, ◌==◌, if◌then◌else◌, length, take, drop, all, find, is_empty, is_digit,
}
use drogon_pay.Common.Int.{ℤ, pos, eq_ℤ}

abbrev pub int64_max : ℕ
int64_max = 2 ^ 63 - 1

-- The number that digits spell, read from the left behind `n`.
abbrev pub decimal_from : ℕ → Bytes → ℕ
decimal_from n [] = n
decimal_from n (c ∷ s) = decimal_from (n * 10 + (c - b'0')) s

abbrev pub decimal : Bytes → ℕ
decimal = decimal_from 0

-- `std::stoll` on a text of digits: it throws `std::out_of_range` above `int64_max`.
unfoldable pub stoll : Bytes → Option ℕ
stoll s = if ltb int64_max (decimal s) then none else some (decimal s)

-- The yuan and the cent part, before the defaults.
unfoldable pub split_amount : Bytes → Bytes × Bytes
split_amount amount = elim (find b'.' amount) [
  | none ↦ (amount, codes "00")
  | some dot_pos ↦ (take dot_pos amount, drop (suc dot_pos) amount)
]

unfoldable pub default_yuan : Bytes → Bytes
default_yuan yuan_part = if is_empty yuan_part then codes "0" else yuan_part

-- `push_back('0')` on one digit, "00" for none.
unfoldable pub pad_cents : Bytes → Bytes
pad_cents [] = codes "00"
pad_cents (c ∷ []) = c ∷ b'0' ∷ []
pad_cents (c ∷ d ∷ s) = c ∷ d ∷ s

-- The `try` block: either conversion may throw, and a yuan that cannot be scaled is refused.
unfoldable pub scale : Bytes → Bytes → Option ℕ
unfolding stoll
scale yuan_part cent_part = elim (stoll yuan_part) [
  | none ↦ none
  | some yuan ↦ elim (stoll cent_part) [
    | none ↦ none
    | some cents ↦ if ltb ((int64_max - 99) / 100) yuan then none else some (yuan * 100 + cents)
  ]
]

unfoldable pub check_parts : Bytes → Bytes → Option ℕ
unfolding scale pad_cents
check_parts yuan_part cent_part =
    if not (all is_digit yuan_part)
    then none
    else if not (all is_digit cent_part)
    then none
    else if ltb 2 (length cent_part)
    then none
    else scale yuan_part (pad_cents cent_part)

-- `none` is the answer `false`, on which the code leaves its out parameter unset.
unfoldable pub parse_amount_to_fen : Bytes → Option ℕ
parse_amount_to_fen amount =
    if is_empty amount
    then none
    else let (yuan_part, cent_part) = split_amount amount in
      check_parts (default_yuan yuan_part) cent_part

unfoldable pub amount_equals_fen : Bytes → ℤ → Bool
amount_equals_fen amount expected_fen = elim (parse_amount_to_fen amount) [
  | none ↦ false
  | some fen ↦ eq_ℤ (pos fen) expected_fen
]
