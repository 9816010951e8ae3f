-- ===== src/Utils/Deadline/Calendar.antt =====
-- About `daysFromCivil`, against a calendar that goes on day by day.
use drogon_pay.Common.{
  ℕ, zero, suc, ◌+◌, ◌-◌, ◌*◌, ◌/◌, ◌%◌, ◌≤◌, ◌<◌, ◌≡◌, refl, sym, ap, ◌∙◌, ◌≢◌, inl, inr, Bool,
  true, ◌||◌, [], ◌∷◌, arith, ltb, leb, ◌==◌, if◌then◌else◌, ==_iff, Bool-cases, get_or,
}
use drogon_pay.Common.Int.{ℤ, pos_part, sub_ℕ, ◌+ℤ◌, ◌-ℤ◌, ◌*ℤ◌, pos}
use drogon_pay.Common.Table.{holds_from, holds_below-at}
use drogon_pay.Utils.Deadline.{is_leap_year, days_in_month, era_of, days_of_year, days_from_civil}

-- The days before year `y`, counted from the first of March of the year 0, and a day of the year.
abbrev day_number : ℕ → ℕ → ℤ
day_number y day_of_year = sub_ℕ (365 * y + y / 4 - y / 100 + y / 400 + day_of_year) 719468

-- The eras of 400 years add up.
era_days :
    (y : ℕ)
    → y / 400 * 146097 + (y % 400 * 365 + y % 400 / 4 - y % 400 / 100)
      ≡ 365 * y + y / 4 - y / 100 + y / 400
era_days y = omega (arith, fours, hundreds, whole)
  where
    whole : y ≡ 400 * (y / 400) + y % 400
    whole = omega arith

    fours : y / 4 ≡ 100 * (y / 400) + y % 400 / 4
    fours = omega arith

    hundreds : y / 100 ≡ 4 * (y / 400) + y % 400 / 100
    hundreds = omega arith

year_of : (y : ℕ) → pos_part (pos y -ℤ (pos (y / 400) *ℤ pos 400)) ≡ y % 400
unfolding ◌-ℤ◌ ◌*ℤ◌
year_of y = ground arith

era_number :
    (e n d : ℕ)
    → ((pos e *ℤ pos 146097) +ℤ pos (n + d)) -ℤ pos 719468 ≡ sub_ℕ (e * 146097 + n + d) 719468
unfolding ◌+ℤ◌ ◌-ℤ◌ ◌*ℤ◌
era_number e n d = ground arith

days_of_year-day_number : (y d : ℕ) → days_of_year (pos y) d ≡ day_number y d
unfolding days_of_year era_of
days_of_year-day_number y d =
    rw (year_of y, era_number (y / 400) (y % 400 * 365 + y % 400 / 4 - y % 400 / 100) d, era_days y)
      refl

leap_step :
    (y : ℕ)
    → 365 * suc y + suc y / 4 - suc y / 100 + suc y / 400
      ≡ 365 * y + y / 4 - y / 100 + y / 400 + (if is_leap_year (suc y) then 366 else 365)
leap_step y = ground (arith, step4, step100, step400)
  where
    step4 : suc y / 4 ≡ (if suc y % 4 == 0 then suc (y / 4) else y / 4)
    step4 = ground arith

    step100 : suc y / 100 ≡ (if suc y % 100 == 0 then suc (y / 100) else y / 100)
    step100 = ground arith

    step400 : suc y / 400 ≡ (if suc y % 400 == 0 then suc (y / 400) else y / 400)
    step400 = ground arith

pub record CivilDate : Type 0 where
  pub year : ℕ
  pub month : ℕ
  pub day : ℕ

-- A date of the calendar, from the year 1 on.
abbrev pub IsDate : CivilDate → Type 0
IsDate d =
    (1 ≤ d.year)
    × (1 ≤ d.month)
    × (d.month ≤ 12)
    × (1 ≤ d.day)
    × (d.day ≤ days_in_month d.year d.month)

abbrev pub next_date : CivilDate → CivilDate
next_date d =
    if ltb d.day (days_in_month d.year d.month)
    then record d { day = suc d.day }
    else if ltb d.month 12
    then record { year = d.year; month = suc d.month; day = 1 }
    else record { year = suc d.year; month = 1; day = 1 }

abbrev pub day_count : CivilDate → ℤ
day_count d = days_from_civil d.year d.month d.day

next_number : (y a : ℕ) → day_number y (suc a) ≡ day_number y a +ℤ pos 1
unfolding ◌+ℤ◌
next_number y a = ground arith

-- The day within the year that begins in March.
abbrev day_of_year : ℕ → ℕ → ℕ
day_of_year month day = (153 * (if ltb 2 month then month - 3 else month + 9) + 2) / 5 + day - 1

abbrev march_year : ℕ → ℕ → ℕ
march_year year month = if leb month 2 then year - 1 else year

days_from_civil-day_number :
    (year month day : ℕ)
    → 1 ≤ year
    → days_from_civil year month day ≡ day_number (march_year year month) (day_of_year month day)
unfolding days_from_civil
days_from_civil-day_number year month day common = elim (Bool-cases (leb month 2)) [
  | inl early ↦ rw (early, year_before) (days_of_year-day_number (year - 1) (day_of_year month day))
  | inr late ↦ rw late (days_of_year-day_number year (day_of_year month day))
]
  where
    year_before : sub_ℕ year 1 ≡ pos (year - 1)
    year_before = ground arith

-- The months but February end where the next one begins.
abbrev month_test : ℕ → Bool
month_test month =
    leb month 0
    || (month == 2
        || day_of_year (suc month) 1
          == suc (
              day_of_year month (
                get_or (31 ∷ 28 ∷ 31 ∷ 30 ∷ 31 ∷ 30 ∷ 31 ∷ 31 ∷ 30 ∷ 31 ∷ 30 ∷ 31 ∷ []) (month - 1)
                  0)))

month_table : holds_from 0 12 month_test ≡ true
unfolding holds_from
month_table = refl

month_ends :
    (year month : ℕ)
    → 1 ≤ month
    → month < 12
    → month ≢ 2
    → day_of_year (suc month) 1 ≡ suc (day_of_year month (days_in_month year month))
unfolding days_in_month
month_ends year month first last other =
    ground (arith, holds_below-at 12 month month_test last month_table, first, other)

february_days :
    (year : ℕ)
    → suc (day_of_year 2 (days_in_month year 2)) ≡ (if is_leap_year year then 366 else 365)
unfolding days_in_month
february_days year = elim (Bool-cases (is_leap_year year)) [
  | inl leap ↦ rw leap refl
  | inr common ↦ rw common refl
]

next_difference : (a b : ℕ) → a ≡ suc b → sub_ℕ a 719468 ≡ sub_ℕ b 719468 +ℤ pos 1
unfolding ◌+ℤ◌
next_difference a b e = ground arith

february_ends :
    (y : ℕ) → day_number (suc y) 0 ≡ day_number y (day_of_year 2 (days_in_month (suc y) 2)) +ℤ pos 1
february_ends y = next_difference _ _ (omega (arith, leap_step y, february_days (suc y)))

february_year :
    (year : ℕ)
    → 1 ≤ year
    → days_from_civil year 3 1 ≡ days_from_civil year 2 (days_in_month year 2) +ℤ pos 1
february_year zero common = absurd (omega arith)
february_year (suc y) common =
    days_from_civil-day_number (suc y) 3 1 common
    ∙ (february_ends y
        ∙ ap (λ z. z +ℤ pos 1)
            (sym (
              days_from_civil-day_number (suc y) 2 (days_in_month (suc y) 2) common
              ∙ ap (λ k. day_number k (day_of_year 2 (days_in_month (suc y) 2))) before)))
  where
    before : suc y - 1 ≡ y
    before = omega arith

-- The number of the day behind a date, from the year 1 on, is the next number; and 1970-01-01, from
-- which the seconds count, has the number 0.
pub days_from_civil-next_date :
    (d : CivilDate)
    → IsDate d
    → (day_count (next_date d) ≡ day_count d +ℤ pos 1) × (days_from_civil 1970 1 1 ≡ pos 0)
days_from_civil-next_date d h = (step, epoch)
  where
    within : day_of_year d.month (suc d.day) ≡ suc (day_of_year d.month d.day)
    within = ground (arith, h)

    count : day_count d ≡ day_number (march_year d.year d.month) (day_of_year d.month d.day)
    count = days_from_civil-day_number d.year d.month d.day h.0

    follows :
        (x : ℤ) (y b : ℕ)
        → x ≡ day_number y b
        → y ≡ march_year d.year d.month
        → b ≡ suc (day_of_year d.month d.day)
        → x ≡ day_count d +ℤ pos 1
    follows x y b p e f =
        p
        ∙ (rw (e, f) refl
            ∙ (next_number (march_year d.year d.month) (day_of_year d.month d.day)
                ∙ ap (λ z. z +ℤ pos 1) (sym count)))

    in_month : days_from_civil d.year d.month (suc d.day) ≡ day_count d +ℤ pos 1
    in_month = follows _ _ _ (days_from_civil-day_number d.year d.month (suc d.day) h.0) refl within

    in_year :
        d.month < 12
        → d.day ≡ days_in_month d.year d.month
        → days_from_civil d.year (suc d.month) 1 ≡ day_count d +ℤ pos 1
    in_year before_december last = elim (Bool-cases (d.month == 2)) [
      | inr other ↦
          follows _ _ _ (days_from_civil-day_number d.year (suc d.month) 1 h.0)
            (ground (arith, other))
            (month_ends d.year d.month (ground (arith, h)) before_december (ground (arith, other))
              ∙ ap (λ n. suc (day_of_year d.month n)) (sym last))
      | inl february ↦ rw (last, (==_iff d.month 2).0 february) (february_year d.year h.0)
    ]

    new_year :
        d.month ≡ 12
        → d.day ≡ days_in_month d.year d.month
        → days_from_civil (suc d.year) 1 1 ≡ day_count d +ℤ pos 1
    new_year december last =
        follows _ _ _ (days_from_civil-day_number (suc d.year) 1 1 (omega arith))
          (ground (arith, december)) (rw (last, december) (unfold days_in_month in refl))

    step : day_count (next_date d) ≡ day_count d +ℤ pos 1
    step = elim (Bool-cases (ltb d.day (days_in_month d.year d.month))) [
      | inl more ↦ rw more in_month
      | inr last ↦ elim (Bool-cases (ltb d.month 12)) [
        | inl before ↦ rw (last, before) (in_year (ground arith) (ground (arith, last, h)))
        | inr december ↦
            rw (last, december) (new_year (ground (arith, h)) (ground (arith, last, h)))
      ]
    ]

    epoch : days_from_civil 1970 1 1 ≡ pos 0
    epoch = unfold days_from_civil days_of_year era_of ◌+ℤ◌ ◌-ℤ◌ ◌*ℤ◌ in refl
