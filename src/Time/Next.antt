-- ===== src/Time/Next.antt =====
-- The day after a date: day numbers of kernel/sys/time.c count the days of the calendar.
use garn_os.Prelude.{
  ℕ, ◌+◌, ◌*◌, ◌/◌, ◌%◌, ◌≤◌, ◌<◌, ◌≡◌, ◌≢◌, sym, ap, ap₂, ◌∙◌, arith, inl, inr, ltb, ◌==◌,
  Bool-cases, ltb→lt, not_ltb→le,
}
use garn_os.Time.{Civil, day_of_year, day_of_era, days_from_civil, civil_from_days}
use garn_os.Time.Dates.{
  is_leap, days_in_month, next_day, IsDate, leap_year, march_year, days_sum,
  civil_from_days-days_from_civil,
}

march_day : ℕ → ℕ → ℕ → ℕ
march_day y m d =
    march_year y m / 400 * 146097 + day_of_era (march_year y m % 400) (day_of_year m d)

same_month : (y m d : ℕ) → 1 ≤ d → march_day y m (d + 1) ≡ march_day y m d + 1
unfolding march_day day_of_era day_of_year march_year
same_month y m d h = ground arith

same_year :
    (y m d : ℕ)
    → 1 ≤ m
    → m < 12
    → m ≢ 2
    → d + (153 * ((m + 9) % 12) + 2) / 5 ≡ (153 * ((m + 9) % 12 + 1) + 2) / 5
    → march_day y (m + 1) 1 ≡ march_day y m d + 1
unfolding march_day day_of_era day_of_year march_year
same_year y m d h1 h12 other h = ground arith

from_february : (y : ℕ) → 1 ≤ y → march_day y 3 1 ≡ march_day y 2 (days_in_month y 2) + 1
unfolding march_day day_of_era day_of_year march_year
from_february y h = elim (Bool-cases (is_leap y)) [
  | inl leap ↦
      let (four, hundred) = leap_year y leap in
      rw leap (elim hundred [ inl n ↦ omega arith | inr n ↦ omega arith ])
  | inr common ↦ rw common (ground arith)
]

next_month :
    (y m d : ℕ)
    → 1 ≤ y
    → 1 ≤ m
    → m < 12
    → d ≡ days_in_month y m
    → march_day y (m + 1) 1 ≡ march_day y m d + 1
next_month y m d hy h1 h12 h = elim (Bool-cases (m == 2)) [
  | inl two ↦ let m2 : m ≡ 2 = ground arith in rw h (rw m2 (from_february y hy))
  | inr other ↦ same_year y m d h1 h12 (ground arith) (ground arith)
]

next_year : (y : ℕ) → march_day (y + 1) 1 1 ≡ march_day y 12 31 + 1
unfolding march_day day_of_era day_of_year march_year
next_year y = omega arith

-- A date, and its day is the one after the given day.
abbrev Follows : ℕ → Civil → Type 0
Follows days c = IsDate c.year c.month c.day × (days_from_civil c.year c.month c.day ≡ days + 1)

abbrev date : ℕ → ℕ → ℕ → Civil
date y m d = record { year = y; month = m; day = d }

-- Days after 1 January 1970 are compared with 719468 added.
number_of :
    (y m d y' m' d' : ℕ)
    → IsDate y m d
    → IsDate y' m' d'
    → march_day y' m' d' ≡ march_day y m d + 1
    → days_from_civil y' m' d' ≡ days_from_civil y m d + 1
unfolding march_day
number_of y m d y' m' d' h h' step =
    let a = days_sum y m d h in let b = days_sum y' m' d' h' in omega arith

follows :
    (y m d y' m' d' : ℕ)
    → IsDate y m d
    → IsDate y' m' d'
    → march_day y' m' d' ≡ march_day y m d + 1
    → Follows (days_from_civil y m d) (date y' m' d')
follows y m d y' m' d' h h' step = (h', number_of y m d y' m' d' h h' step)

some_days : (y m : ℕ) → 1 ≤ days_in_month y m
some_days y m = ground arith

plus_one : (a b : ℕ) → a < b → a + 1 ≤ b
plus_one a b h = omega arith

both_ways : (a b : ℕ) → a ≤ b → b ≤ a → a ≡ b
both_ways a b h k = omega arith

new_year :
    (y m d : ℕ)
    → IsDate y m d
    → y < 5_879_599
    → 12 ≤ m
    → d ≡ days_in_month y m
    → Follows (days_from_civil y m d) (date (y + 1) 1 1)
new_year y m d h year last full =
    let m12 = both_ways m 12 h.last_month last in
    let d31 : d ≡ 31 = full ∙ ap (days_in_month y) m12 in
    follows y m d (y + 1) 1 1 h
      (record {
        after_epoch = (let e = h.after_epoch in omega arith);
        last_year = omega arith;
        some_month = omega arith;
        last_month = omega arith;
        some_day = omega arith;
        last_day = omega arith;
      })
      (next_year y ∙ ap₂ (λ a b. march_day y a b + 1) (sym m12) (sym d31))

next_day-Follows :
    (y m d : ℕ)
    → IsDate y m d
    → y < 5_879_599
    → Follows (days_from_civil y m d) (next_day (date y m d))
next_day-Follows y m d h year = elim (Bool-cases (ltb d (days_in_month y m))) [
  | inl within ↦ rw within (
      follows y m d y m (d + 1) h
        (record {
          after_epoch = h.after_epoch;
          last_year = h.last_year;
          some_month = h.some_month;
          last_month = h.last_month;
          some_day = omega arith;
          last_day = plus_one d (days_in_month y m) (ltb→lt d (days_in_month y m) within);
        })
        (same_month y m d h.some_day))
  | inr last ↦
      let full : d ≡ days_in_month y m =
        (let least = not_ltb→le d (days_in_month y m) last in
          let most = h.last_day in both_ways d (days_in_month y m) most least) in
      rw last (elim (Bool-cases (ltb m 12)) [
        | inl more ↦ rw more (
            follows y m d y (m + 1) 1 h
              (record {
                after_epoch = h.after_epoch;
                last_year = h.last_year;
                some_month = omega arith;
                last_month = ground arith;
                some_day = omega arith;
                last_day = some_days y (m + 1);
              })
              (next_month y m d (omega arith) h.some_month (ltb→lt m 12 more) full))
        | inr december ↦ rw december (new_year y m d h year (not_ltb→le m 12 december) full)
      ])
]

-- The date of the day after a date of the Gregorian calendar, from 1 January 1970 on and before the
-- year 5879599, is the next date of the calendar: the next day of the month, or the first of the next
-- month, or 1 January.
pub civil_from_days-next_day :
    (y m d : ℕ)
    → IsDate y m d
    → y < 5_879_599
    → civil_from_days (days_from_civil y m d + 1)
      ≡ next_day (record { year = y; month = m; day = d })
civil_from_days-next_day y m d h year =
    let (valid, step) = next_day-Follows y m d h year in
    let c = next_day (date y m d) in
    ap civil_from_days (sym step) ∙ civil_from_days-days_from_civil c.year c.month c.day valid
