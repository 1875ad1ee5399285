-- ===== src/Time/Dates.antt =====
-- Calendar dates of kernel/sys/time.c against the Gregorian calendar, and the clock's round trip.
use garn_os.Prelude.{
  ℕ, ◌+◌, ◌-◌, ◌*◌, ◌/◌, ◌%◌, ◌^◌, ◌≤◌, ◌<◌, ◌≡◌, ◌≢◌, ◌⊎◌, refl, ap, ap₂, ◌∙◌, arith, inl, inr,
  leb, ltb, ◌==◌, ◌&&◌, ◌||◌, not, Bool, true, Bool-cases, if◌then◌else◌,
}
use garn_os.Time.{
  Civil, day_of_year, day_of_era, shifted_days, days_from_civil, year_of_era, month_from_march,
  civil_from_days,
}
use garn_os.Time.Era.{
  EndsInLeap, year_of_era-day_of_era, month_from_march_lem, day_of_era-year_of_era,
}

-- The Gregorian calendar.
abbrev pub is_leap : ℕ → Bool
is_leap y = ((y % 4 == 0) && not (y % 100 == 0)) || (y % 400 == 0)

abbrev pub has_thirty : ℕ → Bool
has_thirty m = (m == 4) || (m == 6) || (m == 9) || (m == 11)

abbrev pub days_in_month : ℕ → ℕ → ℕ
days_in_month y m =
    if has_thirty m then 30 else if m == 2 then (if is_leap y then 29 else 28) else 31

-- A date from 1 January 1970 on whose day number, counted from the year 0, fits an `int`.
pub record IsDate (y m d : ℕ) : Type 0 where
  pub after_epoch : 1970 ≤ y
  pub last_year : y < 5_879_600
  pub some_month : 1 ≤ m
  pub last_month : m ≤ 12
  pub some_day : 1 ≤ d
  pub last_day : d ≤ days_in_month y m

abbrev pub next_day : Civil → Civil
next_day c =
    if ltb c.day (days_in_month c.year c.month)
    then record c { day = c.day + 1 }
    else if ltb c.month 12
    then record c { month = c.month + 1; day = 1 }
    else record { year = c.year + 1; month = 1; day = 1 }

-- The rules of the calendar in numbers.
month_days :
    (y m d : ℕ)
    → 1 ≤ m
    → m ≤ 12
    → d ≤ days_in_month y m
    → (d + (153 * ((m + 9) % 12) + 2) / 5 ≤ (153 * ((m + 9) % 12 + 1) + 2) / 5)
      × ((m ≢ 2) ⊎ (d ≤ 28) ⊎ ((d ≡ 29) × (is_leap y ≡ true)))
month_days y m d h1 h12 hd = ground arith

pub leap_year : (y : ℕ) → is_leap y ≡ true → (y % 4 ≡ 0) × ((y % 100 ≢ 0) ⊎ (y % 400 ≡ 0))
leap_year y h = ground arith

unfoldable pub march_year : ℕ → ℕ → ℕ
march_year y m = if leb m 2 then y - 1 else y

-- The last lines of `_time_civil_from_days`: the date in a year that begins in March.
abbrev pub civil_at : ℕ → ℕ → Civil
civil_at y doy =
    let mp = month_from_march doy in
    let m = if ltb mp 10 then mp + 3 else mp - 9 in
    record { year = y + (if leb m 2 then 1 else 0); month = m; day = doy - (153 * mp + 2) / 5 + 1 }

civil_eq :
    {y y' m m' d d' : ℕ}
    → y ≡ y'
    → m ≡ m'
    → d ≡ d'
    → Path Civil
        (record { year = y; month = m; day = d })
        (record { year = y'; month = m'; day = d' })
civil_eq p q r = cc

year_fits :
    (y : ℕ) (b : Bool) → y < 2 ^ 31 → (y + (if b then 1 else 0)) % 2 ^ 32 ≡ y + (if b then 1 else 0)
year_fits y b h = ground arith

civil_from_days-civil_at :
    (days era doe yoe doy : ℕ)
    → yoe + era * 400 < 2 ^ 31
    → days + 719468 ≡ era * 146097 + doe
    → doe < 146097
    → year_of_era doe ≡ yoe
    → 365 * yoe + yoe / 4 - yoe / 100 + doy ≡ doe
    → civil_from_days days ≡ civil_at (yoe + era * 400) doy
unfolding civil_from_days
civil_from_days-civil_at days era doe yoe doy bound sum small year rest =
    let e : (days + 719468) / 146097 ≡ era = omega arith in
    let e2 : days + 719468 - era * 146097 ≡ doe = omega arith in
    let e3 : doe - (365 * yoe + yoe / 4 - yoe / 100) ≡ doy = omega arith in
    rw e (rw e2 (rw year (rw e3 (civil_eq (year_fits (yoe + era * 400) _ bound) refl refl))))

day_of_year-civil_at :
    (y m d : ℕ)
    → 1 ≤ y
    → 1 ≤ m
    → m ≤ 12
    → 1 ≤ d
    → d + (153 * ((m + 9) % 12) + 2) / 5 ≤ (153 * ((m + 9) % 12 + 1) + 2) / 5
    → civil_at (march_year y m) (day_of_year m d) ≡ record { year = y; month = m; day = d }
unfolding march_year day_of_year
day_of_year-civil_at y m d hy h1 h12 hd fits =
    let doy : day_of_year m d ≡ (153 * ((m + 9) % 12) + 2) / 5 + d - 1 = ground arith in
    let mp = month_from_march_lem ((m + 9) % 12) d (omega arith) hd fits in
    rw doy (rw mp (civil_eq (ground arith) (ground arith) (omega arith)))

shifted_days_lem :
    (y m d : ℕ)
    → shifted_days y m d
      ≡ march_year y m / 400 * 146097 + day_of_era (march_year y m % 400) (day_of_year m d)
unfolding shifted_days march_year
shifted_days_lem y m d =
    let e : (if leb m 2 then y - 1 else y) - (if leb m 2 then y - 1 else y) / 400 * 400
        ≡ (if leb m 2 then y - 1 else y) % 400 =
      omega arith in
    rw e refl

-- The day of the year of a date is below the length of the year.
day_of_year-fits :
    (y m d : ℕ)
    → IsDate y m d
    → (day_of_year m d < 365) ⊎ ((day_of_year m d ≡ 365) × EndsInLeap (march_year y m % 400))
unfolding day_of_year march_year
day_of_year-fits y m d h =
    let (fits, feb) = month_days y m d h.some_month h.last_month h.last_day in
    elim feb [
      | inl other ↦ inl (ground arith)
      | inr (inl short) ↦ inl (ground arith)
      | inr (inr (leap, y4)) ↦
          let l = leap_year y y4 in
          elim (Bool-cases (m == 2)) [
            | inl two ↦ inr (
              ground arith,
              (
                ground arith,
                elim (l.1) [ inl n ↦ inl (ground arith) | inr n ↦ inr (ground arith) ],
              ),
            )
            | inr other ↦ inl (ground arith)
          ]
    ]

month_at_most : (y m d : ℕ) → d ≤ days_in_month y m → d ≤ 31
month_at_most y m d h = ground arith

pub days_sum :
    (y m d : ℕ)
    → IsDate y m d
    → days_from_civil y m d + 719468
      ≡ march_year y m / 400 * 146097 + day_of_era (march_year y m % 400) (day_of_year m d)
unfolding days_from_civil march_year day_of_era day_of_year
days_sum y m d h =
    let e = shifted_days_lem y m d in
    let year = h.after_epoch in
    let last = h.last_year in
    let m1 = h.some_month in
    let m12 = h.last_month in
    let d1 = h.some_day in
    let d31 : d ≤ 31 = month_at_most y m d h.last_day in
    let bounds : (719468
          ≤ (if leb m 2 then y - 1 else y) / 400 * 146097
            + day_of_era ((if leb m 2 then y - 1 else y) % 400) (day_of_year m d))
        × ((if leb m 2 then y - 1 else y) / 400 * 146097
              + day_of_era ((if leb m 2 then y - 1 else y) % 400) (day_of_year m d)
            < 2 ^ 32) =
      (ground arith, ground arith) in
    omega (arith, bounds.0, bounds.1)

march_bound : (y m : ℕ) → y < 5_879_600 → march_year y m % 400 + march_year y m / 400 * 400 < 2 ^ 31
unfolding march_year
march_bound y m h = ground arith

-- From 1 January 1970 to 31 December 5879599, a date of the Gregorian calendar is the date of the
-- number of its day.
pub civil_from_days-days_from_civil :
    (y m d : ℕ)
    → IsDate y m d
    → civil_from_days (days_from_civil y m d) ≡ record { year = y; month = m; day = d }
unfolding days_from_civil
civil_from_days-days_from_civil y m d h =
    let (year, rest, small) =
      year_of_era-day_of_era (march_year y m % 400) (day_of_year m d) (omega arith)
        (day_of_year-fits y m d h) in
    civil_from_days-civil_at (days_from_civil y m d) (march_year y m / 400)
      (day_of_era (march_year y m % 400) (day_of_year m d)) (march_year y m % 400) (day_of_year m d)
      (march_bound y m h.last_year) (days_sum y m d h) small year rest
    ∙ ap (λ z. civil_at z (day_of_year m d)) (omega arith)
    ∙ (day_of_year-civil_at y m d (omega arith) h.some_month h.last_month h.some_day
        (month_days y m d h.some_month h.last_month h.last_day).0)

shifted_days-civil_at :
    (y doy : ℕ)
    → doy ≤ 365
    → shifted_days (civil_at y doy).year (civil_at y doy).month (civil_at y doy).day
      ≡ y / 400 * 146097 + day_of_era (y % 400) doy
unfolding march_year month_from_march day_of_year
shifted_days-civil_at y doy h =
    shifted_days_lem (civil_at y doy).year (civil_at y doy).month (civil_at y doy).day
    ∙ ap₂ (λ y' doy'. y' / 400 * 146097 + day_of_era (y' % 400) doy') (ground arith) (ground arith)

from_sum :
    (yoe era doe doy days : ℕ)
    → yoe < 400
    → days + 719468 < 2 ^ 31
    → days + 719468 ≡ era * 146097 + doe
    → 365 * yoe + yoe / 4 - yoe / 100 + doy ≡ doe
    → ((yoe + era * 400) / 400 * 146097
          + day_of_era ((yoe + era * 400) % 400) doy
          + (2 ^ 32 - 719468))
        % 2 ^ 32
      ≡ days
unfolding day_of_era
from_sum yoe era doe doy days h bound sum rest =
    let e : (yoe + era * 400) % 400 ≡ yoe = omega arith in rw e (omega arith)

-- The date of a day number has that number.
pub days_from_civil-civil_from_days :
    (days : ℕ)
    → days + 719468 < 2 ^ 31
    → (let c = civil_from_days days in days_from_civil c.year c.month c.day) ≡ days
unfolding days_from_civil
days_from_civil-civil_from_days days bound =
    let doe = (days + 719468) % 146097 in
    let era = (days + 719468) / 146097 in
    let yoe = year_of_era doe in
    let doy = doe - (365 * yoe + yoe / 4 - yoe / 100) in
    let (y400, from, upto) = day_of_era-year_of_era doe (omega arith) in
    let date =
      civil_from_days-civil_at days era doe yoe doy (omega arith) (omega arith) (omega arith) refl
        (omega arith) in
    rw date (
      ap (λ n. (n + (2 ^ 32 - 719468)) % 2 ^ 32)
        (shifted_days-civil_at (yoe + era * 400) doy (omega arith))
      ∙ from_sum yoe era doe doy days y400 bound (omega arith) (omega arith))
