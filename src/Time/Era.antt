-- ===== src/Time/Era.antt =====
-- Years and days of an era of 400 years, and days of a year that begins in March.
use garn_os.Prelude.{
  ℕ, ◌+◌, ◌-◌, ◌*◌, ◌/◌, ◌%◌, ◌≤◌, ◌<◌, ◌≡◌, ◌≢◌, ◌⊎◌, arith, inl, inr, ap, sym, ◌∙◌,
}
use garn_os.Time.{day_of_era, year_of_era, month_from_march}

-- A year of the era by centuries, cycles of four years and years; day 365 is a leap day.
century_form :
    (c q r doy : ℕ)
    → c < 4
    → q < 25
    → r < 4
    → (doy < 365) ⊎ ((doy ≡ 365) × (r ≡ 3) × ((q ≢ 24) ⊎ (c ≡ 3)))
    → year_of_era (36524 * c + 1461 * q + 365 * r + doy) ≡ 100 * c + 4 * q + r
unfolding year_of_era
century_form c q r doy hc hq hr (inl hd) = omega arith
century_form c q r doy hc hq hr (inr (hd, h3, inl h)) = omega arith
century_form c q r doy hc hq hr (inr (hd, h3, inr h)) = omega arith

-- The year that began on 1 March of `yoe` ends on a 29 February.
abbrev pub EndsInLeap : ℕ → Type 0
EndsInLeap yoe = ((yoe + 1) % 4 ≡ 0) × (((yoe + 1) % 100 ≢ 0) ⊎ ((yoe + 1) % 400 ≡ 0))

-- The year, its first day of the era, and the bound of the era.
abbrev pub YearDays : ℕ → ℕ → Type 0
YearDays yoe doy =
    (year_of_era (day_of_era yoe doy) ≡ yoe)
    × (365 * yoe + yoe / 4 - yoe / 100 + doy ≡ day_of_era yoe doy)
    × (day_of_era yoe doy < 146097)

by_centuries :
    (yoe doy : ℕ)
    → yoe < 400
    → 36524 * (yoe / 100) + 1461 * (yoe % 100 / 4) + 365 * (yoe % 4) + doy ≡ day_of_era yoe doy
unfolding day_of_era
by_centuries yoe doy h = omega arith

year_of_day :
    (yoe doy : ℕ)
    → yoe < 400
    → (doy < 365) ⊎ ((doy ≡ 365) × EndsInLeap yoe)
    → year_of_era (day_of_era yoe doy) ≡ yoe
year_of_day yoe doy hy h =
    (let f =
        century_form (yoe / 100) (yoe % 100 / 4) (yoe % 4) doy (omega arith) (omega arith)
          (omega arith)
          (elim h [
            | inl k ↦ inl k
            | inr (d, (l, e)) ↦
                inr
                  (d, omega arith, elim e [ inl n ↦ inl (omega arith) | inr n ↦ inr (omega arith) ])
          ]) in
      ap year_of_era (sym (by_centuries yoe doy hy)) ∙ f ∙ omega arith)

pub year_of_era-day_of_era :
    (yoe doy : ℕ) → yoe < 400 → (doy < 365) ⊎ ((doy ≡ 365) × EndsInLeap yoe) → YearDays yoe doy
unfolding day_of_era
year_of_era-day_of_era yoe doy hy h = (
  year_of_day yoe doy hy h,
  omega arith,
  elim h [ inl k ↦ omega arith | inr (d, (l, e)) ↦ omega arith ],
)

-- The day of the year gives month and day back.
pub month_from_march_lem :
    (mp d : ℕ)
    → mp < 12
    → 1 ≤ d
    → d + (153 * mp + 2) / 5 ≤ (153 * (mp + 1) + 2) / 5
    → month_from_march ((153 * mp + 2) / 5 + d - 1) ≡ mp
unfolding month_from_march
month_from_march_lem mp d hm hd fits = omega arith

-- Every day of the era lies in its year.
pub day_of_era-year_of_era :
    (doe : ℕ)
    → doe < 146097
    → (year_of_era doe < 400)
      × (365 * year_of_era doe + year_of_era doe / 4 - year_of_era doe / 100 ≤ doe)
      × (doe ≤ 365 * year_of_era doe + year_of_era doe / 4 - year_of_era doe / 100 + 365)
unfolding year_of_era
day_of_era-year_of_era doe h = (omega arith, omega arith, omega arith)
