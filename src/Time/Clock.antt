-- ===== src/Time/Clock.antt =====
-- The round trip of the clock through seconds since 1970.
use garn_os.Prelude.{ℕ, ◌+◌, ◌*◌, ◌/◌, ◌%◌, ◌^◌, ◌<◌, ◌≡◌, refl, arith}
use garn_os.Time.{
  Timespec, Timespec64, time_set, time_get, time_conv_to_unix, Systime, days_from_civil,
  time_conv_to_unix64, time_conv_to_systime64, int_to_u64,
}
use garn_os.Time.Dates.{IsDate, civil_from_days-days_from_civil}

-- A reading of the clock whose seconds since 1970 fit an `int`.
pub record IsReading (t : Systime) : Type 0 where
  pub date : IsDate t.year t.month t.day_of_month
  pub hour : t.hours < 24
  pub minute : t.minutes < 60
  pub second : t.seconds < 60
  pub fits :
      days_from_civil t.year t.month t.day_of_month * 86400
        + t.hours * 3600
        + t.minutes * 60
        + t.seconds
      < 2 ^ 31

seconds_lem :
    (days h m s : ℕ)
    → h < 24
    → m < 60
    → s < 60
    → days * 86400 + h * 3600 + m * 60 + s < 2 ^ 31
    → int_to_u64 (days * 86400 + h * 60 * 60 + m * 60 + s) ≡ days * 86400 + h * 3600 + m * 60 + s
seconds_lem days h m s hh hm hs fits = ground arith

whole_days :
    (days h m s : ℕ)
    → h < 24
    → m < 60
    → s < 60
    → (days * 86400 + h * 3600 + m * 60 + s) / 86400 ≡ days
whole_days days h m s hh hm hs = omega arith

time_of_day :
    (days h m s : ℕ)
    → h < 24
    → m < 60
    → s < 60
    → (let total = days * 86400 + h * 3600 + m * 60 + s in
        (total / 3600 % 24 ≡ h) × (total / 60 % 60 ≡ m) × (total % 60 ≡ s))
time_of_day days h m s hh hm hs = (omega arith, omega arith, omega arith)

year_fits : (y : ℕ) → y < 5_879_600 → (y % 2 ^ 32 ≡ y) × (int_to_u64 y ≡ y)
year_fits y h = (omega arith, ground arith)

-- A reading of the clock, of a valid date and time of day whose seconds since 1970 fit an `int`,
-- comes back from its conversion to seconds.
pub time_conv_to_systime64-time_conv_to_unix64 :
    (t : Systime) → IsReading t → time_conv_to_systime64 (time_conv_to_unix64 t) ≡ t
unfolding time_conv_to_unix64 time_conv_to_systime64
time_conv_to_systime64-time_conv_to_unix64 t h =
    let days = days_from_civil t.year t.month t.day_of_month in
    let e = seconds_lem days t.hours t.minutes t.seconds h.hour h.minute h.second h.fits in
    let c = civil_from_days-days_from_civil t.year t.month t.day_of_month h.date in
    let day : (days * 86400 + t.hours * 3600 + t.minutes * 60 + t.seconds) / 86400 ≡ days =
      whole_days days t.hours t.minutes t.seconds h.hour h.minute h.second in
    let (hh, mm, ss) = time_of_day days t.hours t.minutes t.seconds h.hour h.minute h.second in
    let (small, wide) = year_fits t.year h.date.last_year in
    rw small (rw e (rw day (rw c (rw ss (rw mm (rw hh (rw wide refl)))))))

-- The 32-bit clock reads what was set, and until 2106 the same seconds as the 64-bit clock.
pub time_get-time_set :
    (t : Timespec) (now : Timespec64) → t.sec < 2 ^ 32 → time_get (time_set t now) ≡ t
time_get-time_set t now small = let same : t.sec % 2 ^ 32 ≡ t.sec = omega arith in rw same refl

pub time_conv_to_unix-time_conv_to_unix64 :
    (t : Systime)
    → (time_conv_to_unix64 t).sec < 2 ^ 32
    → (time_conv_to_unix t).sec ≡ (time_conv_to_unix64 t).sec
unfolding time_conv_to_unix
time_conv_to_unix-time_conv_to_unix64 t small = omega arith
