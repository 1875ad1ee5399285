-- ===== src/Time.antt =====
-- kernel/sys/time.c: the kernel clock, and calendar dates against days since 1 January 1970.
-- An `int` is given by its 32 bits. Its sums and products wrap round; the wrapped value of a chain of
-- sums and products is that of the last one, so it is the result that is taken modulo 2 ^ 32. Years
-- from 1 to 5879599 and days from 1 on make every value inside `_time_days_from_civil`, up to its last
-- difference, a number from 0 to 2 ^ 31 - 1; outside of them the C code works with negative numbers,
-- or overflows, and the model says nothing.
pub mod Era
pub mod Dates
pub mod Next
pub mod Clock
use garn_os.Prelude.{ℕ, ◌+◌, ◌-◌, ◌*◌, ◌/◌, ◌%◌, ◌^◌, leb, ltb, if◌then◌else◌}

-- `timespec64_t`
pub record Timespec64 : Type 0 where
  pub sec : ℕ
  pub nsec : ℕ

-- `systime_t`
pub record Systime : Type 0 where
  pub seconds : ℕ
  pub minutes : ℕ
  pub hours : ℕ
  pub day_of_month : ℕ
  pub month : ℕ
  pub year : ℕ

-- The year of era, the day of year and the day of era, of a year that begins on 1 March.
unfoldable pub day_of_year : ℕ → ℕ → ℕ
day_of_year m d = (153 * (if ltb 2 m then m - 3 else m + 9) + 2) / 5 + d - 1

unfoldable pub day_of_era : ℕ → ℕ → ℕ
day_of_era yoe doy = yoe * 365 + yoe / 4 - yoe / 100 + doy

-- `_time_days_from_civil` of a year from 1 to 5879599, before 719468 is taken off.
unfoldable pub shifted_days : ℕ → ℕ → ℕ → ℕ
unfolding day_of_year day_of_era
shifted_days y m d =
    let y' = if leb m 2 then y - 1 else y in
    let era = y' / 400 in
    let yoe = y' - era * 400 in era * 146097 + day_of_era yoe (day_of_year m d)

-- The bits of an `int`, which is negative before 1970.
unfoldable pub days_from_civil : ℕ → ℕ → ℕ → ℕ
unfolding shifted_days
days_from_civil y m d = (shifted_days y m d + (2 ^ 32 - 719468)) % 2 ^ 32

pub record Civil : Type 0 where
  pub year : ℕ
  pub month : ℕ
  pub day : ℕ

unfoldable pub year_of_era : ℕ → ℕ
year_of_era doe = (doe - doe / 1460 + doe / 36524 - doe / 146096) / 365

-- The month counted from March, by the day of the year.
unfoldable pub month_from_march : ℕ → ℕ
month_from_march doy = (5 * doy + 2) / 153

-- The year is the bits of an `int`. `era * 146097` wraps round as an `int`, and the difference is taken
-- as 32 bits: these are the bits of the remainder, whatever the number of days.
unfoldable pub civil_from_days : ℕ → Civil
unfolding year_of_era month_from_march
civil_from_days days =
    let time = days + 719468 in
    let era = time / 146097 in
    let doe = time - era * 146097 in
    let yoe = year_of_era doe in
    let y = yoe + era * 400 in
    let doy = doe - (365 * yoe + yoe / 4 - yoe / 100) in
    let mp = month_from_march doy in
    let d = doy - (153 * mp + 2) / 5 + 1 in
    let m = if ltb mp 10 then mp + 3 else mp - 9 in
    record { year = (y + (if leb m 2 then 1 else 0)) % 2 ^ 32; month = m; day = d }

-- An `int`, by its 32 bits, as a `uint64_t`.
abbrev pub int_to_u64 : ℕ → ℕ
int_to_u64 x = if ltb (x % 2 ^ 32) (2 ^ 31) then x % 2 ^ 32 else x % 2 ^ 32 + (2 ^ 64 - 2 ^ 32)

-- The sum is an `int`, and wraps round.
unfoldable pub time_conv_to_unix64 : Systime → Timespec64
time_conv_to_unix64 time = record {
  sec = int_to_u64 (
      days_from_civil (time.year % 2 ^ 32) time.month time.day_of_month * 86400
      + time.hours * 60 * 60
      + time.minutes * 60
      + time.seconds);
  nsec = 0;
}

unfoldable pub time_conv_to_systime64 : Timespec64 → Systime
time_conv_to_systime64 time =
    let unixtime = time.sec in
    let c = civil_from_days (unixtime / (60 * 60 * 24)) in
    record {
      seconds = unixtime % 60;
      minutes = unixtime / 60 % 60;
      hours = unixtime / (60 * 60) % 24;
      day_of_month = c.day;
      month = c.month;
      year = int_to_u64 c.year;
    }

-- `timespec_t`
pub record Timespec : Type 0 where
  pub sec : ℕ
  pub nsec : ℕ

unfoldable pub time_conv_to_unix : Systime → Timespec
time_conv_to_unix time =
    let t = time_conv_to_unix64 time in record { sec = t.sec % 2 ^ 32; nsec = t.nsec }

-- `kernelTime` is the state; `time_set64` replaces it, and `time_get64` gives it.
abbrev pub time_set : Timespec → Timespec64 → Timespec64
time_set time kernel_time = record { sec = time.sec; nsec = time.nsec }

abbrev pub time_set64 : Timespec64 → Timespec64 → Timespec64
time_set64 time kernel_time = time

abbrev pub time_get : Timespec64 → Timespec
time_get kernel_time = record { sec = kernel_time.sec % 2 ^ 32; nsec = kernel_time.nsec }

abbrev pub time_get64 : Timespec64 → Timespec64
time_get64 kernel_time = kernel_time
