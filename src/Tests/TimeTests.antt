-- ===== src/Tests/TimeTests.antt =====
-- Dates and readings of the clock in 2024, a leap year, and in 2000.
use garn_os.Prelude.{◌+◌, ◌≡◌, refl, arith}
use garn_os.Time.{
  Systime, days_from_civil, civil_from_days, time_conv_to_unix64, time_conv_to_systime64,
  shifted_days, day_of_year, day_of_era,
}
use garn_os.Time.Dates.{IsDate, civil_from_days-days_from_civil}
use garn_os.Time.Next.{civil_from_days-next_day}
use garn_os.Time.Clock.{IsReading, time_conv_to_systime64-time_conv_to_unix64}

leap_day : IsDate 2024 2 29
leap_day = record {
  after_epoch = omega arith;
  last_year = omega arith;
  some_month = omega arith;
  last_month = omega arith;
  some_day = omega arith;
  last_day = omega arith;
}

day_number_of_leap_day : days_from_civil 2024 2 29 ≡ 19782
unfolding days_from_civil shifted_days day_of_year day_of_era
day_number_of_leap_day = refl

first_day : days_from_civil 1970 1 1 ≡ 0
unfolding days_from_civil shifted_days day_of_year day_of_era
first_day = refl

civil_from_days-days_from_civil_example :
    civil_from_days (days_from_civil 2024 2 29) ≡ record { year = 2024; month = 2; day = 29 }
civil_from_days-days_from_civil_example = civil_from_days-days_from_civil 2024 2 29 leap_day

civil_from_days-next_day_example :
    civil_from_days (days_from_civil 2024 2 29 + 1) ≡ record { year = 2024; month = 3; day = 1 }
civil_from_days-next_day_example = civil_from_days-next_day 2024 2 29 leap_day (omega arith)

abbrev noon : Systime
noon = record { seconds = 7; minutes = 30; hours = 12; day_of_month = 29; month = 2; year = 2024 }

noon-IsReading : IsReading noon
unfolding days_from_civil shifted_days day_of_year day_of_era
noon-IsReading = record {
  date = leap_day;
  hour = omega arith;
  minute = omega arith;
  second = omega arith;
  fits = omega arith;
}

time_conv_to_systime64-time_conv_to_unix64_example :
    time_conv_to_systime64 (time_conv_to_unix64 noon) ≡ noon
time_conv_to_systime64-time_conv_to_unix64_example =
    time_conv_to_systime64-time_conv_to_unix64 noon noon-IsReading

-- The seconds of 19 January 2038, 3:14:08, do not fit an `int`.
overflow :
    (time_conv_to_unix64 (record {
      seconds = 8;
      minutes = 14;
      hours = 3;
      day_of_month = 19;
      month = 1;
      year = 2038;
    })).sec
    ≡ 18446744071562067968
unfolding time_conv_to_unix64 days_from_civil shifted_days day_of_year day_of_era
overflow = refl
