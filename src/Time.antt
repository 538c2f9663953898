-- ===== src/Time.antt =====
-- src/modules/base/time: dates, the system's clock and alarms.
--
-- The C library's calendar (gmtime, timegm, mktime) is a parameter, and so is the clock. An
-- `unsigned int` is a number below 2^32; `(int)x < 0` is a test of its top bit.
pub mod Compare
pub mod Clock
pub mod Alarm
mod Examples
use testing.Base.{
  ℕ, ◌+◌, ◌-◌, ◌%◌, ◌^◌, ◌<◌, ◌≤◌, Bool, ◌||◌, Option, none, some, leb, ltb, if◌then◌else◌,
}

pub record ArtikTime : Type 0 where
  pub second : ℕ
  pub minute : ℕ
  pub hour : ℕ
  pub day : ℕ
  pub month : ℕ
  pub year : ℕ
  pub day_of_week : ℕ
  pub msecond : ℕ

-- `struct tm`: the year counts from 1900 and the month from 0.
pub record Tm : Type 0 where
  pub tm_sec : ℕ
  pub tm_min : ℕ
  pub tm_hour : ℕ
  pub tm_mday : ℕ
  pub tm_mon : ℕ
  pub tm_year : ℕ
  pub tm_wday : ℕ
  pub tm_yday : ℕ

abbrev pub epoch_def : ℕ
epoch_def = 1900

-- (int)x < 0
abbrev pub is_negative : ℕ → Bool
is_negative x = leb (2 ^ 31) (x % 2 ^ 32)

-- The checks that `os_time_set_time` and `os_time_create_alarm_date` share.
unfoldable pub is_out_of_range : ArtikTime → Bool
is_out_of_range date =
    (is_negative date.second || ltb 59 date.second)
    || (is_negative date.minute || ltb 59 date.minute)
    || (is_negative date.hour || ltb 23 date.hour)
    || (is_negative date.day || ltb date.day 1 || ltb 31 date.day)
    || (is_negative date.month || ltb date.month 1 || ltb 12 date.month)
    || (is_negative date.year || ltb date.year epoch_def)
    || (is_negative date.day_of_week || ltb 6 date.day_of_week)
    || is_negative date.msecond

-- gmt < ARTIK_TIME_UTC || gmt > ARTIK_TIME_GMT12, for an enumeration that starts at 0.
abbrev pub is_bad_zone : ℕ → Bool
is_bad_zone gmt = ltb 12 gmt

-- `memcpy(&tm, &date, sizeof(date))`: the eight fields stand in the same order, so the
-- milliseconds land in `tm_yday`.
abbrev pub overlay : ArtikTime → Tm
overlay date = record {
  tm_sec = date.second;
  tm_min = date.minute;
  tm_hour = date.hour;
  tm_mday = date.day;
  tm_mon = date.month;
  tm_year = date.year;
  tm_wday = date.day_of_week;
  tm_yday = date.msecond;
}

-- What the checks are for: a date whose fields have the ranges of a calendar.
pub record IsDate (date : ArtikTime) : Type 0 where
  pub second_lt : date.second < 60
  pub minute_lt : date.minute < 60
  pub hour_lt : date.hour < 24
  pub day_ge : 1 ≤ date.day
  pub day_le : date.day ≤ 31
  pub month_ge : 1 ≤ date.month
  pub month_le : date.month ≤ 12
  pub year_ge : 1900 ≤ date.year
  pub year_lt : date.year < 2 ^ 31
  pub weekday_lt : date.day_of_week < 7
  pub msecond_lt : date.msecond < 2 ^ 31

-- The fields are `unsigned int`.
pub record IsWord (date : ArtikTime) : Type 0 where
  pub second_word : date.second < 2 ^ 32
  pub minute_word : date.minute < 2 ^ 32
  pub hour_word : date.hour < 2 ^ 32
  pub day_word : date.day < 2 ^ 32
  pub month_word : date.month < 2 ^ 32
  pub year_word : date.year < 2 ^ 32
  pub weekday_word : date.day_of_week < 2 ^ 32
  pub msecond_word : date.msecond < 2 ^ 32
