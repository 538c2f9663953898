-- ===== src/Time/Examples.antt =====
-- Runs of src/modules/base/time on a small calendar, whose months have 32 days and whose years have
-- 16 months.
use testing.Base.{
  ℕ, ◌+◌, ◌-◌, ◌*◌, ◌/◌, ◌%◌, ◌^◌, ◌≤◌, ◌<◌, ◌≡◌, ◌≢◌, ◌⊎◌, ◌↔◌, refl, none, some, true, arith,
  s_ok, e_invalid_value,
}
use testing.Time.{ArtikTime, Tm, IsDate, IsWord}
use testing.Time.Compare.{compare_dates, compare_dates_lem, Decides, significant}
use testing.Time.Clock.{
  Calendar, set_time, get_time, shifted, ShowsBut, set_time_lem, get_time-set_time,
}
use testing.Time.Alarm.{
  System, Alarm, Created, get_sys, is_empty, create_alarm_second, create_alarm_date,
  get_delay_alarm,
}
use testing.Time.Alarm.Laws.{create_alarm_second_timeout, get_delay_alarm_lem}
use testing.Time.Alarm.Dates.{Alarmed, create_alarm_date_lem}

abbrev count : Tm → ℕ
count t =
    t.tm_sec
    + 60 * (t.tm_min + 60 * (t.tm_hour + 24 * (t.tm_mday + 32 * (t.tm_mon + 16 * t.tm_year))))

abbrev broken_down : ℕ → Tm
broken_down s = record {
  tm_sec = s % 60;
  tm_min = s / 60 % 60;
  tm_hour = s / 3600 % 24;
  tm_mday = s / 86400 % 32;
  tm_mon = s / 2764800 % 16;
  tm_year = s / 44236800;
  tm_wday = 0;
  tm_yday = 0;
}

abbrev calendar : Calendar
calendar = record {
  timegm = λ t. some (count t);
  gmtime = λ s. some (broken_down s);
  may_set = true;
}

abbrev morning : ArtikTime
morning = record {
  second = 30;
  minute = 15;
  hour = 1;
  day = 9;
  month = 6;
  year = 1917;
  day_of_week = 6;
  msecond = 250;
}

abbrev noon : ArtikTime
noon = record morning { hour = 12 }

morning-IsDate : IsDate morning
morning-IsDate = omega arith

morning-IsWord : IsWord morning
morning-IsWord = omega arith

noon-IsDate : IsDate noon
noon-IsDate = omega arith

compare_dates_lem_example :
    Decides (significant morning) (significant noon) (compare_dates (some morning) (some noon))
compare_dates_lem_example = compare_dates_lem morning noon

set_time_lem_example :
    (((set_time calendar morning 3 7).0 ≡ s_ok) ↔ (
      (3 ≤ 12)
      × IsDate morning
      × (calendar.may_set ≡ true)
      × (calendar.timegm (shifted morning 3) ≢ none)))
    × ((set_time calendar morning 3 7).0 ≢ s_ok → (set_time calendar morning 3 7).1 ≡ 7)
set_time_lem_example = set_time_lem calendar morning 3 7 morning-IsWord

-- At one in the morning, three hours east: the hour that is read back is 2.
get_time-set_time_example :
    (r : ArtikTime) × (get_time calendar (some ((set_time calendar morning 3 7).1, 99)) true 3
      ≡ (s_ok, some r))
    × ShowsBut 3 morning r
get_time-set_time_example =
    get_time-set_time calendar morning 3 7 (count (shifted morning 3)) 99
      (broken_down (count (shifted morning 3))) morning-IsWord (omega arith) morning-IsDate refl
      refl refl
      (record {
        same_sec = refl;
        same_min = refl;
        same_hour = refl;
        same_mday = refl;
        same_mon = refl;
        same_year = refl;
      })

-- Seconds within the first days of 1900, so that they fit an `int`.
abbrev at_second : ℕ → System
at_second s = record {
  now = some (broken_down s);
  again = some (broken_down (s + 1));
  mktime = λ t. some (count t);
  loop = 64;
  add_timeout_callback = λ _. s_ok;
}

create_alarm_second_timeout_example :
    (r : Created) × (create_alarm_second (at_second 1000) true 0 60 (some 0) 5 ≡ some r)
    × ((r.timeout ≡ some (60 * 1000)) ↔ (60 ≤ 4294967))
unfolding get_sys
create_alarm_second_timeout_example =
    create_alarm_second_timeout (at_second 1000) 0 60 5 1000 (omega arith) refl (omega arith)

abbrev noon_seconds : ℕ
noon_seconds = 30 + 60 * (15 + 60 * (12 + 24 * (9 + 32 * (5 + 16 * 17))))

create_alarm_date_lem_example :
    Alarmed
      (at_second 1000)
      1000
      1001
      (some noon_seconds)
      (create_alarm_date (at_second 1000) true 0 noon (some 0) 5)
unfolding get_sys is_empty
create_alarm_date_lem_example =
    create_alarm_date_lem (at_second 1000) 0 5 1000 1001 noon
      (omega arith, (λ e. omega arith), noon-IsDate, refl) (omega arith) (omega arith, refl)
      (omega arith, refl) (omega arith) (omega arith)

get_delay_alarm_lem_example :
    (r : Created) × (alarm : Alarm) × (create_alarm_second (at_second 1000) true 0 60 (some 0) 5
      ≡ some r)
    × (r.handle ≡ some alarm)
    × (((1010 < 2 ^ 31) × (get_delay_alarm (at_second 1010) alarm ≡ (s_ok, 60 - (1010 - 1000))))
        ⊎ ((2 ^ 31 ≤ 1010) × (get_delay_alarm (at_second 1010) alarm ≡ (e_invalid_value, 0))))
unfolding get_sys
get_delay_alarm_lem_example =
    get_delay_alarm_lem (at_second 1000) (at_second 1010) 0 60 5 1000 1010 (omega arith)
      (omega arith, refl) (omega arith) (omega arith) (omega arith, refl) (omega arith)
      (omega arith)
