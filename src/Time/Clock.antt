-- ===== src/Time/Clock.antt =====
-- Reading and setting the system's clock (src/modules/base/time/linux_time.c).
use testing.Base.{
  ℕ, ◌+◌, ◌-◌, ◌/◌, ◌%◌, ◌<◌, ◌≤◌, ◌≡◌, ◌≢◌, ◌↔◌, refl, Bool, true, false, not, Bool-cases, inl,
  inr, Option, none, some, arith, ltb, if◌then◌else◌, ArtikError, s_ok, e_bad_args, e_invalid_value,
  Option-cases,
}
use testing.Time.{ArtikTime, Tm, IsDate, IsWord, epoch_def, is_out_of_range, is_bad_zone, overlay}

-- The C library's calendar in UTC, and whether the process may set the clock. The clock counts
-- seconds.
pub record Calendar : Type 0 where
  pub timegm : Tm → Option ℕ
  pub gmtime : ℕ → Option Tm
  pub may_set : Bool

-- `timegm` returns -1 or less for what is no time after 1970: `none`.
abbrev pub shifted : ArtikTime → ℕ → Tm
shifted date gmt =
    let t = overlay date in
    record t {
      tm_year = t.tm_year - epoch_def;
      tm_mon = t.tm_mon - 1;
      tm_hour = if ltb t.tm_hour gmt then 23 else t.tm_hour - gmt;
    }

-- `clock_settime` of what `timegm` returned.
abbrev commit : Bool → ℕ → Option ℕ → ArtikError × ℕ
commit may_set clock none = (e_bad_args, clock)
commit may_set clock (some sec) = if may_set then (s_ok, sec) else (e_bad_args, clock)

-- The error and the clock's new value.
unfoldable pub set_time : Calendar → ArtikTime → ℕ → ℕ → ArtikError × ℕ
set_time cal date gmt clock =
    if is_bad_zone gmt
    then (e_bad_args, clock)
    else if is_out_of_range date
    then (e_bad_args, clock)
    else commit cal.may_set clock (cal.timegm (shifted date gmt))

-- The date for a broken-down time in UTC: the zone's offset is added to the hour alone.
abbrev pub displayed : ℕ → ℕ → Tm → ArtikTime
displayed gmt usec t = record {
  second = t.tm_sec;
  minute = t.tm_min;
  hour = (t.tm_hour + gmt) % 24;
  day = t.tm_mday;
  month = t.tm_mon + 1;
  year = t.tm_year + epoch_def;
  day_of_week = t.tm_wday;
  msecond = usec / 1000;
}

abbrev report : ℕ → ℕ → Option Tm → ArtikError × Option ArtikTime
report gmt usec none = (e_invalid_value, none)
report gmt usec (some t) = (s_ok, some (displayed gmt usec t))

abbrev at_now : Calendar → ℕ → Option (ℕ × ℕ) → ArtikError × Option ArtikTime
at_now cal gmt none = (e_invalid_value, none)
at_now cal gmt (some (sec, usec)) = report gmt usec (cal.gmtime sec)

-- `now` is what `gettimeofday` returned, seconds and microseconds. `date` tells whether the caller
-- gave a place for the result.
unfoldable pub get_time : Calendar → Option (ℕ × ℕ) → Bool → ℕ → ArtikError × Option ArtikTime
get_time cal now date gmt =
    if not date
    then (e_bad_args, none)
    else if is_bad_zone gmt
    then (e_bad_args, none)
    else at_now cal gmt now

pub IsDate-in_range : (d : ArtikTime) → IsDate d → is_out_of_range d ≡ false
unfolding is_out_of_range
IsDate-in_range d v = ground arith

in_range-IsDate : (d : ArtikTime) → IsWord d → is_out_of_range d ≡ false → IsDate d
unfolding is_out_of_range
in_range-IsDate d w h = ground arith

-- Setting the clock succeeds exactly for a zone up to 12 and a date in range for which the calendar
-- has a time and the process the right; and the clock keeps its value unless it succeeds.
pub set_time_lem :
    (cal : Calendar) (date : ArtikTime) (gmt clock : ℕ)
    → IsWord date
    → (((set_time cal date gmt clock).0 ≡ s_ok) ↔ (
        (gmt ≤ 12) × IsDate date × (cal.may_set ≡ true) × (cal.timegm (shifted date gmt) ≢ none)))
      × ((set_time cal date gmt clock).0 ≢ s_ok → (set_time cal date gmt clock).1 ≡ clock)
unfolding set_time
set_time_lem cal date gmt clock w = elim (Bool-cases (is_bad_zone gmt)) [
  | inl bad ↦ rw bad ((λ e. cc, λ h. absurd (ground arith)), λ _. refl)
  | inr zone ↦ elim (Bool-cases (is_out_of_range date)) [
    | inl out ↦ rw (zone, out) ((λ e. cc, λ h. let q = IsDate-in_range date h.1 in cc), λ _. refl)
    | inr within ↦
        let ok_zone : gmt ≤ 12 = ground arith in
        let ok_date = in_range-IsDate date w within in
        rw (zone, within)
          (elim (Option-cases (cal.timegm (shifted date gmt))) [
            | inl e ↦ rw e ((λ q. cc, λ h. absurd (h.3 refl)), λ _. refl)
            | inr (k, e) ↦ rw e (elim (Bool-cases cal.may_set) [
              | inl y ↦
                  rw y ((λ _. (ok_zone, ok_date, refl, λ q. cc), λ _. refl), λ n. absurd (n refl))
              | inr n ↦ rw n ((λ q. cc, λ h. let f = h.2 in cc), λ _. refl)
            ])
          ])
  ]
]

-- Two broken-down times with the same date and time of day.
pub record SameTime (t u : Tm) : Type 0 where
  pub same_sec : t.tm_sec ≡ u.tm_sec
  pub same_min : t.tm_min ≡ u.tm_min
  pub same_hour : t.tm_hour ≡ u.tm_hour
  pub same_mday : t.tm_mday ≡ u.tm_mday
  pub same_mon : t.tm_mon ≡ u.tm_mon
  pub same_year : t.tm_year ≡ u.tm_year

-- What a read of the clock shows of a date to which it was set.
pub record ShowsBut (gmt : ℕ) (date r : ArtikTime) : Type 0 where
  pub second_shown : r.second ≡ date.second
  pub minute_shown : r.minute ≡ date.minute
  pub day_shown : r.day ≡ date.day
  pub month_shown : r.month ≡ date.month
  pub year_shown : r.year ≡ date.year
  pub hour_shown : gmt ≤ date.hour + 1 → r.hour ≡ date.hour
  pub hour_lost : date.hour + 1 < gmt → r.hour ≢ date.hour

shown :
    (date : ArtikTime) (gmt usec : ℕ) (t : Tm)
    → gmt ≤ 12
    → IsDate date
    → SameTime t (shifted date gmt)
    → ShowsBut gmt date (displayed gmt usec t)
shown date gmt usec t z d same = ground arith

-- The clock read back in the zone in which it was set, for a date in range that the calendar gives
-- back as it was handed in, shows the same date, minute and second, and the same hour exactly if
-- the zone's offset is at most one more than the hour.
pub get_time-set_time :
    (cal : Calendar) (date : ArtikTime) (gmt clock sec usec : ℕ) (t : Tm)
    → IsWord date
    → gmt ≤ 12
    → IsDate date
    → cal.may_set ≡ true
    → cal.timegm (shifted date gmt) ≡ some sec
    → cal.gmtime sec ≡ some t
    → SameTime t (shifted date gmt)
    → (r : ArtikTime) × (get_time cal (some ((set_time cal date gmt clock).1, usec)) true gmt
        ≡ (s_ok, some r))
      × ShowsBut gmt date r
unfolding get_time set_time
get_time-set_time cal date gmt clock sec usec t w z d may sets gets same =
    let zone : is_bad_zone gmt ≡ false = ground arith in
    (
      displayed gmt usec t,
      rw (zone, IsDate-in_range date d, sets, may) (rw gets),
      shown date gmt usec t z d same,
    )
