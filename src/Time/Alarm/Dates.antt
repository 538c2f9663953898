-- ===== src/Time/Alarm/Dates.antt =====
-- Alarms for a date (src/modules/base/time).
use testing.Base.{
  ℕ, ◌⊎◌, Bool-cases, zero, suc, Option, sym, subst, ◌*◌, e_invalid_value, ◌+◌, ◌-◌, ◌%◌, ◌^◌, ◌<◌,
  ◌≤◌, ◌≡◌, ◌≢◌, refl, true, false, inl, inr, none, some, arith, ltb, ◌==◌, ap, ◌∙◌,
}
use testing.Time.{ArtikTime, Tm, IsDate, is_bad_zone, is_negative}
use testing.Time.Clock.{IsDate-in_range}
use testing.Time.Alarm.{
  System, Alarm, Created, get_sys, ones, zeros, settled, due, os_create_alarm_second,
  os_create_alarm_date, create_alarm_date, is_empty, arm, arm_in, read_again, refused,
}
use testing.Time.Alarm.Laws.{reads, made, armed, armed_lem, IsModule, Shows, Shows-settled}

-- A date in range, a zone and a callback.
abbrev pub IsRequest : ℕ → ℕ → ArtikTime → Type 0
IsRequest gmt func date = (gmt ≤ 12) × (func ≢ 0) × IsDate date × (is_empty date ≡ false)

-- The broken-down time that a date is read as: without milliseconds, with the month from 0 and the
-- year from 1900. A date of 1900 keeps its month and year, which is the month after in 3800.
abbrev pub in_year : ArtikTime → ℕ → Tm
in_year date zero = record {
  tm_sec = date.second;
  tm_min = date.minute;
  tm_hour = date.hour;
  tm_mday = date.day;
  tm_mon = date.month;
  tm_year = 1900;
  tm_wday = date.day_of_week;
  tm_yday = 0;
}
in_year date (suc n) = record {
  tm_sec = date.second;
  tm_min = date.minute;
  tm_hour = date.hour;
  tm_mday = date.day;
  tm_mon = date.month - 1;
  tm_year = suc n;
  tm_wday = date.day_of_week;
  tm_yday = 0;
}

abbrev pub read_as : ArtikTime → Tm
read_as date = in_year date (date.year - 1900)

due-in_year : (date : ArtikTime) (n : ℕ) → date.year ≡ n + 1900 → due date ≡ in_year date n
due-in_year date zero e =
    let test : ltb 1900 date.year ≡ false = ground arith in rw test (rw e refl)
due-in_year date (suc n) e =
    let test : ltb 1900 date.year ≡ true = ground arith in
    let year : date.year - 1900 ≡ suc n = omega arith in rw test (rw year refl)

due-read_as : (date : ArtikTime) → IsDate date → due date ≡ read_as date
due-read_as date d = let low = d.year_ge in due-in_year date (date.year - 1900) (omega arith)

create_alarm_date-arm_in :
    (sys : System) (gmt func curr : ℕ) (date : ArtikTime)
    → IsRequest gmt func date
    → sys.mktime (settled (get_sys sys gmt zeros).1) ≡ some curr
    → create_alarm_date sys true gmt date (some 0) func
      ≡ arm_in sys true gmt func curr (sys.mktime (read_as date))
unfolding create_alarm_date os_create_alarm_date
create_alarm_date-arm_in sys gmt func curr date a q =
    let zone : is_bad_zone gmt ≡ false = ground arith in
    let callback : (func == 0) ≡ false = ground arith in
    rw (zone, a.3, callback, IsDate-in_range date a.2)
      (rw q (ap (λ (t : Tm). arm_in sys true gmt func curr (sys.mktime t)) (due-read_as date a.2)))

-- The seconds to the date are counted from the second reading of the clock.
arm_in-early :
    (sys : System) (gmt func curr next at : ℕ)
    → gmt ≤ 12
    → func ≢ 0
    → reads (read_again sys) gmt ≡ some next
    → curr ≤ at
    → at - curr < 2 ^ 31
    → arm_in sys true gmt func curr (some at) ≡ arm (read_again sys) true gmt func (at - curr) next
unfolding os_create_alarm_second
arm_in-early sys gmt func curr next at z f q h k =
    let early : ltb at curr ≡ false = ground arith in
    let zone : is_bad_zone gmt ≡ false = ground arith in
    let callback : (func == 0) ≡ false = ground arith in
    let sign : is_negative (at - curr) ≡ false = ground arith in
    rw early (rw (zone, sign, callback) (rw q))

-- A time less than 2^31 seconds after one reading of the clock, and in range when the time between
-- the two readings is added.
abbrev pub Near : ℕ → ℕ → Option ℕ → Type 0
Near curr next none = Unit
Near curr next (some at) = (at - curr < 2 ^ 31) × (at + (next - curr) < 2 ^ 64)

-- What comes of an alarm for a time, with the clock at `curr` and then at `next`.
abbrev pub Alarmed : System → ℕ → ℕ → Option ℕ → Option Created → Type 0
Alarmed sys curr next none result = result ≡ some (refused e_invalid_value)
Alarmed sys curr next (some at) result =
    ((at < curr) × (result ≡ none))
    ⊎ ((curr ≤ at)
        × (r : Created) × (alarm : Alarm) × (result ≡ some r)
        × (r.handle ≡ some alarm)
        × (alarm.date_alarm ≡ at + (next - curr))
        × (r.timeout ≡ some (((at - curr) * 1000) % 2 ^ 32)))

arm_in-Alarmed :
    (sys : System) (gmt func curr next : ℕ) (at : Option ℕ)
    → gmt ≤ 12
    → func ≢ 0
    → IsModule sys.loop
    → reads (read_again sys) gmt ≡ some next
    → curr ≤ next
    → Near curr next at
    → Alarmed sys curr next at (arm_in sys true gmt func curr at)
arm_in-Alarmed sys gmt func curr next none z f l q c near = refl
arm_in-Alarmed sys gmt func curr next (some at) z f l q c near =
    let again = read_again sys in
    elim (Bool-cases (ltb at curr)) [
      | inl late ↦ inl (ground arith, rw late refl)
      | inr early ↦
          let h : curr ≤ at = ground arith in
          inr (
            h,
            armed again gmt func (at - curr) next,
            made again gmt func (at - curr) next,
            arm_in-early sys gmt func curr next at z f q h near.0
                ∙ armed_lem again gmt func (at - curr) next l,
            refl,
            omega arith,
            ap some (omega arith),
          )
    ]

-- With a zone up to 12, a function, a date in range that is not taken for empty, memory and the
-- loop module at hand, a clock that shows a time at both readings, the second not before the
-- first: a date for which mktime has no time gives E_INVALID_VALUE and no alarm; a date before the
-- first reading converts a negative number to an unsigned one, which is undefined; any other, if
-- it is less than 2^31 seconds after the first reading and 64 bits hold what is due, gives an
-- alarm that is due at the date and as much later as the second reading is after the first, and
-- asks the loop for the seconds from the first reading to the date in milliseconds, modulo 2^32.
-- The date is read with its year from 1900 and its month from 0, but one of the year 1900 as the
-- month after, in 3800. The clock shows the seconds that mktime counts for its time in UTC with
-- the zone added to the hour, modulo 24, in the same day, of a year that a 32-bit word holds.
pub create_alarm_date_lem :
    (sys : System) (gmt func curr next : ℕ) (date : ArtikTime)
    → IsRequest gmt func date
    → IsModule sys.loop
    → Shows sys.mktime gmt sys.now curr
    → Shows sys.mktime gmt sys.again next
    → curr ≤ next
    → Near curr next (sys.mktime (read_as date))
    → Alarmed sys curr next
        (sys.mktime (read_as date))
        (create_alarm_date sys true gmt date (some 0) func)
create_alarm_date_lem sys gmt func curr next date a l q p c near =
    let first = Shows-settled sys gmt curr zeros q in
    let second = Shows-settled (read_again sys) gmt next ones p in
    subst (Alarmed sys curr next (sys.mktime (read_as date)))
      (sym (create_alarm_date-arm_in sys gmt func curr date a first))
      (arm_in-Alarmed sys gmt func curr next (sys.mktime (read_as date)) a.0 a.1 l second c near)
