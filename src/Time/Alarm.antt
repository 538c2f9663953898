-- ===== src/Time/Alarm.antt =====
-- Alarms (src/modules/base/time/linux_time.c and artik_time.c): a timeout of the event loop, and the
-- time at which it is due.
pub mod Laws
pub mod Dates
use testing.Base.{
  ℕ, ◌+◌, ◌-◌, ◌*◌, ◌/◌, ◌%◌, ◌^◌, ◌<◌, ◌≤◌, ◌≡◌, ◌≢◌, ◌↔◌, refl, sym, ap, Bool, true, false, not,
  Bool-cases, ◌||◌, ◌&&◌, Option, none, some, arith, leb, ltb, ◌==◌, if◌then◌else◌, ArtikError,
  s_ok, e_bad_args, e_invalid_value, e_busy, ◌>>=◌,
}
use Prim.Native.Nat.{bit_or}
use testing.Time.{ArtikTime, Tm, epoch_def, is_negative, is_out_of_range, is_bad_zone, overlay}

-- What an alarm's functions take from the system: the broken-down time in UTC that
-- `gettimeofday` and `gmtime` give (`none` if they fail) at the first reading and `again` at the
-- second one, `mktime` (`none` for -1 or less), what artik_request_api_module("loop") returns, and
-- what the loop module answers to a timeout.
pub record System : Type 0 where
  pub now : Option Tm
  pub again : Option Tm
  pub mktime : Tm → Option ℕ
  pub loop : ℕ
  pub add_timeout_callback : ℕ → ArtikError

pub record Alarm : Type 0 where
  pub gmt : ℕ
  pub func : ℕ
  pub date_alarm : ℕ
  pub loop : ℕ

-- `os_time_get_sys`: on failure the caller's `struct tm` stays as it is. (The year has 1900 added,
-- which every caller takes off again.)
unfoldable pub get_sys : System → ℕ → Tm → ArtikError × Tm
get_sys sys gmt tm = elim sys.now [
  | none ↦ (e_bad_args, tm)
  | some t ↦ (s_ok, record t { tm_hour = (t.tm_hour + gmt) % 24; tm_year = t.tm_year + epoch_def })
]

-- memset(&curr_usr, 1, sizeof(curr_usr))
abbrev pub ones : Tm
ones = record {
  tm_sec = 0x01010101;
  tm_min = 0x01010101;
  tm_hour = 0x01010101;
  tm_mday = 0x01010101;
  tm_mon = 0x01010101;
  tm_year = 0x01010101;
  tm_wday = 0x01010101;
  tm_yday = 0x01010101;
}

abbrev pub zeros : Tm
zeros = record {
  tm_sec = 0;
  tm_min = 0;
  tm_hour = 0;
  tm_mday = 0;
  tm_mon = 0;
  tm_year = 0;
  tm_wday = 0;
  tm_yday = 0;
}

-- curr_usr.tm_yday = 0; curr_usr.tm_year -= EPOCH_DEF, in an `int` that stands as its 32-bit word:
-- the year is below 1900 where the clock could not be read.
abbrev pub settled : Tm → Tm
settled t = record t { tm_yday = 0; tm_year = (t.tm_year + (2 ^ 32 - epoch_def)) % 2 ^ 32 }

-- The result of a creation: the error, what was written to `*handle`, and the milliseconds of the
-- timeout that was asked of the loop.
pub record Created : Type 0 where
  pub error : ArtikError
  pub handle : Option Alarm
  pub timeout : Option ℕ

abbrev pub refused : ArtikError → Created
refused error = record { error = error; handle = none; timeout = none }

-- INVALID_MODULE, (void *)-1.
abbrev pub invalid_module : ℕ
invalid_module = 2 ^ 64 - 1

-- `malloc`'s result is written through without a test, so no memory is a fault, `none`, and so is
-- a call of INVALID_MODULE's function. The loop takes the milliseconds as an `unsigned int`.
abbrev pub arm : System → Bool → ℕ → ℕ → ℕ → ℕ → Option Created
arm sys memory gmt func second curr =
    let alarm : Alarm = record {
      gmt = gmt;
      func = func;
      date_alarm = (curr + second) % 2 ^ 64;
      loop = sys.loop;
    } in
    let msec = (second % 2 ^ 32 * 1000) % 2 ^ 32 in
    if not memory
    then none
    else if sys.loop == 0
    then some (record { error = e_busy; handle = some alarm; timeout = none })
    else if sys.loop == invalid_module
    then none
    else some
        (record { error = sys.add_timeout_callback msec; handle = some alarm; timeout = some msec })

abbrev pub arm_at : System → Bool → ℕ → ℕ → ℕ → Option ℕ → Option Created
arm_at sys memory gmt func second none = some (refused e_bad_args)
arm_at sys memory gmt func second (some curr) = arm sys memory gmt func second curr

-- `second` is an `unsigned long`, and `func` is 0 for NULL.
unfoldable pub os_create_alarm_second : System → Bool → ℕ → ℕ → ℕ → Option Created
unfolding get_sys
os_create_alarm_second sys memory gmt func second =
    if is_bad_zone gmt || is_negative second || func == 0
    then some (refused e_bad_args)
    else arm_at sys memory gmt func second (sys.mktime (settled (get_sys sys gmt ones).1))

-- `artik_time_create_alarm_second`: `handle` is the caller's pointer, and what it points to.
unfoldable pub create_alarm_second : System → Bool → ℕ → ℕ → Option ℕ → ℕ → Option Created
unfolding os_create_alarm_second
create_alarm_second sys memory gmt second none func = some (refused e_bad_args)
create_alarm_second sys memory gmt second (some held) func =
    if not (held == 0) || second == 0
    then some (refused e_bad_args)
    else os_create_alarm_second sys memory gmt func second

-- `os_time_get_delay_alarm`: the error and `*msecond`. `mktime`'s result goes through an `int`.
abbrev pub left : Alarm → Option ℕ → ArtikError × ℕ
left alarm none = (e_invalid_value, 0)
left alarm (some now) =
    if is_negative now
    then (e_invalid_value, 0)
    else (s_ok, if leb alarm.date_alarm (now % 2 ^ 32) then 0 else alarm.date_alarm - now % 2 ^ 32)

unfoldable pub get_delay_alarm : System → Alarm → ArtikError × ℕ
unfolding get_sys
get_delay_alarm sys alarm = elim sys.now [
  | none ↦ (e_bad_args, 0)
  | some t ↦ left alarm (sys.mktime (settled (get_sys sys alarm.gmt ones).1))
]

-- `os_time_struct_empty`, of the date's eight words: their union is 0 or negative.
unfoldable pub is_empty : ArtikTime → Bool
is_empty d =
    let union = bit_or d.second (
      bit_or d.minute (
        bit_or d.hour
          (bit_or d.day (bit_or d.month (bit_or d.year (bit_or d.day_of_week d.msecond)))))) in
    union == 0 || is_negative union

-- The broken-down time of the date of an alarm.
abbrev pub due : ArtikTime → Tm
due date =
    let t = overlay date in
    let late = ltb epoch_def t.tm_year in
    record t {
      tm_yday = 0;
      tm_year = if late then t.tm_year - epoch_def else t.tm_year;
      tm_mon = if late then t.tm_mon - 1 else t.tm_mon;
    }

-- The system at the second reading of the clock.
abbrev pub read_again : System → System
read_again sys = record sys { now = sys.again }

-- The difference goes through a `double` into an `unsigned long`, which is undefined where it is
-- negative: `none`. `os_time_create_alarm_second` reads the clock again.
abbrev pub arm_in : System → Bool → ℕ → ℕ → ℕ → Option ℕ → Option Created
arm_in sys memory gmt func curr none = some (refused e_invalid_value)
arm_in sys memory gmt func curr (some at) =
    if ltb at curr
    then none
    else os_create_alarm_second (read_again sys) memory gmt func (at - curr)

abbrev pub arm_from : System → Bool → ℕ → ℕ → ArtikTime → Option ℕ → Option Created
arm_from sys memory gmt func date none = some (refused e_invalid_value)
arm_from sys memory gmt func date (some curr) =
    arm_in sys memory gmt func curr (sys.mktime (due date))

unfoldable pub os_create_alarm_date : System → Bool → ℕ → ℕ → ArtikTime → Option Created
os_create_alarm_date sys memory gmt func date =
    if is_bad_zone gmt || is_empty date || func == 0 || is_out_of_range date
    then some (refused e_bad_args)
    else arm_from sys memory gmt func date (sys.mktime (settled (get_sys sys gmt zeros).1))

-- `artik_time_create_alarm_date`.
unfoldable pub create_alarm_date : System → Bool → ℕ → ArtikTime → Option ℕ → ℕ → Option Created
create_alarm_date sys memory gmt date none func = some (refused e_bad_args)
create_alarm_date sys memory gmt date (some held) func =
    if not (held == 0)
    then some (refused e_bad_args)
    else os_create_alarm_date sys memory gmt func date
