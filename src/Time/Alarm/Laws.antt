-- ===== src/Time/Alarm/Laws.antt =====
-- What an alarm promises (src/modules/base/time).
use testing.Base.{
  ℕ, ◌⊎◌, Bool-cases, ltb, ◌+◌, ◌-◌, ◌*◌, ◌%◌, ◌^◌, ◌<◌, ◌≤◌, ◌≡◌, ◌≢◌, ◌↔◌, ◌∙◌, refl, ap, true,
  false, Option-cases, inl, inr, Option, none, some, arith, ◌==◌, ne→==, s_ok, e_invalid_value,
}
use testing.Time.{Tm, is_bad_zone, is_negative}
use testing.Time.Alarm.{
  System, Alarm, Created, get_sys, ones, settled, create_alarm_second, get_delay_alarm, arm, left,
  invalid_module,
}

-- The seconds that the system's clock shows in a zone.
abbrev pub reads : System → ℕ → Option ℕ
reads sys gmt = sys.mktime (settled (get_sys sys gmt ones).1)

-- A broken-down time in UTC, with the hour of a zone in the same day.
abbrev pub in_zone : ℕ → Tm → Tm
in_zone gmt t = record t { tm_hour = (t.tm_hour + gmt) % 24; tm_yday = 0 }

-- A clock's reading is at a number of seconds in a zone, as `mktime` counts them.
abbrev pub Shows : (Tm → Option ℕ) → ℕ → Option Tm → ℕ → Type 0
Shows mktime gmt none seconds = ⊥
Shows mktime gmt (some t) seconds = (t.tm_year < 2 ^ 32) × (mktime (in_zone gmt t) ≡ some seconds)

settled-in_zone :
    (sys : System) (gmt : ℕ) (t words : Tm)
    → sys.now ≡ some t
    → t.tm_year < 2 ^ 32
    → settled (get_sys sys gmt words).1 ≡ in_zone gmt t
unfolding get_sys
settled-in_zone sys gmt t words e b =
    let year : (t.tm_year + 1900 + (2 ^ 32 - 1900)) % 2 ^ 32 ≡ t.tm_year = omega arith in
    rw e (rw year refl)

-- What the code makes of a reading, whatever stood in the words that it overwrites.
pub Shows-settled :
    (sys : System) (gmt seconds : ℕ) (words : Tm)
    → Shows sys.mktime gmt sys.now seconds
    → sys.mktime (settled (get_sys sys gmt words).1) ≡ some seconds
Shows-settled sys gmt seconds words h = elim (Option-cases sys.now) [
  | inl e ↦ absurd (rw e at h)
  | inr (t, e) ↦
      let h' : Shows sys.mktime gmt (some t) seconds = rw e at h in
      ap sys.mktime (settled-in_zone sys gmt t words e h'.0) ∙ h'.1
]

pub Shows-now :
    (sys : System) (gmt seconds : ℕ) → Shows sys.mktime gmt sys.now seconds → sys.now ≢ none
Shows-now sys gmt seconds h e = absurd (rw e at h)

abbrev IsArgument : ℕ → ℕ → ℕ → Type 0
IsArgument gmt second func = (gmt ≤ 12) × (0 < second) × (second < 2 ^ 31) × (func ≢ 0)

abbrev pub made : System → ℕ → ℕ → ℕ → ℕ → Alarm
made sys gmt func second curr = record {
  gmt = gmt;
  func = func;
  date_alarm = (curr + second) % 2 ^ 64;
  loop = sys.loop;
}

-- What artik_request_api_module returns where it has the module.
abbrev pub IsModule : ℕ → Type 0
IsModule m = (m ≢ 0) × (m ≢ invalid_module)

create_alarm_second-made :
    (sys : System) (gmt second func curr : ℕ)
    → IsArgument gmt second func
    → reads sys gmt ≡ some curr
    → create_alarm_second sys true gmt second (some 0) func ≡ arm sys true gmt func second curr
unfolding create_alarm_second
create_alarm_second-made sys gmt second func curr a q =
    let nonzero : (second == 0) ≡ false = ground arith in
    let zone : is_bad_zone gmt ≡ false = ground arith in
    let sign : is_negative second ≡ false = ground arith in
    let callback : (func == 0) ≡ false = ground arith in rw (nonzero, zone, sign, callback) (rw q)

abbrev pub armed : System → ℕ → ℕ → ℕ → ℕ → Created
armed sys gmt func second curr =
    let msec = (second % 2 ^ 32 * 1000) % 2 ^ 32 in
    record {
      error = sys.add_timeout_callback msec;
      handle = some (made sys gmt func second curr);
      timeout = some msec;
    }

pub armed_lem :
    (sys : System) (gmt func second curr : ℕ)
    → IsModule sys.loop
    → arm sys true gmt func second curr ≡ some (armed sys gmt func second curr)
armed_lem sys gmt func second curr loop =
    rw (ne→== sys.loop 0 loop.0, ne→== sys.loop invalid_module loop.1) refl

-- With a zone up to 12, a function, seconds from 1 to 2^31 - 1, a clock that shows a time, memory
-- and the loop module at hand, an alarm asks the loop for its seconds in milliseconds exactly if
-- they are at most 4294967: the product wraps beyond.
pub create_alarm_second_timeout :
    (sys : System) (gmt second func curr : ℕ)
    → IsArgument gmt second func
    → reads sys gmt ≡ some curr
    → IsModule sys.loop
    → (r : Created) × (create_alarm_second sys true gmt second (some 0) func ≡ some r)
      × ((r.timeout ≡ some (second * 1000)) ↔ (second ≤ 4294967))
create_alarm_second_timeout sys gmt second func curr a q loop = (
  armed sys gmt func second curr,
  create_alarm_second-made sys gmt second func curr a q ∙ armed_lem sys gmt func second curr loop,
  (
    (λ e. let t : (second % 2 ^ 32 * 1000) % 2 ^ 32 ≡ second * 1000 = cc in omega arith),
    (λ h. ap some (omega arith)),
  ),
)

get_delay_alarm_at :
    (sys : System) (alarm : Alarm) (now : ℕ)
    → sys.now ≢ none
    → reads sys alarm.gmt ≡ some now
    → get_delay_alarm sys alarm ≡ left alarm (some now)
unfolding get_delay_alarm
get_delay_alarm_at sys alarm now n q = elim (Option-cases sys.now) [
  | inl e ↦ absurd (n e)
  | inr (t, e) ↦ rw (e, get_delay_alarm) (rw q)
]

left_lem :
    (sys : System) (gmt second func curr now : ℕ)
    → second < 2 ^ 31
    → curr < 2 ^ 31
    → curr ≤ now
    → now < 2 ^ 32
    → ((now < 2 ^ 31)
        × (left (made sys gmt func second curr) (some now) ≡ (s_ok, second - (now - curr))))
      ⊎ ((2 ^ 31 ≤ now) × (left (made sys gmt func second curr) (some now) ≡ (e_invalid_value, 0)))
left_lem sys gmt second func curr now a b c d = elim (Bool-cases (ltb now (2 ^ 31))) [
  | inl small ↦ let h : now < 2 ^ 31 = ground arith in inl (h, ground arith)
  | inr large ↦ let h : 2 ^ 31 ≤ now = ground arith in inr (h, ground arith)
]

-- The time that is left of an alarm that was made with a zone up to 12, a function and seconds
-- from 1 to 2^31 - 1, with memory and the loop module at hand, at a time below 2^31, asked for at
-- that time or later, is the seconds that have not passed, and 0 from the time on at which it is
-- due, as long as the clock is below 2^31; from then on, up to 2^32, it is an error. The clock
-- shows the seconds that mktime counts for its time in UTC with the zone added to the hour, modulo
-- 24, in the same day, of a year that a 32-bit word holds.
pub get_delay_alarm_lem :
    (sys later : System) (gmt second func curr now : ℕ)
    → IsArgument gmt second func
    → Shows sys.mktime gmt sys.now curr
    → IsModule sys.loop
    → curr < 2 ^ 31
    → Shows later.mktime gmt later.now now
    → curr ≤ now
    → now < 2 ^ 32
    → (r : Created) × (alarm : Alarm) × (create_alarm_second sys true gmt second (some 0) func
        ≡ some r)
      × (r.handle ≡ some alarm)
      × (((now < 2 ^ 31) × (get_delay_alarm later alarm ≡ (s_ok, second - (now - curr))))
          ⊎ ((2 ^ 31 ≤ now) × (get_delay_alarm later alarm ≡ (e_invalid_value, 0))))
get_delay_alarm_lem sys later gmt second func curr now a q loop b p c d =
    let alarm = made sys gmt func second curr in
    let at =
      get_delay_alarm_at later alarm now (Shows-now later gmt now p)
        (Shows-settled later gmt now ones p) in
    let both = left_lem sys gmt second func curr now a.2 b c d in
    (
      armed sys gmt func second curr,
      alarm,
      create_alarm_second-made sys gmt second func curr a (Shows-settled sys gmt curr ones q)
          ∙ armed_lem sys gmt func second curr loop,
      refl,
      elim both [ inl (h, e) ↦ inl (h, at ∙ e) | inr (h, e) ↦ inr (h, at ∙ e) ],
    )
