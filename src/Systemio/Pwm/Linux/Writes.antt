-- ===== src/Systemio/Pwm/Linux/Writes.antt =====
-- The descriptors of linux_pwm.c, and the writes through them.
use testing.Base.{
  ℕ, ◌-◌, ◌^◌, Bool, ◌||◌, Option, none, some, List, [], ◌∷◌, ltb, ◌==◌, if◌then◌else◌, ArtikError,
  s_ok, e_bad_args, e_busy, e_not_initialized, e_no_mem, e_overflow, e_interrupted, e_try_again,
  e_invalid_value, is_ok, codes, decimal, ◌>>=◌,
}

-- The cells of the array.
abbrev pub export_index : ℕ
export_index = 0

abbrev pub unexport_index : ℕ
unexport_index = 1

abbrev pub enable_index : ℕ
enable_index = 2

abbrev pub cycle_index : ℕ
cycle_index = 3

abbrev pub period_index : ℕ
period_index = 4

abbrev pub polarity_index : ℕ
polarity_index = 5

-- artik_pwm_user_data_t. A cell is none until a descriptor is stored.
pub record PwmData : Type 0 where
  pub fd : ℕ → Option ℕ
  pub chip : ℕ
  pub port : ℕ

-- What the driver did: a write of a text to a descriptor with its `errno` (0 for a success), an
-- `open` that returned a descriptor, and a `close` of one.
pub data Event : Type 0 where
  wrote : ℕ → List ℕ → ℕ → Event
  opened closed : ℕ → Event

pub record Board : Type 0 where
  pub events : List Event
  pub data_at : ℕ → Option PwmData

pub record Kernel : Type 0 where
  pub write_fd : List Event → ℕ → List ℕ → ℕ
  pub open_path : List Event → List ℕ → ℕ
  pub close_ok : List Event → ℕ → Bool
  pub text_memory : List Event → Bool
  pub malloc : Board → ℕ

abbrev pub log : Event → Board → Board
log event w = record w { events = event ∷ w.events }

abbrev pub store : ℕ → Option PwmData → Board → Board
store p d w = record w { data_at = λ q. if p == q then d else w.data_at q }

-- Is an `int` negative?
abbrev pub is_negative : ℕ → Bool
is_negative n = ltb (2 ^ 31 - 1) n

-- The errors of os_pwm_ioctl, by the numbers of `errno`.
abbrev pub error_of : ℕ → ArtikError
error_of errno =
    if errno == 22
    then e_invalid_value
    else if errno == 9 || errno == 28
    then e_bad_args
    else if errno == 89
    then e_not_initialized
    else if errno == 11
    then e_try_again
    else if errno == 27
    then e_overflow
    else if errno == 4 || errno == 32
    then e_interrupted
    else if errno == 5
    then e_busy
    else e_no_mem

abbrev pub wrote_to : Kernel → ℕ → List ℕ → Board → ArtikError × Board
wrote_to k fd' text w =
    let errno = k.write_fd w.events fd' text in
    (if errno == 0 then s_ok else error_of errno, log (wrote fd' text errno) w)

-- os_pwm_ioctl.
unfoldable pub ioctl : Kernel → PwmData → ℕ → List ℕ → Board → Option (ArtikError × Board)
ioctl k d i text w = do fd' ← d.fd i; some (wrote_to k fd' text w)

-- os_pwm_ioctl with the text that os_pwm_itoa prints: a fault if there is no memory for it.
unfoldable pub ioctl_number : Kernel → PwmData → ℕ → ℕ → Board → Option (ArtikError × Board)
unfolding ioctl
ioctl_number k d i n w = if k.text_memory w.events then ioctl k d i (decimal n) w else none

-- res = (res == S_OK ? next : res)
abbrev pub and_then :
    Option (ArtikError × Board)
    → (Board → Option (ArtikError × Board))
    → Option (ArtikError × Board)
and_then none next = none
and_then (some r) next = if is_ok r.0 then next r.1 else some r

-- os_pwm_enable.
unfoldable pub enable_data : Kernel → PwmData → ℕ → Board → Option (ArtikError × Board)
unfolding ioctl
enable_data k d value w = ioctl k d enable_index (value ∷ []) w

-- The result of a write, once the output is on again.
abbrev pub on_again : Kernel → PwmData → Option (ArtikError × Board) → Option (ArtikError × Board)
on_again k d none = none
on_again k d (some r) = do r' ← enable_data k d b'1' r.1; some (r.0, r'.1)

-- A write between turning the output off and on.
abbrev pub while_off :
    Kernel
    → PwmData
    → (Board → Option (ArtikError × Board))
    → Option (ArtikError × Board)
    → Option (ArtikError × Board)
while_off k d write none = none
while_off k d write (some off) =
    if is_ok off.0 then on_again k d (write off.1) else some (e_busy, off.1)

unfoldable pub set_number : Kernel → PwmData → ℕ → ℕ → Board → Option (ArtikError × Board)
unfolding ioctl_number enable_data
set_number k d i n w = while_off k d (ioctl_number k d i n) (enable_data k d b'0' w)

abbrev pub polarity_text : ℕ → List ℕ
polarity_text value = if value == 0 then codes "normal" else codes "inversed"

unfoldable pub set_polarity_data : Kernel → PwmData → ℕ → Board → Option (ArtikError × Board)
unfolding ioctl enable_data
set_polarity_data k d value w =
    if value == 0 || value == 1
    then while_off k d (ioctl k d polarity_index (polarity_text value)) (enable_data k d b'0' w)
    else some (e_busy, w)
