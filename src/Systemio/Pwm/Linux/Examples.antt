-- ===== src/Systemio/Pwm/Linux/Examples.antt =====
-- The theorems on linux_pwm.c with a kernel that agrees to everything.
use testing.Base.{
  ℕ, ◌+◌, ◌%◌, ◌≡◌, refl, true, false, none, some, [], ◌==◌, if◌then◌else◌, arith, ArtikError, s_ok,
}
use testing.Systemio.Pwm.{PwmConfig}
use testing.Systemio.Pwm.Linux.{
  PwmData, Board, Kernel, os_request, os_release, os_enable, os_set_period, os_set_duty_cycle,
}
use testing.Systemio.Pwm.Linux.Descriptors.{Agrees, descriptors}
use testing.Systemio.Pwm.Linux.Leak.{release-request_descriptors}
use testing.Systemio.Pwm.Linux.Output.{is_on, set-enable}

abbrev kernel : Kernel
kernel = record {
  write_fd = λ events f text. 0;
  open_path = λ events path. (3 + descriptors events) % 1024;
  close_ok = λ events f. true;
  text_memory = λ events. true;
  malloc = λ w. 100;
}

kernel-Agrees : Agrees kernel
kernel-Agrees = record {
  writes = λ events f text. refl;
  opens = λ events path. omega arith;
  closes = λ events f. refl;
  texts = λ events. refl;
}

-- Output 1 of chip 0, with half of its period.
abbrev output : ℕ → PwmConfig
output p = record {
  pin_num = 1;
  name = 0;
  period = 1000;
  duty_cycle = 0;
  polarity = 0;
  user_data = p;
}

abbrev start : Board
start = record { events = []; data_at = λ p. none }

release-request_descriptors_example :
    (c' : PwmConfig) × (w' w'' : Board) × (os_request kernel (output 0) start ≡ some (s_ok, c', w'))
    × (os_release kernel c' w' ≡ some (s_ok, c', w''))
    × (w''.data_at c'.user_data ≡ none)
    × (descriptors w''.events ≡ descriptors start.events + 1)
release-request_descriptors_example =
    release-request_descriptors kernel kernel-Agrees (output 0) start (λ e. omega (arith, e))
      (omega arith)

abbrev descriptors_of : PwmData
descriptors_of = record { fd = λ i. some (3 + i); chip = 0; port = 1 }

abbrev running : Board
running = record { events = []; data_at = λ p. if p == 100 then some descriptors_of else none }

set-enable_example :
    (off : Board) × (os_enable kernel b'0' (output 100) running ≡ some (s_ok, output 100, off))
    × (is_on 5 off.events ≡ false)
    × ((r : ArtikError) × (w' : Board) × (os_set_period kernel 2000 (output 100) off
          ≡ some (r, output 100, w'))
        × (is_on 5 w'.events ≡ true))
    × ((r : ArtikError) × (w' : Board) × (os_set_duty_cycle kernel 300 (output 100) off
          ≡ some (r, output 100, w'))
        × (is_on 5 w'.events ≡ true))
set-enable_example =
    set-enable kernel (output 100) descriptors_of 5 7 6 2000 300 running (λ events text. refl)
      (λ events. refl) refl refl refl refl
