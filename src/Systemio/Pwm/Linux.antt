-- ===== src/Systemio/Pwm/Linux.antt =====
-- src/modules/systemio/pwm/linux_pwm.c: the driver of the PWM outputs under Linux, which writes to
-- the entries of /sys/class/pwm through descriptors that it keeps open.
--
-- The kernel and `malloc` are a record of functions of what happened before. A pointer is a number,
-- 0 for NULL, and an `int` its 32-bit pattern. `none` is a fault; reading a cell of the array of
-- descriptors that was never set counts as one. The structure and its array are one block here.
mod Writes
pub mod Descriptors
pub mod Leak
pub mod Output
mod Examples
unfoldable pub use Writes.*
use testing.Base.{
  ℕ, ◌+◌, ◌-◌, ◌/◌, ◌%◌, ◌^◌, Bool, true, false, ◌||◌, ◌&&◌, not, Option, none, some, List, [], ◌∷◌,
  ◌++◌, ltb, ◌==◌, if◌then◌else◌, ArtikError, s_ok, e_bad_args, e_busy, e_not_initialized, e_no_mem,
  e_overflow, e_interrupted, e_try_again, e_invalid_value, is_ok, codes, decimal, ◌>>=◌,
}
use testing.Systemio.Pwm.{PwmConfig, PwmDriver}

abbrev pub chip_path : ℕ → List ℕ → List ℕ
chip_path chip rest = codes "/sys/class/pwm/pwmchip" ++ decimal chip ++ rest

-- tab_value_path, with its numbers.
abbrev pub path_of : PwmData → ℕ → List ℕ
path_of d i =
    let under : List ℕ → List ℕ =
      λ name. chip_path d.chip (codes "/pwm" ++ decimal d.port ++ name) in
    if i == 0
    then chip_path d.chip (codes "/export")
    else if i == 1
    then chip_path d.chip (codes "/unexport")
    else if i == 2
    then under (codes "/enable")
    else if i == 3
    then under (codes "/duty_cycle")
    else if i == 4
    then under (codes "/period")
    else under (codes "/polarity")

abbrev pub set_fd : ℕ → ℕ → PwmData → PwmData
set_fd i fd' d = record d { fd = λ j. if i == j then some fd' else d.fd j }

-- os_pwm_open at the block `p`: the descriptor or -1, what the block holds now, and the board.
unfoldable pub open_index : Kernel → ℕ → PwmData → ℕ → Board → ℕ × PwmData × Board
open_index k p d i w =
    let fd' = k.open_path w.events (path_of d i) in
    let d' = set_fd i fd' d in
    (fd', d', store p (some d') (if is_negative fd' then w else log (opened fd') w))

-- The close at the end of os_pwm_uexport.
abbrev pub close_after : Kernel → ℕ → Board → Option (ArtikError × Board)
close_after k fd' w =
    some (if k.close_ok w.events fd' then s_ok else e_bad_args, log (closed fd') w)

-- os_pwm_uexport. A close of -1 returns -1.
unfoldable pub export_with : Kernel → ℕ → PwmData → ℕ → Board → Option (ArtikError × Board)
unfolding open_index ioctl_number
export_with k p d i w =
    let r = open_index k p d i w in
    if is_negative r.0
    then some (e_bad_args, r.2)
    else and_then (ioctl_number k r.1 i d.port r.2) (close_after k r.0)

-- The loop of os_pwm_init.
unfoldable pub open_all : Kernel → ℕ → PwmData → List ℕ → Board → Option (ArtikError × Board)
unfolding open_index
open_all k p d [] w = some (s_ok, w)
open_all k p d (i ∷ is) w =
    let r = open_index k p d i w in
    let rest = open_all k p r.1 is r.2 in if is_negative r.0 then some (e_bad_args, r.2) else rest

abbrev pub fresh_data : PwmConfig → PwmData
fresh_data c = record { fd = λ i. none; chip = c.pin_num / 256 % 256; port = c.pin_num % 256 }

abbrev pub busy_unless : Option (ArtikError × Board) → Option (ArtikError × Board)
busy_unless none = none
busy_unless (some r) = some (if is_ok r.0 then s_ok else e_busy, r.1)

abbrev pub at_block : {R : Type 0} → ℕ → (PwmData → Board → Option R) → Board → Option R
at_block p op w = do d ← w.data_at p; op d w

-- os_pwm_init, at the block that `malloc` returned.
unfoldable pub init : Kernel → PwmConfig → ℕ → Board → Option (ArtikError × Board)
unfolding export_with open_all
init k c p w =
    let start = store p (some (fresh_data c)) w in
    if p == 0
    then none
    else and_then (busy_unless (export_with k p (fresh_data c) export_index start)) (
        at_block p
          (λ d. open_all k p d (enable_index ∷ cycle_index ∷ period_index ∷ polarity_index ∷ [])))

-- The loop of os_pwm_clean.
unfoldable pub close_all : PwmData → List ℕ → Board → Option Board
close_all d [] w = some w
close_all d (i ∷ is) w = do
  fd' ← d.fd i
  close_all d is (if fd' == 2 ^ 32 - 1 then w else log (closed fd') w)

-- os_pwm_clean of a block: the array has one more descriptor than the loop closes.
unfoldable pub clean : ℕ → PwmData → Board → Option Board
unfolding close_all
clean p d w = do
  w' ← close_all d (enable_index ∷ cycle_index ∷ period_index ∷ []) w
  some (store p none w')

unfoldable pub release_data : Kernel → ℕ → PwmData → Board → Option (ArtikError × Board)
unfolding set_number enable_data export_with
release_data k p d w =
    and_then (and_then (set_number k d cycle_index 0 w) (enable_data k d b'0'))
      (export_with k p d unexport_index)

-- os_pwm_release: it cleans up and returns S_OK, whatever failed before.
unfoldable pub os_release : Kernel → PwmConfig → Board → Option (ArtikError × PwmConfig × Board)
unfolding release_data clean
os_release k c w = do
  d ← w.data_at c.user_data
  r ← release_data k c.user_data d w
  d' ← r.1.data_at c.user_data
  w' ← clean c.user_data d' r.1
  some (s_ok, c, w')

-- What a request does after os_pwm_init.
unfoldable pub configure : Kernel → PwmConfig → PwmData → Board → Option (ArtikError × Board)
unfolding enable_data set_polarity_data set_number
configure k c d w =
    and_then
      (and_then (and_then (enable_data k d b'1' w) (set_polarity_data k d c.polarity))
        (set_number k d period_index c.period))
      (set_number k d cycle_index c.duty_cycle)

-- The end of a request: a failure is undone by a release.
abbrev pub settle :
    Kernel → PwmConfig → Option (ArtikError × Board) → Option (ArtikError × PwmConfig × Board)
settle k c none = none
settle k c (some r) =
    if is_ok r.0
    then some (s_ok, c, r.1)
    else do undone ← os_release k c r.1; some (e_bad_args, c, undone.2)

-- The configuration with a duty cycle, and its block.
abbrev pub with_duty : PwmConfig → ℕ → PwmConfig
with_duty c p = record c {
  duty_cycle = if c.duty_cycle == 0 then c.period / 2 else c.duty_cycle;
  user_data = p;
}

-- os_pwm_request.
unfoldable pub os_request : Kernel → PwmConfig → Board → Option (ArtikError × PwmConfig × Board)
unfolding init configure os_release
os_request k c w =
    let p = k.malloc w in
    let c' = with_duty c p in settle k c' (and_then (init k c' p w) (at_block p (configure k c')))

-- os_pwm_enable and its siblings, on a configuration.
abbrev pub with_config :
    PwmConfig → Option (ArtikError × Board) → Option (ArtikError × PwmConfig × Board)
with_config c none = none
with_config c (some r) = some (r.0, c, r.1)

unfoldable pub os_enable : Kernel → ℕ → PwmConfig → Board → Option (ArtikError × PwmConfig × Board)
unfolding enable_data
os_enable k value c w = with_config c (at_block c.user_data (λ d. enable_data k d value) w)

unfoldable pub os_set_period :
    Kernel → ℕ → PwmConfig → Board → Option (ArtikError × PwmConfig × Board)
unfolding set_number
os_set_period k value c w =
    with_config c (at_block c.user_data (λ d. set_number k d period_index value) w)

unfoldable pub os_set_polarity :
    Kernel → ℕ → PwmConfig → Board → Option (ArtikError × PwmConfig × Board)
unfolding set_polarity_data
os_set_polarity k value c w =
    with_config c (at_block c.user_data (λ d. set_polarity_data k d value) w)

unfoldable pub os_set_duty_cycle :
    Kernel → ℕ → PwmConfig → Board → Option (ArtikError × PwmConfig × Board)
unfolding set_number
os_set_duty_cycle k value c w =
    with_config c (at_block c.user_data (λ d. set_number k d cycle_index value) w)

-- The driver on a system that is none once the program faulted.
abbrev pub settled :
    PwmConfig → Option (ArtikError × PwmConfig × Board) → ArtikError × PwmConfig × Option Board
settled c none = (e_busy, c, none)
settled c (some r) = (r.0, r.1, some r.2)

abbrev pub on_board :
    (PwmConfig → Board → Option (ArtikError × PwmConfig × Board))
    → PwmConfig
    → Option Board
    → ArtikError × PwmConfig × Option Board
on_board op c none = (e_busy, c, none)
on_board op c (some w) = settled c (op c w)

abbrev pub linux_pwm : Kernel → PwmDriver (Option Board)
linux_pwm k = record {
  base = record { os_request = on_board (os_request k); os_release = on_board (os_release k) };
  os_enable = λ value. on_board (os_enable k value);
  os_set_period = λ value. on_board (os_set_period k value);
  os_set_polarity = λ value. on_board (os_set_polarity k value);
  os_set_duty_cycle = λ value. on_board (os_set_duty_cycle k value);
}
