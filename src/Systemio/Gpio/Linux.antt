-- ===== src/Systemio/Gpio/Linux.antt =====
-- src/modules/systemio/gpio/linux_gpio.c: the driver of the pins under Linux, which writes to the
-- entries of /sys/class/gpio and watches them through the loop module.
--
-- The kernel, `malloc` and the loop module are a record of functions of what happened before. A
-- pointer is a number, 0 for NULL, and an `int` its 32-bit pattern.
mod Entries
pub mod Sysfs
pub mod Backed
pub mod Pins
pub mod Stands
pub mod Requests
pub mod Calls
pub mod Callbacks
mod Examples
unfoldable pub use Entries.*
use testing.Base.{
  ℕ, ◌^◌, ◌-◌, Bool, true, false, ◌||◌, Option, none, some, List, [], ◌∷◌, ◌++◌, ltb, ◌==◌,
  if◌then◌else◌, ArtikError, s_ok, e_bad_args, e_busy, e_access_denied, is_ok, codes, decimal,
  ◌>>=◌,
}
use testing.Systemio.Registry.{Driver}
use testing.Systemio.Gpio.{
  Direction, gpio_out, gpio_in, dir_invalid, Edge, edge_none, edge_rising, edge_falling, edge_both,
  edge_invalid, GpioConfig, Level, failed, level, GpioDriver,
}

abbrev pub is_dir_invalid : Direction → Bool
is_dir_invalid dir_invalid = true
is_dir_invalid _ = false

abbrev pub is_edge_invalid : Edge → Bool
is_edge_invalid edge_invalid = true
is_edge_invalid _ = false

abbrev pub is_bad : GpioConfig → Bool
is_bad c = ltb (2 ^ 31 - 1) c.id || is_dir_invalid c.dir || is_edge_invalid c.edge

abbrev pub unexport : Kernel → GpioConfig → Board → Board
unexport k c w = (write_sysfs_entry k unexport_path (decimal c.id) w).1

-- EACCES is 13.
unfoldable pub os_request : Kernel → GpioConfig → Board → ArtikError × GpioConfig × Board
os_request k c w =
    let r = write_all k (request_entries c) w in
    let p = k.malloc r.1 in
    if is_bad c
    then (e_bad_args, c, w)
    else if r.0 == 0
    then (if p == 0
        then (e_busy, c, unexport k c r.1)
        else (s_ok, record c { user_data = p }, store p (some zeros) r.1))
    else (if r.0 == 13 then e_access_denied else e_busy, c, unexport k c r.1)

-- A block given back. It faults where the address holds none.
abbrev pub free : ℕ → Board → Option Board
free p w = do _ ← w.data_at p; some (store p none w)

-- The pin is unexported twice.
unfoldable pub os_release : Kernel → GpioConfig → Board → Option (ArtikError × GpioConfig × Board)
os_release k c w =
    let w' = unexport k c (unexport k c w) in
    if c.user_data == 0
    then some (s_ok, c, w')
    else do w'' ← free c.user_data w'; some (s_ok, record c { user_data = 0 }, w'')

-- A byte is 48 for '0', 49 for '1'. A -1 is E_BAD_ARGS.
abbrev pub level_of : Option ℕ → Level
level_of none = failed e_bad_args
level_of (some byte) =
    if byte == 48 then level 0 else if byte == 49 then level 1 else failed e_bad_args

abbrev pub is_in : Direction → Bool
is_in gpio_in = true
is_in _ = false

abbrev pub is_out : Direction → Bool
is_out gpio_out = true
is_out _ = false

unfoldable pub os_read : Kernel → GpioConfig → Board → Level × GpioConfig × Board
os_read k c w =
    let byte = k.read_entry w.events (attribute c.id (codes "value")) in
    if is_in c.dir then (level_of byte, c, w) else (failed e_access_denied, c, w)

unfoldable pub os_write : Kernel → ℕ → GpioConfig → Board → ArtikError × GpioConfig × Board
os_write k value c w =
    let text = if value == 0 then codes "0" else codes "1" in
    let r = write_sysfs_entry k (attribute c.id (codes "value")) text w in
    if is_out c.dir then (if r.0 == 0 then s_ok else e_busy, c, r.1) else (e_access_denied, c, w)

-- The label `exit` of os_gpio_set_change_callback, after a failure.
abbrev pub give_up : ArtikError → ℕ → GpioData → Board → ArtikError × Board
give_up error p d w =
    let closed = log (fd_closed d.fd) (if d.loop == 0 then w else log (loop_released d.loop) w) in
    (error, store p (some (record d { fd = 0; loop = 0 })) closed)

-- add_fd_watch, at the loop module that was requested. (void *)-1 is no module.
abbrev pub watch : Kernel → ℕ → GpioData → Board → Option (ArtikError × Board)
watch k p d w =
    let r = k.add_fd_watch w.events d.fd p in
    let d' = record d { watch_id = r.1 } in
    let added = store p (some d') (log (watch_added r.1) w) in
    if d.loop == 0
    then some (give_up e_busy p d w)
    else if d.loop == 2 ^ 64 - 1
    then none
    else if is_ok r.0
    then some (s_ok, added)
    else some (give_up r.0 p d' w)

abbrev pub set_in : Kernel → ℕ → ℕ → GpioConfig → GpioData → Board → Option (ArtikError × Board)
set_in k callback user_data c d w =
    let p = c.user_data in
    let fd' = k.open_entry w.events (attribute c.id (codes "value")) in
    let opened = log (fd_opened fd') w in
    let d' = record d { fd = fd'; callback = callback; user_data = user_data } in
    let loop' = k.request_loop opened.events in
    let asked = log (loop_requested loop') opened in
    let watched = watch k p (record d' { loop = loop' }) asked in
    if fd' == 0
    then some (e_busy, store p (some (record d { fd = 0 })) opened)
    else elim (k.read_fd opened.events fd') [
      | none ↦ some (give_up e_access_denied p d' opened)
      | some _ ↦ watched
    ]

abbrev pub with_config :
    {R : Type 0} → GpioConfig → Option (R × Board) → Option (R × GpioConfig × Board)
with_config c none = none
with_config c (some r) = some (r.0, c, r.1)

unfoldable pub os_set_change_callback :
    Kernel → ℕ → ℕ → GpioConfig → Board → Option (ArtikError × GpioConfig × Board)
os_set_change_callback k callback user_data c w =
    if is_in c.dir
    then with_config c (do d ← w.data_at c.user_data; set_in k callback user_data c d w)
    else some (e_bad_args, c, w)

-- The loop module is requested whether it is needed or not, and released once.
abbrev pub unset_asked : Kernel → Board → Board
unset_asked k w = log (loop_requested (k.request_loop w.events)) w

abbrev pub unset_closed : Kernel → GpioData → Board → Board
unset_closed k d w = log (fd_closed d.fd) (unset_asked k w)

-- What is released is what this request returned. It is only logged: that the manager would read
-- through NULL, if the module could not be requested again, is left out.
abbrev pub unset_removed : Kernel → GpioData → Board → Board
unset_removed k d w =
    log (loop_released (k.request_loop w.events))
      (log (watch_removed d.watch_id) (unset_closed k d w))

abbrev pub unset_in : Kernel → GpioConfig → GpioData → Board → Board
unset_in k c d w =
    if d.fd == 0
    then unset_asked k w
    else (if d.loop == 0
        then store c.user_data (some zeros) (unset_closed k d w)
        else store c.user_data (some zeros) (unset_removed k d w))

unfoldable pub os_unset_change_callback :
    Kernel → GpioConfig → Board → Option (Unit {0} × GpioConfig × Board)
os_unset_change_callback k c w = do d ← w.data_at c.user_data; some (tt, c, unset_in k c d w)

-- os_gpio_change_callback, which the loop calls: its result, and the call of the user's function
-- with its argument and the level. `p` is the watch's user data.
unfoldable pub os_change_callback : Kernel → ℕ → Board → Option (ℕ × Option (ℕ × ℕ × ℕ))
os_change_callback k p w = if p == 0 then some (0, none) else do
  d ← w.data_at p
  some (elim (k.read_fd w.events d.fd) [
    | none ↦ (0, none)
    | some byte ↦ (
      1,
      if d.callback == 0 then none else some (d.callback, d.user_data, if byte == 48 then 0 else 1),
    )
  ])

-- The driver on a system that is none once the program faulted.
abbrev pub settled :
    {R : Type 0} → R → GpioConfig → Option (R × GpioConfig × Board) → R × GpioConfig × Option Board
settled missing c none = (missing, c, none)
settled missing c (some r) = (r.0, r.1, some r.2)

abbrev pub on_board :
    {R : Type 0}
    → R
    → (GpioConfig → Board → Option (R × GpioConfig × Board))
    → GpioConfig
    → Option Board
    → R × GpioConfig × Option Board
on_board missing op c none = (missing, c, none)
on_board missing op c (some w) = settled missing c (op c w)

abbrev pub linux_gpio : Kernel → GpioDriver (Option Board)
linux_gpio k = record {
  base = record {
    os_request = on_board e_busy (λ c w. some (os_request k c w));
    os_release = on_board e_busy (os_release k);
  };
  os_read = on_board (failed e_busy) (λ c w. some (os_read k c w));
  os_write = λ value. on_board e_busy (λ c w. some (os_write k value c w));
  os_set_change_callback =
      λ callback user_data. on_board e_busy (os_set_change_callback k callback user_data);
  os_unset_change_callback = on_board tt (os_unset_change_callback k);
}
