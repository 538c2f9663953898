-- ===== src/Systemio/Gpio/Linux/Examples.antt =====
-- The theorems on linux_gpio.c with a kernel that agrees to everything, and one block of memory.
use testing.Base.{
  ℕ, ◌+◌, ◌≡◌, refl, none, some, List, [], ◌∷◌, arith, s_ok, Option-cases, inl, inr, Option,
}
use testing.Systemio.Registry.{State}
use testing.Systemio.Gpio.{GpioConfig, gpio_in, edge_both}
use testing.Systemio.Gpio.Calls.{
  Call, requests, releases, reads, writes, sets_change_callback, unsets_change_callback, run,
}
use testing.Systemio.Gpio.Linux.{
  GpioData, zeros, Board, Kernel, linux_gpio, store, log, watch_added, loop_requested, fd_opened,
  os_set_change_callback, os_unset_change_callback,
}
use testing.Systemio.Gpio.Linux.Backed.{IsKernel}
use testing.Systemio.Gpio.Linux.Stands.{Stands}
use testing.Systemio.Gpio.Linux.Calls.{linux_run-Stands}
use testing.Systemio.Gpio.Linux.Callbacks.{loop_references, unset-set}

abbrev block_of : Option GpioData → ℕ
block_of none = 100
block_of (some d) = 0

abbrev kernel : Kernel
kernel = record {
  write_entry = λ events path text. 0;
  read_entry = λ events path. some 49;
  open_entry = λ events path. 7;
  read_fd = λ events fd'. some 48;
  malloc = λ w. block_of (w.data_at 100);
  request_loop = λ events. 900;
  add_fd_watch = λ events fd' p. (s_ok, 1);
}

kernel-IsKernel : IsKernel kernel
kernel-IsKernel = record {
  malloc_free = λ w n. elim (Option-cases (w.data_at 100)) [
    | inl free ↦ rw free free
    | inr (d, held) ↦ absurd (n (rw held refl))
  ];
  loop_there = λ events e. omega (arith, e);
}

abbrev button : ℕ → GpioConfig
button p = record {
  id = 13;
  name = 0;
  dir = gpio_in;
  edge = edge_both;
  initial_value = 0;
  user_data = p;
}

abbrev start : Board
start = record { events = []; data_at = λ p. none }

abbrev fresh : State GpioConfig (Option Board)
fresh = record { nodes = []; world = some start }

fresh-Stands : Stands fresh
fresh-Stands = record {
  board = start;
  running = refl;
  valid = record { handled = tt; exclusive = tt };
  backed = tt;
  apart = tt;
}

-- A pin is requested, watched, read and given back.
abbrev calls : List Call
calls =
    requests (button 0) 64 16 (button 0)
    ∷ sets_change_callback 16 5 6
    ∷ reads 16
    ∷ writes 16 1
    ∷ unsets_change_callback 16
    ∷ releases 16
    ∷ []

linux_run-Stands_example : Stands (run (linux_gpio kernel) fresh calls)
linux_run-Stands_example =
    linux_run-Stands kernel kernel-IsKernel fresh calls (tt, (tt, (tt, (tt, (tt, (tt, tt))))))
      fresh-Stands

abbrev held_board : Board
held_board = store 100 (some zeros) start

abbrev watched : GpioData
watched = record { watch_id = 1; fd = 7; callback = 5; user_data = 6; loop = 900 }

abbrev set_board : Board
set_board =
    store 100 (some watched)
      (log (watch_added 1) (log (loop_requested 900) (log (fd_opened 7) held_board)))

unset-set_example :
    (w'' : Board) × (os_unset_change_callback kernel (button 100) set_board
      ≡ some (tt, button 100, w''))
    × (w''.data_at 100 ≡ some zeros)
    × (loop_references 900 w''.events ≡ loop_references 900 held_board.events + 1)
unfolding os_set_change_callback
unset-set_example =
    unset-set kernel 5 6 900 (button 100) (button 100) held_board set_board (λ events. refl) refl
