-- ===== src/Systemio/Gpio/Linux/Entries.antt =====
-- What linux_gpio.c keeps for a pin, and the writes to the entries of /sys/class/gpio.
use testing.Base.{ℕ, Option, List, [], ◌∷◌, ◌++◌, ◌==◌, if◌then◌else◌, ArtikError, codes, decimal}
use testing.Systemio.Gpio.{
  Direction, gpio_out, gpio_in, dir_invalid, Edge, edge_rising, edge_falling, edge_both, GpioConfig,
}

-- os_gpio_data.
pub record GpioData : Type 0 where
  pub watch_id : ℕ
  pub fd : ℕ
  pub callback : ℕ
  pub user_data : ℕ
  pub loop : ℕ

abbrev pub zeros : GpioData
zeros = record { watch_id = 0; fd = 0; callback = 0; user_data = 0; loop = 0 }

-- What the driver did: it wrote a text to an entry with an `errno` (0 for a success), opened or
-- closed a descriptor, requested or released the loop module, added or removed a watch.
pub data Event : Type 0 where
  wrote : List ℕ → List ℕ → ℕ → Event
  fd_opened fd_closed loop_requested loop_released watch_added watch_removed : ℕ → Event

-- The past, the newest event first, and the blocks with the driver's data.
pub record Board : Type 0 where
  pub events : List Event
  pub data_at : ℕ → Option GpioData

-- What the driver calls. A read gives the first byte of an entry, `none` for an error.
pub record Kernel : Type 0 where
  pub write_entry : List Event → List ℕ → List ℕ → ℕ
  pub read_entry : List Event → List ℕ → Option ℕ
  pub open_entry : List Event → List ℕ → ℕ
  pub read_fd : List Event → ℕ → Option ℕ
  pub malloc : Board → ℕ
  pub request_loop : List Event → ℕ
  pub add_fd_watch : List Event → ℕ → ℕ → ArtikError × ℕ

abbrev pub export_path : List ℕ
export_path = codes "/sys/class/gpio/export"

abbrev pub unexport_path : List ℕ
unexport_path = codes "/sys/class/gpio/unexport"

-- The path of an attribute of a pin.
abbrev pub attribute : ℕ → List ℕ → List ℕ
attribute id name = codes "/sys/class/gpio/gpio" ++ decimal id ++ codes "/" ++ name

abbrev pub log : Event → Board → Board
log event w = record w { events = event ∷ w.events }

abbrev pub store : ℕ → Option GpioData → Board → Board
store p d w = record w { data_at = λ q. if p == q then d else w.data_at q }

-- write_sysfs_entry: the `errno`, 0 for a success.
abbrev pub write_sysfs_entry : Kernel → List ℕ → List ℕ → Board → ℕ × Board
write_sysfs_entry k path value w =
    let errno = k.write_entry w.events path value in (errno, log (wrote path value errno) w)

-- Writes one after the other, up to the first that fails.
unfoldable pub write_all : Kernel → List (List ℕ × List ℕ) → Board → ℕ × Board
write_all k [] w = (0, w)
write_all k ((path, value) ∷ entries) w =
    let r = write_sysfs_entry k path value w in
    let rest = write_all k entries r.1 in if r.0 == 0 then rest else r

abbrev pub edge_value : Edge → List ℕ
edge_value edge_rising = codes "rising"
edge_value edge_falling = codes "falling"
edge_value edge_both = codes "both"
edge_value _ = codes "none"

-- The initial value of an output, the edge of an input.
abbrev pub value_or_edge : GpioConfig → Direction → List (List ℕ × List ℕ)
value_or_edge c gpio_out =
    (attribute c.id (codes "value"), if c.initial_value == 0 then codes "0" else codes "1") ∷ []
value_or_edge c gpio_in = (attribute c.id (codes "edge"), edge_value c.edge) ∷ []
value_or_edge c dir_invalid = []

abbrev pub direction_text : Direction → List ℕ
direction_text gpio_out = codes "out"
direction_text _ = codes "in"

-- What a request writes, in order.
abbrev pub request_entries : GpioConfig → List (List ℕ × List ℕ)
request_entries c =
    (export_path, decimal c.id)
    ∷ (attribute c.id (codes "direction"), direction_text c.dir)
    ∷ value_or_edge c c.dir
