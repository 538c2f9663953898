-- ===== src/Systemio/Gpio.antt =====
-- src/modules/systemio/gpio/artik_gpio.c: one node for each pin.
-- The driver is os_gpio.h's, `blank` is the zeroed configuration of a new node, `size` is
-- sizeof(gpio_node), and `m` is what `malloc` returned. An `int` stands as its 32-bit pattern.
pub mod Calls
pub mod Linux
use testing.Base.{ℕ, Bool, none, some, ◌==◌, ◌^◌, ◌-◌, if◌then◌else◌, ArtikError, e_bad_args}
use testing.ArtikList.{null}
use testing.Systemio.Nodes.{by_handle, entry_at}
use testing.Systemio.Registry.{Driver, State, Requested, request_node, release_node, on_node}

pub data Direction : Type 0 where
  gpio_out gpio_in dir_invalid : Direction

pub data Edge : Type 0 where
  edge_none edge_rising edge_falling edge_both edge_invalid : Edge

pub record GpioConfig : Type 0 where
  pub id : ℕ
  pub name : ℕ
  pub dir : Direction
  pub edge : Edge
  pub initial_value : ℕ
  pub user_data : ℕ

-- The result of a read: an error or the level of the pin.
pub data Level : Type 0 where
  failed : ArtikError → Level
  level : ℕ → Level

pub record GpioDriver (W : Type 0) : Type 0 where
  pub base : Driver GpioConfig W
  pub os_read : GpioConfig → W → Level × GpioConfig × W
  pub os_write : ℕ → GpioConfig → W → ArtikError × GpioConfig × W
  pub os_set_change_callback : ℕ → ℕ → GpioConfig → W → ArtikError × GpioConfig × W
  pub os_unset_change_callback : GpioConfig → W → Unit {0} × GpioConfig × W

abbrev pub check_exist : GpioConfig → GpioConfig → Bool
check_exist elem config = elem.id == config.id

module _ {W : Type 0} where
  -- A field of the configuration of the node with a handle.
  unfoldable pub field {ℓ} : {R : Type ℓ} → R → (GpioConfig → R) → ℕ → State GpioConfig W → R
  field missing read handle s =
      let node = by_handle handle s.nodes in
      if node == null
      then missing
      else elim (entry_at node s.nodes) [ none ↦ missing | some e ↦ read e.payload ]

  unfoldable pub get_name : ℕ → State GpioConfig W → ℕ
  get_name = field null (λ c. c.name)

  unfoldable pub get_direction : ℕ → State GpioConfig W → Direction
  get_direction = field dir_invalid (λ c. c.dir)

  -- An unknown handle gives -1, as an `unsigned int`.
  unfoldable pub get_id : ℕ → State GpioConfig W → ℕ
  get_id = field (2 ^ 32 - 1) (λ c. c.id)

module _ {W : Type 0} (os : GpioDriver W) where
  -- Whatever the driver's error, the request answers E_BAD_ARGS.
  unfoldable pub request :
      GpioConfig
      → ℕ
      → ℕ
      → GpioConfig
      → State GpioConfig W
      → Requested GpioConfig × State GpioConfig W
  request = request_node check_exist (λ _. e_bad_args) os.base

  unfoldable pub release : ℕ → State GpioConfig W → ArtikError × State GpioConfig W
  release = release_node os.base

  unfoldable pub read : ℕ → State GpioConfig W → Level × State GpioConfig W
  read handle = on_node (failed e_bad_args) os.os_read handle

  unfoldable pub write : ℕ → ℕ → State GpioConfig W → ArtikError × State GpioConfig W
  write handle value = on_node e_bad_args (os.os_write value) handle

  unfoldable pub set_change_callback :
      ℕ → ℕ → ℕ → State GpioConfig W → ArtikError × State GpioConfig W
  set_change_callback handle callback user_data =
      on_node e_bad_args (os.os_set_change_callback callback user_data) handle

  unfoldable pub unset_change_callback : ℕ → State GpioConfig W → Unit {0} × State GpioConfig W
  unset_change_callback handle = on_node tt os.os_unset_change_callback handle
