-- ===== src/Systemio/Serial.antt =====
-- src/modules/systemio/serial/artik_serial.c: one node for each port.
-- The driver is os_serial.h's, `blank` is the zeroed configuration of a new node, `size` is
-- sizeof(serial_node), and `m` is what `malloc` returned. An `int` stands as its 32-bit pattern.
use testing.Base.{ℕ, Bool, List, [], ◌==◌, ArtikError, e_bad_args}
use testing.Systemio.Registry.{Driver, State, Requested, request_node, release_node, on_node}

pub record SerialConfig : Type 0 where
  pub port_num : ℕ
  pub name : ℕ
  pub baudrate : ℕ
  pub parity : ℕ
  pub data_bits : ℕ
  pub stop_bits : ℕ
  pub flowctrl : ℕ
  pub data_user : ℕ

pub record SerialDriver (W : Type 0) : Type 0 where
  pub base : Driver SerialConfig W
  pub os_read : ℕ → SerialConfig → W → (ArtikError × List ℕ) × SerialConfig × W
  pub os_write : List ℕ → SerialConfig → W → (ArtikError × ℕ) × SerialConfig × W
  pub os_set_received_callback : ℕ → ℕ → SerialConfig → W → ArtikError × SerialConfig × W
  pub os_unset_received_callback : SerialConfig → W → ArtikError × SerialConfig × W

abbrev pub check_exist : SerialConfig → SerialConfig → Bool
check_exist elem config = elem.port_num == config.port_num

module _ {W : Type 0} (os : SerialDriver W) where
  unfoldable pub request :
      SerialConfig
      → ℕ
      → ℕ
      → SerialConfig
      → State SerialConfig W
      → Requested SerialConfig × State SerialConfig W
  request = request_node check_exist (λ error. error) os.base

  unfoldable pub release : ℕ → State SerialConfig W → ArtikError × State SerialConfig W
  release = release_node os.base

  unfoldable pub read : ℕ → ℕ → State SerialConfig W → (ArtikError × List ℕ) × State SerialConfig W
  read handle len = on_node (e_bad_args, []) (os.os_read len) handle

  unfoldable pub write :
      ℕ → List ℕ → ℕ → State SerialConfig W → (ArtikError × ℕ) × State SerialConfig W
  write handle buf len = on_node (e_bad_args, len) (os.os_write buf) handle

  unfoldable pub set_received_callback :
      ℕ → ℕ → ℕ → State SerialConfig W → ArtikError × State SerialConfig W
  set_received_callback handle callback user_data =
      on_node e_bad_args (os.os_set_received_callback callback user_data) handle

  unfoldable pub unset_received_callback :
      ℕ → State SerialConfig W → ArtikError × State SerialConfig W
  unset_received_callback handle = on_node e_bad_args (os.os_unset_received_callback) handle
