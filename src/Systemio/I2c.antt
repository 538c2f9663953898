-- ===== src/Systemio/I2c.antt =====
-- src/modules/systemio/i2c/artik_i2c.c: one node for each slave address on each bus.
-- The driver is os_i2c.h's, `blank` is the zeroed configuration of a new node, `size` is
-- sizeof(i2c_node), and `m` is what `malloc` returned. An `int` stands as its 32-bit pattern.
pub mod Slaves
pub mod Calls
use testing.Base.{ℕ, Bool, List, [], ◌==◌, ◌&&◌, ArtikError, e_bad_args}
use testing.Systemio.Registry.{Driver, State, Requested, request_node, release_node, on_node}

pub record I2cConfig : Type 0 where
  pub id : ℕ
  pub frequency : ℕ
  pub wordsize : ℕ
  pub address : ℕ

pub record I2cDriver (W : Type 0) : Type 0 where
  pub base : Driver I2cConfig W
  pub os_read : ℕ → I2cConfig → W → (ArtikError × List ℕ) × I2cConfig × W
  pub os_write : List ℕ → I2cConfig → W → ArtikError × I2cConfig × W
  pub os_read_register : ℕ → ℕ → I2cConfig → W → (ArtikError × List ℕ) × I2cConfig × W
  pub os_write_register : ℕ → List ℕ → I2cConfig → W → ArtikError × I2cConfig × W

abbrev pub check_exist : I2cConfig → I2cConfig → Bool
check_exist elem config = elem.id == config.id && elem.address == config.address

module _ {W : Type 0} (os : I2cDriver W) where
  unfoldable pub request :
      I2cConfig → ℕ → ℕ → I2cConfig → State I2cConfig W → Requested I2cConfig × State I2cConfig W
  request = request_node check_exist (λ error. error) os.base

  unfoldable pub release : ℕ → State I2cConfig W → ArtikError × State I2cConfig W
  release = release_node os.base

  unfoldable pub read : ℕ → ℕ → State I2cConfig W → (ArtikError × List ℕ) × State I2cConfig W
  read handle len = on_node (e_bad_args, []) (os.os_read len) handle

  unfoldable pub write : ℕ → List ℕ → State I2cConfig W → ArtikError × State I2cConfig W
  write handle buf = on_node e_bad_args (os.os_write buf) handle

  unfoldable pub read_register :
      ℕ → ℕ → ℕ → State I2cConfig W → (ArtikError × List ℕ) × State I2cConfig W
  read_register handle reg len = on_node (e_bad_args, []) (os.os_read_register reg len) handle

  unfoldable pub write_register :
      ℕ → ℕ → List ℕ → State I2cConfig W → ArtikError × State I2cConfig W
  write_register handle reg buf = on_node e_bad_args (os.os_write_register reg buf) handle
