-- ===== src/Systemio/Spi.antt =====
-- src/modules/systemio/spi/artik_spi.c: one node for each bus.
-- The driver is os_spi.h's, `blank` is the zeroed configuration of a new node, `size` is
-- sizeof(spi_node), and `m` is what `malloc` returned. An `int` stands as its 32-bit pattern.
use testing.Base.{ℕ, Bool, List, [], ◌==◌, ArtikError, e_bad_args}
use testing.Systemio.Registry.{Driver, State, Requested, request_node, release_node, on_node}

pub record SpiConfig : Type 0 where
  pub bus : ℕ
  pub cs : ℕ
  pub mode : ℕ
  pub bits_per_word : ℕ
  pub max_speed : ℕ

pub record SpiDriver (W : Type 0) : Type 0 where
  pub base : Driver SpiConfig W
  pub os_read : ℕ → SpiConfig → W → (ArtikError × List ℕ) × SpiConfig × W
  pub os_write : List ℕ → SpiConfig → W → ArtikError × SpiConfig × W
  pub os_read_write : List ℕ → SpiConfig → W → (ArtikError × List ℕ) × SpiConfig × W

abbrev pub check_exist : SpiConfig → SpiConfig → Bool
check_exist elem config = elem.bus == config.bus

module _ {W : Type 0} (os : SpiDriver W) where
  unfoldable pub request :
      SpiConfig → ℕ → ℕ → SpiConfig → State SpiConfig W → Requested SpiConfig × State SpiConfig W
  request = request_node check_exist (λ error. error) os.base

  unfoldable pub release : ℕ → State SpiConfig W → ArtikError × State SpiConfig W
  release = release_node os.base

  unfoldable pub read : ℕ → ℕ → State SpiConfig W → (ArtikError × List ℕ) × State SpiConfig W
  read handle len = on_node (e_bad_args, []) (os.os_read len) handle

  unfoldable pub write : ℕ → List ℕ → State SpiConfig W → ArtikError × State SpiConfig W
  write handle buf = on_node e_bad_args (os.os_write buf) handle

  unfoldable pub read_write :
      ℕ → List ℕ → State SpiConfig W → (ArtikError × List ℕ) × State SpiConfig W
  read_write handle tx_buf = on_node (e_bad_args, []) (os.os_read_write tx_buf) handle
