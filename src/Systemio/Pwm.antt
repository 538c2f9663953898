-- ===== src/Systemio/Pwm.antt =====
-- src/modules/systemio/pwm/artik_pwm.c: one node for each output pin.
-- The driver is os_pwm.h's, `blank` is the zeroed configuration of a new node, `size` is
-- sizeof(pwm_node), and `m` is what `malloc` returned. An `int` stands as its 32-bit pattern.
pub mod Linux
use testing.Base.{ℕ, Bool, ◌==◌, ArtikError, e_bad_args}
use testing.Systemio.Registry.{Driver, State, Requested, request_node, release_node, on_node}

pub record PwmConfig : Type 0 where
  pub pin_num : ℕ
  pub name : ℕ
  pub period : ℕ
  pub duty_cycle : ℕ
  pub polarity : ℕ
  pub user_data : ℕ

pub record PwmDriver (W : Type 0) : Type 0 where
  pub base : Driver PwmConfig W
  pub os_enable : ℕ → PwmConfig → W → ArtikError × PwmConfig × W
  pub os_set_period : ℕ → PwmConfig → W → ArtikError × PwmConfig × W
  pub os_set_polarity : ℕ → PwmConfig → W → ArtikError × PwmConfig × W
  pub os_set_duty_cycle : ℕ → PwmConfig → W → ArtikError × PwmConfig × W

abbrev pub check_exist : PwmConfig → PwmConfig → Bool
check_exist elem config = elem.pin_num == config.pin_num

module _ {W : Type 0} (os : PwmDriver W) where
  unfoldable pub request :
      PwmConfig → ℕ → ℕ → PwmConfig → State PwmConfig W → Requested PwmConfig × State PwmConfig W
  request = request_node check_exist (λ error. error) os.base

  unfoldable pub release : ℕ → State PwmConfig W → ArtikError × State PwmConfig W
  release = release_node os.base

  unfoldable pub enable : ℕ → State PwmConfig W → ArtikError × State PwmConfig W
  enable handle = on_node e_bad_args (os.os_enable b'1') handle

  unfoldable pub disable : ℕ → State PwmConfig W → ArtikError × State PwmConfig W
  disable handle = on_node e_bad_args (os.os_enable b'0') handle

  unfoldable pub set_period : ℕ → ℕ → State PwmConfig W → ArtikError × State PwmConfig W
  set_period handle value = on_node e_bad_args (os.os_set_period value) handle

  unfoldable pub set_polarity : ℕ → ℕ → State PwmConfig W → ArtikError × State PwmConfig W
  set_polarity handle value = on_node e_bad_args (os.os_set_polarity value) handle

  unfoldable pub set_duty_cycle : ℕ → ℕ → State PwmConfig W → ArtikError × State PwmConfig W
  set_duty_cycle handle value = on_node e_bad_args (os.os_set_duty_cycle value) handle
