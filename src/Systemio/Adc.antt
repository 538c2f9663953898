-- ===== src/Systemio/Adc.antt =====
-- src/modules/systemio/adc/artik_adc.c: one node for each analog input.
-- The driver is os_adc.h's, `blank` is the zeroed configuration of a new node, `size` is
-- sizeof(adc_node), and `m` is what `malloc` returned. An `int` stands as its 32-bit pattern.
pub mod Laws
use testing.Base.{
  ℕ, Bool, Option, none, some, ◌==◌, not, if◌then◌else◌, ArtikError, s_ok, e_bad_args, e_busy,
  is_ok,
}
use testing.ArtikList.{null}
use testing.ArtikList.Abstract.{find}
use testing.Systemio.Nodes.{added, modify}
use testing.Systemio.Registry.{Driver, State, Requested, requested, fill, release_node, on_node}

pub record AdcConfig : Type 0 where
  pub pin_num : ℕ
  pub name : ℕ
  pub user_data : ℕ

pub record AdcDriver (W : Type 0) : Type 0 where
  pub base : Driver AdcConfig W
  pub os_get_value : AdcConfig → W → (ArtikError × Option ℕ) × AdcConfig × W

abbrev pub check_exist : AdcConfig → AdcConfig → Bool
check_exist elem config = elem.pin_num == config.pin_num

module _ {W : Type 0} (os : AdcDriver W) where
  -- The driver is asked first. The result of `artik_list_add` is written through without a test:
  -- `none` is the fault that this is when there is no memory.
  unfoldable pub request :
      AdcConfig
      → ℕ
      → ℕ
      → AdcConfig
      → State AdcConfig W
      → Option (Requested AdcConfig × State AdcConfig W)
  request blank size m c s =
      let ret = os.base.os_request c s.world in
      if not (find (λ _ e. check_exist e.payload c) s.nodes == null)
      then some (requested e_busy none c, s)
      else if not (is_ok ret.0)
      then some (requested ret.0 none ret.1, record { nodes = s.nodes; world = ret.2 })
      else if m == null
      then none
      else some (
        requested s_ok (some m) ret.1,
        record { nodes = modify m (fill m ret.1) (added blank size m s.nodes); world = ret.2 },
      )

  unfoldable pub release : ℕ → State AdcConfig W → ArtikError × State AdcConfig W
  release = release_node os.base

  unfoldable pub get_value : ℕ → State AdcConfig W → (ArtikError × Option ℕ) × State AdcConfig W
  get_value handle = on_node (e_bad_args, none) os.os_get_value handle
