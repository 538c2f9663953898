-- ===== src/Systemio/Gpio/Calls.antt =====
-- Sequences of calls of the GPIO module (src/modules/systemio/gpio/artik_gpio.c).
use testing.Base.{ℕ, List, [], ◌∷◌}
use testing.ArtikList.Abstract.{Fresh}
use testing.Systemio.Registry.{State}
use testing.Systemio.Gpio.{
  GpioConfig, GpioDriver, request, release, read, write, set_change_callback, unset_change_callback,
}

pub data Call : Type 0 where
  requests : GpioConfig → ℕ → ℕ → GpioConfig → Call
  releases : ℕ → Call
  reads : ℕ → Call
  writes : ℕ → ℕ → Call
  sets_change_callback : ℕ → ℕ → ℕ → Call
  unsets_change_callback : ℕ → Call

module _ {W : Type 0} (os : GpioDriver W) where
  unfoldable pub step : State GpioConfig W → Call → State GpioConfig W
  step s (requests blank size m c) = (request os blank size m c s).1
  step s (releases handle) = (release os handle s).1
  step s (reads handle) = (read os handle s).1
  step s (writes handle value) = (write os handle value s).1
  step s (sets_change_callback handle callback user_data) =
      (set_change_callback os handle callback user_data s).1
  step s (unsets_change_callback handle) = (unset_change_callback os handle s).1

  unfoldable pub run : State GpioConfig W → List Call → State GpioConfig W
  unfolding step
  run s [] = s
  run s (k ∷ ks) = run (step s k) ks

  -- `malloc` does not return the address of a node that is still in the list.
  abbrev pub AllocatesStep : State GpioConfig W → Call → Type 0
  AllocatesStep s (requests blank size m c) = Fresh m s.nodes
  AllocatesStep s _ = Unit

  abbrev pub Allocates : State GpioConfig W → List Call → Type 0
  Allocates s [] = Unit
  Allocates s (k ∷ ks) = AllocatesStep s k × Allocates (step s k) ks
