-- ===== src/Systemio/Pwm/Linux/Output.antt =====
-- Whether linux_pwm.c leaves an output on.
use testing.Base.{
  ℕ, ◌≡◌, refl, Bool, true, false, ◌&&◌, Option, some, List, [], ◌∷◌, ◌==◌, if◌then◌else◌,
  ArtikError, s_ok, same_text, same_text_self, eq→==, decimal,
}
use testing.Systemio.Pwm.{PwmConfig}
use testing.Systemio.Pwm.Linux.{
  PwmData, Event, wrote, Board, Kernel, log, ioctl, ioctl_number, enable_data, set_number,
  while_off, wrote_to, os_enable, os_set_period, os_set_duty_cycle, enable_index, period_index,
  cycle_index,
}

-- The last write to the enable entry that succeeded was a 1.
unfoldable pub is_on : ℕ → List Event → Bool
is_on e [] = false
is_on e (wrote f text errno ∷ events) =
    if f == e && errno == 0 then same_text text (b'1' ∷ []) else is_on e events
is_on e (event ∷ events) = is_on e events

module _ (k : Kernel) (d : PwmData) (e : ℕ) (there : d.fd enable_index ≡ some e)
    (writes : (events : List Event) (text : List ℕ) → k.write_fd events e text ≡ 0) where
  enable_lem :
      (value : ℕ) (w : Board)
      → enable_data k d value w ≡ some (s_ok, log (wrote e (value ∷ []) 0) w)
  unfolding enable_data ioctl
  enable_lem value w = rw (there, writes w.events (value ∷ [])) refl

  on_after : (w : Board) → is_on e (wrote e (b'1' ∷ []) 0 ∷ w.events) ≡ true
  unfolding is_on
  on_after w = rw (eq→== e e refl, same_text_self (b'1' ∷ [])) refl

  while_off-is_on :
      (write : Board → Option (ArtikError × Board)) (w : Board)
      → ((v : Board) → (r : ArtikError × Board) × (write v ≡ some r))
      → (r : ArtikError) × (w' : Board) × (while_off k d write (enable_data k d b'0' w)
          ≡ some (r, w'))
        × (is_on e w'.events ≡ true)
  while_off-is_on write w total =
      let off = log (wrote e (b'0' ∷ []) 0) w in
      let (r, done) = total off in
      (
        r.0,
        log (wrote e (b'1' ∷ []) 0) r.1,
        rw (enable_lem b'0' w) (rw done (rw (enable_lem b'1' r.1) refl)),
        on_after r.1,
      )

  set_number-is_on :
      (i f n : ℕ) (w : Board)
      → ((events : List Event) → k.text_memory events ≡ true)
      → d.fd i ≡ some f
      → (r : ArtikError) × (w' : Board) × (set_number k d i n w ≡ some (r, w'))
        × (is_on e w'.events ≡ true)
  unfolding set_number ioctl_number ioctl
  set_number-is_on i f n w texts held =
      while_off-is_on (ioctl_number k d i n) w
        (λ v. (wrote_to k f (decimal n) v, rw (texts v.events, held) refl))

-- Where the writes to the enable entry succeed and there is memory: after an output was turned off,
-- a change of its period or of its duty cycle leaves it on, whether or not the change succeeds.
pub set-enable :
    (k : Kernel) (c : PwmConfig) (d : PwmData) (e f g period cycle : ℕ) (w : Board)
    → ((events : List Event) (text : List ℕ) → k.write_fd events e text ≡ 0)
    → ((events : List Event) → k.text_memory events ≡ true)
    → w.data_at c.user_data ≡ some d
    → d.fd enable_index ≡ some e
    → d.fd period_index ≡ some f
    → d.fd cycle_index ≡ some g
    → (off : Board) × (os_enable k b'0' c w ≡ some (s_ok, c, off))
      × (is_on e off.events ≡ false)
      × ((r : ArtikError) × (w' : Board) × (os_set_period k period c off ≡ some (r, c, w'))
          × (is_on e w'.events ≡ true))
      × ((r : ArtikError) × (w' : Board) × (os_set_duty_cycle k cycle c off ≡ some (r, c, w'))
          × (is_on e w'.events ≡ true))
unfolding os_enable os_set_period os_set_duty_cycle is_on same_text
set-enable k c d e f g period cycle w writes texts there he hf hg =
    let off = log (wrote e (b'0' ∷ []) 0) w in
    let (r, w1, done, on) = set_number-is_on k d e he writes period_index f period off texts hf in
    let (q, w2, fine, lit) = set_number-is_on k d e he writes cycle_index g cycle off texts hg in
    (
      off,
      rw there (rw (enable_lem k d e he writes b'0' w) refl),
      rw (eq→== e e refl) refl,
      (r, w1, rw there (rw done refl), on),
      (q, w2, rw there (rw fine refl), lit),
    )
