-- ===== src/Systemio/Pwm/Linux/Descriptors.antt =====
-- The descriptors that linux_pwm.c opens and closes.
use testing.Base.{
  ℕ, ◌+◌, ◌-◌, ◌<◌, ◌^◌, ◌≡◌, refl, true, false, some, List, [], ◌∷◌, ◌==◌, arith, s_ok, decimal,
  eq→==, ◌||◌,
}
use testing.Systemio.Pwm.Linux.{
  PwmData, Event, wrote, opened, closed, Board, Kernel, log, store, is_negative, ioctl,
  ioctl_number, enable_data, set_number, set_polarity_data, path_of, set_fd, open_index,
  export_with, polarity_text, enable_index, polarity_index,
}

-- The number of descriptors that are open.
unfoldable pub descriptors : List Event → ℕ
descriptors [] = 0
descriptors (opened f ∷ events) = descriptors events + 1
descriptors (closed f ∷ events) = descriptors events - 1
descriptors (wrote f text errno ∷ events) = descriptors events

-- A kernel in which every write, open and close succeeds, and there is memory for texts.
pub record Agrees (k : Kernel) : Type 0 where
  pub writes : (events : List Event) (f : ℕ) (text : List ℕ) → k.write_fd events f text ≡ 0
  pub opens : (events : List Event) (path : List ℕ) → k.open_path events path < 2 ^ 31
  pub closes : (events : List Event) (f : ℕ) → k.close_ok events f ≡ true
  pub texts : (events : List Event) → k.text_memory events ≡ true

-- The board in which a descriptor was opened for a cell of the block `p`.
abbrev pub with_open : ℕ → ℕ → ℕ → PwmData → Board → Board
with_open p i f d w = store p (some (set_fd i f d)) (log (opened f) w)

module _ (k : Kernel) (a : Agrees k) where
  pub positive :
      (events : List Event) (path : List ℕ) → is_negative (k.open_path events path) ≡ false
  positive events path = let h = a.opens events path in ground arith

  pub ioctl_lem :
      (d : PwmData) (i f : ℕ) (text : List ℕ) (w : Board)
      → d.fd i ≡ some f
      → ioctl k d i text w ≡ some (s_ok, log (wrote f text 0) w)
  unfolding ioctl
  ioctl_lem d i f text w h = rw (h, a.writes w.events f text) refl

  pub ioctl_number_lem :
      (d : PwmData) (i f n : ℕ) (w : Board)
      → d.fd i ≡ some f
      → ioctl_number k d i n w ≡ some (s_ok, log (wrote f (decimal n) 0) w)
  unfolding ioctl_number
  ioctl_number_lem d i f n w h = rw (a.texts w.events, ioctl_lem d i f (decimal n) w h) refl

  pub open_index_lem :
      (p : ℕ) (d : PwmData) (i : ℕ) (w : Board)
      → let f = k.open_path w.events (path_of d i) in
        open_index k p d i w ≡ (f, set_fd i f d, with_open p i f d w)
  unfolding open_index
  open_index_lem p d i w = rw (positive w.events (path_of d i)) refl

  pub export_with_lem :
      (p : ℕ) (d : PwmData) (i : ℕ) (w : Board)
      → let f = k.open_path w.events (path_of d i) in
        export_with k p d i w
        ≡ some (s_ok, log (closed f) (log (wrote f (decimal d.port) 0) (with_open p i f d w)))
  unfolding export_with open_index
  export_with_lem p d i w =
      let f = k.open_path w.events (path_of d i) in
      let held : (set_fd i f d).fd i ≡ some f = rw (eq→== i i refl) refl in
      rw (positive w.events (path_of d i)) (
        rw (ioctl_number_lem (set_fd i f d) i f d.port (with_open p i f d w) held)
          (rw (a.closes _ f) refl))

  pub set_number_lem :
      (d : PwmData) (i e f n : ℕ) (w : Board)
      → d.fd enable_index ≡ some e
      → d.fd i ≡ some f
      → set_number k d i n w
        ≡ some (
          s_ok,
          log (wrote e (b'1' ∷ []) 0) (log (wrote f (decimal n) 0) (log (wrote e (b'0' ∷ []) 0) w)),
        )
  unfolding set_number enable_data
  set_number_lem d i e f n w he hf =
      let off = log (wrote e (b'0' ∷ []) 0) w in
      let value = log (wrote f (decimal n) 0) off in
      rw (ioctl_lem d enable_index e (b'0' ∷ []) w he) (
        rw (ioctl_number_lem d i f n off hf)
          (rw (ioctl_lem d enable_index e (b'1' ∷ []) value he) refl))

  pub set_polarity_data_lem :
      (d : PwmData) (e f value : ℕ) (w : Board)
      → value < 2
      → d.fd enable_index ≡ some e
      → d.fd polarity_index ≡ some f
      → set_polarity_data k d value w
        ≡ some (
          s_ok,
          log
              (wrote e (b'1' ∷ []) 0)
              (log (wrote f (polarity_text value) 0) (log (wrote e (b'0' ∷ []) 0) w)),
        )
  unfolding set_polarity_data enable_data
  set_polarity_data_lem d e f value w v he hf =
      let off = log (wrote e (b'0' ∷ []) 0) w in
      let set = log (wrote f (polarity_text value) 0) off in
      let known : (value == 0 || value == 1) ≡ true = ground (arith, v) in
      rw known (
        rw (ioctl_lem d enable_index e (b'0' ∷ []) w he) (
          rw (ioctl_lem d polarity_index f (polarity_text value) off hf)
            (rw (ioctl_lem d enable_index e (b'1' ∷ []) set he) refl)))
