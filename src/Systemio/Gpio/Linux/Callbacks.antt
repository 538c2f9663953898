-- ===== src/Systemio/Gpio/Linux/Callbacks.antt =====
-- The callbacks of linux_gpio.c and the references to the loop module that they take.
use testing.Base.{
  ℕ, ◌+◌, ◌-◌, ◌^◌, ◌≡◌, ◌≢◌, ◌∙◌, refl, sym, ap, true, false, Option, none, some, List, [], ◌∷◌,
  ◌==◌, if◌then◌else◌, arith, Bool-cases, Option-cases, inl, inr, ArtikError, s_ok, e_bad_args,
  e_busy, e_access_denied, is_ok, codes, ne→==, eq→==, ne_of_==,
}
use testing.Systemio.Gpio.{GpioConfig}
use testing.Systemio.Gpio.Linux.{
  GpioData, zeros, Event, loop_requested, loop_released, fd_opened, watch_added, Board, Kernel,
  attribute, log, store, watch, set_in, unset_in, os_set_change_callback, os_unset_change_callback,
  is_in,
}

-- How often a loop module was requested and not released.
unfoldable pub loop_references : ℕ → List Event → ℕ
loop_references l [] = 0
loop_references l (loop_requested m ∷ events) = (if m == l then 1 else 0) + loop_references l events
loop_references l (loop_released m ∷ events) = loop_references l events - (if m == l then 1 else 0)
loop_references l (event ∷ events) = loop_references l events

-- The board after a registration with a descriptor, a loop module and a watch.
abbrev registered : ℕ → ℕ → ℕ → ℕ → GpioData → Board → Board
registered p fd' loop' id d w =
    store p (some d) (log (watch_added id) (log (loop_requested loop') (log (fd_opened fd') w)))

record Registered (k : Kernel) (p : ℕ) (w w' : Board) : Type 0 where
  pub held : GpioData
  pub is_open : held.fd ≢ 0
  pub has_loop : held.loop ≢ 0
  pub watched : w' ≡ registered p held.fd held.loop held.watch_id held w
  pub asked : held.loop ≡ k.request_loop (fd_opened held.fd ∷ w.events)

abbrev error_of : Option (ArtikError × Board) → ArtikError
error_of none = e_busy
error_of (some r) = r.0

abbrev board_of : Board → Option (ArtikError × Board) → Board
board_of w none = w
board_of w (some r) = r.1

abbrev answer_of : Option (ArtikError × GpioConfig × Board) → ArtikError
answer_of none = e_busy
answer_of (some r) = r.0

abbrev last_of : Board → Option (ArtikError × GpioConfig × Board) → Board
last_of w none = w
last_of w (some r) = r.2

module _ (k : Kernel) where
  watch-Registered :
      (p : ℕ) (d : GpioData) (w w' : Board)
      → d.fd ≢ 0
      → d.loop ≡ k.request_loop (fd_opened d.fd ∷ w.events)
      → watch k p d (log (loop_requested d.loop) (log (fd_opened d.fd) w)) ≡ some (s_ok, w')
      → Registered k p w w'
  watch-Registered p d w w' o l h =
      let asked = log (loop_requested d.loop) (log (fd_opened d.fd) w) in
      let r = k.add_fd_watch asked.events d.fd p in
      elim (Bool-cases (d.loop == 0)) [
        | inl missing ↦ let bad : e_busy ≡ s_ok = ap error_of (rw missing at h) in absurd cc
        | inr there ↦ elim (Bool-cases (d.loop == 2 ^ 64 - 1)) [
          | inl invalid ↦ let bad : none ≡ some (s_ok, w') = rw (there, invalid) at h in absurd cc
          | inr fine ↦ elim (Bool-cases (is_ok r.0)) [
            | inr refused ↦
                let agrees : r.0 ≡ s_ok = ap error_of (rw (there, fine, refused) at h) in
                let bad : true ≡ false = rw agrees at refused in absurd cc
            | inl done ↦ record {
              held = record d { watch_id = r.1 };
              is_open = o;
              has_loop = ne_of_== d.loop 0 there;
              watched = ap (board_of w) (sym (rw (there, fine, done) at h));
              asked = l;
            }
          ]
        ]
      ]

  set_in-Registered :
      (callback user_data : ℕ) (c : GpioConfig) (d : GpioData) (w w' : Board)
      → set_in k callback user_data c d w ≡ some (s_ok, w')
      → Registered k c.user_data w w'
  set_in-Registered callback user_data c d w w' h =
      let fd' = k.open_entry w.events (attribute c.id (codes "value")) in
      let opened : Board = log (fd_opened fd') w in
      let d' : GpioData = record d { fd = fd'; callback = callback; user_data = user_data } in
      let loop' = k.request_loop opened.events in
      elim (Bool-cases (fd' == 0)) [
        | inl zero ↦ let bad : e_busy ≡ s_ok = ap error_of (rw zero at h) in absurd cc
        | inr more ↦ elim (Option-cases (k.read_fd opened.events fd')) [
          | inl unread ↦
              let bad : e_access_denied ≡ s_ok = ap error_of (rw (more, unread) at h) in absurd cc
          | inr (byte, read) ↦
              watch-Registered c.user_data (record d' { loop = loop' }) w w' (ne_of_== fd' 0 more)
                refl (rw (more, read) at h)
        ]
      ]

  set-Registered :
      (callback user_data : ℕ) (c c' : GpioConfig) (w w' : Board)
      → os_set_change_callback k callback user_data c w ≡ some (s_ok, c', w')
      → Registered k c.user_data w w'
  unfolding os_set_change_callback
  set-Registered callback user_data c c' w w' h = elim (Bool-cases (is_in c.dir)) [
    | inr output ↦ let bad : e_bad_args ≡ s_ok = ap answer_of (rw output at h) in absurd cc
    | inl input ↦ elim (Option-cases (w.data_at c.user_data)) [
      | inl missing ↦ let bad : e_busy ≡ s_ok = ap answer_of (rw (input, missing) at h) in absurd cc
      | inr (d, there) ↦ elim (Option-cases (set_in k callback user_data c d w)) [
        | inl fault ↦
            let bad : e_busy ≡ s_ok = ap answer_of (rw (input, there, fault) at h) in absurd cc
        | inr (r, set) ↦
            let whole : some (r.0, c, r.1) ≡ some (s_ok, c', w') = rw (input, there, set) at h in
            let ok : r.0 ≡ s_ok = ap answer_of whole in
            let ends : r.1 ≡ w' = ap (last_of w) whole in
            set_in-Registered callback user_data c d w w' (set ∙ (λ j. some (ok j, ends j)))
      ]
    ]
  ]

  -- If a registration of a callback succeeds, where a request of the loop module always returns the
  -- same table, its removal faults nowhere and clears the data, but one reference to the loop module
  -- more is left than before.
  pub unset-set :
      (callback user_data l : ℕ) (c c' : GpioConfig) (w w' : Board)
      → ((events : List Event) → k.request_loop events ≡ l)
      → os_set_change_callback k callback user_data c w ≡ some (s_ok, c', w')
      → (w'' : Board) × (os_unset_change_callback k c w' ≡ some (tt, c, w''))
        × (w''.data_at c.user_data ≡ some zeros)
        × (loop_references l w''.events ≡ loop_references l w.events + 1)
  unfolding os_unset_change_callback loop_references
  unset-set callback user_data l c c' w w' always h =
      let r = set-Registered callback user_data c c' w w' h in
      let p = c.user_data in
      let d = r.held in
      let there : w'.data_at p ≡ some d = rw r.watched (rw (eq→== p p refl) refl) in
      let before : loop_references l w'.events ≡ 1 + loop_references l w.events =
        rw r.watched (rw (eq→== d.loop l (r.asked ∙ always _)) refl) in
      let closed = ne→== d.fd 0 r.is_open in
      let looped = ne→== d.loop 0 r.has_loop in
      (
        unset_in k c d w',
        rw there refl,
        rw (closed, looped) (rw (eq→== p p refl) refl),
        rw (closed, looped) (rw (always w'.events, eq→== l l refl, before) (omega arith)),
      )
