-- ===== src/Systemio/Gpio/Linux/Backed.antt =====
-- What a configuration of linux_gpio.c relies on: its pin is exported, and its data is allocated.
use testing.Base.{
  ℕ, ◌<◌, ◌^◌, ◌-◌, ◌≡◌, ◌≢◌, ◌∙◌, refl, true, Option, none, some, List, ◌==◌, Bool-cases,
  Option-cases, inl, inr, ArtikError, s_ok, e_busy, e_bad_args, e_access_denied, is_ok, codes,
  decimal, ne→==,
}
use testing.Systemio.Gpio.{GpioConfig}
use testing.Systemio.Gpio.Linux.{
  GpioData, Event, Board, Kernel, attribute, log, store, os_read, os_write, os_set_change_callback,
  os_unset_change_callback, is_in, is_out, unset_in, unset_closed, unset_removed, zeros, give_up,
  watch, set_in, fd_opened, fd_closed, loop_requested, loop_released, watch_added,
}
use testing.Systemio.Gpio.Linux.Sysfs.{exported, exported_attribute, attribute-IsAttribute}

-- What the driver relies on: `malloc` returns no block that is held, and the loop module can be
-- had, or its request returns NULL.
pub record IsKernel (k : Kernel) : Type 0 where
  pub malloc_free : (w : Board) → k.malloc w ≢ 0 → w.data_at (k.malloc w) ≡ none
  pub loop_there : (events : List Event) → k.request_loop events ≢ 2 ^ 64 - 1

pub record Backed (w : Board) (c : GpioConfig) : Type 0 where
  pub in_range : c.id < 2 ^ 31
  pub is_exported : exported (decimal c.id) w.events ≡ true
  pub has_data : (d : GpioData) × (w.data_at c.user_data ≡ some d)

-- A change of the board that leaves every pin exported as it was, and every block where it is.
pub record Keeps (w w' : Board) : Type 0 where
  pub exports : (t : List ℕ) → exported t w'.events ≡ exported t w.events
  pub blocks :
      (p : ℕ) (d : GpioData) → w.data_at p ≡ some d → (d' : GpioData) × (w'.data_at p ≡ some d')

pub Keeps-refl : (w : Board) → Keeps w w
Keeps-refl w = record { exports = λ t. refl; blocks = λ p d h. (d, h) }

pub Keeps-Backed : (w w' : Board) (c : GpioConfig) → Keeps w w' → Backed w c → Backed w' c
Keeps-Backed w w' c k b = record {
  in_range = b.in_range;
  is_exported = k.exports (decimal c.id) ∙ b.is_exported;
  has_data = k.blocks c.user_data b.has_data.0 b.has_data.1;
}

store-blocks :
    (w : Board) (p q : ℕ) (n d : GpioData)
    → w.data_at q ≡ some d
    → (d' : GpioData) × ((store p (some n) w).data_at q ≡ some d')
store-blocks w p q n d h = elim (Bool-cases (p == q)) [
  | inl hit ↦ (n, rw hit refl)
  | inr miss ↦ (d, rw miss h)
]

-- A change by events that are no writes, and a write to a block.
Keeps-store :
    (w w' : Board) (p : ℕ) (n : GpioData)
    → ((t : List ℕ) → exported t w'.events ≡ exported t w.events)
    → w'.data_at ≡ w.data_at
    → Keeps w (store p (some n) w')
Keeps-store w w' p n e same = record {
  exports = e;
  blocks = λ q d h. store-blocks w' p q n d (rw same h);
}

module _ (k : Kernel) where
  pub os_read-same :
      (c : GpioConfig) (w : Board) → ((os_read k c w).1 ≡ c) × ((os_read k c w).2 ≡ w)
  unfolding os_read
  os_read-same c w = elim (Bool-cases (is_in c.dir)) [
    | inl hit ↦ rw hit (refl, refl)
    | inr miss ↦ rw miss (refl, refl)
  ]

  pub os_write-Keeps :
      (value : ℕ) (c : GpioConfig) (w : Board)
      → ((os_write k value c w).1 ≡ c) × Keeps w (os_write k value c w).2
  unfolding os_write
  os_write-Keeps value c w = elim (Bool-cases (is_out c.dir)) [
    | inr miss ↦ rw miss (refl, Keeps-refl w)
    | inl hit ↦ rw hit (
      refl,
      record {
        exports = λ t.
            exported_attribute t (attribute c.id (codes "value")) _ _ w.events
              (attribute-IsAttribute c.id (codes "value"));
        blocks = λ p d h. (d, h);
      },
    )
  ]

  unset_in-Keeps : (c : GpioConfig) (d : GpioData) (w : Board) → Keeps w (unset_in k c d w)
  unfolding exported
  unset_in-Keeps c d w = elim (Bool-cases (d.fd == 0)) [
    | inl closed ↦ rw closed (record { exports = λ t. refl; blocks = λ p n h. (n, h) })
    | inr is_open ↦ elim (Bool-cases (d.loop == 0)) [
      | inl alone ↦
          rw (is_open, alone)
            (Keeps-store w (unset_closed k d w) c.user_data zeros (λ t. refl) refl)
      | inr looped ↦
          rw (is_open, looped)
            (Keeps-store w (unset_removed k d w) c.user_data zeros (λ t. refl) refl)
    ]
  ]

  pub os_unset_change_callback-Keeps :
      (c : GpioConfig) (w : Board)
      → Backed w c
      → (w' : Board) × (os_unset_change_callback k c w ≡ some (tt, c, w')) × Keeps w w'
  unfolding os_unset_change_callback
  os_unset_change_callback-Keeps c w b =
      let (d, there) = b.has_data in (unset_in k c d w, rw there refl, unset_in-Keeps c d w)

  give_up-Keeps :
      (error : ArtikError) (p : ℕ) (d : GpioData) (w w' : Board)
      → ((t : List ℕ) → exported t w'.events ≡ exported t w.events)
      → w'.data_at ≡ w.data_at
      → Keeps w (give_up error p d w').1
  unfolding exported
  give_up-Keeps error p d w w' e same = elim (Bool-cases (d.loop == 0)) [
    | inl alone ↦
        rw alone (Keeps-store w (log (fd_closed d.fd) w') p (record d { fd = 0; loop = 0 }) e same)
    | inr looped ↦ rw looped (
        Keeps-store w (log (fd_closed d.fd) (log (loop_released d.loop) w')) p
          (record d { fd = 0; loop = 0 }) e same)
  ]

  -- A registration ends without a fault.
  abbrev Ends : Board → Option (ArtikError × Board) → Type 0
  Ends w r = (a : ArtikError × Board) × (r ≡ some a) × Keeps w a.1

  watch-Keeps :
      (p : ℕ) (d : GpioData) (w w' : Board)
      → d.loop ≢ 2 ^ 64 - 1
      → ((t : List ℕ) → exported t w'.events ≡ exported t w.events)
      → w'.data_at ≡ w.data_at
      → Ends w (watch k p d w')
  unfolding exported
  watch-Keeps p d w w' n e same =
      let r = k.add_fd_watch w'.events d.fd p in
      let d' : GpioData = record d { watch_id = r.1 } in
      elim (Bool-cases (d.loop == 0)) [
        | inl missing ↦
            (give_up e_busy p d w', rw missing refl, give_up-Keeps e_busy p d w w' e same)
        | inr there ↦ elim (Bool-cases (is_ok r.0)) [
          | inl done ↦ (
            (s_ok, store p (some d') (log (watch_added r.1) w')),
            rw (there, ne→== d.loop (2 ^ 64 - 1) n, done) refl,
            Keeps-store w (log (watch_added r.1) w') p d' e same,
          )
          | inr refused ↦ (
            give_up r.0 p d' w',
            rw (there, ne→== d.loop (2 ^ 64 - 1) n, refused) refl,
            give_up-Keeps r.0 p d' w w' e same,
          )
        ]
      ]

  set_in-Keeps :
      (callback user_data : ℕ) (c : GpioConfig) (d : GpioData) (w : Board)
      → IsKernel k
      → Ends w (set_in k callback user_data c d w)
  unfolding exported
  set_in-Keeps callback user_data c d w i =
      let p = c.user_data in
      let fd' = k.open_entry w.events (attribute c.id (codes "value")) in
      let opened : Board = log (fd_opened fd') w in
      let d' : GpioData = record d { fd = fd'; callback = callback; user_data = user_data } in
      let loop' = k.request_loop opened.events in
      let watched =
        watch-Keeps p (record d' { loop = loop' }) w (log (loop_requested loop') opened)
          (i.loop_there opened.events) (λ t. refl) refl in
      elim (Bool-cases (fd' == 0)) [
        | inl zero ↦ (
          (e_busy, store p (some (record d { fd = 0 })) opened),
          rw zero refl,
          Keeps-store w opened p (record d { fd = 0 }) (λ t. refl) refl,
        )
        | inr more ↦ elim (Option-cases (k.read_fd opened.events fd')) [
          | inl unread ↦ (
            give_up e_access_denied p d' opened,
            rw (more, unread) refl,
            give_up-Keeps e_access_denied p d' w opened (λ t. refl) refl,
          )
          | inr (byte, read) ↦ (watched.0, rw (more, read) watched.1, watched.2)
        ]
      ]

  pub os_set_change_callback-Keeps :
      (callback user_data : ℕ) (c : GpioConfig) (w : Board)
      → IsKernel k
      → Backed w c
      → (e : ArtikError) × (w' : Board) × (os_set_change_callback k callback user_data c w
          ≡ some (e, c, w'))
        × Keeps w w'
  unfolding os_set_change_callback
  os_set_change_callback-Keeps callback user_data c w i b = elim (Bool-cases (is_in c.dir)) [
    | inr miss ↦
        (e_bad_args, w, rw miss refl, record { exports = λ t. refl; blocks = λ p n h. (n, h) })
    | inl hit ↦
        let (d, there) = b.has_data in
        let ends = set_in-Keeps callback user_data c d w i in
        (ends.0.0, ends.0.1, rw (hit, there, ends.1) refl, ends.2)
  ]
