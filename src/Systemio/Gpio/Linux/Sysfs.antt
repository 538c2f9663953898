-- ===== src/Systemio/Gpio/Linux/Sysfs.antt =====
-- Which pins the writes of linux_gpio.c leave exported.
use testing.Base.{
  ℕ, ◌<◌, ◌^◌, ◌≡◌, ◌≢◌, ◌∙◌, refl, Bool, true, false, ◌&&◌, List, [], ◌∷◌, ◌==◌, All,
  if◌then◌else◌, Bool-cases, ne_of_==, inl, inr, codes, same_text, same_text_self, same_text-eq,
  decimal, decimal_injective,
}
use testing.Systemio.Gpio.{GpioConfig, Direction, gpio_out, gpio_in, dir_invalid}
use testing.Systemio.Gpio.Linux.{
  Event, wrote, Board, Kernel, export_path, unexport_path, attribute, log, write_all, value_or_edge,
  request_entries, unexport, direction_text,
}

-- The last write of a text to the export or the unexport entry that succeeded was an export.
unfoldable pub exported : List ℕ → List Event → Bool
exported t [] = false
exported t (wrote path text errno ∷ events) =
    let rest = exported t events in
    if same_text text t && errno == 0
    then (if same_text path export_path
        then true
        else if same_text path unexport_path
        then false
        else rest)
    else rest
exported t (event ∷ events) = exported t events

abbrev pub IsAttribute : List ℕ → Type 0
IsAttribute path = (same_text path export_path ≡ false) × (same_text path unexport_path ≡ false)

-- A write of another text leaves a pin exported or not, as it was.
pub exported_other :
    (t path text : List ℕ) (errno : ℕ) (events : List Event)
    → same_text text t ≡ false
    → exported t (wrote path text errno ∷ events) ≡ exported t events
unfolding exported
exported_other t path text errno events h = rw h refl

-- So does a write to an attribute.
pub exported_attribute :
    (t path text : List ℕ) (errno : ℕ) (events : List Event)
    → IsAttribute path
    → exported t (wrote path text errno ∷ events) ≡ exported t events
unfolding exported
exported_attribute t path text errno events (e, u) =
    elim (Bool-cases (same_text text t && errno == 0)) [
      | inl hit ↦ rw (hit, e, u) refl
      | inr miss ↦ rw miss refl
    ]

pub attribute-IsAttribute : (id : ℕ) (name : List ℕ) → IsAttribute (attribute id name)
unfolding same_text
attribute-IsAttribute id name = (refl, refl)

module _ (k : Kernel) where
  pub write_all-data_at :
      (entries : List (List ℕ × List ℕ)) (w : Board) → (write_all k entries w).1.data_at ≡ w.data_at
  unfolding write_all
  write_all-data_at [] w = refl
  write_all-data_at ((path, value) ∷ entries) w =
      let errno = k.write_entry w.events path value in
      elim (Bool-cases (errno == 0)) [
        | inl done ↦ rw done (write_all-data_at entries (log (wrote path value errno) w))
        | inr failed ↦ rw failed refl
      ]

  pub write_all-exported :
      (t : List ℕ) (entries : List (List ℕ × List ℕ)) (w : Board)
      → All (λ x. IsAttribute x.0) entries
      → exported t (write_all k entries w).1.events ≡ exported t w.events
  unfolding write_all
  write_all-exported t [] w h = refl
  write_all-exported t ((path, value) ∷ entries) w h =
      let errno = k.write_entry w.events path value in
      let first = exported_attribute t path value errno w.events h.0 in
      elim (Bool-cases (errno == 0)) [
        | inl done ↦
            rw done (write_all-exported t entries (log (wrote path value errno) w) h.1 ∙ first)
        | inr failed ↦ rw failed first
      ]

  attributes : (c : GpioConfig) (dir : Direction) → All (λ x. IsAttribute x.0) (value_or_edge c dir)
  attributes c gpio_out = (attribute-IsAttribute c.id (codes "value"), tt)
  attributes c gpio_in = (attribute-IsAttribute c.id (codes "edge"), tt)
  attributes c dir_invalid = tt

  -- The writes that follow the export.
  abbrev rest_entries : GpioConfig → List (List ℕ × List ℕ)
  rest_entries c =
      (attribute c.id (codes "direction"), direction_text c.dir) ∷ value_or_edge c c.dir

  rest-IsAttribute : (c : GpioConfig) → All (λ x. IsAttribute x.0) (rest_entries c)
  rest-IsAttribute c = (attribute-IsAttribute c.id (codes "direction"), attributes c c.dir)

  -- The writes of a request export its pin, if all succeed, and leave the others alone.
  pub request_entries-exported :
      (c : GpioConfig) (w : Board)
      → (write_all k (request_entries c) w).0 ≡ 0
      → exported (decimal c.id) (write_all k (request_entries c) w).1.events ≡ true
  unfolding write_all exported
  request_entries-exported c w z =
      let errno = k.write_entry w.events export_path (decimal c.id) in
      let all = rest-IsAttribute c in
      elim (Bool-cases (errno == 0)) [
        | inl done ↦ rw done (
            write_all-exported (decimal c.id) (rest_entries c)
              (log (wrote export_path (decimal c.id) errno) w) all
            ∙ rw (same_text_self (decimal c.id), done, same_text_self export_path) refl)
        | inr failed ↦
            let zero : errno ≡ 0 = rw failed at z in absurd (ne_of_== errno 0 failed zero)
      ]

  pub request_entries-other :
      (t : List ℕ) (c : GpioConfig) (w : Board)
      → same_text (decimal c.id) t ≡ false
      → exported t (write_all k (request_entries c) w).1.events ≡ exported t w.events
  unfolding write_all
  request_entries-other t c w h =
      let errno = k.write_entry w.events export_path (decimal c.id) in
      let all = rest-IsAttribute c in
      let first = exported_other t export_path (decimal c.id) errno w.events h in
      elim (Bool-cases (errno == 0)) [
        | inl done ↦ rw done (
            write_all-exported t (rest_entries c) (log (wrote export_path (decimal c.id) errno) w)
              all
            ∙ first)
        | inr failed ↦ rw failed first
      ]

  pub unexport-other :
      (t : List ℕ) (c : GpioConfig) (w : Board)
      → same_text (decimal c.id) t ≡ false
      → exported t (unexport k c w).events ≡ exported t w.events
  unexport-other t c w h =
      exported_other t unexport_path (decimal c.id)
        (k.write_entry w.events unexport_path (decimal c.id)) w.events h

-- The texts of two pins differ.
pub other_text :
    (m n : ℕ) → m < 2 ^ 31 → n < 2 ^ 31 → m ≢ n → same_text (decimal m) (decimal n) ≡ false
other_text m n hm hn d = elim (Bool-cases (same_text (decimal m) (decimal n))) [
  | inl hit ↦ absurd (d (decimal_injective m n hm hn (same_text-eq (decimal m) (decimal n) hit)))
  | inr miss ↦ miss
]
