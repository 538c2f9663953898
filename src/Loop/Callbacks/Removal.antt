-- ===== src/Loop/Callbacks/Removal.antt =====
-- Removals of callbacks by their identifier (tinyara_loop.c).
use testing.Base.{
  ℕ, zero, suc, ◌+◌, ◌≤◌, ◌<◌, ◌≡◌, ◌≢◌, ◌∙◌, refl, ap, subst, ne→==, inl, inr, Bool, Bool-cases,
  none, some, List, [], ◌∷◌, ◌++◌, length, ◌==◌, arith, if◌then◌else◌, s_ok,
}
use testing.Loop.Vector.Removal.{remove_at}
use testing.Loop.Callbacks.{Callback, Callbacks, set, take_out, cleanup_from, cleanup, remove}
use testing.Loop.Callbacks.Listed.{
  Absent, Registered, staying, giving, nth, length-addresses, All-remove_at, All-nth,
}
use testing.Loop.Callbacks.Cleanup.{
  at_index-nth, take_out-hit, take_out-miss, staying-hit, staying-miss, giving-hit, giving-miss,
}

-- The state that a cleanup of the first `n` leaves.
record Cleaned (id n : ℕ) (xs : List (ℕ × Callback)) (s s' : Callbacks) : Type 0 where
  stays : Registered s' (staying id n xs)
  back : s'.given_back ≡ giving id n xs s.given_back
  others : (p : ℕ) → Absent p xs → s'.cell p ≡ s.cell p
  counter : s'.next_id ≡ s.next_id

length-remove_at :
    (i : ℕ) (xs : List (ℕ × Callback)) → i < length xs → length (remove_at i xs) + 1 ≡ length xs
length-remove_at i [] h = absurd (omega arith)
length-remove_at zero (x ∷ xs) h = omega arith
length-remove_at (suc i) (x ∷ xs) h = omega (arith, length-remove_at i xs (omega arith))

cleanup_from_lem :
    (memory : ℕ → Bool) (id n : ℕ) (s : Callbacks) (xs : List (ℕ × Callback))
    → Registered s xs
    → n ≤ length xs
    → (s' : Callbacks) × (cleanup_from memory id n s ≡ some s') × Cleaned id n xs s s'
unfolding cleanup_from
cleanup_from_lem memory id zero s xs r h =
    (s, refl, record { stays = r; back = refl; others = λ p f. refl; counter = refl })
cleanup_from_lem memory id (suc i) s xs r h =
    let found = nth xs i (omega arith) in
    let x = found.0 in
    let at = at_index-nth s xs i x r (omega arith) found.1 in
    elim (Bool-cases (x.1.id == id)) [
      | inl hit ↦
          let out = take_out-hit memory id s xs i x r (omega arith) found.1 hit in
          let shorter = length-remove_at i xs (omega arith) in
          let w = out.2 in
          let rest =
            cleanup_from_lem memory id i out.0 (remove_at i xs) w.registered (omega arith) in
          let c = rest.2 in
          (
            rest.0,
            rw at (rw out.1 rest.1),
            record {
              stays = rw (staying-hit id i xs x found.1 hit) c.stays;
              back =
                  rw (giving-hit id i xs x s.given_back found.1 hit)
                    (c.back ∙ ap (giving id i (remove_at i xs)) w.back);
              others = λ p f.
                  let apart : x.0 ≢ p = All-nth (λ z. z.0 ≢ p) xs i x found.1 f in
                  let away : set s.cell x.0 none p ≡ s.cell p = rw (ne→== x.0 p apart) refl in
                  c.others p (All-remove_at (λ z. z.0 ≢ p) i xs f) ∙ ap (λ g. g p) w.cell_is ∙ away;
              counter = c.counter ∙ w.counter;
            },
          )
      | inr miss ↦
          let rest = cleanup_from_lem memory id i s xs r (omega arith) in
          let c = rest.2 in
          let same : take_out memory id i x.0 x.1 s ≡ some s = take_out-miss memory id i s x miss in
          (
            rest.0,
            rw at (rw same rest.1),
            record {
              stays = rw (staying-miss id i xs x found.1 miss) c.stays;
              back = rw (giving-miss id i xs x s.given_back found.1 miss) c.back;
              others = c.others;
              counter = c.counter;
            },
          )
    ]

-- The callbacks without those that have an identifier, and what is given back for those, in front
-- of what was given back before.
abbrev pub without : ℕ → List (ℕ × Callback) → List (ℕ × Callback)
without id [] = []
without id (x ∷ xs) = let rest = without id xs in if x.1.id == id then rest else x ∷ rest

abbrev pub returned : ℕ → List (ℕ × Callback) → List (ℕ × ℕ)
returned id [] = []
returned id (x ∷ xs) =
    let rest = returned id xs in if x.1.id == id then (x.0, x.1.handle) ∷ rest else rest

staying-all : (id : ℕ) (xs : List (ℕ × Callback)) → staying id (length xs) xs ≡ without id xs
staying-all id [] = refl
staying-all id (x ∷ xs) = rw (staying-all id xs) refl

giving-all :
    (id : ℕ) (xs : List (ℕ × Callback)) (before : List (ℕ × ℕ))
    → giving id (length xs) xs before ≡ returned id xs ++ before
giving-all id [] before = refl
giving-all id (x ∷ xs) before = elim (Bool-cases (x.1.id == id)) [
  | inl hit ↦ rw hit (ap (λ r. (x.0, x.1.handle) ∷ r) (giving-all id xs before))
  | inr miss ↦ rw miss (giving-all id xs before)
]

-- Where the vector holds the addresses of callbacks that are allocated, with their handles, at
-- distinct addresses, a removal by an identifier ends with S_OK. It takes every callback with that
-- identifier out of the vector, keeps the others in their order, and gives back those that left,
-- each once with its handle; the structures at other addresses and the counter stay, whether or
-- not memory can be given back.
pub remove_lem :
    (memory : ℕ → Bool) (id : ℕ) (s : Callbacks) (xs : List (ℕ × Callback))
    → Registered s xs
    → (s' : Callbacks) × (remove memory id s ≡ some (s_ok, s'))
      × Registered s' (without id xs)
      × (s'.given_back ≡ returned id xs ++ s.given_back)
      × ((p : ℕ) → Absent p xs → s'.cell p ≡ s.cell p)
      × (s'.next_id ≡ s.next_id)
unfolding remove cleanup
remove_lem memory id s xs r =
    let done = cleanup_from_lem memory id (length xs) s xs r (omega arith) in
    let c = done.2 in
    let len : s.vector.len ≡ length xs = r.holds.len_is ∙ length-addresses xs in
    let whole : cleanup_from memory id s.vector.len s ≡ some done.0 =
      ap (λ n. cleanup_from memory id n s) len ∙ done.1 in
    (
      done.0,
      rw whole refl,
      subst (Registered done.0) (staying-all id xs) c.stays,
      c.back ∙ giving-all id xs s.given_back,
      c.others,
      c.counter,
    )
