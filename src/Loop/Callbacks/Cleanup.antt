-- ===== src/Loop/Callbacks/Cleanup.antt =====
-- What the cleanup of callbacks in tinyara_loop.c removes.
use testing.Base.{
  ℕ, zero, suc, ◌<◌, ◌≡◌, ◌≢◌, refl, sym, ne→==, Bool, true, false, Option, none, some, List, [],
  ◌∷◌, length, get_elem?, ◌==◌, arith,
}
use testing.Loop.Vector.Laws.{held, block_is, length-held}
use testing.Loop.Vector.Removal.{remove_at, del_lem}
use testing.Loop.Callbacks.{Callback, Callbacks, set, free_callback, take_out, at_index}
use testing.Loop.Callbacks.Listed.{
  addresses, Absent, Alive, Registered, staying, giving, length-addresses, addresses-remove_at,
  All-remove_at, Distinct-remove_at, All-nth, Absent-nth, get-held, nth-addresses,
}

pub at_index-nth :
    (s : Callbacks) (xs : List (ℕ × Callback)) (i : ℕ) (x : ℕ × Callback)
    → Registered s xs
    → i < length xs
    → get_elem? xs i ≡ some x
    → at_index s i ≡ some x
unfolding at_index
at_index-nth s xs i x r h e =
    let hs = r.holds in
    let room = length-held (addresses xs) hs.spare in
    let len = length-addresses xs in
    let block = block_is s.vector.block (held (addresses xs) hs.spare) hs.cells_are (omega arith) in
    let live = All-nth (λ z. (s.cell z.0 ≡ some z.1) × (z.1.handle ≢ 0)) xs i x e r.alive in
    rw block (rw (get-held (addresses xs) hs.spare i x.0 (nth-addresses xs i x e)) (rw live.0 refl))

pub Alive-set :
    (cell : ℕ → Option Callback) (p : ℕ) (t : Option Callback) (xs : List (ℕ × Callback))
    → Absent p xs
    → Alive cell xs
    → Alive (set cell p t) xs
Alive-set cell p t [] f a = tt
Alive-set cell p t (x ∷ xs) f a =
    let other : (p == x.0) ≡ false = ne→== p x.0 (λ q. f.0 (sym q)) in
    ((rw other a.0.0, a.0.1), Alive-set cell p t xs f.1 a.1)

-- The state after the callback at an index was taken out.
pub record Without (s s' : Callbacks) (xs : List (ℕ × Callback)) (i : ℕ) (x : ℕ × Callback)
    : Type 0 where
  pub registered : Registered s' (remove_at i xs)
  pub back : s'.given_back ≡ (x.0, x.1.handle) ∷ s.given_back
  pub cell_is : s'.cell ≡ set s.cell x.0 none
  pub counter : s'.next_id ≡ s.next_id

pub take_out-hit :
    (memory : ℕ → Bool) (id : ℕ) (s : Callbacks) (xs : List (ℕ × Callback)) (i : ℕ)
    (x : ℕ × Callback)
    → Registered s xs
    → i < length xs
    → get_elem? xs i ≡ some x
    → (x.1.id == id) ≡ true
    → (s' : Callbacks) × (take_out memory id i x.0 x.1 s ≡ some s') × Without s s' xs i x
unfolding take_out
take_out-hit memory id s xs i x r h e hit =
    let len = length-addresses xs in
    let deleted = (del_lem (memory i) s.vector (addresses xs) i r.holds).0 (omega arith) in
    let live = All-nth (λ z. (s.cell z.0 ≡ some z.1) × (z.1.handle ≢ 0)) xs i x e r.alive in
    let handle : (x.1.handle == 0) ≡ false = ne→== x.1.handle 0 live.1 in
    (
      record (free_callback x.0 x.1 s) { vector = deleted.0 },
      rw (handle, hit) (rw deleted.1 refl),
      record {
        registered = record {
          holds = rw (addresses-remove_at i xs) deleted.2;
          alive =
              Alive-set s.cell x.0 none (remove_at i xs) (Absent-nth xs i x e r.distinct)
                (All-remove_at _ i xs r.alive);
          distinct = Distinct-remove_at i xs r.distinct;
        };
        back = refl;
        cell_is = refl;
        counter = refl;
      },
    )

pub take_out-miss :
    (memory : ℕ → Bool) (id i : ℕ) (s : Callbacks) (x : ℕ × Callback)
    → (x.1.id == id) ≡ false
    → take_out memory id i x.0 x.1 s ≡ some s
unfolding take_out
take_out-miss memory id i s x miss = rw miss refl

pub staying-hit :
    (id i : ℕ) (xs : List (ℕ × Callback)) (x : ℕ × Callback)
    → get_elem? xs i ≡ some x
    → (x.1.id == id) ≡ true
    → staying id (suc i) xs ≡ staying id i (remove_at i xs)
staying-hit id i [] x e h = absurd cc
staying-hit id zero (y ∷ xs) x e h = let same : y ≡ x = cc in rw (same, h) refl
staying-hit id (suc i) (y ∷ xs) x e h = rw (staying-hit id i xs x e h) refl

pub staying-miss :
    (id i : ℕ) (xs : List (ℕ × Callback)) (x : ℕ × Callback)
    → get_elem? xs i ≡ some x
    → (x.1.id == id) ≡ false
    → staying id (suc i) xs ≡ staying id i xs
staying-miss id i [] x e h = absurd cc
staying-miss id zero (y ∷ xs) x e h = let same : y ≡ x = cc in rw same (rw h refl)
staying-miss id (suc i) (y ∷ xs) x e h = rw (staying-miss id i xs x e h) refl

pub giving-hit :
    (id i : ℕ) (xs : List (ℕ × Callback)) (x : ℕ × Callback) (before : List (ℕ × ℕ))
    → get_elem? xs i ≡ some x
    → (x.1.id == id) ≡ true
    → giving id (suc i) xs before ≡ giving id i (remove_at i xs) ((x.0, x.1.handle) ∷ before)
giving-hit id i [] x before e h = absurd cc
giving-hit id zero (y ∷ xs) x before e h = let same : y ≡ x = cc in rw (same, h) refl
giving-hit id (suc i) (y ∷ xs) x before e h = rw (giving-hit id i xs x before e h) refl

pub giving-miss :
    (id i : ℕ) (xs : List (ℕ × Callback)) (x : ℕ × Callback) (before : List (ℕ × ℕ))
    → get_elem? xs i ≡ some x
    → (x.1.id == id) ≡ false
    → giving id (suc i) xs before ≡ giving id i xs before
giving-miss id i [] x before e h = absurd cc
giving-miss id zero (y ∷ xs) x before e h = let same : y ≡ x = cc in rw same (rw h refl)
giving-miss id (suc i) (y ∷ xs) x before e h = rw (giving-miss id i xs x before e h) refl
