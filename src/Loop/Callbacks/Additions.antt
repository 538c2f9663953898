-- ===== src/Loop/Callbacks/Additions.antt =====
-- Additions of callbacks, and removals by the identifiers that they return (tinyara_loop.c).
use testing.Base.{
  ℕ, ◌+◌, ◌<◌, ◌≡◌, ◌≢◌, ◌∙◌, refl, sym, ap, subst, ne→==, eq→==, Bool, false, Option, some, List,
  [], ◌∷◌, ◌++◌, length, All, All-append, ◌==◌, arith, s_ok,
}
use testing.Loop.Vector.Laws.{Holds, CanGrow, append_lem}
use testing.Loop.Callbacks.{Callback, Callbacks, set, register, wrapped, add, add_idle, remove}
use testing.Loop.Callbacks.Listed.{addresses, Absent, Distinct, Alive, Registered, length-addresses}
use testing.Loop.Callbacks.Removal.{without, remove_lem}

-- What an addition asks for: the structure and its handle were allocated, at an address that is not
-- in use, and the vector has room.
pub record CanAdd (memory : Bool) (p handle : ℕ) (xs : List (ℕ × Callback)) : Type 0 where
  pub allocated : p ≢ 0
  pub handle_allocated : handle ≢ 0
  pub fresh : Absent p xs
  pub room : length xs < 65535
  pub can_grow : CanGrow memory (length xs)

addresses-append :
    (xs : List (ℕ × Callback)) (x : ℕ × Callback)
    → addresses (xs ++ x ∷ []) ≡ addresses xs ++ x.0 ∷ []
addresses-append [] x = refl
addresses-append (y ∷ xs) x = ap (λ ys. y.0 ∷ ys) (addresses-append xs x)

Distinct-append :
    (xs : List (ℕ × Callback)) (x : ℕ × Callback)
    → Absent x.0 xs
    → Distinct xs
    → Distinct (xs ++ x ∷ [])
Distinct-append [] x f d = (tt, tt)
Distinct-append (y ∷ xs) x f d = (
  All-append (λ z. z.0 ≢ y.0) xs (x ∷ []) d.0 ((λ q. f.0 (sym q)), tt),
  Distinct-append xs x f.1 d.1,
)

set_self : (cell : ℕ → Option Callback) (p : ℕ) (t : Option Callback) → set cell p t p ≡ t
set_self cell p t = ground arith

Alive-elsewhere :
    (cell cell' : ℕ → Option Callback) (p : ℕ) (xs : List (ℕ × Callback))
    → ((q : ℕ) → q ≢ p → cell' q ≡ cell q)
    → Absent p xs
    → Alive cell xs
    → Alive cell' xs
Alive-elsewhere cell cell' p [] e f a = tt
Alive-elsewhere cell cell' p (x ∷ xs) e f a =
    ((e x.0 f.0 ∙ a.0.0, a.0.1), Alive-elsewhere cell cell' p xs e f.1 a.1)

-- A structure that is written at a new address, which was appended to the vector.
Registered-append :
    (s s' : Callbacks) (xs : List (ℕ × Callback)) (p : ℕ) (t : Callback)
    → Registered s xs
    → Absent p xs
    → t.handle ≢ 0
    → Holds s'.vector (addresses xs ++ p ∷ [])
    → s'.cell p ≡ some t
    → ((q : ℕ) → q ≢ p → s'.cell q ≡ s.cell q)
    → Registered s' (xs ++ (p, t) ∷ [])
Registered-append s s' xs p t r f n h here e = record {
  holds = rw (addresses-append xs (p, t)) h;
  alive =
      All-append _ xs ((p, t) ∷ []) (Alive-elsewhere s.cell s'.cell p xs e f r.alive)
        ((here, n), tt);
  distinct = Distinct-append xs (p, t) f r.distinct;
}

abbrev pub callback : ℕ → ℕ → ℕ → ℕ → Callback
callback func user_data handle id = record {
  func = func;
  user_data = user_data;
  handle = handle;
  id = id;
}

set_other :
    (cell : ℕ → Option Callback) (p q : ℕ) (t : Option Callback) → q ≢ p → set cell p t q ≡ cell q
set_other cell p q t n = rw (ne→== p q (λ e. n (sym e))) refl

register_lem :
    (memory : Bool) (p handle junk func user_data : ℕ) (s : Callbacks) (xs : List (ℕ × Callback))
    → Registered s xs
    → CanAdd memory p handle xs
    → (r : Callbacks) × (register memory p handle junk func user_data s ≡ some r)
      × Registered r (xs ++ (p, callback func user_data handle junk) ∷ [])
      × (r.next_id ≡ s.next_id)
      × ((q : ℕ) → q ≢ p → r.cell q ≡ s.cell q)
register_lem memory p handle junk func user_data s xs r can =
    let len = length-addresses xs in
    let grow : CanGrow memory (length (addresses xs)) = rw len can.can_grow in
    let done = append_lem memory s.vector (addresses xs) p r.holds (omega (arith, can.room)) grow in
    let t = callback func user_data handle junk in
    let s' : Callbacks = record s { cell = set s.cell p (some t); vector = done.0 } in
    let given : (p == 0) ≡ false = ne→== p 0 can.allocated in
    let handle_given : (handle == 0) ≡ false = ne→== handle 0 can.handle_allocated in
    (
      s',
      rw (given, handle_given) (rw done.1 refl),
      Registered-append s s' xs p t r can.fresh can.handle_allocated done.2
          (set_self s.cell p (some t)) (λ q n. set_other s.cell p q (some t) n),
      refl,
      λ q n. set_other s.cell p q (some t) n,
    )

wrapped_lt : (n : ℕ) → wrapped n < 255
wrapped_lt n = ground arith

-- An addition with memory and room returns the counter, or 0 once it has reached 255: an
-- identifier below 255, which the new callback has; the callback stands behind the others, and the
-- counter follows the identifier.
pub add-Registered :
    (memory : Bool) (p handle junk func user_data : ℕ) (s : Callbacks) (xs : List (ℕ × Callback))
    → Registered s xs
    → CanAdd memory p handle xs
    → (s' : Callbacks) × (add memory p handle junk func user_data s ≡ some (wrapped s.next_id, s'))
      × (wrapped s.next_id < 255)
      × Registered s' (xs ++ (p, callback func user_data handle (wrapped s.next_id)) ∷ [])
      × (s'.next_id ≡ wrapped s.next_id + 1)
unfolding add
add-Registered memory p handle junk func user_data s xs r can =
    let done = register_lem memory p handle junk func user_data s xs r can in
    let old = callback func user_data handle junk in
    let id = wrapped s.next_id in
    let t = callback func user_data handle id in
    let s' : Callbacks = record done.0 { cell = set done.0.cell p (some t); next_id = id + 1 } in
    let holds = subst (Holds done.0.vector) (addresses-append xs (p, old)) done.2.holds in
    (
      s',
      rw done.1 (rw done.3 refl),
      wrapped_lt s.next_id,
      Registered-append s s' xs p t r can.fresh can.handle_allocated holds
          (set_self done.0.cell p (some t))
          (λ q n. set_other done.0.cell p q (some t) n ∙ done.4 q n),
      refl,
    )

-- No callback of a list has an identifier.
abbrev pub IsFree : ℕ → List (ℕ × Callback) → Type 0
IsFree id xs = All (λ x. x.1.id ≢ id) xs

without-free : (id : ℕ) (xs : List (ℕ × Callback)) → IsFree id xs → without id xs ≡ xs
without-free id [] f = refl
without-free id (x ∷ xs) f = rw (ne→== x.1.id id f.0) (ap (λ zs. x ∷ zs) (without-free id xs f.1))

without-append :
    (id : ℕ) (xs ys : List (ℕ × Callback))
    → IsFree id xs
    → without id (xs ++ ys) ≡ xs ++ without id ys
without-append id [] ys f = refl
without-append id (x ∷ xs) ys f =
    rw (ne→== x.1.id id f.0) (ap (λ zs. x ∷ zs) (without-append id xs ys f.1))

append_nil : (xs : List (ℕ × Callback)) → xs ++ [] ≡ xs
append_nil [] = refl
append_nil (x ∷ xs) = ap (λ zs. x ∷ zs) (append_nil xs)

-- A removal by the identifier that an addition with memory and room returned takes out the new
-- callback alone, if no callback that was there has the same identifier.
pub remove-add :
    (memory : Bool) (memories : ℕ → Bool) (p handle junk func user_data : ℕ) (s : Callbacks)
    (xs : List (ℕ × Callback))
    → Registered s xs
    → CanAdd memory p handle xs
    → IsFree (wrapped s.next_id) xs
    → (s' s'' : Callbacks) × (add memory p handle junk func user_data s
        ≡ some (wrapped s.next_id, s'))
      × (remove memories (wrapped s.next_id) s' ≡ some (s_ok, s''))
      × Registered s'' xs
remove-add memory memories p handle junk func user_data s xs r can free =
    let added = add-Registered memory p handle junk func user_data s xs r can in
    let id = wrapped s.next_id in
    let t = callback func user_data handle id in
    let gone = remove_lem memories id added.0 (xs ++ (p, t) ∷ []) added.3 in
    let mine : without id ((p, t) ∷ []) ≡ [] = rw (eq→== id id refl) refl in
    let all : without id (xs ++ (p, t) ∷ []) ≡ xs =
      without-append id xs ((p, t) ∷ []) free ∙ ap (λ zs. xs ++ zs) mine ∙ append_nil xs in
    (added.0, gone.0, added.1, gone.1, subst (Registered gone.0) all gone.2)

-- An idle callback carries what its memory held.
pub add_idle-Registered :
    (memory : Bool) (p handle junk func user_data : ℕ) (s : Callbacks) (xs : List (ℕ × Callback))
    → Registered s xs
    → CanAdd memory p handle xs
    → (s' : Callbacks) × (add_idle memory p handle junk func user_data s
        ≡ some (wrapped s.next_id, s'))
      × Registered s' (xs ++ (p, callback func user_data handle junk) ∷ [])
      × (s'.next_id ≡ wrapped s.next_id + 1)
unfolding add_idle
add_idle-Registered memory p handle junk func user_data s xs r can =
    let done = register_lem memory p handle junk func user_data s xs r can in
    let h = done.2 in
    (
      record done.0 { next_id = wrapped s.next_id + 1 },
      rw done.1 (rw done.3 refl),
      record { holds = h.holds; alive = h.alive; distinct = h.distinct },
      refl,
    )

-- An idle callback, added with memory and room, stays in place after a removal by the identifier
-- that the addition returned, if its memory did not happen to hold that identifier already and no
-- other callback has it.
pub remove-add_idle :
    (memory : Bool) (memories : ℕ → Bool) (p handle junk func user_data : ℕ) (s : Callbacks)
    (xs : List (ℕ × Callback))
    → Registered s xs
    → CanAdd memory p handle xs
    → IsFree (wrapped s.next_id) xs
    → junk ≢ wrapped s.next_id
    → (s' s'' : Callbacks) × (add_idle memory p handle junk func user_data s
        ≡ some (wrapped s.next_id, s'))
      × (remove memories (wrapped s.next_id) s' ≡ some (s_ok, s''))
      × Registered s'' (xs ++ (p, callback func user_data handle junk) ∷ [])
remove-add_idle memory memories p handle junk func user_data s xs r can free stale =
    let done = add_idle-Registered memory p handle junk func user_data s xs r can in
    let id = wrapped s.next_id in
    let all = xs ++ (p, callback func user_data handle junk) ∷ [] in
    let gone = remove_lem memories id done.0 all done.2 in
    let none_has : IsFree id all = All-append _ xs _ free (stale, tt) in
    let kept : without id all ≡ all = without-free id all none_has in
    (done.0, gone.0, done.1, gone.1, subst (Registered gone.0) kept gone.2)
