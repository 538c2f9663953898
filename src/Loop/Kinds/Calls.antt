-- ===== src/Loop/Kinds/Calls.antt =====
-- Sequences of additions and removals of callbacks (tinyara_loop.c), as operations on lists.
use testing.Base.{ℕ, ◌+◌, ◌≡◌, ◌∙◌, refl, sym, Bool, some, List, [], ◌∷◌, ◌++◌, ArtikError, s_ok}
use testing.Loop.Callbacks.{Callback, Callbacks, wrapped, add, add_idle, remove}
use testing.Loop.Callbacks.Listed.{Registered}
use testing.Loop.Callbacks.Removal.{without, remove_lem}
use testing.Loop.Callbacks.Additions.{CanAdd, callback, add-Registered, add_idle-Registered}
use testing.Loop.Kinds.{
  EventLoop, Request, Call, adds_timeout, adds_periodic, adds_idle, removes_timeout,
  removes_periodic, removes_idle, add_timeout_callback, add_periodic_callback, add_idle_callback,
  remove_timeout_callback, remove_periodic_callback, remove_idle_callback, step, run,
}

-- What is meant by the callbacks of a kind: a list, and the counter of its identifiers.
pub record Listing : Type 0 where
  pub callbacks : List (ℕ × Callback)
  pub next : ℕ

pub record Listings : Type 0 where
  pub timeouts : Listing
  pub periodics : Listing
  pub idles : Listing

-- The new callback at the end, with the identifier that it carries.
abbrev pub extended : Request → ℕ → Listing → Listing
extended q id l = record {
  callbacks = l.callbacks ++ (q.structure, callback q.func q.user_data q.handle id) ∷ [];
  next = wrapped l.next + 1;
}

abbrev pub reduced : ℕ → Listing → Listing
reduced id l = record l { callbacks = without id l.callbacks }

-- An idle callback carries what its memory held, the others the identifier that is returned.
abbrev pub meant : Call → Listings → Listings
meant (adds_timeout q) a = record a { timeouts = extended q (wrapped a.timeouts.next) a.timeouts }
meant (adds_periodic q) a = record a {
  periodics = extended q (wrapped a.periodics.next) a.periodics;
}
meant (adds_idle q) a = record a { idles = extended q q.junk a.idles }
meant (removes_timeout memory id) a = record a { timeouts = reduced id a.timeouts }
meant (removes_periodic memory id) a = record a { periodics = reduced id a.periodics }
meant (removes_idle memory id) a = record a { idles = reduced id a.idles }

abbrev pub meant_all : List Call → Listings → Listings
meant_all [] a = a
meant_all (k ∷ ks) a = meant_all ks (meant k a)

-- Every addition has its memory, at addresses not in use, and its vector room.
abbrev pub CanCall : Call → Listings → Type 0
CanCall (adds_timeout q) a = CanAdd q.memory q.structure q.handle a.timeouts.callbacks
CanCall (adds_periodic q) a = CanAdd q.memory q.structure q.handle a.periodics.callbacks
CanCall (adds_idle q) a = CanAdd q.memory q.structure q.handle a.idles.callbacks
CanCall _ a = Unit

abbrev pub CanRun : List Call → Listings → Type 0
CanRun [] a = Unit
CanRun (k ∷ ks) a = CanCall k a × CanRun ks (meant k a)

abbrev pub Lists : Callbacks → Listing → Type 0
Lists c l = Registered c l.callbacks × (c.next_id ≡ l.next)

pub record Stands (s : EventLoop) (a : Listings) : Type 0 where
  pub timeouts_stand : Lists s.timeouts a.timeouts
  pub periodics_stand : Lists s.periodics a.periodics
  pub idles_stand : Lists s.idles a.idles

add-Lists :
    (q : Request) (c : Callbacks) (l : Listing)
    → Lists c l
    → CanAdd q.memory q.structure q.handle l.callbacks
    → (id : ℕ) × (c' : Callbacks) × (add q.memory q.structure q.handle q.junk q.func q.user_data c
        ≡ some (id, c'))
      × Lists c' (extended q (wrapped l.next) l)
add-Lists q c l h can =
    let done =
      add-Registered q.memory q.structure q.handle q.junk q.func q.user_data c l.callbacks h.0
        can in
    (wrapped c.next_id, done.0, done.1, rw (sym h.1) (done.3, done.4))

add_idle-Lists :
    (q : Request) (c : Callbacks) (l : Listing)
    → Lists c l
    → CanAdd q.memory q.structure q.handle l.callbacks
    → (id : ℕ) × (c' : Callbacks) × (add_idle q.memory q.structure q.handle q.junk q.func
          q.user_data c
        ≡ some (id, c'))
      × Lists c' (extended q q.junk l)
add_idle-Lists q c l h can =
    let done =
      add_idle-Registered q.memory q.structure q.handle q.junk q.func q.user_data c l.callbacks h.0
        can in
    (wrapped c.next_id, done.0, done.1, rw (sym h.1) (done.2, done.3))

remove-Lists :
    (memory : ℕ → Bool) (id : ℕ) (c : Callbacks) (l : Listing)
    → Lists c l
    → (error : ArtikError) × (c' : Callbacks) × (remove memory id c ≡ some (error, c'))
      × Lists c' (reduced id l)
remove-Lists memory id c l h =
    let done = remove_lem memory id c l.callbacks h.0 in
    (s_ok, done.0, done.1, (done.2, done.5 ∙ h.1))

step-Stands :
    (k : Call) (s : EventLoop) (a : Listings)
    → Stands s a
    → CanCall k a
    → (s' : EventLoop) × (step k s ≡ some s') × Stands s' (meant k a)
unfolding step add_timeout_callback add_periodic_callback add_idle_callback remove_timeout_callback
    remove_periodic_callback remove_idle_callback
step-Stands (adds_timeout q) s a h can =
    let done = add-Lists q s.timeouts a.timeouts h.timeouts_stand can in
    (
      record s { timeouts = done.1 },
      rw done.2 refl,
      record {
        timeouts_stand = done.3;
        periodics_stand = h.periodics_stand;
        idles_stand = h.idles_stand;
      },
    )
step-Stands (adds_periodic q) s a h can =
    let done = add-Lists q s.periodics a.periodics h.periodics_stand can in
    (
      record s { periodics = done.1 },
      rw done.2 refl,
      record {
        timeouts_stand = h.timeouts_stand;
        periodics_stand = done.3;
        idles_stand = h.idles_stand;
      },
    )
step-Stands (adds_idle q) s a h can =
    let done = add_idle-Lists q s.idles a.idles h.idles_stand can in
    (
      record s { idles = done.1 },
      rw done.2 refl,
      record {
        timeouts_stand = h.timeouts_stand;
        periodics_stand = h.periodics_stand;
        idles_stand = done.3;
      },
    )
step-Stands (removes_timeout memory id) s a h can =
    let done = remove-Lists memory id s.timeouts a.timeouts h.timeouts_stand in
    (
      record s { timeouts = done.1 },
      rw done.2 refl,
      record {
        timeouts_stand = done.3;
        periodics_stand = h.periodics_stand;
        idles_stand = h.idles_stand;
      },
    )
step-Stands (removes_periodic memory id) s a h can =
    let done = remove-Lists memory id s.periodics a.periodics h.periodics_stand in
    (
      record s { periodics = done.1 },
      rw done.2 refl,
      record {
        timeouts_stand = h.timeouts_stand;
        periodics_stand = done.3;
        idles_stand = h.idles_stand;
      },
    )
step-Stands (removes_idle memory id) s a h can =
    let done = remove-Lists memory id s.idles a.idles h.idles_stand in
    (
      record s { idles = done.1 },
      rw done.2 refl,
      record {
        timeouts_stand = h.timeouts_stand;
        periodics_stand = h.periodics_stand;
        idles_stand = done.3;
      },
    )

-- Any sequence of additions and removals, in which each addition has its memory and room, ends
-- without a fault, in a state that stands for the lists that are meant: an addition appends to the
-- list of its kind, a removal takes out the callbacks of its kind with its identifier.
pub run-Stands :
    (ks : List Call) (s : EventLoop) (a : Listings)
    → Stands s a
    → CanRun ks a
    → (s' : EventLoop) × (run ks s ≡ some s') × Stands s' (meant_all ks a)
unfolding run
run-Stands [] s a h can = (s, refl, h)
run-Stands (k ∷ ks) s a h can =
    let first = step-Stands k s a h can.0 in
    let rest = run-Stands ks first.0 (meant k a) first.2 can.1 in
    (rest.0, rw first.1 rest.1, rest.2)
