-- ===== src/Loop/Examples.antt =====
-- The theorems on tinyara_loop.c at a vector of three pointers, and at callbacks of three kinds.
use testing.Base.{ℕ, ◌≡◌, refl, inl, true, false, none, some, List, [], ◌∷◌, ◌++◌, arith, s_ok}
use testing.Loop.Callbacks.{Callback, Callbacks, set, add, add_idle, remove}
use testing.Loop.Callbacks.Listed.{Absent, Registered}
use testing.Loop.Callbacks.Removal.{without, returned, remove_lem}
use testing.Loop.Callbacks.Additions.{CanAdd, IsFree, callback, remove-add, remove-add_idle}
use testing.Loop.Kinds.{EventLoop, Request, Call, adds_idle, removes_timeout, run}
use testing.Loop.Kinds.Calls.{Listings, Listing, Stands, meant_all, run-Stands}
use testing.Loop.Align.{shift, align_power2_uint, align_power2_uint_lem}
use testing.Loop.Vector.{Vector}
use testing.Loop.Vector.Laws.{Holds}

abbrev three : List ℕ
three = 16 ∷ 32 ∷ 48 ∷ []

abbrev vector : Vector
vector = record { block = some (some 16 ∷ some 32 ∷ some 48 ∷ none ∷ []); len = 3 }

vector-Holds : Holds vector three
unfolding testing.Loop.Align.align_power2_short_uint testing.Loop.Align.align_power2_uint
    testing.Loop.Align.left_zeros testing.Loop.Align.digits
vector-Holds = record {
  spare = none ∷ [];
  cells_are = refl;
  len_is = refl;
  len_le = omega arith;
  roomy = omega arith;
}

-- The first timeout has the identifier 7, and the second one 8.
abbrev first : Callback
first = callback 100 200 300 7

abbrev second : Callback
second = callback 101 201 301 8

abbrev timeouts : List (ℕ × Callback)
timeouts = (16, first) ∷ (32, second) ∷ []

abbrev running : Callbacks
running = record {
  cell = set (set (λ _. none) 32 (some second)) 16 (some first);
  vector = record { block = some (some 16 ∷ some 32 ∷ []); len = 2 };
  next_id = 9;
  given_back = [];
}

running-Registered : Registered running timeouts
unfolding testing.Loop.Align.align_power2_short_uint testing.Loop.Align.align_power2_uint
    testing.Loop.Align.left_zeros testing.Loop.Align.digits
running-Registered = record {
  holds = record {
    spare = [];
    cells_are = refl;
    len_is = refl;
    len_le = omega arith;
    roomy = omega arith;
  };
  alive = ((refl, λ e. omega arith), ((refl, λ e. omega arith), tt));
  distinct = (((λ e. omega arith), tt), (tt, tt));
}

running-CanAdd : CanAdd true 48 302 timeouts
running-CanAdd = record {
  allocated = λ e. omega arith;
  handle_allocated = λ e. omega arith;
  fresh = ((λ e. omega arith), ((λ e. omega arith), tt));
  room = omega arith;
  can_grow = inl refl;
}

nine-IsFree : IsFree 9 timeouts
nine-IsFree = ((λ e. omega arith), ((λ e. omega arith), tt))

remove_lem_example :
    (s' : Callbacks) × (remove (λ _. false) 8 running ≡ some (s_ok, s'))
    × Registered s' (without 8 timeouts)
    × (s'.given_back ≡ returned 8 timeouts ++ running.given_back)
    × ((p : ℕ) → Absent p timeouts → s'.cell p ≡ running.cell p)
    × (s'.next_id ≡ running.next_id)
remove_lem_example = remove_lem (λ _. false) 8 running timeouts running-Registered

remove-add_example :
    (s' s'' : Callbacks) × (add true 48 302 0 102 202 running ≡ some (9, s'))
    × (remove (λ _. true) 9 s' ≡ some (s_ok, s''))
    × Registered s'' timeouts
remove-add_example =
    remove-add true (λ _. true) 48 302 0 102 202 running timeouts running-Registered running-CanAdd
      nine-IsFree

remove-add_idle_example :
    (s' s'' : Callbacks) × (add_idle true 48 302 0 102 202 running ≡ some (9, s'))
    × (remove (λ _. true) 9 s' ≡ some (s_ok, s''))
    × Registered s'' (timeouts ++ (48, callback 102 202 302 0) ∷ [])
remove-add_idle_example =
    remove-add_idle true (λ _. true) 48 302 0 102 202 running timeouts running-Registered
      running-CanAdd nine-IsFree (λ e. omega arith)

-- An idle callback is added, and the first timeout removed.
abbrev request : Request
request = record {
  memory = true;
  structure = 48;
  handle = 302;
  junk = 0;
  func = 102;
  user_data = 202;
}

abbrev calls : List Call
calls = adds_idle request ∷ removes_timeout (λ _. true) 7 ∷ []

abbrev listing : Listing
listing = record { callbacks = timeouts; next = 9 }

abbrev looping : EventLoop
looping = record { timeouts = running; periodics = running; idles = running }

abbrev listed : Listings
listed = record { timeouts = listing; periodics = listing; idles = listing }

looping-Stands : Stands looping listed
looping-Stands = record {
  timeouts_stand = (running-Registered, refl);
  periodics_stand = (running-Registered, refl);
  idles_stand = (running-Registered, refl);
}

run-Stands_example :
    (s' : EventLoop) × (run calls looping ≡ some s') × Stands s' (meant_all calls listed)
run-Stands_example = run-Stands calls looping listed looping-Stands (running-CanAdd, (tt, tt))
