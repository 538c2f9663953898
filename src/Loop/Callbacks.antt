-- ===== src/Loop/Callbacks.antt =====
-- The callbacks of tinyara_loop.c: their structures, and the vector and the counter of each of the
-- four kinds.
--
-- A heap maps an address to the structure there. The calls of libuv start and stop a handle; of
-- these, what a removal gives back is recorded. `memory i` tells whether the call of `realloc` at
-- the index `i` succeeds.
pub mod Listed
pub mod Cleanup
pub mod Removal
pub mod Additions
use testing.Base.{
  ℕ, zero, suc, ◌+◌, Bool, Option, none, some, List, [], ◌∷◌, ◌||◌, leb, ◌==◌, if◌then◌else◌,
  ArtikError, s_ok, ◌>>=◌,
}
use testing.Loop.Vector.{Vector, append, get, del}

-- `_timeout`, and the structures of the other kinds; 0 stands for a NULL `func` or `handle`.
pub record Callback : Type 0 where
  pub func : ℕ
  pub user_data : ℕ
  pub handle : ℕ
  pub id : ℕ

-- The vector and the counter of a kind. `given_back` has the structures and handles that were
-- freed, the newest first.
pub record Callbacks : Type 0 where
  pub cell : ℕ → Option Callback
  pub vector : Vector
  pub next_id : ℕ
  pub given_back : List (ℕ × ℕ)

abbrev pub set : (ℕ → Option Callback) → ℕ → Option Callback → ℕ → Option Callback
set cell p t q = if p == q then t else cell q

-- uv_timer_stop(t->handle); free(t->handle); memset(t, 0, ...); free(t)
abbrev pub free_callback : ℕ → Callback → Callbacks → Callbacks
free_callback p t s = record s {
  cell = set s.cell p none;
  given_back = (p, t.handle) ∷ s.given_back;
}

-- What the loop of the cleanup does with the structure `t` at an index.
abbrev pub taken : Callbacks → Option (ArtikError × Vector) → Option Callbacks
taken s none = none
taken s (some r) = some (record s { vector = r.1 })

unfoldable pub take_out : (ℕ → Bool) → ℕ → ℕ → ℕ → Callback → Callbacks → Option Callbacks
take_out memory id i p t s =
    let freed = if t.handle == 0 then s else free_callback p t s in
    if t.id == id then taken freed (del (memory i) s.vector i) else some s

-- The structure at an index of the vector.
unfoldable pub at_index : Callbacks → ℕ → Option (ℕ × Callback)
at_index s i = do cells ← s.vector.block; p ← get cells i; t ← s.cell p; some (p, t)

-- The loop of timeout_cleanup and its siblings, from the index `n` - 1 down.
unfoldable pub cleanup_from : (ℕ → Bool) → ℕ → ℕ → Callbacks → Option Callbacks
cleanup_from memory id zero s = some s
cleanup_from memory id (suc i) s = do
  found ← at_index s i
  s' ← take_out memory id i found.0 found.1 s
  cleanup_from memory id i s'

unfoldable pub cleanup : (ℕ → Bool) → ℕ → Callbacks → Option Callbacks
cleanup memory id s = cleanup_from memory id s.vector.len s

-- os_remove_timeout_callback and its siblings.
unfoldable pub remove : (ℕ → Bool) → ℕ → Callbacks → Option (ArtikError × Callbacks)
remove memory id s = do s' ← cleanup memory id s; some (s_ok, s')

-- The part that the additions share: `p` and `handle` are what `malloc` returned, which is written
-- through without a test, and `junk` is what stood in the memory of `id`.
abbrev pub register : Bool → ℕ → ℕ → ℕ → ℕ → ℕ → Callbacks → Option Callbacks
register memory p handle junk func user_data s =
    let t : Callback = record { func = func; user_data = user_data; handle = handle; id = junk } in
    if p == 0 || handle == 0 then none else do
      vector ← append memory s.vector p
      some (record s { cell = set s.cell p (some t); vector = vector })

-- if (_id >= 255) _id = 0
abbrev pub wrapped : ℕ → ℕ
wrapped next_id = if leb 255 next_id then 0 else next_id

-- os_add_timeout_callback and its siblings, but for the idle callbacks: the identifier, and the
-- state.
unfoldable pub add : Bool → ℕ → ℕ → ℕ → ℕ → ℕ → Callbacks → Option (ℕ × Callbacks)
add memory p handle junk func user_data s = do
  r ← register memory p handle junk func user_data s
  let id = wrapped r.next_id
  let t : Callback = record { func = func; user_data = user_data; handle = handle; id = id }
  some (id, record r { cell = set r.cell p (some t); next_id = id + 1 })

-- os_add_idle_callback: the identifier is returned, but not stored.
unfoldable pub add_idle : Bool → ℕ → ℕ → ℕ → ℕ → ℕ → Callbacks → Option (ℕ × Callbacks)
add_idle memory p handle junk func user_data s = do
  r ← register memory p handle junk func user_data s
  let id = wrapped r.next_id
  some (id, record r { next_id = id + 1 })
