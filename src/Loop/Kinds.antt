-- ===== src/Loop/Kinds.antt =====
-- The timeouts, the periodic callbacks and the idle callbacks of tinyara_loop.c, of which each kind
-- has its vector and its counter.
pub mod Calls
use testing.Base.{ℕ, Bool, Option, none, some, List, [], ◌∷◌, ArtikError, ◌>>=◌}
use testing.Loop.Callbacks.{Callbacks, add, add_idle, remove}

pub record EventLoop : Type 0 where
  pub timeouts : Callbacks
  pub periodics : Callbacks
  pub idles : Callbacks

-- What an addition takes: whether `realloc` succeeds, what `malloc` returned for the structure and
-- its handle, what the memory of the identifier held, and the function with its data.
pub record Request : Type 0 where
  pub memory : Bool
  pub structure : ℕ
  pub handle : ℕ
  pub junk : ℕ
  pub func : ℕ
  pub user_data : ℕ

unfoldable pub add_timeout_callback : Request → EventLoop → Option (ℕ × EventLoop)
add_timeout_callback q s = do
  r ← add q.memory q.structure q.handle q.junk q.func q.user_data s.timeouts
  some (r.0, record s { timeouts = r.1 })

unfoldable pub add_periodic_callback : Request → EventLoop → Option (ℕ × EventLoop)
add_periodic_callback q s = do
  r ← add q.memory q.structure q.handle q.junk q.func q.user_data s.periodics
  some (r.0, record s { periodics = r.1 })

unfoldable pub add_idle_callback : Request → EventLoop → Option (ℕ × EventLoop)
add_idle_callback q s = do
  r ← add_idle q.memory q.structure q.handle q.junk q.func q.user_data s.idles
  some (r.0, record s { idles = r.1 })

unfoldable pub remove_timeout_callback :
    (ℕ → Bool) → ℕ → EventLoop → Option (ArtikError × EventLoop)
remove_timeout_callback memory id s = do
  r ← remove memory id s.timeouts
  some (r.0, record s { timeouts = r.1 })

unfoldable pub remove_periodic_callback :
    (ℕ → Bool) → ℕ → EventLoop → Option (ArtikError × EventLoop)
remove_periodic_callback memory id s = do
  r ← remove memory id s.periodics
  some (r.0, record s { periodics = r.1 })

unfoldable pub remove_idle_callback : (ℕ → Bool) → ℕ → EventLoop → Option (ArtikError × EventLoop)
remove_idle_callback memory id s = do
  r ← remove memory id s.idles
  some (r.0, record s { idles = r.1 })

pub data Call : Type 0 where
  adds_timeout adds_periodic adds_idle : Request → Call
  removes_timeout removes_periodic removes_idle : (ℕ → Bool) → ℕ → Call

abbrev state_of : {A : Type 0} → Option (A × EventLoop) → Option EventLoop
state_of none = none
state_of (some r) = some r.1

unfoldable pub step : Call → EventLoop → Option EventLoop
step (adds_timeout q) s = state_of (add_timeout_callback q s)
step (adds_periodic q) s = state_of (add_periodic_callback q s)
step (adds_idle q) s = state_of (add_idle_callback q s)
step (removes_timeout memory id) s = state_of (remove_timeout_callback memory id s)
step (removes_periodic memory id) s = state_of (remove_periodic_callback memory id s)
step (removes_idle memory id) s = state_of (remove_idle_callback memory id s)

unfoldable pub run : List Call → EventLoop → Option EventLoop
run [] s = some s
run (k ∷ ks) s = do s' ← step k s; run ks s'
