-- ===== src/Systemio/Registry.antt =====
-- What the modules of src/modules/systemio share: a list of requested nodes in front of the
-- operating system's driver for the device.
--
-- The driver (os_i2c.h and its siblings, of which each platform has its own) is a parameter: an
-- operation takes the configuration that it gets by pointer and the state of the system behind it,
-- and returns both with its result. `m` is what `malloc` returned for the node, 0 for a failure.
pub mod Valid
pub mod Laws
pub mod Release
pub mod Again
use testing.Base.{
  ℕ, Bool, Option, none, some, List, ◌==◌, if◌then◌else◌, ArtikError, s_ok, e_bad_args, e_busy,
  e_no_mem, not, is_ok,
}
use testing.ArtikList.{Entry, null}
use testing.ArtikList.Abstract.{find, remove, is}
use testing.Systemio.Nodes.{by_handle, added, modify, entry_at}

pub record Driver (C W : Type 0) : Type 0 where
  pub os_request : C → W → ArtikError × C × W
  pub os_release : C → W → ArtikError × C × W

-- `requested_node` of the file, and the system behind the driver.
pub record State (C W : Type 0) : Type 0 where
  pub nodes : List (ℕ × Entry C)
  pub world : W

-- The result of a request: the error, what was written to `*handle`, the caller's configuration.
pub record Requested (C : Type 0) : Type 0 where
  pub error : ArtikError
  pub handle : Option ℕ
  pub config : C

module _ {C : Type 0} where
  abbrev pub requested : ArtikError → Option ℕ → C → Requested C
  requested error handle config = record { error = error; handle = handle; config = config }

  abbrev pub put : C → Entry C → Entry C
  put c e = record e { payload = c }

  -- node->node.handle = node; memcpy(&node->config, config, sizeof(node->config))
  abbrev pub fill : ℕ → C → Entry C → Entry C
  fill m c e = record e { handle = m; payload = c }

module _ {C W : Type 0} where
  -- The request of the modules that look for a node first, then add one, and take it back if the
  -- driver refuses. `answer` is what is returned for the driver's error.
  unfoldable pub request_node :
      (C → C → Bool)
      → (ArtikError → ArtikError)
      → Driver C W
      → C
      → ℕ
      → ℕ
      → C
      → State C W
      → Requested C × State C W
  unfolding find remove modify
  request_node same answer d blank size m c s =
      let grown = added blank size m s.nodes in
      let ret = d.os_request c s.world in
      if not (find (λ _ e. same e.payload c) s.nodes == null)
      then (requested e_busy none c, s)
      else if m == null
      then (requested e_no_mem none c, s)
      else if is_ok ret.0
      then (
        requested s_ok (some m) ret.1,
        record { nodes = modify m (fill m ret.1) grown; world = ret.2 },
      )
      else (
        requested (answer ret.0) none ret.1,
        record { nodes = remove (is m) grown; world = ret.2 },
      )

  -- An operation on a node, whose configuration is its entry's payload.
  abbrev pub at_entry {ℓ} :
      {R : Type ℓ} → R → (C → W → R × C × W) → ℕ → State C W → Option (Entry C) → R × State C W
  at_entry missing op node s none = (missing, s)
  at_entry missing op node s (some e) =
      let r = op e.payload s.world in
      (r.0, record { nodes = modify node (put r.1) s.nodes; world = r.2 })

  -- An operation on the node with a handle. `missing` is the result if there is none.
  unfoldable pub on_node {ℓ} :
      {R : Type ℓ} → R → (C → W → R × C × W) → ℕ → State C W → R × State C W
  unfolding by_handle entry_at modify
  on_node missing op handle s =
      let node = by_handle handle s.nodes in
      if node == null then (missing, s) else at_entry missing op node s (entry_at node s.nodes)

  -- The release: the driver's first, and then, if it agrees, the node's.
  unfoldable pub release_node : Driver C W → ℕ → State C W → ArtikError × State C W
  release_node d handle s =
      let node = by_handle handle s.nodes in
      let r = on_node e_bad_args d.os_release handle s in
      if node == null
      then (e_bad_args, s)
      else (if is_ok r.0 then (r.0, record r.1 { nodes = remove (is node) r.1.nodes }) else r)
