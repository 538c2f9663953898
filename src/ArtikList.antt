-- ===== src/ArtikList.antt =====
-- inc/base/artik_list.h: the generic linked list, on an explicit heap.
--
-- A pointer is a number and NULL is 0. A heap maps an address to the node that is allocated there;
-- `none` as a result is a fault or a loop that used up its fuel. A node of the C program starts with
-- an `artik_list`, and goes on with the fields of the module that embeds it: those are the payload.
-- `list` itself (the `artik_list **` of the operations that change it) is never NULL here: they take
-- the value of `*list` and return the new one.
pub mod Abstract
pub mod Chain
pub mod Search
pub mod Delete
pub mod Add
pub mod Clear
pub mod Copy
mod Examples
use testing.Base.{
  ℕ, zero, suc, ◌+◌, ◌-◌, ◌%◌, ◌^◌, Bool, ◌||◌, Option, none, some, List, [], ◌∷◌, ◌++◌, leb, ◌==◌,
  if◌then◌else◌, ArtikError, s_ok, e_bad_args, ◌>>=◌,
}

-- What a node holds beside its link.
pub record Entry {ℓ} (P : Type ℓ) : Type ℓ where
  pub clear : ℕ
  pub handle : ℕ
  pub size_data : ℕ
  pub content : ℕ
  pub payload : P

pub record Node {ℓ} (P : Type ℓ) : Type ℓ where
  pub next : ℕ
  pub entry : Entry P

-- What the list gives back: a call of a node's `clear`, a `free`.
pub data Event : Type 0 where
  cleared freed : ℕ → Event

pub record Heap {ℓ} (P : Type ℓ) : Type ℓ where
  pub cell : ℕ → Option (Node P)
  -- Newest first.
  pub trace : List Event

abbrev pub null : ℕ
null = 0

-- sizeof(artik_list) where pointers have 8 bytes.
abbrev pub sizeof_list : ℕ
sizeof_list = 40

module _ {ℓ} {P : Type ℓ} where
  abbrev pub update : (ℕ → Option (Node P)) → ℕ → Option (Node P) → ℕ → Option (Node P)
  update cell p v q = if p == q then v else cell q

  abbrev pub store : Heap P → ℕ → Node P → Heap P
  store h p n = record h { cell = update h.cell p (some n) }

  -- The address of the last node of a list that is not empty: the first loop of `artik_list_add`.
  unfoldable pub last : ℕ → Heap P → ℕ → Option ℕ
  last zero h elem = none
  last (suc fuel) h elem = do
    n ← h.cell elem
    let rest = last fuel h n.next
    if n.next == null then some elem else rest

  abbrev pub new_entry : P → ℕ → ℕ → ℕ → Entry P
  new_entry blank handle size m = record {
    clear = null;
    handle = if handle == null then m else handle;
    size_data = (size + 2 ^ 32 - sizeof_list) % 2 ^ 32;
    content = null;
    payload = blank;
  }

  -- `m` is what `malloc` returned, and `blank` the payload whose bytes are all 0. The results are
  -- the returned node, `*list` and the heap.
  unfoldable pub add : ℕ → P → ℕ → Heap P → ℕ → ℕ → ℕ → Option (ℕ × ℕ × Heap P)
  unfolding last
  add fuel blank m h list handle size =
      let node : Node P = record { next = null; entry = new_entry blank handle size m } in
      if list == null
      then (if m == null then some (null, list, h) else some (m, m, store h m node))
      else do
        elem ← last fuel h list
        n ← h.cell elem
        let linked = store h elem (record n { next = m })
        if m == null then some (null, list, linked) else some (m, list, store linked m node)

  -- The loop of `artik_list_size`, whose counter is an `unsigned int`.
  unfoldable pub count : ℕ → Heap P → ℕ → ℕ → Option ℕ
  count zero h elem res = none
  count (suc fuel) h elem res =
      if elem == null
      then some res
      else do n ← h.cell elem; count fuel h n.next ((res + 1) % 2 ^ 32)

  unfoldable pub size : ℕ → Heap P → ℕ → Option ℕ
  unfolding count
  size fuel h list = count fuel h list 0

  -- The loop of the searches: the first node at which `stop` holds, or NULL, and the node before it.
  unfoldable pub seek : (ℕ → Entry P → Bool) → ℕ → Heap P → ℕ → ℕ → Option (ℕ × ℕ)
  seek stop zero h prev elem = none
  seek stop (suc fuel) h prev elem = if elem == null then some (prev, null) else do
    n ← h.cell elem
    let rest = seek stop fuel h elem n.next
    if stop elem n.entry then some (prev, elem) else rest

  -- The loop of the operations on a position.
  unfoldable pub seek_pos : Heap P → ℕ → ℕ → ℕ → Option (ℕ × ℕ)
  seek_pos h zero prev elem = some (prev, elem)
  seek_pos h (suc pos) prev elem =
      if elem == null then some (prev, null) else do n ← h.cell elem; seek_pos h pos elem n.next

  -- The events of giving a node back, newest first.
  abbrev pub disposal : ℕ → Entry P → List Event
  disposal elem e =
      let clears = if e.clear == null then [] else cleared elem ∷ [] in
      freed elem ∷ (if e.content == null then clears else freed e.content ∷ clears)

  abbrev pub dispose : Heap P → ℕ → Entry P → Heap P
  dispose h elem e = record { cell = update h.cell elem none; trace = disposal elem e ++ h.trace }

  -- What every deletion does with the node that its loop stopped at.
  unfoldable pub unlink : Heap P → ℕ → ℕ → ℕ → Option (ArtikError × ℕ × Heap P)
  unlink h list prev elem = if elem == null then some (e_bad_args, list, h) else do
    n ← h.cell elem
    let list' = if elem == list then n.next else list
    if prev == null then some (s_ok, list', dispose h elem n.entry) else do
      before ← h.cell prev
      some (s_ok, list', dispose (store h prev (record before { next = n.next })) elem n.entry)

  unfoldable pub delete_node : ℕ → Heap P → ℕ → ℕ → Option (ArtikError × ℕ × Heap P)
  unfolding seek unlink
  delete_node fuel h list node =
      if list == null || node == null
      then some (e_bad_args, list, h)
      else do found ← seek (λ a _. a == node) fuel h null list; unlink h list found.0 found.1

  unfoldable pub delete_handle : ℕ → Heap P → ℕ → ℕ → Option (ArtikError × ℕ × Heap P)
  unfolding seek unlink
  delete_handle fuel h list handle =
      if list == null || handle == null then some (e_bad_args, list, h) else do
        found ← seek (λ _ e. e.handle == handle) fuel h null list
        unlink h list found.0 found.1

  unfoldable pub delete_pos : ℕ → Heap P → ℕ → ℕ → Option (ArtikError × ℕ × Heap P)
  unfolding size seek_pos unlink
  delete_pos fuel h list pos = if list == null then some (e_bad_args, list, h) else do
    total ← size fuel h list
    if leb total pos
        then some (e_bad_args, list, h)
        else do found ← seek_pos h pos null list; unlink h list found.0 found.1

  unfoldable pub delete_check :
      ℕ → Heap P → ℕ → (ℕ → Entry P → Bool) → Option (ArtikError × ℕ × Heap P)
  unfolding seek unlink
  delete_check fuel h list check =
      if list == null
      then some (e_bad_args, list, h)
      else do found ← seek check fuel h null list; unlink h list found.0 found.1

  -- The loop of `artik_list_delete_all`.
  unfoldable pub clear_from : ℕ → Heap P → ℕ → Option (ℕ × Heap P)
  clear_from zero h list = none
  clear_from (suc fuel) h list =
      if list == null
      then some (null, h)
      else do n ← h.cell list; clear_from fuel (dispose h list n.entry) n.next

  unfoldable pub delete_all : ℕ → Heap P → ℕ → Option (ArtikError × ℕ × Heap P)
  unfolding clear_from
  delete_all fuel h list =
      if list == null
      then some (e_bad_args, list, h)
      else do left ← clear_from fuel h list; some (s_ok, left.0, left.1)

  unfoldable pub get_by_handle : ℕ → Heap P → ℕ → ℕ → Option ℕ
  unfolding seek
  get_by_handle fuel h list handle =
      if list == null || handle == null
      then some null
      else do found ← seek (λ _ e. e.handle == handle) fuel h null list; some found.1

  unfoldable pub get_by_pos : ℕ → Heap P → ℕ → ℕ → Option ℕ
  unfolding size seek_pos
  get_by_pos fuel h list pos = if list == null then some null else do
    total ← size fuel h list
    if leb total pos then some null else (do found ← seek_pos h pos null list; some found.1)

  unfoldable pub get_by_check : ℕ → Heap P → ℕ → (ℕ → Entry P → Bool) → Option ℕ
  unfolding seek
  get_by_check fuel h list check =
      if list == null then some null else do found ← seek check fuel h null list; some found.1

  unfoldable pub end : ℕ → Heap P → ℕ → Option ℕ
  unfolding last
  end fuel h list = if list == null then some null else last fuel h list
