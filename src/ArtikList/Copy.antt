-- ===== src/ArtikList/Copy.antt =====
-- `artik_list_cpy` (inc/base/artik_list.h). Its loop variable `res` points either to the caller's
-- pointer or to the link of a node, and the caller's pointer is `dest`.
use testing.Base.{
  ℕ, zero, suc, ◌<◌, ◌≡◌, ◌≢◌, ◌∙◌, refl, sym, Option, none, some, List, [], ◌∷◌, arith, ◌==◌,
  if◌then◌else◌, ne→==, length, ArtikError, s_ok, e_bad_args, ◌>>=◌, eq→==,
}
use testing.ArtikList.{Entry, Node, Heap, null, store, delete_all}
use testing.ArtikList.Abstract.{first, Fresh}
use testing.ArtikList.Chain.{Linked, Linked-update, update_self, update_other}
use testing.ArtikList.Add.{update_same}
use testing.ArtikList.Clear.{delete_all_lem}

-- Where `res` points.
pub data Slot : Type 0 where
  caller : Slot
  link : ℕ → Slot

abbrev next_block : List ℕ → ℕ
next_block [] = null
next_block (m ∷ ms) = m

abbrev later_blocks : List ℕ → List ℕ
later_blocks [] = []
later_blocks (m ∷ ms) = ms

module _ {ℓ} {P : Type ℓ} where
  abbrev read : Heap P → ℕ → Slot → Option ℕ
  read h dest caller = some dest
  read h dest (link a) = h.cell a >>= λ n. some n.next

  abbrev write : Heap P → ℕ → Slot → ℕ → Option (ℕ × Heap P)
  write h dest caller v = some (v, h)
  write h dest (link a) v = h.cell a >>= λ n. some (dest, store h a (record n { next = v }))

  -- `if (*res == NULL) *res = malloc(...)`: the block, `dest`, the heap, the blocks that are left.
  abbrev block : Heap P → ℕ → Slot → List ℕ → Option (ℕ × ℕ × Heap P × List ℕ)
  block h dest res blocks = do
    target ← read h dest res
    let m = next_block blocks
    if target == null
        then (write h dest res m >>= λ w. some (m, w.0, w.1, later_blocks blocks))
        else some (target, dest, h, blocks)

  -- memcpy(*res, elem, sizeof(artik_list)): all but what stands behind the header, which the target
  -- keeps. A block of that size has nothing there, and `blank` is what a read beyond it sees.
  abbrev copied_entry : P → Option (Node P) → Entry P → Entry P
  copied_entry blank none e = record e { payload = blank }
  copied_entry blank (some t) e = record e { payload = t.entry.payload }

  -- The loop, and what `malloc` returns in turn. `malloc`'s result is not tested: a copy to NULL is
  -- a fault.
  unfoldable pub cpy_loop : P → ℕ → Heap P → ℕ → Slot → ℕ → List ℕ → Option (ℕ × Heap P)
  cpy_loop blank zero h dest res elem blocks = none
  cpy_loop blank (suc fuel) h dest res elem blocks = if elem == null then some (dest, h) else do
    b ← block h dest res blocks
    n ← b.2.cell elem
    let copied = store b.2 b.0 (record n { entry = copied_entry blank (b.2.cell b.0) n.entry })
    next ← (copied.cell elem >>= λ n'. some n'.next)
    let rest = cpy_loop blank fuel copied b.1 (link b.0) next b.3
    if b.0 == null then none else rest

  unfoldable pub cpy : P → ℕ → Heap P → ℕ → ℕ → List ℕ → Option (ArtikError × ℕ × Heap P)
  unfolding cpy_loop
  cpy blank fuel h list dest blocks =
      if list == null
      then some (e_bad_args, dest, h)
      else do r ← cpy_loop blank fuel h dest caller list blocks; some (s_ok, r.0, r.1)

  -- Once `res` points into the source, the loop copies each node onto itself.
  cpy_loop_idle :
      (blank : P) (fuel : ℕ) (h : Heap P) (dest p : ℕ) (e : Entry P) (xs : List (ℕ × Entry P))
      (blocks : List ℕ)
      → length xs < fuel
      → h.cell p ≡ some (record { next = first xs; entry = e })
      → Linked h.cell xs
      → cpy_loop blank fuel h dest (link p) (first xs) blocks ≡ some (dest, h)
  unfolding cpy_loop
  cpy_loop_idle blank zero h dest p e xs blocks f q l = elim f [ ]
  cpy_loop_idle blank (suc fuel) h dest p e [] blocks f q l = refl
  cpy_loop_idle blank (suc fuel) h dest p e ((a, d) ∷ xs) blocks f q l =
      let n : Node P = record { next = first xs; entry = d } in
      rw (ne→== a null l.0, q, ne→== a null l.0, l.2)
        (rw (eq→== a a refl, ne→== a null l.0)
          (rw (update_same h.cell a (some n) l.2)
            (cpy_loop_idle blank fuel h dest a d xs blocks (omega arith) l.2 l.3)))

  -- A copy to an empty destination allocates one block `m`, whatever the length of the list: the
  -- first node of the result is new, and the rest of it is the source's own nodes.
  pub cpy_lem :
      (blank : P) (fuel : ℕ) (h : Heap P) (m : ℕ) (blocks : List ℕ) (a : ℕ) (e : Entry P)
      (xs : List (ℕ × Entry P))
      → length ((a, e) ∷ xs) < fuel
      → m ≢ null
      → Fresh m ((a, e) ∷ xs)
      → Linked h.cell ((a, e) ∷ xs)
      → (h' : Heap P) × (cpy blank fuel h a null (m ∷ blocks) ≡ some (s_ok, m, h'))
        × Linked h'.cell ((m, copied_entry blank (h.cell m) e) ∷ xs)
        × Linked h'.cell ((a, e) ∷ xs)
        × (h'.trace ≡ h.trace)
        × ((c : ℕ) → c ≢ m → h'.cell c ≡ h.cell c)
  unfolding cpy cpy_loop
  cpy_lem blank zero h m blocks a e xs f n g l = elim f [ ]
  cpy_lem blank (suc fuel) h m blocks a e xs f n g l =
      let node : Node P = record { next = first xs; entry = copied_entry blank (h.cell m) e } in
      let source = Linked-update h.cell m (some node) ((a, e) ∷ xs) g l in
      let at_m = update_self h.cell m (some node) in
      (
        store h m node,
        rw (ne→== a null l.0) (
            rw (l.2, ne→== m a (λ r. g.0 (sym r)), ne→== m null n)
              (rw (
                cpy_loop_idle blank fuel (store h m node) m m node.entry xs blocks (omega arith)
                  at_m source.3))),
        (n, g.1, at_m, source.3),
        source,
        refl,
        λ c r. update_other h.cell m c (some node) r,
      )

  -- So giving a copy back takes the source's nodes with it: the source's first node stays, and
  -- points to a second node that is not allocated any more.
  pub cpy-delete_all :
      (blank : P) (fuel : ℕ) (h : Heap P) (m : ℕ) (blocks : List ℕ) (a : ℕ) (e : Entry P) (b : ℕ)
      (d : Entry P) (xs : List (ℕ × Entry P))
      → length ((a, e) ∷ (b, d) ∷ xs) < fuel
      → m ≢ null
      → Fresh m ((a, e) ∷ (b, d) ∷ xs)
      → Linked h.cell ((a, e) ∷ (b, d) ∷ xs)
      → (h' : Heap P) × (h'' : Heap P) × (cpy blank fuel h a null (m ∷ blocks) ≡ some (s_ok, m, h'))
        × (delete_all fuel h' m ≡ some (s_ok, null, h''))
        × (h''.cell a ≡ some (record { next = b; entry = e }))
        × (h''.cell b ≡ none)
  cpy-delete_all blank fuel h m blocks a e b d xs f n g l =
      let (h', copied, copy, source, _, _) =
        cpy_lem blank fuel h m blocks a e ((b, d) ∷ xs) f n g l in
      let (h'', done, c) =
        delete_all_lem fuel h' (m, copied_entry blank (h.cell m) e) ((b, d) ∷ xs) f copy in
      (h', h'', copied, done, c.kept a ((λ r. g.0 (sym r)), source.1) ∙ source.2, c.released.1.0)
