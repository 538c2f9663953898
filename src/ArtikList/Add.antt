-- ===== src/ArtikList/Add.antt =====
-- `artik_list_add` (inc/base/artik_list.h) on the lists that a heap holds.
use mathlib.Core.Path.{fun_ext}
use testing.Base.{
  ℕ, ◌<◌, ◌≡◌, ◌≢◌, ◌∙◌, refl, sym, ap, Option, some, List, [], ◌∷◌, ◌++◌, arith, ◌==◌, ne→==,
  Bool-cases, inl, inr, length, ==→eq,
}
use testing.ArtikList.{Entry, Node, Heap, null, update, store, new_entry, add}
use testing.ArtikList.Abstract.{first, Fresh, final}
use testing.ArtikList.Chain.{Linked, update_self, update_other}
use testing.ArtikList.Search.{last_lem}

module _ {ℓ} {P : Type ℓ} where
  -- A write of what is there already.
  pub update_same :
      (cell : ℕ → Option (Node P)) (a : ℕ) (v : Option (Node P))
      → cell a ≡ v
      → update cell a v ≡ cell
  update_same cell a v h = fun_ext λ b. elim (Bool-cases (a == b)) [
    | inl e ↦ rw e (sym h ∙ ap cell (==→eq a b e))
    | inr e ↦ rw e
  ]

  Fresh-append :
      (c : ℕ) (xs : List (ℕ × Entry P)) (y : ℕ × Entry P)
      → Fresh c xs
      → y.0 ≢ c
      → Fresh c (xs ++ y ∷ [])
  Fresh-append c [] y f n = (n, tt)
  Fresh-append c (x ∷ xs) y f n = (f.0, Fresh-append c xs y f.1 n)

  final-entry :
      (cell : ℕ → Option (Node P)) (a : ℕ) (e : Entry P) (xs : List (ℕ × Entry P))
      → Linked cell ((a, e) ∷ xs)
      → (d : Entry P) × (cell (final ((a, e) ∷ xs)) ≡ some (record { next = null; entry = d }))
  unfolding final
  final-entry cell a e [] l = (e, l.2)
  final-entry cell a e ((b, d) ∷ xs) l = final-entry cell b d xs l.3

  Fresh-final :
      (c : ℕ) (x : ℕ × Entry P) (xs : List (ℕ × Entry P)) → Fresh c (x ∷ xs) → c ≢ final (x ∷ xs)
  unfolding final
  Fresh-final c (a, e) [] f = λ q. f.0 (sym q)
  Fresh-final c (a, e) (x ∷ xs) f = Fresh-final c x xs f.1

  abbrev linked_to : (ℕ → Option (Node P)) → ℕ → Entry P → ℕ → Entry P → ℕ → Option (Node P)
  linked_to cell z d m fresh =
      update (update cell z (some (record { next = m; entry = d }))) m
        (some (record { next = null; entry = fresh }))

  Linked-append :
      (cell : ℕ → Option (Node P)) (a : ℕ) (e : Entry P) (xs : List (ℕ × Entry P)) (m : ℕ)
      (fresh d : Entry P)
      → m ≢ null
      → Fresh m ((a, e) ∷ xs)
      → Linked cell ((a, e) ∷ xs)
      → cell (final ((a, e) ∷ xs)) ≡ some (record { next = null; entry = d })
      → Linked (linked_to cell (final ((a, e) ∷ xs)) d m fresh) (((a, e) ∷ xs) ++ (m, fresh) ∷ [])
  unfolding final
  Linked-append cell a e [] m fresh d n f l q =
      let same : d ≡ e = cc in
      let node : Node P = record { next = m; entry = d } in
      (
        l.0,
        (λ r. f.0 (sym r), tt),
        update_other (update cell a (some node)) m a _ f.0
            ∙ update_self cell a (some node)
            ∙ ap (λ x. some (record { next = m; entry = x })) same,
        (n, tt, update_self (update cell a (some node)) m _, tt),
      )
  Linked-append cell a e ((b, c) ∷ xs) m fresh d n f l q =
      let z = final ((b, c) ∷ xs) in
      let node : Node P = record { next = m; entry = d } in
      (
        l.0,
        Fresh-append a ((b, c) ∷ xs) (m, fresh) l.1 (λ r. f.0 (sym r)),
        update_other (update cell z (some node)) m a _ f.0
            ∙ update_other cell z a (some node) (Fresh-final a (b, c) xs l.1)
            ∙ l.2,
        Linked-append cell b c xs m fresh d n f.1 l.3 q,
      )

  -- An allocation that fails leaves the heap and the list as they were.
  pub add_fails :
      (fuel : ℕ) (blank : P) (h : Heap P) (handle size : ℕ) (xs : List (ℕ × Entry P))
      → length xs < fuel
      → Linked h.cell xs
      → add fuel blank null h (first xs) handle size ≡ some (null, first xs, h)
  unfolding add
  add_fails fuel blank h handle size [] f l = refl
  add_fails fuel blank h handle size ((a, e) ∷ xs) f l =
      let (d, q) = final-entry h.cell a e xs l in
      rw (ne→== a null l.0) (
        rw (last_lem h fuel (a, e) xs (omega arith) l) (
          rw q (
            ap (λ c. some (null, a, record h { cell = c }))
              (update_same h.cell (final ((a, e) ∷ xs)) _ q))))

  -- One that succeeds, at an address that the list does not have, puts the new node at the end. It
  -- is returned, nothing is given back, and no other address outside the list was written to.
  pub add_lem :
      (fuel : ℕ) (blank : P) (m : ℕ) (h : Heap P) (handle size : ℕ) (xs : List (ℕ × Entry P))
      → length xs < fuel
      → m ≢ null
      → Fresh m xs
      → Linked h.cell xs
      → let ys = xs ++ (m, new_entry blank handle size m) ∷ [] in
        (h' : Heap P) × (add fuel blank m h (first xs) handle size ≡ some (m, first ys, h'))
        × Linked h'.cell ys
        × (h'.trace ≡ h.trace)
        × ((c : ℕ) → Fresh c xs → c ≢ m → h'.cell c ≡ h.cell c)
  unfolding add
  add_lem fuel blank m h handle size [] f n fm l =
      let node : Node P = record { next = null; entry = new_entry blank handle size m } in
      (
        store h m node,
        rw (ne→== m null n),
        (n, tt, update_self h.cell m (some node), tt),
        refl,
        λ c _ r. update_other h.cell m c (some node) r,
      )
  add_lem fuel blank m h handle size ((a, e) ∷ xs) f n fm l =
      let fresh : Entry P = new_entry blank handle size m in
      let (d, q) = final-entry h.cell a e xs l in
      let z = final ((a, e) ∷ xs) in
      (
        record h { cell = linked_to h.cell z d m fresh },
        rw (ne→== a null l.0)
            (rw (last_lem h fuel (a, e) xs (omega arith) l) (rw q (rw (ne→== m null n)))),
        Linked-append h.cell a e xs m fresh d n fm l q,
        refl,
        λ c g r.
            update_other (update h.cell z _) m c _ r
            ∙ update_other h.cell z c _ (Fresh-final c (a, e) xs g),
      )
