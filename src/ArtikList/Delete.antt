-- ===== src/ArtikList/Delete.antt =====
-- The four deletions of one node in inc/base/artik_list.h on the lists that a heap holds.
use testing.Base.{
  ℕ, zero, suc, ◌%◌, ◌^◌, ◌≤◌, ◌<◌, ◌≡◌, ◌≢◌, ◌∙◌, refl, sym, ap, Option, none, some, List, [], ◌∷◌,
  ◌++◌, arith, ◌==◌, Bool, ==→eq, ◌⊎◌, ne→==, eq→==, Bool-cases, inl, inr, length, leb, leb→le,
  leb→lt, ArtikError, s_ok, e_bad_args,
}
use testing.ArtikList.{
  Entry, Node, Heap, null, update, store, dispose, unlink, delete_node, delete_handle, delete_pos,
  delete_check,
}
use testing.ArtikList.Abstract.{first, Fresh, find, before, remove, events, nth, remove_at, is}
use testing.ArtikList.Chain.{Linked, Linked-update, update_self, update_other}
use testing.ArtikList.Search.{seek_lem, seek_pos_lem, size_lem, find-nth, remove-nth, nth_past}

module _ {ℓ} {P : Type ℓ} where
  -- `h'` is `h` after the first node of `xs` at which the test holds has gone: the others are linked
  -- in their order, that node is no longer allocated, its `clear`, its data and itself were given
  -- back and nothing else, and no address outside the list was written to.
  pub record Deleted (stop : ℕ → Entry P → Bool) (h h' : Heap P) (xs : List (ℕ × Entry P))
      : Type ℓ where
    pub linked : Linked h'.cell (remove stop xs)
    pub released : h'.cell (find stop xs) ≡ none
    pub told : h'.trace ≡ events stop xs ++ h.trace
    pub kept : (c : ℕ) → Fresh c xs → h'.cell c ≡ h.cell c

  find-not-Fresh :
      (stop : ℕ → Entry P → Bool) (c : ℕ) (xs : List (ℕ × Entry P))
      → Fresh c xs
      → find stop xs ≢ null
      → c ≢ find stop xs
  unfolding find
  find-not-Fresh stop c [] f n = λ e. n refl
  find-not-Fresh stop c ((a, e) ∷ xs) f n = elim (Bool-cases (stop a e)) [
    | inl hit ↦ rw hit (λ q. f.0 (sym q))
    | inr miss ↦ rw miss (find-not-Fresh stop c xs f.1 (rw miss at n))
  ]

  abbrev Outcome : (ℕ → Entry P → Bool) → Heap P → ℕ → ℕ → Entry P → List (ℕ × Entry P) → Type ℓ
  Outcome stop h list p e xs =
      (h' : Heap P) × (unlink h list (before stop p xs) (find stop xs) ≡ some (s_ok, list, h'))
      × Linked h'.cell ((p, e) ∷ remove stop xs)
      × (h'.cell (find stop xs) ≡ none)
      × (h'.trace ≡ events stop xs ++ h.trace)
      × ((c : ℕ) → Fresh c ((p, e) ∷ xs) → h'.cell c ≡ h.cell c)

  Fresh-remove :
      (stop : ℕ → Entry P → Bool) (c : ℕ) (xs : List (ℕ × Entry P))
      → Fresh c xs
      → Fresh c (remove stop xs)
  unfolding remove
  Fresh-remove stop c [] f = tt
  Fresh-remove stop c ((a, e) ∷ xs) f = elim (Bool-cases (stop a e)) [
    | inl hit ↦ rw hit f.1
    | inr miss ↦ rw miss (f.0, Fresh-remove stop c xs f.1)
  ]

  -- The deletion of a node that has another one, at `p`, in front of it.
  unlink_inner :
      (stop : ℕ → Entry P → Bool) (h : Heap P) (list p : ℕ) (e : Entry P) (xs : List (ℕ × Entry P))
      → Linked h.cell ((p, e) ∷ xs)
      → find stop xs ≢ null
      → find stop xs ≢ list
      → Outcome stop h list p e xs
  unfolding unlink find before remove events
  unlink_inner stop h list p e [] l n m = absurd (n refl)
  unlink_inner stop h list p e ((b, d) ∷ ys) l n m = elim (Bool-cases (stop b d)) [
    | inl hit ↦
        let node : Node P = record { next = first ys; entry = e } in
        let v = update h.cell p (some node) in
        rw hit (
          dispose (store h p node) b d,
          rw (ne→== b null l.3.0, l.3.2, ne→== b list (rw hit at m), ne→== p null l.0, l.2),
          (
            l.0,
            l.1.1,
            update_other v b p none (λ q. l.1.0 (sym q)) ∙ update_self h.cell p (some node),
            Linked-update v b none ys l.3.1 (Linked-update h.cell p (some node) ys l.1.1 l.3.3),
          ),
          update_self v b none,
          refl,
          λ c f.
              update_other v b c none (λ q. f.1.0 (sym q))
              ∙ update_other h.cell p c (some node) (λ q. f.0 (sym q)),
        )
    | inr miss ↦
        let (h', done, linked, gone, told, kept) =
          unlink_inner stop h list b d ys l.3 (rw miss at n) (rw miss at m) in
        rw miss (
          h',
          done,
          (l.0, (l.1.0, Fresh-remove stop p ys l.1.1), kept p l.1 ∙ l.2, linked),
          gone,
          told,
          λ c f. kept c f.1,
        )
  ]

  unlink_lem :
      (stop : ℕ → Entry P → Bool) (h : Heap P) (xs : List (ℕ × Entry P))
      → Linked h.cell xs
      → find stop xs ≢ null
      → (h' : Heap P) × (unlink h (first xs) (before stop null xs) (find stop xs)
          ≡ some (s_ok, first (remove stop xs), h'))
        × Deleted stop h h' xs
  unfolding unlink find before remove events
  unlink_lem stop h [] l n = absurd (n refl)
  unlink_lem stop h ((a, e) ∷ xs) l n = elim (Bool-cases (stop a e)) [
    | inl hit ↦ (
      dispose h a e,
      rw hit (rw (ne→== a null l.0, l.2, eq→== a a refl)),
      record {
        linked = rw hit (Linked-update h.cell a none xs l.1 l.3);
        released = rw hit (update_self h.cell a none);
        told = rw hit;
        kept = λ c f. update_other h.cell a c none (λ q. f.0 (sym q));
      },
    )
    | inr miss ↦
        let n' = rw miss at n in
        let (h', done, linked, gone, told, kept) =
          unlink_inner stop h a a e xs l n' (λ q. find-not-Fresh stop a xs l.1 n' (sym q)) in
        (
          h',
          rw miss done,
          record {
            linked = rw miss linked;
            released = rw miss gone;
            told = rw miss told;
            kept = kept;
          },
        )
  ]

  -- What a deletion of the first node at which the test holds may return.
  abbrev pub Deletes :
      (ℕ → Entry P → Bool) → Heap P → List (ℕ × Entry P) → Option (ArtikError × ℕ × Heap P) → Type ℓ
  Deletes stop h xs r =
      ((find stop xs ≡ null) × (r ≡ some (e_bad_args, first xs, h)))
      ⊎ ((h' : Heap P) × (find stop xs ≢ null)
          × (r ≡ some (s_ok, first (remove stop xs), h'))
          × Deleted stop h h' xs)

  unlink-Deletes :
      (stop : ℕ → Entry P → Bool) (h : Heap P) (xs : List (ℕ × Entry P))
      → Linked h.cell xs
      → Deletes stop h xs (unlink h (first xs) (before stop null xs) (find stop xs))
  unlink-Deletes stop h xs l = elim (Bool-cases (find stop xs == null)) [
    | inl absent ↦ let e = ==→eq (find stop xs) null absent in inl (e, unfold unlink in rw e)
    | inr present ↦
        let n : find stop xs ≢ null = λ q. cc (eq→== (find stop xs) null q) in
        let (h', done, d) = unlink_lem stop h xs l n in inr (h', n, done, d)
  ]

  -- A deletion by a test takes out the first node that passes it.
  pub delete_check_lem :
      (check : ℕ → Entry P → Bool) (h : Heap P) (fuel : ℕ) (xs : List (ℕ × Entry P))
      → length xs < fuel
      → Linked h.cell xs
      → Deletes check h xs (delete_check fuel h (first xs) check)
  unfolding delete_check
  delete_check_lem check h fuel [] f l = inl (unfold find in refl, refl)
  delete_check_lem check h fuel ((a, e) ∷ xs) f l =
      rw (ne→== a null l.0)
        (rw (seek_lem check h fuel null ((a, e) ∷ xs) f l) (unlink-Deletes check h ((a, e) ∷ xs) l))

  -- A deletion by handle takes out the first node with that handle.
  pub delete_handle_lem :
      (h : Heap P) (fuel handle : ℕ) (xs : List (ℕ × Entry P))
      → length xs < fuel
      → handle ≢ null
      → Linked h.cell xs
      → Deletes (λ _ e. e.handle == handle) h xs (delete_handle fuel h (first xs) handle)
  unfolding delete_handle
  delete_handle_lem h fuel handle [] f n l = inl (unfold find in refl, refl)
  delete_handle_lem h fuel handle ((a, e) ∷ xs) f n l =
      let stop : ℕ → Entry P → Bool = λ _ e. e.handle == handle in
      rw (ne→== a null l.0, ne→== handle null n)
        (rw (seek_lem stop h fuel null ((a, e) ∷ xs) f l) (unlink-Deletes stop h ((a, e) ∷ xs) l))

  find-is_null : (xs : List (ℕ × Entry P)) → find (is null) xs ≡ null
  unfolding find
  find-is_null [] = refl
  find-is_null ((a, e) ∷ xs) = elim (Bool-cases (a == null)) [
    | inl hit ↦ rw hit (==→eq a null hit)
    | inr miss ↦ rw miss (find-is_null xs)
  ]

  -- A deletion by address takes out the node at that address, and refuses NULL.
  pub delete_node_lem :
      (h : Heap P) (fuel node : ℕ) (xs : List (ℕ × Entry P))
      → length xs < fuel
      → Linked h.cell xs
      → Deletes (is node) h xs (delete_node fuel h (first xs) node)
  unfolding delete_node
  delete_node_lem h fuel node [] f l = inl (unfold find in refl, refl)
  delete_node_lem h fuel node ((a, e) ∷ xs) f l = elim (Bool-cases (node == null)) [
    | inl nil ↦
        let z = ==→eq node null nil in
        rw (ne→== a null l.0, z) (inl (find-is_null ((a, e) ∷ xs), refl))
    | inr some_node ↦
        rw (ne→== a null l.0, some_node)
          (rw (seek_lem (is node) h fuel null ((a, e) ∷ xs) f l)
            (unlink-Deletes (is node) h ((a, e) ∷ xs) l))
  ]

  remove-is_null :
      (cell : ℕ → Option (Node P)) (xs : List (ℕ × Entry P))
      → Linked cell xs
      → remove (is null) xs ≡ xs
  unfolding remove
  remove-is_null cell [] l = refl
  remove-is_null cell ((a, e) ∷ xs) l =
      rw (ne→== a null l.0) (ap (◌∷◌ (a, e)) (remove-is_null cell xs l.3))

  remove_at_past : (xs : List (ℕ × Entry P)) (pos : ℕ) → length xs ≤ pos → remove_at xs pos ≡ xs
  unfolding remove_at
  remove_at_past [] pos h = refl
  remove_at_past (x ∷ xs) zero h = elim h [ ]
  remove_at_past (x ∷ xs) (suc pos) h = ap (◌∷◌ x) (remove_at_past xs pos (omega arith))

  -- A deletion by position takes out the node there, and nothing past the end.
  pub delete_pos_lem :
      (h : Heap P) (fuel pos : ℕ) (xs : List (ℕ × Entry P))
      → length xs < fuel
      → length xs < 2 ^ 32
      → Linked h.cell xs
      → Deletes (is (nth xs pos)) h xs (delete_pos fuel h (first xs) pos)
        × (remove (is (nth xs pos)) xs ≡ remove_at xs pos)
  unfolding delete_pos
  delete_pos_lem h fuel pos [] f b l =
      (inl (unfold find in refl, refl), unfold remove remove_at in refl)
  delete_pos_lem h fuel pos ((a, e) ∷ xs) f b l =
      let ys : List (ℕ × Entry P) = (a, e) ∷ xs in
      let n : ℕ = length ys % 2 ^ 32 in
      elim (Bool-cases (leb n pos)) [
        | inl past ↦
            let out : length ys ≤ pos = omega (arith, leb→le n pos past) in
            rw (nth_past pos ys out, ne→== a null l.0)
              (rw (size_lem h fuel ys f l) (
                rw past (
                  inl (find-is_null ys, refl),
                  remove-is_null h.cell ys l ∙ sym (remove_at_past ys pos out),
                )))
        | inr within ↦
            let inside : pos < length ys = omega (arith, leb→lt n pos within) in
            let seen =
              seek_pos_lem h pos null ys inside l
              ∙ ap (λ a. some (before (is (nth ys pos)) null ys, a))
                  (sym (find-nth h.cell pos ys inside l)) in
            rw (ne→== a null l.0) (
              rw (size_lem h fuel ys f l) (
                rw within (
                  rw seen
                    (unlink-Deletes (is (nth ys pos)) h ys l, remove-nth h.cell pos ys inside l))))
      ]
