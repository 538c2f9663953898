-- ===== src/Systemio/Nodes/Handles.antt =====
-- A handle of src/modules/systemio is the address of its node, so the search for it finds that node
-- as long as it is in the list.
use testing.Base.{
  ℕ, ◌≡◌, ◌≢◌, ◌∙◌, refl, sym, ap, subst, Bool, some, List, [], ◌∷◌, ◌++◌, ◌==◌, Bool-cases, inl,
  inr, ◌⊎◌, ==→eq, eq→==, ne→==,
}
use testing.ArtikList.{Entry, null}
use testing.ArtikList.Abstract.{Fresh, find, remove, is}
use testing.Systemio.Nodes.{Handled, Handled-remove, by_handle, entry_at, modify, modify-Fresh}

module _ {C : Type 0} where
  abbrev has : ℕ → ℕ → Entry C → Bool
  has handle _ e = e.handle == handle

  find-has_added :
      (m : ℕ) (e : Entry C) (xs : List (ℕ × Entry C))
      → e.handle ≡ m
      → Fresh m xs
      → Handled xs
      → (find (has m) (xs ++ (m, e) ∷ []) ≡ m) × (entry_at m (xs ++ (m, e) ∷ []) ≡ some e)
  unfolding find entry_at
  find-has_added m e [] q f h = (rw (eq→== e.handle m q), rw (eq→== m m refl))
  find-has_added m e ((a, d) ∷ xs) q f h =
      let (p, r) = find-has_added m e xs q f.1 h.3 in
      (rw (ne→== d.handle m (λ t. f.0 (sym h.1 ∙ t))) p, rw (ne→== a m f.0) r)

  pub by_handle-added :
      (m : ℕ) (e : Entry C) (xs : List (ℕ × Entry C))
      → m ≢ null
      → e.handle ≡ m
      → Fresh m xs
      → Handled xs
      → (by_handle m (xs ++ (m, e) ∷ []) ≡ m) × (entry_at m (xs ++ (m, e) ∷ []) ≡ some e)
  unfolding by_handle
  by_handle-added m e xs n q f h =
      let (p, r) = find-has_added m e xs q f h in (rw (ne→== m null n) p, r)

  find-has_cases :
      (handle : ℕ) (xs : List (ℕ × Entry C))
      → Handled xs
      → (find (has handle) xs ≡ null) ⊎ (find (has handle) xs ≡ handle)
  unfolding find
  find-has_cases handle [] h = inl refl
  find-has_cases handle ((a, e) ∷ xs) h = elim (Bool-cases (e.handle == handle)) [
    | inl hit ↦ inr (rw hit (sym h.1 ∙ ==→eq e.handle handle hit))
    | inr miss ↦ rw miss (find-has_cases handle xs h.3)
  ]

  pub by_handle-cases :
      (handle : ℕ) (xs : List (ℕ × Entry C))
      → Handled xs
      → (by_handle handle xs ≡ null) ⊎ (by_handle handle xs ≡ handle)
  unfolding by_handle
  by_handle-cases handle xs h = elim (Bool-cases (handle == null)) [
    | inl nil ↦ inl (rw nil)
    | inr there ↦ rw there (find-has_cases handle xs h)
  ]

  Fresh-has :
      (handle : ℕ) (xs : List (ℕ × Entry C))
      → Handled xs
      → Fresh handle xs
      → find (has handle) xs ≡ null
  unfolding find
  Fresh-has handle [] h f = refl
  Fresh-has handle ((a, e) ∷ xs) h f =
      rw (ne→== e.handle handle (λ t. f.0 (sym h.1 ∙ t))) (Fresh-has handle xs h.3 f.1)

  Fresh-remove_self :
      (node : ℕ) (xs : List (ℕ × Entry C)) → Handled xs → Fresh node (remove (is node) xs)
  unfolding remove
  Fresh-remove_self node [] h = tt
  Fresh-remove_self node ((a, e) ∷ xs) h = elim (Bool-cases (a == node)) [
    | inl hit ↦ rw hit (subst (λ b. Fresh b xs) (==→eq a node hit) h.2)
    | inr miss ↦ rw miss ((λ q. cc (eq→== a node q)), Fresh-remove_self node xs h.3)
  ]

  -- A node that was taken out is not found by its handle any more.
  pub by_handle-remove :
      (handle : ℕ) (xs : List (ℕ × Entry C))
      → Handled xs
      → by_handle handle (remove (is handle) xs) ≡ null
  unfolding by_handle
  by_handle-remove handle xs h = elim (Bool-cases (handle == null)) [
    | inl nil ↦ rw nil
    | inr there ↦ rw there (
        Fresh-has handle (remove (is handle) xs) (Handled-remove (is handle) xs h)
          (Fresh-remove_self handle xs h))
  ]

  entry_of_has :
      (handle : ℕ) (xs : List (ℕ × Entry C))
      → Handled xs
      → handle ≢ null
      → find (has handle) xs ≡ handle
      → (e : Entry C) × (entry_at handle xs ≡ some e)
  unfolding find entry_at
  entry_of_has handle [] h n q = absurd (n (sym q))
  entry_of_has handle ((a, e) ∷ xs) h n q = elim (Bool-cases (e.handle == handle)) [
    | inl hit ↦ (e, rw (eq→== a handle (sym h.1 ∙ ==→eq e.handle handle hit)))
    | inr miss ↦
        let (d, r) = entry_of_has handle xs h.3 n (rw miss at q) in
        (d, rw (ne→== a handle (λ t. cc (eq→== e.handle handle (h.1 ∙ t)))) r)
  ]

  -- A handle that is found leads to an entry.
  pub by_handle-entry :
      (handle : ℕ) (xs : List (ℕ × Entry C))
      → Handled xs
      → by_handle handle xs ≢ null
      → (handle ≢ null)
        × (by_handle handle xs ≡ handle)
        × ((e : Entry C) × (entry_at handle xs ≡ some e))
  unfolding by_handle
  by_handle-entry handle xs h n = elim (Bool-cases (handle == null)) [
    | inl nil ↦ absurd (n (rw nil))
    | inr there ↦
        let n' = rw there at n in
        let there' : handle ≢ null = λ q. cc (eq→== handle null q) in
        elim (find-has_cases handle xs h) [
          | inl q ↦ absurd (n' q)
          | inr q ↦ (there', rw there q, entry_of_has handle xs h there' q)
        ]
  ]

  -- What was written to a node goes with it.
  pub remove-modify :
      (node : ℕ) (f : Entry C → Entry C) (xs : List (ℕ × Entry C))
      → Handled xs
      → remove (is node) (modify node f xs) ≡ remove (is node) xs
  unfolding remove modify
  remove-modify node f [] h = refl
  remove-modify node f ((a, e) ∷ xs) h = elim (Bool-cases (a == node)) [
    | inl hit ↦ rw hit (modify-Fresh node f xs (subst (λ b. Fresh b xs) (==→eq a node hit) h.2))
    | inr miss ↦ rw miss (ap (◌∷◌ (a, e)) (remove-modify node f xs h.3))
  ]
