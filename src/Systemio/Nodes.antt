-- ===== src/Systemio/Nodes.antt =====
-- The lists of requested nodes that the modules of src/modules/systemio keep, and what they do with
-- them through inc/base/artik_list.h. A node's payload is the configuration that it embeds.
pub mod Handles
use testing.Base.{
  ℕ, ◌≡◌, ◌≢◌, ◌∙◌, refl, sym, ap, Bool, Option, none, some, List, [], ◌∷◌, ◌++◌, ◌==◌,
  if◌then◌else◌, Bool-cases, inl, inr, eq→==, ne→==,
}
use testing.ArtikList.{Entry, null, new_entry}
use testing.ArtikList.Abstract.{Fresh, find, remove, is}

module _ {ℓ} {C : Type ℓ} where
  -- `artik_list_get_by_handle`.
  unfoldable pub by_handle : ℕ → List (ℕ × Entry C) → ℕ
  unfolding find
  by_handle handle xs = if handle == null then null else find (λ _ e. e.handle == handle) xs

  -- `artik_list_add` with no handle of the caller's.
  abbrev pub added : C → ℕ → ℕ → List (ℕ × Entry C) → List (ℕ × Entry C)
  added blank size m xs = xs ++ (m, new_entry blank null size m) ∷ []

  -- A write to the node at an address.
  unfoldable pub modify : ℕ → (Entry C → Entry C) → List (ℕ × Entry C) → List (ℕ × Entry C)
  modify node f [] = []
  modify node f ((a, e) ∷ xs) = (a, if a == node then f e else e) ∷ modify node f xs

  -- A read of the node at an address.
  unfoldable pub entry_at : ℕ → List (ℕ × Entry C) → Option (Entry C)
  entry_at node [] = none
  entry_at node ((a, e) ∷ xs) = if a == node then some e else entry_at node xs

  -- The addresses are distinct and none is NULL, and each node's handle is its address.
  abbrev pub Handled : List (ℕ × Entry C) → Type 0
  Handled [] = Unit
  Handled ((a, e) ∷ xs) = (a ≢ null) × (e.handle ≡ a) × Fresh a xs × Handled xs

  pub Fresh-added :
      (b m : ℕ) (e : Entry C) (xs : List (ℕ × Entry C))
      → Fresh b xs
      → b ≢ m
      → Fresh b (xs ++ (m, e) ∷ [])
  Fresh-added b m e [] f n = ((λ q. n (sym q)), tt)
  Fresh-added b m e (x ∷ xs) f n = (f.0, Fresh-added b m e xs f.1 n)

  pub Handled-added :
      (m : ℕ) (e : Entry C) (xs : List (ℕ × Entry C))
      → m ≢ null
      → e.handle ≡ m
      → Fresh m xs
      → Handled xs
      → Handled (xs ++ (m, e) ∷ [])
  Handled-added m e [] n q f h = (n, q, tt, tt)
  Handled-added m e ((a, d) ∷ xs) n q f h =
      (h.0, h.1, Fresh-added a m e xs h.2 f.0, Handled-added m e xs n q f.1 h.3)

  pub Fresh-remove :
      (stop : ℕ → Entry C → Bool) (c : ℕ) (xs : List (ℕ × Entry C))
      → Fresh c xs
      → Fresh c (remove stop xs)
  unfolding remove
  Fresh-remove stop c [] f = tt
  Fresh-remove stop c ((a, e) ∷ xs) f = elim (Bool-cases (stop a e)) [
    | inl hit ↦ rw hit f.1
    | inr miss ↦ rw miss (f.0, Fresh-remove stop c xs f.1)
  ]

  pub Handled-remove :
      (stop : ℕ → Entry C → Bool) (xs : List (ℕ × Entry C)) → Handled xs → Handled (remove stop xs)
  unfolding remove
  Handled-remove stop [] h = tt
  Handled-remove stop ((a, e) ∷ xs) h = elim (Bool-cases (stop a e)) [
    | inl hit ↦ rw hit h.3
    | inr miss ↦ rw miss (h.0, h.1, Fresh-remove stop a xs h.2, Handled-remove stop xs h.3)
  ]

  pub Fresh-modify :
      (c node : ℕ) (f : Entry C → Entry C) (xs : List (ℕ × Entry C))
      → Fresh c xs
      → Fresh c (modify node f xs)
  unfolding modify
  Fresh-modify c node f [] h = tt
  Fresh-modify c node f ((a, e) ∷ xs) h = (h.0, Fresh-modify c node f xs h.1)

  -- A write that keeps the handle.
  pub Handled-modify :
      (node : ℕ) (f : Entry C → Entry C) (xs : List (ℕ × Entry C))
      → ((e : Entry C) → (f e).handle ≡ e.handle)
      → Handled xs
      → Handled (modify node f xs)
  unfolding modify
  Handled-modify node f [] k h = tt
  Handled-modify node f ((a, e) ∷ xs) k h = elim (Bool-cases (a == node)) [
    | inl hit ↦
        rw hit (h.0, k e ∙ h.1, Fresh-modify a node f xs h.2, Handled-modify node f xs k h.3)
    | inr miss ↦ rw miss (h.0, h.1, Fresh-modify a node f xs h.2, Handled-modify node f xs k h.3)
  ]

  pub modify-Fresh :
      (node : ℕ) (f : Entry C → Entry C) (xs : List (ℕ × Entry C))
      → Fresh node xs
      → modify node f xs ≡ xs
  unfolding modify
  modify-Fresh node f [] h = refl
  modify-Fresh node f ((a, e) ∷ xs) h =
      rw (ne→== a node h.0) (ap (◌∷◌ (a, e)) (modify-Fresh node f xs h.1))

  -- A write to the node that was added.
  pub modify-added :
      (m : ℕ) (e : Entry C) (f : Entry C → Entry C) (xs : List (ℕ × Entry C))
      → Fresh m xs
      → modify m f (xs ++ (m, e) ∷ []) ≡ xs ++ (m, f e) ∷ []
  unfolding modify
  modify-added m e f [] h = rw (eq→== m m refl)
  modify-added m e f ((a, d) ∷ xs) h =
      rw (ne→== a m h.0) (ap (◌∷◌ (a, d)) (modify-added m e f xs h.1))

  -- A removal of the node that was added.
  pub remove-added :
      (m : ℕ) (e : Entry C) (xs : List (ℕ × Entry C))
      → Fresh m xs
      → remove (is m) (xs ++ (m, e) ∷ []) ≡ xs
  unfolding remove
  remove-added m e [] h = rw (eq→== m m refl)
  remove-added m e ((a, d) ∷ xs) h = rw (ne→== a m h.0) (ap (◌∷◌ (a, d)) (remove-added m e xs h.1))
