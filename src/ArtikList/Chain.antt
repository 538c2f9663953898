-- ===== src/ArtikList/Chain.antt =====
-- When a heap holds a list, and what a write elsewhere leaves of it.
use testing.Base.{ℕ, ◌≡◌, ◌≢◌, sym, Option, some, List, [], ◌∷◌, arith, ne→==}
use testing.ArtikList.{Entry, Node, null, update}
use testing.ArtikList.Abstract.{first, Fresh}

module _ {ℓ} {P : Type ℓ} where
  -- Every node of the list is allocated at its own address, which is not NULL, and points to the
  -- next one; the last one points to NULL.
  abbrev pub Linked : (ℕ → Option (Node P)) → List (ℕ × Entry P) → Type ℓ
  Linked cell [] = Unit
  Linked cell ((a, e) ∷ xs) =
      (a ≢ null)
      × Fresh a xs
      × (cell a ≡ some (record { next = first xs; entry = e }))
      × Linked cell xs

  pub update_self :
      (cell : ℕ → Option (Node P)) (a : ℕ) (v : Option (Node P)) → update cell a v a ≡ v
  update_self cell a v = ground arith

  pub update_other :
      (cell : ℕ → Option (Node P)) (a b : ℕ) (v : Option (Node P))
      → b ≢ a
      → update cell a v b ≡ cell b
  update_other cell a b v h = rw (ne→== a b (λ e. h (sym e)))

  -- A write at an address that the list does not have.
  pub Linked-update :
      (cell : ℕ → Option (Node P)) (a : ℕ) (v : Option (Node P)) (xs : List (ℕ × Entry P))
      → Fresh a xs
      → Linked cell xs
      → Linked (update cell a v) xs
  Linked-update cell a v [] f l = tt
  Linked-update cell a v ((b, e) ∷ xs) f l =
      (l.0, l.1, rw (update_other cell a b v f.0) l.2, Linked-update cell a v xs f.1 l.3)
