-- ===== src/Systemio/Registry/Valid.antt =====
-- The invariant of the lists of requested nodes in src/modules/systemio: no two nodes stand for the
-- same device.
use testing.Base.{
  ℕ, ◌≡◌, ◌∙◌, sym, subst, Bool, false, some, List, [], ◌∷◌, ◌++◌, ◌==◌, All, Bool-cases, inl, inr,
  ==→eq, All-append,
}
use testing.ArtikList.{Entry, null}
use testing.ArtikList.Abstract.{Fresh, find, remove}
use testing.Systemio.Nodes.{Handled, entry_at, modify, modify-Fresh}
use testing.Systemio.Registry.{Driver, State, put}

module _ {C : Type 0} (same : C → C → Bool) where
  -- No later node stands for the same device as an earlier one.
  abbrev pub Exclusive : List (ℕ × Entry C) → Type 0
  Exclusive [] = Unit
  Exclusive ((a, e) ∷ xs) = All (λ y. same e.payload y.1.payload ≡ false) xs × Exclusive xs

  pub find-null :
      (c : C) (xs : List (ℕ × Entry C))
      → Handled xs
      → find (λ _ e. same e.payload c) xs ≡ null
      → All (λ y. same y.1.payload c ≡ false) xs
  unfolding find
  find-null c [] h n = tt
  find-null c ((a, e) ∷ xs) h n = elim (Bool-cases (same e.payload c)) [
    | inl hit ↦ absurd (h.0 (rw hit at n))
    | inr miss ↦ (miss, find-null c xs h.3 (rw miss at n))
  ]

  pub Exclusive-added :
      (m : ℕ) (e : Entry C) (xs : List (ℕ × Entry C))
      → All (λ y. same y.1.payload e.payload ≡ false) xs
      → Exclusive xs
      → Exclusive (xs ++ (m, e) ∷ [])
  Exclusive-added m e [] a h = (tt, tt)
  Exclusive-added m e ((b, d) ∷ xs) a h =
      (All-append _ xs ((m, e) ∷ []) h.0 (a.0, tt), Exclusive-added m e xs a.1 h.1)

  All-remove :
      (P : ℕ × Entry C → Type 0) (stop : ℕ → Entry C → Bool) (xs : List (ℕ × Entry C))
      → All P xs
      → All P (remove stop xs)
  unfolding remove
  All-remove P stop [] h = tt
  All-remove P stop ((a, e) ∷ xs) h = elim (Bool-cases (stop a e)) [
    | inl hit ↦ rw hit h.1
    | inr miss ↦ rw miss (h.0, All-remove P stop xs h.1)
  ]

  pub Exclusive-remove :
      (stop : ℕ → Entry C → Bool) (xs : List (ℕ × Entry C))
      → Exclusive xs
      → Exclusive (remove stop xs)
  unfolding remove
  Exclusive-remove stop [] h = tt
  Exclusive-remove stop ((a, e) ∷ xs) h = elim (Bool-cases (stop a e)) [
    | inl hit ↦ rw hit h.1
    | inr miss ↦ rw miss (All-remove _ stop xs h.0, Exclusive-remove stop xs h.1)
  ]

  -- A configuration that stands for the same device as another.
  pub record Alike (c c' : C) : Type 0 where
    pub from : (x : C) → same c' x ≡ same c x
    pub to : (x : C) → same x c' ≡ same x c

  All-modify :
      (x : C) (node : ℕ) (c : C) (xs : List (ℕ × Entry C))
      → Handled xs
      → ((e : Entry C) → entry_at node xs ≡ some e → Alike e.payload c)
      → All (λ y. same x y.1.payload ≡ false) xs
      → All (λ y. same x y.1.payload ≡ false) (modify node (put c) xs)
  unfolding entry_at modify
  All-modify x node c [] g k h = tt
  All-modify x node c ((a, e) ∷ xs) g k h = elim (Bool-cases (a == node)) [
    | inl hit ↦
        let kept = modify-Fresh node (put c) xs (subst (λ b. Fresh b xs) (==→eq a node hit) g.2) in
        rw hit (
          ((k e (rw hit)).to x ∙ h.0),
          subst (All (λ y. same x y.1.payload ≡ false)) (sym kept) h.1,
        )
    | inr miss ↦ rw miss (h.0, All-modify x node c xs g.3 (λ d q. k d (rw miss q)) h.1)
  ]

  All-Alike :
      (c c' : C) (xs : List (ℕ × Entry C))
      → Alike c c'
      → All (λ y. same c y.1.payload ≡ false) xs
      → All (λ y. same c' y.1.payload ≡ false) xs
  All-Alike c c' [] k h = tt
  All-Alike c c' ((a, e) ∷ xs) k h = (k.from e.payload ∙ h.0, All-Alike c c' xs k h.1)

  pub All-Alike_right :
      (c c' : C) (xs : List (ℕ × Entry C))
      → Alike c c'
      → All (λ y. same y.1.payload c ≡ false) xs
      → All (λ y. same y.1.payload c' ≡ false) xs
  All-Alike_right c c' [] k h = tt
  All-Alike_right c c' ((a, e) ∷ xs) k h = (k.to e.payload ∙ h.0, All-Alike_right c c' xs k h.1)

  pub Exclusive-modify :
      (node : ℕ) (c : C) (xs : List (ℕ × Entry C))
      → Handled xs
      → ((e : Entry C) → entry_at node xs ≡ some e → Alike e.payload c)
      → Exclusive xs
      → Exclusive (modify node (put c) xs)
  unfolding entry_at modify
  Exclusive-modify node c [] g k h = tt
  Exclusive-modify node c ((a, e) ∷ xs) g k h = elim (Bool-cases (a == node)) [
    | inl hit ↦
        let kept = modify-Fresh node (put c) xs (subst (λ b. Fresh b xs) (==→eq a node hit) g.2) in
        rw hit (
          subst (All (λ y. same c y.1.payload ≡ false)) (sym kept)
              (All-Alike e.payload c xs (k e (rw hit)) h.0),
          subst Exclusive (sym kept) h.1,
        )
    | inr miss ↦
        let k' : (d : Entry C) → entry_at node xs ≡ some d → Alike d.payload c =
          λ d q. k d (rw miss q) in
        rw miss (All-modify e.payload node c xs g.3 k' h.0, Exclusive-modify node c xs g.3 k' h.1)
  ]

  pub record IsValid {W : Type 0} (s : State C W) : Type 0 where
    pub handled : Handled s.nodes
    pub exclusive : Exclusive s.nodes

  -- What is required of a driver: none of its operations turns a configuration into one for another
  -- device.
  pub record KeepsDevice {W : Type 0} (d : Driver C W) : Type 0 where
    pub request_keeps : (c : C) (w : W) → Alike c (d.os_request c w).1
    pub release_keeps : (c : C) (w : W) → Alike c (d.os_release c w).1
