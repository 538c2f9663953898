-- ===== src/Systemio/Registry/Again.antt =====
-- Requests of src/modules/systemio for a device that was released.
use testing.Base.{
  ℕ, ◌≡◌, ◌≢◌, refl, subst, Bool, true, false, some, List, [], ◌∷◌, ◌==◌, All, Bool-cases, inl, inr,
  is_ok, ArtikError,
}
use testing.ArtikList.{Entry, null}
use testing.ArtikList.Abstract.{Fresh, find, remove, is}
use testing.Systemio.Nodes.{entry_at}
use testing.Systemio.Registry.{Driver, State, request_node, release_node}
use testing.Systemio.Registry.Valid.{Exclusive, IsValid}
use testing.Systemio.Registry.Laws.{request_cases}
use testing.Systemio.Registry.Release.{release_cases}

module _ {C : Type 0} (same : C → C → Bool) where
  -- Two configurations that stand for one device stand for each other's.
  abbrev pub IsEuclidean : Type 0
  IsEuclidean = (x y z : C) → same x z ≡ true → same y z ≡ true → same x y ≡ true

  entry-All :
      (P : C → Type 0) (node : ℕ) (e : Entry C) (xs : List (ℕ × Entry C))
      → entry_at node xs ≡ some e
      → All (λ y. P y.1.payload) xs
      → P e.payload
  unfolding entry_at
  entry-All P node e [] t h = cc
  entry-All P node e ((a, d) ∷ xs) t h = elim (Bool-cases (a == node)) [
    | inl hit ↦
        let t' = rw hit at t in
        let same_entry : d ≡ e = cc in subst (λ x. P x.payload) same_entry h.0
    | inr miss ↦ entry-All P node e xs (rw miss at t) h.1
  ]

  find_apart :
      (x c : C) (xs : List (ℕ × Entry C))
      → IsEuclidean
      → same x c ≡ true
      → All (λ y. same x y.1.payload ≡ false) xs
      → find (λ _ e. same e.payload c) xs ≡ null
  unfolding find
  find_apart x c [] u q h = refl
  find_apart x c ((a, e) ∷ xs) u q h = elim (Bool-cases (same e.payload c)) [
    | inl hit ↦ let both = u x e.payload c q hit in let apart = h.0 in cc
    | inr miss ↦ rw miss (find_apart x c xs u q h.1)
  ]

  find-remove :
      (node : ℕ) (e : Entry C) (c : C) (xs : List (ℕ × Entry C))
      → IsEuclidean
      → same e.payload c ≡ true
      → entry_at node xs ≡ some e
      → Exclusive same xs
      → find (λ _ e. same e.payload c) (remove (is node) xs) ≡ null
  unfolding find remove entry_at
  find-remove node e c [] u q t v = refl
  find-remove node e c ((a, d) ∷ xs) u q t v = elim (Bool-cases (a == node)) [
    | inl hit ↦
        let t' = rw hit at t in
        let same_entry : d ≡ e = cc in
        rw hit (
          find_apart e.payload c xs u q (
            subst (λ (x : Entry C). All (λ y. same x.payload y.1.payload ≡ false) xs) same_entry
              v.0))
    | inr miss ↦
        let t' = rw miss at t in
        let apart = entry-All (λ p. same d.payload p ≡ false) node e xs t' v.0 in
        elim (Bool-cases (same d.payload c)) [
          | inl hit ↦ let both = u d.payload e.payload c hit q in cc
          | inr other ↦ rw (miss, other) (find-remove node e c xs u q t' v.1)
        ]
  ]

module _ {C W : Type 0} (same : C → C → Bool) (answer : ArtikError → ArtikError)
    (d : Driver C W) where
  -- In a valid state, for a test of devices under which two that are the same as a third are the
  -- same: once a node has been released with S_OK, a request for its device hands out a node, if
  -- malloc returns an address that is not NULL and not in the list, and the driver agrees.
  pub release-request :
      (blank : C) (size m handle : ℕ) (c : C) (e : Entry C) (s : State C W)
      → IsEuclidean same
      → IsValid same s
      → entry_at handle s.nodes ≡ some e
      → same e.payload c ≡ true
      → is_ok (release_node d handle s).0 ≡ true
      → let s' = (release_node d handle s).1 in
        Fresh m s'.nodes
        → m ≢ null
        → is_ok (d.os_request c s'.world).0 ≡ true
        → (request_node same answer d blank size m c s').0.handle ≡ some m
  release-request blank size m handle c e s u v t q = elim (release_cases d handle s v.handled) [
    | inl (_, r) ↦ rw r (λ o. cc)
    | inr (x, t', inr (refused, r)) ↦ rw r (λ o. cc)
    | inr (x, t', inl (done, r)) ↦
        let free = find-remove same handle e c s.nodes u q t v.exclusive in
        let s' : State C W = record {
          nodes = remove (is handle) s.nodes;
          world = (d.os_release x.payload s.world).2;
        } in
        rw r (λ o f n yes. elim (request_cases same answer d blank size m c s' f) [
          | inl (held, _) ↦ absurd (held free)
          | inr (inl (z, _)) ↦ absurd (n z)
          | inr (inr (inl (no_, _))) ↦ cc
          | inr (inr (inr (_, _, p))) ↦ rw p
        ])
  ]
