-- ===== src/Systemio/Registry/Laws.antt =====
-- What the operations on requested nodes in src/modules/systemio promise, whatever the driver.
use testing.Base.{
  ℕ, ◌≡◌, ◌≢◌, refl, Bool, true, false, none, some, List, [], ◌∷◌, ◌++◌, ◌==◌, Bool-cases, inl, inr,
  ◌⊎◌, ==→eq, eq→==, ne→==, is_ok, ArtikError, s_ok, e_busy, e_no_mem,
}
use testing.ArtikList.{Entry, null, new_entry}
use testing.ArtikList.Abstract.{Fresh, find}
use testing.Systemio.Nodes.{Handled, Handled-added, modify-added, remove-added}
use testing.Systemio.Nodes.Handles.{by_handle-added}
use testing.Systemio.Registry.{Driver, State, Requested, requested, fill, request_node, on_node}
use testing.Systemio.Registry.Valid.{
  All-Alike_right, Exclusive-added, IsValid, KeepsDevice, find-null,
}

module _ {C W : Type 0} (same : C → C → Bool) (answer : ArtikError → ArtikError)
    (d : Driver C W) where
  -- The ways a request can end: the device is taken, there is no memory, the driver refuses, or the
  -- node is put at the end of the list.
  abbrev pub Outcome : C → ℕ → ℕ → C → State C W → Requested C × State C W → Type 0
  Outcome blank size m c s r =
      let ret = d.os_request c s.world in
      let held = find (λ _ e. same e.payload c) s.nodes in
      ((held ≢ null) × (r ≡ (requested e_busy none c, s)))
      ⊎ ((m ≡ null) × (r ≡ (requested e_no_mem none c, s)))
      ⊎ ((is_ok ret.0 ≡ false)
          × (r ≡ (requested (answer ret.0) none ret.1, record { nodes = s.nodes; world = ret.2 })))
      ⊎ ((held ≡ null)
          × (m ≢ null)
          × (r ≡ (
            requested s_ok (some m) ret.1,
            record {
              nodes = s.nodes ++ (m, fill m ret.1 (new_entry blank null size m)) ∷ [];
              world = ret.2;
            },
          )))

  pub request_cases :
      (blank : C) (size m : ℕ) (c : C) (s : State C W)
      → Fresh m s.nodes
      → Outcome blank size m c s (request_node same answer d blank size m c s)
  unfolding request_node
  request_cases blank size m c s f =
      let ret = d.os_request c s.world in
      let e = new_entry blank null size m in
      let held : ℕ = find (λ _ e. same e.payload c) s.nodes in
      elim (Bool-cases (held == null)) [
        | inr busy ↦ rw busy (inl ((λ q. cc (eq→== held null q)), refl))
        | inl absent ↦ elim (Bool-cases (m == null)) [
          | inl failed ↦ rw (absent, failed) (inr (inl (==→eq m null failed, refl)))
          | inr got ↦ elim (Bool-cases (is_ok ret.0)) [
            | inr refused ↦
                rw (absent, got, refused)
                  (inr (inr (inl (refl, rw (remove-added m e s.nodes f) refl))))
            | inl done ↦
                rw (absent, got, done)
                  (inr (
                    inr (
                      inr (
                        ==→eq held null absent,
                        (λ q. cc (eq→== m null q)),
                        rw (modify-added m e (fill m ret.1) s.nodes f) refl,
                      ))))
          ]
        ]
      ]

  -- A request keeps the invariant, if `malloc` returns an address that no node has.
  pub request-IsValid :
      (blank : C) (size m : ℕ) (c : C) (s : State C W)
      → KeepsDevice same d
      → Fresh m s.nodes
      → IsValid same s
      → IsValid same (request_node same answer d blank size m c s).1
  request-IsValid blank size m c s k f v = elim (request_cases blank size m c s f) [
    | inl (_, e) ↦ rw e v
    | inr (inl (_, e)) ↦ rw e v
    | inr (inr (inl (_, e))) ↦ rw e (record { handled = v.handled; exclusive = v.exclusive })
    | inr (inr (inr (absent, n, e))) ↦
        let ret = d.os_request c s.world in
        let fresh = fill m ret.1 (new_entry blank null size m) in
        rw e (record {
          handled = Handled-added m fresh s.nodes n refl f v.handled;
          exclusive =
              Exclusive-added same m fresh s.nodes
                (All-Alike_right same c ret.1 s.nodes (k.request_keeps c s.world)
                  (find-null same c s.nodes v.handled absent))
                v.exclusive;
        })
  ]

  -- If malloc returns no address of a node in the list, a request that hands out no handle, for
  -- whatever reason, leaves the list of nodes as it was.
  pub request_refused :
      (blank : C) (size m : ℕ) (c : C) (s : State C W)
      → Fresh m s.nodes
      → let r = request_node same answer d blank size m c s in
        r.0.handle ≡ none → r.1.nodes ≡ s.nodes
  request_refused blank size m c s f = elim (request_cases blank size m c s f) [
    | inl (_, e) ↦ rw e (λ _. refl)
    | inr (inl (_, e)) ↦ rw e (λ _. refl)
    | inr (inr (inl (_, e))) ↦ rw e (λ _. refl)
    | inr (inr (inr (_, _, e))) ↦ rw e (λ q. cc)
  ]

  -- In a valid state, if malloc returns no address of a node in the list: a handle that a request
  -- hands out leads the operations on nodes to the driver, with the configuration that the request
  -- left.
  pub request-on_node {ℓ} :
      {R : Type ℓ} (blank : C) (size m n : ℕ) (c : C) (s : State C W) (missing : R)
      (op : C → W → R × C × W)
      → Fresh m s.nodes
      → IsValid same s
      → let r = request_node same answer d blank size m c s in
        r.0.handle ≡ some n → (on_node missing op n r.1).0 ≡ (op r.0.config r.1.world).0
  unfolding on_node
  request-on_node blank size m n c s missing op f v = elim (request_cases blank size m c s f) [
    | inl (_, e) ↦ rw e (λ q. cc)
    | inr (inl (_, e)) ↦ rw e (λ q. cc)
    | inr (inr (inl (_, e))) ↦ rw e (λ q. cc)
    | inr (inr (inr (_, there, e))) ↦
        let ret = d.os_request c s.world in
        let fresh = fill m ret.1 (new_entry blank null size m) in
        let (found, entry) = by_handle-added m fresh s.nodes there refl f v.handled in
        rw e (λ q. let same_n : n ≡ m = cc in rw same_n (rw (found, ne→== m null there, entry)))
  ]

  pub request_busy :
      (blank : C) (size m : ℕ) (c : C) (s : State C W)
      → find (λ _ e. same e.payload c) s.nodes ≢ null
      → request_node same answer d blank size m c s ≡ (requested e_busy none c, s)
  unfolding request_node
  request_busy blank size m c s held = rw (ne→== (find (λ _ e. same e.payload c) s.nodes) null held)

  find-last :
      (m : ℕ) (e : Entry C) (c : C) (xs : List (ℕ × Entry C))
      → m ≢ null
      → same e.payload c ≡ true
      → Handled xs
      → find (λ _ e. same e.payload c) (xs ++ (m, e) ∷ []) ≢ null
  unfolding find
  find-last m e c [] n q h = rw q n
  find-last m e c ((a, b) ∷ xs) n q h = elim (Bool-cases (same b.payload c)) [
    | inl hit ↦ rw hit h.0
    | inr miss ↦ rw miss (find-last m e c xs n q h.3)
  ]

  -- In a valid state, if malloc returns no address of a node in the list: after a request that
  -- hands out a handle, another request for the same device returns E_BUSY and changes nothing.
  pub request_twice :
      (blank : C) (size m n m' : ℕ) (c c' : C) (s : State C W)
      → Fresh m s.nodes
      → IsValid same s
      → let r = request_node same answer d blank size m c s in
        r.0.handle ≡ some n
        → same r.0.config c' ≡ true
        → request_node same answer d blank size m' c' r.1 ≡ (requested e_busy none c', r.1)
  request_twice blank size m n m' c c' s f v = elim (request_cases blank size m c s f) [
    | inl (_, e) ↦ rw e (λ q _. cc)
    | inr (inl (_, e)) ↦ rw e (λ q _. cc)
    | inr (inr (inl (_, e))) ↦ rw e (λ q _. cc)
    | inr (inr (inr (_, there, e))) ↦
        let ret = d.os_request c s.world in
        let fresh = fill m ret.1 (new_entry blank null size m) in
        rw e
          (λ _ q. request_busy blank size m' c' _ (find-last m fresh c' s.nodes there q v.handled))
  ]
