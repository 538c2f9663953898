-- ===== src/Systemio/Registry/Release.antt =====
-- What a release of a node in src/modules/systemio promises, and an operation on a node.
use testing.Base.{
  ℕ, ◌≡◌, ◌≢◌, refl, subst, Bool, true, false, some, ◌==◌, Bool-cases, inl, inr, ◌⊎◌, ==→eq, ne→==,
  ne_of_==, is_ok, ArtikError, e_bad_args,
}
use testing.ArtikList.{Entry, null}
use testing.ArtikList.Abstract.{remove, is}
use testing.Systemio.Nodes.{Handled, Handled-remove, Handled-modify, by_handle, entry_at, modify}
use testing.Systemio.Nodes.Handles.{by_handle-entry, by_handle-remove, remove-modify}
use testing.Systemio.Registry.{Driver, State, put, on_node, release_node}
use testing.Systemio.Registry.Valid.{
  Exclusive-remove, Exclusive-modify, Alike, IsValid, KeepsDevice,
}

module _ {C W : Type 0} where
  pub on_node_missing {ℓ} :
      {R : Type ℓ} (missing : R) (op : C → W → R × C × W) (handle : ℕ) (s : State C W)
      → by_handle handle s.nodes ≡ null
      → on_node missing op handle s ≡ (missing, s)
  unfolding on_node
  on_node_missing missing op handle s h = rw h

  pub on_node_found {ℓ} :
      {R : Type ℓ} (missing : R) (op : C → W → R × C × W) (handle : ℕ) (s : State C W) (e : Entry C)
      → handle ≢ null
      → by_handle handle s.nodes ≡ handle
      → entry_at handle s.nodes ≡ some e
      → let r = op e.payload s.world in
        on_node missing op handle s
        ≡ (r.0, record { nodes = modify handle (put r.1) s.nodes; world = r.2 })
  unfolding on_node
  on_node_found missing op handle s e n q t = rw (q, ne→== handle null n, t)

module _ {C W : Type 0} (same : C → C → Bool) where
  -- An operation on a node that does not turn its configuration into one for another device keeps
  -- the invariant.
  pub on_node-IsValid {ℓ} :
      {R : Type ℓ} (missing : R) (op : C → W → R × C × W) (handle : ℕ) (s : State C W)
      → ((c : C) (w : W) → Alike same c (op c w).1)
      → IsValid same s
      → IsValid same (on_node missing op handle s).1
  on_node-IsValid missing op handle s k v = elim (Bool-cases (by_handle handle s.nodes == null)) [
    | inl nil ↦ rw (on_node_missing missing op handle s (==→eq _ null nil)) v
    | inr there ↦
        let (n, q, found) = by_handle-entry handle s.nodes v.handled (ne_of_== _ _ there) in
        let (e, t) = found in
        let c' = (op e.payload s.world).1 in
        let alike : (d : Entry C) → entry_at handle s.nodes ≡ some d → Alike same d.payload c' =
          λ d r.
            let same_entry : e ≡ d = cc in
            subst (λ x. Alike same x.payload c') same_entry (k e.payload s.world) in
        rw (on_node_found missing op handle s e n q t) (record {
          handled = Handled-modify handle (put c') s.nodes (λ _. refl) v.handled;
          exclusive = Exclusive-modify same handle c' s.nodes v.handled alike v.exclusive;
        })
  ]

module _ {C W : Type 0} (d : Driver C W) where
  -- How a release ends: no such node, or the driver's answer, which takes the node out if it is
  -- `S_OK` and keeps it otherwise.
  abbrev pub Released : ℕ → State C W → ArtikError × State C W → Type 0
  Released handle s r =
      ((by_handle handle s.nodes ≡ null) × (r ≡ (e_bad_args, s)))
      ⊎ ((e : Entry C) × (entry_at handle s.nodes ≡ some e)
          × let ret = d.os_release e.payload s.world in
            ((is_ok ret.0 ≡ true)
              × (r ≡ (ret.0, record { nodes = remove (is handle) s.nodes; world = ret.2 })))
            ⊎ ((is_ok ret.0 ≡ false)
                × (r ≡ (
                  ret.0,
                  record { nodes = modify handle (put ret.1) s.nodes; world = ret.2 },
                ))))

  pub release_cases :
      (handle : ℕ) (s : State C W) → Handled s.nodes → Released handle s (release_node d handle s)
  unfolding release_node
  release_cases handle s h = elim (Bool-cases (by_handle handle s.nodes == null)) [
    | inl nil ↦ inl (==→eq _ null nil, rw nil)
    | inr there ↦
        let (n, q, found) = by_handle-entry handle s.nodes h (ne_of_== _ _ there) in
        let (e, t) = found in
        let ret = d.os_release e.payload s.world in
        inr (
          e,
          t,
          rw (there, on_node_found e_bad_args d.os_release handle s e n q t)
              (elim (Bool-cases (is_ok ret.0)) [
                | inl done ↦
                    inl (done, rw done (rw q (rw (remove-modify handle (put ret.1) s.nodes h))))
                | inr refused ↦ inr (refused, rw refused)
              ]),
        )
  ]

module _ {C W : Type 0} (same : C → C → Bool) (d : Driver C W) where
  -- A release keeps the invariant.
  pub release-IsValid :
      (handle : ℕ) (s : State C W)
      → KeepsDevice same d
      → IsValid same s
      → IsValid same (release_node d handle s).1
  release-IsValid handle s k v = elim (release_cases d handle s v.handled) [
    | inl (_, q) ↦ rw q v
    | inr (e, t, inl (_, q)) ↦ rw q (record {
      handled = Handled-remove (is handle) s.nodes v.handled;
      exclusive = Exclusive-remove same (is handle) s.nodes v.exclusive;
    })
    | inr (e, t, inr (_, q)) ↦
        let c' = (d.os_release e.payload s.world).1 in
        let alike : (x : Entry C) → entry_at handle s.nodes ≡ some x → Alike same x.payload c' =
          λ x r.
            let same_entry : e ≡ x = cc in
            subst (λ y. Alike same y.payload c') same_entry (k.release_keeps e.payload s.world) in
        rw q (record {
          handled = Handled-modify handle (put c') s.nodes (λ _. refl) v.handled;
          exclusive = Exclusive-modify same handle c' s.nodes v.handled alike v.exclusive;
        })
  ]

  -- In a valid state: after a release with S_OK its handle is refused by every operation and by a
  -- further release, and nothing changes.
  pub release-on_node {ℓ} :
      {R : Type ℓ} (missing : R) (op : C → W → R × C × W) (handle : ℕ) (s : State C W)
      → IsValid same s
      → is_ok (release_node d handle s).0 ≡ true
      → let s' = (release_node d handle s).1 in
        (on_node missing op handle s' ≡ (missing, s'))
        × (release_node d handle s' ≡ (e_bad_args, s'))
  release-on_node missing op handle s v = elim (release_cases d handle s v.handled) [
    | inl (_, q) ↦ rw q (λ o. cc)
    | inr (e, t, inl (_, q)) ↦
        let gone = by_handle-remove handle s.nodes v.handled in
        rw q (λ o. (on_node_missing missing op handle _ gone, unfold release_node in rw gone))
    | inr (e, t, inr (refused, q)) ↦ rw q (λ o. cc)
  ]
