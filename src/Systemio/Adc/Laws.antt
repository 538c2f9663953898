-- ===== src/Systemio/Adc/Laws.antt =====
-- What a request of src/modules/systemio/adc/artik_adc.c promises, and what it does with no memory.
use testing.Base.{
  ℕ, ◌≡◌, ◌≢◌, refl, true, none, some, Bool-cases, inl, inr, ==→eq, ne→==, is_ok, ◌==◌, e_busy,
  s_ok,
}
use testing.ArtikList.{null, new_entry}
use testing.ArtikList.Abstract.{Fresh, find}
use testing.Systemio.Nodes.{Handled-added, modify-added, modify, added}
use testing.Systemio.Registry.{State, Requested, requested, fill}
use testing.Systemio.Registry.Valid.{
  All-Alike_right, IsValid, KeepsDevice, Exclusive-added, find-null,
}
use testing.Systemio.Adc.{AdcConfig, AdcDriver, check_exist, request}

module _ {W : Type 0} (os : AdcDriver W) (blank : AdcConfig) (size m : ℕ) (c : AdcConfig)
    (s : State AdcConfig W) where
  -- With memory, at an address of no node in the list, and with a driver that leaves the pin of a
  -- configuration alone, a request of the ADC module in a valid state returns a result and leads
  -- to a valid state.
  pub adc_request-IsValid :
      KeepsDevice check_exist os.base
      → m ≢ null
      → Fresh m s.nodes
      → IsValid check_exist s
      → (r : Requested AdcConfig × State AdcConfig W) × (request os blank size m c s ≡ some r)
        × IsValid check_exist r.1
  unfolding request
  adc_request-IsValid k n f v =
      let ret = os.base.os_request c s.world in
      let held : ℕ = find (λ _ e. check_exist e.payload c) s.nodes in
      let fresh = fill m ret.1 (new_entry blank null size m) in
      elim (Bool-cases (held == null)) [
        | inr busy ↦ ((requested e_busy none c, s), rw busy, v)
        | inl absent ↦ elim (Bool-cases (is_ok ret.0)) [
          | inr refused ↦ (
            (requested ret.0 none ret.1, record { nodes = s.nodes; world = ret.2 }),
            rw (absent, refused),
            record { handled = v.handled; exclusive = v.exclusive },
          )
          | inl done ↦ (
            (
              requested s_ok (some m) ret.1,
              record {
                nodes = modify m (fill m ret.1) (added blank size m s.nodes);
                world = ret.2;
              },
            ),
            rw (absent, done, ne→== m null n),
            rw (modify-added m (new_entry blank null size m) (fill m ret.1) s.nodes f) (record {
              handled = Handled-added m fresh s.nodes n refl f v.handled;
              exclusive =
                  Exclusive-added check_exist m fresh s.nodes
                    (All-Alike_right check_exist c ret.1 s.nodes (k.request_keeps c s.world)
                      (find-null check_exist c s.nodes v.handled (==→eq held null absent)))
                    v.exclusive;
            }),
          )
        ]
      ]

  -- With no memory, a request that the driver accepts faults: the new node is written through NULL.
  pub request_no_memory :
      find (λ _ e. check_exist e.payload c) s.nodes ≡ null
      → is_ok (os.base.os_request c s.world).0 ≡ true
      → m ≡ null
      → request os blank size m c s ≡ none
  unfolding request
  request_no_memory absent done z = rw (absent, done, z)
