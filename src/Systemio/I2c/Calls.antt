-- ===== src/Systemio/I2c/Calls.antt =====
-- Sequences of calls of the I2C module (src/modules/systemio/i2c/artik_i2c.c).
use testing.Base.{
  ℕ, ◌≡◌, ◌≢◌, refl, Bool-cases, inl, inr, none, some, List, [], ◌∷◌, is_ok, e_busy, e_no_mem, ◌⊎◌,
  ◌==◌, ==→eq, ne_of_==, if◌then◌else◌,
}
use testing.ArtikList.{null}
use testing.Systemio.Nodes.{Handled}
use testing.ArtikList.Abstract.{Fresh}
use testing.Systemio.Registry.{State, requested, request_node}
use testing.Systemio.Registry.Valid.{IsValid, KeepsDevice}
use testing.Systemio.Registry.Laws.{request-IsValid, request_busy}
use testing.Systemio.Registry.Release.{on_node-IsValid, release-IsValid}
use testing.Systemio.I2c.Slaves.{
  SameSlave, Free, Apart, SameSlave-Alike, Apart-Exclusive, Exclusive-Apart, find-Free, find-Held,
  Held, Held-Free,
}
use testing.Systemio.I2c.{
  I2cConfig, I2cDriver, check_exist, request, release, read, write, read_register, write_register,
}

pub data Call : Type 0 where
  requests : I2cConfig → ℕ → ℕ → I2cConfig → Call
  releases : ℕ → Call
  reads : ℕ → ℕ → Call
  writes : ℕ → List ℕ → Call
  reads_register : ℕ → ℕ → ℕ → Call
  writes_register : ℕ → ℕ → List ℕ → Call

module _ {W : Type 0} (os : I2cDriver W) where
  unfoldable pub step : State I2cConfig W → Call → State I2cConfig W
  step s (requests blank size m c) = (request os blank size m c s).1
  step s (releases handle) = (release os handle s).1
  step s (reads handle len) = (read os handle len s).1
  step s (writes handle buf) = (write os handle buf s).1
  step s (reads_register handle reg len) = (read_register os handle reg len s).1
  step s (writes_register handle reg buf) = (write_register os handle reg buf s).1

  unfoldable pub run : State I2cConfig W → List Call → State I2cConfig W
  unfolding step
  run s [] = s
  run s (k ∷ ks) = run (step s k) ks

  -- `malloc` does not return the address of a node that is still in the list.
  abbrev pub AllocatesStep : State I2cConfig W → Call → Type 0
  AllocatesStep s (requests blank size m c) = Fresh m s.nodes
  AllocatesStep s _ = Unit

  abbrev pub Allocates : State I2cConfig W → List Call → Type 0
  Allocates s [] = Unit
  Allocates s (k ∷ ks) = AllocatesStep s k × Allocates (step s k) ks

  -- No operation of the driver turns a configuration into one for another slave.
  pub record KeepsSlaves : Type 0 where
    pub request_keeps : (c : I2cConfig) (w : W) → SameSlave c (os.base.os_request c w).1
    pub release_keeps : (c : I2cConfig) (w : W) → SameSlave c (os.base.os_release c w).1
    pub read_keeps : (len : ℕ) (c : I2cConfig) (w : W) → SameSlave c (os.os_read len c w).1
    pub write_keeps : (buf : List ℕ) (c : I2cConfig) (w : W) → SameSlave c (os.os_write buf c w).1
    pub read_register_keeps :
        (reg len : ℕ) (c : I2cConfig) (w : W) → SameSlave c (os.os_read_register reg len c w).1
    pub write_register_keeps :
        (reg : ℕ) (buf : List ℕ) (c : I2cConfig) (w : W)
        → SameSlave c (os.os_write_register reg buf c w).1

  KeepsSlaves-KeepsDevice : KeepsSlaves → KeepsDevice check_exist os.base
  KeepsSlaves-KeepsDevice keeps = record {
    request_keeps = λ c w. SameSlave-Alike c _ (keeps.request_keeps c w);
    release_keeps = λ c w. SameSlave-Alike c _ (keeps.release_keeps c w);
  }

  step-IsValid :
      (s : State I2cConfig W) (k : Call)
      → KeepsSlaves
      → AllocatesStep s k
      → IsValid check_exist s
      → IsValid check_exist (step s k)
  unfolding step request release read write read_register write_register
  step-IsValid s (requests blank size m c) keeps f v =
      request-IsValid check_exist _ os.base blank size m c s (KeepsSlaves-KeepsDevice keeps) f v
  step-IsValid s (releases handle) keeps f v =
      release-IsValid check_exist os.base handle s (KeepsSlaves-KeepsDevice keeps) v
  step-IsValid s (reads handle len) keeps f v =
      on_node-IsValid check_exist _ (os.os_read len) handle s
        (λ c w. SameSlave-Alike c _ (keeps.read_keeps len c w)) v
  step-IsValid s (writes handle buf) keeps f v =
      on_node-IsValid check_exist _ (os.os_write buf) handle s
        (λ c w. SameSlave-Alike c _ (keeps.write_keeps buf c w)) v
  step-IsValid s (reads_register handle reg len) keeps f v =
      on_node-IsValid check_exist _ (os.os_read_register reg len) handle s
        (λ c w. SameSlave-Alike c _ (keeps.read_register_keeps reg len c w)) v
  step-IsValid s (writes_register handle reg buf) keeps f v =
      on_node-IsValid check_exist _ (os.os_write_register reg buf) handle s
        (λ c w. SameSlave-Alike c _ (keeps.write_register_keeps reg buf c w)) v

  run-IsValid :
      (s : State I2cConfig W) (ks : List Call)
      → KeepsSlaves
      → Allocates s ks
      → IsValid check_exist s
      → IsValid check_exist (run s ks)
  unfolding run
  run-IsValid s [] keeps f v = v
  run-IsValid s (k ∷ ks) keeps f v =
      run-IsValid (step s k) ks keeps f.1 (step-IsValid s k keeps f.0 v)

  -- The nodes have distinct addresses, each handle is its node's address, and no two nodes are for
  -- one slave.
  pub record HasSlaves (s : State I2cConfig W) : Type 0 where
    pub handled : Handled s.nodes
    pub apart : Apart s.nodes

  -- What a request comes to: a node is for its slave, there is no memory, or the driver is asked.
  abbrev pub Arbitrated : I2cConfig → ℕ → ℕ → I2cConfig → State I2cConfig W → Type 0
  Arbitrated blank size m c s =
      let r = request os blank size m c s in
      let asked = os.base.os_request c s.world in
      (Held c s.nodes × (r ≡ (requested e_busy none c, s)))
      ⊎ (Free c s.nodes × (m ≡ null) × (r ≡ (requested e_no_mem none c, s)))
      ⊎ (Free c s.nodes
          × (m ≢ null)
          × (r.0.config ≡ asked.1)
          × (r.1.world ≡ asked.2)
          × (r.0.handle ≡ (if is_ok asked.0 then some m else none)))

  request-Arbitrated :
      (blank : I2cConfig) (size m : ℕ) (c : I2cConfig) (s : State I2cConfig W)
      → Handled s.nodes
      → Arbitrated blank size m c s
  unfolding request request_node
  request-Arbitrated blank size m c s h = elim (Held-Free c s.nodes) [
    | inl held ↦ inl (
      held,
      request_busy check_exist (λ error. error) os.base blank size m c s
          (find-Held c s.nodes h held),
    )
    | inr free ↦ inr (
        rw (find-Free c s.nodes free) (elim (Bool-cases (m == null)) [
          | inl failed ↦ rw failed (inl (free, ==→eq m null failed, refl))
          | inr got ↦ elim (Bool-cases (is_ok (os.base.os_request c s.world).0)) [
            | inl done ↦ rw (got, done) (inr (free, ne_of_== m null got, refl, refl, refl))
            | inr refused ↦ rw (got, refused) (inr (free, ne_of_== m null got, refl, refl, refl))
          ]
        ]))
  ]

  -- Say that a state has its slaves if no two nodes are for the same address on the same bus, the
  -- nodes have distinct addresses that are not NULL, and each handle is its node's address. From
  -- such a state any sequence of calls of the I2C module leads to such a state, if malloc returns
  -- no address of a node in the list and the driver leaves the id and the address of a
  -- configuration alone. There, a request for an address on a bus that a node is for returns
  -- E_BUSY and changes nothing. Where no node is for it, the request returns E_NO_MEM and changes
  -- nothing without memory for the node, and asks the driver, once, with it, and hands out the
  -- node exactly if the driver agrees.
  pub i2c_run-HasSlaves :
      (s : State I2cConfig W) (ks : List Call) (blank : I2cConfig) (size m : ℕ) (c : I2cConfig)
      → KeepsSlaves
      → Allocates s ks
      → HasSlaves s
      → HasSlaves (run s ks) × Arbitrated blank size m c (run s ks)
  i2c_run-HasSlaves s ks blank size m c keeps f v =
      let start : IsValid check_exist s = record {
        handled = v.handled;
        exclusive = Apart-Exclusive s.nodes v.apart;
      } in
      let end = run-IsValid s ks keeps f start in
      (
        record { handled = end.handled; apart = Exclusive-Apart (run s ks).nodes end.exclusive },
        request-Arbitrated blank size m c (run s ks) end.handled,
      )
