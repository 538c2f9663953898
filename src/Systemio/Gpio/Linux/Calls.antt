-- ===== src/Systemio/Gpio/Linux/Calls.antt =====
-- Calls of the GPIO module (artik_gpio.c) on the Linux driver (linux_gpio.c).
use testing.Base.{
  ℕ, ◌≡◌, refl, true, false, Option, some, List, [], ◌∷◌, ◌==◌, All, Bool-cases, inl, inr,
  e_bad_args, ==→eq, ne_of_==,
}
use testing.ArtikList.{null}
use testing.ArtikList.Abstract.{is}
use testing.Systemio.Nodes.{Handled-remove, by_handle}
use testing.Systemio.Nodes.Handles.{by_handle-entry}
use testing.Systemio.Registry.{State, on_node}
use testing.Systemio.Registry.Valid.{Exclusive-remove}
use testing.Systemio.Registry.Release.{on_node_missing, on_node_found, release_cases}
use testing.Systemio.Gpio.{
  GpioConfig, check_exist, release, read, write, set_change_callback, unset_change_callback, failed,
}
use testing.Systemio.Gpio.Calls.{
  Call, requests, releases, reads, writes, sets_change_callback, unsets_change_callback, step, run,
  AllocatesStep, Allocates,
}
use testing.Systemio.Gpio.Linux.{Board, Kernel, linux_gpio, os_read, os_write}
use testing.Systemio.Gpio.Linux.Backed.{
  IsKernel, Backed, Keeps, Keeps-Backed, Keeps-refl, os_read-same, os_write-Keeps,
  os_unset_change_callback-Keeps, os_set_change_callback-Keeps,
}
use testing.Systemio.Gpio.Linux.Pins.{os_release-others}
use testing.Systemio.Gpio.Linux.Stands.{
  Stands, same_block, Apart, All-imp, All-entry, All-others, modify-put,
}
use testing.Systemio.Gpio.Linux.Requests.{request-Stands}

-- An operation that leaves the configuration and the other pins alone.
on_node-Stands :
    {R : Type 0} (missing : R) (op : GpioConfig → Option Board → R × GpioConfig × Option Board)
    (handle : ℕ) (s : State GpioConfig (Option Board)) (v : Stands s)
    → ((c : GpioConfig)
        → Backed v.board c
        → (r : R) × (w' : Board) × (op c (some v.board) ≡ (r, c, some w')) × Keeps v.board w')
    → Stands (on_node missing op handle s).1
on_node-Stands missing op handle s v quiet = elim (Bool-cases (by_handle handle s.nodes == null)) [
  | inl nil ↦ rw (on_node_missing missing op handle s (==→eq _ null nil)) v
  | inr there ↦
      let (n, q, found) = by_handle-entry handle s.nodes v.valid.handled (ne_of_== _ _ there) in
      let (e, t) = found in
      let b = All-entry (Backed v.board) handle e s.nodes t v.backed in
      let (r, w', done, keeps) = quiet e.payload b in
      let same = modify-put handle e s.nodes v.valid.handled t in
      rw (on_node_found missing op handle s e n q t, v.running, done, same)
        (record {
          board = w';
          running = refl;
          valid = record { handled = v.valid.handled; exclusive = v.valid.exclusive };
          backed = All-imp _ _ s.nodes (λ c. Keeps-Backed v.board w' c keeps) v.backed;
          apart = v.apart;
        })
]

module _ (k : Kernel) (i : IsKernel k) where
  -- The nodes that are left after a release.
  pub release-Stands :
      (handle : ℕ) (s : State GpioConfig (Option Board))
      → Stands s
      → Stands (release (linux_gpio k) handle s).1
  unfolding release
  release-Stands handle s v = elim (release_cases (linux_gpio k).base handle s v.valid.handled) [
    | inl (_, e) ↦ rw e v
    | inr (e, t, ends) ↦
        let b = All-entry (Backed v.board) handle e s.nodes t v.backed in
        let (c', w', done, _, others) = os_release-others k e.payload v.board b in
        let rest : All (λ y. Apart e.payload y.1.payload → Backed w' y.1.payload) s.nodes =
          All-imp (Backed v.board) (λ c. Apart e.payload c → Backed w' c) s.nodes
            (λ c q a. others c a.0 a.1 q) v.backed in
        let left = All-others (Backed w') handle e s.nodes v.valid.exclusive v.apart t rest in
        elim ends [
          | inl (_, q) ↦
              rw (q, v.running, done)
                (record {
                  board = w';
                  running = refl;
                  valid = record {
                    handled = Handled-remove (is handle) s.nodes v.valid.handled;
                    exclusive = Exclusive-remove check_exist (is handle) s.nodes v.valid.exclusive;
                  };
                  backed = left;
                  apart = Exclusive-remove same_block (is handle) s.nodes v.apart;
                })
          | inr (bad, _) ↦ let wrong : true ≡ false = rw (v.running, done) at bad in absurd cc
        ]
  ]

  step-Stands :
      (s : State GpioConfig (Option Board)) (call : Call)
      → AllocatesStep (linux_gpio k) s call
      → Stands s
      → Stands (step (linux_gpio k) s call)
  unfolding step read write set_change_callback unset_change_callback
  step-Stands s (requests blank size m c) f v = request-Stands k i blank size m c s f v
  step-Stands s (releases handle) f v = release-Stands handle s v
  step-Stands s (reads handle) f v =
      on_node-Stands (failed e_bad_args) (linux_gpio k).os_read handle s v (λ c b.
        let same = os_read-same k c v.board in
        ((os_read k c v.board).0, v.board, rw (same.0, same.1) refl, Keeps-refl v.board))
  step-Stands s (writes handle value) f v =
      on_node-Stands e_bad_args ((linux_gpio k).os_write value) handle s v (λ c b.
        let (same, keeps) = os_write-Keeps k value c v.board in
        let r = os_write k value c v.board in (r.0, r.2, rw same refl, keeps))
  step-Stands s (sets_change_callback handle callback user_data) f v =
      on_node-Stands e_bad_args ((linux_gpio k).os_set_change_callback callback user_data) handle s
        v
        (λ c b.
          let (e, w', done, keeps) =
            os_set_change_callback-Keeps k callback user_data c v.board i b in
          (e, w', rw done refl, keeps))
  step-Stands s (unsets_change_callback handle) f v =
      on_node-Stands tt (linux_gpio k).os_unset_change_callback handle s v (λ c b.
        let (w', done, keeps) = os_unset_change_callback-Keeps k c v.board b in
        (tt, w', rw done refl, keeps))

  -- Say that a state of the GPIO module over the Linux driver stands if the program has not faulted,
  -- no two nodes stand for the same pin, the nodes have distinct addresses and each handle is its
  -- node's address, and every node's pin is exported and has a block of its own that is allocated.
  -- From a state that stands any sequence of calls leads to one that stands, if malloc returns no
  -- address that is in use, and a request of the loop module never returns INVALID_MODULE.
  pub linux_run-Stands :
      (s : State GpioConfig (Option Board)) (calls : List Call)
      → Allocates (linux_gpio k) s calls
      → Stands s
      → Stands (run (linux_gpio k) s calls)
  unfolding run
  linux_run-Stands s [] f v = v
  linux_run-Stands s (call ∷ calls) f v =
      linux_run-Stands (step (linux_gpio k) s call) calls f.1 (step-Stands s call f.0 v)
