-- ===== src/Systemio/Gpio/Linux/Requests.antt =====
-- Requests of the GPIO module (artik_gpio.c) on the Linux driver (linux_gpio.c).
use testing.Base.{
  ℕ, ◌≡◌, ◌≢◌, ◌∙◌, refl, sym, true, false, Option, none, some, [], ◌∷◌, ◌++◌, ◌==◌, All,
  All-append, Bool-cases, inl, inr, is_ok, ==→eq, ne→==, ne_of_==,
}
use testing.ArtikList.{null, new_entry}
use testing.ArtikList.Abstract.{Fresh, find}
use testing.Systemio.Nodes.{Handled-added, modify-added, remove-added}
use testing.Systemio.Registry.{State, fill, request_node}
use testing.Systemio.Registry.Valid.{Exclusive-added, find-null}
use testing.Systemio.Gpio.{GpioConfig, check_exist, request}
use testing.Systemio.Gpio.Linux.{Board, Kernel, linux_gpio, os_request}
use testing.Systemio.Gpio.Linux.Backed.{IsKernel, Backed}
use testing.Systemio.Gpio.Linux.Pins.{os_request-others, os_request-own, os_request-id}
use testing.Systemio.Gpio.Linux.Stands.{Stands, Nodes, same_block}

module _ (k : Kernel) (i : IsKernel k) where
  -- The nodes are for other pins than the one that is asked for.
  others-Backed :
      (c : GpioConfig) (w : Board) (xs : Nodes)
      → All (λ y. check_exist y.1.payload c ≡ false) xs
      → All (λ y. Backed w y.1.payload) xs
      → All (λ y. Backed (os_request k c w).2 y.1.payload) xs
  others-Backed c w [] h b = tt
  others-Backed c w (y ∷ xs) h b = (
    os_request-others k c y.1.payload w i (λ q. ne_of_== _ _ h.0 (sym q)) b.0,
    others-Backed c w xs h.1 b.1,
  )

  -- Their blocks are not the one that `malloc` returned.
  new_block :
      (c : GpioConfig) (w : Board) (xs : Nodes)
      → w.data_at c.user_data ≡ none
      → All (λ y. Backed w y.1.payload) xs
      → All (λ y. same_block y.1.payload c ≡ false) xs
  new_block c w [] h b = tt
  new_block c w (y ∷ xs) h b =
      let (d, there) = b.0.has_data in
      let apart : y.1.payload.user_data ≢ c.user_data = λ e.
        let free : w.data_at y.1.payload.user_data ≡ none = rw e h in
        let both : none ≡ some d = sym free ∙ there in cc in
      (ne→== _ _ apart, new_block c w xs h b.1)

  other_id :
      (c c' : GpioConfig) (xs : Nodes)
      → c'.id ≡ c.id
      → All (λ y. check_exist y.1.payload c ≡ false) xs
      → All (λ y. check_exist y.1.payload c' ≡ false) xs
  other_id c c' xs e h = rw e h

  -- The state with a new node.
  abbrev with_new :
      GpioConfig
      → ℕ
      → ℕ
      → GpioConfig
      → Board
      → State GpioConfig (Option Board)
      → State GpioConfig (Option Board)
  with_new blank size m c w s = record {
    nodes = s.nodes ++ (m, fill m c (new_entry blank null size m)) ∷ [];
    world = some w;
  }

  new-Stands :
      (blank : GpioConfig) (size m : ℕ) (c : GpioConfig) (s : State GpioConfig (Option Board))
      (v : Stands s)
      → Fresh m s.nodes
      → m ≢ null
      → All (λ y. check_exist y.1.payload c ≡ false) s.nodes
      → let r = os_request k c v.board in
        is_ok r.0 ≡ true → Stands (with_new blank size m r.1 r.2 s)
  new-Stands blank size m c s v f n others agreed =
      let r = os_request k c v.board in
      let new = fill m r.1 (new_entry blank null size m) in
      let (own, free) = os_request-own k c v.board i agreed in
      let kept = others-Backed c v.board s.nodes others v.backed in
      let unlike = other_id c r.1 s.nodes (os_request-id k c v.board) others in
      record {
        board = r.2;
        running = refl;
        valid = record {
          handled = Handled-added m new s.nodes n refl f v.valid.handled;
          exclusive = Exclusive-added check_exist m new s.nodes unlike v.valid.exclusive;
        };
        backed = All-append (λ y. Backed r.2 y.1.payload) s.nodes ((m, new) ∷ []) kept (own, tt);
        apart =
            Exclusive-added same_block m new s.nodes (new_block r.1 v.board s.nodes free v.backed)
              v.apart;
      }

  pub request-Stands :
      (blank : GpioConfig) (size m : ℕ) (c : GpioConfig) (s : State GpioConfig (Option Board))
      → Fresh m s.nodes
      → Stands s
      → Stands (request (linux_gpio k) blank size m c s).1
  unfolding request request_node
  request-Stands blank size m c s f v =
      let held : ℕ = find (λ _ e. check_exist e.payload c) s.nodes in
      let r = os_request k c v.board in
      let e = new_entry blank null size m in
      elim (Bool-cases (held == null)) [
        | inr busy ↦ rw busy v
        | inl absent ↦ elim (Bool-cases (m == null)) [
          | inl full ↦ rw (absent, full) v
          | inr got ↦
              let others =
                find-null check_exist c s.nodes v.valid.handled (==→eq held null absent) in
              let kept = others-Backed c v.board s.nodes others v.backed in
              let n = ne_of_== m null got in
              elim (Bool-cases (is_ok r.0)) [
                | inl agreed ↦
                    let new = new-Stands blank size m c s v f n others agreed in
                    rw (absent, got, v.running, agreed)
                      (rw (modify-added m e (fill m r.1) s.nodes f) new)
                | inr refused ↦
                    let same : State GpioConfig (Option Board) = record {
                      nodes = s.nodes;
                      world = some r.2;
                    } in
                    let stays : Stands same = record {
                      board = r.2;
                      running = refl;
                      valid = record { handled = v.valid.handled; exclusive = v.valid.exclusive };
                      backed = kept;
                      apart = v.apart;
                    } in
                    rw (absent, got, v.running, refused) (rw (remove-added m e s.nodes f) stays)
              ]
        ]
      ]
