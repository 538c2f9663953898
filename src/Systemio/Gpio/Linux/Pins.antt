-- ===== src/Systemio/Gpio/Linux/Pins.antt =====
-- What a request and a release of linux_gpio.c do to their pin, and to the others.
use testing.Base.{
  ◌<◌, ◌^◌, ◌≡◌, ◌≢◌, ◌∙◌, refl, sym, ap, true, false, none, some, ◌==◌, arith, Bool-cases, inl,
  inr, s_ok, is_ok, decimal, ne→==, eq→==, ==→eq, ne_of_==,
}
use testing.Systemio.Gpio.{GpioConfig}
use testing.Systemio.Gpio.Linux.{
  Board, Kernel, store, write_all, request_entries, is_bad, unexport, os_request, os_release, zeros,
}
use testing.Systemio.Gpio.Linux.Sysfs.{
  write_all-data_at, request_entries-exported, request_entries-other, unexport-other, other_text,
}
use testing.Systemio.Gpio.Linux.Backed.{IsKernel, Backed}

in_range_of : (c : GpioConfig) → is_bad c ≡ false → c.id < 2 ^ 31
in_range_of c h = ground (arith, h)

module _ (k : Kernel) where
  abbrev requested : GpioConfig → Board → Board
  requested c w = (write_all k (request_entries c) w).1

  requested-Backed :
      (c c' : GpioConfig) (w : Board)
      → c.id < 2 ^ 31
      → c.id ≢ c'.id
      → Backed w c'
      → Backed (requested c w) c'
  requested-Backed c c' w r n b = record {
    in_range = b.in_range;
    is_exported =
        request_entries-other k (decimal c'.id) c w (other_text c.id c'.id r b.in_range n)
        ∙ b.is_exported;
    has_data = rw (write_all-data_at k (request_entries c) w) b.has_data;
  }

  unexport-Backed :
      (c c' : GpioConfig) (w : Board)
      → c.id < 2 ^ 31
      → c.id ≢ c'.id
      → Backed w c'
      → Backed (unexport k c w) c'
  unexport-Backed c c' w r n b = record {
    in_range = b.in_range;
    is_exported =
        unexport-other k (decimal c'.id) c w (other_text c.id c'.id r b.in_range n) ∙ b.is_exported;
    has_data = b.has_data;
  }

  -- A request leaves the pins and the blocks of the others alone, however it ends.
  pub os_request-others :
      (c c' : GpioConfig) (w : Board)
      → IsKernel k
      → c.id ≢ c'.id
      → Backed w c'
      → Backed (os_request k c w).2 c'
  unfolding os_request
  os_request-others c c' w i n b =
      let w' = requested c w in
      let p = k.malloc w' in
      elim (Bool-cases (is_bad c)) [
        | inl bad ↦ rw bad b
        | inr good ↦
            let r = in_range_of c good in
            let b' = requested-Backed c c' w r n b in
            let undone = unexport-Backed c c' w' r n b' in
            elim (Bool-cases ((write_all k (request_entries c) w).0 == 0)) [
              | inr failed ↦ rw (good, failed) undone
              | inl done ↦ elim (Bool-cases (p == 0)) [
                | inl full ↦ rw (good, done, full) undone
                | inr got ↦
                    let (d, there) = b'.has_data in
                    let apart : p ≢ c'.user_data = λ e.
                      let free : w'.data_at c'.user_data ≡ none =
                        rw (← e) (i.malloc_free w' (ne_of_== p 0 got)) in
                      let both : none ≡ some d = sym free ∙ there in cc in
                    rw (good, done, got)
                      (record {
                        in_range = b'.in_range;
                        is_exported = b'.is_exported;
                        has_data = (d, rw (ne→== p c'.user_data apart) there);
                      })
              ]
            ]
      ]

  -- A request that succeeds leaves its pin exported, with a block of its own.
  pub os_request-own :
      (c : GpioConfig) (w : Board)
      → IsKernel k
      → let r = os_request k c w in
        is_ok r.0 ≡ true → Backed r.2 r.1 × (w.data_at r.1.user_data ≡ none)
  unfolding os_request
  os_request-own c w i =
      let w' = requested c w in
      let p = k.malloc w' in
      elim (Bool-cases (is_bad c)) [
        | inl bad ↦ rw bad (λ q. cc)
        | inr good ↦ elim (Bool-cases ((write_all k (request_entries c) w).0 == 0)) [
          | inr failed ↦
              rw (good, failed)
                (elim (Bool-cases ((write_all k (request_entries c) w).0 == 13)) [
                  | inl denied ↦ rw denied (λ q. cc)
                  | inr busy ↦ rw busy (λ q. cc)
                ])
          | inl done ↦ elim (Bool-cases (p == 0)) [
            | inl full ↦ rw (good, done, full) (λ q. cc)
            | inr got ↦
                rw (good, done, got)
                  (λ q. (
                    record {
                      in_range = in_range_of c good;
                      is_exported = request_entries-exported k c w (==→eq _ 0 done);
                      has_data = (zeros, rw (eq→== p p refl) refl);
                    },
                    ap (λ f. f p) (sym (write_all-data_at k (request_entries c) w))
                        ∙ i.malloc_free w' (ne_of_== p 0 got),
                  ))
          ]
        ]
      ]

  pub os_request-id : (c : GpioConfig) (w : Board) → (os_request k c w).1.id ≡ c.id
  unfolding os_request
  os_request-id c w = elim (Bool-cases (is_bad c)) [
    | inl bad ↦ rw bad refl
    | inr good ↦ elim (Bool-cases ((write_all k (request_entries c) w).0 == 0)) [
      | inr failed ↦ rw (good, failed) refl
      | inl done ↦ elim (Bool-cases (k.malloc (requested c w) == 0)) [
        | inl full ↦ rw (good, done, full) refl
        | inr got ↦ rw (good, done, got) refl
      ]
    ]
  ]

  -- A release does not fault, and leaves the pins and the blocks of the others alone.
  pub os_release-others :
      (c : GpioConfig) (w : Board)
      → Backed w c
      → (c'' : GpioConfig) × (w' : Board) × (os_release k c w ≡ some (s_ok, c'', w'))
        × (c''.id ≡ c.id)
        × ((c' : GpioConfig)
            → c.id ≢ c'.id
            → c.user_data ≢ c'.user_data
            → Backed w c'
            → Backed w' c')
  unfolding os_release
  os_release-others c w b =
      let w' = unexport k c (unexport k c w) in
      let others : (c' : GpioConfig) → c.id ≢ c'.id → Backed w c' → Backed w' c' = λ c' n b'.
        unexport-Backed c c' (unexport k c w) b.in_range n
          (unexport-Backed c c' w b.in_range n b') in
      let (d, there) = b.has_data in
      elim (Bool-cases (c.user_data == 0)) [
        | inl empty ↦ (c, w', rw empty refl, refl, λ c' n _ b'. others c' n b')
        | inr held ↦ (
          record c { user_data = 0 },
          store c.user_data none w',
          rw (held, there) refl,
          refl,
          λ c' n apart b'.
              let kept = others c' n b' in
              record {
                in_range = kept.in_range;
                is_exported = kept.is_exported;
                has_data = (kept.has_data.0, rw (ne→== _ _ apart) kept.has_data.1);
              },
        )
      ]
