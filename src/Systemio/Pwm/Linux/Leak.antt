-- ===== src/Systemio/Pwm/Linux/Leak.antt =====
-- A request of an output of linux_pwm.c and its release.
use testing.Base.{
  ℕ, ◌+◌, ◌-◌, ◌<◌, ◌^◌, ◌≡◌, ◌≢◌, ◌∙◌, refl, ap, false, none, some, List, [], ◌∷◌, ◌==◌, arith,
  s_ok, decimal, eq→==, ne→==,
}
use testing.Systemio.Pwm.{PwmConfig}
use testing.Systemio.Pwm.Linux.{
  PwmData, wrote, closed, Board, Kernel, log, store, enable_data, set_number, set_polarity_data,
  path_of, set_fd, open_all, init, open_index, close_all, clean, release_data, os_release,
  configure, os_request, with_duty, fresh_data, enable_index, cycle_index, period_index,
  polarity_index, export_index, unexport_index, polarity_text,
}
use testing.Systemio.Pwm.Linux.Descriptors.{
  descriptors, Agrees, with_open, positive, ioctl_lem, export_with_lem, set_number_lem,
  set_polarity_data_lem,
}

-- The cells of the array that are in use, with descriptors.
record Filled (d : PwmData) : Type 0 where
  pub enable : ℕ
  pub cycle : ℕ
  pub period : ℕ
  pub polarity : ℕ
  pub enable_is : d.fd enable_index ≡ some enable
  pub cycle_is : d.fd cycle_index ≡ some cycle
  pub period_is : d.fd period_index ≡ some period
  pub polarity_is : d.fd polarity_index ≡ some polarity
  pub enable_there : enable < 2 ^ 31
  pub cycle_there : cycle < 2 ^ 31
  pub period_there : period < 2 ^ 31

-- A change of the board that opens and closes nothing.
record Quiet (w w' : Board) : Type 0 where
  pub blocks : w'.data_at ≡ w.data_at
  pub count : descriptors w'.events ≡ descriptors w.events

Quiet-trans : (u v w : Board) → Quiet u v → Quiet v w → Quiet u w
Quiet-trans u v w q r = record { blocks = r.blocks ∙ q.blocks; count = r.count ∙ q.count }

module _ (k : Kernel) (a : Agrees k) where
  enable_data-Quiet :
      (d : PwmData) (value : ℕ) (w : Board)
      → Filled d
      → (w' : Board) × (enable_data k d value w ≡ some (s_ok, w')) × Quiet w w'
  unfolding enable_data descriptors
  enable_data-Quiet d value w h = (
    log (wrote h.enable (value ∷ []) 0) w,
    ioctl_lem k a d enable_index h.enable (value ∷ []) w h.enable_is,
    record { blocks = refl; count = refl },
  )

  set_number-Quiet :
      (d : PwmData) (i f n : ℕ) (w : Board)
      → Filled d
      → d.fd i ≡ some f
      → (w' : Board) × (set_number k d i n w ≡ some (s_ok, w')) × Quiet w w'
  unfolding descriptors
  set_number-Quiet d i f n w h hf = (
    log (wrote h.enable (b'1' ∷ []) 0)
        (log (wrote f (decimal n) 0) (log (wrote h.enable (b'0' ∷ []) 0) w)),
    set_number_lem k a d i h.enable f n w h.enable_is hf,
    record { blocks = refl; count = refl },
  )

  set_polarity_data-Quiet :
      (d : PwmData) (value : ℕ) (w : Board)
      → value < 2
      → Filled d
      → (w' : Board) × (set_polarity_data k d value w ≡ some (s_ok, w')) × Quiet w w'
  unfolding descriptors
  set_polarity_data-Quiet d value w v h = (
    log (wrote h.enable (b'1' ∷ []) 0)
        (log (wrote h.polarity (polarity_text value) 0) (log (wrote h.enable (b'0' ∷ []) 0) w)),
    set_polarity_data_lem k a d h.enable h.polarity value w v h.enable_is h.polarity_is,
    record { blocks = refl; count = refl },
  )

  configure-Quiet :
      (c : PwmConfig) (d : PwmData) (w : Board)
      → c.polarity < 2
      → Filled d
      → (w' : Board) × (configure k c d w ≡ some (s_ok, w')) × Quiet w w'
  unfolding configure
  configure-Quiet c d w v h =
      let (w1, e1, q1) = enable_data-Quiet d b'1' w h in
      let (w2, e2, q2) = set_polarity_data-Quiet d c.polarity w1 v h in
      let (w3, e3, q3) = set_number-Quiet d period_index h.period c.period w2 h h.period_is in
      let (w4, e4, q4) = set_number-Quiet d cycle_index h.cycle c.duty_cycle w3 h h.cycle_is in
      (
        w4,
        rw e1 (rw e2 (rw e3 e4)),
        Quiet-trans w w3 w4 (Quiet-trans w w2 w3 (Quiet-trans w w1 w2 q1 q2) q3) q4,
      )

  open_all_lem :
      (p : ℕ) (d : PwmData) (i : ℕ) (is : List ℕ) (w : Board)
      → let f = k.open_path w.events (path_of d i) in
        open_all k p d (i ∷ is) w ≡ open_all k p (set_fd i f d) is (with_open p i f d w)
  unfolding open_all open_index
  open_all_lem p d i is w = rw (positive k a w.events (path_of d i)) refl

  open_all_end : (p : ℕ) (d : PwmData) (w : Board) → open_all k p d [] w ≡ some (s_ok, w)
  unfolding open_all
  open_all_end p d w = refl

  -- What a request leaves at its block.
  record Opened (p : ℕ) (w w' : Board) : Type 0 where
    pub block : PwmData
    pub there : w'.data_at p ≡ some block
    pub filled : Filled block
    pub four : descriptors w'.events ≡ descriptors w.events + 4

  init-Opened :
      (c : PwmConfig) (p : ℕ) (w : Board)
      → p ≢ 0
      → (w' : Board) × (init k c p w ≡ some (s_ok, w')) × Opened p w w'
  unfolding init descriptors
  init-Opened c p w n =
      let d0 = fresh_data c in
      let start = store p (some d0) w in
      let f0 = k.open_path start.events (path_of d0 export_index) in
      let d1 = set_fd export_index f0 d0 in
      let w1 =
        log (closed f0)
          (log (wrote f0 (decimal d0.port) 0) (with_open p export_index f0 d0 start)) in
      let f2 = k.open_path w1.events (path_of d1 enable_index) in
      let d2 = set_fd enable_index f2 d1 in
      let w2 = with_open p enable_index f2 d1 w1 in
      let f3 = k.open_path w2.events (path_of d2 cycle_index) in
      let d3 = set_fd cycle_index f3 d2 in
      let w3 = with_open p cycle_index f3 d2 w2 in
      let f4 = k.open_path w3.events (path_of d3 period_index) in
      let d4 = set_fd period_index f4 d3 in
      let w4 = with_open p period_index f4 d3 w3 in
      let f5 = k.open_path w4.events (path_of d4 polarity_index) in
      let d5 = set_fd polarity_index f5 d4 in
      let w5 = with_open p polarity_index f5 d4 w4 in
      let held : (with_open p export_index f0 d0 start).data_at p ≡ some d1 =
        rw (eq→== p p refl) refl in
      let last : w5.data_at p ≡ some d5 = rw (eq→== p p refl) refl in
      (
        w5,
        rw (ne→== p 0 n, export_with_lem k a p d0 export_index start)
            (rw held (
              open_all_lem p d1 enable_index (cycle_index ∷ period_index ∷ polarity_index ∷ []) w1
              ∙ open_all_lem p d2 cycle_index (period_index ∷ polarity_index ∷ []) w2
              ∙ open_all_lem p d3 period_index (polarity_index ∷ []) w3
              ∙ open_all_lem p d4 polarity_index [] w4
              ∙ open_all_end p d5 w5)),
        record {
          block = d5;
          there = last;
          filled = record {
            enable = f2;
            cycle = f3;
            period = f4;
            polarity = f5;
            enable_is = refl;
            cycle_is = refl;
            period_is = refl;
            polarity_is = refl;
            enable_there = a.opens w1.events (path_of d1 enable_index);
            cycle_there = a.opens w2.events (path_of d2 cycle_index);
            period_there = a.opens w3.events (path_of d3 period_index);
          };
          four = omega arith;
        },
      )

  -- A close of the three descriptors that the loop of os_pwm_clean reaches.
  clean-closes :
      (p : ℕ) (d : PwmData) (w : Board)
      → Filled d
      → (w' : Board) × (clean p d w ≡ some w')
        × (w'.data_at p ≡ none)
        × (descriptors w'.events ≡ descriptors w.events - 3)
  unfolding clean close_all descriptors
  clean-closes p d w h =
      let e = h.enable_there in
      let c = h.cycle_there in
      let r = h.period_there in
      let not_e : (h.enable == 2 ^ 32 - 1) ≡ false = ground (arith, e) in
      let not_c : (h.cycle == 2 ^ 32 - 1) ≡ false = ground (arith, c) in
      let not_r : (h.period == 2 ^ 32 - 1) ≡ false = ground (arith, r) in
      let left = log (closed h.period) (log (closed h.cycle) (log (closed h.enable) w)) in
      (
        store p none left,
        rw (h.enable_is, not_e, h.cycle_is, not_c, h.period_is, not_r) refl,
        rw (eq→== p p refl) refl,
        omega arith,
      )

  -- Where every write, open and close succeeds and there is memory: a request of an output, with a
  -- polarity that the driver knows, returns S_OK, and so does a release that follows, which gives the
  -- block back; but one descriptor more is open than before.
  pub release-request_descriptors :
      (c : PwmConfig) (w : Board)
      → k.malloc w ≢ 0
      → c.polarity < 2
      → (c' : PwmConfig) × (w' w'' : Board) × (os_request k c w ≡ some (s_ok, c', w'))
        × (os_release k c' w' ≡ some (s_ok, c', w''))
        × (w''.data_at c'.user_data ≡ none)
        × (descriptors w''.events ≡ descriptors w.events + 1)
  unfolding os_request os_release release_data descriptors
  release-request_descriptors c w n v =
      let p = k.malloc w in
      let c' = with_duty c p in
      let (w1, begun, o) = init-Opened c' p w n in
      let d = o.block in
      let (w2, set, q2) = configure-Quiet c' d w1 v o.filled in
      let there : w2.data_at p ≡ some d = ap (λ f. f p) q2.blocks ∙ o.there in
      let (w3, low, q3) =
        set_number-Quiet d cycle_index o.filled.cycle 0 w2 o.filled o.filled.cycle_is in
      let (w4, off, q4) = enable_data-Quiet d b'0' w3 o.filled in
      let f1 = k.open_path w4.events (path_of d unexport_index) in
      let d' = set_fd unexport_index f1 d in
      let w5 =
        log (closed f1) (log (wrote f1 (decimal d.port) 0) (with_open p unexport_index f1 d w4)) in
      let filled' : Filled d' = record {
        enable = o.filled.enable;
        cycle = o.filled.cycle;
        period = o.filled.period;
        polarity = o.filled.polarity;
        enable_is = o.filled.enable_is;
        cycle_is = o.filled.cycle_is;
        period_is = o.filled.period_is;
        polarity_is = o.filled.polarity_is;
        enable_there = o.filled.enable_there;
        cycle_there = o.filled.cycle_there;
        period_there = o.filled.period_there;
      } in
      let held : w5.data_at p ≡ some d' = rw (eq→== p p refl) refl in
      let (w6, cleaned, gone, three) = clean-closes p d' w5 filled' in
      (
        c',
        w2,
        w6,
        rw begun (rw o.there (rw set refl)),
        rw there (
            rw low (
              rw off (rw (export_with_lem k a p d unexport_index w4) (rw held (rw cleaned refl))))),
        gone,
        omega (arith, three, q4.count, q3.count, q2.count, o.four),
      )
