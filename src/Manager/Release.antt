-- ===== src/Manager/Release.antt =====
-- What a release of a module promises (linux_module.c).
use testing.Base.{
  ℕ, ◌+◌, ◌≡◌, ◌≢◌, ◌∙◌, refl, sym, ap, subst, true, false, Option, none, some, List, [], ◌∷◌, All,
  ◌==◌, arith, inl, inr, ne→==, ==→eq, Bool-cases, Option-cases, s_ok, e_bad_args,
}
use testing.ArtikList.{Entry}
use testing.Systemio.Nodes.{Handled, entry_at}
use testing.Manager.{
  Info, ApiModule, closed, Linker, Manager, open_count, word, text_at, set_name, compare_module_ops,
  get_by_check, info_of, release,
}
use testing.Manager.Infos.{
  infos, look, look-hit, look-All, drop_first, has, occurs, references, All-drop_first, All-imp,
  All-both,
}
use testing.Manager.Counts.{
  references-drop_first, references-occurs, occurs-references, look-occurs, modules_of-drop_first,
}
use testing.Manager.Search.{Agrees, get_by_check-cases, delete_check-drop_first}
use testing.Manager.Valid.{
  IsLinker, IsValid, IsModule, Shares, name_at, compare_module_ops-Agrees, word_of,
}

pub none-occurs :
    (symbol : ℕ) (is : List Info) → look (has symbol) is ≡ none → occurs symbol is ≡ false
unfolding look occurs
none-occurs symbol [] e = refl
none-occurs symbol (i ∷ is) e = ground (arith, none-occurs symbol is)

-- The state after a release, with the nodes that are left.
abbrev remaining : List (ℕ × Entry Info) → Manager → Manager
remaining left s = record s { nodes = left }

abbrev emptied : Info → List (ℕ × Entry Info) → Manager → Manager
emptied i left s = record {
  nodes = left;
  names = set_name s.names i.module_name none;
  events = closed i.dl_handle ∷ s.events;
}

module _ (l : Linker) (rows : List ApiModule) (s : Manager) (i : Info) (target : ℕ)
    (left : List (ℕ × Entry Info)) (k : IsLinker l) (v : IsValid l rows s)
    (e : look (has target) (infos s.nodes) ≡ some i) (h : Handled left)
    (d : infos left ≡ drop_first (has target) (infos s.nodes)) where
  modules_left : All (IsModule l rows s.names) (infos left)
  modules_left = rw d (All-drop_first _ (has target) (infos s.nodes) v.modules)

  shared_left : All (λ x. All (Shares s.names x) (infos left)) (infos left)
  shared_left = rw d (
      All-drop_first _ (has target) (infos s.nodes) (
        All-imp _ _ (infos s.nodes)
          (λ x a. All-drop_first (Shares s.names x) (has target) (infos s.nodes) a) v.shared))

  remaining-IsValid : occurs target (infos left) ≡ true → IsValid l rows (remaining left s)
  remaining-IsValid o = record {
    handled = h;
    modules = modules_left;
    shared = shared_left;
    counted = λ g.
        let still : occurs target (drop_first (has target) (infos s.nodes)) ≡ true = rw (← d) o in
        let count = modules_of-drop_first g target (infos s.nodes) i e in
        rw d (ground (arith, still, count, v.counted g));
  }

  -- The text of the module is not that of another node.
  text_kept :
      (x : Info)
      → IsModule l rows s.names x
      → Shares s.names i x
      → (x.dl_symbol == target) ≡ false
      → name_at (set_name s.names i.module_name none) x ≡ name_at s.names x
  text_kept x w share other = elim (Bool-cases (i.module_name == x.module_name)) [
    | inr apart ↦ rw apart refl
    | inl same ↦
        let p : i.module_name ≡ x.module_name = ==→eq i.module_name x.module_name same in
        let one : i ≡ x = share (ap (text_at s.names) p) in
        let hit = look-hit (has target) (infos s.nodes) i e in
        let bad : (x.dl_symbol == target) ≡ true = subst (λ y. has target y ≡ true) one hit in
        absurd cc
  ]

  -- The nodes that are left stand for other modules.
  apart_left :
      (is : List Info) → occurs target is ≡ false → All (λ x. (x.dl_symbol == target) ≡ false) is
  unfolding occurs
  apart_left [] o = tt
  apart_left (x ∷ is) o = (ground (arith, o), apart_left is (ground (arith, o)))

  emptied-IsValid : occurs target (infos left) ≡ false → IsValid l rows (emptied i left s)
  unfolding open_count
  emptied-IsValid o =
      let is = infos left in
      let names' = set_name s.names i.module_name none in
      let from_i : All (Shares s.names i) is = rw d (
        All-drop_first _ (has target) (infos s.nodes) (
          look-All (λ x. All (Shares s.names x) (infos s.nodes)) (has target) (infos s.nodes) i e
            v.shared)) in
      let kept_apart : All (λ x. Shares s.names i x × ((x.dl_symbol == target) ≡ false)) is =
        All-both _ _ _ is (λ x a b. (a, b)) from_i (apart_left is o) in
      let same : All (λ x. name_at names' x ≡ name_at s.names x) is =
        All-both _ _ _ is (λ x w a. text_kept x w a.0 a.1) modules_left kept_apart in
      record {
        handled = h;
        modules =
            All-both _ _ _ is
              (λ x u w. record {
                name = w.name;
                named = u ∙ w.named;
                listed = w.listed;
                handle_there = w.handle_there;
                symbol_is = w.symbol_is;
              })
              same modules_left;
        shared =
            All-both _ _ _ is
              (λ x u sh. All-both _ _ _ is (λ y w share q. share (sym u ∙ q ∙ w)) same sh) same
              shared_left;
        counted = λ g.
            let gone : occurs target (drop_first (has target) (infos s.nodes)) ≡ false =
              rw (← d) o in
            let count = modules_of-drop_first g target (infos s.nodes) i e in
            rw d (ground (arith, gone, count, v.counted g));
      }

-- What a release leaves: one node less for the module, and the library and the text given back with
-- the last of them.
pub record Released (l : Linker) (rows : List ApiModule) (target : ℕ) (i : Info) (s s' : Manager)
    : Type 0 where
  pub nodes_left : infos s'.nodes ≡ drop_first (has target) (infos s.nodes)
  pub counted_down : references target (infos s'.nodes) + 1 ≡ references target (infos s.nodes)
  pub last_closes :
      references target (infos s'.nodes) ≡ 0
      → (s'.events ≡ closed i.dl_handle ∷ s.events) × (name_at s'.names i ≡ none)
  pub others_keep :
      references target (infos s'.nodes) ≢ 0 → (s'.events ≡ s.events) × (s'.names ≡ s.names)
  pub stays_valid : IsValid l rows s'

gone_name :
    (names : ℕ → Option (List ℕ)) (i : Info) → name_at (set_name names i.module_name none) i ≡ none
gone_name names i = ground arith

-- Let a list be valid if its nodes have distinct addresses, which are their handles, and are
-- filled in with a name of the platform's table, a library and that library's symbol for the name,
-- if nodes of one name share the text, the library and the symbol, and if each library is open at
-- least as often as there are different modules of it in the list. For a linker as IsLinker says
-- and a valid list: a release of a module that has a node returns S_OK, takes out the module's
-- first node and leaves a valid list; the library is closed, and the text given back, exactly with
-- the module's last node.
pub release_lem :
    (l : Linker) (rows : List ApiModule) (s : Manager) (i : Info) (target : ℕ)
    → IsLinker l
    → IsValid l rows s
    → look (has target) (infos s.nodes) ≡ some i
    → (s' : Manager) × (release l target s ≡ some (s_ok, s')) × Released l rows target i s s'
unfolding release
release_lem l rows s i target k v e =
    let symbol : i.dl_symbol ≡ target =
      ==→eq i.dl_symbol target (look-hit (has target) (infos s.nodes) i e) in
    let in_list : (P : Info → Type 0) → All P (infos s.nodes) → P i =
      λ P a. look-All P (has target) (infos s.nodes) i e a in
    let readable : word l s.events target ≡ some (l.table target) =
      subst (λ t. word l s.events t ≡ some (l.table t)) symbol (word_of l rows s i k v in_list) in
    let check = compare_module_ops l s.events target in
    let there = in_list _ v.modules in
    let known = there.symbol_is ∙ ap some symbol in
    let agrees =
      compare_module_ops-Agrees l rows s target i.dl_handle there.name k v known readable in
    let (left, deleted, d, h) =
      delete_check-drop_first check (has target) s.nodes i v.handled agrees e in
    let down = references-drop_first target (infos s.nodes) i e in
    let agrees_left : Agrees check (has target) (infos left) =
      rw d (All-drop_first _ (has target) (infos s.nodes) agrees) in
    elim (get_by_check-cases check (has target) s.nodes v.handled agrees) [
      | inr missed ↦ let bad : none ≡ some i = sym missed.looked ∙ e in absurd cc
      | inl found ↦
          let whole : some found.info ≡ some i = sym found.looked ∙ e in
          let same : info_of (entry_at found.node s.nodes) ≡ i = found.contents ∙ cc in
          elim (get_by_check-cases check (has target) left h agrees_left) [
            | inr last ↦
                let o = none-occurs target (infos left) last.looked in
                (
                  emptied i left s,
                  rw found.got
                      (rw (ne→== found.node 0 found.there, same, deleted) (rw last.got refl)),
                  record {
                    nodes_left = d;
                    counted_down = rw d down;
                    last_closes = λ _. (refl, gone_name s.names i);
                    others_keep = λ n. absurd (n (occurs-references target (infos left) o));
                    stays_valid = emptied-IsValid l rows s i target left k v e h d o;
                  },
                )
            | inl more ↦
                let o = look-occurs target (infos left) more.info more.looked in
                (
                  remaining left s,
                  rw found.got (
                      rw (ne→== found.node 0 found.there, same, deleted)
                        (rw more.got (rw (ne→== more.node 0 more.there) refl))),
                  record {
                    nodes_left = d;
                    counted_down = rw d down;
                    last_closes = λ z. let n = references-occurs target (infos left) z in absurd cc;
                    others_keep = λ _. (refl, refl);
                    stays_valid = remaining-IsValid l rows s i target left k v e h d o;
                  },
                )
          ]
    ]

-- A release of a table whose library is not mapped (released before, or never handed out) faults if
-- the list is not empty, and returns E_BAD_ARGS if it is.
pub release_unmapped :
    (l : Linker) (s : Manager) (target : ℕ)
    → word l s.events target ≡ none
    → (s.nodes ≡ [] → release l target s ≡ some (e_bad_args, s))
      × (s.nodes ≢ [] → release l target s ≡ none)
unfolding release get_by_check compare_module_ops
release_unmapped l s target unmapped = (λ e. rw e refl, λ n. faults s.nodes n)
  where
    faults :
        (xs : List (ℕ × Entry Info)) → xs ≢ [] → release l target (record s { nodes = xs }) ≡ none
    faults [] n = absurd (n refl)
    faults ((a, e) ∷ xs) n = elim (Option-cases (word l s.events e.payload.dl_symbol)) [
      | inl first ↦ rw first refl
      | inr (w, first) ↦ rw first (rw unmapped refl)
    ]
