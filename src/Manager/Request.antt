-- ===== src/Manager/Request.antt =====
-- Requests of modules (linux_module.c).
use testing.Base.{
  ℕ, ◌≡◌, ◌≢◌, ◌∙◌, refl, sym, ap, false, Option, none, some, List, [], ◌∷◌, ◌++◌, All, All-append,
  ◌==◌, arith, Bool-cases, inl, inr, ==→eq, eq→==, ne→==,
}
use testing.ArtikList.{Entry, null, new_entry}
use testing.ArtikList.Abstract.{Fresh}
use testing.Systemio.Nodes.{Handled, Handled-added, added, modify-added, entry_at}
use testing.Manager.{
  Info, blank, ApiModule, Event, opened, Linker, Manager, open_count, text_at, set_name,
  compare_module_name, load, put, finish, row_of, request_row, request,
}
use testing.Manager.Infos.{infos, modules_of-append_new, modules_of-append_known, All-imp, All-both}
use testing.Manager.Search.{Found, Missed, infos-append}
use testing.Manager.Valid.{
  IsLinker, IsValid, Shares, name_at, called, not_called, same_Info, new_symbol, occurs-All,
}

-- The state with one more node at the end.
abbrev pub with_node : ℕ → ℕ → Info → (ℕ → Option (List ℕ)) → List Event → Manager → Manager
with_node size m i names events s = record {
  nodes = s.nodes ++ (m, put i (new_entry blank null size m)) ∷ [];
  names = names;
  events = events;
}

entry_at-null : (xs : List (ℕ × Entry Info)) → Handled xs → entry_at null xs ≡ none
unfolding entry_at
entry_at-null [] h = refl
entry_at-null ((a, e) ∷ xs) h = rw (ne→== a null h.0) (entry_at-null xs h.3)

pub request-Found :
    (l : Linker) (rows : List ApiModule) (size m p : ℕ) (name : List ℕ) (row : ApiModule)
    (s : Manager)
    → row_of rows name ≡ some row
    → m ≢ 0
    → (f : Found (compare_module_name s.names name) (called s.names name) s.nodes)
    → request l rows size m p (some name) s
      ≡ some (
          finish name p m f.info.module_name
            (added blank size m s.nodes)
            s
            (load l s.events row.object name f.info))
unfolding request request_row
request-Found l rows size m p name row s r n f = rw r (rw f.got (rw (f.contents, ne→== m 0 n) refl))

pub request-Missed :
    (l : Linker) (rows : List ApiModule) (size m p : ℕ) (name : List ℕ) (row : ApiModule)
    (s : Manager)
    → row_of rows name ≡ some row
    → m ≢ 0
    → Handled s.nodes
    → Missed (compare_module_name s.names name) (called s.names name) s.nodes
    → request l rows size m p (some name) s
      ≡ some
          (finish name p m 0 (added blank size m s.nodes) s (load l s.events row.object name blank))
unfolding request request_row
request-Missed l rows size m p name row s r n h f =
    rw r (rw f.got (rw (entry_at-null s.nodes h, ne→== m 0 n) refl))

pub text_at-ne :
    (names : ℕ → Option (List ℕ)) (q : ℕ) (t : List ℕ) → text_at names q ≡ some t → q ≢ 0
text_at-ne names q t e z = let bad : none ≡ some t = rw (eq→== q 0 z) at e in cc

-- The contents of the node that a request of a known module adds are those of the node that it found.
pub finish-known :
    (l : Linker) (size m p : ℕ) (name : List ℕ) (object : List ℕ) (s : Manager) (i : Info)
    → Fresh m s.nodes
    → i.module_name ≢ 0
    → i.dl_handle ≢ 0
    → finish name p m i.module_name (added blank size m s.nodes) s (load l s.events object name i)
      ≡ (i.dl_symbol, with_node size m i s.names s.events s)
unfolding load
finish-known l size m p name object s i f named handle =
    let e = new_entry blank null size m in
    rw (ne→== i.dl_handle 0 handle, ne→== i.module_name 0 named)
      (rw (modify-added m e (put i) s.nodes f) refl)

pub finish-new :
    (l : Linker) (size m p : ℕ) (name : List ℕ) (object : List ℕ) (s : Manager) (symbol : ℕ)
    → Fresh m s.nodes
    → p ≢ 0
    → l.dlopen s.events object ≢ 0
    → l.dlsym (l.dlopen s.events object) name ≡ some symbol
    → finish name p m 0 (added blank size m s.nodes) s (load l s.events object name blank) ≡ (
      symbol,
      with_node size m
          (record { module_name = p; dl_handle = l.dlopen s.events object; dl_symbol = symbol })
          (set_name s.names p (some name))
          (opened (l.dlopen s.events object) ∷ s.events)
          s,
    )
unfolding load
finish-new l size m p name object s symbol f n h e =
    let d = new_entry blank null size m in
    rw (ne→== (l.dlopen s.events object) 0 h, e, ne→== p 0 n)
      (rw (modify-added m d _ s.nodes f) refl)

Handled-with_node :
    (size m : ℕ) (i : Info) (s : Manager)
    → m ≢ 0
    → Fresh m s.nodes
    → Handled s.nodes
    → Handled (s.nodes ++ (m, put i (new_entry blank null size m)) ∷ [])
Handled-with_node size m i s n f h = Handled-added m _ s.nodes n refl f h

shared-append :
    (names : ℕ → Option (List ℕ)) (is : List Info) (i : Info)
    → All (λ x. All (Shares names x) is) is
    → All (λ x. Shares names x i) is
    → All (Shares names i) is
    → All (λ x. All (Shares names x) (is ++ i ∷ [])) (is ++ i ∷ [])
shared-append names is i old to_i from_i =
    All-append _ is (i ∷ [])
      (All-both _ _ _ is (λ x a b. All-append (Shares names x) is (i ∷ []) a (b, tt)) old to_i)
      (All-append (Shares names i) is (i ∷ []) from_i ((λ _. refl), tt), tt)

pub known-IsValid :
    (l : Linker) (rows : List ApiModule) (size m : ℕ) (s : Manager) (i : Info)
    → IsLinker l
    → IsValid l rows s
    → ((P : Info → Type 0) → All P (infos s.nodes) → P i)
    → m ≢ 0
    → Fresh m s.nodes
    → IsValid l rows (with_node size m i s.names s.events s)
known-IsValid l rows size m s i k v in_list n f =
    let is = infos s.nodes in
    let module_i = in_list _ v.modules in
    let shares_i = in_list _ v.shared in
    let grown = infos-append s.nodes m (put i (new_entry blank null size m)) in
    let libraries : All (λ x. x.dl_symbol ≡ i.dl_symbol → x.dl_handle ≡ i.dl_handle) is =
      All-both _ _ _ is
        (λ x w sh e.
          ap (λ (y : Info). y.dl_handle)
            (sym (same_Info l rows s.names i x k module_i w sh (sym e))))
        v.modules shares_i in
    let there = in_list _ (occurs-All is) in
    record {
      handled = Handled-with_node size m i s n f v.handled;
      modules = rw grown (All-append _ is (i ∷ []) v.modules (module_i, tt));
      shared = rw grown (
          shared-append s.names is i v.shared
            (All-imp _ _ is (λ x sh. in_list (Shares s.names x) sh) v.shared) shares_i);
      counted = λ h.
          rw grown (omega (arith, v.counted h, modules_of-append_known h is i libraries there));
    }

-- A text that is written where none was leaves the names of the nodes as they are.
name_at-set :
    (names : ℕ → Option (List ℕ)) (p : ℕ) (t : List ℕ) (i : Info) (n : List ℕ)
    → names p ≡ none
    → name_at names i ≡ some n
    → name_at (set_name names p (some t)) i ≡ name_at names i
name_at-set names p t i n free e = elim (Bool-cases (p == i.module_name)) [
  | inr other ↦ rw other refl
  | inl same ↦
      let gone : names i.module_name ≡ none = ap names (sym (==→eq p i.module_name same)) ∙ free in
      ground (arith, gone, e)
]

abbrev Unchanged : (names names' : ℕ → Option (List ℕ)) → Info → Type 0
Unchanged names names' i = name_at names' i ≡ name_at names i

pub new-IsValid :
    (l : Linker) (rows : List ApiModule) (size m p h symbol : ℕ) (name : List ℕ) (s : Manager)
    → IsLinker l
    → IsValid l rows s
    → row_of rows name ≢ none
    → All (λ i. called s.names name i ≡ false) (infos s.nodes)
    → m ≢ 0
    → Fresh m s.nodes
    → p ≢ 0
    → s.names p ≡ none
    → h ≢ 0
    → l.dlsym h name ≡ some symbol
    → IsValid l rows (
        with_node size m
          (record { module_name = p; dl_handle = h; dl_symbol = symbol })
          (set_name s.names p (some name))
          (opened h ∷ s.events)
          s)
unfolding open_count
new-IsValid l rows size m p h symbol name s k v listed others n f pn free hn e =
    let is = infos s.nodes in
    let i : Info = record { module_name = p; dl_handle = h; dl_symbol = symbol } in
    let names' = set_name s.names p (some name) in
    let grown = infos-append s.nodes m (put i (new_entry blank null size m)) in
    let mine : name_at names' i ≡ some name = rw (ne→== p 0 pn, eq→== p p refl) refl in
    let same : All (Unchanged s.names names') is =
      All-imp _ _ is (λ x w. name_at-set s.names p name x w.name free w.named) v.modules in
    let differ : All (λ x. name_at names' x ≢ some name) is =
      All-both _ _ _ is (λ x u c q. not_called s.names name x c (sym u ∙ q)) same others in
    let old : All (λ x. All (Shares names' x) is) is =
      All-both _ _ _ is (λ x u sh. All-both _ _ _ is (λ y w share q. share (sym u ∙ q ∙ w)) same sh)
        same v.shared in
    record {
      handled = Handled-with_node size m i s n f v.handled;
      modules = rw grown (
          All-append _ is (i ∷ [])
            (All-both _ _ _ is
              (λ x u w. record {
                name = w.name;
                named = u ∙ w.named;
                listed = w.listed;
                handle_there = w.handle_there;
                symbol_is = w.symbol_is;
              })
              same v.modules)
            (
              record {
                name = name;
                named = mine;
                listed = listed;
                handle_there = hn;
                symbol_is = e;
              },
              tt,
            ));
      shared = rw grown (
          shared-append names' is i old (All-imp _ _ is (λ x d q. absurd (d (q ∙ mine))) differ)
            (All-imp _ _ is (λ x d q. absurd (d (sym q ∙ mine))) differ));
      counted = λ g. rw grown (
          let none_has = new_symbol l rows s.names h symbol name is k e v.modules others in
          ground (arith, v.counted g, modules_of-append_new g is i none_has));
    }
