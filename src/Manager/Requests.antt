-- ===== src/Manager/Requests.antt =====
-- Requests of modules that succeed, by their results (linux_module.c).
use testing.Base.{
  ℕ, ◌+◌, ◌≡◌, ◌≢◌, ◌∙◌, refl, sym, ap, true, Option, none, some, List, [], ◌∷◌, ◌++◌, ◌==◌,
  if◌then◌else◌, inl, inr, Option-cases, Bool-cases, ne_of_==,
}
use testing.ArtikList.Abstract.{Fresh}
use testing.Systemio.Nodes.{added}
use testing.Manager.{
  Info, ApiModule, Linker, Manager, load, row_of, request, request_row, invalid_module,
  compare_module_name, finish, blank, Event, opened,
}
use testing.Manager.Counts.{references-append}
use testing.Manager.Infos.{infos, look, references}
use testing.Manager.Valid.{IsLinker, IsTable, IsValid, called, compare_module_name-Agrees}
use testing.Manager.Search.{get_by_check-cases}
use testing.Manager.Request.{request-Missed}
use testing.Manager.Calls.{request_known, request_new}

-- One node more for a symbol, and none for the others.
abbrev pub Counted : ℕ → List Info → List Info → Type 0
Counted symbol is js = (t : ℕ) → references t js ≡ references t is + (if symbol == t then 1 else 0)

abbrev result_of : Option (ℕ × Manager) → ℕ
result_of none = 0
result_of (some r) = r.0

abbrev state_of : Manager → Option (ℕ × Manager) → Manager
state_of s none = s
state_of s (some r) = r.1

module _ (l : Linker) (rows : List ApiModule) (size m p : ℕ) (name : List ℕ) (row : ApiModule)
    (s : Manager) (symbol : ℕ) (s' : Manager)
    (e : request l rows size m p (some name) s ≡ some (symbol, s')) where
  -- The state that a theorem on requests gives is the one that was reached.
  same_state :
      (i : Info) (s1 : Manager)
      → request l rows size m p (some name) s ≡ some (i.dl_symbol, s1)
      → infos s1.nodes ≡ infos s.nodes ++ i ∷ []
      → IsValid l rows s1
      → IsValid l rows s' × Counted symbol (infos s.nodes) (infos s'.nodes)
  same_state i s1 q added v =
      let both : some (symbol, s') ≡ some (i.dl_symbol, s1) = sym e ∙ q in
      let result : symbol ≡ i.dl_symbol = ap result_of both in
      let state : s' ≡ s1 = ap (state_of s) both in
      (rw state v, λ t. rw (state, added, result) (references-append t (infos s.nodes) i))

  not_invalid :
      (s1 : Manager)
      → symbol ≢ invalid_module
      → request l rows size m p (some name) s ≢ some (invalid_module, s1)
  not_invalid s1 n q = n (ap result_of (sym e ∙ q))

  abbrev left_behind : List Event → Manager
  left_behind events = record s { nodes = added blank size m s.nodes; events = events }

  no_memory :
      IsValid l rows s
      → row_of rows name ≡ some row
      → (m == 0) ≡ true
      → request l rows size m p (some name) s ≡ some (invalid_module, s)
  unfolding request request_row
  no_memory v r full =
      elim (get_by_check-cases (compare_module_name s.names name) (called s.names name) s.nodes
        v.handled (compare_module_name-Agrees l rows s.names name (infos s.nodes) v.modules)) [
          | inl found ↦ rw r (rw found.got (rw full refl))
          | inr missed ↦ rw r (rw missed.got (rw full refl))
        ]

  new_request :
      (q : request l rows size m p (some name) s
        ≡ some (
            finish name p m 0
              (added blank size m s.nodes)
              s
              (load l s.events row.object name blank)))
      → symbol ≢ invalid_module
      → (l.dlopen s.events row.object ≢ 0)
        × (p ≢ 0)
        × ((found : ℕ) × (l.dlsym (l.dlopen s.events row.object) name ≡ some found))
  unfolding load
  new_request q n =
      let handle = l.dlopen s.events row.object in
      elim (Bool-cases (handle == 0)) [
        | inl closed ↦ absurd (not_invalid (left_behind s.events) n (q ∙ rw closed refl))
        | inr is_open ↦ elim (Option-cases (l.dlsym handle name)) [
          | inl unknown ↦ absurd (
              not_invalid (left_behind (opened handle ∷ s.events)) n
                (q ∙ rw (is_open, unknown) refl))
          | inr (found, there) ↦ elim (Bool-cases (p == 0)) [
            | inl full ↦ absurd (
                not_invalid (left_behind (opened handle ∷ s.events)) n
                  (q ∙ rw (is_open, there, full) refl))
            | inr got ↦ (ne_of_== handle 0 is_open, ne_of_== p 0 got, (found, there))
          ]
        ]
      ]

  new-Counted :
      IsLinker l
      → IsValid l rows s
      → row_of rows name ≡ some row
      → look (called s.names name) (infos s.nodes) ≡ none
      → m ≢ 0
      → Fresh m s.nodes
      → s.names p ≡ none
      → symbol ≢ invalid_module
      → IsValid l rows s' × Counted symbol (infos s.nodes) (infos s'.nodes)
  new-Counted k v r new mn f free n =
      elim (get_by_check-cases (compare_module_name s.names name) (called s.names name) s.nodes
        v.handled (compare_module_name-Agrees l rows s.names name (infos s.nodes) v.modules)) [
          | inl found ↦ let bad : some found.info ≡ none = sym found.looked ∙ new in absurd cc
          | inr missed ↦
              let q = request-Missed l rows size m p name row s r mn v.handled missed in
              let (hn, pn, found) = new_request q n in
              let done =
                request_new l rows size m p name row s found.0 k v r new mn f pn free hn found.1 in
              let i : Info = record {
                module_name = p;
                dl_handle = l.dlopen s.events row.object;
                dl_symbol = found.0;
              } in
              same_state i done.0 done.1 done.2 done.4
        ]

  -- A request of a row's module that returns no INVALID_MODULE leaves a valid list, with one node
  -- more for the result.
  pub request-Counted :
      IsLinker l
      → IsTable rows
      → IsValid l rows s
      → row_of rows name ≡ some row
      → Fresh m s.nodes
      → s.names p ≡ none
      → symbol ≢ invalid_module
      → IsValid l rows s' × Counted symbol (infos s.nodes) (infos s'.nodes)
  request-Counted k t v r f free n = elim (Bool-cases (m == 0)) [
    | inl full ↦ absurd (not_invalid s n (no_memory v r full))
    | inr got ↦
        let mn = ne_of_== m 0 got in
        elim (Option-cases (look (called s.names name) (infos s.nodes))) [
          | inr (i, known) ↦
              let done = request_known l rows size m p name row s i k t v r known mn f in
              same_state i done.0 done.1 done.3 done.5
          | inl new ↦ new-Counted k v r new mn f free n
        ]
  ]
