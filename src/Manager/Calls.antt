-- ===== src/Manager/Calls.antt =====
-- What a request of a module promises (linux_module.c).
use testing.Base.{
  ℕ, ◌≡◌, ◌≢◌, ◌∙◌, refl, sym, ap, Bool, false, Option, none, some, List, [], ◌∷◌, ◌++◌, All, inl,
  inr, Option-cases,
}
use testing.ArtikList.{Entry, null, new_entry}
use testing.ArtikList.Abstract.{Fresh}
use testing.Systemio.Nodes.{added}
use testing.Manager.{
  Info, blank, ApiModule, opened, Linker, Manager, load, put, set_name, compare_module_name, row_of,
  request_row, get_by_check, request, invalid_module,
}
use testing.Manager.Infos.{infos, look, look-hit, look-All, look-none, All-both}
use testing.Manager.Search.{get_by_check-cases, infos-append}
use testing.Manager.Valid.{
  IsLinker, IsTable, IsValid, called, called-name_at, compare_module_name-Agrees,
}
use testing.Manager.Request.{
  with_node, request-Found, request-Missed, text_at-ne, finish-known, finish-new, known-IsValid,
  new-IsValid,
}

pub listed_of :
    (rows : List ApiModule) (name : List ℕ) (row : ApiModule)
    → row_of rows name ≡ some row
    → row_of rows name ≢ none
listed_of rows name row r e = cc

module _ (l : Linker) (rows : List ApiModule) (size m p : ℕ) (name : List ℕ) (row : ApiModule)
    (s : Manager) where
  -- For a linker as `IsLinker` says, a table in which no name is the beginning of another one and a
  -- valid list, with memory for the node: a module that a node stands for is not loaded again. The
  -- request returns the symbol that is there, which the linker has for the module's name, adds a node
  -- like that one, and leaves a valid list.
  pub request_known :
      (i : Info)
      → IsLinker l
      → IsTable rows
      → IsValid l rows s
      → row_of rows name ≡ some row
      → look (called s.names name) (infos s.nodes) ≡ some i
      → m ≢ 0
      → Fresh m s.nodes
      → (s' : Manager) × (request l rows size m p (some name) s ≡ some (i.dl_symbol, s'))
        × (l.dlsym i.dl_handle name ≡ some i.dl_symbol)
        × (infos s'.nodes ≡ infos s.nodes ++ i ∷ [])
        × (s'.events ≡ s.events)
        × IsValid l rows s'
  request_known i k t v r e n f =
      elim (get_by_check-cases (compare_module_name s.names name) (called s.names name) s.nodes
        v.handled (compare_module_name-Agrees l rows s.names name (infos s.nodes) v.modules)) [
          | inr missed ↦ let bad : none ≡ some i = sym missed.looked ∙ e in absurd cc
          | inl found ↦
              let whole : some found.info ≡ some i = sym found.looked ∙ e in
              let same : found.info ≡ i = cc in
              let in_list : (P : Info → Type 0) → All P (infos s.nodes) → P i =
                λ P a. look-All P (called s.names name) (infos s.nodes) i e a in
              let w = in_list _ v.modules in
              let hit = look-hit (called s.names name) (infos s.nodes) i e in
              let text = called-name_at l rows s.names name i t (listed_of rows name row r) w hit in
              let both : some w.name ≡ some name = sym w.named ∙ text in
              let named : w.name ≡ name = cc in
              let q = request-Found l rows size m p name row s r n found in
              (
                with_node size m i s.names s.events s,
                q
                    ∙ ap some (
                        rw same (
                          finish-known l size m p name row.object s i f
                            (text_at-ne s.names i.module_name w.name w.named) w.handle_there)),
                rw (← named) w.symbol_is,
                infos-append s.nodes m (put i (new_entry blank null size m)),
                refl,
                known-IsValid l rows size m s i k v in_list n f,
              )
        ]

  -- A module that no node stands for is loaded: where the linker has its library and its symbol,
  -- and there is memory, the request returns the symbol and adds a node with it.
  pub request_new :
      (symbol : ℕ)
      → IsLinker l
      → IsValid l rows s
      → row_of rows name ≡ some row
      → look (called s.names name) (infos s.nodes) ≡ none
      → m ≢ 0
      → Fresh m s.nodes
      → p ≢ 0
      → s.names p ≡ none
      → l.dlopen s.events row.object ≢ 0
      → l.dlsym (l.dlopen s.events row.object) name ≡ some symbol
      → (s' : Manager) × (request l rows size m p (some name) s ≡ some (symbol, s'))
        × (infos s'.nodes
            ≡ infos s.nodes
              ++ record {
                module_name = p;
                dl_handle = l.dlopen s.events row.object;
                dl_symbol = symbol;
              }
                ∷ [])
        × (s'.events ≡ opened (l.dlopen s.events row.object) ∷ s.events)
        × IsValid l rows s'
  request_new symbol k v r e n f pn free h sy =
      elim (get_by_check-cases (compare_module_name s.names name) (called s.names name) s.nodes
        v.handled (compare_module_name-Agrees l rows s.names name (infos s.nodes) v.modules)) [
          | inl found ↦ let bad : some found.info ≡ none = sym found.looked ∙ e in absurd cc
          | inr missed ↦
              let handle = l.dlopen s.events row.object in
              let i : Info = record { module_name = p; dl_handle = handle; dl_symbol = symbol } in
              let q = request-Missed l rows size m p name row s r n v.handled missed in
              let others = look-none (called s.names name) (infos s.nodes) e in
              (
                with_node size m i (set_name s.names p (some name)) (opened handle ∷ s.events) s,
                q ∙ ap some (finish-new l size m p name row.object s symbol f pn h sy),
                infos-append s.nodes m (put i (new_entry blank null size m)),
                refl,
                new-IsValid l rows size m p handle symbol name s k v (listed_of rows name row r)
                    others n f pn free h sy,
              )
        ]

-- A search that passes every node but the last, at which the check faults.
get_by_check-fault :
    (check : Info → Option Bool) (xs : List (ℕ × Entry Info)) (m : ℕ) (e : Entry Info)
    → All (λ i. check i ≡ some false) (infos xs)
    → check e.payload ≡ none
    → get_by_check check (xs ++ (m, e) ∷ []) ≡ none
unfolding get_by_check
get_by_check-fault check [] m e h z = rw z refl
get_by_check-fault check (x ∷ xs) m e h z = rw h.0 (get_by_check-fault check xs m e h.1 z)

-- In a valid list, with memory for the node: if the library of a row's module that no node stands for
-- cannot be opened, the request returns INVALID_MODULE; and the node that it leaves makes the next
-- request of a module that no node stands for fault, with or without memory.
pub request_failed :
    (l : Linker) (rows : List ApiModule) (size m p : ℕ) (name : List ℕ) (row : ApiModule)
    (s : Manager)
    → IsValid l rows s
    → row_of rows name ≡ some row
    → look (called s.names name) (infos s.nodes) ≡ none
    → m ≢ 0
    → l.dlopen s.events row.object ≡ 0
    → (s' : Manager) × (request l rows size m p (some name) s ≡ some (invalid_module, s'))
      × ((name' : List ℕ) (m' p' : ℕ)
          → row_of rows name' ≢ none
          → look (called s.names name') (infos s.nodes) ≡ none
          → request l rows size m' p' (some name') s' ≡ none)
unfolding request request_row load compare_module_name
request_failed l rows size m p name row s v r e n z =
    elim (get_by_check-cases (compare_module_name s.names name) (called s.names name) s.nodes
      v.handled (compare_module_name-Agrees l rows s.names name (infos s.nodes) v.modules)) [
        | inl found ↦ let bad : some found.info ≡ none = sym found.looked ∙ e in absurd cc
        | inr missed ↦ (
          record s { nodes = added blank size m s.nodes },
          request-Missed l rows size m p name row s r n v.handled missed ∙ rw z refl,
          λ name' m' p' listed none_called.
              let passes =
                All-both _ _ (λ i. compare_module_name s.names name' i ≡ some false) (infos s.nodes)
                  (λ i a c. a ∙ ap some c)
                  (compare_module_name-Agrees l rows s.names name' (infos s.nodes) v.modules)
                  (look-none (called s.names name') (infos s.nodes) none_called) in
              let faults =
                get_by_check-fault (compare_module_name s.names name') s.nodes m
                  (new_entry blank null size m) passes refl in
              elim (Option-cases (row_of rows name')) [
                | inl absent ↦ absurd (listed absent)
                | inr (row', there) ↦ rw there (rw faults refl)
              ],
        )
      ]
