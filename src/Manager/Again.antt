-- ===== src/Manager/Again.antt =====
-- A request of a module and its release (linux_module.c).
use testing.Base.{
  ℕ, ◌≡◌, ◌≢◌, ◌∙◌, refl, ap, true, false, none, some, List, [], ◌∷◌, ◌++◌, eq→==, Bool-cases, inl,
  inr, s_ok,
}
use testing.ArtikList.Abstract.{Fresh}
use testing.Manager.{Info, ApiModule, opened, closed, Linker, Manager, row_of, request, release}
use testing.Manager.Infos.{infos, look, look-none, drop_first, has, occurs, references}
use testing.Manager.Counts.{occurs-references}
use testing.Manager.Valid.{IsLinker, IsValid, called, new_symbol}
use testing.Manager.Calls.{request_new}
use testing.Manager.Release.{release_lem}

look-append :
    (symbol : ℕ) (is : List Info) (i : Info)
    → occurs symbol is ≡ false
    → has symbol i ≡ true
    → (look (has symbol) (is ++ i ∷ []) ≡ some i) × (drop_first (has symbol) (is ++ i ∷ []) ≡ is)
unfolding look drop_first occurs
look-append symbol [] i o h = (rw h refl, rw h refl)
look-append symbol (j ∷ is) i o h = elim (Bool-cases (has symbol j)) [
  | inl hit ↦ let bad : true ≡ false = rw hit at o in absurd cc
  | inr miss ↦
      let rest = look-append symbol is i (rw miss at o) h in
      (rw miss rest.0, rw miss (ap (λ js. j ∷ js) rest.1))
]

-- For a linker as `IsLinker` says and a valid list, with memory, and where the linker has the library
-- and the symbol: a module that no node stands for, requested and then released once, leaves the
-- nodes as they were in a valid list, and its library closed after it was opened.
pub release-request_new :
    (l : Linker) (rows : List ApiModule) (size m p : ℕ) (name : List ℕ) (row : ApiModule)
    (s : Manager) (symbol : ℕ)
    → IsLinker l
    → IsValid l rows s
    → row_of rows name ≡ some row
    → look (called s.names name) (infos s.nodes) ≡ none
    → m ≢ 0
    → Fresh m s.nodes
    → p ≢ 0
    → s.names p ≡ none
    → l.dlopen s.events row.object ≢ 0
    → l.dlsym (l.dlopen s.events row.object) name ≡ some symbol
    → (s' s'' : Manager) × (request l rows size m p (some name) s ≡ some (symbol, s'))
      × (release l symbol s' ≡ some (s_ok, s''))
      × (infos s''.nodes ≡ infos s.nodes)
      × (s''.events
          ≡ closed (l.dlopen s.events row.object)
            ∷ opened (l.dlopen s.events row.object)
            ∷ s.events)
      × IsValid l rows s''
release-request_new l rows size m p name row s symbol k v r e n f pn free hn sy =
    let handle = l.dlopen s.events row.object in
    let i : Info = record { module_name = p; dl_handle = handle; dl_symbol = symbol } in
    let asked = request_new l rows size m p name row s symbol k v r e n f pn free hn sy in
    let none_has =
      new_symbol l rows s.names handle symbol name (infos s.nodes) k sy v.modules
        (look-none (called s.names name) (infos s.nodes) e) in
    let both = look-append symbol (infos s.nodes) i none_has (eq→== symbol symbol refl) in
    let there : look (has symbol) (infos asked.0.nodes) ≡ some i = rw asked.2 both.0 in
    let given = release_lem l rows asked.0 i symbol k asked.4 there in
    let back : infos given.0.nodes ≡ infos s.nodes =
      given.2.nodes_left ∙ ap (drop_first (has symbol)) asked.2 ∙ both.1 in
    let zeroed : references symbol (infos given.0.nodes) ≡ 0 =
      rw back (occurs-references symbol (infos s.nodes) none_has) in
    (
      asked.0,
      given.0,
      asked.1,
      given.1,
      back,
      (given.2.last_closes zeroed).0 ∙ ap (λ t. closed handle ∷ t) asked.3,
      given.2.stays_valid,
    )
