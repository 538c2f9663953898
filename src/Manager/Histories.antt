-- ===== src/Manager/Histories.antt =====
-- Histories of requests and releases of modules (linux_module.c).
use testing.Base.{
  ℕ, ◌+◌, ◌≡◌, ◌≢◌, refl, sym, ap, subst, ◌∙◌, Option, ArtikError, none, some, List, [], ◌∷◌, ◌==◌,
  if◌then◌else◌, arith, s_ok, inl, inr, Option-cases, Bool-cases, ==→eq, ne_of_==,
}
use testing.ArtikList.Abstract.{Fresh}
use testing.Manager.{Info, ApiModule, Linker, Manager, row_of, request, release, invalid_module}
use testing.Manager.Infos.{infos, look, has, references, drop_first}
use testing.Manager.Counts.{occurs-references, references-drop_first, references-drop_first_other}
use testing.Manager.Valid.{IsLinker, IsTable, IsValid}
use testing.Manager.Release.{release_lem, none-occurs}
use testing.Manager.Requests.{request-Counted}

-- What a program did with a module: it got the module's table, or gave it back.
pub data Use : Type 0 where
  got given : ℕ → Use

-- The number of requests that returned a table, and of releases of it.
unfoldable pub requests_of : ℕ → List Use → ℕ
requests_of t [] = 0
requests_of t (got symbol ∷ uses) = (if symbol == t then 1 else 0) + requests_of t uses
requests_of t (given symbol ∷ uses) = requests_of t uses

unfoldable pub releases_of : ℕ → List Use → ℕ
releases_of t [] = 0
releases_of t (got symbol ∷ uses) = releases_of t uses
releases_of t (given symbol ∷ uses) = (if symbol == t then 1 else 0) + releases_of t uses

-- The requests of a program that did not fail, and its releases of tables that it holds.
pub data History (l : Linker) (rows : List ApiModule) : Manager → List Use → Manager → Type 0 where
  nothing : (s : Manager) → History l rows s [] s
  asks :
      (size m p symbol : ℕ) (name : List ℕ) (row : ApiModule) (s s' s'' : Manager) (uses : List Use)
      → row_of rows name ≡ some row
      → Fresh m s.nodes
      → s.names p ≡ none
      → symbol ≢ invalid_module
      → request l rows size m p (some name) s ≡ some (symbol, s')
      → History l rows s' uses s''
      → History l rows s (got symbol ∷ uses) s''
  gives :
      (symbol : ℕ) (s s' s'' : Manager) (uses : List Use)
      → references symbol (infos s.nodes) ≢ 0
      → release l symbol s ≡ some (s_ok, s')
      → History l rows s' uses s''
      → History l rows s (given symbol ∷ uses) s''

abbrev state_of : Manager → Option (ArtikError × Manager) → Manager
state_of s none = s
state_of s (some r) = r.1

released_one :
    (symbol t : ℕ) (is : List Info) (i : Info)
    → look (has symbol) is ≡ some i
    → references t (drop_first (has symbol) is) + (if symbol == t then 1 else 0) ≡ references t is
released_one symbol t is i e = elim (Bool-cases (symbol == t)) [
  | inl same ↦ rw same (
      subst (λ x. references x (drop_first (has symbol) is) + 1 ≡ references x is)
        (==→eq symbol t same) (references-drop_first symbol is i e))
  | inr other ↦
      let n : t ≢ symbol = λ q. ne_of_== symbol t other (sym q) in
      let kept = references-drop_first_other symbol t is n in rw other (omega (arith, kept))
]

-- For a linker as `IsLinker` says and a table in which no name is the beginning of another one: from
-- a valid list, any history of requests that do not fail and of releases of modules that have a node
-- leads to a valid list, in which a module has a node for each of its requests that was not given
-- back, besides those it had.
pub History-references :
    (l : Linker) (rows : List ApiModule) {s s' : Manager} {uses : List Use}
    → IsLinker l
    → IsTable rows
    → IsValid l rows s
    → History l rows s uses s'
    → IsValid l rows s'
      × ((t : ℕ)
          → references t (infos s'.nodes) + releases_of t uses
            ≡ references t (infos s.nodes) + requests_of t uses)
unfolding requests_of releases_of
History-references l rows k t v (nothing s) = (v, λ x. refl)
History-references l rows k t v (asks size m p symbol name row s next s' rest r f free n e h) =
    let (valid, one) = request-Counted l rows size m p name row s symbol next e k t v r f free n in
    let (last, count) = History-references l rows k t valid h in
    (last, λ x. let more = one x in let after = count x in omega (arith, more, after))
History-references l rows k t v (gives symbol s next s' rest held e h) =
    elim (Option-cases (look (has symbol) (infos s.nodes))) [
      | inl missing ↦ absurd (
          held
            (occurs-references symbol (infos s.nodes) (none-occurs symbol (infos s.nodes) missing)))
      | inr (i, there) ↦
          let done = release_lem l rows s i symbol k v there in
          let both : some (s_ok, next) ≡ some (s_ok, done.0) = sym e ∙ done.1 in
          let state : next ≡ done.0 = ap (state_of s) both in
          let valid : IsValid l rows next = rw state done.2.stays_valid in
          let (last, count) = History-references l rows k t valid h in
          let left : infos next.nodes ≡ drop_first (has symbol) (infos s.nodes) =
            rw state done.2.nodes_left in
          (
            last,
            λ x.
                let fewer = released_one symbol x (infos s.nodes) i there in
                let less = ap (references x) left in
                let after = count x in omega (arith, fewer, less, after),
          )
    ]
