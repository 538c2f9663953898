-- ===== src/Manager/Examples.antt =====
-- The theorems on linux_module.c at the generic platform's table, with a library that has two of its
-- modules.
use testing.Base.{
  codes, ℕ, ◌+◌, ◌≡◌, ◌≢◌, ◌∙◌, refl, sym, true, Option, none, some, List, [], ◌∷◌, ◌==◌,
  if◌then◌else◌, arith, s_ok, e_bad_args, Bool-cases, inl, inr, ==→eq,
}
use testing.ArtikList.{Entry, new_entry, null}
use testing.Systemio.Nodes.{entry_at, modify}
use testing.ArtikList.Abstract.{Fresh}
use testing.Manager.{
  Info, ApiModule, opened, closed, Linker, Manager, put, row_of, request, release, invalid_module,
  word, open_count, blank, request_row, get_by_check, compare_module_name, load, delete_check,
  compare_module_ops,
}
use testing.Manager.Names.{strncmp_eq, strncmp_eq-eq}
use testing.Manager.Infos.{infos, references, look, modules_of, occurs}
use testing.Manager.Valid.{IsLinker, IsValid, called}
use testing.Manager.Table.{generic_modules, generic_modules-IsTable}
use testing.Manager.Calls.{request_known, request_failed}
use testing.Manager.Release.{Released, release_lem, release_unmapped}
use testing.Manager.Histories.{
  History, asks, gives, nothing, got, given, requests_of, releases_of, History-references,
}
use testing.Manager.Again.{release-request_new}
use testing.Manager.DeviceInfo.{device_info}
use testing.Manager.DeviceInfo.Text.{device_text, device_info_lem}

-- The library "base" is at 5, its symbols "log" and "loop" at 501 and 502.
abbrev symbol_of : ℕ → List ℕ → Option ℕ
symbol_of h name =
    if h == 5
    then (if strncmp_eq 8 (codes "log") name
        then some 501
        else if strncmp_eq 8 (codes "loop") name
        then some 502
        else none)
    else none

abbrev owner_of : ℕ → ℕ
owner_of symbol = if symbol == 501 then 5 else if symbol == 502 then 5 else 0

abbrev linker : Linker
linker = record {
  dlopen = λ events object. if strncmp_eq 8 (codes "base") object then 5 else 0;
  dlsym = symbol_of;
  owner = owner_of;
  table = λ symbol. symbol;
}

linker_name :
    (h symbol : ℕ) (name : List ℕ)
    → symbol_of h name ≡ some symbol
    → (h ≡ 5)
      × (name ≡ (if symbol == 501 then codes "log" else codes "loop"))
      × (owner_of symbol ≡ 5)
linker_name h symbol name e = elim (Bool-cases (h == 5)) [
  | inr other ↦ let bad : none ≡ some symbol = rw other at e in absurd cc
  | inl base ↦ elim (Bool-cases (strncmp_eq 8 (codes "log") name)) [
    | inl hit ↦
        let whole : some 501 ≡ some symbol = rw (base, hit) at e in
        let is_log : 501 ≡ symbol = cc in
        (
          ==→eq h 5 base,
          rw (← is_log) (sym (strncmp_eq-eq 8 (codes "log") name (omega arith) hit)),
          rw (← is_log) refl,
        )
    | inr miss ↦ elim (Bool-cases (strncmp_eq 8 (codes "loop") name)) [
      | inl hit ↦
          let whole : some 502 ≡ some symbol = rw (base, miss, hit) at e in
          let is_loop : 502 ≡ symbol = cc in
          (
            ==→eq h 5 base,
            rw (← is_loop) (sym (strncmp_eq-eq 8 (codes "loop") name (omega arith) hit)),
            rw (← is_loop) refl,
          )
      | inr neither ↦ let bad : none ≡ some symbol = rw (base, miss, neither) at e in absurd cc
    ]
  ]
]

linker-IsLinker : IsLinker linker
linker-IsLinker = record {
  owner_is =
      λ h symbol name e. let (is_base, _, o) = linker_name h symbol name e in o ∙ sym is_base;
  names_agree = λ h k symbol a b e d.
      let (_, is_a, _) = linker_name h symbol a e in
      let (_, is_b, _) = linker_name k symbol b d in is_a ∙ sym is_b;
  tables_differ = λ h k symbol other a b p q e. e;
}

abbrev generic_log : ApiModule
generic_log = record { id = 0; name = codes "log"; object = codes "base" }

abbrev generic_loop : ApiModule
generic_loop = record { id = 1; name = codes "loop"; object = codes "base" }

abbrev generic_wifi : ApiModule
generic_wifi = record { id = 9; name = codes "wifi"; object = codes "wifi" }

-- The module "log" was requested once.
abbrev log_info : Info
log_info = record { module_name = 700; dl_handle = 5; dl_symbol = 501 }

abbrev logging : Manager
logging = record {
  nodes = (16, put log_info (new_entry log_info null 64 16)) ∷ [];
  names = λ p. if p == 700 then some (codes "log") else none;
  events = opened 5 ∷ [];
}

logging-IsValid : IsValid linker generic_modules logging
unfolding row_of strncmp_eq modules_of occurs open_count
logging-IsValid = record {
  handled = ((λ e. omega arith), refl, tt, tt);
  modules = (
    record {
      name = codes "log";
      named = refl;
      listed = λ e. cc;
      handle_there = λ e. omega arith;
      symbol_is = refl;
    },
    tt,
  );
  shared = (((λ _. refl), tt), tt);
  counted = λ h. ground arith;
}

log_again : Fresh 32 logging.nodes
log_again = ((λ e. omega arith), tt)

-- "log" is requested again.
request_known_example :
    (s' : Manager) × (request linker generic_modules 64 32 0 (some (codes "log")) logging
      ≡ some (501, s'))
    × (symbol_of 5 (codes "log") ≡ some 501)
    × (infos s'.nodes ≡ log_info ∷ log_info ∷ [])
    × (s'.events ≡ opened 5 ∷ [])
    × IsValid linker generic_modules s'
unfolding look row_of strncmp_eq
request_known_example =
    request_known linker generic_modules 64 32 0 (codes "log") generic_log logging log_info
      linker-IsLinker generic_modules-IsTable logging-IsValid refl refl (λ e. omega arith) log_again

-- "wifi" has no library here.
request_failed_example :
    (s' : Manager) × (request linker generic_modules 64 32 701 (some (codes "wifi")) logging
      ≡ some (invalid_module, s'))
    × ((name' : List ℕ) (m' p' : ℕ)
        → row_of generic_modules name' ≢ none
        → look (called logging.names name') (infos logging.nodes) ≡ none
        → request linker generic_modules 64 m' p' (some name') s' ≡ none)
unfolding look row_of strncmp_eq
request_failed_example =
    request_failed linker generic_modules 64 32 701 (codes "wifi") generic_wifi logging
      logging-IsValid refl refl (λ e. omega arith) refl

release_lem_example :
    (s' : Manager) × (release linker 501 logging ≡ some (s_ok, s'))
    × Released linker generic_modules 501 log_info logging s'
unfolding look
release_lem_example =
    release_lem linker generic_modules logging log_info 501 linker-IsLinker logging-IsValid refl

release_unmapped_example :
    (logging.nodes ≡ [] → release linker 900 logging ≡ some (e_bad_args, logging))
    × (logging.nodes ≢ [] → release linker 900 logging ≡ none)
unfolding word open_count
release_unmapped_example = release_unmapped linker logging 900 refl

release-request_new_example :
    (s' s'' : Manager) × (request linker generic_modules 64 32 701 (some (codes "loop")) logging
      ≡ some (502, s'))
    × (release linker 502 s' ≡ some (s_ok, s''))
    × (infos s''.nodes ≡ log_info ∷ [])
    × (s''.events ≡ closed 5 ∷ opened 5 ∷ opened 5 ∷ [])
    × IsValid linker generic_modules s''
unfolding look row_of strncmp_eq
release-request_new_example =
    release-request_new linker generic_modules 64 32 701 (codes "loop") generic_loop logging 502
      linker-IsLinker logging-IsValid refl refl (λ e. omega arith) log_again (λ e. omega arith) refl
      (λ e. omega arith) refl

device_info_lem_example :
    device_info true true (λ _. true) (codes "ARTIK520") (generic_log ∷ generic_wifi ∷ [])
    ≡ some (some (device_text (codes "ARTIK520") (generic_log ∷ generic_wifi ∷ [])))
device_info_lem_example =
    device_info_lem (λ _. true) (codes "ARTIK520") generic_log (generic_wifi ∷ []) (λ _. refl)
      (omega arith) (omega arith)

abbrev node_32 : ℕ × Entry Info
node_32 = (32, put log_info (new_entry blank null 64 32))

abbrev logging_twice : Manager
logging_twice = record logging {
  nodes = (16, put log_info (new_entry log_info null 64 16)) ∷ node_32 ∷ [];
}

abbrev logging_once : Manager
logging_once = record logging { nodes = node_32 ∷ [] }

-- "log" is requested again, and given back once.
log-History : History linker generic_modules logging (got 501 ∷ given 501 ∷ []) logging_once
unfolding request request_row row_of strncmp_eq get_by_check compare_module_name entry_at modify
    load release delete_check compare_module_ops word open_count references
log-History =
    asks 64 32 0 501 (codes "log") generic_log logging logging_twice logging_once (given 501 ∷ [])
      refl log_again refl (λ e. omega (arith, e)) refl
      (gives 501 logging_twice logging_once logging_once [] (λ e. omega (arith, e)) refl
        (nothing logging_once))

History-references_example :
    IsValid linker generic_modules logging_once
    × ((t : ℕ)
        → references t (infos logging_once.nodes) + releases_of t (got 501 ∷ given 501 ∷ [])
          ≡ references t (infos logging.nodes) + requests_of t (got 501 ∷ given 501 ∷ []))
History-references_example =
    History-references linker generic_modules linker-IsLinker generic_modules-IsTable
      logging-IsValid log-History
