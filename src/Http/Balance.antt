-- ===== src/Http/Balance.antt =====
-- linux_http.c: the resources that a request takes, and gives back.
use mathlib.Core.List.{append-nil, append_assoc}
use testing.Base.{
  ℕ, suc, ◌+◌, ◌-◌, ◌≡◌, ◌∙◌, refl, inl, inr, Bool, true, false, Option, none, some, List, [], ◌∷◌,
  ◌++◌, ◌==◌, if◌then◌else◌, Bool-cases, arith, codes,
}
use testing.Http.{
  HttpSsl, Resource, lock, curl_global, curl, header_list, cert, key, sec_handle, security,
  HttpEvent, taken, given_back, Library, has_functions, build_headers, Prepared, prepare, key_step,
  cert_step,
}

abbrev rank : Resource → ℕ
rank lock = 0
rank curl_global = 1
rank curl = 2
rank header_list = 3
rank cert = 4
rank key = 5
rank sec_handle = 6
rank security = 7

-- 1 for the same resource, 0 for another one.
unfoldable pub weight : Resource → Resource → ℕ
weight r s = if rank r == rank s then 1 else 0

-- How often a resource is held.
abbrev pub held : Resource → List HttpEvent → ℕ
held r [] = 0
held r (taken s ∷ events) = weight r s + held r events
held r (given_back s ∷ events) = held r events - weight r s

-- What the flags say that is held.
abbrev pub flag_weight : Resource → Bool → Resource → ℕ
flag_weight r true s = weight r s
flag_weight r false s = 0

-- The flags of a preparation tell what it has taken.
abbrev pub Accounted : Resource → List HttpEvent → Prepared → Type 0
Accounted r events p =
    held r p.events
    ≡ held r events
      + (flag_weight r p.has_module security
          + (flag_weight r p.has_handle sec_handle
              + (flag_weight r p.has_key key + flag_weight r p.has_cert cert)))

key_step-Accounted :
    (lib : Library) (ssl : HttpSsl) (c : List ℕ) (r : Resource) (events : List HttpEvent)
    (o : Option (List ℕ))
    → Accounted r events (key_step lib ssl c (taken sec_handle ∷ taken security ∷ events) o)
key_step-Accounted lib ssl c r events none = omega arith
key_step-Accounted lib ssl c r events (some k) = omega arith

cert_step-Accounted :
    (lib : Library) (ssl : HttpSsl) (r : Resource) (events : List HttpEvent) (o : Option (List ℕ))
    → Accounted r events (cert_step lib ssl (taken sec_handle ∷ taken security ∷ events) o)
cert_step-Accounted lib ssl r events none = omega arith
cert_step-Accounted lib ssl r events (some c) =
    key_step-Accounted lib ssl c r events (lib.key_from_cert c)

abbrev pub idle : Option HttpSsl → List HttpEvent → Prepared
idle ssl events = record {
  ready = true;
  ssl = ssl;
  has_cert = false;
  has_key = false;
  has_handle = false;
  has_module = false;
  events = events;
}

abbrev without_handle : HttpSsl → List HttpEvent → Prepared
without_handle ssl events = record {
  ready = false;
  ssl = some ssl;
  has_cert = false;
  has_key = false;
  has_handle = false;
  has_module = true;
  events = events;
}

pub prepare-Accounted :
    (lib : Library) (ssl : Option HttpSsl) (events : List HttpEvent)
    → has_functions lib.module_ ≡ true
    → (p : Prepared) × (prepare lib ssl events ≡ some p) × ((r : Resource) → Accounted r events p)
unfolding prepare
prepare-Accounted lib none events h = (idle none events, refl, λ r. omega arith)
prepare-Accounted lib (some ssl) events h = elim (Bool-cases ssl.use_se) [
  | inr plain ↦ (idle (some ssl) events, rw plain refl, λ r. omega arith)
  | inl secure ↦ elim (Bool-cases lib.request_handle) [
    | inr refused ↦ (
      without_handle ssl (taken security ∷ events),
      rw secure (rw h (rw refused refl)),
      λ r. omega arith,
    )
    | inl agreed ↦ (
      cert_step lib ssl (taken sec_handle ∷ taken security ∷ events) lib.certificate,
      rw secure (rw h (rw agreed refl)),
      λ r. cert_step-Accounted lib ssl r events lib.certificate,
    )
  ]
]

-- The lines of the headers.
abbrev pub lines_of : List (List ℕ × List ℕ) → List (List ℕ)
lines_of [] = []
lines_of ((name, value) ∷ fields) = (name ++ (codes ": " ++ value)) ∷ lines_of fields

-- The events of the loop over the headers.
abbrev pub header_events : List (List ℕ × List ℕ) → List HttpEvent → List HttpEvent
header_events [] events = events
header_events (field ∷ fields) events = taken header_list ∷ events

build_headers_more :
    (lib : Library) (i : ℕ) (fields : List (List ℕ × List ℕ)) (line : List ℕ)
    (lines : List (List ℕ)) (events : List HttpEvent)
    → ((i : ℕ) → lib.line_memory i ≡ true)
    → ((i : ℕ) → lib.append i ≡ true)
    → build_headers lib i fields (line ∷ lines) events
      ≡ some ((line ∷ lines) ++ lines_of fields, events)
unfolding build_headers
build_headers_more lib i [] line lines events m a = rw (append-nil lines) refl
build_headers_more lib i ((name, value) ∷ fields) line lines events m a =
    let next = (name ++ (codes ": " ++ value)) ∷ [] in
    rw (m i) (
      rw (a i) (
        build_headers_more lib (suc i) fields line (lines ++ next) events m a
        ∙ rw (append_assoc lines next (lines_of fields)) refl))

-- With memory, and appends that succeed, all headers are on the list.
pub build_headers_lem :
    (lib : Library) (fields : List (List ℕ × List ℕ)) (events : List HttpEvent)
    → ((i : ℕ) → lib.line_memory i ≡ true)
    → ((i : ℕ) → lib.append i ≡ true)
    → build_headers lib 0 fields [] events ≡ some (lines_of fields, header_events fields events)
unfolding build_headers
build_headers_lem lib [] events m a = refl
build_headers_lem lib ((name, value) ∷ fields) events m a = rw (m 0) (
    rw (a 0) (
      build_headers_more lib 1 fields (name ++ (codes ": " ++ value)) []
        (taken header_list ∷ events) m a))
