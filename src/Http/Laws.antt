-- ===== src/Http/Laws.antt =====
-- What a request of linux_http.c leads to, from the call to the cleanup.
use testing.Base.{
  ℕ, ◌+◌, ◌-◌, ◌≡◌, ◌∙◌, refl, sym, ap, subst, inl, inr, Bool, true, false, not, Option, none, some,
  List, [], ◌∷◌, if◌then◌else◌, Bool-cases, arith,
}
use testing.Http.{
  HttpSsl, Resource, lock, curl_global, curl, header_list, cert, key, sec_handle, security,
  HttpEvent, taken, given_back, Setting, Library, HttpOutcome, has_functions, Prepared,
}
use testing.Http.Operations.{request, connect, finish, cleanup, give_if, is_list}
use testing.Http.Balance.{
  held, flag_weight, Accounted, prepare-Accounted, lines_of, header_events, build_headers_lem,
}
use testing.Http.Calls.{HttpCall, run_http, http_module-request, method_settings, sink_of, body_for}

held-give_if :
    (r s : Resource) (b : Bool) (events : List HttpEvent)
    → held r (give_if b s events) ≡ held r events - flag_weight r b s
held-give_if r s true events = refl
held-give_if r s false events = omega arith

held-header_events :
    (r : Resource) (fields : List (List ℕ × List ℕ)) (events : List HttpEvent)
    → held r (header_events fields events)
      ≡ held r events + flag_weight r (is_list (lines_of fields)) header_list
held-header_events r [] events = omega arith
held-header_events r ((name, value) ∷ fields) events = omega arith

-- The cleanup gives back what the preparation took, the list of headers, and libcurl.
cleanup-held :
    (r : Resource) (fields : List (List ℕ × List ℕ)) (p : Prepared) (events : List HttpEvent)
    → Accounted r (header_events fields (taken curl ∷ taken curl_global ∷ taken lock ∷ events)) p
    → held r (cleanup (lines_of fields) p) ≡ held r events
cleanup-held r fields p events h =
    let e1 = given_back lock ∷ given_back curl_global ∷ given_back curl ∷ p.events in
    let listed = is_list (lines_of fields) in
    let e2 = give_if listed header_list e1 in
    let e3 = give_if p.has_cert cert e2 in
    let e4 = give_if p.has_key key e3 in
    let e5 = give_if p.has_handle sec_handle e4 in
    let q1 = held-give_if r header_list listed e1 in
    let q2 = held-give_if r cert p.has_cert e2 in
    let q3 = held-give_if r key p.has_key e3 in
    let q4 = held-give_if r sec_handle p.has_handle e4 in
    let q5 = held-give_if r security p.has_module e5 in
    let begun =
      held-header_events r fields (taken curl ∷ taken curl_global ∷ taken lock ∷ events) in
    omega arith

finish-events :
    (lib : Library) (sink : Setting) (lines : List (List ℕ)) (settings : List Setting)
    (body : Option (List ℕ)) (p : Prepared)
    → (finish lib sink lines settings body p).events ≡ cleanup lines p
unfolding finish
finish-events lib sink lines settings body p = elim (Bool-cases p.ready) [
  | inl ready ↦ rw ready refl
  | inr failed_ ↦ rw failed_ refl
]

-- The result of a request, with nothing more or less held than before.
abbrev pub Balanced : List HttpEvent → Option HttpOutcome → Type 0
Balanced events none = ⊥
Balanced events (some o) = (r : Resource) → held r o.events ≡ held r events

Balanced-if :
    (events : List HttpEvent) (b : Bool) (x y : Option HttpOutcome)
    → Balanced events x
    → Balanced events y
    → Balanced events (if not b then x else y)
Balanced-if events true x y hx hy = hy
Balanced-if events false x y hx hy = hx

connect-Balanced :
    (lib : Library) (method : List Setting) (sink : Setting) (body : Option (List ℕ)) (url : List ℕ)
    (headers : List (List ℕ × List ℕ)) (ssl : Option HttpSsl) (events : List HttpEvent)
    → ((i : ℕ) → lib.line_memory i ≡ true)
    → ((i : ℕ) → lib.append i ≡ true)
    → has_functions lib.module_ ≡ true
    → Balanced events (
        connect lib method sink body url headers ssl
          (taken curl ∷ taken curl_global ∷ taken lock ∷ events))
unfolding connect
connect-Balanced lib method sink body url headers ssl events m a h =
    let begun = taken curl ∷ taken curl_global ∷ taken lock ∷ events in
    let (p, prepared, accounted) = prepare-Accounted lib ssl (header_events headers begun) h in
    rw (build_headers_lem lib headers begun m a) (
      rw prepared (λ r.
        ap (λ (e : List HttpEvent). held r e) (finish-events lib sink (lines_of headers) _ body p)
        ∙ cleanup-held r headers p events (accounted r)))

request-Balanced :
    (lib : Library) (method : List Setting) (sink : Setting) (body url : Option (List ℕ))
    (out : Bool) (headers : List (List ℕ × List ℕ)) (ssl : Option HttpSsl) (events : List HttpEvent)
    → ((i : ℕ) → lib.line_memory i ≡ true)
    → ((i : ℕ) → lib.append i ≡ true)
    → has_functions lib.module_ ≡ true
    → Balanced events (request lib method sink body url out headers ssl events)
unfolding request
request-Balanced lib method sink body none out headers ssl events m a h = λ r. refl
request-Balanced lib method sink body (some url) out headers ssl events m a h =
    Balanced-if events out _ _ (λ r. refl)
      (Balanced-if events lib.easy_init _ _ (λ r. omega arith)
        (connect-Balanced lib method sink body url headers ssl events m a h))

-- With memory for the headers' lines and their list, and a security module with functions, every
-- call of the HTTP module ends, whatever its arguments and whatever libcurl, the Secure Element
-- and `strdup` return, and each of the lock, libcurl's state and handle, the list of headers, the
-- certificate, the key, the security module and its handle is held as often as before.
pub run_http-Balanced :
    (lib : Library) (call : HttpCall) (events : List HttpEvent)
    → ((i : ℕ) → lib.line_memory i ≡ true)
    → ((i : ℕ) → lib.append i ≡ true)
    → has_functions lib.module_ ≡ true
    → Balanced events (run_http lib call events)
run_http-Balanced lib call events m a h =
    subst (λ (o : Option HttpOutcome). Balanced events o)
      (sym (http_module-request lib call.method call events))
      (request-Balanced lib (method_settings call.method) (sink_of call.method)
        (body_for call.method call.body) call.url call.place call.headers call.ssl events m a h)
