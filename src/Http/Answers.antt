-- ===== src/Http/Answers.antt =====
-- What a call of the HTTP module asks libcurl for, and what it hands back of the answer
-- (linux_http.c).
use mathlib.Core.List.{append_assoc, append-nil}
use testing.Base.{
  ℕ, suc, ◌≡◌, ◌≢◌, ◌⊎◌, ◌∙◌, refl, sym, ap, subst, inl, inr, Bool, true, false, not, Option, none,
  some, List, [], ◌∷◌, ◌++◌, if◌then◌else◌, All, ne→==, s_ok, e_http_error,
}
use testing.Http.{
  HttpSsl, HttpEvent, taken, curl, curl_global, lock, Setting, url_to, follow_location, Library,
  HttpOutcome, has_functions, Prepared, prepare, key_step, cert_step, copy_of, sec_handle, security,
}
use testing.Http.Response.{c_string, response_callback, receive}
use testing.Http.Operations.{
  request, connect, finish, collected, header_settings, verify_settings, context_settings,
  body_settings,
}
use testing.Http.Balance.{idle, lines_of, header_events, build_headers_lem}
use testing.Http.Meant.{asked, settings-asked}
use testing.Http.Calls.{
  HttpMethod, get_stream, get, post, put, delete, HttpCall, run_http, http_module-request,
  method_settings, sink_of, body_for,
}

-- A text without a 0.
abbrev pub Clean : List ℕ → Type 0
Clean s = All (λ (c : ℕ). c ≢ 0) s

c_string-Clean : (s : List ℕ) → Clean s → c_string s ≡ s
unfolding c_string
c_string-Clean [] h = refl
c_string-Clean (c ∷ s) h = rw (ne→== c 0 h.0) (ap (λ t. c ∷ t) (c_string-Clean s h.1))

-- The chunks of a response, one after the other.
abbrev pub concat : List (List ℕ) → List ℕ
concat [] = []
concat (chunk ∷ chunks) = chunk ++ concat chunks

abbrev pub joined : List (List ℕ) → Option (List ℕ)
joined [] = none
joined (chunk ∷ chunks) = some (concat (chunk ∷ chunks))

receive_more :
    (memory : ℕ → Bool) (i : ℕ) (chunks : List (List ℕ)) (text : List ℕ)
    → ((i : ℕ) → memory i ≡ true)
    → All Clean chunks
    → receive memory i chunks (some text) ≡ some (text ++ concat chunks)
unfolding receive response_callback
receive_more memory i [] text m h = rw (append-nil text) refl
receive_more memory i (chunk ∷ chunks) text m h = rw (m i) (
    rw (c_string-Clean chunk h.0) (
      receive_more memory (suc i) chunks (text ++ chunk) m h.1
      ∙ rw (append_assoc text chunk (concat chunks)) refl))

-- With memory, chunks without a 0 are put together in their order.
receive_lem :
    (memory : ℕ → Bool) (chunks : List (List ℕ))
    → ((i : ℕ) → memory i ≡ true)
    → All Clean chunks
    → receive memory 0 chunks none ≡ joined chunks
unfolding receive response_callback
receive_lem memory [] m h = refl
receive_lem memory (chunk ∷ chunks) m h =
    rw (m 0) (rw (c_string-Clean chunk h.0) (receive_more memory 1 chunks chunk m h.1))

-- The response that a method leaves.
abbrev pub answered : HttpMethod → List (List ℕ) → Option (List ℕ)
answered get_stream chunks = none
answered _ chunks = joined chunks

collected_lem :
    (lib : Library) (method : HttpMethod) (chunks : List (List ℕ))
    → ((i : ℕ) → lib.memory i ≡ true)
    → All Clean chunks
    → collected lib (sink_of method) chunks ≡ answered method chunks
collected_lem lib get_stream chunks m h = refl
collected_lem lib get chunks m h = receive_lem lib.memory chunks m h
collected_lem lib post chunks m h = receive_lem lib.memory chunks m h
collected_lem lib put chunks m h = receive_lem lib.memory chunks m h
collected_lem lib delete chunks m h = receive_lem lib.memory chunks m h

-- The configuration for libcurl: the caller's, or, where the Secure Element is asked for and answers,
-- with its certificate and its key.
abbrev pub Secured : Library → Option HttpSsl → Option HttpSsl → Type 0
Secured lib none used = used ≡ none
Secured lib (some ssl) used =
    ((ssl.use_se ≡ false) × (used ≡ some ssl))
    ⊎ ((ssl.use_se ≡ true)
        × (lib.request_handle ≡ true)
        × (lib.cert_copy ≡ true)
        × (lib.key_copy ≡ true)
        × ((c : List ℕ) × (k : List ℕ) × (lib.certificate ≡ some c)
            × (lib.key_from_cert c ≡ some k)
            × (used ≡ some record ssl { client_cert = some c; client_key = some k })))

prepare-Secured :
    (lib : Library) (ssl used : Option HttpSsl) (events : List HttpEvent)
    → has_functions lib.module_ ≡ true
    → Secured lib ssl used
    → (p : Prepared) × (prepare lib ssl events ≡ some p) × (p.ready ≡ true) × (p.ssl ≡ used)
unfolding prepare
prepare-Secured lib none used events h s = (idle none events, refl, refl, sym s)
prepare-Secured lib (some ssl) used events h (inl (plain, same)) =
    (idle (some ssl) events, rw plain refl, refl, sym same)
prepare-Secured lib (some ssl) used events h
      (inr (secure, handle, copy, copy', (c, k, hc, hk, same))) =
    let begun = taken sec_handle ∷ taken security ∷ events in
    let through : prepare lib (some ssl) events ≡ some (cert_step lib ssl begun lib.certificate) =
      rw secure (rw h (rw handle refl)) in
    (
      key_step lib ssl c begun (some k),
      through
          ∙ ap (λ (o : Option (List ℕ)). some (cert_step lib ssl begun o)) hc
          ∙ ap (λ (o : Option (List ℕ)). some (key_step lib ssl c begun o)) hk,
      refl,
      copied lib.cert_copy lib.key_copy copy copy' ∙ sym same,
    )
  where
    copied :
        (a b : Bool)
        → a ≡ true
        → b ≡ true
        → ◌≡◌ {A = Option HttpSsl}
            (some record ssl { client_cert = copy_of a c; client_key = copy_of b k })
            (some record ssl { client_cert = some c; client_key = some k })
    copied true true ha hb = refl
    copied false b ha hb = cc
    copied true false ha hb = cc

-- What a finished call hands back, for the options that it has set.
abbrev pub Answers : Library → Setting → List Setting → HttpOutcome → Type 0
Answers lib sink all o =
    let transfer = lib.perform all in
    (o.settings ≡ some all)
    × (o.result ≡ (if transfer.ok then s_ok else e_http_error))
    × (o.status ≡ some transfer.status)
    × (o.response ≡ collected lib sink transfer.chunks)

finish-Answers :
    (lib : Library) (sink : Setting) (lines : List (List ℕ)) (settings : List Setting)
    (body : Option (List ℕ)) (p : Prepared) (used : Option HttpSsl)
    → p.ready ≡ true
    → p.ssl ≡ used
    → Answers lib sink
        (settings ++ (context_settings used ++ body_settings body))
        (finish lib sink lines settings body p)
unfolding finish
finish-Answers lib sink lines settings body p used ready same =
    subst
      (λ (u : Option HttpSsl).
        Answers lib sink (settings ++ (context_settings u ++ body_settings body))
          (finish lib sink lines settings body p))
      same (rw ready (refl, refl, refl, refl))

connect-Answers :
    (lib : Library) (call : HttpCall) (url : List ℕ) (used : Option HttpSsl)
    (events : List HttpEvent)
    → ((i : ℕ) → lib.line_memory i ≡ true)
    → ((i : ℕ) → lib.append i ≡ true)
    → has_functions lib.module_ ≡ true
    → Secured lib call.ssl used
    → (o : HttpOutcome) × (connect lib
          (method_settings call.method)
          (sink_of call.method)
          (body_for call.method call.body)
          url
          call.headers
          call.ssl
          events
        ≡ some o)
      × Answers lib (sink_of call.method) (asked call url used) o
unfolding connect
connect-Answers lib call url used events m a h s =
    let lines = lines_of call.headers in
    let body = body_for call.method call.body in
    let settings =
      header_settings call.headers lines
      ++ ((url_to url ∷ method_settings call.method)
          ++ (follow_location ∷ sink_of call.method ∷ verify_settings call.ssl)) in
    let (p, prepared, ready, same) =
      prepare-Secured lib call.ssl used (header_events call.headers events) h s in
    let outcome = finish lib (sink_of call.method) lines settings body p in
    (
      outcome,
      rw (build_headers_lem lib call.headers events m a) (rw prepared refl),
      subst (λ (all : List Setting). Answers lib (sink_of call.method) all outcome)
          (settings-asked call url used)
          (finish-Answers lib (sink_of call.method) lines settings body p used ready same),
    )

taken_branch : (b : Bool) (x y : Option HttpOutcome) → b ≡ true → (if not b then x else y) ≡ y
taken_branch true x y h = refl
taken_branch false x y h = cc

request-connect :
    (lib : Library) (method : List Setting) (sink : Setting) (body : Option (List ℕ)) (url : List ℕ)
    (out : Bool) (headers : List (List ℕ × List ℕ)) (ssl : Option HttpSsl) (events : List HttpEvent)
    → out ≡ true
    → lib.easy_init ≡ true
    → request lib method sink body (some url) out headers ssl events
      ≡ connect lib method sink body url headers ssl
          (taken curl ∷ taken curl_global ∷ taken lock ∷ events)
unfolding request
request-connect lib method sink body url out headers ssl events there ready =
    taken_branch out _ _ there ∙ taken_branch lib.easy_init _ _ ready

-- A call of the HTTP module with a URL and a place for the answer, where libcurl's handle and
-- memory are there, where curl_slist_append succeeds, and where the Secure Element, if it is asked
-- for, gives its certificate and its key: libcurl gets exactly the options that are meant, in
-- their order. They are the headers as one list with a line for each, where there are any; the
-- URL, the method, redirections and the write function; the peer's verification, with the host's
-- name, where the configuration requires it, and no verification elsewhere; the callback for
-- OpenSSL's context where there is a configuration, with the Secure Element's certificate and key
-- in it; and the body of a POST or a PUT. The result is S_OK exactly as libcurl says, the status
-- is libcurl's, and the response is the chunks, which hold no 0, one after the other; a call for a
-- stream leaves no response.
pub run_http-Answers :
    (lib : Library) (call : HttpCall) (url : List ℕ) (used : Option HttpSsl)
    (events : List HttpEvent)
    → call.url ≡ some url
    → call.place ≡ true
    → lib.easy_init ≡ true
    → ((i : ℕ) → lib.line_memory i ≡ true)
    → ((i : ℕ) → lib.append i ≡ true)
    → has_functions lib.module_ ≡ true
    → Secured lib call.ssl used
    → ((i : ℕ) → lib.memory i ≡ true)
    → All Clean (lib.perform (asked call url used)).chunks
    → let transfer = lib.perform (asked call url used) in
      (o : HttpOutcome) × (run_http lib call events ≡ some o)
      × (o.settings ≡ some (asked call url used))
      × (o.result ≡ (if transfer.ok then s_ok else e_http_error))
      × (o.status ≡ some transfer.status)
      × (o.response ≡ answered call.method transfer.chunks)
run_http-Answers lib call url used events there place ready m a h s mem clean =
    let begun = taken curl ∷ taken curl_global ∷ taken lock ∷ events in
    let (o, done_, (settings, result, status, response)) =
      connect-Answers lib call url used begun m a h s in
    let body = body_for call.method call.body in
    let connected =
      request-connect lib (method_settings call.method) (sink_of call.method) body url call.place
        call.headers call.ssl events place ready in
    let asked_ =
      http_module-request lib call.method call events
      ∙ ap
          (λ (u : Option (List ℕ)).
            request lib (method_settings call.method) (sink_of call.method) body u call.place
              call.headers call.ssl events)
          there in
    (
      o,
      asked_ ∙ connected ∙ done_,
      settings,
      result,
      status,
      response ∙ collected_lem lib call.method (lib.perform (asked call url used)).chunks mem clean,
    )
