-- ===== src/Cloud/Served.antt =====
-- The operations of artik_cloud.c over the HTTP module of linux_http.c.
use testing.Base.{
  ℕ, ◌≡◌, ◌∙◌, ◌^◌, ◌<◌, refl, ap, Bool, true, false, Option, none, some, List, [], ◌∷◌,
  if◌then◌else◌, All, s_ok, e_http_error,
}
use testing.Cloud.{
  Method, get, post, put, del, SslConfig, HttpRequest, Reply, Event, requested, released, called,
  Environment, callable,
}
use testing.Cloud.Calls.{Call, run, meant, judge, verdict}
use testing.Cloud.Matches.{Short}
use testing.Cloud.Laws.{run-meant}
use testing.Http.{HttpSsl, Transfer, Library, HttpOutcome, has_functions}
use testing.Http.Calls as HttpCalls
use testing.Http.Calls.{HttpMethod, HttpCall, run_http}
use testing.Http.Meant.{asked}
use testing.Http.Answers.{Clean, Secured, run_http-Answers}

-- The function of the HTTP module.
abbrev pub http_method : Method → HttpMethod
http_method get = HttpCalls.get
http_method post = HttpCalls.post
http_method put = HttpCalls.put
http_method del = HttpCalls.delete

-- The call that a request is, with what the pointers to configurations point to. The response's
-- pointer is there.
abbrev pub http_call : (SslConfig → Option HttpSsl) → HttpRequest → HttpCall
http_call ssl r = record {
  method = http_method r.method;
  url = some r.url;
  headers = r.headers;
  body = r.body;
  place = true;
  ssl = ssl r.ssl_config;
}

abbrev pub written : Option ℕ → ℕ
written none = 0
written (some status) = status

-- The replies are those of linux_http.c, where it ends; each request meets a libcurl of its own.
abbrev pub Served :
    Environment → (List (Event HttpRequest) → Library) → (SslConfig → Option HttpSsl) → Type 0
Served env lib ssl =
    (events : List (Event HttpRequest)) (r : HttpRequest) (o : HttpOutcome)
    → run_http (lib events) (http_call ssl r) [] ≡ some o
    → env.answer events r ≡ record { ret = o.result; status = written o.status }

-- libcurl's handle, memory and the security module are there.
abbrev pub Working : Library → Type 0
Working lib =
    (lib.easy_init ≡ true)
    × ((i : ℕ) → lib.line_memory i ≡ true)
    × ((i : ℕ) → lib.append i ≡ true)
    × (has_functions lib.module_ ≡ true)
    × ((i : ℕ) → lib.memory i ≡ true)

-- The events at the time of the request, and what libcurl does with the options that are meant.
abbrev pub begun_of : Environment → List (Event HttpRequest) → List (Event HttpRequest)
begun_of env events = requested (env.request_module events) ∷ events

abbrev pub transfer_of :
    Environment
    → (List (Event HttpRequest) → Library)
    → (SslConfig → Option HttpSsl)
    → HttpRequest
    → Option HttpSsl
    → List (Event HttpRequest)
    → Transfer
transfer_of env lib ssl r used events =
    (lib (begun_of env events)).perform (asked (http_call ssl r) r.url used)

verdict_lem :
    (call : Call) (ok : Bool) (status : ℕ)
    → verdict call record { ret = if ok then s_ok else e_http_error; status = status }
      ≡ (if ok then judge call status else e_http_error)
verdict_lem call true status = refl
verdict_lem call false status = refl

-- Let the replies that the operations on the REST service get be those of the HTTP module over
-- libcurl, where it ends. A call that is not missing an argument and is short enough for the
-- buffers, with the HTTP module and memory at hand, where libcurl's handle and the security module
-- are there and, if it is asked for, the Secure Element gives its certificate and key, and the
-- chunks of the answer hold no 0: it sends the request that is meant, once, and libcurl's transfer
-- of the options that are meant for it decides the result. That is E_HTTP_ERROR if the transfer
-- fails, and what the status says if not: S_OK for 200, E_BUSY for the 409 of a start of a
-- registration, E_HTTP_ERROR for any other. The HTTP module is given back.
pub run-Served :
    (env : Environment) (lib : List (Event HttpRequest) → Library)
    (ssl : SslConfig → Option HttpSsl) (call : Call) (r : HttpRequest) (used : Option HttpSsl)
    (events : List (Event HttpRequest))
    → Served env lib ssl
    → meant call ≡ some r
    → Short r
    → callable (env.request_module events) ≡ true
    → ((n : ℕ) → n < 2 ^ 31 → env.memory n ≡ true)
    → Working (lib (begun_of env events))
    → Secured (lib (begun_of env events)) (ssl r.ssl_config) used
    → All Clean (transfer_of env lib ssl r used events).chunks
    → let transfer = transfer_of env lib ssl r used events in
      run env call events
      ≡ some record {
        result = if transfer.ok then judge call transfer.status else e_http_error;
        events = released (env.request_module events) ∷ called r ∷ begun_of env events;
      }
run-Served env lib ssl call r used events served e short c mem working secured clean =
    let begun = begun_of env events in
    let transfer = transfer_of env lib ssl r used events in
    let (ready, lines, appends, security, memory) = working in
    let (o, ended, settings, result, status, response) =
      run_http-Answers (lib begun) (http_call ssl r) r.url used [] refl refl ready lines appends
        security secured memory clean in
    let reply = served begun r o ended in
    let judged : verdict call (env.answer begun r)
        ≡ (if transfer.ok then judge call transfer.status else e_http_error) =
      ap (λ (a : Reply). verdict call a) reply
      ∙ rw result (rw status (verdict_lem call transfer.ok transfer.status)) in
    run-meant env call r events e short c mem ∙ rw judged refl
