-- ===== src/Cloud/Laws.antt =====
-- What an operation of artik_cloud.c on the REST service does: what it sends and returns, what fits
-- its buffers, and the HTTP module that it gives back.
use testing.Base.{
  ℕ, ◌+◌, ◌-◌, ◌<◌, ◌^◌, ◌≡◌, ◌⊎◌, ◌∙◌, refl, sym, true, false, Option, none, some, List, [], ◌∷◌,
  if◌then◌else◌, ArtikError, e_bad_args, e_no_mem, ◌==◌,
}
use testing.Cloud.{
  HttpRequest, Event, requested, released, called, Outcome, Environment, Plan, callable, block,
  exchange, perform,
}
use testing.Cloud.Calls.{Call, run, meant, judge, verdict}
use testing.Cloud.Matches.{Short, Bounded, Asked, Matches}
use testing.Cloud.Planned.{planned_some}

block-Asked :
    (env : Environment) (o : Option ℕ)
    → Asked o
    → ((n : ℕ) → n < 2 ^ 31 → env.memory n ≡ true)
    → block env o ≡ true
block-Asked env none a m = refl
block-Asked env (some n) a m = m n a

sent :
    (env : Environment) (call : Call) (p : Plan) (r : HttpRequest)
    (events : List (Event HttpRequest))
    → Matches (judge call) p r
    → Short r
    → callable (env.request_module events) ≡ true
    → ((n : ℕ) → n < 2 ^ 31 → env.memory n ≡ true)
    → let http = env.request_module events in
      let begun = requested http ∷ events in
      perform env (some p) events
      ≡ some record {
        result = verdict call (env.answer begun r);
        events = released http ∷ called r ∷ begun;
      }
unfolding perform exchange
sent env call p r events m short c mem =
    let (same, asked) = m.2 short in
    rw (block-Asked env p.body_len asked mem) (rw c (rw (sym same) (rw m.1 refl)))

-- A call of one of the fifteen operations on the REST service that is not missing an argument and
-- is short enough for the buffers, with an HTTP module and memory at hand, sends exactly the
-- request that it is meant to send, once, between a request and a release of the module. It
-- returns the error of the HTTP module, or S_OK for the status 200, E_BUSY for the 409 of a start
-- of a registration, and E_HTTP_ERROR for any other status.
pub run-meant :
    (env : Environment) (call : Call) (r : HttpRequest) (events : List (Event HttpRequest))
    → meant call ≡ some r
    → Short r
    → callable (env.request_module events) ≡ true
    → ((n : ℕ) → n < 2 ^ 31 → env.memory n ≡ true)
    → let http = env.request_module events in
      let begun = requested http ∷ events in
      run env call events
      ≡ some record {
        result = verdict call (env.answer begun r);
        events = released http ∷ called r ∷ begun;
      }
run-meant env call r events e short c mem =
    let (p, same, m) = planned_some env call r e in
    same events ∙ sent env call p r events m short c mem

-- How often an HTTP module is held: its requests less its releases, newest first.
abbrev pub held : ℕ → List (Event HttpRequest) → ℕ
held http [] = 0
held http (requested m ∷ events) = (if m == http then 1 else 0) + held http events
held http (released m ∷ events) = held http events - (if m == http then 1 else 0)
held http (called r ∷ events) = held http events

-- A call that came through: one request was sent, within the buffers, and the module given back.
abbrev pub Completed : Environment → Call → List (Event HttpRequest) → Outcome → Type 0
Completed env call events o =
    let http = env.request_module events in
    let begun = requested http ∷ events in
    ((r : HttpRequest) × Bounded r
      × (o.result ≡ verdict call (env.answer begun r))
      × (o.events ≡ released http ∷ called r ∷ begun))
    × (held http o.events ≡ held http events)

-- A call that was refused: nothing was sent, and the module is held once more.
abbrev pub Refused : ArtikError → ℕ → List (Event HttpRequest) → Outcome → Type 0
Refused e http events o =
    (o.result ≡ e)
    × (o.events ≡ requested http ∷ events)
    × (held http o.events ≡ held http events + 1)

-- How a call ends, by the request that is meant.
abbrev pub Ends :
    Environment → Call → List (Event HttpRequest) → Option HttpRequest → Option Outcome → Type 0
Ends env call events none none = ⊥
Ends env call events none (some o) = Refused e_bad_args (env.request_module events) events o
Ends env call events (some r) none = callable (env.request_module events) ≡ false
Ends env call events (some r) (some o) =
    Completed env call events o ⊎ Refused e_no_mem (env.request_module events) events o
