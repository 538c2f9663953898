-- ===== src/Cloud/Examples.antt =====
-- A client of the cloud at concrete devices and streams.
use testing.Base.{
  ap, Option, none, ℕ, ◌≡◌, refl, codes, true, false, some, List, [], ◌∷◌, arith, s_ok, e_bad_args,
  e_busy,
}
use testing.Cloud.{
  SslConfig, Reply, HttpRequest, requested, released, called, Outcome, Environment, perform,
  exchange, callable, body_size, get,
}
use testing.Cloud.Calls.{Call, device, registration, run, api, authorized}
use testing.Cloud.Registration.{sdr_start_registration}
use testing.Http.{HttpSsl, HttpOutcome, Library, has_functions}
use testing.Http.Calls.{run_http}
use testing.Cloud.Served.{Served, http_call, written, run-Served}
use testing.Cloud.Laws.{run-meant, Ends}
use testing.Cloud.Stream.{
  Websocket, Streams, Blocks, StreamSsl, request_stream, open_socket, on_connection, close_socket,
  with_events, delete_handle, filled, linked, registering_text, stream_uri,
}
use testing.ArtikList.Abstract.{find, remove}
use testing.Systemio.Nodes.{by_handle}
use testing.Cloud.Stream.Lists.{Streamed}
use testing.Cloud.Stream.Opening.{open_stream}
use testing.Cloud.Stream.Operations.{close, send}
use testing.Cloud.Stream.Calls.{StreamCall, opening, closing, step, Done, Allowed}
use testing.Cloud.Stream.Steps.{Effect}
use testing.Cloud.Stream.Ends.{step_lem}
use testing.Cloud.Stream.Laws.{done}
use testing.Cloud.Stream.Sending.{Sends, Registers, send-open, connected-open, send-close}

-- A module at 4096 that answers with a status, and memory for everything.
abbrev service : ℕ → Environment
service status = record {
  request_module = λ _. 4096;
  answer = λ _ _. record { ret = s_ok; status = status };
  memory = λ _. true;
}

abbrev token : List ℕ
token = codes "abc"

abbrev lamp : Call
lamp = device (some token) (some (codes "lamp")) true 0

abbrev lamp_request : HttpRequest
lamp_request = authorized get (api (codes "devices/lamp?properties=true")) token none 0

run-meant_example :
    run (service 200) lamp []
    ≡ some
        record { result = s_ok; events = released 4096 ∷ called lamp_request ∷ requested 4096 ∷ [] }
unfolding callable
run-meant_example =
    run-meant (service 200) lamp lamp_request [] refl
      (omega arith, (omega arith, (omega arith, tt)), tt) refl (λ n h. refl)

-- A registration that is refused with 409.
busy :
    (o : Outcome) × (run (service 409) (registration (some token) (some token)) [] ≡ some o)
    × (o.result ≡ e_busy)
unfolding sdr_start_registration perform exchange callable body_size
busy = (_, refl, refl)

-- A websocket module at 4096 whose calls succeed, with a first handle at 77.
abbrev socket : Websocket
socket = record { request_module = λ _. 4096; returns = λ _. s_ok; handle_of = λ _. 77 }

abbrev quiet : Streams
quiet = record { requested_node = []; events = [] }

abbrev blocks : Blocks
blocks = record { uri = true; node = 500; token = true; device = true }

abbrev ssl : StreamSsl
ssl = record { use_se = false; others = 0 }

abbrev id : List ℕ
id = codes "lamp"

abbrev opening_lamp : StreamCall
opening_lamp = opening 0 blocks (some token) (some id) (some ssl)

abbrev opened : Done
opened = record {
  result = s_ok;
  handle = 77;
  state = record {
    requested_node = linked 500 77 (filled 77 (registering_text id token) blocks token id) [];
    events =
        released 4096
        ∷ called (on_connection 77 500)
        ∷ called (open_socket 77)
        ∷ called (request_stream (stream_uri ssl) ssl)
        ∷ requested 4096
        ∷ [];
  };
}

opening_lamp_lem : step socket opening_lamp quiet ≡ some opened
unfolding open_stream callable
opening_lamp_lem = refl

allowed : Allowed socket opening_lamp quiet
unfolding callable
allowed = (refl, (tt, omega arith, tt))

step_lem_example :
    (o : Done) × (step socket opening_lamp quiet ≡ some o) × Effect opening_lamp quiet o
step_lem_example = step_lem socket opening_lamp quiet tt allowed (refl, tt, tt, tt)

there : callable 4096 ≡ true
unfolding callable
there = refl

send-open_example : Sends socket 77 id (codes "1") opened.state
send-open_example =
    send-open socket 0 blocks token id (codes "1") (some ssl) quiet opened.state opened tt allowed
      opening_lamp_lem refl refl done there (omega arith)

connected-open_example : Registers socket 77 id token opened.state
connected-open_example =
    connected-open socket 0 blocks token id (some ssl) quiet opened.state opened tt allowed
      opening_lamp_lem refl refl done there (omega arith)

abbrev ended : Done
ended = record {
  result = s_ok;
  handle = 77;
  state = record {
    requested_node = [];
    events = released 4096 ∷ called (close_socket 77) ∷ requested 4096 ∷ opened.state.events;
  };
}

closing_lem : step socket (closing 77) opened.state ≡ some ended
unfolding close callable by_handle find remove delete_handle
closing_lem = refl

opened-Streamed : Streamed opened.state.requested_node
opened-Streamed = (omega arith, omega arith, tt, tt, tt)

send-close_example :
    send socket 77 (some (codes "1")) ended.state
    ≡ some (e_bad_args, with_events ended.state (requested 4096 ∷ ended.state.events))
send-close_example =
    send-close socket 77 (some (codes "1")) opened.state ended.state ended opened-Streamed
      (there, tt) closing_lem done there

-- A libcurl that answers each request with 200 and two bytes.
abbrev libcurl : Library
libcurl = record {
  easy_init = true;
  line_memory = λ _. true;
  append = λ _. true;
  module_ = 4096;
  request_handle = true;
  certificate = some (codes "c");
  key_from_cert = λ c. some (codes "k");
  cert_copy = true;
  key_copy = true;
  perform = λ s. record { chunks = codes "{}" ∷ []; ok = true; status = 200 };
  memory = λ _. true;
}

abbrev reply_of : Option HttpOutcome → Reply
reply_of none = record { ret = e_bad_args; status = 0 }
reply_of (some o) = record { ret = o.result; status = written o.status }

abbrev no_ssl : SslConfig → Option HttpSsl
no_ssl _ = none

abbrev over_libcurl : Environment
over_libcurl = record {
  request_module = λ _. 4096;
  answer = λ _ r. reply_of (run_http libcurl (http_call no_ssl r) []);
  memory = λ _. true;
}

over_libcurl-Served : Served over_libcurl (λ _. libcurl) no_ssl
over_libcurl-Served events r o e = ap reply_of e

run-Served_example :
    run over_libcurl lamp []
    ≡ some
        record { result = s_ok; events = released 4096 ∷ called lamp_request ∷ requested 4096 ∷ [] }
unfolding callable has_functions
run-Served_example =
    run-Served over_libcurl (λ _. libcurl) no_ssl lamp lamp_request none [] over_libcurl-Served refl
      (omega arith, (omega arith, (omega arith, tt)), tt) refl (λ n h. refl)
      (refl, (λ i. refl), (λ i. refl), refl, (λ i. refl)) refl
      ((omega arith, (omega arith, tt)), tt)
