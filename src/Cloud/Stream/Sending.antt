-- ===== src/Cloud/Stream/Sending.antt =====
-- What websocket_send_message and websocket_connection_callback (artik_cloud.c) write, after a stream
-- was opened and until it is closed.
use testing.Base.{
  ℕ, zero, suc, if◌then◌else◌, ◌≡◌, ◌<◌, ◌∙◌, refl, sym, ap, subst, inl, inr, true, Option, none,
  some, List, ◌∷◌, length, ◌==◌, Bool-cases, eq→==, ne→==, arith, s_ok, e_bad_args, is_ok,
}
use testing.ArtikList.{null}
use testing.Systemio.Nodes.{by_handle}
use testing.Cloud.{callable, Event, requested, released, called}
use testing.Cloud.Stream.{
  ConnectionState, connected, notified, SocketCall, StreamSsl, write_stream, RegData, Streams,
  Websocket, Blocks, with_events, registering_text,
}
use testing.Cloud.Stream.Operations.{send, connection_callback, notify}
use testing.Cloud.Stream.Lists.{Streamed, stream_at}
use testing.Cloud.Stream.Search.{stream_at-Found, by_handle-none, by_handle-some}
use testing.Cloud.Stream.Calls.{
  StreamCall, opening, sending, calling_back, receiving, closing, changed, Done, step, effect,
  Allowed,
}
use testing.Cloud.Stream.Effects.{callable-null}
use testing.Cloud.Stream.Laws.{
  message_text, registration_text, sent_text_lem, registering_text_lem, Spares, Run, done, next,
  result-Effect, HasTexts, Run-HasTexts,
}

-- A stream's data, with its texts.
HasTexts-some :
    (handle : ℕ) (device text : List ℕ) (q : Option RegData)
    → HasTexts handle device text q
    → (d : RegData) × (q ≡ some d) × HasTexts handle device text (some d)
HasTexts-some handle device text none h = absurd h
HasTexts-some handle device text (some d) h = (d, refl, h)

-- What a message to a stream leads to.
abbrev pub Sends : Websocket → ℕ → List ℕ → List ℕ → Streams → Type 0
Sends env handle device message s =
    let websocket = env.request_module s.events in
    let written =
      called (write_stream handle (message_text device message)) ∷ requested websocket ∷ s.events in
    send env handle (some message) s
    ≡ some (env.returns written, with_events s (released websocket ∷ written))

send-HasTexts :
    (env : Websocket) (handle : ℕ) (device text message : List ℕ) (s : Streams)
    → Streamed s.requested_node
    → HasTexts handle device text (stream_at handle s.requested_node)
    → callable (env.request_module s.events) ≡ true
    → length (message_text device message) < 1024
    → Sends env handle device message s
unfolding send
send-HasTexts env handle device text message s v has c short =
    let xs = s.requested_node in
    let (d, q, texts) = HasTexts-some handle device text (stream_at handle xs) has in
    let (a, e, found, there, at_, same) = stream_at-Found handle xs d v q in
    let id : e.payload.device_id ≡ some device = ap (λ (x : RegData). x.device_id) same ∙ texts.0 in
    rw (callable-null (env.request_module s.events) c) (
      rw (by_handle-some handle xs d v q) (
        rw found (
          rw (ne→== a null there)
            (rw at_ (rw c (rw id (rw (sent_text_lem device message short) refl)))))))

send-missing :
    (env : Websocket) (handle : ℕ) (message : Option (List ℕ)) (s : Streams)
    → stream_at handle s.requested_node ≡ none
    → callable (env.request_module s.events) ≡ true
    → send env handle message s
      ≡ some (e_bad_args, with_events s (requested (env.request_module s.events) ∷ s.events))
unfolding send
send-missing env handle message s q c =
    rw (callable-null (env.request_module s.events) c)
      (rw (by_handle-none handle s.requested_node q) refl)

-- The texts of a stream that was opened.
open-HasTexts :
    (env : Websocket) (old : ℕ) (blocks : Blocks) (token device : List ℕ) (ssl : Option StreamSsl)
    (s : Streams) (o : Done)
    → Streamed s.requested_node
    → Allowed env (opening old blocks (some token) (some device) ssl) s
    → step env (opening old blocks (some token) (some device) ssl) s ≡ some o
    → o.result ≡ s_ok
    → blocks.device ≡ true
    → Streamed o.state.requested_node
      × HasTexts o.handle device
          (registering_text device token)
          (stream_at o.handle o.state.requested_node)
open-HasTexts env old blocks token device ssl s o v allowed e good given =
    let call = opening old blocks (some token) (some device) ssl in
    let (v', same) = result-Effect env call s o v allowed e in
    let texts : HasTexts o.handle device (registering_text device token)
        (effect call o.result o.handle (λ (h : ℕ). stream_at h s.requested_node) o.handle) =
      rw good (rw (eq→== o.handle o.handle refl) (rw given refl, refl, refl)) in
    (
      v',
      subst (λ (q : Option RegData). HasTexts o.handle device (registering_text device token) q)
          (sym (same o.handle)) texts,
    )

-- After a stream was opened with S_OK and memory for the device's identifier, in a state whose
-- nodes are distinct, with a new block and a new handle, and any calls that end, and neither close
-- the stream nor are given its handle anew, the websocket module being at hand throughout: a
-- message to it writes the JSON text with the device's identifier and the message to the stream's
-- socket, once, if the text has less than 1024 bytes, and returns what the socket's write returns.
pub send-open :
    (env : Websocket) (old : ℕ) (blocks : Blocks) (token device message : List ℕ)
    (ssl : Option StreamSsl) (s t : Streams) (o : Done)
    → Streamed s.requested_node
    → Allowed env (opening old blocks (some token) (some device) ssl) s
    → step env (opening old blocks (some token) (some device) ssl) s ≡ some o
    → o.result ≡ s_ok
    → blocks.device ≡ true
    → Run env o.handle o.state t
    → callable (env.request_module t.events) ≡ true
    → length (message_text device message) < 1024
    → Sends env o.handle device message t
send-open env old blocks token device message ssl s t o v allowed e good given run c short =
    let text = registering_text device token in
    let (v', has) = open-HasTexts env old blocks token device ssl s o v allowed e good given in
    let (w, has') = Run-HasTexts env o.handle device text o.state t run v' has in
    send-HasTexts env o.handle device text message t w has' c short

-- What the caller hears of a state: nothing without a function, else one call of it.
abbrev pub announced : ℕ → ℕ → ConnectionState → List (Event SocketCall) → List (Event SocketCall)
announced zero user_data state events = events
announced (suc n) user_data state events = called (notified (suc n) user_data state) ∷ events

notify-announced :
    (d : RegData) (state : ConnectionState) (events : List (Event SocketCall))
    → notify d state events ≡ announced d.callback d.callback_data state events
notify-announced d state events = by_function d.callback
  where
    by_function :
        (callback : ℕ)
        → (if callback == null
            then events
            else called (notified callback d.callback_data state) ∷ events)
          ≡ announced callback d.callback_data state events
    by_function zero = refl
    by_function (suc n) = rw (ne→== (suc n) null (omega arith)) refl

-- The registration is written, and then the caller's function is called with the state.
abbrev pub Registers : Websocket → ℕ → List ℕ → List ℕ → Streams → Type 0
Registers env handle device token s =
    let websocket = env.request_module s.events in
    let written =
      called (write_stream handle (registration_text device token))
      ∷ requested websocket
      ∷ s.events in
    (d : RegData) × (stream_at handle s.requested_node ≡ some d)
    × (connection_callback env (by_handle handle s.requested_node) connected s
        ≡ some (
            with_events s
              (released websocket ∷ announced d.callback d.callback_data connected written)))

-- After a stream was opened with S_OK and memory for the device's identifier, in a state whose
-- nodes are distinct, with a new block and a new handle, and any calls that end, and neither close
-- the stream nor are given its handle anew, the websocket module being at hand throughout: the
-- news that it is connected makes its node's function write the JSON text that registers the
-- device with the token, if the text has less than 1024 bytes, and then call the caller's
-- function, if one is set, once, with the caller's data and the state.
pub connected-open :
    (env : Websocket) (old : ℕ) (blocks : Blocks) (token device : List ℕ) (ssl : Option StreamSsl)
    (s t : Streams) (o : Done)
    → Streamed s.requested_node
    → Allowed env (opening old blocks (some token) (some device) ssl) s
    → step env (opening old blocks (some token) (some device) ssl) s ≡ some o
    → o.result ≡ s_ok
    → blocks.device ≡ true
    → Run env o.handle o.state t
    → callable (env.request_module t.events) ≡ true
    → length (registration_text device token) < 1024
    → Registers env o.handle device token t
unfolding connection_callback
connected-open env old blocks token device ssl s t o v allowed e good given run c short =
    let text = registering_text device token in
    let (v', has) = open-HasTexts env old blocks token device ssl s o v allowed e good given in
    let (w, has') = Run-HasTexts env o.handle device text o.state t run v' has in
    let xs = t.requested_node in
    let (d, q, texts) = HasTexts-some o.handle device text (stream_at o.handle xs) has' in
    let (a, n, found, there, at_, same) = stream_at-Found o.handle xs d w q in
    let exact = texts.1 ∙ registering_text_lem device token short in
    (
      d,
      q,
      rw (by_handle-some o.handle xs d w q) (
            rw found (
              rw at_ (
                rw (callable-null (env.request_module t.events) c)
                  (rw c (rw same (rw exact (rw texts.2 refl)))))))
          ∙ ap
              (λ (heard : List (Event SocketCall)).
                some (with_events t (released (env.request_module t.events) ∷ heard)))
              (notify-announced d connected (
                called (write_stream o.handle (registration_text device token))
                ∷ requested (env.request_module t.events)
                ∷ t.events)),
    )

-- A handle without a stream is given none by a call that spares it.
spared-none :
    (handle : ℕ) (call : StreamCall) (o : Done) (streams : ℕ → Option RegData)
    → Spares handle call o
    → streams handle ≡ none
    → effect call o.result o.handle streams handle ≡ none
spared-none handle (opening _ blocks token d ssl) o streams h gone =
    elim (Bool-cases (is_ok o.result)) [
      | inl agreed ↦ rw agreed (rw (ne→== o.handle handle h) gone)
      | inr failed ↦ rw failed gone
    ]
spared-none handle (sending _ _) o streams h gone = gone
spared-none handle (calling_back k callback user_data) o streams h gone =
    elim (Bool-cases (k == handle)) [ inl hit ↦ rw hit (rw gone refl) | inr miss ↦ rw miss gone ]
spared-none handle (receiving _ _ _) o streams h gone = gone
spared-none handle (closing k) o streams h gone = rw (ne→== k handle h) gone
spared-none handle (changed _ _) o streams h gone = gone

Run-none :
    (env : Websocket) (handle : ℕ) (s t : Streams)
    → Run env handle s t
    → Streamed s.requested_node
    → stream_at handle s.requested_node ≡ none
    → stream_at handle t.requested_node ≡ none
Run-none env handle s t done v gone = gone
Run-none env handle s t (next call o e allowed spared rest) v gone =
    let (v', same) = result-Effect env call s o v allowed e in
    let streams = λ (h : ℕ). stream_at h s.requested_node in
    Run-none env handle o.state t rest v'
      (same handle ∙ spared-none handle call o streams spared gone)

-- After a stream was closed, whatever the result, in a state whose nodes are distinct, and any
-- calls that end, and are not given its handle anew, the websocket module being at hand
-- throughout: a message to it returns E_BAD_ARGS, nothing is written, and the websocket module is
-- requested and not given back.
pub send-close :
    (env : Websocket) (handle : ℕ) (message : Option (List ℕ)) (s t : Streams) (o : Done)
    → Streamed s.requested_node
    → Allowed env (closing handle) s
    → step env (closing handle) s ≡ some o
    → Run env handle o.state t
    → callable (env.request_module t.events) ≡ true
    → send env handle message t
      ≡ some (e_bad_args, with_events t (requested (env.request_module t.events) ∷ t.events))
send-close env handle message s t o v allowed e run c =
    let (v', same) = result-Effect env (closing handle) s o v allowed e in
    let gone : stream_at handle o.state.requested_node ≡ none =
      same handle ∙ rw (eq→== handle handle refl) refl in
    send-missing env handle message t (Run-none env handle o.state t run v' gone) c
