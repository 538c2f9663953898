-- ===== src/Cloud/Stream/Laws.antt =====
-- What the streams of artik_cloud.c send, from their opening to their closing.
use testing.Base.{
  ℕ, ◌≡◌, ◌≢◌, ◌<◌, sym, subst, inl, inr, Option, none, some, List, ◌++◌, codes, length, ◌==◌,
  Bool-cases, ne→==, arith, is_ok, take_all, fill,
}
use testing.Cloud.Stream.{RegData, Streams, Websocket, sent_text, registering_text}
use testing.Cloud.Stream.Lists.{Streamed, stream_at}
use testing.Cloud.Stream.Search.{with_callback, map_data}
use testing.Cloud.Stream.Calls.{
  StreamCall, opening, sending, calling_back, receiving, closing, changed, Done, step, effect,
  Allowed,
}
use testing.Cloud.Stream.Steps.{Effect, Whenever}
use testing.Cloud.Stream.Effects.{step-Effect}

-- The messages that are meant.
abbrev pub message_text : List ℕ → List ℕ → List ℕ
message_text device message =
    codes "{\"sdid\":\""
    ++ (device ++ (codes "\",\"type\":\"message\",\"data\":" ++ (message ++ codes "}")))

abbrev pub registration_text : List ℕ → List ℕ → List ℕ
registration_text device token =
    codes "{\"sdid\":\""
    ++ (device
        ++ (codes "\",\"Authorization\":\"bearer " ++ (token ++ codes "\",\"type\":\"register\"}")))

pub sent_text_lem :
    (device message : List ℕ)
    → length (message_text device message) < 1024
    → sent_text device message ≡ message_text device message
unfolding fill
sent_text_lem device message h = take_all 1023 (message_text device message) (omega arith)

pub registering_text_lem :
    (device token : List ℕ)
    → length (registration_text device token) < 1024
    → registering_text device token ≡ registration_text device token
unfolding fill
registering_text_lem device token h = take_all 1023 (registration_text device token) (omega arith)

-- A call that neither closes a stream nor is given its handle anew.
abbrev pub Spares : ℕ → StreamCall → Done → Type 0
Spares handle (opening _ blocks token device ssl) o = o.handle ≢ handle
Spares handle (closing h) o = h ≢ handle
Spares handle _ o = Unit

-- Any sequence of calls that end, with the websocket module at hand, and spare a stream.
pub data Run (env : Websocket) (handle : ℕ) : Streams → Streams → Type 0 where
  done : {s : Streams} → Run env handle s s
  next :
      {s t : Streams} (call : StreamCall) (o : Done)
      → step env call s ≡ some o
      → Allowed env call s
      → Spares handle call o
      → Run env handle o.state t
      → Run env handle s t

pub result-Effect :
    (env : Websocket) (call : StreamCall) (s : Streams) (o : Done)
    → Streamed s.requested_node
    → Allowed env call s
    → step env call s ≡ some o
    → Effect call s o
result-Effect env call s o v h e =
    subst (λ (r : Option Done). Whenever (Effect call s) r) e (step-Effect env call s v h)

-- The handle has a stream with these texts, or none.
abbrev pub HasTexts : ℕ → List ℕ → List ℕ → Option RegData → Type 0
HasTexts handle device text none = ⊥
HasTexts handle device text (some d) =
    (d.device_id ≡ some device) × (d.registration_message ≡ text) × (d.handle ≡ handle)

spared-HasTexts :
    (handle : ℕ) (device text : List ℕ) (call : StreamCall) (o : Done)
    (streams : ℕ → Option RegData)
    → Spares handle call o
    → HasTexts handle device text (streams handle)
    → HasTexts handle device text (effect call o.result o.handle streams handle)
spared-HasTexts handle device text (opening _ blocks token d ssl) o streams h has =
    elim (Bool-cases (is_ok o.result)) [
      | inl agreed ↦ rw agreed (rw (ne→== o.handle handle h) has)
      | inr failed ↦ rw failed has
    ]
spared-HasTexts handle device text (sending _ _) o streams h has = has
spared-HasTexts handle device text (calling_back k callback user_data) o streams h has =
    elim (Bool-cases (k == handle)) [
      | inl hit ↦ rw hit (mapped (streams handle) has)
      | inr miss ↦ rw miss has
    ]
  where
    mapped :
        (q : Option RegData)
        → HasTexts handle device text q
        → HasTexts handle device text (map_data (with_callback callback user_data) q)
    mapped none has = has
    mapped (some d) has = has
spared-HasTexts handle device text (receiving _ _ _) o streams h has = has
spared-HasTexts handle device text (closing k) o streams h has = rw (ne→== k handle h) has
spared-HasTexts handle device text (changed _ _) o streams h has = has

-- A stream keeps its texts as long as it is spared.
pub Run-HasTexts :
    (env : Websocket) (handle : ℕ) (device text : List ℕ) (s t : Streams)
    → Run env handle s t
    → Streamed s.requested_node
    → HasTexts handle device text (stream_at handle s.requested_node)
    → Streamed t.requested_node × HasTexts handle device text (stream_at handle t.requested_node)
Run-HasTexts env handle device text s t done v has = (v, has)
Run-HasTexts env handle device text s t (next call o e allowed spared rest) v has =
    let (v', same) = result-Effect env call s o v allowed e in
    let streams = λ (h : ℕ). stream_at h s.requested_node in
    let kept = spared-HasTexts handle device text call o streams spared has in
    let has' =
      subst (λ (q : Option RegData). HasTexts handle device text q) (sym (same handle)) kept in
    Run-HasTexts env handle device text o.state t rest v' has'
