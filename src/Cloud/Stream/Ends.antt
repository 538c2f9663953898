-- ===== src/Cloud/Stream/Ends.antt =====
-- When an operation of artik_cloud.c on streams ends without a fault, and with what effect.
use testing.Base.{
  ℕ, ◌≡◌, refl, sym, subst, inl, inr, Bool, true, false, not, ◌&&◌, Option, none, some, List, ◌∷◌,
  ◌==◌, if◌then◌else◌, ◌>>=◌, Option-cases, Bool-cases, ne→==, is_ok,
}
use testing.ArtikList.{null}
use testing.Systemio.Nodes.{entry_at}
use testing.Cloud.{Event, callable, requested, called}
use testing.Cloud.Stream.{
  ConnectionState, closed, connected, handshake_error, other, StreamSsl, SocketCall, request_stream,
  open_socket, stream_uri, RegData, Streams, Websocket, Blocks,
}
use testing.Cloud.Stream.Opening.{open_stream, request_and_open, open_and_register}
use testing.Cloud.Stream.Operations.{
  send, set_receive_callback, close, connection_callback, on_state,
}
use testing.Cloud.Stream.Lists.{Streamed, stream_at}
use testing.Cloud.Stream.Search.{stream_at-Found, by_handle-none, by_handle-some, delete_handle_lem}
use testing.Cloud.Stream.Calls.{
  StreamCall, opening, sending, calling_back, receiving, closing, changed, Done, step, Allowed,
}
use testing.Cloud.Stream.Steps.{Effect, Whenever}
use testing.Cloud.Stream.Effects.{step-Effect, callable-null}

abbrev pub Given {ℓ} : {A : Type ℓ} → Option A → Type 0
Given none = ⊥
Given (some a) = Unit

abbrev pub HasDevice : Option RegData → Type 0
HasDevice none = Unit
HasDevice (some d) = Given d.device_id

-- The pointers that a call reads are there: the texts and the configuration of an opening, and the
-- block of its URI; a message, and the identifier that its stream's node keeps; the node whose data
-- the websocket module passes in.
abbrev pub Sound : StreamCall → Streams → Type 0
Sound (opening _ blocks token device ssl) s =
    (blocks.uri ≡ true) × Given token × Given device × Given ssl
Sound (sending handle message) s = Given message × HasDevice (stream_at handle s.requested_node)
Sound (changed node state) s = Given (entry_at node s.requested_node)
Sound _ s = Unit

Given-if {ℓ} :
    {A : Type ℓ} (b : Bool) (x y : Option A) → Given x → Given y → Given (if b then x else y)
Given-if true x y hx hy = hx
Given-if false x y hx hy = hy

Given-unless {ℓ} :
    {A : Type ℓ} (b : Bool) (y : Option A) → b ≡ true → Given y → Given (if not b then none else y)
Given-unless true y h hy = hy
Given-unless false y h hy = cc

Given-bind {ℓ κ} :
    {A : Type ℓ} {B : Type κ} (o : Option A) (f : A → Option B)
    → Given o
    → ((a : A) → Given (f a))
    → Given (o >>= f)
Given-bind none f h g = absurd h
Given-bind (some a) f h g = g a

open_and_register-Given :
    (env : Websocket) (websocket handle : ℕ) (blocks : Blocks) (token device : List ℕ) (s : Streams)
    (events : List (Event SocketCall))
    → Given (open_and_register env websocket handle blocks (some token) (some device) s events)
open_and_register-Given env websocket handle blocks token device s events =
    elim (Bool-cases (is_ok (env.returns (called (open_socket handle) ∷ events)))) [
      | inr failed ↦ rw failed tt
      | inl agreed ↦ elim (Bool-cases (blocks.node == null)) [
        | inl nil ↦ rw agreed (rw nil tt)
        | inr there ↦ rw agreed (rw there tt)
      ]
    ]

open_stream-Given :
    (env : Websocket) (old : ℕ) (blocks : Blocks) (token device : List ℕ) (ssl : StreamSsl)
    (s : Streams)
    → callable (env.request_module s.events) ≡ true
    → blocks.uri ≡ true
    → Given (open_stream env old blocks (some token) (some device) (some ssl) s)
unfolding open_stream
open_stream-Given env old blocks token device ssl s c uri =
    let websocket = env.request_module s.events in
    let asked = called (request_stream (stream_uri ssl) ssl) ∷ requested websocket ∷ s.events in
    let both : (callable websocket && blocks.uri) ≡ true = rw c uri in
    let opened : Given (
        request_and_open env websocket blocks (some token) (some device) ssl s
          (requested websocket ∷ s.events)) =
      elim (Bool-cases (is_ok (env.returns asked))) [
        | inr failed ↦ rw failed tt
        | inl agreed ↦ rw agreed (
            open_and_register-Given env websocket (env.handle_of asked) blocks token device s asked)
      ] in
    Given-if (websocket == null) _ _ tt (Given-unless _ _ both opened)

send-Given :
    (env : Websocket) (handle : ℕ) (message : List ℕ) (s : Streams)
    → Streamed s.requested_node
    → callable (env.request_module s.events) ≡ true
    → HasDevice (stream_at handle s.requested_node)
    → Given (send env handle (some message) s)
unfolding send
send-Given env handle message s v c has =
    let xs = s.requested_node in
    rw (callable-null (env.request_module s.events) c) (elim (Option-cases (stream_at handle xs)) [
      | inl missing ↦ rw (by_handle-none handle xs missing) tt
      | inr (d, q) ↦
          let (a, e, found, there, at_, same) = stream_at-Found handle xs d v q in
          let id : Given d.device_id = subst (λ (o : Option RegData). HasDevice o) q has in
          let id' : Given e.payload.device_id =
            subst (λ (x : RegData). Given x.device_id) (sym same) id in
          rw (by_handle-some handle xs d v q) (
            rw found (
              rw (ne→== a null there)
                (rw at_ (rw c (Given-bind e.payload.device_id _ id' (λ t. tt))))))
    ])

close-Given :
    (env : Websocket) (handle : ℕ) (s : Streams)
    → Streamed s.requested_node
    → callable (env.request_module s.events) ≡ true
    → Given (close env handle s)
unfolding close
close-Given env handle s v c =
    let xs = s.requested_node in
    rw (callable-null (env.request_module s.events) c) (elim (Option-cases (stream_at handle xs)) [
      | inl missing ↦ rw (by_handle-none handle xs missing) tt
      | inr (d, q) ↦
          let (a, e, found, there, _, _) = stream_at-Found handle xs d v q in
          rw (by_handle-some handle xs d v q)
            (rw found (rw (ne→== a null there) (rw (delete_handle_lem handle xs d v q) (rw c tt))))
    ])

set_receive_callback-Given :
    (env : Websocket) (handle callback user_data : ℕ) (s : Streams)
    → callable (env.request_module s.events) ≡ true
    → Given (set_receive_callback env handle callback user_data s)
unfolding set_receive_callback
set_receive_callback-Given env handle callback user_data s c =
    Given-if (env.request_module s.events == null) _ _ tt (Given-unless _ _ c tt)

on_state-Given :
    (websocket : ℕ) (d : RegData) (state : ConnectionState) (begun : List (Event SocketCall))
    → callable websocket ≡ true
    → Given (on_state websocket d state begun)
on_state-Given websocket d connected begun c = rw c tt
on_state-Given websocket d closed begun c = tt
on_state-Given websocket d handshake_error begun c = tt
on_state-Given websocket d other begun c = tt

connection_callback-Given :
    (env : Websocket) (node : ℕ) (state : ConnectionState) (s : Streams)
    → callable (env.request_module s.events) ≡ true
    → Given (entry_at node s.requested_node)
    → Given (connection_callback env node state s)
unfolding connection_callback
connection_callback-Given env node state s c there =
    let websocket = env.request_module s.events in
    Given-bind (entry_at node s.requested_node) _ there (λ e. Given-if (websocket == null) _ _ tt (
      Given-bind (on_state websocket e.payload state (requested websocket ∷ s.events)) _
        (on_state-Given websocket e.payload state (requested websocket ∷ s.events) c) (λ _. tt)))

step-Given :
    (env : Websocket) (call : StreamCall) (s : Streams)
    → Streamed s.requested_node
    → callable (env.request_module s.events) ≡ true
    → Sound call s
    → Given (step env call s)
step-Given env (opening old blocks (some t) (some d) (some ssl)) s v c h =
    Given-bind (open_stream env old blocks (some t) (some d) (some ssl) s) _
      (open_stream-Given env old blocks t d ssl s c h.0) (λ _. tt)
step-Given env (opening old blocks none device ssl) s v c h = absurd h.1
step-Given env (opening old blocks (some t) none ssl) s v c h = absurd h.2
step-Given env (opening old blocks (some t) (some d) none) s v c h = absurd h.3
step-Given env (sending handle (some message)) s v c h =
    Given-bind (send env handle (some message) s) _ (send-Given env handle message s v c h.1)
      (λ _. tt)
step-Given env (sending handle none) s v c h = absurd h.0
step-Given env (calling_back handle callback user_data) s v c h = tt
step-Given env (receiving handle callback user_data) s v c h =
    Given-bind (set_receive_callback env handle callback user_data s) _
      (set_receive_callback-Given env handle callback user_data s c) (λ _. tt)
step-Given env (closing handle) s v c h =
    Given-bind (close env handle s) _ (close-Given env handle s v c) (λ _. tt)
step-Given env (changed node state) s v c h =
    Given-bind (connection_callback env node state s) _
      (connection_callback-Given env node state s c h) (λ _. tt)

taken_from {ℓ κ} :
    {A : Type ℓ} (P : A → Type κ) (o : Option A)
    → Given o
    → Whenever P o
    → (a : A) × (o ≡ some a) × P a
taken_from P none h w = absurd h
taken_from P (some a) h w = (a, refl, w)

-- Where the nodes of the streams have distinct addresses and handles, none of them NULL, the
-- websocket module is at hand, an opening is given a new block and a new handle, and the pointers
-- that the call reads are there: each call ends, leaves the nodes distinct, and does to the map
-- from the handles to the streams' data what it is meant to do. An opening with S_OK adds the data
-- of its handle, a change of the callback is written to its handle's data, a closing takes its
-- handle's data out, and everything else stays.
pub step_lem :
    (env : Websocket) (call : StreamCall) (s : Streams)
    → Streamed s.requested_node
    → Allowed env call s
    → Sound call s
    → (o : Done) × (step env call s ≡ some o) × Effect call s o
step_lem env call s v allowed sound =
    taken_from (Effect call s) (step env call s) (step-Given env call s v allowed.0 sound)
      (step-Effect env call s v allowed)
