-- ===== src/Cloud/Stream/Effects.antt =====
-- What each call of artik_cloud.c on streams does to the map from the handles to the data.
use testing.Base.{
  ℕ, ◌≡◌, ◌∙◌, refl, sym, ap, subst, inl, inr, true, false, Option, none, some, List, ◌∷◌, ◌==◌,
  ◌>>=◌, Bool-cases, Option-cases, ==→eq, ne→==, arith, ArtikError, s_ok,
}
use testing.ArtikList.{Entry, null}
use testing.Systemio.Nodes.{by_handle, entry_at}
use testing.Cloud.{Event, callable, requested}
use testing.Cloud.Stream.{ConnectionState, SocketCall, RegData, Streams, Websocket}
use testing.Cloud.Stream.Operations.{
  send, set_connection_callback, set_receive_callback, close, connection_callback, write_message,
  on_state,
}
use testing.Cloud.Stream.Opening.{open_stream}
use testing.Cloud.Stream.Lists.{Streamed, stream_at, stream_at-remove, Streamed-remove}
use testing.Cloud.Stream.Search.{
  delete_handle_lem, by_handle-none, by_handle-some, Streamed-calling, stream_at-calling,
  stream_at-Found,
}
use testing.Cloud.Stream.Calls.{
  StreamCall, opening, sending, calling_back, receiving, closing, changed, with_handle, step,
  effect, Allowed,
}
use testing.Cloud.Stream.Steps.{Effect, Whenever, OpenedTo, open_stream-OpenedTo}

Whenever-bind {ℓ} :
    {A : Type ℓ} {B : Type 0} (P : B → Type 0) (o : Option A) (f : A → Option B)
    → ((a : A) → Whenever P (f a))
    → Whenever P (o >>= f)
Whenever-bind P none f h = tt
Whenever-bind P (some a) f h = h a

-- A call is made of a function and what its result is packed into.
Whenever-map {ℓ} :
    {A : Type ℓ} {B : Type 0} (P : A → Type 0) (Q : B → Type 0) (o : Option A) (g : A → B)
    → ((a : A) → P a → Q (g a))
    → Whenever P o
    → Whenever Q (o >>= (λ a. some (g a)))
Whenever-map P Q none g h w = tt
Whenever-map P Q (some a) g h w = h a w

-- The list of nodes is as it was.
abbrev Kept : Streams → ArtikError × Streams → Type 0
Kept s r = r.1.requested_node ≡ s.requested_node

write_message-Kept :
    (websocket handle : ℕ) (env : Websocket) (message : Option (List ℕ)) (s : Streams)
    (begun : List (Event SocketCall)) (e : Entry RegData)
    → Whenever (Kept s) (write_message env websocket handle message s begun e)
write_message-Kept websocket handle env message s begun e = elim (Bool-cases (callable websocket)) [
  | inr fault ↦ rw fault tt
  | inl fine ↦ rw fine (
      Whenever-bind (Kept s) e.payload.device_id _
        (λ d. Whenever-bind (Kept s) message _ (λ t. refl)))
]

send-Kept :
    (env : Websocket) (handle : ℕ) (message : Option (List ℕ)) (s : Streams)
    → Whenever (Kept s) (send env handle message s)
unfolding send
send-Kept env handle message s =
    let websocket = env.request_module s.events in
    let node = by_handle handle s.requested_node in
    elim (Bool-cases (websocket == null)) [
      | inl nil ↦ rw nil refl
      | inr there ↦ elim (Bool-cases (node == null)) [
        | inl nil ↦ rw there (rw nil refl)
        | inr found ↦ rw there (
            rw found (
              Whenever-bind (Kept s) (entry_at node s.requested_node) _ (λ e.
                write_message-Kept websocket handle env message s (requested websocket ∷ s.events)
                  e)))
      ]
    ]

set_receive_callback-Kept :
    (env : Websocket) (handle callback user_data : ℕ) (s : Streams)
    → Whenever (Kept s) (set_receive_callback env handle callback user_data s)
unfolding set_receive_callback
set_receive_callback-Kept env handle callback user_data s =
    let websocket = env.request_module s.events in
    elim (Bool-cases (websocket == null)) [
      | inl nil ↦ rw nil refl
      | inr there ↦ elim (Bool-cases (callable websocket)) [
        | inl fine ↦ rw there (rw fine refl)
        | inr fault ↦ rw there (rw fault tt)
      ]
    ]

connection_callback-Kept :
    (env : Websocket) (node : ℕ) (state : ConnectionState) (s : Streams)
    → Whenever
        (λ (t : Streams). t.requested_node ≡ s.requested_node)
        (connection_callback env node state s)
unfolding connection_callback
connection_callback-Kept env node state s =
    let websocket = env.request_module s.events in
    let P = λ (t : Streams). t.requested_node ≡ s.requested_node in
    Whenever-bind P (entry_at node s.requested_node) _ (λ e. elim (Bool-cases (websocket == null)) [
      | inl nil ↦ rw nil refl
      | inr there ↦ rw there (
          Whenever-bind P (on_state websocket e.payload state (requested websocket ∷ s.events)) _
            (λ events. refl))
    ])

-- The state after a change of the callback, and after a closing.
abbrev CalledBack : ℕ → ℕ → ℕ → Streams → ArtikError × Streams → Type 0
CalledBack handle callback user_data s r =
    Effect (calling_back handle callback user_data) s (with_handle handle r)

abbrev Closed : ℕ → Streams → ArtikError × Streams → Type 0
Closed handle s r = Effect (closing handle) s (with_handle handle r)

pub callable-null : (w : ℕ) → callable w ≡ true → (w == null) ≡ false
unfolding callable
callable-null w c = ground arith

calling_back-Effect :
    (handle callback user_data : ℕ) (s : Streams)
    → Streamed s.requested_node
    → CalledBack handle callback user_data s (set_connection_callback handle callback user_data s)
unfolding set_connection_callback
calling_back-Effect handle callback user_data s v =
    let xs = s.requested_node in
    elim (Option-cases (stream_at handle xs)) [
      | inl missing ↦ rw (by_handle-none handle xs missing) (
        v,
        λ k. elim (Bool-cases (handle == k)) [
          | inr miss ↦ rw miss refl
          | inl hit ↦
              let gone : stream_at k xs ≡ none =
                subst (λ (h : ℕ). stream_at h xs ≡ none) (==→eq handle k hit) missing in
              rw hit (rw gone refl)
        ],
      )
      | inr (d, q) ↦
          let (a, e, found, there, _, _) = stream_at-Found handle xs d v q in
          rw (by_handle-some handle xs d v q) (
            rw found (
              rw (ne→== a null there) (
                Streamed-calling a callback user_data xs v,
                λ k. stream_at-calling k handle a callback user_data xs v found there,
              )))
    ]

closing-Effect :
    (env : Websocket) (handle : ℕ) (s : Streams)
    → Streamed s.requested_node
    → callable (env.request_module s.events) ≡ true
    → Whenever (Closed handle s) (close env handle s)
unfolding close
closing-Effect env handle s v c =
    let xs = s.requested_node in
    rw (callable-null (env.request_module s.events) c) (elim (Option-cases (stream_at handle xs)) [
      | inl missing ↦ rw (by_handle-none handle xs missing) (
        v,
        λ k. elim (Bool-cases (handle == k)) [
          | inr miss ↦ rw miss refl
          | inl hit ↦
              let gone : stream_at k xs ≡ none =
                subst (λ (h : ℕ). stream_at h xs ≡ none) (==→eq handle k hit) missing in
              rw hit gone
        ],
      )
      | inr (d, q) ↦
          let (a, e, found, there, _, _) = stream_at-Found handle xs d v q in
          rw (by_handle-some handle xs d v q) (
            rw found (
              rw (ne→== a null there) (
                rw (delete_handle_lem handle xs d v q)
                  (rw c (Streamed-remove handle xs v, λ k. stream_at-remove k handle xs v)))))
    ])

-- A call that leaves the list, and is meant to.
kept :
    (call : StreamCall) (handle : ℕ) (s : Streams)
    → Streamed s.requested_node
    → ((k : ℕ) (ret : ArtikError)
        → stream_at k s.requested_node
          ≡ effect call ret handle (λ (h : ℕ). stream_at h s.requested_node) k)
    → (r : ArtikError × Streams) → Kept s r
    → Effect call s (with_handle handle r)
kept call handle s v meant (ret, t) same = (
  subst (λ (xs : List (ℕ × Entry RegData)). Streamed xs) (sym same) v,
  λ k. ap (λ (xs : List (ℕ × Entry RegData)). stream_at k xs) same ∙ meant k ret,
)

-- Where the nodes of the streams have distinct addresses and handles, none of them NULL, the
-- websocket module is at hand, and an opening is given a new block and a new handle: each call
-- leaves the nodes distinct, if it ends, and does to the map from the handles to the streams' data
-- what it is meant to do. An opening with S_OK adds the data of its handle, a change of the
-- callback is written to its handle's data, a closing takes its handle's data out, and everything
-- else stays.
pub step-Effect :
    (env : Websocket) (call : StreamCall) (s : Streams)
    → Streamed s.requested_node
    → Allowed env call s
    → Whenever (Effect call s) (step env call s)
step-Effect env (opening old blocks token device ssl) s v h =
    Whenever-map (OpenedTo blocks token device s) (Effect (opening old blocks token device ssl) s)
      (open_stream env old blocks token device ssl s)
      (λ o. record { result = o.result; handle = o.handle; state = o.state }) (λ o w. w)
      (open_stream-OpenedTo env old blocks token device ssl s h.1 v)
step-Effect env (sending handle message) s v h =
    Whenever-map (Kept s) (Effect (sending handle message) s) (send env handle message s)
      (with_handle handle) (kept (sending handle message) handle s v (λ k ret. refl))
      (send-Kept env handle message s)
step-Effect env (calling_back handle callback user_data) s v h =
    calling_back-Effect handle callback user_data s v
step-Effect env (receiving handle callback user_data) s v h =
    Whenever-map (Kept s) (Effect (receiving handle callback user_data) s)
      (set_receive_callback env handle callback user_data s) (with_handle handle)
      (kept (receiving handle callback user_data) handle s v (λ k ret. refl))
      (set_receive_callback-Kept env handle callback user_data s)
step-Effect env (closing handle) s v h =
    Whenever-map (Closed handle s) (Effect (closing handle) s) (close env handle s)
      (with_handle handle) (λ o w. w) (closing-Effect env handle s v h.0)
step-Effect env (changed node state) s v h =
    Whenever-map (λ (t : Streams). t.requested_node ≡ s.requested_node)
      (Effect (changed node state) s) (connection_callback env node state s)
      (λ t. record { result = s_ok; handle = node; state = t })
      (λ t same. kept (changed node state) node s v (λ k ret. refl) (s_ok, t) same)
      (connection_callback-Kept env node state s)
