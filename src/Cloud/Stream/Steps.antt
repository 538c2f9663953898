-- ===== src/Cloud/Stream/Steps.antt =====
-- What one operation of artik_cloud.c on streams does to the list of nodes.
use testing.Base.{
  ℕ, ◌≡◌, ◌≢◌, ◌∙◌, refl, sym, ap, subst, inl, inr, false, ◌&&◌, Option, none, some, List, ◌∷◌,
  ◌==◌, if◌then◌else◌, Bool-cases, ==→eq, eq→==, ne_of_==, ArtikError, is_ok, e_no_mem,
  e_not_supported, ◌>>=◌,
}
use testing.ArtikList.{Entry, null}
use testing.ArtikList.Abstract.{Fresh}
use testing.Cloud.{called, requested, released, Event, callable}
use testing.Cloud.Stream.{
  StreamSsl, SocketCall, on_connection, open_socket, request_stream, stream_uri, RegData, Streams,
  Websocket, Blocks, Opened, linked, filled, delete_handle, registering_text, with_events,
}
use testing.Cloud.Stream.Opening.{register, open_and_register, open_stream}
use testing.Cloud.Stream.Lists.{
  Unused, Streamed, stream_at, Streamed-linked, stream_at-linked, Unused-stream_at,
  stream_at-remove, Streamed-remove,
}
use testing.Cloud.Stream.Search.{delete_handle_lem}
use testing.Cloud.Stream.Calls.{StreamCall, opening, Done, registered, effect, New}

-- The nodes stay distinct, and the data of every handle are what the call is meant to leave.
abbrev pub Effect : StreamCall → Streams → Done → Type 0
Effect call s o =
    Streamed o.state.requested_node
    × ((k : ℕ)
        → stream_at k o.state.requested_node
          ≡ effect call o.result o.handle (λ (h : ℕ). stream_at h s.requested_node) k)

-- It holds of a result, and says nothing of a fault.
abbrev pub Whenever {ℓ κ} : {A : Type ℓ} → (A → Type κ) → Option A → Type κ
Whenever P none = Unit
Whenever P (some a) = P a

-- Where an opening leaves the list.
abbrev pub OpenedTo : Blocks → Option (List ℕ) → Option (List ℕ) → Streams → Opened → Type 0
OpenedTo blocks token device s o =
    Streamed o.state.requested_node
    × ((k : ℕ)
        → stream_at k o.state.requested_node ≡ (
            if is_ok o.result && o.handle == k
            then registered o.handle blocks token device
            else stream_at k s.requested_node))

-- A node that was linked and taken out again.
delete-linked :
    (m handle : ℕ) (d : RegData) (xs : List (ℕ × Entry RegData))
    → m ≢ null
    → handle ≢ null
    → Fresh m xs
    → Unused handle xs
    → Streamed xs
    → Streamed (delete_handle handle (linked m handle d xs)).1
      × ((k : ℕ) → stream_at k (delete_handle handle (linked m handle d xs)).1 ≡ stream_at k xs)
delete-linked m handle d xs n k f u v =
    let ys = linked m handle d xs in
    let w = Streamed-linked m handle d xs n k f u v in
    let here : stream_at handle ys ≡ some d =
      stream_at-linked handle m handle d xs k u ∙ rw (eq→== handle handle refl) refl in
    let gone =
      ap (λ (r : ArtikError × List (ℕ × Entry RegData)). r.1)
        (delete_handle_lem handle ys d w here) in
    subst
      (λ (zs : List (ℕ × Entry RegData)). Streamed zs × ((k : ℕ) → stream_at k zs ≡ stream_at k xs))
      (sym gone)
      (
        Streamed-remove handle ys w,
        λ k'. stream_at-remove k' handle ys w ∙ elim (Bool-cases (handle == k')) [
          | inl hit ↦ rw hit (
              sym (Unused-stream_at k' xs (subst (λ (h : ℕ). Unused h xs) (==→eq handle k' hit) u)))
          | inr miss ↦ rw miss (stream_at-linked k' m handle d xs k u ∙ rw miss refl)
        ],
      )

register-OpenedTo :
    (env : Websocket) (websocket handle : ℕ) (blocks : Blocks) (token device : List ℕ) (s : Streams)
    (events : List (Event SocketCall))
    → blocks.node ≢ null
    → handle ≢ null
    → Fresh blocks.node s.requested_node
    → Unused handle s.requested_node
    → Streamed s.requested_node
    → OpenedTo blocks
        (some token)
        (some device)
        s
        (register env websocket handle blocks token device s events)
register-OpenedTo env websocket handle blocks token device s events n k f u v =
    let xs = s.requested_node in
    let d = filled handle (registering_text device token) blocks token device in
    elim (Bool-cases (is_ok (env.returns (called (on_connection handle blocks.node) ∷ events)))) [
      | inl agreed ↦ rw agreed (
        Streamed-linked blocks.node handle d xs n k f u v,
        λ k'. stream_at-linked k' blocks.node handle d xs k u,
      )
      | inr failed ↦
          let (w, same) = delete-linked blocks.node handle d xs n k f u v in
          rw failed (w, λ k'. rw failed (same k'))
    ]

-- An opening that leaves the list alone, with an error.
unchanged-OpenedTo :
    (blocks : Blocks) (token device : Option (List ℕ)) (s : Streams) (ret : ArtikError) (handle : ℕ)
    (events : List (Event SocketCall))
    → Streamed s.requested_node
    → is_ok ret ≡ false
    → OpenedTo blocks token device s
        record { result = ret; handle = handle; state = with_events s events }
unchanged-OpenedTo blocks token device s ret handle events v failed = (v, λ k. rw failed refl)

open_and_register-OpenedTo :
    (env : Websocket) (websocket handle : ℕ) (blocks : Blocks) (token device : Option (List ℕ))
    (s : Streams) (events : List (Event SocketCall))
    → handle ≢ null
    → Fresh blocks.node s.requested_node
    → Unused handle s.requested_node
    → Streamed s.requested_node
    → Whenever
        (OpenedTo blocks token device s)
        (open_and_register env websocket handle blocks token device s events)
open_and_register-OpenedTo env websocket handle blocks token device s events k f u v =
    elim (Bool-cases (is_ok (env.returns (called (open_socket handle) ∷ events)))) [
      | inr failed ↦ rw failed (
          unchanged-OpenedTo blocks token device s
            (env.returns (called (open_socket handle) ∷ events)) handle
            (released websocket ∷ called (open_socket handle) ∷ events) v failed)
      | inl agreed ↦ elim (Bool-cases (blocks.node == null)) [
        | inl nil ↦ rw agreed (
            rw nil (
              unchanged-OpenedTo blocks token device s e_no_mem handle
                (called (open_socket handle) ∷ events) v refl))
        | inr there ↦ rw agreed (
            rw there (
              with_texts token device (λ t d.
                register-OpenedTo env websocket handle blocks t d s
                  (called (open_socket handle) ∷ events) (ne_of_== blocks.node null there) k f u
                  v)))
      ]
    ]
  where
    with_texts :
        (token device : Option (List ℕ))
        → ((t d : List ℕ)
            → OpenedTo blocks
                (some t)
                (some d)
                s
                (register env websocket handle blocks t d s (called (open_socket handle) ∷ events)))
        → Whenever (OpenedTo blocks token device s) (do
          t ← token
          d ← device
          some (register env websocket handle blocks t d s (called (open_socket handle) ∷ events)))
    with_texts none device h = tt
    with_texts (some t) none h = tt
    with_texts (some t) (some d) h = h t d

pub open_stream-OpenedTo :
    (env : Websocket) (old : ℕ) (blocks : Blocks) (token device : Option (List ℕ))
    (ssl : Option StreamSsl) (s : Streams)
    → New env (opening old blocks token device ssl) s
    → Streamed s.requested_node
    → Whenever (OpenedTo blocks token device s) (open_stream env old blocks token device ssl s)
unfolding open_stream
open_stream-OpenedTo env old blocks token device none s new v = tt
open_stream-OpenedTo env old blocks token device (some ssl) s new v =
    let websocket = env.request_module s.events in
    let asked = called (request_stream (stream_uri ssl) ssl) ∷ requested websocket ∷ s.events in
    elim (Bool-cases (websocket == null)) [
      | inl nil ↦ rw nil (
          unchanged-OpenedTo blocks token device s e_not_supported old
            (requested websocket ∷ s.events) v refl)
      | inr there ↦ elim (Bool-cases (callable websocket && blocks.uri)) [
        | inr fault ↦ rw there (rw fault tt)
        | inl fine ↦ elim (Bool-cases (is_ok (env.returns asked))) [
          | inr failed ↦ rw there (
              rw fine (
                rw failed (
                  unchanged-OpenedTo blocks token device s (env.returns asked) (env.handle_of asked)
                    (released websocket ∷ asked) v failed)))
          | inl agreed ↦ rw there (
              rw fine (
                rw agreed (
                  open_and_register-OpenedTo env websocket (env.handle_of asked) blocks token device
                    s asked new.1 new.0 new.2 v)))
        ]
      ]
    ]
