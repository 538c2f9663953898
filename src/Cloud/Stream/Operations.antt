-- ===== src/Cloud/Stream/Operations.antt =====
-- artik_cloud.c: the operations on an open stream, and websocket_connection_callback.
use testing.Base.{
  ℕ, Option, none, some, List, ◌∷◌, ◌==◌, if◌then◌else◌, ◌>>=◌, not, ArtikError, s_ok, e_bad_args,
  e_not_supported, is_ok,
}
use testing.ArtikList.{Entry, null}
use testing.Systemio.Nodes.{by_handle, entry_at, modify}
use testing.Cloud.{Event, requested, released, called, callable}
use testing.Cloud.Stream.{
  ConnectionState, closed, connected, handshake_error, other, SocketCall, close_socket,
  write_stream, on_receive, notified, RegData, Streams, Websocket, sent_text, with_events,
  delete_handle,
}

abbrev pub calling : ℕ → ℕ → Entry RegData → Entry RegData
calling callback user_data e = record e {
  payload = record e.payload { callback = callback; callback_data = user_data };
}

unfoldable pub set_connection_callback : ℕ → ℕ → ℕ → Streams → ArtikError × Streams
set_connection_callback handle callback user_data s =
    let node = by_handle handle s.requested_node in
    if node == null then (e_bad_args, s) else (
      s_ok,
      record s { requested_node = modify node (calling callback user_data) s.requested_node },
    )

-- The call of the caller's function, where there is one.
abbrev pub notify : RegData → ConnectionState → List (Event SocketCall) → List (Event SocketCall)
notify d state events =
    if d.callback == null
    then events
    else called (notified d.callback d.callback_data state) ∷ events

abbrev pub on_state :
    ℕ → RegData → ConnectionState → List (Event SocketCall) → Option (List (Event SocketCall))
on_state websocket d connected begun =
    if callable websocket
    then some (notify d connected (called (write_stream d.handle d.registration_message) ∷ begun))
    else none
on_state websocket d closed begun = some (notify d closed begun)
on_state websocket d handshake_error begun = some (notify d handshake_error begun)
on_state websocket d other begun = some begun

module _ (env : Websocket) where
  -- snprintf and websocket_write_stream, for the data of the stream's node.
  abbrev pub write_message :
      ℕ
      → ℕ
      → Option (List ℕ)
      → Streams
      → List (Event SocketCall)
      → Entry RegData
      → Option (ArtikError × Streams)
  write_message websocket handle message s begun e = if not (callable websocket) then none else do
    device ← e.payload.device_id
    text ← message
    let written = called (write_stream handle (sent_text device text)) ∷ begun
    some (env.returns written, with_events s (released websocket ∷ written))

  -- A NULL text for %s is a fault.
  unfoldable pub send : ℕ → Option (List ℕ) → Streams → Option (ArtikError × Streams)
  send handle message s =
      let websocket = env.request_module s.events in
      let begun = requested websocket ∷ s.events in
      let node = by_handle handle s.requested_node in
      if websocket == null
      then some (e_not_supported, with_events s begun)
      else if node == null
      then some (e_bad_args, with_events s begun)
      else do e ← entry_at node s.requested_node; write_message websocket handle message s begun e

  unfoldable pub set_receive_callback : ℕ → ℕ → ℕ → Streams → Option (ArtikError × Streams)
  set_receive_callback handle callback user_data s =
      let websocket = env.request_module s.events in
      let begun = requested websocket ∷ s.events in
      let asked = called (on_receive handle callback user_data) ∷ begun in
      if websocket == null
      then some (e_not_supported, with_events s begun)
      else if not (callable websocket)
      then none
      else some (env.returns asked, with_events s (released websocket ∷ asked))

  -- The node goes, then the socket is closed.
  abbrev pub remove_and_close :
      ℕ
      → ℕ
      → List (Event SocketCall)
      → ArtikError × List (ℕ × Entry RegData)
      → Option (ArtikError × Streams)
  remove_and_close websocket handle begun (ret, nodes) =
      let asked = called (close_socket handle) ∷ begun in
      if not (is_ok ret)
      then some (ret, record { requested_node = nodes; events = released websocket ∷ begun })
      else if not (callable websocket)
      then none
      else some (
        env.returns asked,
        record { requested_node = nodes; events = released websocket ∷ asked },
      )

  unfoldable pub close : ℕ → Streams → Option (ArtikError × Streams)
  close handle s =
      let websocket = env.request_module s.events in
      let begun = requested websocket ∷ s.events in
      if websocket == null
      then some (e_not_supported, with_events s begun)
      else if by_handle handle s.requested_node == null
      then some (e_bad_args, with_events s begun)
      else remove_and_close websocket handle begun (delete_handle handle s.requested_node)

  -- websocket_connection_callback, with the address of the node whose data it was registered with.
  -- What the caller's function does to the streams is not part of it.
  unfoldable pub connection_callback : ℕ → ConnectionState → Streams → Option Streams
  connection_callback node state s =
      let websocket = env.request_module s.events in
      let begun = requested websocket ∷ s.events in
      do
        e ← entry_at node s.requested_node
        if websocket == null then some (with_events s begun) else do
          events ← on_state websocket e.payload state begun
          some (with_events s (released websocket ∷ events))
