-- ===== src/Cloud/Stream/Opening.antt =====
-- artik_cloud.c: websocket_open_stream.
use testing.Base.{
  ℕ, Option, none, some, List, ◌∷◌, ◌==◌, if◌then◌else◌, ◌>>=◌, not, ◌&&◌, s_ok, e_no_mem,
  e_not_supported, is_ok,
}
use testing.ArtikList.{null}
use testing.Cloud.{Event, requested, released, called, callable}
use testing.Cloud.Stream.{
  StreamSsl, SocketCall, request_stream, open_socket, on_connection, Streams, Websocket, Opened,
  Blocks, stream_uri, registering_text, with_events, filled, delete_handle, linked,
}

module _ (env : Websocket) where
  -- The node with its callback: what follows artik_list_add.
  abbrev pub register :
      ℕ → ℕ → Blocks → List ℕ → List ℕ → Streams → List (Event SocketCall) → Opened
  register websocket handle blocks access_token device_id s events =
      let d =
        filled handle (registering_text device_id access_token) blocks access_token device_id in
      let nodes = linked blocks.node handle d s.requested_node in
      let asked = called (on_connection handle blocks.node) ∷ events in
      if is_ok (env.returns asked)
      then record {
        result = s_ok;
        handle = handle;
        state = record { requested_node = nodes; events = released websocket ∷ asked };
      }
      else record {
        result = env.returns asked;
        handle = handle;
        state = record {
          requested_node = (delete_handle handle nodes).1;
          events = released websocket ∷ asked;
        };
      }

  -- From websocket_open_stream(*handle) on. The length of a NULL text is a fault.
  abbrev pub open_and_register :
      ℕ
      → ℕ
      → Blocks
      → Option (List ℕ)
      → Option (List ℕ)
      → Streams
      → List (Event SocketCall)
      → Option Opened
  open_and_register websocket handle blocks access_token device_id s events =
      let opened = called (open_socket handle) ∷ events in
      if not (is_ok (env.returns opened))
      then some record {
        result = env.returns opened;
        handle = handle;
        state = with_events s (released websocket ∷ opened);
      }
      else if blocks.node == null
      then some record { result = e_no_mem; handle = handle; state = with_events s opened }
      else do
        token ← access_token
        device ← device_id
        some (register websocket handle blocks token device s opened)

  abbrev pub request_and_open :
      ℕ
      → Blocks
      → Option (List ℕ)
      → Option (List ℕ)
      → StreamSsl
      → Streams
      → List (Event SocketCall)
      → Option Opened
  request_and_open websocket blocks access_token device_id ssl s events =
      let asked = called (request_stream (stream_uri ssl) ssl) ∷ events in
      let handle = env.handle_of asked in
      if is_ok (env.returns asked)
      then open_and_register websocket handle blocks access_token device_id s asked
      else some record {
        result = env.returns asked;
        handle = handle;
        state = with_events s (released websocket ∷ asked);
      }

  -- A NULL `ssl_config` is read, and a URI without a block is written: both are faults.
  unfoldable pub open_stream :
      ℕ → Blocks → Option (List ℕ) → Option (List ℕ) → Option StreamSsl → Streams → Option Opened
  open_stream handle blocks access_token device_id ssl_config s =
      let websocket = env.request_module s.events in
      let begun = requested websocket ∷ s.events in
      do
        ssl ← ssl_config
        if websocket == null
            then some
                record { result = e_not_supported; handle = handle; state = with_events s begun }
            else if not (callable websocket && blocks.uri)
            then none
            else request_and_open websocket blocks access_token device_id ssl s begun
