-- ===== src/Cloud/Stream/Calls.antt =====
-- The operations of artik_cloud.c on streams as a client and the websocket module call them, and what
-- each does to the map from the handles to the streams' data.
use testing.Base.{
  ℕ, ◌≡◌, ◌≢◌, true, Option, none, some, List, ◌∷◌, ◌==◌, if◌then◌else◌, ◌>>=◌, ArtikError, is_ok,
  s_ok, ◌&&◌,
}
use testing.ArtikList.Abstract.{Fresh}
use testing.Cloud.{requested, called, callable}
use testing.Cloud.Stream.{
  ConnectionState, StreamSsl, request_stream, RegData, Streams, Websocket, Blocks, stream_uri,
  registering_text, strndup,
}
use testing.Cloud.Stream.Opening.{open_stream}
use testing.Cloud.Stream.Operations.{
  send, set_connection_callback, set_receive_callback, close, connection_callback,
}
use testing.Cloud.Stream.Lists.{Unused}
use testing.Cloud.Stream.Search.{with_callback, map_data}

pub data StreamCall : Type 0 where
  opening : ℕ → Blocks → Option (List ℕ) → Option (List ℕ) → Option StreamSsl → StreamCall
  sending : ℕ → Option (List ℕ) → StreamCall
  -- The handle, the function and its data.
  calling_back receiving : ℕ → ℕ → ℕ → StreamCall
  closing : ℕ → StreamCall
  -- The websocket module's call, with the address of the node.
  changed : ℕ → ConnectionState → StreamCall

-- The result, the handle that was handed out or passed in, and the state.
pub record Done : Type 0 where
  pub result : ArtikError
  pub handle : ℕ
  pub state : Streams

abbrev pub with_handle : ℕ → ArtikError × Streams → Done
with_handle handle (ret, s) = record { result = ret; handle = handle; state = s }

abbrev pub step : Websocket → StreamCall → Streams → Option Done
step env (opening handle blocks token device ssl) s = do
  o ← open_stream env handle blocks token device ssl s
  some record { result = o.result; handle = o.handle; state = o.state }
step env (sending handle message) s = do r ← send env handle message s; some (with_handle handle r)
step env (calling_back handle callback user_data) s =
    some (with_handle handle (set_connection_callback handle callback user_data s))
step env (receiving handle callback user_data) s = do
  r ← set_receive_callback env handle callback user_data s
  some (with_handle handle r)
step env (closing handle) s = do r ← close env handle s; some (with_handle handle r)
step env (changed node state) s = do
  s' ← connection_callback env node state s
  some record { result = s_ok; handle = node; state = s' }

-- The data of a new stream, with the caller's texts.
abbrev pub registered : ℕ → Blocks → Option (List ℕ) → Option (List ℕ) → Option RegData
registered handle blocks token device = do
  t ← token
  d ← device
  some record {
    handle = handle;
    registration_message = registering_text d t;
    access_token = strndup blocks.token t;
    device_id = strndup blocks.device d;
    callback = 0;
    callback_data = 0;
  }

-- What a call is meant to do to the map, by its result and handle.
abbrev pub effect : StreamCall → ArtikError → ℕ → (ℕ → Option RegData) → ℕ → Option RegData
effect (opening _ blocks token device ssl) ret handle streams k =
    if is_ok ret && handle == k then registered handle blocks token device else streams k
effect (calling_back handle callback user_data) ret _ streams k =
    if handle == k then map_data (with_callback callback user_data) (streams k) else streams k
effect (closing handle) ret _ streams k = if handle == k then none else streams k
effect _ ret _ streams k = streams k

-- The block of a new node is at the address of no other, and its handle is not NULL, and no other's.
abbrev pub New : Websocket → StreamCall → Streams → Type 0
New env (opening _ blocks token device (some ssl)) s =
    let asked =
      called (request_stream (stream_uri ssl) ssl)
      ∷ requested (env.request_module s.events)
      ∷ s.events in
    Fresh blocks.node s.requested_node
    × (env.handle_of asked ≢ 0)
    × Unused (env.handle_of asked) s.requested_node
New env _ s = Unit

-- And the websocket module is at hand.
abbrev pub Allowed : Websocket → StreamCall → Streams → Type 0
Allowed env call s = (callable (env.request_module s.events) ≡ true) × New env call s
