-- ===== src/Cloud/Stream.antt =====
-- artik_cloud.c: the streams over the websocket module, and the list of their nodes. The list is the
-- abstract one of ArtikList, and `m` is what `malloc` returned for a node. The module manager and
-- the websocket module are code that this file calls: the record has what they return, once the call
-- stands in front of the events. Giving back the texts of a node is no event.

pub mod Opening
pub mod Operations
pub mod Lists
pub mod Search
pub mod Calls
pub mod Steps
pub mod Effects
pub mod Laws
pub mod Sending
pub mod Ends
use testing.Base.{
  ℕ, ◌+◌, codes, Bool, true, false, Option, none, some, List, [], ◌∷◌, ◌++◌, ◌==◌, if◌then◌else◌,
  ◌>>=◌, not, ◌&&◌, printed, format, decimal, length, ArtikError, s_ok, e_bad_args, e_no_mem,
  e_not_supported, is_ok,
}
use testing.ArtikList.{Entry, null, new_entry}
use testing.ArtikList.Abstract.{find, remove}
use testing.Systemio.Nodes.{by_handle, entry_at, modify}
use testing.Cloud.{Event, requested, released, called, callable}

pub data ConnectionState : Type 0 where
  closed connected handshake_error other : ConnectionState

-- artik_ssl_config: `others` stands for its other fields.
pub record StreamSsl : Type 0 where
  pub use_se : Bool
  pub others : ℕ

-- The calls of the websocket module, and of the caller's function.
pub data SocketCall : Type 0 where
  request_stream : List ℕ → StreamSsl → SocketCall
  open_socket close_socket : ℕ → SocketCall
  write_stream : ℕ → List ℕ → SocketCall
  -- The handle, and the address of the node with the data.
  on_connection : ℕ → ℕ → SocketCall
  -- The handle, the function and its data.
  on_receive : ℕ → ℕ → ℕ → SocketCall
  notified : ℕ → ℕ → ConnectionState → SocketCall

-- artik_cloud_reg_data. A text that is NULL is none.
pub record RegData : Type 0 where
  pub handle : ℕ
  pub registration_message : List ℕ
  pub access_token : Option (List ℕ)
  pub device_id : Option (List ℕ)
  pub callback : ℕ
  pub callback_data : ℕ

pub record Streams : Type 0 where
  pub requested_node : List (ℕ × Entry RegData)
  -- Newest first.
  pub events : List (Event SocketCall)

pub record Websocket : Type 0 where
  pub request_module : List (Event SocketCall) → ℕ
  pub returns : List (Event SocketCall) → ArtikError
  -- What websocket_request leaves in `*handle`.
  pub handle_of : List (Event SocketCall) → ℕ

-- The result, `*handle` and the state.
pub record Opened : Type 0 where
  pub result : ArtikError
  pub handle : ℕ
  pub state : Streams

-- The blocks of an opening: for the URI, the node, and the two texts.
pub record Blocks : Type 0 where
  pub uri : Bool
  pub node : ℕ
  pub token : Bool
  pub device : Bool

abbrev pub str_max : ℕ
str_max = 1024

-- sizeof(cloud_node)
abbrev pub sizeof_node : ℕ
sizeof_node = 1104

abbrev pub blank : RegData
blank = record {
  handle = null;
  registration_message = [];
  access_token = none;
  device_id = none;
  callback = null;
  callback_data = null;
}

abbrev pub stream_host : StreamSsl → List ℕ
stream_host ssl = if ssl.use_se then codes "s-api.artik.cloud" else codes "api.artik.cloud"

abbrev pub stream_path : List ℕ
stream_path = codes "/v1.1/websocket?ack=true"

abbrev pub stream_uri : StreamSsl → List ℕ
stream_uri ssl =
    let host = stream_host ssl in
    let port = printed 4 (decimal 443) in
    let len = 6 + length host + 1 + length port + length stream_path + 1 in
    printed len (format (codes "wss://%s:%s%s") (host ∷ port ∷ stream_path ∷ []))

abbrev pub registering_text : List ℕ → List ℕ → List ℕ
registering_text device_id access_token = printed str_max (
    format (codes "{\"sdid\":\"%s\",\"Authorization\":\"bearer %s\",\"type\":\"%s\"}")
      (device_id ∷ access_token ∷ codes "register" ∷ []))

abbrev pub sent_text : List ℕ → List ℕ → List ℕ
sent_text device_id message = printed str_max (
    format (codes "{\"sdid\":\"%s\",\"type\":\"%s\",\"data\":%s}")
      (device_id ∷ codes "message" ∷ message ∷ []))

-- strndup(text, strlen(text))
abbrev pub strndup : Bool → List ℕ → Option (List ℕ)
strndup true text = some text
strndup false text = none

abbrev pub has_handle : ℕ → ℕ → Entry RegData → Bool
has_handle handle _ e = e.handle == handle

abbrev pub with_events : Streams → List (Event SocketCall) → Streams
with_events s events = record s { events = events }

abbrev pub filled : ℕ → List ℕ → Blocks → List ℕ → List ℕ → RegData
filled handle text blocks access_token device_id = record {
  handle = handle;
  registration_message = text;
  access_token = strndup blocks.token access_token;
  device_id = strndup blocks.device device_id;
  callback = null;
  callback_data = null;
}

-- artik_list_delete_handle.
unfoldable pub delete_handle : ℕ → List (ℕ × Entry RegData) → ArtikError × List (ℕ × Entry RegData)
delete_handle handle xs =
    if handle == null
    then (e_bad_args, xs)
    else if find (has_handle handle) xs == null
    then (e_bad_args, xs)
    else (s_ok, remove (has_handle handle) xs)

abbrev pub linked : ℕ → ℕ → RegData → List (ℕ × Entry RegData) → List (ℕ × Entry RegData)
linked m handle d xs = xs ++ (m, new_entry d handle sizeof_node m) ∷ []
