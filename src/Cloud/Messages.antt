-- ===== src/Cloud/Messages.antt =====
-- artik_cloud.c: messages and actions, over the REST service. An argument
-- that is NULL is none; an `int` stands as its 32-bit pattern, and `ssl_config` is the caller's
-- pointer.
use testing.Base.{ℕ, codes, Option, some, List, [], ◌∷◌, ◌>>=◌}
use testing.Cloud.{HttpRequest, Event, Outcome, Environment, perform, post_body}

abbrev url_messages : List ℕ
url_messages = codes "https://api.artik.cloud/v1.1/messages"

abbrev pub message_body : List ℕ
message_body = codes "{\"type\": \"message\",\"sdid\": \"%s\",\"data\": %s}"

abbrev pub action_body : List ℕ
action_body = codes "{\"type\": \"action\",\"ddid\": \"%s\",\"data\": %s}"

module _ (env : Environment) where
  unfoldable pub send_message :
      Option (List ℕ)
      → Option (List ℕ)
      → Option (List ℕ)
      → ℕ
      → List (Event HttpRequest)
      → Option Outcome
  send_message access_token device_id message ssl_config = perform env do
    token ← access_token
    device ← device_id
    text ← message
    some (post_body url_messages token message_body (device ∷ text ∷ []) ssl_config)

  unfoldable pub send_action :
      Option (List ℕ)
      → Option (List ℕ)
      → Option (List ℕ)
      → ℕ
      → List (Event HttpRequest)
      → Option Outcome
  send_action access_token device_id action ssl_config = perform env do
    token ← access_token
    device ← device_id
    text ← action
    some (post_body url_messages token action_body (device ∷ text ∷ []) ssl_config)
