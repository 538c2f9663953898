-- ===== src/Cloud/Devices.antt =====
-- artik_cloud.c: the operations on a device, with their URLs and bodies. An argument
-- that is NULL is none; an `int` stands as its 32-bit pattern, and `ssl_config` is the caller's
-- pointer.
use testing.Base.{ℕ, codes, Bool, Option, none, some, List, [], ◌∷◌, ◌>>=◌}
use testing.Cloud.{
  get, put, del, HttpRequest, Event, Outcome, Environment, url_of, perform, flag, with_token,
  post_body,
}

abbrev url_get_device : List ℕ
url_get_device = codes "https://api.artik.cloud/v1.1/devices/%s?properties=%s"

abbrev url_delete_device : List ℕ
url_delete_device = codes "https://api.artik.cloud/v1.1/devices/%s"

abbrev url_add_device : List ℕ
url_add_device = codes "https://api.artik.cloud/v1.1/devices"

abbrev url_device_tokens : List ℕ
url_device_tokens = codes "https://api.artik.cloud/v1.1/devices/%s/tokens"

abbrev pub add_device_body : List ℕ
add_device_body =
    codes
      "{\"uid\": \"%s\", \"dtid\": \"%s\",\"name\": \"%s\", \"manifestVersionPolicy\": \"LATEST\"}"

module _ (env : Environment) where
  unfoldable pub get_device :
      Option (List ℕ) → Option (List ℕ) → Bool → ℕ → List (Event HttpRequest) → Option Outcome
  get_device access_token device_id properties ssl_config = perform env do
    token ← access_token
    device ← device_id
    some (
        with_token get (url_of url_get_device (device ∷ flag properties ∷ [])) token none
          ssl_config)

  unfoldable pub get_device_token :
      Option (List ℕ) → Option (List ℕ) → ℕ → List (Event HttpRequest) → Option Outcome
  get_device_token access_token device_id ssl_config = perform env do
    token ← access_token
    device ← device_id
    some (with_token get (url_of url_device_tokens (device ∷ [])) token none ssl_config)

  unfoldable pub add_device :
      Option (List ℕ)
      → Option (List ℕ)
      → Option (List ℕ)
      → Option (List ℕ)
      → ℕ
      → List (Event HttpRequest)
      → Option Outcome
  add_device access_token user_id dt_id name ssl_config = perform env do
    token ← access_token
    user ← user_id
    dt ← dt_id
    label ← name
    some (post_body url_add_device token add_device_body (user ∷ dt ∷ label ∷ []) ssl_config)

  unfoldable pub update_device_token :
      Option (List ℕ) → Option (List ℕ) → ℕ → List (Event HttpRequest) → Option Outcome
  update_device_token access_token device_id ssl_config = perform env do
    token ← access_token
    device ← device_id
    some (
        with_token put (url_of url_device_tokens (device ∷ [])) token (some (codes "{}"))
          ssl_config)

  unfoldable pub delete_device_token :
      Option (List ℕ) → Option (List ℕ) → ℕ → List (Event HttpRequest) → Option Outcome
  delete_device_token access_token device_id ssl_config = perform env do
    token ← access_token
    device ← device_id
    some (with_token del (url_of url_device_tokens (device ∷ [])) token none ssl_config)

  unfoldable pub delete_device :
      Option (List ℕ) → Option (List ℕ) → ℕ → List (Event HttpRequest) → Option Outcome
  delete_device access_token device_id ssl_config = perform env do
    token ← access_token
    device ← device_id
    some (with_token del (url_of url_delete_device (device ∷ [])) token none ssl_config)
