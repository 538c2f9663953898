-- ===== src/Cloud/Users.antt =====
-- artik_cloud.c: the operations on a user, with their URLs. An argument
-- that is NULL is none; an `int` stands as its 32-bit pattern, and `ssl_config` is the caller's
-- pointer.
use testing.Base.{ℕ, codes, Bool, Option, none, some, List, [], ◌∷◌, ◌>>=◌, signed_decimal}
use testing.Cloud.{get, HttpRequest, Event, Outcome, Environment, url_of, perform, flag, with_token}

abbrev url_self_user : List ℕ
url_self_user = codes "https://api.artik.cloud/v1.1/users/self"

abbrev url_user_devices : List ℕ
url_user_devices =
    codes "https://api.artik.cloud/v1.1/users/%s/devices?count=%d&includeProperties=%s&offset=%d"

abbrev url_user_device_types : List ℕ
url_user_device_types =
    codes "https://api.artik.cloud/v1.1/users/%s/devicetypes?count=%d&includeShared=%s&offset=%d"

abbrev url_user_app_props : List ℕ
url_user_app_props = codes "https://api.artik.cloud/v1.1/users/%s/properties?aid=%s"

module _ (env : Environment) where
  unfoldable pub get_current_user_profile :
      Option (List ℕ) → ℕ → List (Event HttpRequest) → Option Outcome
  get_current_user_profile access_token ssl_config =
      perform env do token ← access_token; some (with_token get url_self_user token none ssl_config)

  unfoldable pub get_user_devices :
      Option (List ℕ)
      → ℕ
      → Bool
      → ℕ
      → Option (List ℕ)
      → ℕ
      → List (Event HttpRequest)
      → Option Outcome
  get_user_devices access_token count properties offset user_id ssl_config = perform env do
    token ← access_token
    user ← user_id
    let url =
        url_of url_user_devices
          (user ∷ signed_decimal count ∷ flag properties ∷ signed_decimal offset ∷ [])
    some (with_token get url token none ssl_config)

  unfoldable pub get_user_device_types :
      Option (List ℕ)
      → ℕ
      → Bool
      → ℕ
      → Option (List ℕ)
      → ℕ
      → List (Event HttpRequest)
      → Option Outcome
  get_user_device_types access_token count shared offset user_id ssl_config = perform env do
    token ← access_token
    user ← user_id
    let url =
        url_of url_user_device_types
          (user ∷ signed_decimal count ∷ flag shared ∷ signed_decimal offset ∷ [])
    some (with_token get url token none ssl_config)

  unfoldable pub get_user_application_properties :
      Option (List ℕ)
      → Option (List ℕ)
      → Option (List ℕ)
      → ℕ
      → List (Event HttpRequest)
      → Option Outcome
  get_user_application_properties access_token user_id app_id ssl_config = perform env do
    token ← access_token
    user ← user_id
    app ← app_id
    some (with_token get (url_of url_user_app_props (user ∷ app ∷ [])) token none ssl_config)
