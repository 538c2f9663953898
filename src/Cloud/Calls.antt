-- ===== src/Cloud/Calls.antt =====
-- The operations of artik_cloud.c on the REST service, as a client calls them, and what each is meant
-- to send.
use testing.Base.{
  ℕ, codes, Bool, true, false, Option, none, some, List, [], ◌∷◌, ◌++◌, ◌>>=◌, signed_decimal,
  ArtikError, s_ok, e_busy, e_http_error, is_ok, ◌==◌, if◌then◌else◌,
}
use testing.Cloud.{
  Method, get, post, put, del, of_caller, secure_element, HttpRequest, Reply, Event, Outcome,
  Environment,
}
use testing.Cloud.Users.{
  get_current_user_profile, get_user_devices, get_user_device_types,
  get_user_application_properties,
}
use testing.Cloud.Devices.{
  get_device, get_device_token, add_device, update_device_token, delete_device_token, delete_device,
}
use testing.Cloud.Messages.{send_message, send_action}
use testing.Cloud.Registration.{
  sdr_start_registration, sdr_registration_status, sdr_complete_registration,
}

-- The arguments stand in the order of the C functions.
pub data Call : Type 0 where
  profile : Option (List ℕ) → ℕ → Call
  user_devices user_device_types : Option (List ℕ) → ℕ → Bool → ℕ → Option (List ℕ) → ℕ → Call
  application_properties message action :
      Option (List ℕ) → Option (List ℕ) → Option (List ℕ) → ℕ → Call
  device : Option (List ℕ) → Option (List ℕ) → Bool → ℕ → Call
  device_token new_token no_token no_device : Option (List ℕ) → Option (List ℕ) → ℕ → Call
  new_device : Option (List ℕ) → Option (List ℕ) → Option (List ℕ) → Option (List ℕ) → ℕ → Call
  registration completion : Option (List ℕ) → Option (List ℕ) → Call
  registration_state : Option (List ℕ) → Call

-- The table `cloud_module`.
abbrev pub run : Environment → Call → List (Event HttpRequest) → Option Outcome
run env (profile t s) = get_current_user_profile env t s
run env (user_devices t n b o u s) = get_user_devices env t n b o u s
run env (user_device_types t n b o u s) = get_user_device_types env t n b o u s
run env (application_properties t u a s) = get_user_application_properties env t u a s
run env (message t d m s) = send_message env t d m s
run env (action t d m s) = send_action env t d m s
run env (device t d b s) = get_device env t d b s
run env (device_token t d s) = get_device_token env t d s
run env (new_token t d s) = update_device_token env t d s
run env (no_token t d s) = delete_device_token env t d s
run env (no_device t d s) = delete_device env t d s
run env (new_device t u d n s) = add_device env t u d n s
run env (registration d v) = sdr_start_registration env d v
run env (completion r n) = sdr_complete_registration env r n
run env (registration_state r) = sdr_registration_status env r

-- The statuses that have a meaning of their own, by call: 200 for a success, and for the start of a
-- registration 409 as well.
abbrev pub statuses : Call → List (ℕ × ArtikError)
statuses (registration d v) = (200, s_ok) ∷ (409, e_busy) ∷ []
statuses _ = (200, s_ok) ∷ []

-- What stands for a status, E_HTTP_ERROR for any other one.
abbrev pub meaning_of : List (ℕ × ArtikError) → ℕ → ArtikError
meaning_of [] status = e_http_error
meaning_of ((n, e) ∷ rest) status = if status == n then e else meaning_of rest status

-- What a call's result is meant to be for a status, and for a reply.
abbrev pub judge : Call → ℕ → ArtikError
judge call = meaning_of (statuses call)

abbrev pub verdict : Call → Reply → ArtikError
verdict call reply = if is_ok reply.ret then judge call reply.status else reply.ret

abbrev pub api : List ℕ → List ℕ
api path = codes "https://api.artik.cloud/v1.1/" ++ path

abbrev pub registrations : List ℕ → List ℕ
registrations path = codes "https://s-api.artik.cloud/v1.1/cert/devices/registrations" ++ path

abbrev pub authorized : Method → List ℕ → List ℕ → Option (List ℕ) → ℕ → HttpRequest
authorized method url token body ssl = record {
  method = method;
  url = url;
  headers =
      (codes "Authorization", codes "Bearer " ++ token)
      ∷ (codes "Content-Type", codes "application/json")
      ∷ [];
  body = body;
  ssl_config = of_caller ssl;
}

abbrev pub json_utf8 : List (List ℕ × List ℕ)
json_utf8 =
    (codes "Accept", codes "application/json")
    ∷ (codes "Content-Type", codes "application/json")
    ∷ (codes "charsets:", codes "utf-8")
    ∷ []

-- A truth value in a query.
abbrev pub truth : Bool → List ℕ
truth true = codes "true"
truth false = codes "false"

abbrev pub paged : List ℕ → List ℕ → ℕ → Bool → ℕ → List ℕ
paged what option n b o =
    what
    ++ (codes "?count="
        ++ (signed_decimal n ++ (option ++ (truth b ++ (codes "&offset=" ++ signed_decimal o)))))

abbrev pub registering : Method → List ℕ → Option (List ℕ) → HttpRequest
registering method url body = record {
  method = method;
  url = url;
  headers = json_utf8;
  body = body;
  ssl_config = secure_element;
}

-- The request that a call is meant to send, with no buffer: none where an argument is missing.
abbrev pub meant : Call → Option HttpRequest
meant (profile token s) = do t ← token; some (authorized get (api (codes "users/self")) t none s)
meant (user_devices token n b o user s) = do
  t ← token
  u ← user
  let path = codes "users/" ++ (u ++ paged (codes "/devices") (codes "&includeProperties=") n b o)
  some (authorized get (api path) t none s)
meant (user_device_types token n b o user s) = do
  t ← token
  u ← user
  let path = codes "users/" ++ (u ++ paged (codes "/devicetypes") (codes "&includeShared=") n b o)
  some (authorized get (api path) t none s)
meant (application_properties token user app s) = do
  t ← token
  u ← user
  a ← app
  some (authorized get (api (codes "users/" ++ (u ++ (codes "/properties?aid=" ++ a)))) t none s)
meant (message token sdid text s) = do
  t ← token
  d ← sdid
  m ← text
  let body =
      codes "{\"type\": \"message\",\"sdid\": \""
      ++ (d ++ (codes "\",\"data\": " ++ (m ++ codes "}")))
  some (authorized post (api (codes "messages")) t (some body) s)
meant (action token ddid text s) = do
  t ← token
  d ← ddid
  m ← text
  let body =
      codes "{\"type\": \"action\",\"ddid\": \""
      ++ (d ++ (codes "\",\"data\": " ++ (m ++ codes "}")))
  some (authorized post (api (codes "messages")) t (some body) s)
meant (device token id b s) = do
  t ← token
  d ← id
  some
      (authorized get (api (codes "devices/" ++ (d ++ (codes "?properties=" ++ truth b)))) t none s)
meant (device_token token id s) = do
  t ← token
  d ← id
  some (authorized get (api (codes "devices/" ++ (d ++ codes "/tokens"))) t none s)
meant (new_token token id s) = do
  t ← token
  d ← id
  some (authorized put (api (codes "devices/" ++ (d ++ codes "/tokens"))) t (some (codes "{}")) s)
meant (no_token token id s) = do
  t ← token
  d ← id
  some (authorized del (api (codes "devices/" ++ (d ++ codes "/tokens"))) t none s)
meant (no_device token id s) = do
  t ← token
  d ← id
  some (authorized del (api (codes "devices/" ++ d)) t none s)
meant (new_device token user type_ name s) = do
  t ← token
  u ← user
  dt ← type_
  n ← name
  let rest = codes "\", \"manifestVersionPolicy\": \"LATEST\"}"
  let body =
      codes "{\"uid\": \""
      ++ (u ++ (codes "\", \"dtid\": \"" ++ (dt ++ (codes "\",\"name\": \"" ++ (n ++ rest)))))
  some (authorized post (api (codes "devices")) t (some body) s)
meant (registration type_ vendor) = do
  d ← type_
  v ← vendor
  let body =
      codes "{\"deviceTypeId\":\""
      ++ (d ++ (codes "\",\"vendorDeviceId\":\"" ++ (v ++ codes "\"}")))
  some (registering post (registrations []) (some body))
meant (completion id nonce) = do
  r ← id
  n ← nonce
  let body = codes "{\"nonce\":\"" ++ (n ++ codes "\"}")
  some (registering put (registrations (codes "/" ++ r)) (some body))
meant (registration_state id) = do
  r ← id
  some record {
    method = get;
    url = registrations (codes "/" ++ (r ++ codes "/status"));
    headers = (codes "Accept", codes "application/json") ∷ [];
    body = none;
    ssl_config = secure_element;
  }
