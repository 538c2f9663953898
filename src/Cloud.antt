-- ===== src/Cloud.antt =====
-- src/modules/connectivity/cloud/artik_cloud.c: the requests to the cloud's REST service, and what
-- every operation does around them. The module manager and the HTTP module are code that this file
-- calls: `request_module` is the pointer that artik_request_api_module("http") returns, `answer` the
-- reply of the module's function to a request, and `memory` tells whether `malloc` has a block of so
-- many bytes. They see what has happened before.
pub mod Users
pub mod Devices
pub mod Messages
pub mod Registration
pub mod Calls
pub mod Matches
pub mod Planned
pub mod Laws
pub mod Stream
pub mod Served
mod Examples
use testing.Base.{
  ℕ, ◌+◌, ◌-◌, ◌%◌, ◌^◌, codes, Bool, true, not, ◌||◌, Option, none, some, List, [], ◌∷◌, ◌==◌, ltb,
  if◌then◌else◌, length, total, printed, format, ArtikError, s_ok, e_bad_args, e_no_mem, e_busy,
  e_http_error, is_ok,
}

-- The function of the HTTP module.
pub data Method : Type 0 where
  get post put del : Method

-- The caller's pointer, or the configuration with ARTIK_SSL_VERIFY_NONE and the Secure Element.
pub data SslConfig : Type 0 where
  of_caller : ℕ → SslConfig
  secure_element : SslConfig

pub record HttpRequest : Type 0 where
  pub method : Method
  pub url : List ℕ
  pub headers : List (List ℕ × List ℕ)
  pub body : Option (List ℕ)
  pub ssl_config : SslConfig

pub record Reply : Type 0 where
  pub ret : ArtikError
  pub status : ℕ

-- `C` is the calls of the requested module.
pub data Event (C : Type 0) : Type 0 where
  requested released : ℕ → Event C
  called : C → Event C

pub record Outcome : Type 0 where
  pub result : ArtikError
  -- Newest first.
  pub events : List (Event HttpRequest)

pub record Environment : Type 0 where
  pub request_module : List (Event HttpRequest) → ℕ
  pub answer : List (Event HttpRequest) → HttpRequest → Reply
  pub memory : ℕ → Bool

-- What an operation sends once its arguments are there, the size that it asks `malloc` for, if it
-- does, and what it returns for an HTTP status.
pub record Plan : Type 0 where
  pub request : HttpRequest
  pub body_len : Option ℕ
  pub of_status : ℕ → ArtikError

abbrev pub token_max : ℕ
token_max = 128

abbrev pub url_max : ℕ
url_max = 256

-- NULL and INVALID_MODULE have no functions.
unfoldable pub callable : ℕ → Bool
callable http = not (http == 0 || http == 2 ^ 64 - 1)

-- snprintf(bearer, ARTIK_CLOUD_TOKEN_MAX, "Bearer %s", access_token), and the header's other field.
unfoldable pub token_headers : List ℕ → List (List ℕ × List ℕ)
token_headers access_token =
    (codes "Authorization", printed token_max (format (codes "Bearer %s") (access_token ∷ [])))
    ∷ (codes "Content-Type", codes "application/json")
    ∷ []

-- snprintf(url, ARTIK_CLOUD_URL_MAX, ...)
unfoldable pub url_of : List ℕ → List (List ℕ) → List ℕ
url_of fmt texts = printed url_max (format fmt texts)

-- body_len = strlen(...) + ... + 1 is an `int`; as an argument of `malloc` and `snprintf` it is
-- converted to a `size_t`.
unfoldable pub body_size : List ℕ → List (List ℕ) → ℕ
body_size fmt texts =
    let body_len = (length fmt + total texts + 1) % 2 ^ 32 in
    if ltb body_len (2 ^ 31) then body_len else body_len + (2 ^ 64 - 2 ^ 32)

-- snprintf(body, body_len, ...)
unfoldable pub body_of : List ℕ → List (List ℕ) → List ℕ
body_of fmt texts = printed (body_size fmt texts) (format fmt texts)

abbrev pub http_status : ℕ → ArtikError
http_status status = if status == 200 then s_ok else e_http_error

abbrev pub registration_status : ℕ → ArtikError
registration_status status =
    if status == 200 then s_ok else if status == 409 then e_busy else e_http_error

abbrev pub flag : Bool → List ℕ
flag b = if b then codes "true" else codes "false"

-- A request with the token and no block for a body.
abbrev pub with_token : Method → List ℕ → List ℕ → Option (List ℕ) → ℕ → Plan
with_token method url access_token body ssl_config = record {
  request = record {
    method = method;
    url = url;
    headers = token_headers access_token;
    body = body;
    ssl_config = of_caller ssl_config;
  };
  body_len = none;
  of_status = http_status;
}

-- A POST with the token, and a body in its own block.
abbrev pub post_body : List ℕ → List ℕ → List ℕ → List (List ℕ) → ℕ → Plan
post_body url access_token fmt texts ssl_config = record {
  request = record {
    method = post;
    url = url;
    headers = token_headers access_token;
    body = some (body_of fmt texts);
    ssl_config = of_caller ssl_config;
  };
  body_len = some (body_size fmt texts);
  of_status = http_status;
}

module _ (env : Environment) where
  abbrev pub block : Option ℕ → Bool
  block none = true
  block (some n) = env.memory n

  -- The call of the HTTP module, the check of its result, and the release.
  unfoldable pub exchange : ℕ → Plan → List (Event HttpRequest) → Option Outcome
  exchange http plan events =
      let reply = env.answer events plan.request in
      if not (callable http)
      then none
      else some record {
        result = if is_ok reply.ret then plan.of_status reply.status else reply.ret;
        events = released http ∷ called plan.request ∷ events;
      }

  -- An operation: the module is requested, then the arguments are checked (the plan is none where
  -- one of them is NULL), and the body's block is allocated. A fault is none.
  unfoldable pub perform : Option Plan → List (Event HttpRequest) → Option Outcome
  perform none events =
      some record { result = e_bad_args; events = requested (env.request_module events) ∷ events }
  perform (some plan) events =
      let http = env.request_module events in
      let begun = requested http ∷ events in
      if block plan.body_len
      then exchange http plan begun
      else some record { result = e_no_mem; events = begun }
