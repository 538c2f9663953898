-- ===== src/Http.antt =====
-- src/modules/connectivity/http/linux_http.c: the requests over libcurl. What libcurl, the security
-- module, the module manager and `malloc` return in one request is a record of the model; the rest
-- is what the code does with it, with an event for each resource that it takes and gives back.
pub mod Operations
pub mod Response
pub mod Balance
pub mod Calls
pub mod Laws
pub mod Meant
pub mod Answers
pub mod Certificates
pub mod Accepted
mod Examples
use testing.Base.{
  ℕ, suc, ◌+◌, codes, Bool, true, false, not, ◌||◌, ◌&&◌, Option, none, some, List, [], ◌∷◌, ◌++◌,
  ◌==◌, ◌-◌, ◌^◌, if◌then◌else◌, ◌>>=◌, ArtikError, s_ok, e_bad_args, e_not_supported, e_http_error,
}

-- artik_ssl_config. Data that are NULL are none.
pub record HttpSsl : Type 0 where
  pub use_se : Bool
  -- verify_cert is ARTIK_SSL_VERIFY_REQUIRED.
  pub required : Bool
  pub ca_cert : Option (List ℕ)
  pub client_cert : Option (List ℕ)
  pub client_key : Option (List ℕ)

pub data Resource : Type 0 where
  lock curl_global curl header_list cert key sec_handle security : Resource

pub data HttpEvent : Type 0 where
  taken given_back : Resource → HttpEvent

-- The options that are set on the handle of libcurl.
pub data Setting : Type 0 where
  http_header : List (List ℕ) → Setting
  url_to custom_request post_fields : List ℕ → Setting
  post_method follow_location to_response to_stream : Setting
  verify_peer : Bool → Setting
  verify_host : ℕ → Setting
  pem_certificates no_ca_path no_ca_info : Setting
  ssl_context : HttpSsl → Setting

-- What curl_easy_perform does: the data that it hands to the write function, its result (CURLE_OK or
-- not), and the response code.
pub record Transfer : Type 0 where
  pub chunks : List (List ℕ)
  pub ok : Bool
  pub status : ℕ

pub record Library : Type 0 where
  pub easy_init : Bool
  -- The block for a header's line, and curl_slist_append.
  pub line_memory : ℕ → Bool
  pub append : ℕ → Bool
  -- artik_request_api_module("security")
  pub module_ : ℕ
  pub request_handle : Bool
  pub certificate : Option (List ℕ)
  pub key_from_cert : List ℕ → Option (List ℕ)
  pub cert_copy : Bool
  pub key_copy : Bool
  pub perform : List Setting → Transfer
  -- The block for the response at each chunk.
  pub memory : ℕ → Bool

pub record HttpOutcome : Type 0 where
  pub result : ArtikError
  -- `*response` and `*status`, none where they are not written, or where the response is NULL.
  pub response : Option (List ℕ)
  pub status : Option ℕ
  pub ssl : Option HttpSsl
  -- The options at the time of curl_easy_perform, where it is called.
  pub settings : Option (List Setting)
  -- Newest first.
  pub events : List HttpEvent

-- The security module has functions.
unfoldable pub has_functions : ℕ → Bool
has_functions m = not (m == 0 || m == 2 ^ 64 - 1)

-- The events of an append to a list of lines: its first line makes the list.
abbrev pub started : List (List ℕ) → List HttpEvent → List HttpEvent
started [] events = taken header_list ∷ events
started (line ∷ lines) events = events

-- The loop over the headers: "name: value", and the list so far. A line without a block is a fault;
-- where curl_slist_append fails, the list is lost.
unfoldable pub build_headers :
    Library
    → ℕ
    → List (List ℕ × List ℕ)
    → List (List ℕ)
    → List HttpEvent
    → Option (List (List ℕ) × List HttpEvent)
build_headers lib i [] lines events = some (lines, events)
build_headers lib i ((name, value) ∷ fields) lines events =
    let more =
      build_headers lib (suc i) fields (lines ++ (name ++ (codes ": " ++ value)) ∷ [])
        (started lines events) in
    let lost = build_headers lib (suc i) fields [] events in
    if not (lib.line_memory i) then none else if lib.append i then more else lost

-- What is there after the setup with the Secure Element.
pub record Prepared : Type 0 where
  pub ready : Bool
  pub ssl : Option HttpSsl
  pub has_cert : Bool
  pub has_key : Bool
  pub has_handle : Bool
  pub has_module : Bool
  pub events : List HttpEvent

-- strdup(text)
abbrev pub copy_of : Bool → List ℕ → Option (List ℕ)
copy_of true text = some text
copy_of false text = none

abbrev pub key_step : Library → HttpSsl → List ℕ → List HttpEvent → Option (List ℕ) → Prepared
key_step lib ssl c events none = record {
  ready = false;
  ssl = some record ssl { client_cert = copy_of lib.cert_copy c };
  has_cert = true;
  has_key = false;
  has_handle = true;
  has_module = true;
  events = taken cert ∷ events;
}
key_step lib ssl c events (some k) = record {
  ready = true;
  ssl =
      some
        record ssl { client_cert = copy_of lib.cert_copy c; client_key = copy_of lib.key_copy k };
  has_cert = true;
  has_key = true;
  has_handle = true;
  has_module = true;
  events = taken key ∷ taken cert ∷ events;
}

abbrev pub cert_step : Library → HttpSsl → List HttpEvent → Option (List ℕ) → Prepared
cert_step lib ssl events none = record {
  ready = false;
  ssl = some ssl;
  has_cert = false;
  has_key = false;
  has_handle = true;
  has_module = true;
  events = events;
}
cert_step lib ssl events (some c) = key_step lib ssl c events (lib.key_from_cert c)

-- The certificate and the key of the Secure Element, where they are asked for. A module without
-- functions is called, which is a fault.
unfoldable pub prepare : Library → Option HttpSsl → List HttpEvent → Option Prepared
prepare lib none events = some record {
  ready = true;
  ssl = none;
  has_cert = false;
  has_key = false;
  has_handle = false;
  has_module = false;
  events = events;
}
prepare lib (some ssl) events =
    let held = taken security ∷ events in
    if not ssl.use_se
    then some record {
      ready = true;
      ssl = some ssl;
      has_cert = false;
      has_key = false;
      has_handle = false;
      has_module = false;
      events = events;
    }
    else if not (has_functions lib.module_)
    then none
    else if lib.request_handle
    then some (cert_step lib ssl (taken sec_handle ∷ held) lib.certificate)
    else some record {
      ready = false;
      ssl = some ssl;
      has_cert = false;
      has_key = false;
      has_handle = false;
      has_module = true;
      events = held;
    }
