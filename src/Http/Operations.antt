-- ===== src/Http/Operations.antt =====
-- linux_http.c: its operations. A NULL pointer for the response, or for the function of a stream, is
-- false. The headers are [] where there are none, and the status is what is written where the caller
-- has a place for it.
use testing.Base.{
  ℕ, codes, Bool, true, false, not, Option, none, some, List, [], ◌∷◌, ◌++◌, if◌then◌else◌, ◌>>=◌,
  ArtikError, s_ok, e_bad_args, e_not_supported, e_http_error,
}
use testing.Http.{
  HttpSsl, Resource, lock, curl_global, curl, header_list, cert, key, sec_handle, security,
  HttpEvent, taken, given_back, Setting, http_header, url_to, custom_request, post_fields,
  post_method, follow_location, to_response, to_stream, verify_peer, verify_host, pem_certificates,
  no_ca_path, no_ca_info, ssl_context, Library, HttpOutcome, build_headers, Prepared, prepare,
}
use testing.Http.Response.{receive}

abbrev pub header_settings : List (List ℕ × List ℕ) → List (List ℕ) → List Setting
header_settings [] lines = []
header_settings (field ∷ fields) lines = http_header lines ∷ []

abbrev pub verify_settings : Option HttpSsl → List Setting
verify_settings none = verify_peer false ∷ verify_host 0 ∷ []
verify_settings (some ssl) =
    if ssl.required
    then verify_peer true ∷ verify_host 2 ∷ pem_certificates ∷ no_ca_path ∷ no_ca_info ∷ []
    else verify_peer false ∷ verify_host 0 ∷ []

abbrev pub context_settings : Option HttpSsl → List Setting
context_settings none = []
context_settings (some ssl) = ssl_context ssl ∷ []

abbrev pub body_settings : Option (List ℕ) → List Setting
body_settings none = []
body_settings (some body) = post_fields body ∷ []

-- What the write function leaves in `*response`.
abbrev pub collected : Library → Setting → List (List ℕ) → Option (List ℕ)
collected lib to_response chunks = receive lib.memory 0 chunks none
collected lib _ chunks = none

abbrev pub give_if : Bool → Resource → List HttpEvent → List HttpEvent
give_if true r events = given_back r ∷ events
give_if false r events = events

abbrev pub is_list : List (List ℕ) → Bool
is_list [] = false
is_list (line ∷ lines) = true

-- From `exit:` on.
abbrev pub cleanup : List (List ℕ) → Prepared → List HttpEvent
cleanup lines p = give_if p.has_module security (
    give_if p.has_handle sec_handle (
      give_if p.has_key key (
        give_if p.has_cert cert (
          give_if (is_list lines) header_list
            (given_back lock ∷ given_back curl_global ∷ given_back curl ∷ p.events)))))

-- curl_easy_perform, or the jump to `exit:` before it, where the response code is still 0, and the
-- cleanup.
unfoldable pub finish :
    Library → Setting → List (List ℕ) → List Setting → Option (List ℕ) → Prepared → HttpOutcome
finish lib sink lines settings body p =
    let all = settings ++ (context_settings p.ssl ++ body_settings body) in
    let transfer = lib.perform all in
    if p.ready
    then record {
      result = if transfer.ok then s_ok else e_http_error;
      response = collected lib sink transfer.chunks;
      status = some transfer.status;
      ssl = p.ssl;
      settings = some all;
      events = cleanup lines p;
    }
    else record {
      result = e_http_error;
      response = none;
      status = some 0;
      ssl = p.ssl;
      settings = none;
      events = cleanup lines p;
    }

-- The arguments are checked: an error before libcurl is there.
abbrev pub failed : ArtikError → Option HttpSsl → List HttpEvent → HttpOutcome
failed e ssl events = record {
  result = e;
  response = none;
  status = none;
  ssl = ssl;
  settings = none;
  events = events;
}

-- With a handle of libcurl: the options, the transfer, and the cleanup.
unfoldable pub connect :
    Library
    → List Setting
    → Setting
    → Option (List ℕ)
    → List ℕ
    → List (List ℕ × List ℕ)
    → Option HttpSsl
    → List HttpEvent
    → Option HttpOutcome
connect lib method sink body url headers ssl events = do
  built ← build_headers lib 0 headers [] events
  p ← prepare lib ssl built.1
  let settings =
      header_settings headers built.0
      ++ ((url_to url ∷ method) ++ (follow_location ∷ sink ∷ verify_settings ssl))
  some (finish lib sink built.0 settings body p)

-- What the operations have in common: they differ in the options for the method, the write function
-- and the body.
unfoldable pub request :
    Library
    → List Setting
    → Setting
    → Option (List ℕ)
    → Option (List ℕ)
    → Bool
    → List (List ℕ × List ℕ)
    → Option HttpSsl
    → List HttpEvent
    → Option HttpOutcome
request lib method sink body none out headers ssl events = some (failed e_bad_args ssl events)
request lib method sink body (some url) out headers ssl events =
    let begun = taken curl_global ∷ taken lock ∷ events in
    if not out
    then some (failed e_bad_args ssl events)
    else if not lib.easy_init
    then some (failed e_not_supported ssl (given_back lock ∷ given_back curl_global ∷ begun))
    else connect lib method sink body url headers ssl (taken curl ∷ begun)

module _ (lib : Library) where
  unfoldable pub os_http_get_stream :
      Option (List ℕ)
      → List (List ℕ × List ℕ)
      → Bool
      → Option HttpSsl
      → List HttpEvent
      → Option HttpOutcome
  os_http_get_stream url headers callback = request lib [] to_stream none url callback headers

  unfoldable pub os_http_get :
      Option (List ℕ)
      → List (List ℕ × List ℕ)
      → Bool
      → Option HttpSsl
      → List HttpEvent
      → Option HttpOutcome
  os_http_get url headers response = request lib [] to_response none url response headers

  unfoldable pub os_http_post :
      Option (List ℕ)
      → List (List ℕ × List ℕ)
      → Option (List ℕ)
      → Bool
      → Option HttpSsl
      → List HttpEvent
      → Option HttpOutcome
  os_http_post url headers body response =
      request lib (post_method ∷ []) to_response body url response headers

  unfoldable pub os_http_put :
      Option (List ℕ)
      → List (List ℕ × List ℕ)
      → Option (List ℕ)
      → Bool
      → Option HttpSsl
      → List HttpEvent
      → Option HttpOutcome
  os_http_put url headers body response =
      request lib (custom_request (codes "PUT") ∷ []) to_response body url response headers

  unfoldable pub os_http_delete :
      Option (List ℕ)
      → List (List ℕ × List ℕ)
      → Bool
      → Option HttpSsl
      → List HttpEvent
      → Option HttpOutcome
  os_http_delete url headers response =
      request lib (custom_request (codes "DELETE") ∷ []) to_response none url response headers
