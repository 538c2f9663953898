-- ===== src/Http/Meant.antt =====
-- The options that a call of the HTTP module is meant to set, apart from what the code computes
-- (linux_http.c).
use testing.Base.{
  ℕ, ◌≡◌, ◌∙◌, refl, ap, Bool, true, false, Option, none, some, List, [], ◌∷◌, ◌++◌, if◌then◌else◌,
}
use testing.Http.{
  HttpSsl, Setting, url_to, follow_location, http_header, verify_peer, verify_host,
  pem_certificates, no_ca_path, no_ca_info, ssl_context, post_fields,
}
use testing.Http.Operations.{header_settings, verify_settings, context_settings, body_settings}
use testing.Http.Balance.{lines_of}
use testing.Http.Calls.{HttpCall, method_settings, sink_of, body_for}

-- The headers, as one list, where there are any.
abbrev pub wanted_headers : List (List ℕ) → List Setting
wanted_headers [] = []
wanted_headers (line ∷ lines) = http_header (line ∷ lines) ∷ []

abbrev pub is_required : Option HttpSsl → Bool
is_required none = false
is_required (some ssl) = ssl.required

-- A peer that has to be verified is verified, with its name, against the certificate that the
-- callback installs and no other; any other peer is not verified.
abbrev pub wanted_checks : Bool → List Setting
wanted_checks true =
    verify_peer true ∷ verify_host 2 ∷ pem_certificates ∷ no_ca_path ∷ no_ca_info ∷ []
wanted_checks false = verify_peer false ∷ verify_host 0 ∷ []

-- With a configuration, the callback for OpenSSL's context is installed with it.
abbrev pub wanted_context : Option HttpSsl → List Setting
wanted_context none = []
wanted_context (some ssl) = ssl_context ssl ∷ []

abbrev pub wanted_body : Option (List ℕ) → List Setting
wanted_body none = []
wanted_body (some text) = post_fields text ∷ []

-- The options that a call is meant to set.
abbrev pub asked : HttpCall → List ℕ → Option HttpSsl → List Setting
asked call url used =
    (wanted_headers (lines_of call.headers)
      ++ ((url_to url ∷ method_settings call.method)
          ++ (follow_location ∷ sink_of call.method ∷ wanted_checks (is_required call.ssl))))
    ++ (wanted_context used ++ wanted_body (body_for call.method call.body))

header_settings_lem :
    (fields : List (List ℕ × List ℕ))
    → header_settings fields (lines_of fields) ≡ wanted_headers (lines_of fields)
header_settings_lem [] = refl
header_settings_lem ((name, value) ∷ fields) = refl

verify_settings_lem : (ssl : Option HttpSsl) → verify_settings ssl ≡ wanted_checks (is_required ssl)
verify_settings_lem none = refl
verify_settings_lem (some ssl) = by_test ssl.required
  where
    by_test : (b : Bool) → (if b then wanted_checks true else wanted_checks false) ≡ wanted_checks b
    by_test true = refl
    by_test false = refl

context_settings_lem : (ssl : Option HttpSsl) → context_settings ssl ≡ wanted_context ssl
context_settings_lem none = refl
context_settings_lem (some ssl) = refl

body_settings_lem : (body : Option (List ℕ)) → body_settings body ≡ wanted_body body
body_settings_lem none = refl
body_settings_lem (some text) = refl

-- What the operations set are the options that are meant.
pub settings-asked :
    (call : HttpCall) (url : List ℕ) (used : Option HttpSsl)
    → (header_settings call.headers (lines_of call.headers)
          ++ ((url_to url ∷ method_settings call.method)
              ++ (follow_location ∷ sink_of call.method ∷ verify_settings call.ssl)))
        ++ (context_settings used ++ body_settings (body_for call.method call.body))
      ≡ asked call url used
settings-asked call url used =
    ap
      (λ (l : List Setting).
        (l
          ++ ((url_to url ∷ method_settings call.method)
              ++ (follow_location ∷ sink_of call.method ∷ verify_settings call.ssl)))
        ++ (context_settings used ++ body_settings (body_for call.method call.body)))
      (header_settings_lem call.headers)
    ∙ ap
        (λ (l : List Setting).
          (wanted_headers (lines_of call.headers)
            ++ ((url_to url ∷ method_settings call.method)
                ++ (follow_location ∷ sink_of call.method ∷ l)))
          ++ (context_settings used ++ body_settings (body_for call.method call.body)))
        (verify_settings_lem call.ssl)
    ∙ ap
        (λ (l : List Setting).
          (wanted_headers (lines_of call.headers)
            ++ ((url_to url ∷ method_settings call.method)
                ++ (follow_location ∷ sink_of call.method ∷ wanted_checks (is_required call.ssl))))
          ++ l)
        (ap (λ (l : List Setting). l ++ body_settings (body_for call.method call.body))
            (context_settings_lem used)
          ∙ ap (λ (l : List Setting). wanted_context used ++ l)
              (body_settings_lem (body_for call.method call.body)))
