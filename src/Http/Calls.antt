-- ===== src/Http/Calls.antt =====
-- src/modules/connectivity/http/artik_http.c: the module's functions, and what each is meant to ask
-- libcurl for.
use testing.Base.{ℕ, ◌≡◌, refl, codes, Bool, Option, none, List, [], ◌∷◌}
use testing.Http.{
  HttpSsl, HttpEvent, Setting, custom_request, post_method, to_response, to_stream, Library,
  HttpOutcome,
}
use testing.Http.Operations.{
  os_http_get_stream, os_http_get, os_http_post, os_http_put, os_http_delete, request,
}

pub data HttpMethod : Type 0 where
  get_stream get post put delete : HttpMethod

-- The arguments of a call: `place` tells that the response's pointer, or the stream's function, is
-- not NULL. GET and DELETE have no body.
pub record HttpCall : Type 0 where
  pub method : HttpMethod
  pub url : Option (List ℕ)
  pub headers : List (List ℕ × List ℕ)
  pub body : Option (List ℕ)
  pub place : Bool
  pub ssl : Option HttpSsl

-- The table `http_module`: the function at a method's place.
unfoldable pub http_module : Library → HttpMethod → HttpCall → List HttpEvent → Option HttpOutcome
http_module lib get_stream call = os_http_get_stream lib call.url call.headers call.place call.ssl
http_module lib get call = os_http_get lib call.url call.headers call.place call.ssl
http_module lib post call = os_http_post lib call.url call.headers call.body call.place call.ssl
http_module lib put call = os_http_put lib call.url call.headers call.body call.place call.ssl
http_module lib delete call = os_http_delete lib call.url call.headers call.place call.ssl

abbrev pub run_http : Library → HttpCall → List HttpEvent → Option HttpOutcome
run_http lib call = http_module lib call.method call

-- The options for a method, where the response goes, and the body that is sent.
abbrev pub method_settings : HttpMethod → List Setting
method_settings post = post_method ∷ []
method_settings put = custom_request (codes "PUT") ∷ []
method_settings delete = custom_request (codes "DELETE") ∷ []
method_settings _ = []

abbrev pub sink_of : HttpMethod → Setting
sink_of get_stream = to_stream
sink_of _ = to_response

abbrev pub body_for : HttpMethod → Option (List ℕ) → Option (List ℕ)
body_for post body = body
body_for put body = body
body_for _ body = none

pub http_module-request :
    (lib : Library) (method : HttpMethod) (call : HttpCall) (events : List HttpEvent)
    → http_module lib method call events
      ≡ request lib
          (method_settings method)
          (sink_of method)
          (body_for method call.body)
          call.url
          call.place
          call.headers
          call.ssl
          events
unfolding http_module os_http_get_stream os_http_get os_http_post os_http_put os_http_delete
http_module-request lib get_stream call events = refl
http_module-request lib get call events = refl
http_module-request lib post call events = refl
http_module-request lib put call events = refl
http_module-request lib delete call events = refl
