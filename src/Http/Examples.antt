-- ===== src/Http/Examples.antt =====
-- A POST of a few bytes, over a libcurl that answers in two chunks.
use testing.Base.{◌≡◌, refl, codes, true, false, none, some, [], ◌∷◌, inl, arith, s_ok}
use testing.Http.{HttpSsl, taken, header_list, Library, HttpOutcome, has_functions, build_headers}
use testing.Http.Response.{c_string, response_callback, receive}
use testing.Http.Certificates.{OpenSsl, no_objects, ssl_ctx_callback}
use testing.Http.Accepted.{ssl_ctx_callback-accepted}
use testing.Http.Calls.{HttpCall, post, run_http}
use testing.Http.Laws.{Balanced, run_http-Balanced}
use testing.Http.Meant.{asked}
use testing.Http.Answers.{run_http-Answers}

abbrev two_chunks : Library
two_chunks = record {
  easy_init = true;
  line_memory = λ _. true;
  append = λ _. true;
  module_ = 4096;
  request_handle = true;
  certificate = some (codes "c");
  key_from_cert = λ c. some (codes "k");
  cert_copy = true;
  key_copy = true;
  perform = λ s. record { chunks = codes "ab" ∷ codes "cd" ∷ []; ok = true; status = 200 };
  memory = λ _. true;
}

abbrev plain : HttpSsl
plain = record {
  use_se = false;
  required = true;
  ca_cert = none;
  client_cert = none;
  client_key = none;
}

abbrev posting : HttpCall
posting = record {
  method = post;
  url = some (codes "u");
  headers = (codes "A", codes "b") ∷ [];
  body = some (codes "{}");
  place = true;
  ssl = some plain;
}

run_http-Balanced_example : Balanced [] (run_http two_chunks posting [])
unfolding has_functions
run_http-Balanced_example = run_http-Balanced two_chunks posting [] (λ i. refl) (λ i. refl) refl

run_http-Answers_example :
    (o : HttpOutcome) × (run_http two_chunks posting [] ≡ some o)
    × (o.settings ≡ some (asked posting (codes "u") (some plain)))
    × (o.result ≡ s_ok)
    × (o.status ≡ some 200)
    × (o.response ≡ some (codes "abcd"))
unfolding has_functions
run_http-Answers_example =
    run_http-Answers two_chunks posting (codes "u") (some plain) [] refl refl refl (λ i. refl)
      (λ i. refl) refl (inl (refl, refl)) (λ i. refl)
      ((omega arith, (omega arith, tt)), ((omega arith, (omega arith, tt)), tt))

abbrev openssl : OpenSsl
openssl = record {
  parses_cert = λ c. true;
  parses_key = λ k. false;
  writes_key = true;
  has_keystore = true;
  adds_cert = true;
  uses_cert = true;
  uses_key = true;
  checks_key = true;
}

abbrev with_key : HttpSsl
with_key = record {
  use_se = false;
  required = true;
  ca_cert = some (codes "c");
  client_cert = some (codes "d");
  client_key = some (codes "k");
}

ssl_ctx_callback-accepted_example :
    ssl_ctx_callback openssl with_key no_objects ≡ some (false, no_objects)
ssl_ctx_callback-accepted_example = ssl_ctx_callback-accepted openssl with_key no_objects refl

-- Two headers that libcurl gets as lines, and a chunk that is cut at its 0.
two_lines :
    build_headers two_chunks 0 ((codes "A", codes "b") ∷ (codes "C", codes "d") ∷ []) [] []
    ≡ some (codes "A: b" ∷ codes "C: d" ∷ [], taken header_list ∷ [])
unfolding build_headers
two_lines = refl

cut : receive (λ i. true) 0 ((97 ∷ 0 ∷ 98 ∷ []) ∷ (99 ∷ []) ∷ []) none ≡ some (codes "ac")
unfolding receive response_callback c_string
cut = refl
