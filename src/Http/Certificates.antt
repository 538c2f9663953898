-- ===== src/Http/Certificates.antt =====
-- linux_http.c: ssl_ctx_callback, which hands the certificates and the key to OpenSSL. What OpenSSL
-- returns is a record; the counts tell how many of its objects are allocated, and a free without one
-- is a fault.
use testing.Base.{
  ℕ, zero, suc, Bool, true, false, not, ◌&&◌, Option, none, some, List, [], ◌∷◌, if◌then◌else◌,
  ◌>>=◌,
}
use testing.Http.{HttpSsl}

pub data SslObject : Type 0 where
  bio x509 pkey : SslObject

pub record Objects : Type 0 where
  pub bios : ℕ
  pub certs : ℕ
  pub keys : ℕ

-- The functions of OpenSSL, by what they are called with: true for a success.
pub record OpenSsl : Type 0 where
  pub parses_cert : List ℕ → Bool
  pub parses_key : List ℕ → Bool
  pub writes_key : Bool
  pub has_keystore : Bool
  pub adds_cert : Bool
  pub uses_cert : Bool
  pub uses_key : Bool
  pub checks_key : Bool

abbrev pub no_objects : Objects
no_objects = record { bios = 0; certs = 0; keys = 0 }

abbrev pub allocate : SslObject → Objects → Objects
allocate bio o = record o { bios = suc o.bios }
allocate x509 o = record o { certs = suc o.certs }
allocate pkey o = record o { keys = suc o.keys }

abbrev pub less_one : ℕ → Option ℕ
less_one zero = none
less_one (suc n) = some n

abbrev pub free : SslObject → Objects → Option Objects
free bio o = do n ← less_one o.bios; some record o { bios = n }
free x509 o = do n ← less_one o.certs; some record o { certs = n }
free pkey o = do n ← less_one o.keys; some record o { keys = n }

-- What stands when a stage is over: whether it goes on, with CURLE_OK, and the certificate and the key
-- that `exit:` frees.
pub record Stage : Type 0 where
  pub ok : Bool
  pub has_cert : Bool
  pub has_pk : Bool
  pub objects : Objects

abbrev pub stage : Bool → Bool → Bool → Objects → Option Stage
stage ok has_cert has_pk objects =
    some record { ok = ok; has_cert = has_cert; has_pk = has_pk; objects = objects }

-- Data with a length.
abbrev pub present : Option (List ℕ) → Bool
present none = false
present (some []) = false
present (some (c ∷ s)) = true

abbrev pub bytes : Option (List ℕ) → List ℕ
bytes none = []
bytes (some s) = s

-- The certificate goes into the keystore. Without one, the BIO is freed a second time.
abbrev pub kept_cert : Bool → Bool → Objects → Option Stage
kept_cert false added a = do b ← free bio a; stage false true false b
kept_cert true false a = stage false true false a
kept_cert true true a = do b ← free x509 a; stage true false false b

-- The CA certificate.
unfoldable pub ca_stage : OpenSsl → HttpSsl → Objects → Option Stage
ca_stage lib ssl objects =
    let read = allocate bio objects in
    if not (present ssl.ca_cert && ssl.required)
    then stage true false false objects
    else if not (lib.parses_cert (bytes ssl.ca_cert))
    then (do a ← free bio read; stage false false false a)
    else do a ← free bio (allocate x509 read); kept_cert lib.has_keystore lib.adds_cert a

unfoldable pub cert_stage : OpenSsl → HttpSsl → Objects → Option Stage
cert_stage lib ssl objects =
    let read = allocate bio objects in
    if not (present ssl.client_cert)
    then stage true false false objects
    else if not (lib.parses_cert (bytes ssl.client_cert))
    then (do a ← free bio read; stage false false false a)
    else do a ← free bio (allocate x509 read); stage lib.uses_cert true false a

unfoldable pub key_stage : OpenSsl → HttpSsl → Bool → Objects → Option Stage
key_stage lib ssl has_cert objects =
    let read = allocate bio objects in
    if not (present ssl.client_key)
    then stage true has_cert false objects
    else if not (lib.writes_key && lib.parses_key (bytes ssl.client_key))
    then (do a ← free bio read; stage false has_cert false a)
    else do
      a ← free bio (allocate pkey read)
      stage (lib.uses_key && lib.checks_key) has_cert true a

-- From `exit:` on: true is CURLE_OK, false CURLE_SSL_CERTPROBLEM.
unfoldable pub leave : Stage → Option (Bool × Objects)
leave s = do
  a ← if s.has_pk then free pkey s.objects else some s.objects
  b ← if s.has_cert then free x509 a else some a
  some (s.ok, b)

unfoldable pub ssl_ctx_callback : OpenSsl → HttpSsl → Objects → Option (Bool × Objects)
ssl_ctx_callback lib ssl objects = do
  ca ← ca_stage lib ssl objects
  if not ca.ok then leave ca else do
    cert ← cert_stage lib ssl ca.objects
    if not cert.ok
        then leave cert
        else do key ← key_stage lib ssl cert.has_cert cert.objects; leave key
