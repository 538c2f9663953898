-- ===== src/Http/Accepted.antt =====
-- What ssl_ctx_callback (linux_http.c) answers, and what it leaves allocated.
use testing.Base.{
  Bool, true, false, not, ◌&&◌, Option, none, some, if◌then◌else◌, ◌>>=◌, ◌≡◌, refl, Bool-cases,
  inl, inr,
}
use testing.Http.{HttpSsl}
use testing.Http.Certificates.{
  OpenSsl, Objects, x509, allocate, present, bytes, Stage, ca_stage, cert_stage, key_stage, leave,
  ssl_ctx_callback, kept_cert, no_objects,
}

abbrev pub ca_accepted : OpenSsl → HttpSsl → Bool
ca_accepted lib ssl =
    if present ssl.ca_cert && ssl.required
    then lib.parses_cert (bytes ssl.ca_cert) && lib.adds_cert
    else true

abbrev pub cert_accepted : OpenSsl → HttpSsl → Bool
cert_accepted lib ssl =
    if present ssl.client_cert
    then lib.parses_cert (bytes ssl.client_cert) && lib.uses_cert
    else true

abbrev pub key_accepted : OpenSsl → HttpSsl → Bool
key_accepted lib ssl =
    if present ssl.client_key
    then (lib.writes_key && lib.parses_key (bytes ssl.client_key))
      && (lib.uses_key && lib.checks_key)
    else true

abbrev with_cert : Bool → Objects → Objects
with_cert true o = allocate x509 o
with_cert false o = o

key_stage-leave :
    (lib : OpenSsl) (ssl : HttpSsl) (has_cert : Bool) (o : Objects)
    → (key_stage lib ssl has_cert (with_cert has_cert o) >>= leave) ≡ some (key_accepted lib ssl, o)
unfolding key_stage leave
key_stage-leave lib ssl true o = elim (Bool-cases (present ssl.client_key)) [
  | inr missing ↦ rw missing refl
  | inl there ↦ elim (Bool-cases (lib.writes_key && lib.parses_key (bytes ssl.client_key))) [
    | inr refused ↦ rw there (rw refused refl)
    | inl read ↦ rw there (rw read refl)
  ]
]
key_stage-leave lib ssl false o = elim (Bool-cases (present ssl.client_key)) [
  | inr missing ↦ rw missing refl
  | inl there ↦ elim (Bool-cases (lib.writes_key && lib.parses_key (bytes ssl.client_key))) [
    | inr refused ↦ rw there (rw refused refl)
    | inl read ↦ rw there (rw read refl)
  ]
]

-- From the client's certificate on.
abbrev from_cert : OpenSsl → HttpSsl → Stage → Option (Bool × Objects)
from_cert lib ssl cert =
    if not cert.ok
    then leave cert
    else do key ← key_stage lib ssl cert.has_cert cert.objects; leave key

used_cert :
    (lib : OpenSsl) (ssl : HttpSsl) (o : Objects) (used : Bool)
    → from_cert lib ssl
        record { ok = used; has_cert = true; has_pk = false; objects = allocate x509 o }
      ≡ some (used && key_accepted lib ssl, o)
unfolding leave
used_cert lib ssl o true = key_stage-leave lib ssl true o
used_cert lib ssl o false = refl

cert_stage-leave :
    (lib : OpenSsl) (ssl : HttpSsl) (o : Objects)
    → (cert_stage lib ssl o >>= from_cert lib ssl)
      ≡ some (cert_accepted lib ssl && key_accepted lib ssl, o)
unfolding cert_stage leave
cert_stage-leave lib ssl o = elim (Bool-cases (present ssl.client_cert)) [
  | inr missing ↦ rw missing (key_stage-leave lib ssl false o)
  | inl there ↦ elim (Bool-cases (lib.parses_cert (bytes ssl.client_cert))) [
    | inr refused ↦ rw there (rw refused refl)
    | inl read ↦ rw there (rw read (used_cert lib ssl o lib.uses_cert))
  ]
]

abbrev from_ca : OpenSsl → HttpSsl → Stage → Option (Bool × Objects)
from_ca lib ssl ca =
    if not ca.ok then leave ca else do cert ← cert_stage lib ssl ca.objects; from_cert lib ssl cert

-- A CA certificate that was read, with a keystore.
added_cert :
    (lib : OpenSsl) (ssl : HttpSsl) (o : Objects) (keystore added : Bool)
    → keystore ≡ true
    → (kept_cert keystore added (allocate x509 o) >>= from_ca lib ssl)
      ≡ some (added && (cert_accepted lib ssl && key_accepted lib ssl), o)
unfolding leave
added_cert lib ssl o true true h = cert_stage-leave lib ssl o
added_cert lib ssl o true false h = refl
added_cert lib ssl o false added h = cc

-- Where OpenSSL's context has a keystore, the callback for the context ends without a fault. It
-- answers CURLE_OK exactly if every certificate and key that is there is read and taken, the CA
-- certificate only where the peer is to be verified, and leaves no object of OpenSSL more or less
-- than before.
pub ssl_ctx_callback-accepted :
    (lib : OpenSsl) (ssl : HttpSsl) (o : Objects)
    → lib.has_keystore ≡ true
    → ssl_ctx_callback lib ssl o
      ≡ some (ca_accepted lib ssl && (cert_accepted lib ssl && key_accepted lib ssl), o)
unfolding ssl_ctx_callback ca_stage leave
ssl_ctx_callback-accepted lib ssl o h = elim (Bool-cases (present ssl.ca_cert && ssl.required)) [
  | inr skipped ↦ rw skipped (cert_stage-leave lib ssl o)
  | inl there ↦ elim (Bool-cases (lib.parses_cert (bytes ssl.ca_cert))) [
    | inr refused ↦ rw there (rw refused refl)
    | inl read ↦ rw there (rw read (added_cert lib ssl o lib.has_keystore lib.adds_cert h))
  ]
]

-- Without a keystore, a CA certificate that is read leads to a second free of its BIO.
ssl_ctx_callback-no_keystore :
    (lib : OpenSsl) (ssl : HttpSsl)
    → (present ssl.ca_cert && ssl.required) ≡ true
    → lib.parses_cert (bytes ssl.ca_cert) ≡ true
    → lib.has_keystore ≡ false
    → ssl_ctx_callback lib ssl no_objects ≡ none
unfolding ssl_ctx_callback ca_stage
ssl_ctx_callback-no_keystore lib ssl there read h = rw there (rw read (rw h refl))
