-- ===== src/Cloud/Matches.antt =====
-- What each operation of artik_cloud.c on the REST service plans, beside what it is meant to send.
use mathlib.Core.List.{append-nil}
use testing.Base.{
  ℕ, ◌+◌, ◌-◌, ◌%◌, ◌^◌, ◌≤◌, ◌<◌, ◌≡◌, refl, ap, codes, true, false, Option, none, some, List, [],
  ◌∷◌, ◌++◌, ◌>>=◌, ArtikError, All, length, total, format, fill, fitting, fill-length, length-fill,
  take_all, length-printed, arith,
}
use testing.Cloud.{
  Method, post, HttpRequest, Event, Environment, Plan, http_status, token_headers, url_of, body_of,
  body_size, with_token, post_body, perform,
}
use testing.Cloud.Calls.{Call, authorized, registering, meant, judge, run}

abbrev pub ShortBody : Option (List ℕ) → Type 0
ShortBody none = Unit
ShortBody (some body) = length body + 8 < 2 ^ 31

-- Short enough for the buffers: a header's value, and the URL. The body's size is an `int`.
abbrev pub Short : HttpRequest → Type 0
Short r =
    (length r.url < 256)
    × All (λ (h : List ℕ × List ℕ). length h.1 < 128) r.headers
    × ShortBody r.body

-- The URL and the headers' values end within their buffers.
abbrev pub Bounded : HttpRequest → Type 0
Bounded r = (length r.url < 256) × All (λ (h : List ℕ × List ℕ). length h.1 < 128) r.headers

abbrev pub Asked : Option ℕ → Type 0
Asked none = Unit
Asked (some n) = n < 2 ^ 31

-- A plan, the request that is meant, and the meaning of the status.
abbrev pub Matches : (ℕ → ArtikError) → Plan → HttpRequest → Type 0
Matches meaning p r =
    Bounded p.request × (p.of_status ≡ meaning) × (Short r → (p.request ≡ r) × Asked p.body_len)

abbrev pub Related : (ℕ → ArtikError) → Option Plan → Option HttpRequest → Type 0
Related meaning none none = Unit
Related meaning (some p) (some r) = Matches meaning p r
Related meaning _ _ = ⊥

-- The code's plan for a call.
abbrev pub Planned : Environment → Call → Type 0
Planned env call =
    (o : Option Plan) × ((events : List (Event HttpRequest))
      → run env call events ≡ perform env o events)
    × Related (judge call) o (meant call)

pub Related-bind :
    (meaning : ℕ → ArtikError) (a : Option (List ℕ)) (f : List ℕ → Option Plan)
    (g : List ℕ → Option HttpRequest)
    → ((t : List ℕ) → Related meaning (f t) (g t))
    → Related meaning (a >>= f) (a >>= g)
Related-bind meaning none f g h = tt
Related-bind meaning (some t) f g h = h t

pub body_size_lem :
    (fmt : List ℕ) (texts : List (List ℕ))
    → length fmt + total texts + 1 < 2 ^ 31
    → body_size fmt texts ≡ length fmt + total texts + 1
unfolding body_size
body_size_lem fmt texts h =
    let same : (length fmt + total texts + 1) % 2 ^ 32 ≡ length fmt + total texts + 1 =
      omega arith in
    rw same (ground arith)

-- A body that is short is written whole.
pub body_of_lem :
    (fmt : List ℕ) (texts : List (List ℕ))
    → fitting false fmt texts ≡ true
    → length texts ≤ 3
    → length (format fmt texts) + 8 < 2 ^ 31
    → (body_of fmt texts ≡ format fmt texts) × (body_size fmt texts < 2 ^ 31)
unfolding body_of
body_of_lem fmt texts fit few h =
    let most = fill-length false fmt texts fit in
    let bytes = length-fill false fmt texts in
    let size = body_size_lem fmt texts (omega arith) in
    (take_all (body_size fmt texts - 1) (format fmt texts) (omega arith), omega arith)

pub token_headers-Bounded :
    (t : List ℕ) → All (λ (h : List ℕ × List ℕ). length h.1 < 128) (token_headers t)
unfolding token_headers
token_headers-Bounded t =
    (omega (arith, length-printed 128 (format (codes "Bearer %s") (t ∷ []))), (omega arith, tt))

bearer : (t : List ℕ) → format (codes "Bearer %s") (t ∷ []) ≡ codes "Bearer " ++ t
unfolding fill
bearer t = ap (λ s. codes "Bearer " ++ s) (append-nil t)

pub token_headers_lem :
    (t : List ℕ)
    → length (codes "Bearer " ++ t) < 128
    → token_headers t
      ≡ (codes "Authorization", codes "Bearer " ++ t)
        ∷ (codes "Content-Type", codes "application/json")
        ∷ []
unfolding token_headers
token_headers_lem t h = rw (bearer t) (rw (take_all 127 (codes "Bearer " ++ t) (omega arith)) refl)

pub url_of-Bounded : (fmt : List ℕ) (texts : List (List ℕ)) → length (url_of fmt texts) < 256
unfolding url_of
url_of-Bounded fmt texts = omega (arith, length-printed 256 (format fmt texts))

pub url_of_lem :
    (fmt : List ℕ) (texts : List (List ℕ)) (url : List ℕ)
    → format fmt texts ≡ url
    → length url < 256
    → url_of fmt texts ≡ url
unfolding url_of
url_of_lem fmt texts url e h = rw e (take_all 255 url (omega arith))

pub with_token-Matches :
    (method : Method) (url meant_url t : List ℕ) (body : Option (List ℕ)) (s : ℕ)
    → length url < 256
    → (length meant_url < 256 → url ≡ meant_url)
    → Matches http_status (with_token method url t body s) (authorized method meant_url t body s)
with_token-Matches method url meant_url t body s fits same = (
  (fits, token_headers-Bounded t),
  refl,
  λ (h : _).
      let given : (with_token method url t body s).request ≡ authorized method meant_url t body s =
        rw (same h.0) (rw (token_headers_lem t h.1.0) refl) in
      (given, tt),
)

-- A URL that the code prints.
pub printed-Matches :
    (method : Method) (fmt : List ℕ) (texts : List (List ℕ)) (url t : List ℕ)
    (body : Option (List ℕ)) (s : ℕ)
    → format fmt texts ≡ url
    → Matches http_status
        (with_token method (url_of fmt texts) t body s)
        (authorized method url t body s)
printed-Matches method fmt texts url t body s e =
    with_token-Matches method (url_of fmt texts) url t body s (url_of-Bounded fmt texts)
      (url_of_lem fmt texts url e)

pub post_body-Matches :
    (url t fmt : List ℕ) (texts : List (List ℕ)) (body : List ℕ) (s : ℕ)
    → length url < 256
    → fitting false fmt texts ≡ true
    → length texts ≤ 3
    → format fmt texts ≡ body
    → Matches http_status (post_body url t fmt texts s) (authorized post url t (some body) s)
post_body-Matches url t fmt texts body s fits fit few e = (
  (fits, token_headers-Bounded t),
  refl,
  λ (h : _).
      let (whole, size) = body_of_lem fmt texts fit few (rw e h.2) in
      let given : (post_body url t fmt texts s).request ≡ authorized post url t (some body) s =
        rw (token_headers_lem t h.1.0) (rw whole (rw e refl)) in
      (given, size),
)

pub registering-Matches :
    (meaning : ℕ → ArtikError) (method : Method) (url meant_url fmt : List ℕ)
    (texts : List (List ℕ)) (body : List ℕ)
    → length url < 256
    → (length meant_url < 256 → url ≡ meant_url)
    → fitting false fmt texts ≡ true
    → length texts ≤ 3
    → format fmt texts ≡ body
    → Matches meaning
        record {
          request = registering method url (some (body_of fmt texts));
          body_len = some (body_size fmt texts);
          of_status = meaning;
        }
        (registering method meant_url (some body))
registering-Matches meaning method url meant_url fmt texts body fits same fit few e = (
  (fits, (omega arith, (omega arith, (omega arith, tt)))),
  refl,
  λ (h : _).
      let (whole, size) = body_of_lem fmt texts fit few (rw e h.2) in
      let given : registering method url (some (body_of fmt texts))
          ≡ registering method meant_url (some body) =
        rw (same h.0) (rw whole (rw e refl)) in
      (given, size),
)
