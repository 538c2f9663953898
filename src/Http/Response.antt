-- ===== src/Http/Response.antt =====
-- linux_http.c: response_callback, which puts the chunks of a response together.
use testing.Base.{
  ℕ, suc, Bool, true, false, Option, none, some, List, [], ◌∷◌, ◌++◌, ◌==◌, if◌then◌else◌, length,
}

-- A text as far as its first 0.
unfoldable pub c_string : List ℕ → List ℕ
c_string [] = []
c_string (c ∷ s) = let rest = c ∷ c_string s in if c == 0 then [] else rest

-- strndup(rx_data, len), or strncat(*response, rx_data, len) after a realloc, for a chunk of `len`
-- bytes. The result is `*response`, which is none where there was no memory, and what is returned.
unfoldable pub response_callback : Bool → List ℕ → Option (List ℕ) → Option (List ℕ) × ℕ
response_callback false chunk response = (none, 0)
response_callback true chunk none = (some (c_string chunk), length chunk)
response_callback true chunk (some text) = (some (text ++ c_string chunk), length chunk)

-- The calls for the chunks of a transfer, from the i-th on.
unfoldable pub receive : (ℕ → Bool) → ℕ → List (List ℕ) → Option (List ℕ) → Option (List ℕ)
receive memory i [] response = response
receive memory i (chunk ∷ chunks) response =
    receive memory (suc i) chunks (response_callback (memory i) chunk response).0
