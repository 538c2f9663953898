-- ===== src/Base/Error.antt =====
-- inc/base/artik_error.h: the codes that the modelled operations return, and the chain for `Option`.
use Prim.Native.Nat.{ℕ}
use mathlib.Core.Option.{Option, none, some}
use mathlib.Core.Bool.{Bool, true, false}

-- `errno_ e` is the negated `errno` that some functions pass on as it stands.
pub data ArtikError : Type 0 where
  s_ok e_bad_args e_busy e_not_initialized e_no_mem e_not_supported e_overflow : ArtikError
  e_access_denied e_interrupted e_try_again e_timeout e_invalid_value e_http_error : ArtikError
  errno : ℕ → ArtikError

-- `none` is a fault of the C program: a read or a write through a pointer that points to nothing.
infixl 5 ◌>>=◌
abbrev pub ◌>>=◌ {ℓ κ} : {A : Type ℓ} {B : Type κ} → Option A → (A → Option B) → Option B
some a >>= f = f a
none >>= f = none

abbrev pub is_ok : ArtikError → Bool
is_ok s_ok = true
is_ok _ = false
