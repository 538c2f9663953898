-- ===== src/Loop/Callbacks/Listed.antt =====
-- The lists of callbacks that the vectors of tinyara_loop.c stand for.
use testing.Base.{
  ℕ, zero, suc, ◌<◌, ◌≡◌, ◌≢◌, refl, sym, ap, subst, Option, some, List, [], ◌∷◌, length, get_elem?,
  All, ◌==◌, arith, if◌then◌else◌,
}
use testing.Loop.Vector.{Block, get}
use testing.Loop.Vector.Laws.{Holds, held}
use testing.Loop.Vector.Removal.{remove_at}
use testing.Loop.Callbacks.{Callback, Callbacks}

abbrev pub addresses : List (ℕ × Callback) → List ℕ
addresses [] = []
addresses (x ∷ xs) = x.0 ∷ addresses xs

abbrev pub Absent : ℕ → List (ℕ × Callback) → Type 0
Absent p xs = All (λ x. x.0 ≢ p) xs

abbrev pub Distinct : List (ℕ × Callback) → Type 0
Distinct [] = Unit
Distinct (x ∷ xs) = Absent x.0 xs × Distinct xs

abbrev pub Alive : (ℕ → Option Callback) → List (ℕ × Callback) → Type 0
Alive cell xs = All (λ x. (cell x.0 ≡ some x.1) × (x.1.handle ≢ 0)) xs

-- The vector holds the addresses of these callbacks, which are allocated, each with its handle, and
-- no two of them are the same.
pub record Registered (s : Callbacks) (xs : List (ℕ × Callback)) : Type 0 where
  pub holds : Holds s.vector (addresses xs)
  pub alive : Alive s.cell xs
  pub distinct : Distinct xs

-- The callbacks that stay if those with an identifier leave among the first `n`.
abbrev pub staying : ℕ → ℕ → List (ℕ × Callback) → List (ℕ × Callback)
staying id zero xs = xs
staying id (suc n) [] = []
staying id (suc n) (x ∷ xs) = let rest = staying id n xs in if x.1.id == id then rest else x ∷ rest

-- What is given back for those that leave, in front of what was given back before.
abbrev pub giving : ℕ → ℕ → List (ℕ × Callback) → List (ℕ × ℕ) → List (ℕ × ℕ)
giving id zero xs before = before
giving id (suc n) [] before = before
giving id (suc n) (x ∷ xs) before =
    let rest = giving id n xs before in if x.1.id == id then (x.0, x.1.handle) ∷ rest else rest

pub nth :
    (xs : List (ℕ × Callback)) (i : ℕ)
    → i < length xs
    → (x : ℕ × Callback) × (get_elem? xs i ≡ some x)
nth [] i h = absurd (omega arith)
nth (x ∷ xs) zero h = (x, refl)
nth (x ∷ xs) (suc i) h = nth xs i (omega arith)

pub length-addresses : (xs : List (ℕ × Callback)) → length (addresses xs) ≡ length xs
length-addresses [] = refl
length-addresses (x ∷ xs) = ap suc (length-addresses xs)

pub addresses-remove_at :
    (i : ℕ) (xs : List (ℕ × Callback)) → addresses (remove_at i xs) ≡ remove_at i (addresses xs)
addresses-remove_at i [] = refl
addresses-remove_at zero (x ∷ xs) = refl
addresses-remove_at (suc i) (x ∷ xs) = ap (λ ys. x.0 ∷ ys) (addresses-remove_at i xs)

pub All-remove_at :
    (P : ℕ × Callback → Type 0) (i : ℕ) (xs : List (ℕ × Callback))
    → All P xs
    → All P (remove_at i xs)
All-remove_at P i [] h = tt
All-remove_at P zero (x ∷ xs) h = h.1
All-remove_at P (suc i) (x ∷ xs) h = (h.0, All-remove_at P i xs h.1)

pub Distinct-remove_at :
    (i : ℕ) (xs : List (ℕ × Callback)) → Distinct xs → Distinct (remove_at i xs)
Distinct-remove_at i [] h = tt
Distinct-remove_at zero (x ∷ xs) h = h.1
Distinct-remove_at (suc i) (x ∷ xs) h =
    (All-remove_at (λ y. y.0 ≢ x.0) i xs h.0, Distinct-remove_at i xs h.1)

-- The element at an index is like all of them.
pub All-nth :
    (P : ℕ × Callback → Type 0) (xs : List (ℕ × Callback)) (i : ℕ) (x : ℕ × Callback)
    → get_elem? xs i ≡ some x
    → All P xs
    → P x
All-nth P [] i x e h = absurd cc
All-nth P (y ∷ xs) zero x e h = let same : y ≡ x = cc in subst P same h.0
All-nth P (y ∷ xs) (suc i) x e h = All-nth P xs i x e h.1

-- The address at an index does not come back elsewhere.
pub Absent-nth :
    (xs : List (ℕ × Callback)) (i : ℕ) (x : ℕ × Callback)
    → get_elem? xs i ≡ some x
    → Distinct xs
    → Absent x.0 (remove_at i xs)
Absent-nth [] i x e h = tt
Absent-nth (y ∷ xs) zero x e h = let same : y ≡ x = cc in subst (λ z. Absent z.0 xs) same h.0
Absent-nth (y ∷ xs) (suc i) x e h =
    ((λ q. All-nth (λ z. z.0 ≢ y.0) xs i x e h.0 (sym q)), Absent-nth xs i x e h.1)

pub get-held :
    (xs : List ℕ) (spare : Block) (i p : ℕ)
    → get_elem? xs i ≡ some p
    → get (held xs spare) i ≡ some p
unfolding get
get-held [] spare i p e = absurd cc
get-held (x ∷ xs) spare zero p e = e
get-held (x ∷ xs) spare (suc i) p e = get-held xs spare i p e

pub nth-addresses :
    (xs : List (ℕ × Callback)) (i : ℕ) (x : ℕ × Callback)
    → get_elem? xs i ≡ some x
    → get_elem? (addresses xs) i ≡ some x.0
nth-addresses [] i x e = absurd cc
nth-addresses (y ∷ xs) zero x e = cc
nth-addresses (y ∷ xs) (suc i) x e = nth-addresses xs i x e
