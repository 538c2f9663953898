-- ===== src/Manager/Names.antt =====
-- Comparisons of texts by `strncmp`.
use testing.Base.{
  ℕ, zero, suc, ◌<◌, ◌≡◌, refl, Bool, true, false, ◌&&◌, List, [], ◌∷◌, length, ◌==◌, arith, eq→==,
}

-- strncmp(a, b, n) == 0, of texts without a 0.
unfoldable pub strncmp_eq : ℕ → List ℕ → List ℕ → Bool
strncmp_eq zero a b = true
strncmp_eq (suc n) [] [] = true
strncmp_eq (suc n) [] (y ∷ b) = false
strncmp_eq (suc n) (x ∷ a) [] = false
strncmp_eq (suc n) (x ∷ a) (y ∷ b) = x == y && strncmp_eq n a b

-- A bound above both lengths compares the whole texts.
pub strncmp_eq-eq : (n : ℕ) (a b : List ℕ) → length a < n → strncmp_eq n a b ≡ true → a ≡ b
unfolding strncmp_eq
strncmp_eq-eq zero a b l h = absurd (omega arith)
strncmp_eq-eq (suc n) [] [] l h = refl
strncmp_eq-eq (suc n) [] (y ∷ b) l h = cc
strncmp_eq-eq (suc n) (x ∷ a) [] l h = cc
strncmp_eq-eq (suc n) (x ∷ a) (y ∷ b) l h = ground (arith, strncmp_eq-eq n a b)

pub strncmp_eq_self : (n : ℕ) (a : List ℕ) → strncmp_eq n a a ≡ true
unfolding strncmp_eq
strncmp_eq_self zero a = refl
strncmp_eq_self (suc n) [] = refl
strncmp_eq_self (suc n) (x ∷ a) = rw (eq→== x x refl) (strncmp_eq_self n a)
