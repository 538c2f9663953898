-- ===== src/Time/Compare.antt =====
-- `artik_time_compare_dates` (src/modules/base/time/artik_time.c), and the order that it is for.
use testing.Base.{
  ℕ, ◌≡◌, ◌↔◌, refl, ◌⊎◌, ◌<◌, Option, none, some, List, [], ◌∷◌, arith, ltb, if◌then◌else◌,
}
use testing.Time.{ArtikTime}

-- The results 1, -1, 0, and -2 for a NULL argument.
pub data Compared : Type 0 where
  later earlier equal invalid : Compared

-- Two fields, and what follows if they are equal.
abbrev field : ℕ → ℕ → Compared → Compared
field a b rest = if ltb b a then later else if ltb a b then earlier else rest

unfoldable pub compare_dates : Option ArtikTime → Option ArtikTime → Compared
compare_dates none date2 = invalid
compare_dates (some date1) none = invalid
compare_dates (some a) (some b) = field a.year b.year (
    field a.month b.month (
      field a.day b.day (
        field a.hour b.hour
          (field a.minute b.minute (field a.second b.second (field a.msecond b.msecond equal))))))

-- The order that is meant: lexicographic, on the fields from the year down.
abbrev pub significant : ArtikTime → List ℕ
significant d = d.year ∷ d.month ∷ d.day ∷ d.hour ∷ d.minute ∷ d.second ∷ d.msecond ∷ []

abbrev pub Precedes : List ℕ → List ℕ → Type 0
Precedes [] ys = ⊥
Precedes (x ∷ xs) [] = ⊥
Precedes (x ∷ xs) (y ∷ ys) = (x < y) ⊎ ((x ≡ y) × Precedes xs ys)

-- The three answers that are right for two lists of fields.
abbrev pub Decides : List ℕ → List ℕ → Compared → Type 0
Decides xs ys r =
    ((r ≡ earlier) ↔ Precedes xs ys) × ((r ≡ later) ↔ Precedes ys xs) × ((r ≡ equal) ↔ (xs ≡ ys))

Decides-cons :
    (x y : ℕ) (xs ys : List ℕ) (r : Compared)
    → Decides xs ys r
    → Decides (x ∷ xs) (y ∷ ys) (field x y r)
Decides-cons x y xs ys r d = (
  (λ e. ground (arith, d.0.0), λ p. ground (arith, d.0.1)),
  (λ e. ground (arith, d.1.0), λ p. ground (arith, d.1.1)),
  (λ e. ground (arith, d.2.0), λ p. ground (arith, d.2.1)),
)

Decides-nil : Decides [] [] equal
Decides-nil = ((λ e. cc, λ p. absurd p), (λ e. cc, λ p. absurd p), (λ e. refl, λ p. refl))

-- The comparison of two dates says earlier exactly if the first precedes the second in the
-- lexicographic order from the year down to the milliseconds, later exactly if the second precedes
-- the first, and equal exactly if none of these fields differs.
pub compare_dates_lem :
    (a b : ArtikTime) → Decides (significant a) (significant b) (compare_dates (some a) (some b))
unfolding compare_dates
compare_dates_lem a b = Decides-cons a.year b.year _ _ _ (
    Decides-cons a.month b.month _ _ _ (
      Decides-cons a.day b.day _ _ _ (
        Decides-cons a.hour b.hour _ _ _ (
          Decides-cons a.minute b.minute _ _ _ (
            Decides-cons a.second b.second _ _ _
              (Decides-cons a.msecond b.msecond [] [] equal Decides-nil))))))
