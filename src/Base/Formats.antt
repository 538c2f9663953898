-- ===== src/Base/Formats.antt =====
-- snprintf: its formats with %s and %d, what fits into a buffer, and the room that a text takes.
use Prim.Native.Nat.{ℕ, zero, suc, ◌+◌, ◌-◌, ◌*◌, ◌^◌, ◌≤◌}
use mathlib.Core.Path.{◌≡◌, refl, ap}
use mathlib.Core.Logic.{inl, inr}
use mathlib.Core.Bool.{Bool, true, false}
use mathlib.Core.List.{List, [], ◌∷◌, ◌++◌}
use native.Mathlib.Omega.{arith}
use testing.Base.Tests.{Bool-cases, ◌==◌, ltb, if◌then◌else◌}
use testing.Base.Lists.{length, length-append}
use testing.Base.Texts.{decimal}

-- The first bytes of a text.
abbrev pub take : ℕ → List ℕ → List ℕ
take zero s = []
take (suc n) [] = []
take (suc n) (c ∷ s) = c ∷ take n s

-- snprintf(entry, size, ...): what is left of a text and its final 0.
abbrev pub printed : ℕ → List ℕ → List ℕ
printed size text = take (size - 1) text

-- %d of an `int`, which stands as its 32-bit pattern.
abbrev pub signed_decimal : ℕ → List ℕ
signed_decimal n = if ltb n (2 ^ 31) then decimal n else 45 ∷ decimal (2 ^ 32 - n)

-- A format with the texts for its conversions, each of one letter. The flag tells that a % is open.
unfoldable pub fill : Bool → List ℕ → List (List ℕ) → List ℕ
fill seen [] texts = []
fill false (c ∷ s) texts =
    let opened = fill true s texts in
    let plain = c ∷ fill false s texts in if c == 37 then opened else plain
fill true (c ∷ s) [] = fill false s []
fill true (c ∷ s) (text ∷ texts) = text ++ fill false s texts

abbrev pub format : List ℕ → List (List ℕ) → List ℕ
format = fill false

-- The lengths of several texts, added up.
abbrev pub total : List (List ℕ) → ℕ
total [] = 0
total (text ∷ texts) = length text + total texts

pub length-take : (n : ℕ) (s : List ℕ) → length (take n s) ≤ n
length-take zero s = omega arith
length-take (suc n) [] = omega arith
length-take (suc n) (c ∷ s) = omega (arith, length-take n s)

pub take_all : (n : ℕ) (s : List ℕ) → length s ≤ n → take n s ≡ s
take_all zero [] h = refl
take_all zero (c ∷ s) h = absurd (omega arith)
take_all (suc n) [] h = refl
take_all (suc n) (c ∷ s) h = ap (λ t. c ∷ t) (take_all n s (omega arith))

pub length-printed : (size : ℕ) (text : List ℕ) → length (printed size text) ≤ size - 1
length-printed size text = length-take (size - 1) text

pub length-fill :
    (seen : Bool) (s : List ℕ) (texts : List (List ℕ))
    → length (fill seen s texts) ≤ length s + total texts
unfolding fill
length-fill seen [] texts = omega arith
length-fill false (c ∷ s) texts =
    let opened = length-fill true s texts in let plain = length-fill false s texts in ground arith
length-fill true (c ∷ s) [] = omega (arith, length-fill false s [])
length-fill true (c ∷ s) (text ∷ texts) =
    omega (arith, length-append text (fill false s texts), length-fill false s texts)

-- Each conversion of the format has its text, and none is left over.
unfoldable pub fitting : Bool → List ℕ → List (List ℕ) → Bool
fitting false [] [] = true
fitting false [] (text ∷ texts) = false
fitting true [] texts = false
fitting false (c ∷ s) texts =
    let opened = fitting true s texts in
    let plain = fitting false s texts in if c == 37 then opened else plain
fitting true (c ∷ s) [] = false
fitting true (c ∷ s) (text ∷ texts) = fitting false s texts

abbrev pub open_bytes : Bool → ℕ
open_bytes true = 1
open_bytes false = 0

pub fill-length :
    (seen : Bool) (s : List ℕ) (texts : List (List ℕ))
    → fitting seen s texts ≡ true
    → length s + total texts + open_bytes seen ≤ length (fill seen s texts) + 2 * length texts
unfolding fill fitting
fill-length false [] [] h = omega arith
fill-length false [] (text ∷ texts) h = cc
fill-length true [] texts h = cc
fill-length false (c ∷ s) texts h = elim (Bool-cases (c == 37)) [
  | inl hit ↦ let ih = fill-length true s texts (rw hit at h) in ground (arith, ih)
  | inr miss ↦ let ih = fill-length false s texts (rw miss at h) in ground (arith, ih)
]
fill-length true (c ∷ s) [] h = cc
fill-length true (c ∷ s) (text ∷ texts) h =
    omega (arith, length-append text (fill false s texts), fill-length false s texts h)
