-- ===== src/Base/Texts.antt =====
-- Texts as lists of bytes without the final 0: literals, the comparison, and printf's %d.
use Prim.Native.Char.{code}
use Prim.Native.String.{String}
use Prim.Native.Nat.{ℕ, zero, suc, ◌+◌, ◌-◌, ◌*◌, ◌/◌, ◌%◌, ◌^◌, ◌<◌}
use mathlib.Core.Path.{◌≡◌, refl, sym, ap, ◌∙◌}
use mathlib.Core.Logic.{inl, inr}
use mathlib.Core.Bool.{Bool, true, false, ◌&&◌}
use mathlib.Core.List.{List, [], ◌∷◌}
use native.Mathlib.Omega.{arith}
use testing.Base.Tests.{◌==◌, if◌then◌else◌, ==→eq, eq→==, Bool-cases}

-- The bytes of an ASCII text.
abbrev pub codes : String → List ℕ
codes String.[] = []
codes (String.◌∷◌ c s) = code c ∷ codes s

-- strcmp(a, b) == 0
unfoldable pub same_text : List ℕ → List ℕ → Bool
same_text [] [] = true
same_text [] (d ∷ b) = false
same_text (c ∷ a) [] = false
same_text (c ∷ a) (d ∷ b) = c == d && same_text a b

pub same_text_self : (a : List ℕ) → same_text a a ≡ true
unfolding same_text
same_text_self [] = refl
same_text_self (c ∷ a) = rw (eq→== c c refl) (same_text_self a)

pub same_text-eq : (a b : List ℕ) → same_text a b ≡ true → a ≡ b
unfolding same_text
same_text-eq [] [] h = refl
same_text-eq [] (d ∷ b) h = cc
same_text-eq (c ∷ a) [] h = cc
same_text-eq (c ∷ a) (d ∷ b) h = elim (Bool-cases (c == d)) [
  | inl hit ↦ let first = ==→eq c d hit in let rest = same_text-eq a b (rw hit at h) in cc
  | inr miss ↦ let bad : false ≡ true = rw miss at h in cc
]

-- The digits of a number of at most `fuel` digits, in front of a text.
digits : ℕ → ℕ → List ℕ → List ℕ
digits zero n out = out
digits (suc fuel) n out =
    let rest = digits fuel (n / 10) ((48 + n % 10) ∷ out) in
    if n / 10 == 0 then (48 + n % 10) ∷ out else rest

-- %d of an `int` that is not negative: it has at most ten digits.
unfoldable pub decimal : ℕ → List ℕ
unfolding digits
decimal n = digits 10 n []

number : List ℕ → ℕ → ℕ
number [] n = n
number (c ∷ s) n = number s (n * 10 + (c - 48))

number-digits :
    (fuel n : ℕ) (out : List ℕ)
    → n < 10 * 10 ^ fuel
    → number (digits (suc fuel) n out) 0 ≡ number out n
unfolding digits number
number-digits zero n out h =
    let last : (n / 10 == 0) ≡ true = eq→== (n / 10) 0 (omega arith) in
    let same : 0 + ((48 + n % 10) - 48) ≡ n = omega arith in rw last (ap (number out) same)
number-digits (suc fuel) n out h =
    let power : 10 ^ suc fuel ≡ 10 * 10 ^ fuel = omega arith in
    let within : n / 10 < 10 * 10 ^ fuel = omega arith in
    let rest = number-digits fuel (n / 10) ((48 + n % 10) ∷ out) within in
    elim (Bool-cases (n / 10 == 0)) [
      | inl last ↦
          let small = ==→eq (n / 10) 0 last in
          let same : 0 + ((48 + n % 10) - 48) ≡ n = omega arith in rw last (ap (number out) same)
      | inr more ↦
          let same : n / 10 * 10 + ((48 + n % 10) - 48) ≡ n = omega arith in
          rw more (rest ∙ ap (number out) same)
    ]

-- The prints of two numbers differ.
pub decimal_injective : (m n : ℕ) → m < 2 ^ 31 → n < 2 ^ 31 → decimal m ≡ decimal n → m ≡ n
unfolding decimal number
decimal_injective m n hm hn e =
    sym (number-digits 9 m [] (omega arith))
    ∙ ap (λ t. number t 0) e
    ∙ number-digits 9 n [] (omega arith)
