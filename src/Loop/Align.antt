-- ===== src/Loop/Align.antt =====
-- The rounding up to a power of two by which the vectors of tinyara_loop.c choose their capacity.
use testing.Base.{
  ℕ, zero, suc, ◌+◌, ◌-◌, ◌*◌, ◌/◌, ◌^◌, ◌≤◌, ◌<◌, ◌≡◌, refl, leb, ◌==◌, if◌then◌else◌, false,
  Bool-cases, inl, inr, arith,
}

-- 1 << n
abbrev pub shift : ℕ → ℕ
shift zero = 1
shift (suc n) = 2 * shift n

-- The number of binary digits of a number of at most `width` of them: the width without the leading
-- zeros.
unfoldable pub digits : ℕ → ℕ → ℕ
digits zero u = 0
digits (suc width) u = let rest = digits width (u / 2) in if u == 0 then 0 else suc rest

-- __builtin_clz
unfoldable pub left_zeros : ℕ → ℕ
unfolding digits
left_zeros u = 32 - digits 32 u

unfoldable pub align_power2_uint : ℕ → ℕ
unfolding left_zeros
align_power2_uint u =
    if leb u 1
    then u
    else if leb (left_zeros (u - 1)) 1
    then 2 ^ 32 - 1
    else shift (32 - left_zeros (u - 1))

-- aligned <= USHRT_MAX ? aligned : USHRT_MAX
abbrev capped : ℕ → ℕ
capped aligned = if leb aligned 65535 then aligned else 65535

unfoldable pub align_power2_short_uint : ℕ → ℕ
align_power2_short_uint u = capped (align_power2_uint u)

shift-positive : (n : ℕ) → 0 < shift n
shift-positive zero = omega arith
shift-positive (suc n) = omega (arith, shift-positive n)

digits_enough : (w u : ℕ) → u < shift w → u < shift (digits w u)
unfolding digits
digits_enough zero u h = h
digits_enough (suc w) u h =
    let half : u / 2 < shift w = omega arith in
    let below = digits_enough w (u / 2) half in
    elim (Bool-cases (u == 0)) [ inl z ↦ ground arith | inr n ↦ rw n (omega arith) ]

digits-zero : (w : ℕ) → digits w 0 ≡ 0
unfolding digits
digits-zero zero = refl
digits-zero (suc w) = refl

digits_tight : (w u : ℕ) → 0 < u → shift (digits w u) ≤ 2 * u
unfolding digits
digits_tight zero u h = omega arith
digits_tight (suc w) u h = elim (Bool-cases (u == 0)) [
  | inl z ↦ ground arith
  | inr n ↦ elim (Bool-cases (u / 2 == 0)) [
    | inl one ↦ let halved : u / 2 ≡ 0 = ground arith in rw (n, halved, digits-zero) (omega arith)
    | inr more ↦ let below = digits_tight w (u / 2) (ground arith) in rw n (omega arith)
  ]
]

digits_le : (w k u : ℕ) → u < shift k → digits w u ≤ k
unfolding digits
digits_le zero k u h = omega arith
digits_le (suc w) zero u h = ground arith
digits_le (suc w) (suc k) u h =
    let half : u / 2 < shift k = omega arith in
    let below = digits_le w k (u / 2) half in ground arith

align_power2_uint_is : (u : ℕ) → 1 < u → u ≤ 65536 → align_power2_uint u ≡ shift (digits 32 (u - 1))
unfolding align_power2_uint left_zeros
align_power2_uint_is u h k =
    let few = digits_le 32 16 (u - 1) (omega arith) in
    let some_bits : leb u 1 ≡ false = ground arith in
    let zeros : leb (32 - digits 32 (u - 1)) 1 ≡ false = ground arith in
    let back : 32 - (32 - digits 32 (u - 1)) ≡ digits 32 (u - 1) = omega arith in
    rw (some_bits, zeros, back) refl

-- Up to 65536 the result is a power of two, the least that is not below the argument.
pub align_power2_uint_lem :
    (u : ℕ)
    → 0 < u
    → u ≤ 65536
    → (k : ℕ) × (align_power2_uint u ≡ shift k) × (u ≤ shift k) × (shift k < 2 * u)
unfolding align_power2_uint
align_power2_uint_lem u h k = elim (Bool-cases (leb u 1)) [
  | inl one ↦ let single : u ≡ 1 = ground arith in (0, ground arith, omega arith, omega arith)
  | inr more ↦
      let above : 1 < u = ground arith in
      let enough = digits_enough 32 (u - 1) (omega arith) in
      let tight = digits_tight 32 (u - 1) (omega arith) in
      (digits 32 (u - 1), align_power2_uint_is u above k, omega arith, omega arith)
]

digits_mono : (w u v : ℕ) → u ≤ v → digits w u ≤ digits w v
unfolding digits
digits_mono zero u v h = omega arith
digits_mono (suc w) u v h = let halves = digits_mono w (u / 2) (v / 2) (omega arith) in ground arith

shift_mono : (m n : ℕ) → m ≤ n → shift m ≤ shift n
shift_mono zero n h = shift-positive n
shift_mono (suc m) zero h = absurd (omega arith)
shift_mono (suc m) (suc n) h = omega (arith, shift_mono m n (omega arith))

capped_mono : (a b : ℕ) → a ≤ b → capped a ≤ capped b
capped_mono a b h = ground arith

capped_eq : (a b : ℕ) → capped a ≡ b → capped a ≡ capped b
capped_eq a b h = ground arith

capped_ge : (a u : ℕ) → u ≤ 65535 → u ≤ a → u ≤ capped a
capped_ge a u h k = ground arith

align_power2_uint_mono : (u : ℕ) → u < 65535 → align_power2_uint u ≤ align_power2_uint (u + 1)
unfolding align_power2_uint
align_power2_uint_mono u h = elim (Bool-cases (leb u 1)) [
  | inl one ↦ elim (Bool-cases (u == 0)) [
    | inl z ↦ let zeroth : u ≡ 0 = ground arith in rw zeroth (omega arith)
    | inr n ↦ let single : u ≡ 1 = ground arith in rw single (omega arith)
  ]
  | inr more ↦
      let above : 1 < u = ground arith in
      let here = align_power2_uint_is u above (omega arith) in
      let next = align_power2_uint_is (u + 1) (omega arith) (omega arith) in
      let grows =
        shift_mono (digits 32 (u - 1)) (digits 32 (u + 1 - 1))
          (digits_mono 32 (u - 1) (u + 1 - 1) (omega arith)) in
      rw (here, next) grows
]

-- A capacity that a vector chooses is not below its length.
pub align_power2_short_uint_ge : (u : ℕ) → u ≤ 65535 → u ≤ align_power2_short_uint u
unfolding align_power2_short_uint
align_power2_short_uint_ge u h = elim (Bool-cases (u == 0)) [
  | inl z ↦ let zeroth : u ≡ 0 = ground arith in rw zeroth (omega arith)
  | inr n ↦
      let lem = align_power2_uint_lem u (ground arith) (omega arith) in
      let most : u ≤ align_power2_uint u = rw lem.1 lem.2 in
      capped_ge (align_power2_uint u) u h most
]

pub align_power2_short_uint_mono :
    (u : ℕ) → u < 65535 → align_power2_short_uint u ≤ align_power2_short_uint (u + 1)
unfolding align_power2_short_uint
align_power2_short_uint_mono u h =
    capped_mono (align_power2_uint u) (align_power2_uint (u + 1)) (align_power2_uint_mono u h)

-- What a vector's shrinking compares: the two capacities agree only if the smaller is one of both.
pub align_power2_short_uint_uint :
    (u v : ℕ)
    → align_power2_short_uint u ≡ align_power2_uint v
    → align_power2_short_uint u ≡ align_power2_short_uint v
unfolding align_power2_short_uint
align_power2_short_uint_uint u v h = capped_eq (align_power2_uint u) (align_power2_uint v) h
