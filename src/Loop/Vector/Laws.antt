-- ===== src/Loop/Vector/Laws.antt =====
-- The lists that the vectors of tinyara_loop.c stand for.
use testing.Base.{
  ℕ, zero, suc, ◌+◌, ◌-◌, ◌%◌, ◌^◌, ◌≤◌, ◌<◌, ◌≡◌, ◌⊎◌, ◌∙◌, refl, sym, ap, subst, ==→eq, eq→==,
  inl, inr, Bool, true, false, Bool-cases, Option, none, some, List, [], ◌∷◌, ◌++◌, length,
  length-append, ◌==◌, arith,
}
use testing.Loop.Align.{align_power2_short_uint, align_power2_short_uint_ge}
use testing.Loop.Vector.{Block, Vector, cells_of, resize, grow, write, append}

-- A block starts with the elements of a list.
abbrev pub held : List ℕ → Block → Block
held [] spare = spare
held (x ∷ xs) spare = some x ∷ held xs spare

-- A vector that holds a list: its block has at least the capacity of its length.
pub record Holds (v : Vector) (xs : List ℕ) : Type 0 where
  pub spare : Block
  pub cells_are : cells_of v.block ≡ held xs spare
  pub len_is : v.len ≡ length xs
  pub len_le : length xs ≤ 65535
  pub roomy : align_power2_short_uint (length xs) ≤ length (held xs spare)

pub length-held : (xs : List ℕ) (spare : Block) → length (held xs spare) ≡ length xs + length spare
length-held [] spare = omega arith
length-held (x ∷ xs) spare = omega (arith, length-held xs spare)

pub length-resize : (n : ℕ) (cells : Block) → length (resize n cells) ≡ n
unfolding resize
length-resize zero cells = refl
length-resize (suc n) [] = ap suc (length-resize n [])
length-resize (suc n) (x ∷ cells) = ap suc (length-resize n cells)

pub resize-held :
    (n : ℕ) (xs : List ℕ) (spare : Block)
    → length xs ≤ n
    → (rest : Block) × (resize n (held xs spare) ≡ held xs rest)
unfolding resize
resize-held n [] spare h = (resize n spare, refl)
resize-held zero (x ∷ xs) spare h = absurd (omega arith)
resize-held (suc n) (x ∷ xs) spare h =
    let more = resize-held n xs spare (omega arith) in (more.0, ap (λ c. some x ∷ c) more.1)

write-held :
    (xs : List ℕ) (y : Option ℕ) (spare : Block) (p : ℕ)
    → write (held xs (y ∷ spare)) (length xs) p ≡ some (held xs (some p ∷ spare))
unfolding write
write-held [] y spare p = refl
write-held (x ∷ xs) y spare p = rw (write-held xs y spare p) refl

held-append :
    (xs : List ℕ) (p : ℕ) (spare : Block) → held xs (some p ∷ spare) ≡ held (xs ++ p ∷ []) spare
held-append [] p spare = refl
held-append (x ∷ xs) p spare = ap (λ c. some x ∷ c) (held-append xs p spare)

-- A block with more cells than the list has elements has a cell behind them.
spare_cell :
    (spare : Block) → 0 < length spare → (y : Option ℕ) × (rest : Block) × (spare ≡ y ∷ rest)
spare_cell [] h = absurd (omega arith)
spare_cell (y ∷ rest) h = (y, rest, refl)

pub block_is :
    (b : Option Block) (cells : Block) → cells_of b ≡ cells → 0 < length cells → b ≡ some cells
block_is none cells e h = let empty : length cells ≡ 0 = rw (sym e) refl in absurd (omega arith)
block_is (some c) cells e h = ap some e

-- What a growth by one leaves: the elements, and a cell behind them.
record Grown (v : Vector) (xs : List ℕ) : Type 0 where
  last : Option ℕ
  behind : Block
  block_grown : v.block ≡ some (held xs (last ∷ behind))
  len_grown : v.len ≡ length xs + 1
  roomy_grown : align_power2_short_uint (length xs + 1) ≤ length (held xs (last ∷ behind))

Grown-of :
    (v : Vector) (xs : List ℕ) (spare : Block)
    → cells_of v.block ≡ held xs spare
    → v.len ≡ length xs + 1
    → length xs < 65535
    → align_power2_short_uint (length xs + 1) ≤ length (held xs spare)
    → Grown v xs
Grown-of v xs spare e l b r =
    let enough = align_power2_short_uint_ge (length xs + 1) (omega arith) in
    let room = length-held xs spare in
    let y = spare_cell spare (omega arith) in
    let e' : cells_of v.block ≡ held xs (y.0 ∷ y.1) = e ∙ ap (held xs) y.2 in
    let r' = subst (λ c. align_power2_short_uint (length xs + 1) ≤ length (held xs c)) y.2 r in
    record {
      last = y.0;
      behind = y.1;
      block_grown = block_is v.block (held xs (y.0 ∷ y.1)) e' (omega arith);
      len_grown = l;
      roomy_grown = r';
    }

-- The memory that the growth of a vector of `n` elements needs: none if the capacity stays.
abbrev pub CanGrow : Bool → ℕ → Type 0
CanGrow memory n = (memory ≡ true) ⊎ (align_power2_short_uint (n + 1) ≡ align_power2_short_uint n)

grow-Grown :
    (memory : Bool) (v : Vector) (xs : List ℕ)
    → Holds v xs
    → length xs < 65535
    → CanGrow memory (length xs)
    → Grown (grow memory v 1) xs
unfolding grow
grow-Grown memory v xs h b can =
    let wrapped : (v.len + 1) % 2 ^ 16 ≡ length xs + 1 = omega (arith, h.len_is) in
    elim (Bool-cases
      (align_power2_short_uint (length xs + 1) == align_power2_short_uint (length xs))) [
        | inl y ↦
            let same = ==→eq _ _ y in
            rw (wrapped, h.len_is, y) (Grown-of _ xs h.spare h.cells_are refl b (rw same h.roomy))
        | inr n ↦ elim can [
          | inr same ↦ absurd (ground (arith, n, eq→== _ _ same))
          | inl given ↦
              let cap = align_power2_short_uint (length xs + 1) in
              let fits = align_power2_short_uint_ge (length xs + 1) (omega arith) in
              let kept_cells = resize-held cap xs h.spare (omega arith) in
              let e : resize cap (cells_of v.block) ≡ held xs kept_cells.0 =
                rw h.cells_are kept_cells.1 in
              let room : cap ≤ length (held xs kept_cells.0) =
                omega (arith, ap length (sym e) ∙ length-resize cap (cells_of v.block)) in
              rw (wrapped, h.len_is, n, given) (Grown-of _ xs kept_cells.0 e refl b room)
        ]
      ]

abbrev appended : ℕ → List ℕ → Block → Vector
appended p xs behind = record { block = some (held xs (some p ∷ behind)); len = length xs + 1 }

append-appended :
    (memory : Bool) (v : Vector) (xs : List ℕ) (p : ℕ) (g : Grown (grow memory v 1) xs)
    → append memory v p ≡ some (appended p xs g.behind)
unfolding append
append-appended memory v xs p g =
    let nonzero : (length xs + 1 == 0) ≡ false = ground arith in
    let index : length xs + 1 - 1 ≡ length xs = omega arith in
    rw (g.len_grown, nonzero, g.block_grown, index)
      (rw (write-held xs g.last g.behind 0) (rw (write-held xs (some 0) g.behind p) refl))

-- An append to a vector that holds a list of fewer than 65535 elements, with the memory that it
-- needs, stays within the block, and leaves a vector that holds the list with the new element at
-- its end.
pub append_lem :
    (memory : Bool) (v : Vector) (xs : List ℕ) (p : ℕ)
    → Holds v xs
    → length xs < 65535
    → CanGrow memory (length xs)
    → (v' : Vector) × (append memory v p ≡ some v') × Holds v' (xs ++ p ∷ [])
append_lem memory v xs p h b can =
    let g = grow-Grown memory v xs h b can in
    let longer = length-append xs (p ∷ []) in
    let l : length xs + 1 ≡ length (xs ++ p ∷ []) = omega (arith, longer) in
    let r : align_power2_short_uint (length xs + 1) ≤ length (held (xs ++ p ∷ []) g.behind) =
      omega (
        arith,
        g.roomy_grown,
        length-held xs (g.last ∷ g.behind),
        length-held (xs ++ p ∷ []) g.behind,
      ) in
    (
      appended p xs g.behind,
      append-appended memory v xs p g,
      record {
        spare = g.behind;
        cells_are = held-append xs p g.behind;
        len_is = l;
        len_le = omega arith;
        roomy = rw (sym l) r;
      },
    )

-- A vector of 65535 elements has its length wrap to 0, and the append writes in front of the block,
-- whether there is memory or not.
pub append_full : (memory : Bool) (v : Vector) (p : ℕ) → v.len ≡ 65535 → append memory v p ≡ none
unfolding append grow
append_full memory v p full =
    let wrapped : (v.len + 1) % 2 ^ 16 ≡ 0 = omega arith in rw wrapped refl
