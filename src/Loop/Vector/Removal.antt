-- ===== src/Loop/Vector/Removal.antt =====
-- Removals from the vectors of tinyara_loop.c, and the initial vector.
use testing.Base.{
  ℕ, zero, suc, ◌+◌, ◌-◌, ◌≤◌, ◌<◌, ◌≡◌, ◌∙◌, refl, sym, ap, ==→eq, inl, inr, Bool, true, false,
  Bool-cases, Option, none, some, List, [], ◌∷◌, length, leb, ◌==◌, s_ok, e_invalid_value, arith,
}
use testing.Loop.Align.{
  align_power2_uint, align_power2_short_uint, align_power2_short_uint_ge,
  align_power2_short_uint_mono,
}
use testing.Loop.Vector.{Block, Vector, cells_of, resize, move_down, close, shrink, del}
use testing.Loop.Vector.Laws.{Holds, held, length-held, length-resize, resize-held, block_is}

abbrev pub remove_at {ℓ} : {A : Type ℓ} → ℕ → List A → List A
remove_at i [] = []
remove_at zero (x ∷ xs) = xs
remove_at (suc i) (x ∷ xs) = x ∷ remove_at i xs

length-remove_at : (i : ℕ) (xs : List ℕ) → i < length xs → length (remove_at i xs) + 1 ≡ length xs
length-remove_at i [] h = absurd (omega arith)
length-remove_at zero (x ∷ xs) h = omega arith
length-remove_at (suc i) (x ∷ xs) h = omega (arith, length-remove_at i xs (omega arith))

-- The elements behind the first cell move to it, and the last of them stays in its old cell too.
move_down-first :
    (x : ℕ) (xs : List ℕ) (spare : Block)
    → (y : Option ℕ) × (move_down (some x ∷ held xs spare) 0 (length xs)
        ≡ some (held xs (y ∷ spare)))
unfolding move_down
move_down-first x [] spare = (some x, refl)
move_down-first x (z ∷ xs) spare = let more = move_down-first z xs spare in (more.0, rw more.1 refl)

move_down-held :
    (i tail : ℕ) (xs : List ℕ) (spare : Block)
    → i + suc tail ≡ length xs
    → (y : Option ℕ) × (move_down (held xs spare) i tail ≡ some (held (remove_at i xs) (y ∷ spare)))
unfolding move_down
move_down-held i tail [] spare h = absurd (omega arith)
move_down-held zero tail (x ∷ xs) spare h =
    let t : tail ≡ length xs = omega arith in rw t (move_down-first x xs spare)
move_down-held (suc i) tail (x ∷ xs) spare h =
    let more = move_down-held i tail xs spare (omega arith) in (more.0, rw more.1 refl)

move_down-zero : (cells : Block) (i : ℕ) → i < length cells → move_down cells i 0 ≡ some cells
unfolding move_down
move_down-zero [] i h = absurd (omega arith)
move_down-zero (x ∷ cells) zero h = refl
move_down-zero (x ∷ cells) (suc i) h = rw (move_down-zero cells i (omega arith)) refl

-- A vector before it shrinks, with the capacity for one more.
record Loose (v : Vector) (ys : List ℕ) : Type 0 where
  spare : Block
  cells_are : cells_of v.block ≡ held ys spare
  len_is : v.len ≡ length ys
  len_lt : length ys < 65535
  roomy : align_power2_short_uint (length ys + 1) ≤ length (held ys spare)

Loose-Holds : (v : Vector) (ys : List ℕ) → Loose v ys → Holds v ys
Loose-Holds v ys h =
    let mono = align_power2_short_uint_mono (length ys) h.len_lt in
    record {
      spare = h.spare;
      cells_are = h.cells_are;
      len_is = h.len_is;
      len_le = omega (arith, h.len_lt);
      roomy = omega (arith, mono, h.roomy);
    }

nothing : (ys : List ℕ) → length ys ≡ 0 → ys ≡ []
nothing [] h = refl
nothing (y ∷ ys) h = absurd (omega arith)

Holds-none :
    (len : ℕ) (ys : List ℕ)
    → len ≡ length ys
    → length ys ≡ 0
    → Holds (record { block = none; len = len }) ys
unfolding align_power2_short_uint align_power2_uint
Holds-none len ys e z =
    let empty = nothing ys z in
    rw empty (record {
      spare = [];
      cells_are = refl;
      len_is = e ∙ z;
      len_le = omega arith;
      roomy = omega arith;
    })

Holds-resized :
    (v : Vector) (ys : List ℕ)
    → Loose v ys
    → Holds
        (record {
          block = some (resize (align_power2_short_uint (length ys)) (cells_of v.block));
          len = length ys;
        })
        ys
Holds-resized v ys h =
    let n = align_power2_short_uint (length ys) in
    let fits = align_power2_short_uint_ge (length ys) (omega (arith, h.len_lt)) in
    let kept_cells = resize-held n ys h.spare fits in
    let e : resize n (cells_of v.block) ≡ held ys kept_cells.0 = rw h.cells_are kept_cells.1 in
    record {
      spare = kept_cells.0;
      cells_are = e;
      len_is = refl;
      len_le = omega (arith, h.len_lt);
      roomy = omega (arith, ap length (sym e) ∙ length-resize n (cells_of v.block));
    }

shrink-Holds : (memory : Bool) (v : Vector) (ys : List ℕ) → Loose v ys → Holds (shrink memory v) ys
unfolding shrink
shrink-Holds memory v ys h = elim (Bool-cases (v.len == 0)) [
  | inl z ↦
      let none_left : length ys ≡ 0 = ground (arith, h.len_is) in
      rw z (Holds-none v.len ys h.len_is none_left)
  | inr n ↦ elim (Bool-cases (align_power2_short_uint v.len == align_power2_uint (v.len + 1))) [
    | inl y ↦ rw (n, y) (Loose-Holds v ys h)
    | inr z ↦ elim (Bool-cases memory) [
      | inl given ↦ rw (n, z, given, h.len_is) (Holds-resized v ys h)
      | inr refused ↦ rw (n, z, refused) (Loose-Holds v ys h)
    ]
  ]
]

abbrev moved : List ℕ → Block → Vector
moved ys spare = record { block = some (held ys spare); len = length ys }

moved-Loose :
    (v : Vector) (xs : List ℕ) (i : ℕ) (y : Option ℕ) (h : Holds v xs)
    → i < length xs
    → Loose (moved (remove_at i xs) (y ∷ h.spare)) (remove_at i xs)
moved-Loose v xs i y h b =
    let ys = remove_at i xs in
    let shorter = length-remove_at i xs b in
    record {
      spare = y ∷ h.spare;
      cells_are = refl;
      len_is = refl;
      len_lt = omega (arith, h.len_le);
      roomy =
          rw shorter (omega (arith, h.roomy, length-held xs h.spare, length-held ys (y ∷ h.spare)));
    }

close-held :
    (i tail : ℕ) (xs : List ℕ) (spare : Block)
    → i + suc tail ≡ length xs
    → (y : Option ℕ) × (close i tail (some (held xs spare))
        ≡ some (some (held (remove_at i xs) (y ∷ spare))))
unfolding close
close-held i tail xs spare h =
    let down = move_down-held i tail xs spare h in
    (
      down.0,
      elim (Bool-cases (tail == 0)) [
        | inl z ↦
            let none_behind = ==→eq tail 0 z in
            let still = move_down-zero (held xs spare) i (omega (arith, length-held xs spare)) in
            let here : move_down (held xs spare) i tail ≡ some (held xs spare) =
              rw none_behind still in
            rw z (ap some (sym here ∙ down.1))
        | inr n ↦ rw n (rw down.1 refl)
      ],
    )

-- On a vector that holds a list, a removal at an index below the length returns S_OK and a vector
-- that holds the list without that element, whether or not memory can be given back; an index that
-- is not below it is refused, with nothing changed.
pub del_lem :
    (memory : Bool) (v : Vector) (xs : List ℕ) (i : ℕ)
    → Holds v xs
    → (i < length xs
        → (v' : Vector) × (del memory v i ≡ some (s_ok, v')) × Holds v' (remove_at i xs))
      × (length xs ≤ i → del memory v i ≡ some (e_invalid_value, v))
unfolding del
del_lem memory v xs i h = (
  λ b.
      let shorter = length-remove_at i xs b in
      let closed = close-held i (length (remove_at i xs) - i) xs h.spare (omega (arith, shorter)) in
      let room = length-held xs h.spare in
      let block = block_is v.block (held xs h.spare) h.cells_are (omega arith) in
      let within : leb v.len i ≡ false = ground (arith, h.len_is) in
      let len : v.len - 1 ≡ length (remove_at i xs) = omega (arith, h.len_is) in
      (
        shrink memory (moved (remove_at i xs) (closed.0 ∷ h.spare)),
        rw (within, len, block) (rw closed.1 refl),
        shrink-Holds memory _ _ (moved-Loose v xs i closed.0 h b),
      ),
  λ b. let out : leb v.len i ≡ true = ground (arith, h.len_is) in rw out refl,
)

-- The vectors as they are declared: no block, and no elements.
pub Holds-empty : Holds (record { block = none; len = 0 }) []
Holds-empty = Holds-none 0 [] refl refl
