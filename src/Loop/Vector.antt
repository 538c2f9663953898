-- ===== src/Loop/Vector.antt =====
-- The vectors of pointers of tinyara_loop.c.
--
-- A block of memory is a list of cells, one for each pointer of `sizeof(void *)` bytes. A cell that
-- `malloc` or `realloc` left unset is `none`. An access outside the block, or through NULL, is a
-- fault, `none`. `memory` tells whether the call of `realloc` succeeds.
pub mod Laws
pub mod Removal
use testing.Base.{
  ℕ, zero, suc, ◌+◌, ◌-◌, ◌%◌, ◌^◌, Bool, not, Option, none, some, List, [], ◌∷◌, map, leb, ◌==◌,
  if◌then◌else◌, ArtikError, s_ok, e_invalid_value, ◌>>=◌,
}
use testing.Loop.Align.{align_power2_uint, align_power2_short_uint}

abbrev pub Block : Type 0
Block = List (Option ℕ)

pub record Vector : Type 0 where
  pub block : Option Block
  pub len : ℕ

-- The cells of the old block that fit, and unset cells behind them.
unfoldable pub resize : ℕ → Block → Block
resize zero cells = []
resize (suc n) [] = none ∷ resize n []
resize (suc n) (x ∷ cells) = x ∷ resize n cells

abbrev pub cells_of : Option Block → Block
cells_of none = []
cells_of (some cells) = cells

-- realloc(block, n * sizeof(void *))
abbrev pub realloc : Bool → Option Block → ℕ → Option Block
realloc memory block n = if memory then some (resize n (cells_of block)) else none

-- _vector_grow, whose result is always 0. What `realloc` returned is stored without a test.
unfoldable pub grow : Bool → Vector → ℕ → Vector
grow memory v amount =
    let new_len = (v.len + amount) % 2 ^ 16 in
    let old_cap = align_power2_short_uint v.len in
    let new_cap = align_power2_short_uint new_len in
    record {
      block = if new_cap == old_cap then v.block else realloc memory v.block new_cap;
      len = new_len;
    }

unfoldable pub write : Block → ℕ → ℕ → Option Block
write [] i p = none
write (x ∷ cells) zero p = some (some p ∷ cells)
write (x ∷ cells) (suc i) p = do rest ← write cells i p; some (x ∷ rest)

-- _vector_append and _ptr_vector_append: the new cell, at the index `len - 1`, is zeroed, and then
-- written.
unfoldable pub append : Bool → Vector → ℕ → Option Vector
append memory v p =
    let grown = grow memory v 1 in
    if grown.len == 0 then none else do
      cells ← grown.block
      zeroed ← write cells (grown.len - 1) 0
      written ← write zeroed (grown.len - 1) p
      some (record grown { block = some written })

-- _ptr_vector_get_no_check
unfoldable pub get : Block → ℕ → Option ℕ
get [] i = none
get (x ∷ cells) zero = x
get (x ∷ cells) (suc i) = get cells i

-- memmove of the `tail` cells behind a cell to that cell.
unfoldable pub move_down : Block → ℕ → ℕ → Option Block
move_down (x ∷ cells) (suc i) tail = do rest ← move_down cells i tail; some (x ∷ rest)
move_down cells zero zero = some cells
move_down (x ∷ y ∷ cells) zero (suc tail) = do
  rest ← move_down (y ∷ cells) zero tail
  some (y ∷ rest)
move_down _ _ _ = none

-- _vector_shrink: the vector keeps its block if `realloc` fails.
abbrev pub kept : Option Block → Option Block → Option Block
kept block none = block
kept block (some cells) = some cells

unfoldable pub shrink : Bool → Vector → Vector
shrink memory v =
    let old_cap = align_power2_uint (v.len + 1) in
    let new_cap = align_power2_short_uint v.len in
    if v.len == 0
    then record v { block = none }
    else if new_cap == old_cap
    then v
    else record v { block = kept v.block (realloc memory v.block new_cap) }

-- if (tail_len) memmove(...)
unfoldable pub close : ℕ → ℕ → Option Block → Option (Option Block)
close i tail block =
    if tail == 0
    then some block
    else do cells ← block; moved ← move_down cells i tail; some (some moved)

abbrev pub shrunk : Bool → ℕ → Option (Option Block) → Option (ArtikError × Vector)
shrunk memory len none = none
shrunk memory len (some block) = some (s_ok, shrink memory (record { block = block; len = len }))

-- _vector_del, which _ptr_vector_del calls.
unfoldable pub del : Bool → Vector → ℕ → Option (ArtikError × Vector)
del memory v i =
    if leb v.len i
    then some (e_invalid_value, v)
    else shrunk memory (v.len - 1) (close i (v.len - 1 - i) v.block)
