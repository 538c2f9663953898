-- ===== src/ArtikList/Abstract.antt =====
-- The lists that inc/base/artik_list.h stands for: the nodes in order, each with its address.
use testing.Base.{ℕ, zero, suc, ◌≢◌, Bool, List, [], ◌∷◌, if◌then◌else◌, All, ◌==◌}
use testing.ArtikList.{Entry, Event, null, disposal}

module _ {ℓ} {P : Type ℓ} where
  -- The pointer to a list's first node.
  abbrev pub first : List (ℕ × Entry P) → ℕ
  first [] = null
  first (x ∷ xs) = x.0

  -- No node of the list has this address.
  abbrev pub Fresh : ℕ → List (ℕ × Entry P) → Type 0
  Fresh a xs = All (λ x. x.0 ≢ a) xs

  -- The address of the first node at which the test holds, NULL if there is none.
  unfoldable pub find : (ℕ → Entry P → Bool) → List (ℕ × Entry P) → ℕ
  find stop [] = null
  find stop ((a, e) ∷ xs) = if stop a e then a else find stop xs

  -- The address of the node before that one, `p` if it is the first.
  unfoldable pub before : (ℕ → Entry P → Bool) → ℕ → List (ℕ × Entry P) → ℕ
  before stop p [] = p
  before stop p ((a, e) ∷ xs) = if stop a e then p else before stop a xs

  -- The list without the first node at which the test holds.
  unfoldable pub remove : (ℕ → Entry P → Bool) → List (ℕ × Entry P) → List (ℕ × Entry P)
  remove stop [] = []
  remove stop ((a, e) ∷ xs) = if stop a e then xs else (a, e) ∷ remove stop xs

  -- The events of giving that node back.
  unfoldable pub events : (ℕ → Entry P → Bool) → List (ℕ × Entry P) → List Event
  events stop [] = []
  events stop ((a, e) ∷ xs) = if stop a e then disposal a e else events stop xs

  -- The node at a position.
  unfoldable pub nth : List (ℕ × Entry P) → ℕ → ℕ
  nth [] pos = null
  nth (x ∷ xs) zero = x.0
  nth (x ∷ xs) (suc pos) = nth xs pos

  -- The list without the node at a position.
  unfoldable pub remove_at : List (ℕ × Entry P) → ℕ → List (ℕ × Entry P)
  remove_at [] pos = []
  remove_at (x ∷ xs) zero = xs
  remove_at (x ∷ xs) (suc pos) = x ∷ remove_at xs pos

  -- The address of the last node.
  unfoldable pub final : List (ℕ × Entry P) → ℕ
  final [] = null
  final ((a, e) ∷ []) = a
  final ((a, e) ∷ x ∷ xs) = final (x ∷ xs)

  abbrev pub is : ℕ → ℕ → Entry P → Bool
  is node a e = a == node
