-- ===== src/Manager/Infos.antt =====
-- The contents of the nodes of linux_module.c, in order, and how many modules of a library they hold.
use testing.Base.{
  ℕ, ◌+◌, ◌<◌, ◌≡◌, subst, Bool, true, false, not, ◌&&◌, ◌||◌, Option, none, some, List, [], ◌∷◌,
  ◌++◌, All, ◌==◌, if◌then◌else◌, arith, Bool-cases, inl, inr,
}
use testing.ArtikList.{Entry}
use testing.Manager.{Info}

abbrev pub infos : List (ℕ × Entry Info) → List Info
infos [] = []
infos (x ∷ xs) = x.1.payload ∷ infos xs

-- The first that passes a test.
unfoldable pub look : (Info → Bool) → List Info → Option Info
look q [] = none
look q (i ∷ is) = if q i then some i else look q is

-- The list without it.
unfoldable pub drop_first : (Info → Bool) → List Info → List Info
drop_first q [] = []
drop_first q (i ∷ is) = if q i then is else i ∷ drop_first q is

pub look-hit : (q : Info → Bool) (is : List Info) (i : Info) → look q is ≡ some i → q i ≡ true
unfolding look
look-hit q [] i e = absurd cc
look-hit q (j ∷ is) i e = elim (Bool-cases (q j)) [
  | inl hit ↦
      let same : some j ≡ some i = rw hit at e in
      let is_i : j ≡ i = cc in subst (λ k. q k ≡ true) is_i hit
  | inr miss ↦ look-hit q is i (rw miss at e)
]

pub look-All :
    (P : Info → Type 0) (q : Info → Bool) (is : List Info) (i : Info)
    → look q is ≡ some i
    → All P is
    → P i
unfolding look
look-All P q [] i e h = absurd cc
look-All P q (j ∷ is) i e h = elim (Bool-cases (q j)) [
  | inl hit ↦ let same : some j ≡ some i = rw hit at e in let is_i : j ≡ i = cc in subst P is_i h.0
  | inr miss ↦ look-All P q is i (rw miss at e) h.1
]

pub look-none : (q : Info → Bool) (is : List Info) → look q is ≡ none → All (λ i. q i ≡ false) is
unfolding look
look-none q [] e = tt
look-none q (j ∷ is) e = elim (Bool-cases (q j)) [
  | inl hit ↦ let h : some j ≡ none = rw hit at e in absurd cc
  | inr miss ↦ (miss, look-none q is (rw miss at e))
]

pub All-drop_first :
    (P : Info → Type 0) (q : Info → Bool) (is : List Info) → All P is → All P (drop_first q is)
unfolding drop_first
All-drop_first P q [] h = tt
All-drop_first P q (i ∷ is) h = elim (Bool-cases (q i)) [
  | inl hit ↦ rw hit h.1
  | inr miss ↦ rw miss (h.0, All-drop_first P q is h.1)
]

pub All-imp :
    (P Q : Info → Type 0) (is : List Info) → ((i : Info) → P i → Q i) → All P is → All Q is
All-imp P Q [] f h = tt
All-imp P Q (i ∷ is) f h = (f i h.0, All-imp P Q is f h.1)

pub All-both :
    (P Q R : Info → Type 0) (is : List Info)
    → ((i : Info) → P i → Q i → R i)
    → All P is
    → All Q is
    → All R is
All-both P Q R [] f h k = tt
All-both P Q R (i ∷ is) f h k = (f i h.0 k.0, All-both P Q R is f h.1 k.1)

-- Does a node stand for the module with a symbol?
abbrev pub has : ℕ → Info → Bool
has symbol i = i.dl_symbol == symbol

unfoldable pub occurs : ℕ → List Info → Bool
occurs symbol [] = false
occurs symbol (i ∷ is) = has symbol i || occurs symbol is

-- How many nodes stand for it.
unfoldable pub references : ℕ → List Info → ℕ
references symbol [] = 0
references symbol (i ∷ is) = (if has symbol i then 1 else 0) + references symbol is

-- How many modules the nodes stand for that come from a library: each is counted at its last node.
unfoldable pub modules_of : ℕ → List Info → ℕ
modules_of h [] = 0
modules_of h (i ∷ is) =
    (if i.dl_handle == h && not (occurs i.dl_symbol is) then 1 else 0) + modules_of h is

-- Nodes with the same symbol have the same library.
abbrev pub Consistent : Info → Info → Type 0
Consistent i j = i.dl_symbol ≡ j.dl_symbol → i.dl_handle ≡ j.dl_handle

occurs-append :
    (symbol : ℕ) (is : List Info) (j : Info)
    → occurs symbol (is ++ j ∷ []) ≡ (occurs symbol is || has symbol j)
unfolding occurs
occurs-append symbol [] j = ground arith
occurs-append symbol (i ∷ is) j = ground (arith, occurs-append symbol is j)

pub modules_of-append_new :
    (h : ℕ) (is : List Info) (j : Info)
    → occurs j.dl_symbol is ≡ false
    → modules_of h (is ++ j ∷ []) ≡ modules_of h is + (if j.dl_handle == h then 1 else 0)
unfolding modules_of occurs
modules_of-append_new h [] j o = ground arith
modules_of-append_new h (i ∷ is) j o =
    ground (arith, occurs-append i.dl_symbol is j, modules_of-append_new h is j)

pub modules_of-append_known :
    (h : ℕ) (is : List Info) (j : Info)
    → All (λ i. Consistent i j) is
    → occurs j.dl_symbol is ≡ true
    → modules_of h (is ++ j ∷ []) ≡ modules_of h is
unfolding modules_of occurs
modules_of-append_known h [] j c o = cc
modules_of-append_known h (i ∷ is) j c o = ground (
  arith,
  c.0,
  occurs-append i.dl_symbol is j,
  modules_of-append_new h is j,
  modules_of-append_known h is j c.1,
)

pub modules_of-pos :
    (symbol h : ℕ) (is : List Info)
    → All (λ i. i.dl_symbol ≡ symbol → i.dl_handle ≡ h) is
    → occurs symbol is ≡ true
    → 0 < modules_of h is
unfolding modules_of occurs
modules_of-pos symbol h [] c o = cc
modules_of-pos symbol h (i ∷ is) c o = ground (arith, c.0, modules_of-pos symbol h is c.1)
