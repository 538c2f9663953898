-- ===== src/Manager/Counts.antt =====
-- How the counts on the nodes of linux_module.c change with a node.
use testing.Base.{
  ℕ, ◌+◌, ◌≡◌, ◌≢◌, refl, true, false, not, ◌&&◌, some, List, [], ◌∷◌, ◌++◌, ◌==◌, if◌then◌else◌,
  arith, Bool-cases, inl, inr, ==→eq, ne_of_==,
}
use testing.Manager.{Info}
use testing.Manager.Infos.{look, drop_first, has, occurs, references, modules_of}

pub references-append :
    (symbol : ℕ) (is : List Info) (j : Info)
    → references symbol (is ++ j ∷ []) ≡ references symbol is + (if has symbol j then 1 else 0)
unfolding references
references-append symbol [] j = ground arith
references-append symbol (i ∷ is) j = ground (arith, references-append symbol is j)

pub occurs-references :
    (symbol : ℕ) (is : List Info) → occurs symbol is ≡ false → references symbol is ≡ 0
unfolding occurs references
occurs-references symbol [] o = refl
occurs-references symbol (i ∷ is) o = ground (arith, occurs-references symbol is)

pub references-occurs :
    (symbol : ℕ) (is : List Info) → references symbol is ≡ 0 → occurs symbol is ≡ false
unfolding occurs references
references-occurs symbol [] o = refl
references-occurs symbol (i ∷ is) o = ground (arith, references-occurs symbol is)

pub look-occurs :
    (symbol : ℕ) (is : List Info) (i : Info)
    → look (has symbol) is ≡ some i
    → occurs symbol is ≡ true
unfolding look occurs
look-occurs symbol [] i e = absurd cc
look-occurs symbol (j ∷ is) i e = ground (arith, look-occurs symbol is i)

pub references-drop_first :
    (symbol : ℕ) (is : List Info) (i : Info)
    → look (has symbol) is ≡ some i
    → references symbol (drop_first (has symbol) is) + 1 ≡ references symbol is
unfolding look references drop_first
references-drop_first symbol [] i e = absurd cc
references-drop_first symbol (j ∷ is) i e = ground (arith, references-drop_first symbol is i)

pub references-drop_first_other :
    (symbol other : ℕ) (is : List Info)
    → other ≢ symbol
    → references other (drop_first (has symbol) is) ≡ references other is
unfolding references drop_first
references-drop_first_other symbol other [] n = refl
references-drop_first_other symbol other (j ∷ is) n =
    ground (arith, references-drop_first_other symbol other is)

occurs-drop_first :
    (symbol other : ℕ) (is : List Info)
    → other ≢ symbol
    → occurs other (drop_first (has symbol) is) ≡ occurs other is
unfolding occurs drop_first
occurs-drop_first symbol other [] n = refl
occurs-drop_first symbol other (j ∷ is) n = ground (arith, occurs-drop_first symbol other is)

-- A removal takes a module off its library's count exactly if it takes the module's last node.
pub modules_of-drop_first :
    (h symbol : ℕ) (is : List Info) (i : Info)
    → look (has symbol) is ≡ some i
    → modules_of h (drop_first (has symbol) is)
        + (if i.dl_handle == h && not (occurs symbol (drop_first (has symbol) is)) then 1 else 0)
      ≡ modules_of h is
unfolding look modules_of drop_first occurs
modules_of-drop_first h symbol [] i e = absurd cc
modules_of-drop_first h symbol (j ∷ is) i e = elim (Bool-cases (has symbol j)) [
  | inl hit ↦
      let whole : some j ≡ some i = rw hit at e in
      let same : j ≡ i = cc in
      let is_symbol : i.dl_symbol ≡ symbol = ==→eq i.dl_symbol symbol (rw same at hit) in
      rw hit (rw (same, is_symbol) (omega arith))
  | inr miss ↦
      let further : look (has symbol) is ≡ some i = rw miss at e in
      let other : j.dl_symbol ≢ symbol = ne_of_== j.dl_symbol symbol miss in
      ground (
        arith,
        occurs-drop_first symbol j.dl_symbol is other,
        modules_of-drop_first h symbol is i further,
      )
]
