-- ===== src/Systemio/Gpio/Linux/Stands.antt =====
-- What holds between the calls of the GPIO module (artik_gpio.c) on the Linux driver (linux_gpio.c).
use testing.Base.{
  ℕ, ◌≡◌, ◌≢◌, refl, sym, ap, subst, Bool, false, Option, some, List, [], ◌∷◌, ◌==◌, All,
  Bool-cases, inl, inr, ==→eq, ne_of_==,
}
use testing.ArtikList.{Entry}
use testing.ArtikList.Abstract.{Fresh, remove, is}
use testing.Systemio.Nodes.{Handled, entry_at, modify, modify-Fresh}
use testing.Systemio.Registry.{State, put}
use testing.Systemio.Registry.Valid.{Exclusive, IsValid}
use testing.Systemio.Gpio.{GpioConfig, check_exist}
use testing.Systemio.Gpio.Linux.{Board}
use testing.Systemio.Gpio.Linux.Backed.{Backed}

abbrev pub same_block : GpioConfig → GpioConfig → Bool
same_block a b = a.user_data == b.user_data

-- The program has not faulted, and every node's pin is exported, with a block of its own.
pub record Stands (s : State GpioConfig (Option Board)) : Type 0 where
  pub board : Board
  pub running : s.world ≡ some board
  pub valid : IsValid check_exist s
  pub backed : All (λ y. Backed board y.1.payload) s.nodes
  pub apart : Exclusive same_block s.nodes

abbrev pub Nodes : Type 0
Nodes = List (ℕ × Entry GpioConfig)

pub All-imp :
    (P Q : GpioConfig → Type 0) (xs : Nodes)
    → ((c : GpioConfig) → P c → Q c)
    → All (λ y. P y.1.payload) xs
    → All (λ y. Q y.1.payload) xs
All-imp P Q [] f h = tt
All-imp P Q (x ∷ xs) f h = (f x.1.payload h.0, All-imp P Q xs f h.1)

pub All-entry :
    (P : GpioConfig → Type 0) (node : ℕ) (e : Entry GpioConfig) (xs : Nodes)
    → entry_at node xs ≡ some e
    → All (λ y. P y.1.payload) xs
    → P e.payload
unfolding entry_at
All-entry P node e [] t h = absurd cc
All-entry P node e ((a, d) ∷ xs) t h = elim (Bool-cases (a == node)) [
  | inl hit ↦
      let whole : some d ≡ some e = rw hit at t in
      let same : d ≡ e = cc in subst (λ x. P x.payload) same h.0
  | inr miss ↦ All-entry P node e xs (rw miss at t) h.1
]

pub modify-put :
    (node : ℕ) (e : Entry GpioConfig) (xs : Nodes)
    → Handled xs
    → entry_at node xs ≡ some e
    → modify node (put e.payload) xs ≡ xs
unfolding entry_at modify
modify-put node e [] h t = refl
modify-put node e ((a, d) ∷ xs) h t = elim (Bool-cases (a == node)) [
  | inl hit ↦
      let whole : some d ≡ some e = rw hit at t in
      let same : d ≡ e = cc in
      let kept =
        modify-Fresh node (put e.payload) xs (subst (λ b. Fresh b xs) (==→eq a node hit) h.2) in
      rw (hit, kept, same) refl
  | inr miss ↦ rw miss (ap (λ ys. (a, d) ∷ ys) (modify-put node e xs h.3 (rw miss at t)))
]

-- Two configurations for different pins, with different blocks.
abbrev pub Apart : GpioConfig → GpioConfig → Type 0
Apart a b = (a.id ≢ b.id) × (a.user_data ≢ b.user_data)

Apart-right :
    (c : GpioConfig) (xs : Nodes)
    → All (λ y. check_exist c y.1.payload ≡ false) xs
    → All (λ y. same_block c y.1.payload ≡ false) xs
    → All (λ y. Apart c y.1.payload) xs
Apart-right c [] h g = tt
Apart-right c (x ∷ xs) h g = ((ne_of_== _ _ h.0, ne_of_== _ _ g.0), Apart-right c xs h.1 g.1)

-- What holds of every configuration apart from a node's holds of all the others.
pub All-others :
    (P : GpioConfig → Type 0) (node : ℕ) (e : Entry GpioConfig) (xs : Nodes)
    → Exclusive check_exist xs
    → Exclusive same_block xs
    → entry_at node xs ≡ some e
    → All (λ y. Apart e.payload y.1.payload → P y.1.payload) xs
    → All (λ y. P y.1.payload) (remove (is node) xs)
unfolding entry_at remove
All-others P node e [] x b t h = tt
All-others P node e ((a, d) ∷ xs) x b t h = elim (Bool-cases (a == node)) [
  | inl hit ↦
      let whole : some d ≡ some e = rw hit at t in
      let same : d ≡ e = cc in
      let apart : All (λ y. Apart e.payload y.1.payload) xs =
        subst (λ z. All (λ y. Apart z.payload y.1.payload) xs) same
          (Apart-right d.payload xs x.0 b.0) in
      rw hit (both xs apart h.1)
  | inr miss ↦
      let far =
        All-entry (λ c. Apart d.payload c) node e xs (rw miss at t)
          (Apart-right d.payload xs x.0 b.0) in
      let swapped : Apart e.payload d.payload = ((λ q. far.0 (sym q)), (λ q. far.1 (sym q))) in
      rw miss (h.0 swapped, All-others P node e xs x.1 b.1 (rw miss at t) h.1)
]
  where
    both :
        (ys : Nodes)
        → All (λ y. Apart e.payload y.1.payload) ys
        → All (λ y. Apart e.payload y.1.payload → P y.1.payload) ys
        → All (λ y. P y.1.payload) ys
    both [] h g = tt
    both (y ∷ ys) h g = (g.0 h.0, both ys h.1 g.1)
