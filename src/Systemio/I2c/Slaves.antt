-- ===== src/Systemio/I2c/Slaves.antt =====
-- The slave that a configuration stands for (src/modules/systemio/i2c/artik_i2c.c), apart from the
-- code's own test.
use testing.Base.{
  ℕ, ◌≡◌, ◌≢◌, ◌⊎◌, refl, true, false, List, [], ◌∷◌, All, Bool-cases, inl, inr, arith,
}
use testing.ArtikList.{Entry, null}
use testing.ArtikList.Abstract.{find}
use testing.Systemio.Nodes.{Handled}
use testing.Systemio.Registry.Valid.{Alike, Exclusive}
use testing.Systemio.I2c.{I2cConfig, check_exist}

-- The same address on the same bus.
abbrev pub SameSlave : I2cConfig → I2cConfig → Type 0
SameSlave c d = (c.id ≡ d.id) × (c.address ≡ d.address)

-- No node is for a slave.
abbrev pub Free : I2cConfig → List (ℕ × Entry I2cConfig) → Type 0
Free c xs = All (λ y. ¬ SameSlave y.1.payload c) xs

-- A node is for a slave.
abbrev pub Held : I2cConfig → List (ℕ × Entry I2cConfig) → Type 0
Held c [] = ⊥
Held c ((a, e) ∷ xs) = SameSlave e.payload c ⊎ Held c xs

-- No two nodes are for one slave.
abbrev pub Apart : List (ℕ × Entry I2cConfig) → Type 0
Apart [] = Unit
Apart ((a, e) ∷ xs) = All (λ y. ¬ SameSlave e.payload y.1.payload) xs × Apart xs

pub check_exist-SameSlave : (c d : I2cConfig) → SameSlave c d → check_exist c d ≡ true
check_exist-SameSlave c d h = ground arith

check_exist-other : (c d : I2cConfig) → ¬ SameSlave c d → check_exist c d ≡ false
check_exist-other c d h = elim (Bool-cases (check_exist c d)) [
  | inl t ↦ absurd (h (ground arith, ground arith))
  | inr f ↦ f
]

SameSlave-unchecked : (c d : I2cConfig) → check_exist c d ≡ false → ¬ SameSlave c d
SameSlave-unchecked c d f h = let t = check_exist-SameSlave c d h in cc

pub SameSlave-Alike : (c d : I2cConfig) → SameSlave c d → Alike check_exist c d
SameSlave-Alike c d h = record { from = λ x. rw (h.0, h.1) refl; to = λ x. rw (h.0, h.1) refl }

unchecked :
    (c : I2cConfig) (xs : List (ℕ × Entry I2cConfig))
    → All (λ y. ¬ SameSlave c y.1.payload) xs
    → All (λ y. check_exist c y.1.payload ≡ false) xs
unchecked c [] h = tt
unchecked c ((a, e) ∷ xs) h = (check_exist-other c e.payload h.0, unchecked c xs h.1)

others :
    (c : I2cConfig) (xs : List (ℕ × Entry I2cConfig))
    → All (λ y. check_exist c y.1.payload ≡ false) xs
    → All (λ y. ¬ SameSlave c y.1.payload) xs
others c [] h = tt
others c ((a, e) ∷ xs) h = (SameSlave-unchecked c e.payload h.0, others c xs h.1)

pub Apart-Exclusive : (xs : List (ℕ × Entry I2cConfig)) → Apart xs → Exclusive check_exist xs
Apart-Exclusive [] h = tt
Apart-Exclusive ((a, e) ∷ xs) h = (unchecked e.payload xs h.0, Apart-Exclusive xs h.1)

pub Exclusive-Apart : (xs : List (ℕ × Entry I2cConfig)) → Exclusive check_exist xs → Apart xs
Exclusive-Apart [] h = tt
Exclusive-Apart ((a, e) ∷ xs) h = (others e.payload xs h.0, Exclusive-Apart xs h.1)

-- The search of a request finds a node for its slave, and no other.
pub find-Free :
    (c : I2cConfig) (xs : List (ℕ × Entry I2cConfig))
    → Free c xs
    → find (λ _ e. check_exist e.payload c) xs ≡ null
unfolding find
find-Free c [] h = refl
find-Free c ((a, e) ∷ xs) h = rw (check_exist-other e.payload c h.0) (find-Free c xs h.1)

pub find-Held :
    (c : I2cConfig) (xs : List (ℕ × Entry I2cConfig))
    → Handled xs
    → Held c xs
    → find (λ _ e. check_exist e.payload c) xs ≢ null
unfolding find
find-Held c [] h held = absurd held
find-Held c ((a, e) ∷ xs) h (inl same) = rw (check_exist-SameSlave e.payload c same) h.0
find-Held c ((a, e) ∷ xs) h (inr later) = elim (Bool-cases (check_exist e.payload c)) [
  | inl hit ↦ rw hit h.0
  | inr miss ↦ rw miss (find-Held c xs h.3 later)
]

pub Held-Free : (c : I2cConfig) (xs : List (ℕ × Entry I2cConfig)) → Held c xs ⊎ Free c xs
Held-Free c [] = inr tt
Held-Free c ((a, e) ∷ xs) = elim (Bool-cases (check_exist e.payload c)) [
  | inl hit ↦ inl (inl (ground arith, ground arith))
  | inr miss ↦ elim (Held-Free c xs) [
    | inl held ↦ inl (inr held)
    | inr free ↦ inr (SameSlave-unchecked e.payload c miss, free)
  ]
]
