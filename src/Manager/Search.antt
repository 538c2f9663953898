-- ===== src/Manager/Search.antt =====
-- Searches and removals by a check in linux_module.c, on the contents of the nodes.
use testing.Base.{
  ℕ, ◌≡◌, ◌≢◌, ◌⊎◌, refl, sym, ap, Bool, Option, none, some, List, [], ◌∷◌, ◌++◌, All, s_ok,
  Bool-cases, inl, inr, eq→==, ne→==,
}
use testing.ArtikList.{Entry, null}
use testing.ArtikList.Abstract.{Fresh, remove}
use testing.Systemio.Nodes.{Handled, Handled-remove, entry_at}
use testing.Manager.{Info, get_by_check, delete_check, info_of}
use testing.Manager.Infos.{infos, look, drop_first}

-- A check that faults at no node, and agrees with a test.
abbrev pub Agrees : (Info → Option Bool) → (Info → Bool) → List Info → Type 0
Agrees check q is = All (λ i. check i ≡ some (q i)) is

-- A search that found a node with these contents.
pub record Found (check : Info → Option Bool) (q : Info → Bool) (xs : List (ℕ × Entry Info))
    : Type 0 where
  pub node : ℕ
  pub info : Info
  pub got : get_by_check check xs ≡ some node
  pub there : node ≢ null
  pub looked : look q (infos xs) ≡ some info
  pub contents : info_of (entry_at node xs) ≡ info
  pub elsewhere : (b : ℕ) → Fresh b xs → node ≢ b

-- One that found none.
pub record Missed (check : Info → Option Bool) (q : Info → Bool) (xs : List (ℕ × Entry Info))
    : Type 0 where
  pub got : get_by_check check xs ≡ some null
  pub looked : look q (infos xs) ≡ none

pub get_by_check-cases :
    (check : Info → Option Bool) (q : Info → Bool) (xs : List (ℕ × Entry Info))
    → Handled xs
    → Agrees check q (infos xs)
    → Found check q xs ⊎ Missed check q xs
unfolding get_by_check look entry_at
get_by_check-cases check q [] h a = inr (record { got = refl; looked = refl })
get_by_check-cases check q ((b, e) ∷ xs) h a = elim (Bool-cases (q e.payload)) [
  | inl hit ↦ inl (record {
    node = b;
    info = e.payload;
    got = rw (a.0, hit) refl;
    there = h.0;
    looked = rw hit refl;
    contents = rw (eq→== b b refl) refl;
    elsewhere = λ c f. f.0;
  })
  | inr miss ↦ elim (get_by_check-cases check q xs h.3 a.1) [
    | inr none_there ↦
        inr (record { got = rw (a.0, miss) none_there.got; looked = rw miss none_there.looked })
    | inl f ↦ inl (record {
      node = f.node;
      info = f.info;
      got = rw (a.0, miss) f.got;
      there = f.there;
      looked = rw miss f.looked;
      contents = rw (ne→== b f.node (λ p. f.elsewhere b h.2 (sym p))) f.contents;
      elsewhere = λ c g. f.elsewhere c g.1;
    })
  ]
]

abbrev of_entry : (Info → Bool) → ℕ → Entry Info → Bool
of_entry q a e = q e.payload

infos-remove :
    (q : Info → Bool) (xs : List (ℕ × Entry Info))
    → infos (remove (of_entry q) xs) ≡ drop_first q (infos xs)
unfolding remove drop_first
infos-remove q [] = refl
infos-remove q ((a, e) ∷ xs) = elim (Bool-cases (q e.payload)) [
  | inl hit ↦ rw hit refl
  | inr miss ↦ rw miss (ap (λ is. e.payload ∷ is) (infos-remove q xs))
]

delete_check-remove :
    (check : Info → Option Bool) (q : Info → Bool) (xs : List (ℕ × Entry Info)) (i : Info)
    → Agrees check q (infos xs)
    → look q (infos xs) ≡ some i
    → delete_check check xs ≡ some (s_ok, remove (of_entry q) xs)
unfolding delete_check look remove
delete_check-remove check q [] i a e = absurd cc
delete_check-remove check q ((b, d) ∷ xs) i a e = elim (Bool-cases (q d.payload)) [
  | inl hit ↦ rw (a.0, hit) refl
  | inr miss ↦
      let further : look q (infos xs) ≡ some i = rw miss at e in
      rw (a.0, miss) (rw (delete_check-remove check q xs i a.1 further) refl)
]

pub delete_check-drop_first :
    (check : Info → Option Bool) (q : Info → Bool) (xs : List (ℕ × Entry Info)) (i : Info)
    → Handled xs
    → Agrees check q (infos xs)
    → look q (infos xs) ≡ some i
    → (ys : List (ℕ × Entry Info)) × (delete_check check xs ≡ some (s_ok, ys))
      × (infos ys ≡ drop_first q (infos xs))
      × Handled ys
delete_check-drop_first check q xs i h a e = (
  remove (of_entry q) xs,
  delete_check-remove check q xs i a e,
  infos-remove q xs,
  Handled-remove (of_entry q) xs h,
)

pub infos-append :
    (xs : List (ℕ × Entry Info)) (m : ℕ) (e : Entry Info)
    → infos (xs ++ (m, e) ∷ []) ≡ infos xs ++ e.payload ∷ []
infos-append [] m e = refl
infos-append (x ∷ xs) m e = ap (λ is. x.1.payload ∷ is) (infos-append xs m e)
