-- ===== src/ArtikList/Clear.antt =====
-- `artik_list_delete_all` (inc/base/artik_list.h) on the lists that a heap holds.
use testing.Base.{
  ℕ, zero, suc, ◌<◌, ◌≡◌, ◌∙◌, refl, sym, none, some, List, [], ◌∷◌, ◌++◌, arith, ne→==, length,
  s_ok, All,
}
use mathlib.Core.List.{append_assoc}
use testing.ArtikList.{Entry, Heap, Event, null, dispose, disposal, clear_from, delete_all}
use testing.ArtikList.Abstract.{first, Fresh}
use testing.ArtikList.Chain.{Linked, Linked-update, update_self, update_other}

module _ {ℓ} {P : Type ℓ} where
  -- The events of giving back every node, newest first.
  abbrev pub all_events : List (ℕ × Entry P) → List Event
  all_events [] = []
  all_events ((a, e) ∷ xs) = all_events xs ++ disposal a e

  -- What is left of the heap: no node of the list, the events of each, and all other addresses.
  pub record Cleared (h h' : Heap P) (xs : List (ℕ × Entry P)) : Type ℓ where
    pub released : All (λ x. h'.cell x.0 ≡ none) xs
    pub told : h'.trace ≡ all_events xs ++ h.trace
    pub kept : (c : ℕ) → Fresh c xs → h'.cell c ≡ h.cell c

  clear_from_lem :
      (fuel : ℕ) (h : Heap P) (xs : List (ℕ × Entry P))
      → length xs < fuel
      → Linked h.cell xs
      → (h' : Heap P) × (clear_from fuel h (first xs) ≡ some (null, h')) × Cleared h h' xs
  unfolding clear_from
  clear_from_lem zero h xs f l = elim f [ ]
  clear_from_lem (suc fuel) h [] f l =
      (h, refl, record { released = tt; told = refl; kept = λ c _. refl })
  clear_from_lem (suc fuel) h ((a, e) ∷ xs) f l =
      let rest = Linked-update h.cell a none xs l.1 l.3 in
      let (h', done, c) = clear_from_lem fuel (dispose h a e) xs (omega arith) rest in
      (
        h',
        rw (ne→== a null l.0, l.2) done,
        record {
          released = (c.kept a l.1 ∙ update_self h.cell a none, c.released);
          told = c.told ∙ sym (append_assoc (all_events xs) (disposal a e) h.trace);
          kept = λ b f'. c.kept b f'.1 ∙ update_other h.cell a b none (λ q. f'.0 (sym q));
        },
      )

  -- A list that is not empty is emptied, each of its nodes given back once and in order.
  pub delete_all_lem :
      (fuel : ℕ) (h : Heap P) (x : ℕ × Entry P) (xs : List (ℕ × Entry P))
      → length (x ∷ xs) < fuel
      → Linked h.cell (x ∷ xs)
      → (h' : Heap P) × (delete_all fuel h x.0 ≡ some (s_ok, null, h')) × Cleared h h' (x ∷ xs)
  unfolding delete_all
  delete_all_lem fuel h (a, e) xs f l =
      let (h', done, c) = clear_from_lem fuel h ((a, e) ∷ xs) f l in
      (h', rw (ne→== a null l.0) (rw done), c)
