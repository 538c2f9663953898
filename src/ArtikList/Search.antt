-- ===== src/ArtikList/Search.antt =====
-- The searches of inc/base/artik_list.h on the lists that a heap holds.
use testing.Base.{
  ℕ, zero, suc, ◌+◌, ◌%◌, ◌^◌, ◌≤◌, ◌<◌, ◌≡◌, ◌≢◌, refl, sym, ap, Option, some, List, [], ◌∷◌,
  arith, ◌∙◌, ◌==◌, Bool, ne→==, eq→==, Bool-cases, inl, inr, length, leb, leb→le, leb→lt,
}
use testing.ArtikList.{
  Entry, Node, Heap, null, last, count, size, seek, seek_pos, get_by_handle, get_by_pos,
  get_by_check, end,
}
use testing.ArtikList.Abstract.{first, Fresh, find, before, nth, remove, remove_at, final, is}
use testing.ArtikList.Chain.{Linked}

module _ {ℓ} {P : Type ℓ} where
  pub seek_lem :
      (stop : ℕ → Entry P → Bool) (h : Heap P) (fuel p : ℕ) (xs : List (ℕ × Entry P))
      → length xs < fuel
      → Linked h.cell xs
      → seek stop fuel h p (first xs) ≡ some (before stop p xs, find stop xs)
  unfolding seek before find
  seek_lem stop h zero p xs f l = elim f [ ]
  seek_lem stop h (suc fuel) p [] f l = refl
  seek_lem stop h (suc fuel) p ((a, e) ∷ xs) f l =
      rw (ne→== a null l.0, l.2)
        (elim (Bool-cases (stop a e)) [
          | inl hit ↦ rw hit
          | inr miss ↦ rw miss (seek_lem stop h fuel a xs (omega arith) l.3)
        ])

  pub count_lem :
      (h : Heap P) (fuel res : ℕ) (xs : List (ℕ × Entry P))
      → length xs < fuel
      → res < 2 ^ 32
      → Linked h.cell xs
      → count fuel h (first xs) res ≡ some ((res + length xs) % 2 ^ 32)
  unfolding count
  count_lem h zero res xs f r l = elim f [ ]
  count_lem h (suc fuel) res [] f r l = ap some (omega arith)
  count_lem h (suc fuel) res ((a, e) ∷ xs) f r l =
      rw
        (
          ne→== a null l.0,
          l.2,
          count_lem h fuel ((res + 1) % 2 ^ 32) xs (omega arith) (omega arith) l.3,
        )
        (ap some (omega arith))

  -- The search for a handle finds the first node with that handle.
  pub get_by_handle_lem :
      (h : Heap P) (fuel handle : ℕ) (xs : List (ℕ × Entry P))
      → length xs < fuel
      → handle ≢ null
      → Linked h.cell xs
      → get_by_handle fuel h (first xs) handle ≡ some (find (λ _ e. e.handle == handle) xs)
  unfolding get_by_handle find
  get_by_handle_lem h fuel handle [] f n l = refl
  get_by_handle_lem h fuel handle ((a, e) ∷ xs) f n l =
      rw (ne→== a null l.0, ne→== handle null n)
        (rw (seek_lem (λ _ e. e.handle == handle) h fuel null ((a, e) ∷ xs) f l) refl)

  -- The search by a test finds the first node that passes it.
  pub get_by_check_lem :
      (check : ℕ → Entry P → Bool) (h : Heap P) (fuel : ℕ) (xs : List (ℕ × Entry P))
      → length xs < fuel
      → Linked h.cell xs
      → get_by_check fuel h (first xs) check ≡ some (find check xs)
  unfolding get_by_check find
  get_by_check_lem check h fuel [] f l = refl
  get_by_check_lem check h fuel ((a, e) ∷ xs) f l =
      rw (ne→== a null l.0) (rw (seek_lem check h fuel null ((a, e) ∷ xs) f l) refl)

  -- The size is the number of nodes, modulo 2^32.
  pub size_lem :
      (h : Heap P) (fuel : ℕ) (xs : List (ℕ × Entry P))
      → length xs < fuel
      → Linked h.cell xs
      → size fuel h (first xs) ≡ some (length xs % 2 ^ 32)
  unfolding size
  size_lem h fuel xs f l = count_lem h fuel 0 xs f (omega arith) l ∙ ap some (omega arith)

  -- A node of the list is at another address than one that the list lacks.
  pub nth-ne : (a pos : ℕ) (xs : List (ℕ × Entry P)) → Fresh a xs → pos < length xs → a ≢ nth xs pos
  unfolding nth
  nth-ne a pos [] f h = elim h [ ]
  nth-ne a zero (x ∷ xs) f h = λ e. f.0 (sym e)
  nth-ne a (suc pos) (x ∷ xs) f h = nth-ne a pos xs f.1 (omega arith)

  pub seek_pos_lem :
      (h : Heap P) (pos p : ℕ) (xs : List (ℕ × Entry P))
      → pos < length xs
      → Linked h.cell xs
      → seek_pos h pos p (first xs) ≡ some (before (is (nth xs pos)) p xs, nth xs pos)
  unfolding seek_pos before nth
  seek_pos_lem h pos p [] f l = elim f [ ]
  seek_pos_lem h zero p ((a, e) ∷ xs) f l = rw (eq→== a a refl)
  seek_pos_lem h (suc pos) p ((a, e) ∷ xs) f l =
      rw (ne→== a null l.0, l.2, ne→== a (nth xs pos) (nth-ne a pos xs l.1 (omega arith)))
        (seek_pos_lem h pos a xs (omega arith) l.3)

  pub find-nth :
      (cell : ℕ → Option (Node P)) (pos : ℕ) (xs : List (ℕ × Entry P))
      → pos < length xs
      → Linked cell xs
      → find (is (nth xs pos)) xs ≡ nth xs pos
  unfolding find nth
  find-nth cell pos [] f l = elim f [ ]
  find-nth cell zero ((a, e) ∷ xs) f l = rw (eq→== a a refl)
  find-nth cell (suc pos) ((a, e) ∷ xs) f l =
      rw (ne→== a (nth xs pos) (nth-ne a pos xs l.1 (omega arith)))
        (find-nth cell pos xs (omega arith) l.3)

  pub remove-nth :
      (cell : ℕ → Option (Node P)) (pos : ℕ) (xs : List (ℕ × Entry P))
      → pos < length xs
      → Linked cell xs
      → remove (is (nth xs pos)) xs ≡ remove_at xs pos
  unfolding remove remove_at nth
  remove-nth cell pos [] f l = elim f [ ]
  remove-nth cell zero ((a, e) ∷ xs) f l = rw (eq→== a a refl)
  remove-nth cell (suc pos) ((a, e) ∷ xs) f l =
      rw (ne→== a (nth xs pos) (nth-ne a pos xs l.1 (omega arith)))
        (ap (◌∷◌ (a, e)) (remove-nth cell pos xs (omega arith) l.3))

  pub nth_past : (pos : ℕ) (xs : List (ℕ × Entry P)) → length xs ≤ pos → nth xs pos ≡ null
  unfolding nth
  nth_past pos [] h = refl
  nth_past zero (x ∷ xs) h = elim h [ ]
  nth_past (suc pos) (x ∷ xs) h = nth_past pos xs (omega arith)

  -- The search for a position finds the node there, and NULL past the end.
  pub get_by_pos_lem :
      (h : Heap P) (fuel pos : ℕ) (xs : List (ℕ × Entry P))
      → length xs < fuel
      → length xs < 2 ^ 32
      → Linked h.cell xs
      → get_by_pos fuel h (first xs) pos ≡ some (nth xs pos)
  unfolding get_by_pos
  get_by_pos_lem h fuel pos [] f b l = rw (nth_past pos [] (omega arith))
  get_by_pos_lem h fuel pos ((a, e) ∷ xs) f b l =
      let n : ℕ = length ((a, e) ∷ xs) % 2 ^ 32 in
      rw (ne→== a null l.0) (
        rw (size_lem h fuel ((a, e) ∷ xs) f l) (elim (Bool-cases (leb n pos)) [
          | inl past ↦ rw past (rw (nth_past pos ((a, e) ∷ xs) (omega (arith, leb→le n pos past))))
          | inr within ↦ rw within (
              rw (seek_pos_lem h pos null ((a, e) ∷ xs) (omega (arith, leb→lt n pos within)) l)
                refl)
        ]))

  pub last_lem :
      (h : Heap P) (fuel : ℕ) (x : ℕ × Entry P) (xs : List (ℕ × Entry P))
      → length xs < fuel
      → Linked h.cell (x ∷ xs)
      → last fuel h x.0 ≡ some (final (x ∷ xs))
  unfolding last final
  last_lem h zero x xs f l = elim f [ ]
  last_lem h (suc fuel) (a, e) [] f l = rw l.2
  last_lem h (suc fuel) (a, e) ((b, e') ∷ xs) f l =
      rw (l.2, ne→== b null l.3.0) (last_lem h fuel (b, e') xs (omega arith) l.3)

  -- The end of the list is its last node.
  pub end_lem :
      (h : Heap P) (fuel : ℕ) (xs : List (ℕ × Entry P))
      → length xs < fuel
      → Linked h.cell xs
      → end fuel h (first xs) ≡ some (final xs)
  unfolding end final
  end_lem h fuel [] f l = refl
  end_lem h fuel ((a, e) ∷ xs) f l =
      rw (ne→== a null l.0) (last_lem h fuel (a, e) xs (omega arith) l)
