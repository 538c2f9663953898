-- ===== src/Cloud/Stream/Lists.antt =====
-- The list of the streams' nodes as a map from the handles to their data.
use testing.Base.{
  ℕ, ◌≡◌, ◌≢◌, ◌∙◌, refl, sym, subst, inl, inr, false, Option, none, some, List, [], ◌∷◌, ◌==◌,
  if◌then◌else◌, All, Bool-cases, ==→eq, ne→==, ne_of_==, arith,
}
use testing.ArtikList.{Entry, null, new_entry}
use testing.ArtikList.Abstract.{Fresh, remove}
use testing.Systemio.Nodes.{Fresh-added, Fresh-remove}
use testing.Cloud.Stream.{RegData, has_handle, linked, sizeof_node}

-- No node of the list has this handle.
abbrev pub Unused : ℕ → List (ℕ × Entry RegData) → Type 0
Unused handle xs = All (λ (x : ℕ × Entry RegData). x.1.handle ≢ handle) xs

-- The nodes have distinct addresses and distinct handles, and none is NULL.
abbrev pub Streamed : List (ℕ × Entry RegData) → Type 0
Streamed [] = Unit
Streamed ((a, e) ∷ xs) =
    (a ≢ null) × (e.handle ≢ null) × Fresh a xs × Unused e.handle xs × Streamed xs

-- The data of a handle.
unfoldable pub stream_at : ℕ → List (ℕ × Entry RegData) → Option RegData
stream_at handle [] = none
stream_at handle ((a, e) ∷ xs) =
    let rest = stream_at handle xs in if e.handle == handle then some e.payload else rest

pub Streamed-linked :
    (m handle : ℕ) (d : RegData) (xs : List (ℕ × Entry RegData))
    → m ≢ null
    → handle ≢ null
    → Fresh m xs
    → Unused handle xs
    → Streamed xs
    → Streamed (linked m handle d xs)
Streamed-linked m handle d [] n k f u v = rw (ne→== handle null k) (n, k, tt, tt, tt)
Streamed-linked m handle d ((a, e) ∷ xs) n k f u v =
    let new = new_entry d handle sizeof_node m in
    (
      v.0,
      v.1,
      Fresh-added a m new xs v.2 f.0,
      Unused-linked e.handle m handle d xs k v.3 u.0,
      Streamed-linked m handle d xs n k f.1 u.1 v.4,
    )
  where
    Unused-linked :
        (h m handle : ℕ) (d : RegData) (xs : List (ℕ × Entry RegData))
        → handle ≢ null
        → Unused h xs
        → h ≢ handle
        → Unused h (linked m handle d xs)
    Unused-linked h m handle d [] k u n = rw (ne→== handle null k) ((λ q. n (sym q)), tt)
    Unused-linked h m handle d (x ∷ xs) k u n = (u.0, Unused-linked h m handle d xs k u.1 n)

-- A new node at the end: its handle has its data, the other handles what they had.
pub stream_at-linked :
    (k m handle : ℕ) (d : RegData) (xs : List (ℕ × Entry RegData))
    → handle ≢ null
    → Unused handle xs
    → stream_at k (linked m handle d xs) ≡ (if handle == k then some d else stream_at k xs)
unfolding stream_at
stream_at-linked k m handle d [] n u = rw (ne→== handle null n) refl
stream_at-linked k m handle d ((a, e) ∷ xs) n u = elim (Bool-cases (e.handle == k)) [
  | inl hit ↦
      let differs : (handle == k) ≡ false =
        ne→== handle k (λ q. u.0 (==→eq e.handle k hit ∙ sym q)) in
      rw hit (rw differs refl)
  | inr miss ↦ rw miss (stream_at-linked k m handle d xs n u.1)
]

pub Unused-stream_at :
    (handle : ℕ) (xs : List (ℕ × Entry RegData)) → Unused handle xs → stream_at handle xs ≡ none
unfolding stream_at
Unused-stream_at handle [] u = refl
Unused-stream_at handle ((a, e) ∷ xs) u =
    rw (ne→== e.handle handle u.0) (Unused-stream_at handle xs u.1)

-- A node that is taken out by its handle: the handle has no data any more.
pub stream_at-remove :
    (k handle : ℕ) (xs : List (ℕ × Entry RegData))
    → Streamed xs
    → stream_at k (remove (has_handle handle) xs) ≡ (if handle == k then none else stream_at k xs)
unfolding stream_at remove
stream_at-remove k handle [] v = ground arith
stream_at-remove k handle ((a, e) ∷ xs) v = elim (Bool-cases (e.handle == handle)) [
  | inl hit ↦ elim (Bool-cases (handle == k)) [
    | inl same ↦
        let q = ==→eq e.handle handle hit ∙ ==→eq handle k same in
        let gone = Unused-stream_at k xs (subst (λ (h : ℕ). Unused h xs) q v.3) in
        rw hit (rw same gone)
    | inr miss ↦
        let q : (e.handle == k) ≡ false =
          ne→== e.handle k (λ t. ne_of_== handle k miss (sym (==→eq e.handle handle hit) ∙ t)) in
        rw hit (rw miss (rw q refl))
  ]
  | inr other ↦ elim (Bool-cases (e.handle == k)) [
    | inl hit ↦
        let q : (handle == k) ≡ false =
          ne→== handle k (λ t. ne_of_== e.handle handle other (==→eq e.handle k hit ∙ sym t)) in
        rw other (rw hit (rw q refl))
    | inr miss ↦ rw other (rw miss (stream_at-remove k handle xs v.4))
  ]
]

Unused-remove :
    (h handle : ℕ) (xs : List (ℕ × Entry RegData))
    → Unused h xs
    → Unused h (remove (has_handle handle) xs)
unfolding remove
Unused-remove h handle [] u = tt
Unused-remove h handle ((a, e) ∷ xs) u = elim (Bool-cases (e.handle == handle)) [
  | inl hit ↦ rw hit u.1
  | inr miss ↦ rw miss (u.0, Unused-remove h handle xs u.1)
]

pub Streamed-remove :
    (handle : ℕ) (xs : List (ℕ × Entry RegData))
    → Streamed xs
    → Streamed (remove (has_handle handle) xs)
unfolding remove
Streamed-remove handle [] v = tt
Streamed-remove handle ((a, e) ∷ xs) v = elim (Bool-cases (e.handle == handle)) [
  | inl hit ↦ rw hit v.4
  | inr miss ↦ rw miss (
    v.0,
    v.1,
    Fresh-remove (has_handle handle) a xs v.2,
    Unused-remove e.handle handle xs v.3,
    Streamed-remove handle xs v.4,
  )
]
