-- ===== src/Cloud/Stream/Search.antt =====
-- The search for a node by its handle, and the writes to it and its deletion (artik_cloud.c).
use testing.Base.{
  ℕ, ◌≡◌, ◌≢◌, ◌∙◌, refl, sym, subst, inl, inr, false, Option, none, some, List, [], ◌∷◌, ◌==◌,
  if◌then◌else◌, Bool-cases, ==→eq, eq→==, ne→==, ne_of_==, arith, s_ok,
}
use testing.ArtikList.{Entry, null}
use testing.ArtikList.Abstract.{Fresh, find, remove}
use testing.Systemio.Nodes.{by_handle, entry_at, modify, Fresh-modify, modify-Fresh}
use testing.Cloud.Stream.{RegData, has_handle, delete_handle}
use testing.Cloud.Stream.Operations.{calling}
use testing.Cloud.Stream.Lists.{Unused, Streamed, stream_at}

-- Where a handle has data, its node is found, and has them.
abbrev pub Found : ℕ → List (ℕ × Entry RegData) → RegData → Type 0
Found handle xs d =
    (a : ℕ) × (e : Entry RegData) × (find (has_handle handle) xs ≡ a)
    × (a ≢ null)
    × (entry_at a xs ≡ some e)
    × (e.payload ≡ d)

found-Fresh :
    (handle a : ℕ) (xs : List (ℕ × Entry RegData))
    → a ≢ null
    → Fresh a xs
    → find (has_handle handle) xs ≢ a
unfolding find
found-Fresh handle a [] n f q = n (sym q)
found-Fresh handle a ((b, e) ∷ xs) n f q = elim (Bool-cases (e.handle == handle)) [
  | inl hit ↦ f.0 (rw hit at q)
  | inr miss ↦ found-Fresh handle a xs n f.1 (rw miss at q)
]

pub stream_at-Found :
    (handle : ℕ) (xs : List (ℕ × Entry RegData)) (d : RegData)
    → Streamed xs
    → stream_at handle xs ≡ some d
    → Found handle xs d
unfolding stream_at find entry_at
stream_at-Found handle [] d v q = cc
stream_at-Found handle ((a, e) ∷ xs) d v q = elim (Bool-cases (e.handle == handle)) [
  | inl hit ↦
      let given : some e.payload ≡ some d = rw hit at q in
      let same : e.payload ≡ d = cc in rw hit (a, e, refl, v.0, rw (eq→== a a refl) refl, same)
  | inr miss ↦
      let (b, c, found, n, at_, same) = stream_at-Found handle xs d v.4 (rw miss at q) in
      let differs : (a == b) ≡ false =
        ne→== a b (λ t. found-Fresh handle a xs v.0 v.2 (found ∙ sym t)) in
      rw miss (b, c, found, n, rw differs at_, same)
]

pub stream_at-missing :
    (handle : ℕ) (xs : List (ℕ × Entry RegData))
    → stream_at handle xs ≡ none
    → find (has_handle handle) xs ≡ null
unfolding stream_at find
stream_at-missing handle [] q = refl
stream_at-missing handle ((a, e) ∷ xs) q = elim (Bool-cases (e.handle == handle)) [
  | inl hit ↦ let bad : some e.payload ≡ none = rw hit at q in cc
  | inr miss ↦ rw miss (stream_at-missing handle xs (rw miss at q))
]

-- A handle with data is not NULL.
pub stream_at-null :
    (handle : ℕ) (xs : List (ℕ × Entry RegData)) (d : RegData)
    → Streamed xs
    → stream_at handle xs ≡ some d
    → handle ≢ null
unfolding stream_at
stream_at-null handle [] d v q = cc
stream_at-null handle ((a, e) ∷ xs) d v q = elim (Bool-cases (e.handle == handle)) [
  | inl hit ↦ λ t. v.1 (==→eq e.handle handle hit ∙ t)
  | inr miss ↦ stream_at-null handle xs d v.4 (rw miss at q)
]

Unused-calling :
    (handle node callback user_data : ℕ) (xs : List (ℕ × Entry RegData))
    → Unused handle xs
    → Unused handle (modify node (calling callback user_data) xs)
unfolding modify
Unused-calling handle node callback user_data [] u = tt
Unused-calling handle node callback user_data ((a, e) ∷ xs) u =
    let rest = Unused-calling handle node callback user_data xs u.1 in
    elim (Bool-cases (a == node)) [ inl hit ↦ rw hit (u.0, rest) | inr miss ↦ rw miss (u.0, rest) ]

pub Streamed-calling :
    (node callback user_data : ℕ) (xs : List (ℕ × Entry RegData))
    → Streamed xs
    → Streamed (modify node (calling callback user_data) xs)
unfolding modify
Streamed-calling node callback user_data [] v = tt
Streamed-calling node callback user_data ((a, e) ∷ xs) v =
    let fresh = Fresh-modify a node (calling callback user_data) xs v.2 in
    let unused = Unused-calling e.handle node callback user_data xs v.3 in
    let rest = Streamed-calling node callback user_data xs v.4 in
    elim (Bool-cases (a == node)) [
      | inl hit ↦ rw hit (v.0, v.1, fresh, unused, rest)
      | inr miss ↦ rw miss (v.0, v.1, fresh, unused, rest)
    ]

abbrev pub with_callback : ℕ → ℕ → RegData → RegData
with_callback callback user_data d = record d { callback = callback; callback_data = user_data }

abbrev pub map_data : (RegData → RegData) → Option RegData → Option RegData
map_data f none = none
map_data f (some d) = some (f d)

-- The callback is written to the data of the handle whose node was found, and to no others.
pub stream_at-calling :
    (k handle node callback user_data : ℕ) (xs : List (ℕ × Entry RegData))
    → Streamed xs
    → find (has_handle handle) xs ≡ node
    → node ≢ null
    → stream_at k (modify node (calling callback user_data) xs) ≡ (
        if handle == k
        then map_data (with_callback callback user_data) (stream_at k xs)
        else stream_at k xs)
unfolding stream_at modify find
stream_at-calling k handle node callback user_data [] v f n = ground arith
stream_at-calling k handle node callback user_data ((a, e) ∷ xs) v f n =
    let write = calling callback user_data in
    elim (Bool-cases (e.handle == handle)) [
      | inl hit ↦
          let here : a ≡ node = rw hit at f in
          let tail_ = modify-Fresh node write xs (subst (λ (b : ℕ). Fresh b xs) here v.2) in
          let same = ==→eq e.handle handle hit in
          rw (eq→== a node here) (
            rw tail_
              (rw same (elim (Bool-cases (handle == k)) [ inl q ↦ rw q refl | inr q ↦ rw q refl ])))
      | inr miss ↦
          let deeper : find (has_handle handle) xs ≡ node = rw miss at f in
          let differs : (a == node) ≡ false =
            ne→== a node (λ t. found-Fresh handle a xs v.0 v.2 (deeper ∙ sym t)) in
          let ih = stream_at-calling k handle node callback user_data xs v.4 deeper n in
          rw differs (elim (Bool-cases (e.handle == k)) [
            | inl q ↦
                let other : (handle == k) ≡ false =
                  ne→== handle k
                    (λ t. ne_of_== e.handle handle miss (==→eq e.handle k q ∙ sym t)) in
                rw q (rw other refl)
            | inr q ↦ rw q ih
          ])
    ]

-- artik_list_delete_handle on a handle with data.
pub delete_handle_lem :
    (handle : ℕ) (xs : List (ℕ × Entry RegData)) (d : RegData)
    → Streamed xs
    → stream_at handle xs ≡ some d
    → delete_handle handle xs ≡ (s_ok, remove (has_handle handle) xs)
unfolding delete_handle
delete_handle_lem handle xs d v q =
    let (a, e, found, there, _, _) = stream_at-Found handle xs d v q in
    let some_node : (find (has_handle handle) xs == null) ≡ false =
      ne→== (find (has_handle handle) xs) null (λ t. there (sym found ∙ t)) in
    rw (ne→== handle null (stream_at-null handle xs d v q)) (rw some_node refl)

-- artik_list_get_by_handle for a handle without data, and for one that has them.
pub by_handle-none :
    (handle : ℕ) (xs : List (ℕ × Entry RegData))
    → stream_at handle xs ≡ none
    → by_handle handle xs ≡ null
unfolding by_handle
by_handle-none handle xs q = elim (Bool-cases (handle == null)) [
  | inl nil ↦ rw nil refl
  | inr there ↦ rw there (stream_at-missing handle xs q)
]

pub by_handle-some :
    (handle : ℕ) (xs : List (ℕ × Entry RegData)) (d : RegData)
    → Streamed xs
    → stream_at handle xs ≡ some d
    → by_handle handle xs ≡ find (has_handle handle) xs
unfolding by_handle
by_handle-some handle xs d v q = rw (ne→== handle null (stream_at-null handle xs d v q)) refl
