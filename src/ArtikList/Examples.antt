-- ===== src/ArtikList/Examples.antt =====
-- The theorems on inc/base/artik_list.h at a list of three nodes.
use testing.Base.{
  ℕ, ◌≡◌, ◌≢◌, refl, Option, none, some, List, [], ◌∷◌, ◌++◌, arith, ◌>>=◌, ◌==◌, if◌then◌else◌,
  s_ok,
}
use testing.ArtikList.{Entry, Node, Heap, freed, null, new_entry, add, delete_node, delete_all}
use testing.ArtikList.Abstract.{first, Fresh, is}
use testing.ArtikList.Chain.{Linked}
use testing.ArtikList.Add.{add_lem}
use testing.ArtikList.Delete.{Deletes, delete_node_lem}
use testing.ArtikList.Copy.{cpy, cpy-delete_all}

abbrev entry : ℕ → ℕ → ℕ → Entry ℕ
entry handle content payload = record {
  clear = null;
  handle = handle;
  size_data = 8;
  content = content;
  payload = payload;
}

abbrev three : List (ℕ × Entry ℕ)
three = (16, entry 16 0 7) ∷ (32, entry 5 96 8) ∷ (48, entry 48 0 9) ∷ []

abbrev cells : ℕ → Option (Node ℕ)
cells p =
    if p == 16
    then some (record { next = 32; entry = entry 16 0 7 })
    else (if p == 32
        then some (record { next = 48; entry = entry 5 96 8 })
        else (if p == 48 then some (record { next = null; entry = entry 48 0 9 }) else none))

abbrev heap : Heap ℕ
heap = record { cell = cells; trace = [] }

three-Linked : Linked heap.cell three
three-Linked =
    (omega arith, omega arith, refl, (omega arith, omega arith, refl, (omega arith, tt, refl, tt)))

add_example :
    let ys = three ++ (64, new_entry 0 0 48 64) ∷ [] in
    (h' : Heap ℕ) × (add 4 0 64 heap 16 0 48 ≡ some (64, first ys, h'))
    × Linked h'.cell ys
    × (h'.trace ≡ heap.trace)
    × ((c : ℕ) → Fresh c three → c ≢ 64 → h'.cell c ≡ heap.cell c)
add_example = add_lem 4 0 64 heap 0 48 three (omega arith) (omega arith) (omega arith) three-Linked

delete_node_example : Deletes (is 32) heap three (delete_node 4 heap 16 32)
delete_node_example = delete_node_lem heap 4 32 three (omega arith) three-Linked

-- The deletion of the second node gives its data back, then the node.
delete_second : delete_node 4 heap 16 32 >>= (λ r. some r.2.trace) ≡ some (freed 32 ∷ freed 96 ∷ [])
unfolding delete_node
delete_second = refl

cpy-delete_all_example :
    (h' : Heap ℕ) × (h'' : Heap ℕ) × (cpy 0 4 heap 16 null (64 ∷ []) ≡ some (s_ok, 64, h'))
    × (delete_all 4 h' 64 ≡ some (s_ok, null, h''))
    × (h''.cell 16 ≡ some (record { next = 32; entry = entry 16 0 7 }))
    × (h''.cell 32 ≡ none)
cpy-delete_all_example =
    cpy-delete_all 0 4 heap 64 [] 16 (entry 16 0 7) 32 (entry 5 96 8) ((48, entry 48 0 9) ∷ [])
      (omega arith) (omega arith) (omega arith) three-Linked
