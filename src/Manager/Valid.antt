-- ===== src/Manager/Valid.antt =====
-- The invariant of the list of requested modules in linux_module.c.
use testing.Base.{
  ℕ, ◌≤◌, ◌≡◌, ◌≢◌, ◌∙◌, refl, sym, ap, Bool, true, false, Option, none, some, List, [], ◌∷◌, All,
  ◌==◌, ltb, length, arith, Bool-cases, inl, inr, ==→eq, eq→==, ne→==, ne_of_==,
}
use testing.Systemio.Nodes.{Handled}
use testing.Manager.{
  Info, ApiModule, Linker, Manager, open_count, word, text_at, compare_module_name,
  compare_module_ops, row_of,
}
use testing.Manager.Names.{strncmp_eq, strncmp_eq_self}
use testing.Manager.Infos.{infos, has, occurs, modules_of, modules_of-pos, All-imp, All-both}
use testing.Manager.Search.{Agrees}

-- What the list relies on of the linker: a symbol lies in the library that was asked for it, two
-- symbols of different names have different addresses, and no two of them start with the same
-- function.
pub record IsLinker (l : Linker) : Type 0 where
  pub owner_is : (h symbol : ℕ) (name : List ℕ) → l.dlsym h name ≡ some symbol → l.owner symbol ≡ h
  pub names_agree :
      (h k symbol : ℕ) (a b : List ℕ)
      → l.dlsym h a ≡ some symbol
      → l.dlsym k b ≡ some symbol
      → a ≡ b
  pub tables_differ :
      (h k symbol other : ℕ) (a b : List ℕ)
      → l.dlsym h a ≡ some symbol
      → l.dlsym k b ≡ some other
      → l.table symbol ≡ l.table other
      → symbol ≡ other

-- What it relies on of a platform's table: no name is the beginning of another one.
pub record IsTable (rows : List ApiModule) : Type 0 where
  pub no_prefix :
      (a b : List ℕ)
      → row_of rows a ≢ none
      → row_of rows b ≢ none
      → strncmp_eq (length a) b a ≡ true
      → b ≡ a

abbrev pub name_at : (ℕ → Option (List ℕ)) → Info → Option (List ℕ)
name_at names i = text_at names i.module_name

-- A node that was filled in: its text is a name of the table, and its symbol is the library's for
-- that name.
pub record IsModule (l : Linker) (rows : List ApiModule) (names : ℕ → Option (List ℕ)) (i : Info)
    : Type 0 where
  pub name : List ℕ
  pub named : name_at names i ≡ some name
  pub listed : row_of rows name ≢ none
  pub handle_there : i.dl_handle ≢ 0
  pub symbol_is : l.dlsym i.dl_handle name ≡ some i.dl_symbol

-- Nodes for the same name share the text, the library and the symbol.
abbrev pub Shares : (ℕ → Option (List ℕ)) → Info → Info → Type 0
Shares names i j = name_at names i ≡ name_at names j → i ≡ j

pub record IsValid (l : Linker) (rows : List ApiModule) (s : Manager) : Type 0 where
  pub handled : Handled s.nodes
  pub modules : All (IsModule l rows s.names) (infos s.nodes)
  pub shared : All (λ i. All (Shares s.names i) (infos s.nodes)) (infos s.nodes)
  -- A library is open as often as modules of it are in the list, or more often.
  pub counted : (h : ℕ) → modules_of h (infos s.nodes) ≤ open_count h s.events

-- Is this the name that a node points to?
abbrev matches : List ℕ → Option (List ℕ) → Bool
matches name none = false
matches name (some text) = strncmp_eq (length name) text name

abbrev pub called : (ℕ → Option (List ℕ)) → List ℕ → Info → Bool
called names name i = matches name (name_at names i)

pub not_called :
    (names : ℕ → Option (List ℕ)) (name : List ℕ) (i : Info)
    → called names name i ≡ false
    → name_at names i ≢ some name
not_called names name i h e =
    let again : strncmp_eq (length name) name name ≡ false = rw e at h in
    let self = strncmp_eq_self (length name) name in cc

module _ (l : Linker) (rows : List ApiModule) (names : ℕ → Option (List ℕ)) where
  called-Agrees :
      (name : List ℕ) (i : Info)
      → IsModule l rows names i
      → compare_module_name names name i ≡ some (called names name i)
  unfolding compare_module_name
  called-Agrees name i v = rw v.named refl

  pub compare_module_name-Agrees :
      (name : List ℕ) (is : List Info)
      → All (IsModule l rows names) is
      → Agrees (compare_module_name names name) (called names name) is
  compare_module_name-Agrees name is v = All-imp _ _ is (called-Agrees name) v

  pub called-name_at :
      (name : List ℕ) (i : Info)
      → IsTable rows
      → row_of rows name ≢ none
      → IsModule l rows names i
      → called names name i ≡ true
      → name_at names i ≡ some name
  called-name_at name i t n v h =
      v.named ∙ ap some (t.no_prefix name v.name n v.listed (rw v.named at h))

  -- A symbol belongs to one name, and so to one library.
  pub same_symbol :
      (i j : Info)
      → IsLinker l
      → IsModule l rows names i
      → IsModule l rows names j
      → i.dl_symbol ≡ j.dl_symbol
      → name_at names i ≡ name_at names j
  same_symbol i j k v w e =
      let both =
        k.names_agree i.dl_handle j.dl_handle j.dl_symbol v.name w.name (v.symbol_is ∙ ap some e)
          w.symbol_is in
      v.named ∙ ap some both ∙ sym w.named

  pub same_Info :
      (i j : Info)
      → IsLinker l
      → IsModule l rows names i
      → IsModule l rows names j
      → Shares names i j
      → i.dl_symbol ≡ j.dl_symbol
      → i ≡ j
  same_Info i j k v w share e = share (same_symbol i j k v w e)

  -- No node has the symbol of a name that no node is called.
  pub new_symbol :
      (h symbol : ℕ) (name : List ℕ) (is : List Info)
      → IsLinker l
      → l.dlsym h name ≡ some symbol
      → All (IsModule l rows names) is
      → All (λ i. called names name i ≡ false) is
      → occurs symbol is ≡ false
  unfolding occurs
  new_symbol h symbol name [] k e v c = refl
  new_symbol h symbol name (i ∷ is) k e v c =
      let other : i.dl_symbol ≢ symbol = λ q. not_called names name i c.0 (
        v.0.named
        ∙ ap some
            (k.names_agree i.dl_handle h symbol v.0.name name (v.0.symbol_is ∙ ap some q) e)) in
      rw (ne→== i.dl_symbol symbol other) (new_symbol h symbol name is k e v.1 c.1)

pub occurs-All : (is : List Info) → All (λ i. occurs i.dl_symbol is ≡ true) is
unfolding occurs
occurs-All [] = tt
occurs-All (i ∷ is) = (
  rw (eq→== i.dl_symbol i.dl_symbol refl) refl,
  All-imp _ _ is (λ j h. ground arith) (occurs-All is),
)

-- The table of every module in the list can be read.
word_there :
    (l : Linker) (rows : List ApiModule) (s : Manager) (i : Info)
    → IsLinker l
    → IsValid l rows s
    → IsModule l rows s.names i
    → All (Shares s.names i) (infos s.nodes)
    → occurs i.dl_symbol (infos s.nodes) ≡ true
    → word l s.events i.dl_symbol ≡ some (l.table i.dl_symbol)
unfolding word
word_there l rows s i k v m share o =
    let is = infos s.nodes in
    let libraries : All (λ j. j.dl_symbol ≡ i.dl_symbol → j.dl_handle ≡ i.dl_handle) is =
      All-both _ _ _ is
        (λ j w sh e.
          ap (λ (x : Info). x.dl_handle) (sym (same_Info l rows s.names i j k m w sh (sym e))))
        v.modules share in
    let some_module = modules_of-pos i.dl_symbol i.dl_handle is libraries o in
    let owner = k.owner_is i.dl_handle i.dl_symbol m.name m.symbol_is in
    let mapped : ltb 0 (open_count i.dl_handle s.events) ≡ true =
      ground (arith, v.counted i.dl_handle) in
    rw owner (rw mapped refl)

words_there :
    (l : Linker) (rows : List ApiModule) (s : Manager)
    → IsLinker l
    → IsValid l rows s
    → All (λ i. word l s.events i.dl_symbol ≡ some (l.table i.dl_symbol)) (infos s.nodes)
words_there l rows s k v =
    let is = infos s.nodes in
    let each : All (λ i. IsModule l rows s.names i × All (Shares s.names i) is) is =
      All-both _ _ _ is (λ i m sh. (m, sh)) v.modules v.shared in
    All-both _ _ _ is (λ i p o. word_there l rows s i k v p.0 p.1 o) each (occurs-All is)

-- The check of a release compares symbols, at a symbol of the linker's whose table can be read.
pub compare_module_ops-Agrees :
    (l : Linker) (rows : List ApiModule) (s : Manager) (target h : ℕ) (name : List ℕ)
    → IsLinker l
    → IsValid l rows s
    → l.dlsym h name ≡ some target
    → word l s.events target ≡ some (l.table target)
    → Agrees (compare_module_ops l s.events target) (has target) (infos s.nodes)
unfolding compare_module_ops
compare_module_ops-Agrees l rows s target h name k v symbol readable =
    All-both _ _ _ (infos s.nodes) agrees v.modules (words_there l rows s k v)
  where
    same_word :
        (i : Info)
        → IsModule l rows s.names i
        → (l.table i.dl_symbol == l.table target) ≡ has target i
    same_word i m = elim (Bool-cases (has target i)) [
      | inl hit ↦
          rw (==→eq i.dl_symbol target hit)
            (eq→== (l.table target) (l.table target) refl ∙ sym (eq→== target target refl))
      | inr miss ↦
          ne→== (l.table i.dl_symbol) (l.table target) (λ e.
            ne_of_== i.dl_symbol target miss
              (k.tables_differ i.dl_handle h i.dl_symbol target m.name name m.symbol_is symbol e))
          ∙ sym miss
    ]

    agrees :
        (i : Info)
        → IsModule l rows s.names i
        → word l s.events i.dl_symbol ≡ some (l.table i.dl_symbol)
        → compare_module_ops l s.events target i ≡ some (has target i)
    agrees i m w = rw w (rw readable (ap some (same_word i m)))

-- The table of a module that has a node can be read.
pub word_of :
    (l : Linker) (rows : List ApiModule) (s : Manager) (i : Info)
    → IsLinker l
    → IsValid l rows s
    → ((P : Info → Type 0) → All P (infos s.nodes) → P i)
    → word l s.events i.dl_symbol ≡ some (l.table i.dl_symbol)
word_of l rows s i k v in_list = in_list _ (words_there l rows s k v)
