-- ===== src/Manager.antt =====
-- src/modules/base/module/linux_module.c: the modules that a program requested, each with its
-- library.
--
-- A text is the list of its bytes without the final 0, a pointer a number with 0 for NULL. `none` as
-- a result is a fault. The mutex that request and release hold from end to end is left out.
pub mod Names
pub mod Infos
pub mod Counts
pub mod Search
pub mod Valid
pub mod Request
pub mod Calls
pub mod Release
pub mod Table
pub mod Again
pub mod Requests
pub mod Histories
pub mod Platform
pub mod DeviceInfo
mod Examples
use testing.Base.{
  ℕ, zero, suc, ◌+◌, ◌-◌, ◌^◌, Bool, true, false, Option, none, some, List, [], ◌∷◌, ltb, ◌==◌,
  if◌then◌else◌, length, ArtikError, s_ok, e_bad_args, ◌>>=◌,
}
use testing.ArtikList.{Entry, null}
use testing.Systemio.Nodes.{added, modify, entry_at}
use testing.Manager.Names.{strncmp_eq}

-- `artik_module_info`. `module_name` points to a text of its own.
pub record Info : Type 0 where
  pub module_name : ℕ
  pub dl_handle : ℕ
  pub dl_symbol : ℕ

abbrev pub blank : Info
blank = record { module_name = 0; dl_handle = 0; dl_symbol = 0 }

-- A row of a platform's table.
pub record ApiModule : Type 0 where
  pub id : ℕ
  pub name : List ℕ
  pub object : List ℕ

-- The calls of the dynamic linker that succeeded, the newest first.
pub data Event : Type 0 where
  opened closed : ℕ → Event

-- The dynamic linker: the handle of an object (0 if it cannot be opened), the address of a symbol
-- (`none` if `dlerror` names an error), the handle of the library in which an address lies, and the
-- first word of a table of functions, which its first function is.
pub record Linker : Type 0 where
  pub dlopen : List Event → List ℕ → ℕ
  pub dlsym : ℕ → List ℕ → Option ℕ
  pub owner : ℕ → ℕ
  pub table : ℕ → ℕ

-- `requested_node`, the texts that the nodes point to, and the linker's past.
pub record Manager : Type 0 where
  pub nodes : List (ℕ × Entry Info)
  pub names : ℕ → Option (List ℕ)
  pub events : List Event

abbrev pub max_module_name : ℕ
max_module_name = 32

-- (void *)-1
abbrev pub invalid_module : ℕ
invalid_module = 2 ^ 64 - 1

-- How often a library is open: the linker counts, and unmaps it at 0.
unfoldable pub open_count : ℕ → List Event → ℕ
open_count h [] = 0
open_count h (opened k ∷ events) = (if k == h then 1 else 0) + open_count h events
open_count h (closed k ∷ events) = open_count h events - (if k == h then 1 else 0)

-- The first word at an address, which can be read only while its library is mapped.
unfoldable pub word : Linker → List Event → ℕ → Option ℕ
word l events symbol =
    if ltb 0 (open_count (l.owner symbol) events) then some (l.table symbol) else none

-- A read of a text through a pointer.
abbrev pub text_at : (ℕ → Option (List ℕ)) → ℕ → Option (List ℕ)
text_at names p = if p == 0 then none else names p

-- artik_compare_module_name: strncmp with the length of the name that is looked for.
unfoldable pub compare_module_name : (ℕ → Option (List ℕ)) → List ℕ → Info → Option Bool
compare_module_name names target info = do
  name ← text_at names info.module_name
  some (strncmp_eq (length target) name target)

-- artik_compare_module_ops: memcmp of the first words.
unfoldable pub compare_module_ops : Linker → List Event → ℕ → Info → Option Bool
compare_module_ops l events target info = do
  a ← word l events info.dl_symbol
  b ← word l events target
  some (a == b)

-- artik_list_get_by_check with a check that may fault.
unfoldable pub get_by_check : (Info → Option Bool) → List (ℕ × Entry Info) → Option ℕ
get_by_check check [] = some null
get_by_check check ((a, e) ∷ xs) =
    let rest = get_by_check check xs in do hit ← check e.payload; if hit then some a else rest

-- artik_list_delete_check.
unfoldable pub delete_check :
    (Info → Option Bool) → List (ℕ × Entry Info) → Option (ArtikError × List (ℕ × Entry Info))
delete_check check [] = some (e_bad_args, [])
delete_check check ((a, e) ∷ xs) =
    let rest = (do r ← delete_check check xs; some (r.0, (a, e) ∷ r.1)) in
    do hit ← check e.payload; if hit then some (s_ok, xs) else rest

-- The search in the platform's table.
unfoldable pub row_of : List ApiModule → List ℕ → Option ApiModule
row_of [] name = none
row_of (row ∷ rows) name =
    if strncmp_eq max_module_name row.name name then some row else row_of rows name

-- What stands in the node that was found, or zeros.
abbrev pub info_of : Option (Entry Info) → Info
info_of none = blank
info_of (some e) = e.payload

-- A library and its symbol, or the failure of `dlopen` or `dlsym`; with the linker's past.
pub data Loading : Type 0 where
  failed : List Event → Loading
  ready : ℕ → ℕ → List Event → Loading

abbrev pub symbol_in : ℕ → List Event → Option ℕ → Loading
symbol_in handle events none = failed events
symbol_in handle events (some symbol) = ready handle symbol events

unfoldable pub load : Linker → List Event → List ℕ → List ℕ → Info → Loading
load l events object name info =
    let handle = l.dlopen events object in
    let past = opened handle ∷ events in
    if info.dl_handle == 0
    then (if handle == 0 then failed events else symbol_in handle past (l.dlsym handle name))
    else ready info.dl_handle info.dl_symbol events

abbrev pub put : Info → Entry Info → Entry Info
put info e = record e { payload = info }

abbrev pub set_name : (ℕ → Option (List ℕ)) → ℕ → Option (List ℕ) → ℕ → Option (List ℕ)
set_name names p t q = if p == q then t else names q

-- From the label `exit` on. `p` is what `malloc` returned for the name.
abbrev pub finish : List ℕ → ℕ → ℕ → ℕ → List (ℕ × Entry Info) → Manager → Loading → ℕ × Manager
finish name p m module_name grown s (failed events) =
    (invalid_module, record s { nodes = grown; events = events })
finish name p m module_name grown s (ready handle symbol events) =
    let info : ℕ → Info = λ q. record { module_name = q; dl_handle = handle; dl_symbol = symbol } in
    if module_name == 0
    then (if p == 0 then (invalid_module, record s { nodes = grown; events = events }) else (
      symbol,
      record {
        nodes = modify m (put (info p)) grown;
        names = set_name s.names p (some name);
        events = events;
      },
    ))
    else (symbol, record s { nodes = modify m (put (info module_name)) grown; events = events })

-- The body of the loop, at the row of the table that has the name. `m` and `p` are what `malloc`
-- returned for the node and for the name.
unfoldable pub request_row :
    Linker → ℕ → ℕ → ℕ → List ℕ → Manager → Option ApiModule → Option (ℕ × Manager)
request_row l size m p name s none = some (null, s)
request_row l size m p name s (some row) = do
  node ← get_by_check (compare_module_name s.names name) s.nodes
  let info = info_of (entry_at node s.nodes)
  let grown = added blank size m s.nodes
  if m == 0
      then some (invalid_module, s)
      else some (finish name p m info.module_name grown s (load l s.events row.object name info))

-- os_request_api_module, with the rows of the platform's table. `name` is none for NULL.
unfoldable pub request :
    Linker → List ApiModule → ℕ → ℕ → ℕ → Option (List ℕ) → Manager → Option (ℕ × Manager)
request l rows size m p none s = some (invalid_module, s)
request l rows size m p (some name) s = request_row l size m p name s (row_of rows name)

-- The end of os_release_api_module: the last node of a module gives the name and the library back.
abbrev pub settle : Info → List (ℕ × Entry Info) → Manager → ℕ → ArtikError × Manager
settle info left s again =
    if again == 0
    then (
      s_ok,
      record {
        nodes = left;
        names = set_name s.names info.module_name none;
        events = closed info.dl_handle ∷ s.events;
      },
    )
    else (s_ok, record s { nodes = left })

abbrev pub release_found :
    (Info → Option Bool)
    → Info
    → Manager
    → ArtikError × List (ℕ × Entry Info)
    → Option (ArtikError × Manager)
release_found check info s (s_ok, left) = do
  again ← get_by_check check left
  some (settle info left s again)
release_found check info s (error, left) = some (error, s)

-- os_release_api_module.
unfoldable pub release : Linker → ℕ → Manager → Option (ArtikError × Manager)
release l target s = do
  node ← get_by_check (compare_module_ops l s.events target) s.nodes
  let info = info_of (entry_at node s.nodes)
  let check = compare_module_ops l s.events target
  if node == 0
      then some (e_bad_args, s)
      else do r ← delete_check check s.nodes; release_found check info s r
