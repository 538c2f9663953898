-- ===== src/Manager/DeviceInfo.antt =====
-- os_get_device_info (linux_module.c): the text with the platform and its modules, and the buffers
-- in which it is built.
pub mod Laws
pub mod Text
use testing.Base.{
  codes, ℕ, zero, suc, ◌+◌, ◌-◌, ◌*◌, Bool, not, Option, none, some, List, [], ◌∷◌, ◌++◌, length,
  ltb, ◌==◌, if◌then◌else◌, ◌>>=◌, take, printed,
}
use testing.Manager.{ApiModule}
use testing.Manager.Platform.{table_of}

-- A tab is 9, a line's end 10, a quote 34 and a comma 44.
abbrev pub header : List ℕ
header = codes "{" ++ 10 ∷ []

abbrev pub tail : List ℕ
tail = 10 ∷ codes "}"

abbrev pub modules_header : List ℕ
modules_header = 9 ∷ 34 ∷ codes "modules" ++ 34 ∷ codes ":[" ++ 10 ∷ []

abbrev pub modules_tail : List ℕ
modules_tail = 9 ∷ codes "]" ++ 10 ∷ []

-- The formats, with what stands for their %s.
abbrev pub platform_info : List ℕ → List ℕ
platform_info name = 9 ∷ 34 ∷ codes "name" ++ 34 ∷ codes ": " ++ 34 ∷ name ++ 34 ∷ 44 ∷ 10 ∷ []

abbrev pub modules_info : List ℕ → List ℕ
modules_info name = 9 ∷ 34 ∷ name ++ 34 ∷ 44 ∷ 10 ∷ []

abbrev pub max_plat_name_len : ℕ
max_plat_name_len = length (platform_info (codes "%s")) + 10

abbrev pub max_module_len : ℕ
max_module_len = length (modules_info (codes "%s")) + 10

abbrev pub max_json_len : ℕ → ℕ
max_json_len num_modules =
    max_plat_name_len
    + max_module_len * num_modules
    + length header
    + length tail
    + length modules_header
    + length modules_tail
    + 1

-- strncat(json, text, n) in a block of `cap` bytes: a fault where the text and its final 0 do not
-- fit.
unfoldable pub strncat : ℕ → List ℕ → List ℕ → ℕ → Option (List ℕ)
strncat cap json text n =
    let whole = json ++ take n text in if ltb (length whole) cap then some whole else none

-- The loop over the modules. `memory i` tells whether `malloc` has a block for the entry; the result
-- is none inside for NULL.
unfoldable pub add_modules : ℕ → (ℕ → Bool) → ℕ → List ApiModule → List ℕ → Option (Option (List ℕ))
add_modules cap memory i [] json = some (some json)
add_modules cap memory i (row ∷ rows) json =
    let rest = (do
      json' ← strncat cap json (printed max_module_len (modules_info row.name)) max_module_len
      add_modules cap memory (i + 1) rows json') in
    if memory i then rest else some none

-- json[strlen(json) - 2] = '\n'; json[strlen(json) - 1] = '\0'
abbrev pub without_comma : List ℕ → List ℕ
without_comma json = take (length json - 2) json ++ 10 ∷ []

-- "Remove last comma", and what follows. In a text of fewer than two bytes it would write in front
-- of the block.
abbrev pub close : ℕ → Option (List ℕ) → Option (Option (List ℕ))
close cap none = some none
close cap (some json) = if ltb (length json) 2 then none else do
  a ← strncat cap (without_comma json) modules_tail (length modules_tail)
  b ← strncat cap a tail (length tail)
  some (some b)

abbrev pub platform_labels : ℕ → List ℕ
platform_labels platid =
    if platid == 1
    then codes "ARTIK520"
    else if platid == 2
    then codes "ARTIK1020"
    else if platid == 3
    then codes "ARTIK710"
    else if platid == 4
    then codes "ARTIK530"
    else codes "GENERIC"

-- The text for a platform's label and its modules. The flags tell whether `malloc` has the two
-- first blocks.
unfoldable pub device_info :
    Bool → Bool → (ℕ → Bool) → List ℕ → List ApiModule → Option (Option (List ℕ))
device_info json_memory entry_memory memory label rows =
    let cap = max_json_len (length rows) in
    if not json_memory then some none else if not entry_memory then some none else do
      a ← strncat cap [] header (length header)
      b ← strncat cap a (printed max_plat_name_len (platform_info label)) max_plat_name_len
      c ← strncat cap b modules_header (length modules_header)
      d ← add_modules cap memory 0 rows c
      close cap d

-- os_get_device_info.
unfoldable pub get_device_info : Bool → Bool → (ℕ → Bool) → Option ℕ → Option (Option (List ℕ))
get_device_info json_memory entry_memory memory none = none
get_device_info json_memory entry_memory memory (some platid) = do
  rows ← table_of (some platid)
  device_info json_memory entry_memory memory (platform_labels platid) rows
