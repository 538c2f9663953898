-- ===== src/Manager/Platform.antt =====
-- The platform, and what its table says (linux_module.c).
use testing.Base.{
  codes, ℕ, Bool, true, false, ◌||◌, Option, none, some, List, [], ◌∷◌, ◌==◌, if◌then◌else◌, length,
  get_elem?, ArtikError, s_ok, e_bad_args, ◌>>=◌,
}
use testing.Manager.{ApiModule, Linker, Manager, request}
use testing.Manager.Names.{strncmp_eq}
use testing.Manager.Table.{generic_modules}

-- strstr(text, part) != NULL
unfoldable pub contains : List ℕ → List ℕ → Bool
unfolding strncmp_eq
contains part [] = strncmp_eq (length part) [] part
contains part (c ∷ text) = strncmp_eq (length part) (c ∷ text) part || contains part text

-- The platforms are numbered in the order of `artik_api_modules`.
unfoldable pub platform_of : List ℕ → ℕ
platform_of line =
    if contains (codes "ARTIK5") line
    then 1
    else if contains (codes "ARTIK10") line
    then 2
    else if contains (codes "artik710") line
    then 3
    else if contains (codes "artik530") line
    then 4
    else 0

-- os_get_platform: the result, which is also the new `artik_platform_id`; -1 is none. `model` is the
-- file /proc/device-tree/model: none if it cannot be opened, some none if it has no line.
unfoldable pub get_platform : Option ℕ → Option (Option (List ℕ)) → Option ℕ
get_platform (some id) model = some id
get_platform none none = none
get_platform none (some none) = none
get_platform none (some (some line)) = some (platform_of line)

-- artik_api_modules: the five tables have the same rows.
abbrev pub tables : List (List ApiModule)
tables =
    generic_modules ∷ generic_modules ∷ generic_modules ∷ generic_modules ∷ generic_modules ∷ []

-- artik_api_modules[platid], a fault for -1.
abbrev pub table_of : Option ℕ → Option (List ApiModule)
table_of none = none
table_of (some platid) = get_elem? tables platid

-- os_request_api_module from its start.
unfoldable pub request_api_module :
    Linker → Option ℕ → ℕ → ℕ → ℕ → Option (List ℕ) → Manager → Option (ℕ × Manager)
request_api_module l platid size m p none s = request l [] size m p none s
request_api_module l platid size m p (some name) s = do
  rows ← table_of platid
  request l rows size m p (some name) s

-- os_get_available_modules: the table and the number of its rows. The flags tell whether the
-- caller's pointers are given.
unfoldable pub get_available_modules :
    Option ℕ → Bool → Bool → Option (ArtikError × Option (List ApiModule × ℕ))
get_available_modules platid false num_modules = some (e_bad_args, none)
get_available_modules platid true false = some (e_bad_args, none)
get_available_modules platid true true = do
  rows ← table_of platid
  some (s_ok, some (rows, length rows))

unfoldable pub has_id : ℕ → List ApiModule → Bool
has_id id [] = false
has_id id (row ∷ rows) = row.id == id || has_id id rows

-- os_is_module_available.
unfoldable pub is_module_available : Option ℕ → ℕ → Option Bool
is_module_available platid id = do rows ← table_of platid; some (has_id id rows)

-- artik_platform_name (inc/base/artik_platform.h).
abbrev pub platform_names : List (List ℕ)
platform_names =
    codes "Generic"
    ∷ codes "ARTIK 520"
    ∷ codes "ARTIK 1020"
    ∷ codes "ARTIK 710"
    ∷ codes "ARTIK 530"
    ∷ codes "ARTIK 053"
    ∷ []

-- os_get_platform_name. The flag tells whether the caller's pointer is given.
unfoldable pub get_platform_name : Option ℕ → Bool → Option (ArtikError × Option (List ℕ))
get_platform_name platid false = some (e_bad_args, none)
get_platform_name none true = none
get_platform_name (some platid) true = do
  name ← get_elem? platform_names platid
  some (s_ok, some name)
