-- ===== src/Manager/DeviceInfo/Text.antt =====
-- What os_get_device_info (linux_module.c) writes.
use mathlib.Core.List.{append_assoc, append-nil}
use testing.Base.{
  ℕ, ◌+◌, ◌-◌, ◌*◌, ◌≤◌, ◌<◌, ◌≡◌, ◌∙◌, refl, sym, ap, Bool, true, false, some, List, [], ◌∷◌, ◌++◌,
  All, length, length-append, ltb, arith, take, printed, take_all,
}
use testing.Manager.{ApiModule}
use testing.Manager.DeviceInfo.{
  header, tail, modules_header, modules_tail, platform_info, modules_info, max_plat_name_len,
  max_module_len, max_json_len, add_modules, without_comma, close, device_info,
}
use testing.Manager.DeviceInfo.Laws.{strncat-fits}

-- The modules' names, one to a line, with a comma between two.
abbrev pub listed : List ApiModule → List ℕ
listed [] = []
listed (row ∷ []) = 9 ∷ 34 ∷ row.name ++ 34 ∷ []
listed (row ∷ next ∷ rows) = modules_info row.name ++ listed (next ∷ rows)

-- What is meant.
abbrev pub device_text : List ℕ → List ApiModule → List ℕ
device_text label rows =
    header
    ++ platform_info label
    ++ modules_header
    ++ listed rows
    ++ (10 ∷ [])
    ++ modules_tail
    ++ tail

-- A name that fits its entry.
abbrev pub IsShort : ApiModule → Type 0
IsShort row = length row.name ≤ 11

abbrev lines : List ApiModule → List ℕ
lines [] = []
lines (row ∷ rows) = modules_info row.name ++ lines rows

module_line : (name : List ℕ) → length name ≤ 11 → length (modules_info name) ≤ 16
module_line name h = omega (arith, length-append name (34 ∷ 44 ∷ 10 ∷ []))

platform_line : (name : List ℕ) → length name ≤ 11 → length (platform_info name) ≤ 24
platform_line name h = omega (arith, length-append name (34 ∷ 44 ∷ 10 ∷ []))

add_modules-lines :
    (cap : ℕ) (memory : ℕ → Bool) (i : ℕ) (rows : List ApiModule) (json : List ℕ)
    → ((j : ℕ) → memory j ≡ true)
    → All IsShort rows
    → length json + 16 * length rows < cap
    → add_modules cap memory i rows json ≡ some (some (json ++ lines rows))
unfolding add_modules
add_modules-lines cap memory i [] json all short room = ap some (ap some (simp (append-nil)))
add_modules-lines cap memory i (row ∷ rows) json all short room =
    let line = modules_info row.name in
    let fits_line = module_line row.name short.0 in
    let whole : printed max_module_len line ≡ line = take_all 16 line fits_line in
    let len = length-append json line in
    let first = strncat-fits cap max_module_len json line (omega arith) (omega arith) in
    let rest = add_modules-lines cap memory (i + 1) rows (json ++ line) all short.1 (omega arith) in
    rw (all i)
      (rw whole (rw first (rest ∙ ap some (ap some (append_assoc json line (lines rows))))))

take-append : (x y : List ℕ) → take (length x) (x ++ y) ≡ x
take-append [] y = refl
take-append (c ∷ x) y = ap (λ t. c ∷ t) (take-append x y)

lines-listed :
    (row : ApiModule) (rows : List ApiModule)
    → lines (row ∷ rows) ≡ listed (row ∷ rows) ++ 44 ∷ 10 ∷ []
lines-listed row [] = simp (append_assoc, append-nil)
lines-listed row (next ∷ rows) =
    ap (λ t. modules_info row.name ++ t) (lines-listed next rows)
    ∙ sym (append_assoc (modules_info row.name) (listed (next ∷ rows)) (44 ∷ 10 ∷ []))

comma_replaced : (x : List ℕ) → without_comma (x ++ 44 ∷ 10 ∷ []) ≡ x ++ 10 ∷ []
comma_replaced x =
    let len : length (x ++ 44 ∷ 10 ∷ []) - 2 ≡ length x =
      omega (arith, length-append x (44 ∷ 10 ∷ [])) in
    rw (len, take-append x (44 ∷ 10 ∷ [])) refl

length-lines : (rows : List ApiModule) → All IsShort rows → length (lines rows) ≤ 16 * length rows
length-lines [] h = omega arith
length-lines (row ∷ rows) h = omega (
  arith,
  length-append (modules_info row.name) (lines rows),
  module_line row.name h.0,
  length-lines rows h.1,
)

close-comma :
    (cap : ℕ) (grown : List ℕ)
    → length grown + 6 < cap
    → close cap (some (grown ++ 44 ∷ 10 ∷ []))
      ≡ some (some (grown ++ 10 ∷ [] ++ modules_tail ++ tail))
close-comma cap grown room =
    let cut_len = length-append grown (10 ∷ []) in
    let comma_len = length-append grown (44 ∷ 10 ∷ []) in
    let first =
      strncat-fits cap (length modules_tail) (grown ++ 10 ∷ []) modules_tail (omega arith)
        (omega arith) in
    let tail_len = length-append (grown ++ 10 ∷ []) modules_tail in
    let second =
      strncat-fits cap (length tail) ((grown ++ 10 ∷ []) ++ modules_tail) tail (omega arith)
        (omega arith) in
    let long : ltb (length (grown ++ 44 ∷ 10 ∷ [])) 2 ≡ false = ground arith in
    rw (long, comma_replaced grown) (rw first (rw second refl))

-- With memory, for a label and names of at most 11 bytes and at least one module, the text is the one
-- that is meant.
pub device_info_lem :
    (memory : ℕ → Bool) (label : List ℕ) (row : ApiModule) (rows : List ApiModule)
    → ((i : ℕ) → memory i ≡ true)
    → length label ≤ 11
    → All IsShort (row ∷ rows)
    → device_info true true memory label (row ∷ rows) ≡ some (some (device_text label (row ∷ rows)))
unfolding device_info
device_info_lem memory label row rows all l short =
    let all_rows = row ∷ rows in
    let cap = max_json_len (length all_rows) in
    let name = platform_info label in
    let fits_name = platform_line label l in
    let whole : printed max_plat_name_len name ≡ name = take_all 24 name fits_name in
    let a = strncat-fits cap (length header) [] header (omega arith) (omega arith) in
    let len = length-append header name in
    let b = strncat-fits cap max_plat_name_len header name (omega arith) (omega arith) in
    let start = (header ++ name) ++ modules_header in
    let len' = length-append (header ++ name) modules_header in
    let c =
      strncat-fits cap (length modules_header) (header ++ name) modules_header (omega arith)
        (omega arith) in
    let d = add_modules-lines cap memory 0 all_rows start all short (omega arith) in
    let grown = start ++ listed all_rows in
    let comma : start ++ lines all_rows ≡ grown ++ 44 ∷ 10 ∷ [] =
      rw (lines-listed row rows) (sym (append_assoc start (listed all_rows) (44 ∷ 10 ∷ []))) in
    let size = length-lines all_rows short in
    let len'' = length-append start (lines all_rows) in
    let same = ap length comma in
    let comma_len = length-append grown (44 ∷ 10 ∷ []) in
    let last = close-comma cap grown (omega arith) in
    rw (whole, a) (rw b (rw c (rw d (ap (λ t. close cap (some t)) comma ∙ last))))
