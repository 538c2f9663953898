-- ===== src/Manager/DeviceInfo/Laws.antt =====
-- The text of os_get_device_info (linux_module.c), and the room that it takes.
use testing.Base.{
  ℕ, ◌+◌, ◌-◌, ◌*◌, ◌≤◌, ◌<◌, ◌≡◌, ◌≢◌, ◌∙◌, refl, sym, Bool, true, false, Option, none, some, List,
  [], ◌∷◌, ◌++◌, length, length-append, ltb, arith, Bool-cases, inl, inr, take, printed, take_all,
  length-take, length-printed,
}
use testing.Manager.{ApiModule}
use testing.Manager.DeviceInfo.{
  header, tail, modules_header, modules_tail, platform_info, modules_info, max_plat_name_len,
  max_module_len, max_json_len, strncat, add_modules, without_comma, close, device_info,
}

-- What fits is appended.
pub strncat-fits :
    (cap n : ℕ) (json text : List ℕ)
    → length text ≤ n
    → length json + length text < cap
    → strncat cap json text n ≡ some (json ++ text)
unfolding strncat
strncat-fits cap n json text short h =
    let len = length-append json text in
    let room : ltb (length (json ++ text)) cap ≡ true = ground (arith, len) in
    rw (take_all n text short) (rw room refl)

-- A text of at least two bytes and at most so many, or NULL.
abbrev Within : ℕ → Option (List ℕ) → Type 0
Within most none = Unit
Within most (some json) = (2 ≤ length json) × (length json ≤ most)

add_modules-Within :
    (cap : ℕ) (memory : ℕ → Bool) (i most : ℕ) (rows : List ApiModule) (json : List ℕ)
    → 2 ≤ length json
    → length json + 16 * length rows ≤ most
    → most < cap
    → (r : Option (List ℕ)) × (add_modules cap memory i rows json ≡ some r) × Within most r
unfolding add_modules
add_modules-Within cap memory i most [] json lo hi c = (some json, refl, (lo, omega arith))
add_modules-Within cap memory i most (row ∷ rows) json lo hi c =
    let entry = printed max_module_len (modules_info row.name) in
    let short : length entry ≤ 16 = length-printed max_module_len (modules_info row.name) in
    let len = length-append json entry in
    let fits = strncat-fits cap max_module_len json entry (omega arith) (omega arith) in
    elim (Bool-cases (memory i)) [
      | inr failed ↦ (none, rw failed refl, tt)
      | inl given ↦
          let rest =
            add_modules-Within cap memory (i + 1) most rows (json ++ entry) (omega arith)
              (omega arith) c in
          (rest.0, rw given (rw fits rest.1), rest.2)
    ]

close-fits :
    (cap : ℕ) (r : Option (List ℕ))
    → (most : ℕ) → Within most r
    → most + 5 < cap
    → (t : Option (List ℕ)) × (close cap r ≡ some t)
close-fits cap none most w h = (none, refl)
close-fits cap (some json) most w h =
    let cut = without_comma json in
    let len = length-append (take (length json - 2) json) (10 ∷ []) in
    let short = length-take (length json - 2) json in
    let first =
      strncat-fits cap (length modules_tail) cut modules_tail (omega arith) (omega arith) in
    let len' = length-append cut modules_tail in
    let second =
      strncat-fits cap (length tail) (cut ++ modules_tail) tail (omega arith) (omega arith) in
    let long : ltb (length json) 2 ≡ false = ground (arith, w.0) in
    (some ((cut ++ modules_tail) ++ tail), rw long (rw first (rw second refl)))

-- The text never outgrows its block, whatever the label, the names and the number of the modules, and
-- wherever memory runs out.
pub device_info-fits :
    (json_memory entry_memory : Bool) (memory : ℕ → Bool) (label : List ℕ) (rows : List ApiModule)
    → device_info json_memory entry_memory memory label rows ≢ none
unfolding device_info
device_info-fits false entry_memory memory label rows e = cc
device_info-fits true false memory label rows e = cc
device_info-fits true true memory label rows e =
    let cap = max_json_len (length rows) in
    let name = printed max_plat_name_len (platform_info label) in
    let short : length name ≤ 24 = length-printed max_plat_name_len (platform_info label) in
    let a = strncat-fits cap (length header) [] header (omega arith) (omega arith) in
    let len = length-append header name in
    let b = strncat-fits cap max_plat_name_len header name (omega arith) (omega arith) in
    let len' = length-append (header ++ name) modules_header in
    let c =
      strncat-fits cap (length modules_header) (header ++ name) modules_header (omega arith)
        (omega arith) in
    let most = 26 + length modules_header + 16 * length rows in
    let d =
      add_modules-Within cap memory 0 most rows ((header ++ name) ++ modules_header) (omega arith)
        (omega arith) (omega arith) in
    let last = close-fits cap d.0 most d.2 (omega arith) in
    let whole : device_info true true memory label rows ≡ some last.0 =
      rw a (rw b (rw c (rw d.1 last.1))) in
    let bad : some last.0 ≡ none = sym whole ∙ e in cc
