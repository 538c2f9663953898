-- ===== src/Manager/Table.antt =====
-- The table of the generic platform (inc/base/platform/artik_generic_platform.h), and the names of a
-- table.
use Prim.Native.String.{String}
use testing.Base.{
  ℕ, ◌<◌, ◌≡◌, ◌≢◌, ◌∙◌, refl, sym, ap, subst, Bool, true, not, ◌&&◌, ◌||◌, none, some, List, [],
  ◌∷◌, All, length, ltb, arith, Bool-cases, Option-cases, inl, inr, codes,
}
use testing.Manager.{ApiModule, row_of, max_module_name}
use testing.Manager.Names.{strncmp_eq, strncmp_eq-eq}
use testing.Manager.Valid.{IsTable}

abbrev row : ℕ → String → String → ApiModule
row id name object = record { id = id; name = codes name; object = codes object }

-- The identifiers are those of `artik_module_id_t`, in order. The row that ends the table is the
-- list's end.
abbrev pub generic_modules : List ApiModule
generic_modules =
    row 0 "log" "base"
    ∷ row 1 "loop" "base"
    ∷ row 2 "gpio" "systemio"
    ∷ row 3 "i2c" "systemio"
    ∷ row 4 "serial" "systemio"
    ∷ row 5 "pwm" "systemio"
    ∷ row 6 "adc" "systemio"
    ∷ row 7 "http" "connectivity"
    ∷ row 8 "cloud" "connectivity"
    ∷ row 9 "wifi" "wifi"
    ∷ row 10 "media" "media"
    ∷ row 11 "time" "base"
    ∷ row 12 "security" "connectivity"
    ∷ row 13 "spi" "systemio"
    ∷ row 14 "bluetooth" "bluetooth"
    ∷ row 15 "sensor" "sensor"
    ∷ row 16 "zigbee" "zigbee"
    ∷ row 17 "network" "connectivity"
    ∷ row 18 "websocket" "connectivity"
    ∷ row 19 "lwm2m" "lwm2m"
    ∷ row 20 "mqtt" "mqtt"
    ∷ []

every : (ApiModule → Bool) → List ApiModule → Bool
every q [] = true
every q (r ∷ rows) = q r && every q rows

every-All :
    (q : ApiModule → Bool) (rows : List ApiModule)
    → every q rows ≡ true
    → All (λ r. q r ≡ true) rows
unfolding every
every-All q [] h = tt
every-All q (r ∷ rows) h = (ground (arith, h), every-All q rows (ground (arith, h)))

-- The row that is found for a name, of a table of short names.
row_of-All :
    (P : ApiModule → Type 0) (rows : List ApiModule) (name : List ℕ) (r : ApiModule)
    → All (λ x. ltb (length x.name) max_module_name ≡ true) rows
    → row_of rows name ≡ some r
    → All P rows
    → P r × (r.name ≡ name)
unfolding row_of
row_of-All P [] name r short e h = absurd cc
row_of-All P (x ∷ rows) name r short e h =
    elim (Bool-cases (strncmp_eq max_module_name x.name name)) [
      | inl hit ↦
          let whole : some x ≡ some r = rw hit at e in
          let same : x ≡ r = cc in
          let within : length x.name < max_module_name = ground (arith, short.0) in
          (
            subst P same h.0,
            ap (λ (y : ApiModule). y.name) (sym same)
                ∙ strncmp_eq-eq max_module_name x.name name within hit,
          )
      | inr miss ↦ row_of-All P rows name r short.1 (rw miss at e) h.1
    ]

-- If one name is the beginning of the other, the two are the same.
alone : ApiModule → ApiModule → Bool
alone x y =
    not (strncmp_eq (length x.name) y.name x.name) || strncmp_eq max_module_name y.name x.name

is_short : ApiModule → Bool
is_short x = ltb (length x.name) max_module_name

-- What `IsTable` asks, checked row by row.
unfoldable pub is_table : List ApiModule → Bool
unfolding every alone is_short
is_table rows = every (λ x. every (alone x) rows) rows && every is_short rows

row_there :
    (rows : List ApiModule) (name : List ℕ)
    → row_of rows name ≢ none
    → (r : ApiModule) × (row_of rows name ≡ some r)
row_there rows name n = elim (Option-cases (row_of rows name)) [
  | inl absent ↦ absurd (n absent)
  | inr there ↦ there
]

short_lt : (x : ApiModule) → is_short x ≡ true → length x.name < max_module_name
unfolding is_short
short_lt x h = ground (arith, h)

-- In a table that passes the check, no name is the beginning of another one, among the names that are
-- found in it.
pub is_table-IsTable : (rows : List ApiModule) → is_table rows ≡ true → IsTable rows
unfolding is_table alone is_short
is_table-IsTable rows h =
    let pairs = every-All (λ x. every (alone x) rows) rows (ground (arith, h)) in
    let short = every-All is_short rows (ground (arith, h)) in
    record {
      no_prefix = λ a b na nb p.
          let (r, ra) = row_there rows a na in
          let (q, qb) = row_there rows b nb in
          let (beside, is_a) = row_of-All _ rows a r short ra pairs in
          let (apart, is_b) = row_of-All _ rows b q short qb (every-All (alone r) rows beside) in
          let (within, _) = row_of-All _ rows b q short qb short in
          let prefix : strncmp_eq (length r.name) q.name r.name ≡ true = rw (is_a, is_b) p in
          let same =
            strncmp_eq-eq max_module_name q.name r.name (short_lt q within) (rw prefix at apart) in
          sym is_b ∙ same ∙ is_a;
    }

-- The generic platform's table passes.
pub generic_modules-IsTable : IsTable generic_modules
unfolding is_table strncmp_eq
generic_modules-IsTable = is_table-IsTable generic_modules refl
