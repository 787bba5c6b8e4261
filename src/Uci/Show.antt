-- ===== src/Uci/Show.antt =====
-- What is read out of a parsed UCI file: `quote`, `type_refs`, `section_refs`, `render_show`, `get`,
-- `choose` and `load` (rust/src/uci.rs). The files are parameters: the size of the file of unsaved
-- changes, if there is one, and the bytes of the configuration file, if it can be read. `{idx}` of
-- `format!` is a parameter too: it writes a number in decimal.
use zte_u60_pro_mu5250_data.Common.{
  ℕ, ◌+◌, Bool, false, ◌||◌, Option, none, some, List, [], ◌∷◌, ◌++◌, ◌==◌, ltb, unwrap_or,
  if◌then◌else◌, Result, ok, err,
}
use zte_u60_pro_mu5250_data.Uci.Lexer.{Fail, squote, backslash_byte}
use zte_u60_pro_mu5250_data.Uci.Parser.{
  Bytes, Value, single, many, Section, bytes_eq, find_section, parse,
}

unfoldable pub quoted : Bytes → Bytes
quoted [] = []
quoted (c ∷ more) =
    let rest = quoted more in
    if c == squote then squote ∷ backslash_byte ∷ squote ∷ squote ∷ rest else c ∷ rest

unfoldable pub quote : Bytes → Bytes
unfolding quoted
quote v = squote ∷ quoted v ++ squote ∷ []

-- The number of the type so far, and the numbers with the type counted once more.
unfoldable pub count_up : Bytes → List (Bytes × ℕ) → ℕ × List (Bytes × ℕ)
count_up stype [] = (0, (stype, 1) ∷ [])
count_up stype ((t, n) ∷ more) =
    let (i, counts) = count_up stype more in
    if bytes_eq t stype then (n, (t, n + 1) ∷ more) else (i, (t, n) ∷ counts)

unfoldable pub type_indices : List (Bytes × ℕ) → List Section → List ℕ
unfolding count_up
type_indices counts [] = []
type_indices counts (s ∷ more) =
    let (i, counts') = count_up s.stype counts in i ∷ type_indices counts' more

unfoldable pub name_refs : List Section → List Bytes → List Bytes
name_refs [] rs = []
name_refs (s ∷ more) [] = []
name_refs (s ∷ more) (r ∷ rs) = unwrap_or s.name r ∷ name_refs more rs

-- The items of a list, each behind a blank but the first.
unfoldable pub joined : (Bytes → Bytes) → List Bytes → Bytes
joined show [] = []
joined show (v ∷ []) = show v
joined show (v ∷ w ∷ more) = show v ++ 32 ∷ joined show (w ∷ more)

unfoldable pub show_value : Value → Bytes
unfolding joined quote
show_value (single v) = quote v
show_value (many items) = joined quote items

unfoldable pub show_options : Bytes → List (Bytes × Value) → Bytes
unfolding show_value
show_options prefix [] = []
show_options prefix ((name, value) ∷ more) =
    prefix ++ 46 ∷ name ++ 61 ∷ show_value value ++ 10 ∷ show_options prefix more

unfoldable pub show_sections : Bytes → List Section → List Bytes → Bytes
unfolding show_options
show_sections name [] rs = []
show_sections name (s ∷ more) [] = []
show_sections name (s ∷ more) (r ∷ rs) =
    let prefix = name ++ 46 ∷ r in
    prefix ++ 61 ∷ s.stype ++ 10 ∷ show_options prefix s.options ++ show_sections name more rs

unfoldable pub has_space : Bytes → Bool
has_space [] = false
has_space (c ∷ more) = c == 32 || c == 9 || c == 13 || c == 10 || has_space more

unfoldable pub plain_item : Bytes → Bytes
unfolding has_space quote
plain_item v = if has_space v then quote v else v

unfoldable pub get_value : Value → Bytes
unfolding joined plain_item
get_value (single v) = v
get_value (many items) = joined plain_item items

-- The section whose reference it is.
unfoldable pub find_ref : Bytes → List Section → List Bytes → Option Section
find_ref want [] rs = none
find_ref want (s ∷ more) [] = none
find_ref want (s ∷ more) (r ∷ rs) = if bytes_eq r want then some s else find_ref want more rs

unfoldable pub look_up : Bytes → List (Bytes × Value) → Option Value
look_up name [] = none
look_up name ((n, v) ∷ more) = if bytes_eq n name then some v else look_up name more

unfoldable pub section_of : Bytes → List Section → List Bytes → Option Section
unfolding find_ref
section_of want sections rs = elim (find_section want sections) [
  | some (i, s) ↦ some s
  | none ↦ find_ref want sections rs
]

module _ (decimal : ℕ → Bytes) where
  abbrev pub type_ref : Section → ℕ → Bytes
  type_ref s i = 64 ∷ s.stype ++ 91 ∷ decimal i ++ 93 ∷ []

  unfoldable pub zip_refs : List Section → List ℕ → List Bytes
  zip_refs [] is = []
  zip_refs (s ∷ more) [] = []
  zip_refs (s ∷ more) (i ∷ is) = type_ref s i ∷ zip_refs more is

  unfoldable pub type_refs : List Section → List Bytes
  unfolding type_indices zip_refs
  type_refs sections = zip_refs sections (type_indices [] sections)

  unfoldable pub section_refs : List Section → List Bytes
  unfolding name_refs type_refs
  section_refs sections = name_refs sections (type_refs sections)

  unfoldable pub render_show : Bytes → List Section → Bytes
  unfolding show_sections section_refs
  render_show name sections = show_sections name sections (section_refs sections)

  unfoldable pub get : List Section → Bytes → Bytes → Option Bytes
  unfolding section_of look_up get_value type_refs
  get sections want name = elim (section_of want sections (type_refs sections)) [
    | none ↦ none
    | some s ↦ elim (look_up name s.options) [ none ↦ none | some v ↦ some (get_value v) ]
  ]

pub data UciSource : Type 0 where
  read_it : Bytes → UciSource
  show_it : UciSource

unfoldable pub choose : Option ℕ → Option Bytes → UciSource
choose unsaved file =
    if ltb 0 (unwrap_or unsaved 0)
    then show_it
    else elim file [ none ↦ show_it | some bytes ↦ read_it bytes ]

abbrev pub if_ok : Result Fail (List Section) → Option (List Section)
if_ok (ok sections) = some sections
if_ok (err e) = none

unfoldable pub load : Option ℕ → Option Bytes → Option (List Section)
unfolding choose parse
load unsaved file = elim (choose unsaved file) [
  | show_it ↦ none
  | read_it bytes ↦ if_ok (parse bytes)
]
