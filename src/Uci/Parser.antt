-- ===== src/Uci/Parser.antt =====
-- The parser of UCI files: `Parser` with its methods, and `parse` (rust/src/uci.rs).
use zte_u60_pro_mu5250_data.Common.{
  ℕ, zero, suc, Bool, true, false, ◌&&◌, ◌||◌, not, Option, none, some, List, [], ◌∷◌, ◌++◌, ◌==◌,
  length, get_elem?, set, if◌then◌else◌, Result, ok, err, ◌>>=◌,
}
use zte_u60_pro_mu5250_data.Uci.Lexer.{
  Lexer, Fail, failed, stuck, panicked, Parsed, ch, fail, validate_str, getln, skip_whitespace,
  hash,
}
use zte_u60_pro_mu5250_data.Uci.Strings.{is_nil, next_arg, assert_eol, skip_keyword, strtok, room}

abbrev pub Bytes : Type 0
Bytes = List ℕ

unfoldable pub bytes_eq : Bytes → Bytes → Bool
bytes_eq [] [] = true
bytes_eq (a ∷ more) (b ∷ rest) = a == b && bytes_eq more rest
bytes_eq _ _ = false

pub data Value : Type 0 where
  single : Bytes → Value
  many : List Bytes → Value

-- `name` is `none` for an anonymous section.
pub record Section : Type 0 where
  pub name : Option Bytes
  pub stype : Bytes
  pub options : List (Bytes × Value)

-- `Parser`: the sections of the package, and which of them is open.
pub record Parser : Type 0 where
  pub sections : List Section
  pub current : Option ℕ

abbrev pub is_named : Bytes → Section → Bool
is_named name s = elim s.name [ none ↦ false | some n ↦ bytes_eq n name ]

-- The first section of the name, with its index.
unfoldable pub find_section : Bytes → List Section → Option (ℕ × Section)
find_section name [] = none
find_section name (s ∷ more) =
    let later = find_section name more in
    if is_named name s
    then some (0, s)
    else elim later [ none ↦ none | some (i, t) ↦ some (suc i, t) ]

-- A new section at the end, which is open from now on.
abbrev pub push_section : Parser → Section → Parser
push_section p s = record { sections = p.sections ++ s ∷ []; current = some (length p.sections) }

abbrev pub reopen : Lexer → Parser → Bytes → ℕ → Section → Parsed Parser
reopen lx p stype i s =
    if bytes_eq s.stype stype
    then ok (lx, record p { current = some i })
    else fail lx "section of different type overwrites prior section with same name"

unfoldable pub open_section : Lexer → Parser → Bytes → Bytes → Parsed Parser
unfolding find_section
open_section lx p stype name =
    if is_nil name
    then ok (lx, push_section p (record { name = none; stype = stype; options = [] }))
    else (elim (find_section name p.sections) [
      | some (i, s) ↦ reopen lx p stype i s
      | none ↦ ok (lx, push_section p (record { name = some name; stype = stype; options = [] }))
    ])

unfoldable pub config : Parser → Lexer → Parsed Parser
unfolding skip_keyword next_arg assert_eol open_section validate_str
config p lx = do
  (lx1, u) ← skip_keyword lx "config without name"
  (lx2, stype) ← next_arg lx1 true false false
  if not (validate_str stype false false) then fail lx2 "invalid character in type field" else (do
    (lx3, name) ← next_arg lx2 false true false
    (lx4, v) ← assert_eol lx3
    open_section lx4 p stype name)

unfoldable pub add_item : Bytes → Value → Value
add_item value (single old) = many (old ∷ value ∷ [])
add_item value (many items) = many (items ++ value ∷ [])

-- `uci_add_list`
unfoldable pub add_list : Bytes → Bytes → List (Bytes × Value) → List (Bytes × Value)
unfolding add_item
add_list name value [] = (name, many (value ∷ [])) ∷ []
add_list name value ((n, v) ∷ more) =
    let rest = add_list name value more in
    if bytes_eq n name then (n, add_item value v) ∷ more else (n, v) ∷ rest

unfoldable pub set_option : Bytes → Bytes → List (Bytes × Value) → List (Bytes × Value)
set_option name value [] = (name, single value) ∷ []
set_option name value ((n, v) ∷ more) =
    let rest = set_option name value more in
    if bytes_eq n name then (n, single value) ∷ more else (n, v) ∷ rest

unfoldable pub store_value : Bool → Bytes → Bytes → List (Bytes × Value) → List (Bytes × Value)
unfolding add_list set_option
store_value in_list name value options =
    if in_list
    then add_list name value options
    else if is_nil value
    then options
    else set_option name value options

-- Into the open section; an index past the end panics in the source.
unfoldable pub store_in : Lexer → Parser → ℕ → Bool → Bytes → Bytes → Parsed Parser
unfolding store_value
store_in lx p i in_list name value = elim (get_elem? p.sections i) [
  | none ↦ err panicked
  | some s ↦
      let s' = record s { options = store_value in_list name value s.options } in
      ok (lx, record p { sections = set p.sections i s' })
]

-- `option`, and `list` with `in_list`.
unfoldable pub option : Parser → Lexer → Bool → Parsed Parser
unfolding skip_keyword next_arg assert_eol store_in
option p lx in_list = elim p.current [
  | none ↦ fail lx "option/list command found before the first section"
  | some i ↦ do
    (lx1, u) ← skip_keyword lx "option without name"
    (lx2, name) ← next_arg lx1 true true false
    (lx3, value) ← next_arg lx2 false false false
    (lx4, v) ← assert_eol lx3
    store_in lx4 p i in_list name value
]

-- `package`
unfoldable pub package_line : Parser → Lexer → Parsed Parser
unfolding skip_keyword next_arg assert_eol
package_line p lx = do
  (lx1, u) ← skip_keyword lx "package without name"
  (lx2, name) ← next_arg lx1 true true true
  (lx3, v) ← assert_eol lx2
  ok (lx3, p)

pub data Command : Type 0 where
  no_command comment package_command config_command option_command list_command : Command
  invalid_command : Command

-- A keyword may be cut to its first letter.
abbrev pub is_keyword : Bytes → Bytes → Bool
is_keyword rest tail = is_nil rest || bytes_eq rest tail

unfoldable pub command_of : Bytes → Command
unfolding bytes_eq
command_of [] = no_command
command_of (c ∷ rest) =
    if c == hash
    then comment
    else if c == 112 && is_keyword rest (97 ∷ 99 ∷ 107 ∷ 97 ∷ 103 ∷ 101 ∷ [])
    then package_command
    else if c == 99 && is_keyword rest (111 ∷ 110 ∷ 102 ∷ 105 ∷ 103 ∷ [])
    then config_command
    else if c == 111 && is_keyword rest (112 ∷ 116 ∷ 105 ∷ 111 ∷ 110 ∷ [])
    then option_command
    else if c == 108 && is_keyword rest (105 ∷ 115 ∷ 116 ∷ [])
    then list_command
    else invalid_command

-- A pass of the loop of `line`: the end, or another pass behind a command.
pub data Turn : Type 0 where
  line_done : Turn
  turn : Parsed Parser → Turn

unfoldable pub take_turn : Command → Parser → Lexer → Turn
unfolding package_line config option
take_turn no_command p lx = line_done
take_turn comment p lx = line_done
take_turn package_command p lx = turn (package_line p lx)
take_turn config_command p lx = turn (config p lx)
take_turn option_command p lx = turn (option p lx false)
take_turn list_command p lx = turn (option p lx true)
take_turn invalid_command p lx = turn (fail lx "invalid command")

unfoldable pub line_loop : ℕ → Parser → Lexer → Parsed Parser
unfolding strtok command_of take_turn
line_loop zero p lx = err stuck
line_loop (suc fuel) p lx =
    let (lx', word) = strtok lx in
    elim (take_turn (command_of word) p lx') [
      | line_done ↦ ok (lx', p)
      | turn res ↦ do (lx'', p') ← res; line_loop fuel p' lx''
    ]

unfoldable pub line : Parser → Lexer → Parsed Parser
unfolding line_loop skip_whitespace
line p lx = let lx' = skip_whitespace lx in line_loop (suc (room lx')) p lx'

-- The next line of the file is read into the empty buffer, and parsed unless it is empty.
unfoldable pub next_line : Parser → Lexer → Parsed Parser
unfolding line getln
next_line p lx =
    let lx' = getln (record lx { pos = 0 }) 0 in if ch lx' 0 == 0 then ok (lx', p) else line p lx'

unfoldable pub parse_loop : ℕ → Parser → Lexer → Parsed Parser
unfolding next_line
parse_loop zero p lx = err stuck
parse_loop (suc fuel) p lx =
    if is_nil lx.rest then ok (lx, p) else (do (lx', p') ← next_line p lx; parse_loop fuel p' lx')

abbrev pub has_nul : Bytes → Bool
has_nul [] = false
has_nul (c ∷ more) = c == 0 || has_nul more

abbrev pub start_lexer : Bytes → Lexer
start_lexer input = record { rest = input; buf = []; pos = 0; filled = 0; line = 0 }

abbrev pub start_parser : Parser
start_parser = record { sections = []; current = none }

unfoldable pub parse : Bytes → Result Fail (List Section)
unfolding parse_loop
parse input =
    if has_nul input then err (failed (record { line = 0; reason = "NUL byte in file" })) else (do
      (lx, p) ← parse_loop (suc (length input)) start_parser (start_lexer input)
      ok p.sections)
