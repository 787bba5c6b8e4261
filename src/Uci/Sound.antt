-- ===== src/Uci/Sound.antt =====
-- What a parsed UCI file looks like: the names in it are valid, and each stands once
-- (rust/src/uci.rs).
use zte_u60_pro_mu5250_data.Common.{
  ◌≤◌, ◌<◌, Bool, true, false, ◌||◌, Option, none, some, List, [], ◌∷◌, length, length-append, ◌≡◌,
  refl, arith, Bool-cases, inl, inr, ◌∙◌,
}
use zte_u60_pro_mu5250_data.Uci.Lexer.{validate_str}
use zte_u60_pro_mu5250_data.Uci.Strings.{is_nil}
use zte_u60_pro_mu5250_data.Uci.Parser.{
  Bytes, Value, single, many, Section, Parser, bytes_eq, is_named, add_item, add_list, set_option,
  store_value,
}

-- A text is not empty, and a list has an item.
abbrev pub Holds : Value → Type 0
Holds (single v) = is_nil v ≡ false
Holds (many items) = 1 ≤ length items

abbrev pub has_option : Bytes → List (Bytes × Value) → Bool
has_option name [] = false
has_option name ((n, v) ∷ more) = bytes_eq n name || has_option name more

-- Every option has a valid name that no later one has, and holds something.
abbrev pub SoundOptions : List (Bytes × Value) → Type 0
SoundOptions [] = Unit {0}
SoundOptions ((n, v) ∷ more) =
    (validate_str n true false ≡ true) × Holds v × (has_option n more ≡ false) × SoundOptions more

abbrev pub ValidName : Option Bytes → Type 0
ValidName none = Unit {0}
ValidName (some n) = (validate_str n true false ≡ true) × (is_nil n ≡ false)

pub record SoundSection (s : Section) : Type 0 where
  pub stype : validate_str s.stype false false ≡ true
  pub name : ValidName s.name
  pub options : SoundOptions s.options

abbrev pub has_name : Bytes → List Section → Bool
has_name name [] = false
has_name name (s ∷ more) = is_named name s || has_name name more

abbrev pub NotIn : Option Bytes → List Section → Type 0
NotIn none sections = Unit {0}
NotIn (some n) sections = has_name n sections ≡ false

-- Every section is sound, and has no name that a later one has.
abbrev pub SoundSections : List Section → Type 0
SoundSections [] = Unit {0}
SoundSections (s ∷ more) = SoundSection s × NotIn s.name more × SoundSections more

abbrev pub Opened : Parser → Type 0
Opened p = elim p.current [ none ↦ Unit {0} | some i ↦ i < length p.sections ]

pub record Sound (p : Parser) : Type 0 where
  pub sections : SoundSections p.sections
  pub opened : Opened p

pub bytes_eq_sym : (a b : Bytes) → bytes_eq a b ≡ bytes_eq b a
unfolding bytes_eq
bytes_eq_sym [] [] = refl
bytes_eq_sym [] (b ∷ bs) = refl
bytes_eq_sym (a ∷ more) [] = refl
bytes_eq_sym (a ∷ more) (b ∷ bs) = ground (arith, bytes_eq_sym more bs)

add_item-Holds : (value : Bytes) (v : Value) → Holds (add_item value v)
unfolding add_item
add_item-Holds value (single old) = omega arith
add_item-Holds value (many items) = omega (arith, length-append items (value ∷ []))

has_option-add_list :
    (k name value : Bytes) (options : List (Bytes × Value))
    → bytes_eq name k ≡ false
    → has_option k (add_list name value options) ≡ has_option k options
unfolding add_list
has_option-add_list k name value [] h = rw h refl
has_option-add_list k name value ((n, v) ∷ more) h =
    ground (arith, has_option-add_list k name value more h)

has_option-set_option :
    (k name value : Bytes) (options : List (Bytes × Value))
    → bytes_eq name k ≡ false
    → has_option k (set_option name value options) ≡ has_option k options
unfolding set_option
has_option-set_option k name value [] h = rw h refl
has_option-set_option k name value ((n, v) ∷ more) h =
    ground (arith, has_option-set_option k name value more h)

add_list-SoundOptions :
    (name value : Bytes) (options : List (Bytes × Value))
    → validate_str name true false ≡ true
    → SoundOptions options
    → SoundOptions (add_list name value options)
unfolding add_list
add_list-SoundOptions name value [] h s = (h, omega arith, refl, tt)
add_list-SoundOptions name value ((n, v) ∷ more) h s = elim (Bool-cases (bytes_eq n name)) [
  | inl e ↦ rw e (s.0, add_item-Holds value v, s.2, s.3)
  | inr e ↦ rw e (
    s.0,
    s.1,
    has_option-add_list n name value more (bytes_eq_sym name n ∙ e) ∙ s.2,
    add_list-SoundOptions name value more h s.3,
  )
]

set_option-SoundOptions :
    (name value : Bytes) (options : List (Bytes × Value))
    → validate_str name true false ≡ true
    → is_nil value ≡ false
    → SoundOptions options
    → SoundOptions (set_option name value options)
unfolding set_option
set_option-SoundOptions name value [] h i s = (h, i, refl, tt)
set_option-SoundOptions name value ((n, v) ∷ more) h i s = elim (Bool-cases (bytes_eq n name)) [
  | inl e ↦ rw e (s.0, i, s.2, s.3)
  | inr e ↦ rw e (
    s.0,
    s.1,
    has_option-set_option n name value more (bytes_eq_sym name n ∙ e) ∙ s.2,
    set_option-SoundOptions name value more h i s.3,
  )
]

pub store_value-SoundOptions :
    (in_list : Bool) (name value : Bytes) (options : List (Bytes × Value))
    → validate_str name true false ≡ true
    → SoundOptions options
    → SoundOptions (store_value in_list name value options)
unfolding store_value
store_value-SoundOptions true name value options h s = add_list-SoundOptions name value options h s
store_value-SoundOptions false name value options h s = elim (Bool-cases (is_nil value)) [
  | inl e ↦ rw e s
  | inr e ↦ rw e (set_option-SoundOptions name value options h e s)
]
