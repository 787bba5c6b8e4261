-- ===== src/Uci/Stored.antt =====
-- What an option of a UCI file holds after a line of it (rust/src/uci.rs).
use zte_u60_pro_mu5250_data.Common.{
  ℕ, ◌+◌, Bool, true, false, Option, none, some, List, [], ◌∷◌, ◌++◌, ap, if◌then◌else◌, ◌≡◌, refl,
  ◌∙◌, arith, Bool-cases, inl, inr,
}
use zte_u60_pro_mu5250_data.Uci.Strings.{is_nil}
use zte_u60_pro_mu5250_data.Uci.Parser.{
  Bytes, Value, single, many, Section, bytes_eq, add_item, add_list, set_option, store_value,
}
use zte_u60_pro_mu5250_data.Uci.Sound.{bytes_eq_sym}
use zte_u60_pro_mu5250_data.Uci.Show.{look_up, count_up, type_indices}

pub bytes_eq_eq : (a b : Bytes) → bytes_eq a b ≡ true → a ≡ b
unfolding bytes_eq
bytes_eq_eq [] [] h = refl
bytes_eq_eq [] (b ∷ bs) h = ground arith
bytes_eq_eq (a ∷ more) [] h = ground arith
bytes_eq_eq (a ∷ more) (b ∷ bs) h =
    let e : a ≡ b = ground arith in let es : more ≡ bs = bytes_eq_eq more bs (ground arith) in cc

-- The items of what an option holds; a text is one item.
abbrev pub items_of : Option Value → List Bytes
items_of none = []
items_of (some (single text)) = text ∷ []
items_of (some (many items)) = items

-- What a line makes of what the option held: a `list` line adds an item at the end, an `option` line
-- without a value changes nothing, another replaces it.
abbrev pub held_after : Bool → Bytes → Option Value → Option Value
held_after true value old = some (many (items_of old ++ value ∷ []))
held_after false value old = if is_nil value then old else some (single value)

add_item_lem :
    (value : Bytes) (v : Value) → add_item value v ≡ many (items_of (some v) ++ value ∷ [])
unfolding add_item
add_item_lem value (single old) = refl
add_item_lem value (many items) = refl

-- Of two names that differ, a third equals one at most.
not_both :
    (n name k : Bytes) → bytes_eq n name ≡ false → bytes_eq n k ≡ true → bytes_eq name k ≡ false
not_both n name k e x =
    let same : n ≡ k = bytes_eq_eq n k x in
    let turned : bytes_eq k name ≡ false = cc in bytes_eq_sym name k ∙ turned

look_up-add_list :
    (k name value : Bytes) (options : List (Bytes × Value))
    → look_up k (add_list name value options)
      ≡ (if bytes_eq name k then held_after true value (look_up k options) else look_up k options)
unfolding look_up add_list
look_up-add_list k name value [] = refl
look_up-add_list k name value ((n, v) ∷ more) = elim (Bool-cases (bytes_eq n name)) [
  | inl e ↦
      let same : n ≡ name = bytes_eq_eq n name e in
      rw e (
        rw same (elim (Bool-cases (bytes_eq name k)) [
          | inl f ↦ rw f (ap some (add_item_lem value v))
          | inr f ↦ rw f refl
        ]))
  | inr e ↦ rw e (elim (Bool-cases (bytes_eq n k)) [
    | inl x ↦ rw (x, not_both n name k e x) refl
    | inr x ↦ rw x (look_up-add_list k name value more)
  ])
]

look_up-set_option :
    (k name value : Bytes) (options : List (Bytes × Value))
    → look_up k (set_option name value options)
      ≡ (if bytes_eq name k then some (single value) else look_up k options)
unfolding look_up set_option
look_up-set_option k name value [] = refl
look_up-set_option k name value ((n, v) ∷ more) = elim (Bool-cases (bytes_eq n name)) [
  | inl e ↦
      let same : n ≡ name = bytes_eq_eq n name e in
      rw e (rw same (elim (Bool-cases (bytes_eq name k)) [ inl f ↦ rw f refl | inr f ↦ rw f refl ]))
  | inr e ↦ rw e (elim (Bool-cases (bytes_eq n k)) [
    | inl x ↦ rw (x, not_both n name k e x) refl
    | inr x ↦ rw x (look_up-set_option k name value more)
  ])
]

-- A line of a file stores in the option that it names what it makes of what that option held, and
-- leaves every other option as it was: a `list` line adds an item, behind a text if that is what was
-- held; an `option` line without a value changes nothing, and with one it replaces what was held.
pub look_up-store_value :
    (in_list : Bool) (k name value : Bytes) (options : List (Bytes × Value))
    → look_up k (store_value in_list name value options) ≡ (
        if bytes_eq name k then held_after in_list value (look_up k options) else look_up k options)
unfolding store_value
look_up-store_value true k name value options = look_up-add_list k name value options
look_up-store_value false k name value options = elim (Bool-cases (is_nil value)) [
  | inl e ↦ rw e (elim (Bool-cases (bytes_eq name k)) [ inl f ↦ rw f refl | inr f ↦ rw f refl ])
  | inr e ↦ rw e (look_up-set_option k name value options)
]

-- How many sections have the type.
abbrev pub count_type : Bytes → List Section → ℕ
count_type stype [] = 0
count_type stype (s ∷ more) = (if bytes_eq s.stype stype then 1 else 0) + count_type stype more

-- The index of each section by counting those before it.
abbrev pub indices_after : List Section → List Section → List ℕ
indices_after before [] = []
indices_after before (s ∷ more) = count_type s.stype before ∷ indices_after (s ∷ before) more

-- What the numbers say of a type.
number_of : Bytes → List (Bytes × ℕ) → ℕ
number_of stype [] = 0
number_of stype ((t, n) ∷ more) = if bytes_eq t stype then n else number_of stype more

count_up_number :
    (stype : Bytes) (counts : List (Bytes × ℕ)) → (count_up stype counts).0 ≡ number_of stype counts
unfolding count_up number_of
count_up_number stype [] = refl
count_up_number stype ((t, n) ∷ more) = elim (Bool-cases (bytes_eq t stype)) [
  | inl e ↦ rw e refl
  | inr e ↦ rw e (count_up_number stype more)
]

number_of-count_up :
    (k stype : Bytes) (counts : List (Bytes × ℕ))
    → number_of k (count_up stype counts).1
      ≡ (if bytes_eq stype k then 1 else 0) + number_of k counts
unfolding count_up number_of
number_of-count_up k stype [] = ground arith
number_of-count_up k stype ((t, n) ∷ more) = elim (Bool-cases (bytes_eq t stype)) [
  | inl e ↦
      let same : t ≡ stype = bytes_eq_eq t stype e in
      rw e (
        rw same (elim (Bool-cases (bytes_eq stype k)) [
          | inl f ↦ rw f (omega arith)
          | inr f ↦ rw f (omega arith)
        ]))
  | inr e ↦ rw e (elim (Bool-cases (bytes_eq t k)) [
    | inl x ↦ rw (x, not_both t stype k e x) (omega arith)
    | inr x ↦ rw x (number_of-count_up k stype more)
  ])
]

indices_by_counting :
    (sections before : List Section) (counts : List (Bytes × ℕ))
    → ((t : Bytes) → number_of t counts ≡ count_type t before)
    → type_indices counts sections ≡ indices_after before sections
unfolding type_indices
indices_by_counting [] before counts h = refl
indices_by_counting (s ∷ more) before counts h =
    let rest =
      indices_by_counting more (s ∷ before) (count_up s.stype counts).1
        (λ t. omega (arith, number_of-count_up t s.stype counts, h t)) in
    let e : (count_up s.stype counts).0 ≡ count_type s.stype before =
      count_up_number s.stype counts ∙ h s.stype in
    rw (e, rest) refl

-- The index in the reference of a section is the number of sections of its type before it, named ones
-- included.
pub type_indices_count :
    (sections : List Section) → type_indices [] sections ≡ indices_after [] sections
unfolding number_of
type_indices_count sections = indices_by_counting sections [] [] (λ t. refl)
