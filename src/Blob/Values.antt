-- ===== src/Blob/Values.antt =====
-- The values in attributes and the table of message attributes (rust/src/ubus/blob.rs). A text is
-- its UTF-8 bytes: `get_string` is what is handed to `String::from_utf8_lossy`.
use zte_u60_pro_mu5250_data.Common.{
  ℕ, zero, suc, ◌<◌, Bool, false, Option, none, some, List, [], ◌∷◌, ◌++◌, ◌==◌, length, get_elem?,
  set, length-set, get_elem?-set_self, get_elem?-set_ne, replicate, Result, ok, err, ◌>>=◌,
  if◌then◌else◌, u32_mod, ◌≡◌, ◌≢◌, refl, ap, ◌∙◌, arith, Bool-cases, inl, inr,
}
use zte_u60_pro_mu5250_data.Blob.Bytes.{be32, from_be32, from_be32-be32}
use zte_u60_pro_mu5250_data.Blob.Attrs.{BlobError, wrong_int_length, Attr, parse_attrs, put_attr}

unfoldable pub put_u32 : List ℕ → ℕ → ℕ → Option (List ℕ)
put_u32 out id v = put_attr out id false (be32 v)

unfoldable pub put_string : List ℕ → ℕ → List ℕ → Option (List ℕ)
put_string out id s = put_attr out id false (s ++ 0 ∷ [])

int_of : List ℕ → Result BlobError ℕ
int_of (a ∷ b ∷ c ∷ d ∷ []) = ok (from_be32 a b c d)
int_of _ = err wrong_int_length

unfoldable pub get_u32 : Attr → Result BlobError ℕ
unfolding int_of
get_u32 a = int_of a.payload

unfoldable pub up_to_nul : List ℕ → List ℕ
up_to_nul [] = []
up_to_nul (b ∷ bs) = if b == 0 then [] else b ∷ up_to_nul bs

unfoldable pub get_string : Attr → List ℕ
unfolding up_to_nul
get_string a = up_to_nul a.payload

abbrev pub attr_max : ℕ
attr_max = 14

-- The loop of `msg_attrs` over the parsed attributes; `set` out of range changes nothing.
unfoldable pub fill_slots : List (Option Attr) → List Attr → List (Option Attr)
fill_slots out [] = out
fill_slots out (a ∷ more) = fill_slots (set out a.id (some a)) more

unfoldable pub msg_attrs : List ℕ → Result BlobError (List (Option Attr))
msg_attrs children =
    parse_attrs children >>= λ attrs. ok (fill_slots (replicate attr_max none) attrs)

-- The last of the attributes that has the id, or `none`.
unfoldable pub last_with : ℕ → List Attr → Option Attr → Option Attr
last_with i [] found = found
last_with i (a ∷ more) found = last_with i more (if a.id == i then some a else found)

get_u32-put :
    (v : ℕ) (id : ℕ) (ext : Bool)
    → v < u32_mod
    → get_u32 (record { id = id; extended = ext; payload = be32 v }) ≡ ok v
unfolding get_u32
get_u32-put v id ext h = ap ok (from_be32-be32 v h)

abbrev pub NoNul : List ℕ → Type 0
NoNul [] = Unit {0}
NoNul (b ∷ bs) = (b ≢ 0) × NoNul bs

pub up_to_nul-text : (s : List ℕ) → NoNul s → up_to_nul (s ++ 0 ∷ []) ≡ s
unfolding up_to_nul
up_to_nul-text [] n = refl
up_to_nul-text (b ∷ bs) (h, n) = ground (arith, up_to_nul-text bs n)

pub get_string-text :
    (s : List ℕ) (id : ℕ) (ext : Bool)
    → NoNul s
    → get_string (record { id = id; extended = ext; payload = s ++ 0 ∷ [] }) ≡ s
unfolding get_string
get_string-text s id ext n = up_to_nul-text s n

slot-set :
    (k i : ℕ) (a : Attr) (out : List (Option Attr)) (found : Option Attr)
    → i < length out
    → get_elem? out i ≡ some found
    → get_elem? (set out k (some a)) i ≡ some (if k == i then some a else found)
slot-set k i a out found h e = elim (Bool-cases (k == i)) [
  | inl y ↦ let same : k ≡ i = ground arith in rw (y, same) (get_elem?-set_self out i (some a) h)
  | inr n ↦ let other : k ≢ i = ground arith in rw n (get_elem?-set_ne out (some a) other ∙ e)
]

fill_slots-last :
    (i : ℕ) (out : List (Option Attr)) (attrs : List Attr) (found : Option Attr)
    → i < length out
    → get_elem? out i ≡ some found
    → get_elem? (fill_slots out attrs) i ≡ some (last_with i attrs found)
unfolding fill_slots last_with
fill_slots-last i out [] found h e = e
fill_slots-last i out (a ∷ more) found h e =
    fill_slots-last i (set out a.id (some a)) more _ (omega (arith, length-set out a.id (some a)))
      (slot-set a.id i a out found h e)

empty_slot : (i n : ℕ) → i < n → get_elem? (replicate {A = Option Attr} n none) i ≡ some none
empty_slot i zero h = elim h [ ]
empty_slot zero (suc n) h = refl
empty_slot (suc i) (suc n) h = empty_slot i n (omega arith)

-- Where `msg_attrs` accepts a message, each slot holds the last attribute of its id.
pub msg_attrs_last :
    (children : List ℕ) (attrs : List Attr) (i : ℕ)
    → parse_attrs children ≡ ok attrs
    → i < attr_max
    → (slots : List (Option Attr)) × (msg_attrs children ≡ ok slots)
      × (get_elem? slots i ≡ some (last_with i attrs none))
unfolding msg_attrs
msg_attrs_last children attrs i e h = (
  fill_slots (replicate attr_max none) attrs,
  rw e refl,
  fill_slots-last i (replicate attr_max none) attrs none (omega arith) (empty_slot i attr_max h),
)
