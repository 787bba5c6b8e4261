-- ===== src/Json.antt =====
-- JSON values as the program holds them (`serde_json::Value`): the type, and the methods of it that the
-- program calls. A number is a `u64`, a negative `i64` or a double, which is kept as its bits. The
-- fields of an object stand in the order of their keys, as in the `BTreeMap` behind `serde_json::Map`.
use Prim.Native.String.{compare as compare_text}
use zte_u60_pro_mu5250_data.Common.{
  ℕ, ℤ, pos, negsuc, String, str_eq, Bool, true, false, Option, none, some, leb, if◌then◌else◌,
  List, [], ◌∷◌,
}
use Prim.Native.Nat.{Ordering}

pub data Number : Type 0 where
  unsigned negative float : ℕ → Number

mutual
  pub data Json : Type 0 where
    null : Json
    boolean : Bool → Json
    number : Number → Json
    string : String → Json
    array : Items → Json
    object : Fields → Json

  pub data Items : Type 0 where
    nil : Items
    cons : Json → Items → Items

  pub data Fields : Type 0 where
    end : Fields
    field : String → Json → Fields → Fields

-- `Map::get`
unfoldable pub get : Fields → String → Option Json
get end k = none
get (field j v more) k = if str_eq j k then some v else get more k

-- `Map::insert`
unfoldable pub insert : String → Json → Fields → Fields
insert k v end = field k v end
insert k v (field j w more) = elim (compare_text k j) [
  | Ordering.lt ↦ field k v (field j w more)
  | Ordering.eq ↦ field k v more
  | Ordering.gt ↦ field j w (insert k v more)
]

-- `Map::remove`
unfoldable pub remove : String → Fields → Fields
remove k end = end
remove k (field j w more) = let rest = remove k more in if str_eq j k then rest else field j w rest

-- `Map::extend`
unfoldable pub extend : Fields → Fields → Fields
extend base end = base
extend base (field k v more) = extend (insert k v base) more

unfoldable pub has_no_fields : Fields → Bool
has_no_fields end = true
has_no_fields (field k v more) = false

-- `Value::get` with a key
unfoldable pub get_in : Json → String → Option Json
get_in (object fs) k = get fs k
get_in _ k = none

unfoldable pub as_str : Json → Option String
as_str (string s) = some s
as_str _ = none

unfoldable pub as_bool : Json → Option Bool
as_bool (boolean b) = some b
as_bool _ = none

unfoldable pub as_object : Json → Option Fields
as_object (object fs) = some fs
as_object _ = none

number_i64 : Number → Option ℤ
number_i64 (unsigned n) = if leb n 9223372036854775807 then some (pos n) else none
number_i64 (negative n) = some (negsuc n)
number_i64 (float bits) = none

number_u64 : Number → Option ℕ
number_u64 (unsigned n) = some n
number_u64 (negative n) = none
number_u64 (float bits) = none

unfoldable pub as_i64 : Json → Option ℤ
unfolding number_i64
as_i64 (number n) = number_i64 n
as_i64 _ = none

unfoldable pub as_u64 : Json → Option ℕ
unfolding number_u64
as_u64 (number n) = number_u64 n
as_u64 _ = none

-- `o.and_then(Value::as_str)`
unfoldable pub as_str_of : Option Json → Option String
unfolding as_str
as_str_of none = none
as_str_of (some v) = as_str v

unfoldable pub int : ℕ → Json
int n = number (unsigned n)

unfoldable pub signed : ℤ → Json
signed (pos n) = number (unsigned n)
signed (negsuc n) = number (negative n)

build : List (String × Json) → Fields
build [] = end
build ((k, v) ∷ more) = insert k v (build more)

-- An object as `json!` writes it, of different keys.
unfoldable pub obj : List (String × Json) → Json
unfolding build insert
obj kvs = object (build kvs)

abbrev pub empty_object : Json
empty_object = object end
