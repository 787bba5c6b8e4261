-- ===== src/Common/Text.antt =====
-- The methods of Rust's `str` that the program calls on the texts of its clients and of the device:
-- `trim`, `split`, `parse::<i64>`, `bytes().all`, `len`, and the decimal that `format!` writes.
use Prim.Native.Nat.{ℕ, zero, suc, ◌+◌, ◌*◌, ◌-◌, ◌/◌, ◌%◌}
use Prim.Native.Char.{Char, code}
use Prim.Native.String.{String, slice, ◌++◌}
use mathlib.Core.Bool.{Bool, true, false, ◌&&◌, ◌||◌}
use mathlib.Core.Option.{Option, none, some}
use mathlib.Core.List.{List, [], ◌∷◌, reverse}
use text.Mathlib.TextBridge.{of_list}
use zte_u60_pro_mu5250_data.Common.Int.{ℤ, pos, negsuc}
use zte_u60_pro_mu5250_data.Common.Tests.{ltb, leb, ◌==◌, if◌then◌else◌}

unfoldable pub chars : String → List Char
chars String.[] = []
chars (String.◌∷◌ c s) = c ∷ chars s

abbrev pub text_of : List Char → String
text_of = of_list

-- `s.bytes().all(p)` or `s.chars().all(p)`, for a `p` that no byte of a longer character meets.
unfoldable pub all_chars : (ℕ → Bool) → List Char → Bool
all_chars p [] = true
all_chars p (c ∷ more) = p (code c) && all_chars p more

unfoldable pub has_char : (ℕ → Bool) → List Char → Bool
has_char p [] = false
has_char p (c ∷ more) = p (code c) || has_char p more

-- `is_ascii_digit`, `is_ascii_alphanumeric`
unfoldable pub is_digit : ℕ → Bool
is_digit c = leb b'0' c && leb c b'9'

unfoldable pub is_alphanumeric : ℕ → Bool
unfolding is_digit
is_alphanumeric c = is_digit c || (leb b'A' c && leb c b'Z') || (leb b'a' c && leb c b'z')

-- `char::is_whitespace`
unfoldable pub is_white : ℕ → Bool
is_white c =
    (leb 9 c && leb c 13)
    || c == 32
    || c == 133
    || c == 160
    || c == 5760
    || (leb 8192 c && leb c 8202)
    || c == 8232
    || c == 8233
    || c == 8239
    || c == 8287
    || c == 12288

drop_white : List Char → List Char
drop_white [] = []
drop_white (c ∷ more) = let rest = drop_white more in if is_white (code c) then rest else c ∷ more

-- `trim`
unfoldable pub trim : List Char → List Char
unfolding drop_white is_white
trim cs = reverse (drop_white (reverse (drop_white cs)))

-- The text before the first `sep`, and the text after it if there is one.
unfoldable pub split_once : ℕ → List Char → List Char × Option (List Char)
split_once sep [] = ([], none)
split_once sep (c ∷ more) =
    let (front, rest) = split_once sep more in
    if code c == sep then ([], some more) else (c ∷ front, rest)

-- `split(sep)`
unfoldable pub split : ℕ → List Char → List (List Char)
split sep [] = [] ∷ []
split sep (c ∷ more) = elim (split sep more) [
  | [] ↦ [] ∷ []
  | part ∷ parts ↦ if code c == sep then [] ∷ part ∷ parts else (c ∷ part) ∷ parts
]

digits_value : ℕ → List Char → Option ℕ
digits_value n [] = some n
digits_value n (c ∷ more) =
    let rest = digits_value (n * 10 + (code c - b'0')) more in
    if is_digit (code c) then rest else none

digits_of : List Char → Option ℕ
digits_of [] = none
digits_of (c ∷ more) = digits_value 0 (c ∷ more)

positive_of : Option ℕ → Option ℤ
positive_of none = none
positive_of (some n) = if leb n 9223372036854775807 then some (pos n) else none

negative_of : Option ℕ → Option ℤ
negative_of none = none
negative_of (some zero) = some (pos 0)
negative_of (some (suc n)) = if leb n 9223372036854775807 then some (negsuc n) else none

-- `parse::<i64>().ok()`
unfoldable pub parse_i64 : List Char → Option ℤ
unfolding digits_value digits_of positive_of negative_of is_digit
parse_i64 [] = none
parse_i64 (c ∷ more) =
    if code c == b'-'
    then negative_of (digits_of more)
    else if code c == b'+'
    then positive_of (digits_of more)
    else positive_of (digits_of (c ∷ more))

digit : ℕ → String
digit d = slice "0123456789" d (d + 1)

decimal_on : ℕ → ℕ → String
decimal_on zero n = ""
decimal_on (suc fuel) n =
    let front = decimal_on fuel (n / 10) in if ltb n 10 then digit n else front ++ digit (n % 10)

-- A number as `format!` writes it. Twenty digits are enough for a `u64`.
unfoldable pub decimal : ℕ → String
unfolding digit decimal_on
decimal n = decimal_on 20 n

unfoldable pub signed_decimal : ℤ → String
unfolding decimal
signed_decimal (pos n) = decimal n
signed_decimal (negsuc n) = "-" ++ decimal (n + 1)
