-- ===== src/Blob/Message.antt =====
-- The blobmsg form of JSON values: `blobmsg_put_json`, `blobmsg_table`, `decode_at` and
-- `blobmsg_object` (rust/src/ubus/blob.rs). The bytes of a text, `from_utf8_lossy` and the rounding of a
-- `u64` to a double are parameters; a double is its bits.
mod Tests
pub mod Single
pub mod Flat
pub mod RoundTrip
use zte_u60_pro_mu5250_data.Common.{
  ℕ, zero, suc, ◌+◌, ◌-◌, ◌*◌, ◌/◌, ◌%◌, String, Bool, true, false, not, ◌&&◌, Option, none, some,
  List, [], ◌∷◌, ◌++◌, ltb, leb, ◌==◌, length, take, drop, replicate, Result, ok, err, ◌>>=◌,
  if◌then◌else◌, ℤ, pos, negsuc, u32_mod, u64_mod,
}
use zte_u60_pro_mu5250_data.Json.{
  Json, null, boolean, number, string, array, object, Items, nil, cons, Fields, end, field, Number,
  unsigned, negative, float, insert,
}
use zte_u60_pro_mu5250_data.Blob.Bytes.{be16, be32, from_be16, from_be32, align}
use zte_u60_pro_mu5250_data.Blob.Attrs.{
  BlobError, not_extended, short_header, name_too_long, wrong_length, nested_too_deep, unknown_type,
  Attr, parse_attrs, put_attr,
}
use zte_u60_pro_mu5250_data.Blob.Values.{up_to_nul}

-- `i64::to_be_bytes` and `i64::from_be_bytes`, on the value modulo 2^64.
abbrev be64 : ℕ → List ℕ
be64 v = be32 (v / u32_mod) ++ be32 v

-- `i32 as u32` and `i64 as u64`
abbrev wrapped : ℕ → ℤ → ℕ
wrapped m (pos n) = n % m
wrapped m (negsuc n) = m - 1 - n % m

-- A two's complement number of modulus `m`.
unfoldable signed_of : ℕ → ℕ → Number
signed_of m v = if ltb v (m / 2) then unsigned v else negative (m - 1 - v)

unfoldable blobmsg_payload : List ℕ → List ℕ → List ℕ
blobmsg_payload name content =
    be16 (length name)
    ++ (name ++ (replicate (align (2 + length name + 1) - (2 + length name)) 0 ++ content))

-- `blobmsg_put_raw`, with the bytes of the name.
unfoldable put_raw : List ℕ → ℕ → List ℕ → List ℕ → Option (List ℕ)
put_raw out ty name content = put_attr out ty true (blobmsg_payload name content)

-- `Number::from_f64`, by the bits: none for an infinity and for what is no number.
unfoldable is_finite : ℕ → Bool
is_finite bits = not (bits / 4503599627370496 % 2048 == 2047)

unfoldable put_signed : List ℕ → List ℕ → ℤ → Bool → Option (List ℕ)
put_signed out name i true = put_raw out 5 name (be32 (wrapped u32_mod i))
put_signed out name i false = put_raw out 4 name (be64 (wrapped u64_mod i))

-- What follows a call that may fail its assertion.
abbrev and_put : Option (List ℕ) → (List ℕ → Option (List ℕ)) → Option (List ℕ)
and_put none f = none
and_put (some out) f = f out

module _ (bytes : String → List ℕ) (to_double : ℕ → ℕ) where
  -- A number is an `i32`, an `i64`, or a double.
  unfoldable put_number : List ℕ → List ℕ → Number → Option (List ℕ)
  unfolding put_signed
  put_number out name (unsigned n) =
      if leb n 9223372036854775807
      then put_signed out name (pos n) (leb n 2147483647)
      else put_raw out 8 name (be64 (to_double n))
  put_number out name (negative n) = put_signed out name (negsuc n) (leb n 2147483647)
  put_number out name (float bits) = put_raw out 8 name (be64 bits)

  -- `blobmsg_put_json`, with the bytes of the name; `none` is the failed assertion of `put_attr`.
  unfoldable mutual
    put_json : List ℕ → List ℕ → Json → Option (List ℕ)
    put_json out name null = put_raw out 0 name []
    put_json out name (boolean b) = put_raw out 7 name ((if b then 1 else 0) ∷ [])
    put_json out name (number n) = put_number out name n
    put_json out name (string s) = put_raw out 3 name (bytes s ++ 0 ∷ [])
    put_json out name (array xs) = and_put (put_items [] xs) (put_raw out 1 name)
    put_json out name (object fs) = and_put (put_fields [] fs) (put_raw out 2 name)

    put_items : List ℕ → Items → Option (List ℕ)
    put_items out nil = some out
    put_items out (cons x xs) = and_put (put_json out (bytes "") x) (λ longer. put_items longer xs)

    put_fields : List ℕ → Fields → Option (List ℕ)
    put_fields out end = some out
    put_fields out (field k v more) =
        and_put (put_json out (bytes k) v) (λ longer. put_fields longer more)

  unfoldable blobmsg_table : Fields → Option (List ℕ)
  blobmsg_table fs = put_fields [] fs

-- The values of fixed length.
unfoldable one_byte : List ℕ → Result BlobError Json
one_byte (a ∷ []) = ok (boolean (not (a == 0)))
one_byte _ = err wrong_length

unfoldable two_bytes_of : List ℕ → Result BlobError Json
two_bytes_of (a ∷ b ∷ []) = ok (number (signed_of 65536 (from_be16 a b)))
two_bytes_of _ = err wrong_length

unfoldable four_bytes : List ℕ → Result BlobError Json
four_bytes (a ∷ b ∷ c ∷ d ∷ []) = ok (number (signed_of u32_mod (from_be32 a b c d)))
four_bytes _ = err wrong_length

unfoldable eight_bytes : (ℕ → Json) → List ℕ → Result BlobError Json
eight_bytes f (a ∷ b ∷ c ∷ d ∷ e ∷ g ∷ h ∷ i ∷ []) =
    ok (f (from_be32 a b c d * u32_mod + from_be32 e g h i))
eight_bytes f _ = err wrong_length

unfoldable double_of : ℕ → Json
double_of bits = if is_finite bits then number (float bits) else null

-- The fields of an array or a table, with what decodes one.
unfoldable each_item :
    (Attr → Result BlobError (String × Json)) → List Attr → Result BlobError Items
each_item f [] = ok nil
each_item f (a ∷ more) = f a >>= λ (k, v). each_item f more >>= λ vs. ok (cons v vs)

unfoldable each_field :
    (Attr → Result BlobError (String × Json)) → Fields → List Attr → Result BlobError Fields
each_field f m [] = ok m
each_field f m (a ∷ more) = f a >>= λ (k, v). each_field f (insert k v m) more

unfoldable array_by : (Attr → Result BlobError (String × Json)) → List ℕ → Result BlobError Json
array_by f buf = parse_attrs buf >>= λ attrs. each_item f attrs >>= λ vs. ok (array vs)

unfoldable object_by : (Attr → Result BlobError (String × Json)) → List ℕ → Result BlobError Fields
object_by f buf = parse_attrs buf >>= each_field f end

unfoldable table_by : (Attr → Result BlobError (String × Json)) → List ℕ → Result BlobError Json
table_by f buf = object_by f buf >>= λ m. ok (object m)

-- `MAX_DEPTH`
abbrev max_depth : ℕ
max_depth = 32

module _ (lossy : List ℕ → String) where
  -- The value of a type, with what reads the arrays and the tables inside.
  unfoldable value_of :
      (List ℕ → Result BlobError Json)
      → (List ℕ → Result BlobError Json)
      → ℕ
      → List ℕ
      → Result BlobError Json
  unfolding one_byte two_bytes_of four_bytes eight_bytes double_of signed_of is_finite
  value_of items fields ty d =
      if ty == 0
      then ok null
      else if ty == 1
      then items d
      else if ty == 2
      then fields d
      else if ty == 3
      then ok (string (lossy (up_to_nul d)))
      else if ty == 4
      then eight_bytes (λ v. number (signed_of u64_mod v)) d
      else if ty == 5
      then four_bytes d
      else if ty == 6
      then two_bytes_of d
      else if ty == 7
      then one_byte d
      else if ty == 8
      then eight_bytes double_of d
      else err unknown_type

  unfoldable named_value :
      (ℕ → List ℕ → Result BlobError Json) → ℕ → ℕ → List ℕ → Result BlobError (String × Json)
  named_value f ty name_len rest =
      let header = align (2 + name_len + 1) - 2 in
      if ltb (length rest) header
      then err name_too_long
      else f ty (drop header rest) >>= λ v. ok (lossy (take name_len rest), v)

  -- A header of at least three bytes.
  unfoldable split_header :
      (ℕ → List ℕ → Result BlobError Json) → ℕ → List ℕ → Result BlobError (String × Json)
  unfolding named_value
  split_header f ty (a ∷ b ∷ c ∷ rest) = named_value f ty (from_be16 a b) (c ∷ rest)
  split_header f ty _ = err short_header

  unfoldable decode_by :
      (ℕ → List ℕ → Result BlobError Json) → Attr → Result BlobError (String × Json)
  unfolding split_header
  decode_by f a = if not a.extended then err not_extended else split_header f a.id a.payload

  -- `decode_at`, with how many levels may still be opened: `MAX_DEPTH` less `depth`.
  unfoldable decode_at : ℕ → Attr → Result BlobError (String × Json)
  unfolding decode_by value_of array_by table_by object_by each_item each_field
  decode_at zero a = decode_by (value_of (λ d. err nested_too_deep) (λ d. err nested_too_deep)) a
  decode_at (suc left) a =
      decode_by (value_of (array_by (decode_at left)) (table_by (decode_at left))) a

  unfoldable blobmsg_object : List ℕ → Result BlobError Fields
  unfolding object_by
  blobmsg_object buf = object_by (decode_at max_depth) buf
