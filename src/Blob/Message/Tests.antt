-- ===== src/Blob/Message/Tests.antt =====
-- Messages on concrete objects, and the round trip at one of them. The bytes of a text are its code
-- points here, which is UTF-8 below U+0080.
use Prim.Native.Nat.{compare, Ordering}
use Prim.Native.Char.{Char, char, code, nul, IsLt}
use Prim.Native.String.{[] as empty, ◌∷◌ as ◌∷ᵗ◌}
use zte_u60_pro_mu5250_data.Common.{
  ℕ, String, true, Option, none, some, List, [], ◌∷◌, ok, ◌≡◌, refl, ap, arith, map,
}
use zte_u60_pro_mu5250_data.Common.Text.{chars, text_of}
use zte_u60_pro_mu5250_data.Json.{
  null, boolean, number, string, array, object, nil, cons, Fields, end, field, unsigned, negative,
  extend, insert,
}
use zte_u60_pro_mu5250_data.Blob.Attrs.{
  parse_attrs, parse_loop, next_attr, cut_attr, put_attr, head_word,
}
use zte_u60_pro_mu5250_data.Blob.Bytes.{align}
use zte_u60_pro_mu5250_data.Blob.Values.{up_to_nul}
use zte_u60_pro_mu5250_data.Blob.Message.{
  max_depth, blobmsg_table, put_json, put_number, put_signed, put_raw, blobmsg_payload,
  blobmsg_object, object_by, decode_at, decode_by, split_header, named_value, value_of, array_by,
  table_by, each_item, each_field, one_byte, four_bytes, eight_bytes, signed_of,
}
use zte_u60_pro_mu5250_data.Blob.Message.RoundTrip.{Good, GoodFields, blobmsg_object-blobmsg_table}

-- The condition on a code point, by its three comparisons.
abbrev LowerTwo : Ordering → Ordering → Type 0
LowerTwo Ordering.lt q = IsLt q
LowerTwo Ordering.eq _ = ⊥
LowerTwo Ordering.gt _ = ⊥

abbrev CodePoint : Ordering → Ordering → Ordering → Type 0
CodePoint Ordering.lt _ _ = Unit
CodePoint Ordering.eq p q = LowerTwo p q
CodePoint Ordering.gt p q = LowerTwo p q

decide : (o p q : Ordering) → Option (CodePoint o p q)
decide Ordering.lt p q = some tt
decide Ordering.eq Ordering.lt Ordering.lt = some tt
decide Ordering.gt Ordering.lt Ordering.lt = some tt
decide _ _ _ = none

decided : (o p q : Ordering) (x : CodePoint o p q) → decide o p q ≡ some x
unfolding decide
decided Ordering.lt p q x = refl
decided Ordering.eq Ordering.lt Ordering.lt x = refl
decided Ordering.gt Ordering.lt Ordering.lt x = refl
decided Ordering.eq Ordering.lt Ordering.eq x = elim x [ ]
decided Ordering.eq Ordering.lt Ordering.gt x = elim x [ ]
decided Ordering.eq Ordering.eq q x = elim x [ ]
decided Ordering.eq Ordering.gt q x = elim x [ ]
decided Ordering.gt Ordering.lt Ordering.eq x = elim x [ ]
decided Ordering.gt Ordering.lt Ordering.gt x = elim x [ ]
decided Ordering.gt Ordering.eq q x = elim x [ ]
decided Ordering.gt Ordering.gt q x = elim x [ ]

of_code : ℕ → Char
of_code n = elim (decide (compare n 55296) (compare 57343 n) (compare n 1114112)) [
  | none ↦ nul
  | some p ↦ char n p
]

of_code-code : (c : Char) → of_code (code c) ≡ c
unfolding of_code
of_code-code (char n p) =
    rw (of_code, decided (compare n 55296) (compare 57343 n) (compare n 1114112) p) refl

to_codes : String → List ℕ
to_codes s = map code (chars s)

of_codes : List ℕ → String
of_codes cs = text_of (map of_code cs)

of_codes-to_codes : (s : String) → of_codes (to_codes s) ≡ s
unfolding of_codes to_codes chars
of_codes-to_codes empty = refl
of_codes-to_codes (c ∷ᵗ s) = rw (of_code-code c) (ap (λ t. c ∷ᵗ t) (of_codes-to_codes s))

-- Values of most kinds, with an object in an array.
abbrev message : Fields
message = field "a" (array (cons (number (unsigned 5)) (cons (object (field "n" null end)) nil))) (
    field "b" (boolean true)
      (field "i" (number (negative 4294967296)) (field "s" (string "hi") end)))

abbrev message_bytes : List ℕ
message_bytes =
    129 ∷ 0 ∷ 0 ∷ 36 ∷ 0 ∷ 1 ∷ 97 ∷ 0 ∷ 133 ∷ 0 ∷ 0 ∷ 12 ∷ 0 ∷ 0 ∷ 0 ∷ 0 ∷ 0 ∷ 0 ∷ 0 ∷ 5 ∷ 130 ∷ 0
    ∷ 0 ∷ 16 ∷ 0 ∷ 0 ∷ 0 ∷ 0 ∷ 128 ∷ 0 ∷ 0 ∷ 8 ∷ 0 ∷ 1 ∷ 110 ∷ 0 ∷ 135 ∷ 0 ∷ 0 ∷ 9 ∷ 0 ∷ 1 ∷ 98 ∷ 0
    ∷ 1 ∷ 0 ∷ 0 ∷ 0 ∷ 132 ∷ 0 ∷ 0 ∷ 16 ∷ 0 ∷ 1 ∷ 105 ∷ 0 ∷ 255 ∷ 255 ∷ 255 ∷ 254 ∷ 255 ∷ 255 ∷ 255
    ∷ 255 ∷ 131 ∷ 0 ∷ 0 ∷ 11 ∷ 0 ∷ 1 ∷ 115 ∷ 0 ∷ 104 ∷ 105 ∷ 0 ∷ 0 ∷ []

puts_message : blobmsg_table to_codes (λ n. n) message ≡ some message_bytes
unfolding blobmsg_table put_json put_number put_signed put_raw blobmsg_payload put_attr head_word
    to_codes chars align
puts_message = refl

reads_message : blobmsg_object of_codes message_bytes ≡ ok message
unfolding blobmsg_object object_by decode_at decode_by split_header named_value value_of array_by
    table_by each_item each_field one_byte four_bytes eight_bytes signed_of parse_attrs parse_loop
    next_attr cut_attr align of_codes of_code decide insert up_to_nul
reads_message = refl

message_good : GoodFields to_codes max_depth message
unfolding Good extend insert to_codes chars
message_good = (
  omega arith,
  (omega arith, ((refl, (omega arith, tt, tt)), tt)),
  (
    omega arith,
    tt,
    (omega arith, omega arith, (omega arith, (omega arith, (omega arith, tt)), tt)),
  ),
)

blobmsg_object-blobmsg_table_example : blobmsg_object of_codes message_bytes ≡ ok message
unfolding Good extend insert to_codes chars
blobmsg_object-blobmsg_table_example =
    blobmsg_object-blobmsg_table to_codes of_codes (λ n. n) of_codes-to_codes refl message
      message_bytes refl message_good puts_message (omega arith)
