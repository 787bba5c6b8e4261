-- ===== src/Blob/Tests.antt =====
-- Attributes, frames and message tables on concrete bytes, and the theorems at them.
use zte_u60_pro_mu5250_data.Common.{
  ℕ, ◌<◌, false, Option, none, some, List, [], ◌∷◌, ◌++◌, length, length-append, take, drop, ok,
  err, ltb, if◌then◌else◌, ◌≡◌, ◌≢◌, refl, ap, arith, take-append, drop-append,
}
use zte_u60_pro_mu5250_data.Blob.Bytes.{align}
use zte_u60_pro_mu5250_data.Blob.Attrs.{
  fuel_spent, longer_than_container, Attr, parse_attrs, parse_loop, put_attr, cut_attr, next_attr,
}
use zte_u60_pro_mu5250_data.Blob.Parse.{parse_attrs_ends}
use zte_u60_pro_mu5250_data.Blob.RoundTrip.{put_attrs}
use zte_u60_pro_mu5250_data.Blob.Frame.{MsgHdr, encode_frame, Reader, read_frame}
use zte_u60_pro_mu5250_data.Blob.Stream.{read_frame-encode_frame}

-- The object path "a" and the object id 5, as ubus sends them.
abbrev two_attrs : List Attr
two_attrs =
    record { id = 2; extended = false; payload = 97 ∷ 0 ∷ [] }
    ∷ record { id = 3; extended = false; payload = 0 ∷ 0 ∷ 0 ∷ 5 ∷ [] }
    ∷ []

abbrev two_bytes : List ℕ
two_bytes = 2 ∷ 0 ∷ 0 ∷ 6 ∷ 97 ∷ 0 ∷ 0 ∷ 0 ∷ 3 ∷ 0 ∷ 0 ∷ 8 ∷ 0 ∷ 0 ∷ 0 ∷ 5 ∷ []

puts_two : put_attrs [] two_attrs ≡ some two_bytes
unfolding put_attrs put_attr align
puts_two = refl

parses_two : parse_attrs two_bytes ≡ ok two_attrs
unfolding parse_attrs parse_loop next_attr cut_attr align
parses_two = refl

-- The last attribute may lack its padding.
parses_unpadded : parse_attrs (take 6 two_bytes) ≡ ok (take 1 two_attrs)
unfolding parse_attrs parse_loop next_attr cut_attr align
parses_unpadded = refl

rejects_cut : parse_attrs (take 5 two_bytes) ≡ err longer_than_container
unfolding parse_attrs parse_loop next_attr cut_attr align
rejects_cut = refl

parse_attrs_ends_example : parse_attrs (9 ∷ 0 ∷ 0 ∷ []) ≢ err fuel_spent
parse_attrs_ends_example = parse_attrs_ends (9 ∷ 0 ∷ 0 ∷ [])

-- A stream that is a list of bytes.
list_read : List ℕ → ℕ → Option (List ℕ × List ℕ)
list_read s n = if ltb (length s) n then none else some (take n s, drop n s)

list_fills :
    (s xs ys : List ℕ)
    → s ≡ xs ++ ys
    → (s' : List ℕ) × (list_read s (length xs) ≡ some (xs, s')) × (s' ≡ ys)
unfolding list_read
list_fills s xs ys e =
    let long : ltb (length (xs ++ ys)) (length xs) ≡ false = ground (arith, length-append xs ys) in
    (ys, rw e (rw (long, take-append xs ys, drop-append xs ys) refl), refl)

list_fails : (s xs : List ℕ) (n : ℕ) → s ≡ xs → length xs < n → list_read s n ≡ none
unfolding list_read
list_fails s xs n e h = ground (arith, ap (λ (b : List ℕ). length b) e)

abbrev byte_stream : Reader (List ℕ)
byte_stream = record {
  read_exact = list_read;
  Holds = λ s bs. s ≡ bs;
  fills = list_fills;
  fails = list_fails;
}

abbrev hello : MsgHdr
hello = record { version = 0; msg_type = 5; seq = 7; peer = 65536 }

abbrev hello_bytes : List ℕ
hello_bytes = 0 ∷ 5 ∷ 0 ∷ 7 ∷ 0 ∷ 1 ∷ 0 ∷ 0 ∷ 0 ∷ 0 ∷ 0 ∷ 20 ∷ two_bytes

read_frame-encode_frame_example :
    (s' : List ℕ) × (read_frame byte_stream (hello_bytes ++ 9 ∷ [])
      ≡ ok (record { hdr = hello; body = two_bytes }, s'))
    × (s' ≡ 9 ∷ [])
unfolding encode_frame put_attr align
read_frame-encode_frame_example =
    read_frame-encode_frame byte_stream (hello_bytes ++ 9 ∷ []) hello two_bytes hello_bytes (9 ∷ [])
      (omega arith) (omega arith) refl refl refl
