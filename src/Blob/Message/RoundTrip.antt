-- ===== src/Blob/Message/RoundTrip.antt =====
-- `blobmsg_object` reads back what `blobmsg_table` wrote (rust/src/ubus/blob.rs).
use zte_u60_pro_mu5250_data.Common.{
  ℕ, zero, suc, ◌≤◌, ◌<◌, String, true, false, Option, none, some, List, [], ◌∷◌, ◌++◌, append-nil,
  append_assoc, length, length-append, ok, u32_mod, ◌≡◌, refl, sym, ap, ◌∙◌, arith,
}
use zte_u60_pro_mu5250_data.Json.{
  Json, null, boolean, number, string, array, object, Items, nil, cons, Fields, end, field, insert,
  extend,
}
use zte_u60_pro_mu5250_data.Blob.Attrs.{Attr}
use zte_u60_pro_mu5250_data.Blob.Values.{NoNul, up_to_nul-text}
use zte_u60_pro_mu5250_data.Blob.RoundTrip.{AllFit, encoded, encoded_all, parse_attrs-encoded_all}
use zte_u60_pro_mu5250_data.Blob.Message.{
  put_raw, put_json, put_items, put_fields, blobmsg_table, one_byte, each_item, each_field,
  array_by, object_by, table_by, value_of, decode_at, max_depth, blobmsg_object, and_put,
}
use zte_u60_pro_mu5250_data.Blob.Message.Flat.{
  GoodNumber, items_at, fields_at, Trip, raw-Trip, number-Trip,
}
use zte_u60_pro_mu5250_data.Blob.Message.Single.{attr_of, put_attr-some, payload-long}

module _ (bytes : String → List ℕ) where
  -- A value that a message holds as it is, with how many levels of arrays and objects may be opened:
  -- no text has a NUL, a key is shorter than 64 KiB, and an object's fields are those of a map, put
  -- in one after another.
  unfoldable mutual
    pub Good : ℕ → Json → Type 0
    Good left null = Unit
    Good left (boolean b) = Unit
    Good left (number n) = GoodNumber n
    Good left (string s) = NoNul (bytes s)
    Good zero (array xs) = ⊥
    Good (suc left) (array xs) = GoodItems left xs
    Good zero (object fs) = ⊥
    Good (suc left) (object fs) = (extend end fs ≡ fs) × GoodFields left fs

    pub GoodItems : ℕ → Items → Type 0
    GoodItems left nil = Unit
    GoodItems left (cons x xs) = Good left x × GoodItems left xs

    pub GoodFields : ℕ → Fields → Type 0
    GoodFields left end = Unit
    GoodFields left (field k v more) =
        (length (bytes k) < 65536) × Good left v × GoodFields left more

and_put-some :
    (o : Option (List ℕ)) (f : List ℕ → Option (List ℕ)) (buf : List ℕ)
    → and_put o f ≡ some buf
    → (x : List ℕ) × (o ≡ some x) × (f x ≡ some buf)
and_put-some none f buf e = cc e
and_put-some (some x) f buf e = (x, refl, e)

module _ (bytes : String → List ℕ) (lossy : List ℕ → String) (to_double : ℕ → ℕ)
    (lossy-bytes : (s : String) → lossy (bytes s) ≡ s) (no_bytes : bytes "" ≡ []) where
  -- The buffer has attributes more, which read back as the items, and as the fields on top of `m`.
  abbrev ItemsTrip : ℕ → List ℕ → Items → List ℕ → Type 0
  ItemsTrip left out xs buf =
      (attrs : List Attr) × AllFit attrs
      × (buf ≡ out ++ encoded_all attrs)
      × (each_item (decode_at lossy left) attrs ≡ ok xs)

  abbrev FieldsTrip : ℕ → List ℕ → Fields → List ℕ → Type 0
  FieldsTrip left out fs buf =
      (attrs : List Attr) × AllFit attrs
      × (buf ≡ out ++ encoded_all attrs)
      × ((m : Fields) → each_field (decode_at lossy left) m attrs ≡ ok (extend m fs))

  array_of_items :
      (left : ℕ) (xs : Items) (inner : List ℕ)
      → ItemsTrip left [] xs inner
      → array_by (decode_at lossy left) inner ≡ ok (array xs)
  unfolding array_by
  array_of_items left xs inner (attrs, f, w, d) = rw (w, parse_attrs-encoded_all attrs f, d) refl

  table_of_fields :
      (left : ℕ) (fs : Fields) (inner : List ℕ)
      → FieldsTrip left [] fs inner
      → object_by (decode_at lossy left) inner ≡ ok (extend end fs)
  unfolding object_by
  table_of_fields left fs inner (attrs, f, w, d) =
      rw (w, parse_attrs-encoded_all attrs f, d end) refl

  inner_short :
      (out name inner buf : List ℕ) (ty : ℕ)
      → ty ≤ 127
      → put_raw out ty name inner ≡ some buf
      → length buf < u32_mod
      → length inner < u32_mod
  unfolding put_raw
  inner_short out name inner buf ty t e h =
      let f = (put_attr-some out buf (attr_of ty name inner) t e h).0 in
      omega (arith, payload-long name inner, f.short)

  before_short :
      (out more buf : List ℕ) → buf ≡ out ++ more → length buf < u32_mod → length out < u32_mod
  before_short out more buf w h = let n = ap length w in omega (arith, length-append out more)

  nothing_put :
      (out buf : List ℕ) → ◌≡◌ {A = Option (List ℕ)} (some out) (some buf) → buf ≡ out ++ []
  nothing_put out buf e = let w : buf ≡ out = cc e in w ∙ sym (append-nil out)

  joined :
      (out longer buf : List ℕ) (a : Attr) (more : List Attr)
      → buf ≡ longer ++ encoded_all more
      → longer ≡ out ++ encoded a
      → buf ≡ out ++ encoded_all (a ∷ more)
  joined out longer buf a more w u = w ∙ rw u (append_assoc out (encoded a) (encoded_all more))

  mutual
    unfolding put_json Good value_of one_byte items_at fields_at each_item each_field extend
        table_by

    value-Trip :
        (left : ℕ) (out name : List ℕ) (v : Json) (buf : List ℕ)
        → Good bytes left v
        → length name < 65536
        → put_json bytes to_double out name v ≡ some buf
        → length buf < u32_mod
        → Trip lossy left out name v buf
    value-Trip left out name null buf g l e h =
        raw-Trip lossy left 0 out name [] buf null (omega arith) l e h refl
    value-Trip left out name (boolean true) buf g l e h =
        raw-Trip lossy left 7 out name (1 ∷ []) buf (boolean true) (omega arith) l e h refl
    value-Trip left out name (boolean false) buf g l e h =
        raw-Trip lossy left 7 out name (0 ∷ []) buf (boolean false) (omega arith) l e h refl
    value-Trip left out name (number n) buf g l e h =
        number-Trip lossy bytes to_double left out name n buf g l e h
    value-Trip left out name (string s) buf g l e h =
        raw-Trip lossy left 3 out name (bytes s ++ 0 ∷ []) buf (string s) (omega arith) l e h (
          ap (λ x. ok (string (lossy x))) (up_to_nul-text (bytes s) g)
          ∙ ap (λ x. ok (string x)) (lossy-bytes s))
    value-Trip zero out name (array xs) buf g l e h = elim g [ ]
    value-Trip zero out name (object fs) buf g l e h = elim g [ ]
    value-Trip (suc left) out name (array xs) buf g l e h =
        let small : 1 ≤ 127 = omega arith in
        let (inner, p, q) = and_put-some _ _ buf e in
        let s = inner_short out name inner buf 1 small q h in
        raw-Trip lossy (suc left) 1 out name inner buf (array xs) small l q h
          (array_of_items left xs inner (items-Trip left [] xs inner g p s))
    value-Trip (suc left) out name (object fs) buf (m, g) l e h =
        let small : 2 ≤ 127 = omega arith in
        let (inner, p, q) = and_put-some _ _ buf e in
        let s = inner_short out name inner buf 2 small q h in
        raw-Trip lossy (suc left) 2 out name inner buf (object fs) small l q h
          (rw (table_of_fields left fs inner (fields-Trip left [] fs inner g p s), m) refl)

    items-Trip :
        (left : ℕ) (out : List ℕ) (xs : Items) (buf : List ℕ)
        → GoodItems bytes left xs
        → put_items bytes to_double out xs ≡ some buf
        → length buf < u32_mod
        → ItemsTrip left out xs buf
    items-Trip left out nil buf g e h = ([], tt, nothing_put out buf e, refl)
    items-Trip left out (cons x xs) buf (g, gs) e h =
        let (longer, p, q) = and_put-some _ _ buf e in
        let (attrs, fs, w, d) = items-Trip left longer xs buf gs q h in
        let s = before_short longer (encoded_all attrs) buf w h in
        let (a, f, u, c) =
          value-Trip left out (bytes "") x longer g (omega (arith, ap length no_bytes)) p s in
        (a ∷ attrs, (f, fs), joined out longer buf a attrs w u, rw (c, d) refl)

    fields-Trip :
        (left : ℕ) (out : List ℕ) (fs : Fields) (buf : List ℕ)
        → GoodFields bytes left fs
        → put_fields bytes to_double out fs ≡ some buf
        → length buf < u32_mod
        → FieldsTrip left out fs buf
    fields-Trip left out end buf g e h = ([], tt, nothing_put out buf e, λ m. refl)
    fields-Trip left out (field k v more) buf (n, g, gs) e h =
        let (longer, p, q) = and_put-some _ _ buf e in
        let (attrs, fs, w, d) = fields-Trip left longer more buf gs q h in
        let s = before_short longer (encoded_all attrs) buf w h in
        let (a, f, u, c) = value-Trip left out (bytes k) v longer g n p s in
        (
          a ∷ attrs,
          (f, fs),
          joined out longer buf a attrs w u,
          λ m. rw (c, lossy-bytes k) (d (insert k v m)),
        )

  -- `blobmsg_object` reads back the object that `blobmsg_table` wrote, in any nesting of objects and
  -- arrays that it holds: where no text has a NUL, each key is shorter than 64 KiB, the integers are in
  -- the range of `i64`, the doubles are finite, nothing is nested deeper than thirty-two levels, no
  -- assertion failed and the buffer is below 4 GiB. The UTF-8 decoding has to undo the encoding.
  pub blobmsg_object-blobmsg_table :
      (fs : Fields) (buf : List ℕ)
      → extend end fs ≡ fs
      → GoodFields bytes max_depth fs
      → blobmsg_table bytes to_double fs ≡ some buf
      → length buf < u32_mod
      → blobmsg_object lossy buf ≡ ok fs
  unfolding blobmsg_table blobmsg_object
  blobmsg_object-blobmsg_table fs buf m g e h =
      table_of_fields max_depth fs buf (fields-Trip max_depth [] fs buf g e h) ∙ ap ok m
