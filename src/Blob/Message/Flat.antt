-- ===== src/Blob/Message/Flat.antt =====
-- A field whose value is no array and no object is read back as it was put (rust/src/ubus/blob.rs).
use zte_u60_pro_mu5250_data.Common.{
  ℕ, zero, suc, ◌≤◌, ◌<◌, String, Bool, true, false, some, List, ◌++◌, leb, length, Result, ok, err,
  ℤ, pos, negsuc, u32_mod, u64_mod, ◌≡◌, refl, sym, ap, ◌∙◌, arith, if◌then◌else◌,
}
use zte_u60_pro_mu5250_data.Json.{Json, number, Number, unsigned, negative, float}
use zte_u60_pro_mu5250_data.Blob.Attrs.{BlobError, nested_too_deep, Attr}
use zte_u60_pro_mu5250_data.Blob.RoundTrip.{Fits, encoded}
use zte_u60_pro_mu5250_data.Blob.Message.{
  be64, wrapped, signed_of, is_finite, put_raw, put_signed, put_number, four_bytes, eight_bytes,
  double_of, array_by, table_by, value_of, decode_by, decode_at,
}
use zte_u60_pro_mu5250_data.Blob.Message.Single.{
  attr_of, put_attr-some, split_header-payload, from_be64-be64, signed_of-pos, signed_of-negsuc,
  signed_of-pos64, signed_of-negsuc64,
}
use zte_u60_pro_mu5250_data.Blob.Bytes.{be32, from_be32-be32}

-- A number that a message holds as it is: a double, or in the range of `i64`.
abbrev pub GoodNumber : Number → Type 0
GoodNumber (unsigned n) = n ≤ 9223372036854775807
GoodNumber (negative n) = n ≤ 9223372036854775807
GoodNumber (float bits) = (bits < u64_mod) × (is_finite bits ≡ true)

if_true {ℓ} : {A : Type ℓ} (b : Bool) (x y : A) → b ≡ true → (if b then x else y) ≡ x
if_true b x y h = rw h refl

module _ (lossy : List ℕ → String) where
  unfoldable pub items_at : ℕ → List ℕ → Result BlobError Json
  items_at zero d = err nested_too_deep
  items_at (suc left) d = array_by (decode_at lossy left) d

  unfoldable pub fields_at : ℕ → List ℕ → Result BlobError Json
  fields_at zero d = err nested_too_deep
  fields_at (suc left) d = table_by (decode_at lossy left) d

  decode_at_lem :
      (left : ℕ) (a : Attr)
      → decode_at lossy left a ≡ decode_by lossy (value_of lossy (items_at left) (fields_at left)) a
  unfolding decode_at items_at fields_at
  decode_at_lem zero a = refl
  decode_at_lem (suc left) a = refl

  -- The buffer has one attribute more, which reads back as the name and the value.
  abbrev pub Trip : ℕ → List ℕ → List ℕ → Json → List ℕ → Type 0
  Trip left out name v buf =
      (a : Attr) × Fits a × (buf ≡ out ++ encoded a) × (decode_at lossy left a ≡ ok (lossy name, v))

  pub raw-Trip :
      (left ty : ℕ) (out name content buf : List ℕ) (v : Json)
      → ty ≤ 127
      → length name < 65536
      → put_raw out ty name content ≡ some buf
      → length buf < u32_mod
      → value_of lossy (items_at left) (fields_at left) ty content ≡ ok v
      → Trip left out name v buf
  unfolding put_raw decode_by
  raw-Trip left ty out name content buf v t n e h d =
      let (fits, w) = put_attr-some out buf (attr_of ty name content) t e h in
      (
        attr_of ty name content,
        fits,
        w,
        decode_at_lem left (attr_of ty name content)
            ∙ split_header-payload lossy (value_of lossy (items_at left) (fields_at left)) ty name
                content n
            ∙ rw d refl,
      )

  -- An integer that fits 32 bits is written as four bytes, any other as eight.
  signed-Trip :
      (left : ℕ) (out name : List ℕ) (i : ℤ) (v : Json) (narrow : Bool) (buf : List ℕ)
      → (narrow ≡ true → number (signed_of u32_mod (wrapped u32_mod i)) ≡ v)
      → (narrow ≡ false → number (signed_of u64_mod (wrapped u64_mod i)) ≡ v)
      → wrapped u32_mod i < u32_mod
      → wrapped u64_mod i < u64_mod
      → length name < 65536
      → put_signed out name i narrow ≡ some buf
      → length buf < u32_mod
      → Trip left out name v buf
  unfolding put_signed value_of four_bytes eight_bytes
  signed-Trip left out name i v true buf f g s b l e h =
      raw-Trip left 5 out name (be32 (wrapped u32_mod i)) buf v (omega arith) l e h (
        ap (λ x. ok (number (signed_of u32_mod x))) (from_be32-be32 (wrapped u32_mod i) s)
        ∙ ap ok (f refl))
  signed-Trip left out name i v false buf f g s b l e h =
      raw-Trip left 4 out name (be64 (wrapped u64_mod i)) buf v (omega arith) l e h (
        ap (λ x. ok (number (signed_of u64_mod x))) (from_be64-be64 (wrapped u64_mod i) b)
        ∙ ap ok (g refl))

  pub number-Trip :
      (bytes : String → List ℕ) (to_double : ℕ → ℕ) (left : ℕ) (out name : List ℕ) (n : Number)
      (buf : List ℕ)
      → GoodNumber n
      → length name < 65536
      → put_number bytes to_double out name n ≡ some buf
      → length buf < u32_mod
      → Trip left out name (number n) buf
  unfolding put_number value_of eight_bytes double_of
  number-Trip bytes to_double left out name (unsigned n) buf g l e h =
      let small : leb n 9223372036854775807 ≡ true = ground arith in
      signed-Trip left out name (pos n) (number (unsigned n)) (leb n 2147483647) buf
        (λ y. ap number (signed_of-pos n (ground arith))) (λ y. ap number (signed_of-pos64 n g))
        (omega arith) (omega arith) l (sym (if_true _ _ _ small) ∙ e) h
  number-Trip bytes to_double left out name (negative n) buf g l e h =
      signed-Trip left out name (negsuc n) (number (negative n)) (leb n 2147483647) buf
        (λ y. ap number (signed_of-negsuc n (ground arith)))
        (λ y. ap number (signed_of-negsuc64 n g)) (omega arith) (omega arith) l e h
  number-Trip bytes to_double left out name (float bits) buf (b, f) l e h =
      raw-Trip left 8 out name (be64 bits) buf (number (float bits)) (omega arith) l e h
        (ap (λ x. ok (double_of x)) (from_be64-be64 bits b) ∙ rw f refl)
