-- ===== src/Blob/RoundTrip.antt =====
-- `parse_attrs` reads back what `put_attr` wrote (rust/src/ubus/blob.rs).
use zte_u60_pro_mu5250_data.Common.{
  ℕ, zero, suc, ◌+◌, ◌-◌, ◌%◌, ◌≤◌, ◌<◌, min, true, false, Option, none, some, List, [], ◌∷◌, ◌++◌,
  append-nil, append_assoc, leb, length, take, drop, replicate, length-append, length-replicate,
  take-append, drop-append, ok, ◌>>=◌, u32_mod, ◌≡◌, refl, sym, ap, ◌∙◌, arith,
}
use zte_u60_pro_mu5250_data.Blob.Bytes.{be32, from_be32-be32, align, align_bounds}
use zte_u60_pro_mu5250_data.Blob.Attrs.{
  attr_len_mask, Attr, raw_len_of, id_of, extended_of, cut_attr, next_attr, is_nil, parse_loop,
  parse_attrs, head_word, put_attr,
}

-- What `put_attr` accepts: the length word holds the length, and the id has seven bits.
pub record Fits (a : Attr) : Type 0 where
  pub short : 4 + length a.payload ≤ attr_len_mask
  pub named : a.id ≤ 127

abbrev word_of : Attr → ℕ
unfolding head_word
word_of a = head_word a.id a.extended (4 + length a.payload)

-- The padding of an attribute.
abbrev padding : Attr → List ℕ
padding a = replicate (align (4 + length a.payload) - (4 + length a.payload)) 0

-- The bytes of an attribute.
unfoldable pub encoded : Attr → List ℕ
encoded a = be32 (head_word a.id a.extended (4 + length a.payload)) ++ (a.payload ++ padding a)

pub word_fields :
    (a : Attr)
    → Fits a
    → (head_word a.id a.extended (4 + length a.payload) < u32_mod)
      × (raw_len_of (head_word a.id a.extended (4 + length a.payload)) ≡ 4 + length a.payload)
      × (id_of (head_word a.id a.extended (4 + length a.payload)) ≡ a.id)
      × (extended_of (head_word a.id a.extended (4 + length a.payload)) ≡ a.extended)
unfolding head_word raw_len_of id_of extended_of
word_fields a f = ground arith

-- `put_attr` appends the bytes of the attribute.
pub put_attr-encoded :
    (out : List ℕ) (a : Attr)
    → Fits a
    → put_attr out a.id a.extended a.payload ≡ some (out ++ encoded a)
unfolding put_attr encoded
put_attr-encoded out a f =
    let e : (4 + length a.payload) % u32_mod ≡ 4 + length a.payload = omega arith in
    let c1 : leb (4 + length a.payload) attr_len_mask ≡ true = ground arith in
    let c2 : leb a.id 127 ≡ true = ground arith in rw (e, c1, c2, put_attr) refl

taken {ℓ} : {A : Type ℓ} (n : ℕ) (p z rest : List A) → n ≡ length p → take n ((p ++ z) ++ rest) ≡ p
taken n p z rest h = rw (h, append_assoc p z rest) (take-append p (z ++ rest))

dropped {ℓ} :
    {A : Type ℓ} (n : ℕ) (a b c d : A) (front rest : List A)
    → n ≡ 4 + length front
    → drop n (a ∷ b ∷ c ∷ d ∷ (front ++ rest)) ≡ rest
dropped n a b c d front rest h =
    let e : n ≡ suc (suc (suc (suc (length front)))) = omega arith in rw e (drop-append front rest)

cut_attr-parts :
    (w : ℕ) (buf left : List ℕ) (p : List ℕ)
    → 4 ≤ raw_len_of w
    → raw_len_of w ≤ length buf
    → take (raw_len_of w - 4) (drop 4 buf) ≡ p
    → drop (min (align (raw_len_of w)) (length buf)) buf ≡ left
    → cut_attr w buf ≡ ok (record { id = id_of w; extended = extended_of w; payload = p }, left)
unfolding cut_attr
cut_attr-parts w buf left p h k t d = ground arith

cut_attr_lem :
    (w a b c d : ℕ) (p z rest : List ℕ)
    → raw_len_of w ≡ 4 + length p
    → length z ≡ align (4 + length p) - (4 + length p)
    → cut_attr w (a ∷ b ∷ c ∷ d ∷ ((p ++ z) ++ rest))
      ≡ ok (record { id = id_of w; extended = extended_of w; payload = p }, rest)
cut_attr_lem w a b c d p z rest r l =
    let total = length-append (p ++ z) rest in
    let front = length-append p z in
    let bounds = align_bounds (4 + length p) in
    let same_align : align (raw_len_of w) ≡ align (4 + length p) = ap align r in
    cut_attr-parts w (a ∷ b ∷ c ∷ d ∷ ((p ++ z) ++ rest)) rest p (omega arith) (omega arith)
      (taken (raw_len_of w - 4) p z rest (omega arith))
      (dropped _ a b c d (p ++ z) rest (omega arith))

next_attr-encoded :
    (a : Attr) (rest : List ℕ) → Fits a → next_attr (encoded a ++ rest) ≡ ok (a, rest)
unfolding next_attr encoded cut_attr
next_attr-encoded a rest f =
    let (small, raw, id, ext) = word_fields a f in
    let w = head_word a.id a.extended (4 + length a.payload) in
    rw (from_be32-be32 w small) (
      cut_attr_lem w _ _ _ _ a.payload (padding a) rest raw
        (length-replicate (align (4 + length a.payload) - (4 + length a.payload)) 0)
      ∙ ground arith)

parse_loop-encoded :
    (fuel : ℕ) (a : Attr) (rest : List ℕ)
    → Fits a
    → parse_loop (suc fuel) (encoded a ++ rest) ≡ (parse_loop fuel rest >>= λ later. ok (a ∷ later))
unfolding parse_loop
parse_loop-encoded fuel a rest f =
    let full : is_nil (encoded a ++ rest) ≡ false = unfold encoded in refl in
    rw (full, next_attr-encoded a rest f) refl

abbrev pub AllFit : List Attr → Type 0
AllFit [] = Unit {0}
AllFit (a ∷ more) = Fits a × AllFit more

-- The attributes written one after another.
unfoldable pub put_attrs : List ℕ → List Attr → Option (List ℕ)
put_attrs out [] = some out
put_attrs out (a ∷ more) = elim (put_attr out a.id a.extended a.payload) [
  | none ↦ none
  | some longer ↦ put_attrs longer more
]

abbrev pub encoded_all : List Attr → List ℕ
encoded_all [] = []
encoded_all (a ∷ more) = encoded a ++ encoded_all more

put_attrs-encoded :
    (out : List ℕ) (more : List Attr)
    → AllFit more
    → put_attrs out more ≡ some (out ++ encoded_all more)
unfolding put_attrs
put_attrs-encoded out [] f = ap some (sym (append-nil out))
put_attrs-encoded out (a ∷ more) (f, g) =
    rw (put_attr-encoded out a f, put_attrs)
      (put_attrs-encoded (out ++ encoded a) more g
        ∙ ap some (append_assoc out (encoded a) (encoded_all more)))

parse_loop-all :
    (fuel : ℕ) (more : List Attr)
    → AllFit more
    → length more ≤ fuel
    → parse_loop fuel (encoded_all more) ≡ ok more
parse_loop-all zero [] f h = unfold parse_loop in refl
parse_loop-all (suc fuel) [] f h = unfold parse_loop in refl
parse_loop-all zero (a ∷ more) f h = absurd (omega arith)
parse_loop-all (suc fuel) (a ∷ more) (f, g) h =
    rw (parse_loop-encoded fuel a (encoded_all more) f, parse_loop-all fuel more g (omega arith))
      refl

encoded-long : (a : Attr) → 4 ≤ length (encoded a)
unfolding encoded
encoded-long a = omega arith

all-long : (more : List Attr) → length more ≤ length (encoded_all more)
all-long [] = omega arith
all-long (a ∷ more) =
    omega (arith, all-long more, encoded-long a, length-append (encoded a) (encoded_all more))

pub parse_attrs-encoded_all :
    (more : List Attr) → AllFit more → parse_attrs (encoded_all more) ≡ ok more
unfolding parse_attrs
parse_attrs-encoded_all more f = parse_loop-all (length (encoded_all more)) more f (all-long more)

-- `parse_attrs` reads back any attributes that `put_attr` wrote one after another into an empty
-- buffer, and `put_attr` fails on none of them, where each has a seven-bit id and a length that fits.
pub parse_attrs-put_attrs :
    (more : List Attr)
    → AllFit more
    → (buf : List ℕ) × (put_attrs [] more ≡ some buf) × (parse_attrs buf ≡ ok more)
parse_attrs-put_attrs more f =
    (encoded_all more, put_attrs-encoded [] more f, parse_attrs-encoded_all more f)
