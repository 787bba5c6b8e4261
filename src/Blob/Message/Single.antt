-- ===== src/Blob/Message/Single.antt =====
-- What a single field of a message needs for being read back: its header, its integers, and the
-- attribute that holds it (rust/src/ubus/blob.rs).
use zte_u60_pro_mu5250_data.Common.{
  ℕ, ◌+◌, ◌-◌, ◌*◌, ◌/◌, ◌%◌, ◌≤◌, ◌<◌, String, Bool, true, false, ◌&&◌, if◌then◌else◌, none, some,
  List, [], ◌∷◌, ◌++◌, append_assoc, leb, ltb, length, drop, replicate, length-append,
  length-replicate, take-append, drop-append, Result, ok, ◌>>=◌, pos, negsuc, u32_mod, u64_mod, ◌≡◌,
  refl, sym, ap, ◌∙◌, arith,
}
use zte_u60_pro_mu5250_data.Json.{Json, unsigned, negative}
use zte_u60_pro_mu5250_data.Blob.Bytes.{
  be32, from_be16, from_be32, from_be16-be16, align, align_bounds,
}
use zte_u60_pro_mu5250_data.Blob.Attrs.{BlobError, Attr, attr_len_mask, put_attr, head_word}
use zte_u60_pro_mu5250_data.Blob.RoundTrip.{Fits, encoded, put_attr-encoded}
use zte_u60_pro_mu5250_data.Blob.Message.{
  wrapped, signed_of, blobmsg_payload, named_value, split_header,
}

-- The attribute that `blobmsg_put_raw` writes.
abbrev pub attr_of : ℕ → List ℕ → List ℕ → Attr
attr_of ty name content = record {
  id = ty;
  extended = true;
  payload = blobmsg_payload name content;
}

if_some :
    (b : Bool) (written buf : List ℕ)
    → (if b then some written else none) ≡ some buf
    → (b ≡ true) × (written ≡ buf)
if_some true written buf e = (refl, cc e)
if_some false written buf e = cc e

accepted_test :
    (out buf : List ℕ) (a : Attr)
    → put_attr out a.id a.extended a.payload ≡ some buf
    → (leb ((4 + length a.payload) % u32_mod) attr_len_mask ≡ true)
      × (4 + length a.payload ≤ length buf)
unfolding put_attr
accepted_test out buf a e =
    let (t, w) =
      if_some (leb ((4 + length a.payload) % u32_mod) attr_len_mask && leb a.id 127) _ buf e in
    let n = ap length w in
    let front =
      length-append a.payload
        (replicate (align (4 + length a.payload) - (4 + length a.payload)) 0) in
    let all = length-append out (
      be32 (head_word a.id a.extended ((4 + length a.payload) % u32_mod))
      ++ (a.payload ++ replicate (align (4 + length a.payload) - (4 + length a.payload)) 0)) in
    (ground arith, omega arith)

-- Where `put_attr` accepts an attribute and the buffer is below 4 GiB, it has written it in full.
pub put_attr-some :
    (out buf : List ℕ) (a : Attr)
    → a.id ≤ 127
    → put_attr out a.id a.extended a.payload ≡ some buf
    → length buf < u32_mod
    → Fits a × (buf ≡ out ++ encoded a)
put_attr-some out buf a i e h =
    let (t, n) = accepted_test out buf a e in
    let small : 4 + length a.payload ≤ attr_len_mask = ground arith in
    let fits : Fits a = record { short = small; named = i } in
    let w = put_attr-encoded out a fits in (fits, cc (e, w))

pub payload-long : (name content : List ℕ) → length content ≤ length (blobmsg_payload name content)
unfolding blobmsg_payload
payload-long name content =
    let k = align (2 + length name + 1) - (2 + length name) in
    let pad : List ℕ = replicate k 0 in
    omega (arith, length-append name (pad ++ content), length-append pad content)

long_enough :
    (f : ℕ → List ℕ → Result BlobError Json) (lossy : List ℕ → String) (ty a b : ℕ) (rest : List ℕ)
    → 1 ≤ length rest
    → split_header lossy f ty (a ∷ b ∷ rest) ≡ named_value lossy f ty (from_be16 a b) rest
unfolding split_header
long_enough f lossy ty a b [] h = absurd (omega arith)
long_enough f lossy ty a b (c ∷ rest) h = refl

not_below : (a b : ℕ) → b ≤ a → ltb a b ≡ false
not_below a b h = ground arith

-- The header gives the name back, and what stands behind it.
pub split_header-payload :
    (lossy : List ℕ → String) (f : ℕ → List ℕ → Result BlobError Json) (ty : ℕ)
    (name content : List ℕ)
    → length name < 65536
    → split_header lossy f ty (blobmsg_payload name content)
      ≡ (f ty content >>= λ v. ok (lossy name, v))
unfolding blobmsg_payload named_value
split_header-payload lossy f ty name content h =
    let k = align (2 + length name + 1) - (2 + length name) in
    let pad : List ℕ = replicate k 0 in
    let rest = name ++ (pad ++ content) in
    let bounds = align_bounds (2 + length name + 1) in
    let p : length pad ≡ k = length-replicate k 0 in
    let n1 = length-append name (pad ++ content) in
    let n2 = length-append pad content in
    let n3 = length-append name pad in
    let fits : ltb (length rest) (align (2 + length name + 1) - 2) ≡ false =
      not_below (length rest) (align (2 + length name + 1) - 2) (omega arith) in
    let q : align (2 + length name + 1) - 2 ≡ length (name ++ pad) = omega arith in
    let d : drop (align (2 + length name + 1) - 2) rest ≡ content =
      rw (q, sym (append_assoc name pad content)) (drop-append (name ++ pad) content) in
    let t = take-append name (pad ++ content) in
    long_enough f lossy ty _ _ rest (omega arith)
    ∙ rw (from_be16-be16 (length name) h, fits, d, t) refl

-- The eight bytes of a number below 2^64.
pub from_be64-be64 :
    (v : ℕ)
    → v < u64_mod
    → from_be32
            (v / u32_mod / 16777216 % 256)
            (v / u32_mod / 65536 % 256)
            (v / u32_mod / 256 % 256)
            (v / u32_mod % 256)
          * u32_mod
        + from_be32 (v / 16777216 % 256) (v / 65536 % 256) (v / 256 % 256) (v % 256)
      ≡ v
from_be64-be64 v h = omega arith

pub signed_of-pos :
    (n : ℕ) → n ≤ 2147483647 → signed_of u32_mod (wrapped u32_mod (pos n)) ≡ unsigned n
unfolding signed_of
signed_of-pos n h = ground arith

pub signed_of-negsuc :
    (n : ℕ) → n ≤ 2147483647 → signed_of u32_mod (wrapped u32_mod (negsuc n)) ≡ negative n
unfolding signed_of
signed_of-negsuc n h = ground arith

pub signed_of-pos64 :
    (n : ℕ) → n ≤ 9223372036854775807 → signed_of u64_mod (wrapped u64_mod (pos n)) ≡ unsigned n
unfolding signed_of
signed_of-pos64 n h = ground arith

pub signed_of-negsuc64 :
    (n : ℕ) → n ≤ 9223372036854775807 → signed_of u64_mod (wrapped u64_mod (negsuc n)) ≡ negative n
unfolding signed_of
signed_of-negsuc64 n h = ground arith
