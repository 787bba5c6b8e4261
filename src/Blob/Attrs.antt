-- ===== src/Blob/Attrs.antt =====
-- Attributes: `put_attr`, `parse_attrs` and the scalar values (rust/src/ubus/blob.rs). A byte is a
-- number below 256. The masks of the code are powers of two, so `&`, `|` and `<<` with them are
-- written as remainders, quotients and sums.
use zte_u60_pro_mu5250_data.Common.{
  ℕ, zero, suc, ◌+◌, ◌-◌, ◌*◌, ◌/◌, ◌%◌, min, Bool, true, false, ◌&&◌, Option, none, some, List, [],
  ◌∷◌, ◌++◌, ltb, leb, ◌==◌, length, take, drop, replicate, Result, ok, err, ◌>>=◌, if◌then◌else◌,
  u32_mod,
}
use zte_u60_pro_mu5250_data.Blob.Bytes.{be32, from_be32, align}

abbrev pub attr_len_mask : ℕ
attr_len_mask = 16777215

abbrev pub blob_hdr_len : ℕ
blob_hdr_len = 4

abbrev pub max_msglen : ℕ
max_msglen = 1048576

-- The messages of `BlobError`; `fuel_spent` is the model's own, for a loop that runs out of fuel.
pub data BlobError : Type 0 where
  truncated_header shorter_than_header longer_than_container wrong_int_length : BlobError
  message_too_short message_too_large fuel_spent : BlobError
  not_extended short_header name_too_long wrong_length nested_too_deep unknown_type : BlobError

pub record Attr : Type 0 where
  pub id : ℕ
  pub extended : Bool
  pub payload : List ℕ

-- The fields of the first word of an attribute.
unfoldable pub raw_len_of : ℕ → ℕ
raw_len_of id_len = id_len % 16777216

unfoldable pub id_of : ℕ → ℕ
id_of id_len = id_len / 16777216 % 128

unfoldable pub extended_of : ℕ → Bool
extended_of id_len = id_len / 2147483648 % 2 == 1

-- One round of the loop with the four bytes of the header read: the attribute, and what follows it.
unfoldable pub cut_attr : ℕ → List ℕ → Result BlobError (Attr × List ℕ)
unfolding raw_len_of id_of extended_of
cut_attr id_len rest =
    let raw_len = raw_len_of id_len in
    if ltb raw_len blob_hdr_len
    then err shorter_than_header
    else if ltb (length rest) raw_len
    then err longer_than_container
    else ok (
      record {
        id = id_of id_len;
        extended = extended_of id_len;
        payload = take (raw_len - blob_hdr_len) (drop blob_hdr_len rest);
      },
      drop (min (align raw_len) (length rest)) rest,
    )

unfoldable pub next_attr : List ℕ → Result BlobError (Attr × List ℕ)
next_attr (a ∷ b ∷ c ∷ d ∷ rest) = cut_attr (from_be32 a b c d) (a ∷ b ∷ c ∷ d ∷ rest)
next_attr _ = err truncated_header

unfoldable pub is_nil : List ℕ → Bool
is_nil [] = true
is_nil _ = false

-- Every round takes at least the header away, so the length of the buffer is fuel enough.
unfoldable pub parse_loop : ℕ → List ℕ → Result BlobError (List Attr)
unfolding next_attr is_nil
parse_loop zero rest = if is_nil rest then ok [] else err fuel_spent
parse_loop (suc fuel) rest =
    if is_nil rest
    then ok []
    else next_attr rest >>= λ (a, left). parse_loop fuel left >>= λ later. ok (a ∷ later)

unfoldable pub parse_attrs : List ℕ → Result BlobError (List Attr)
parse_attrs buf = parse_loop (length buf) buf

-- The word that `put_attr` writes in front of the payload.
unfoldable pub head_word : ℕ → Bool → ℕ → ℕ
head_word id extended raw_len = id * 16777216 + raw_len + (if extended then 2147483648 else 0)

-- `none` is the failed assertion.
unfoldable pub put_attr : List ℕ → ℕ → Bool → List ℕ → Option (List ℕ)
unfolding head_word
put_attr out id extended payload =
    let raw_len = blob_hdr_len + length payload in
    if leb (raw_len % u32_mod) attr_len_mask && leb id 127
    then some (
        out
        ++ (be32 (head_word id extended (raw_len % u32_mod))
            ++ (payload ++ replicate (align raw_len - raw_len) 0)))
    else none
