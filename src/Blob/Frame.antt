-- ===== src/Blob/Frame.antt =====
-- Message frames: the ubus header, the enclosing blob, and `read_frame` over a stream
-- (rust/src/ubus/blob.rs). The stream is tokio's, so it is a parameter.
use zte_u60_pro_mu5250_data.Common.{
  ℕ, ◌+◌, ◌-◌, ◌<◌, false, Option, none, some, List, [], ◌∷◌, ◌++◌, ltb, length, Result, ok, err,
  if◌then◌else◌, u32_mod, ◌≡◌,
}
use zte_u60_pro_mu5250_data.Blob.Bytes.{be16, be32, from_be16, from_be32}
use zte_u60_pro_mu5250_data.Blob.Attrs.{
  blob_hdr_len, max_msglen, BlobError, truncated_header, message_too_short, message_too_large,
  raw_len_of, put_attr,
}

abbrev pub msghdr_len : ℕ
msghdr_len = 8

pub record MsgHdr : Type 0 where
  pub version : ℕ
  pub msg_type : ℕ
  pub seq : ℕ
  pub peer : ℕ

pub record Frame : Type 0 where
  pub hdr : MsgHdr
  pub body : List ℕ

-- The fields are in the ranges of `u8`, `u8`, `u16` and `u32`.
pub record InRange (h : MsgHdr) : Type 0 where
  pub version_range : h.version < 256
  pub type_range : h.msg_type < 256
  pub seq_range : h.seq < 65536
  pub peer_range : h.peer < u32_mod

unfoldable pub encode_frame : MsgHdr → List ℕ → Option (List ℕ)
encode_frame hdr body =
    put_attr (hdr.version ∷ hdr.msg_type ∷ (be16 hdr.seq ++ be32 hdr.peer)) 0 false body

-- The checks of `decode_head` on the length word.
check_len : MsgHdr → ℕ → Result BlobError (MsgHdr × ℕ)
check_len hdr raw_len =
    if ltb raw_len blob_hdr_len
    then err message_too_short
    else if ltb max_msglen raw_len
    then err message_too_large
    else ok (hdr, raw_len)

-- The argument is an array of twelve bytes; a list of another length does not arise.
unfoldable pub decode_head : List ℕ → Result BlobError (MsgHdr × ℕ)
unfolding check_len
decode_head (v ∷ t ∷ s ∷ s' ∷ p ∷ p' ∷ q ∷ q' ∷ a ∷ b ∷ c ∷ d ∷ []) =
    check_len
      (record { version = v; msg_type = t; seq = from_be16 s s'; peer = from_be32 p p' q q' })
      (raw_len_of (from_be32 a b c d))
decode_head _ = err truncated_header

pub data ReadError : Type 0 where
  io : ReadError
  protocol : BlobError → ReadError

-- tokio's `AsyncReadExt::read_exact`: it fills the buffer with the next bytes of the stream, or
-- fails where the stream ends before. `Holds s bs` says that the bytes `bs` are still to come.
pub record Reader (S : Type 0) : Type 1 where
  pub read_exact : S → ℕ → Option (List ℕ × S)
  pub Holds : S → List ℕ → Type 0
  pub fills :
      (s : S) (xs ys : List ℕ)
      → Holds s (xs ++ ys)
      → (s' : S) × (read_exact s (length xs) ≡ some (xs, s')) × Holds s' ys
  pub fails : (s : S) (xs : List ℕ) (n : ℕ) → Holds s xs → length xs < n → read_exact s n ≡ none

module _ {S : Type 0} (r : Reader S) where
  read_body : MsgHdr → Option (List ℕ × S) → Result ReadError (Frame × S)
  read_body hdr none = err io
  read_body hdr (some (body, s)) = ok (record { hdr = hdr; body = body }, s)

  after_head : Result BlobError (MsgHdr × ℕ) → S → Result ReadError (Frame × S)
  unfolding read_body
  after_head (err e) s = err (protocol e)
  after_head (ok (hdr, raw_len)) s = read_body hdr (r.read_exact s (raw_len - blob_hdr_len))

  unfoldable pub read_frame : S → Result ReadError (Frame × S)
  unfolding after_head
  read_frame s = elim (r.read_exact s (msghdr_len + blob_hdr_len)) [
    | none ↦ err io
    | some (head, s') ↦ after_head (decode_head head) s'
  ]
