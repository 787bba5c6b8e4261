-- ===== src/Blob/Stream.antt =====
-- `read_frame` takes from a stream exactly the frame that `encode_frame` wrote
-- (rust/src/ubus/blob.rs).
use zte_u60_pro_mu5250_data.Common.{
  ℕ, ◌+◌, ◌-◌, ◌%◌, ◌≤◌, false, some, List, [], ◌∷◌, ◌++◌, append_assoc, append-nil, length, ok,
  ◌≡◌, refl, ap, ◌∙◌, arith, subst,
}
use zte_u60_pro_mu5250_data.Blob.Bytes.{
  be16, be32, from_be16-be16, from_be32-be32, align, align_self,
}
use zte_u60_pro_mu5250_data.Blob.Attrs.{blob_hdr_len, max_msglen, Attr, head_word}
use zte_u60_pro_mu5250_data.Blob.RoundTrip.{Fits, encoded, put_attr-encoded, word_fields}
use zte_u60_pro_mu5250_data.Blob.Frame.{
  MsgHdr, InRange, encode_frame, decode_head, Reader, read_frame,
}

-- The attribute that encloses the body of a frame.
abbrev outer : List ℕ → Attr
outer body = record { id = 0; extended = false; payload = body }

-- The first twelve bytes of a frame.
head_bytes : MsgHdr → ℕ → List ℕ
head_bytes hdr w = hdr.version ∷ hdr.msg_type ∷ (be16 hdr.seq ++ (be32 hdr.peer ++ be32 w))

abbrev word : List ℕ → ℕ
word body = head_word 0 false (4 + length body)

-- A head that is accepted announces a length between the blob header's and the maximal message's.
pub decode_head_bounds :
    (head : List ℕ) (hdr : MsgHdr) (raw_len : ℕ)
    → decode_head head ≡ ok (hdr, raw_len)
    → (blob_hdr_len ≤ raw_len) × (raw_len ≤ max_msglen)
unfolding decode_head
decode_head_bounds (v ∷ t ∷ s ∷ s' ∷ p ∷ p' ∷ q ∷ q' ∷ a ∷ b ∷ c ∷ d ∷ []) hdr raw_len h =
    ground arith
decode_head_bounds _ hdr raw_len h = cc

decode_head-bytes :
    (hdr : MsgHdr) (body : List ℕ)
    → InRange hdr
    → 4 + length body ≤ max_msglen
    → decode_head (head_bytes hdr (word body)) ≡ ok (hdr, 4 + length body)
unfolding decode_head head_bytes
decode_head-bytes hdr body h fits =
    let f : Fits (outer body) = record { short = omega arith; named = omega arith } in
    let (small, raw, id, ext) = word_fields (outer body) f in
    rw
      (
        from_be16-be16 hdr.seq h.seq_range,
        from_be32-be32 hdr.peer h.peer_range,
        from_be32-be32 (word body) small,
      )
      (ground arith)

-- A body that ends at a multiple of four gets no padding.
unpadded : (body : List ℕ) → length body % 4 ≡ 0 → encoded (outer body) ≡ be32 (word body) ++ body
unfolding encoded
unpadded body h =
    let same_len : align (4 + length body) ≡ 4 + length body =
      align_self (4 + length body) (omega arith) in
    let none_left : align (4 + length body) - (4 + length body) ≡ 0 = omega arith in
    rw none_left (ap (λ (b : List ℕ). be32 (word body) ++ b) (append-nil body))

encode_frame-bytes :
    (hdr : MsgHdr) (body : List ℕ)
    → 4 + length body ≤ max_msglen
    → length body % 4 ≡ 0
    → encode_frame hdr body ≡ some (head_bytes hdr (word body) ++ body)
unfolding encode_frame head_bytes
encode_frame-bytes hdr body fits h =
    let f : Fits (outer body) = record { short = omega arith; named = omega arith } in
    put_attr-encoded (hdr.version ∷ hdr.msg_type ∷ (be16 hdr.seq ++ be32 hdr.peer)) (outer body) f
    ∙ rw (unpadded body h) refl

module _ {S : Type 0} (r : Reader S) where
  -- What `read_frame` answers where the head and the body are there to be read.
  read_frame-parts :
      (s s' s'' : S) (head body : List ℕ) (hdr : MsgHdr) (raw_len : ℕ)
      → r.read_exact s 12 ≡ some (head, s')
      → decode_head head ≡ ok (hdr, raw_len)
      → r.read_exact s' (raw_len - 4) ≡ some (body, s'')
      → read_frame r s ≡ ok (record { hdr = hdr; body = body }, s'')
  unfolding read_frame
  read_frame-parts s s' s'' head body hdr raw_len h d b = ground arith

  -- From a stream that starts with an encoded frame, whose body ends at a multiple of four and fits
  -- a message, `read_frame` returns that frame and leaves the stream at what follows it.
  pub read_frame-encode_frame :
      (s : S) (hdr : MsgHdr) (body bytes rest : List ℕ)
      → InRange hdr
      → 4 + length body ≤ max_msglen
      → length body % 4 ≡ 0
      → encode_frame hdr body ≡ some bytes
      → r.Holds s (bytes ++ rest)
      → (s' : S) × (read_frame r s ≡ ok (record { hdr = hdr; body = body }, s')) × r.Holds s' rest
  read_frame-encode_frame s hdr body bytes rest range fits aligned e holds =
      let same : bytes ≡ head ++ body = cc (encode_frame-bytes hdr body fits aligned) in
      let placed = subst (λ (b : List ℕ). r.Holds s (b ++ rest)) same holds in
      let (s', read, more) =
        r.fills s head (body ++ rest) (subst (r.Holds s) (append_assoc head body rest) placed) in
      let (s'', read', left) = r.fills s' body rest more in
      let size : 4 + length body - 4 ≡ length body = omega arith in
      (
        s'',
        read_frame-parts s s' s'' head body hdr (4 + length body) (rw twelve at read)
            (decode_head-bytes hdr body range fits) (rw size read'),
        left,
      )
    where
      head : List ℕ
      head = head_bytes hdr (word body)

      twelve : length head ≡ 12
      twelve = unfold head_bytes in refl
