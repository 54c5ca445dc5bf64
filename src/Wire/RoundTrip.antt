-- ===== src/Wire/RoundTrip.antt =====
-- What is written as a frame is read back, with any bytes behind it.
use locho.Base.{
  ℕ, ◌≤◌, ◌<◌, ◌^◌, ◌++◌, some, Bytes, ◌≡◌, refl, ap, ◌∙◌, arith, length, ok, err,
  take-length-append, drop-length-append, length-append, append_assoc,
}
use locho.Wire.{
  Codec, to_be_bytes, from_be_bytes, read_exact, write_json_head, read_json_head, read_body_chunk,
  chunk_exceeds_limit, write_body_chunk, body_chunk_len,
}

pub from_be_bytes-to_be_bytes : (n : ℕ) → n < 2 ^ 32 → from_be_bytes (to_be_bytes n) ≡ n
unfolding from_be_bytes to_be_bytes
from_be_bytes-to_be_bytes n h = omega arith

pub read_exact-append :
    (n : ℕ) (xs ys : Bytes) → length xs ≡ n → read_exact n (xs ++ ys) ≡ some (xs, ys)
unfolding read_exact
read_exact-append n xs ys h =
    rw (← h)
      (ground (arith, length-append xs ys, take-length-append xs ys, drop-length-append xs ys))

-- The two reads of a frame: its length, and the body that the length announces.
abbrev pub frame : Bytes → Bytes
frame body = to_be_bytes (length body) ++ body

pub read_exact_prefix :
    (body rest : Bytes)
    → read_exact 4 (frame body ++ rest) ≡ some (to_be_bytes (length body), body ++ rest)
read_exact_prefix body rest =
    ap (read_exact 4) (append_assoc (to_be_bytes (length body)) body rest)
    ∙ read_exact-append 4 (to_be_bytes (length body)) (body ++ rest) (unfold to_be_bytes in refl)

write_json_head-eq-ok :
    {A : Type 0} (codec : Codec A) (value : A) {json out : Bytes}
    → codec.to_vec value ≡ some json
    → write_json_head codec value ≡ ok out
    → (out ≡ frame json) × (length json < 2 ^ 32)
unfolding write_json_head
write_json_head-eq-ok codec value {json} {out} e w = ground arith

write_body_chunk-eq-ok :
    (body : Bytes) {out : Bytes}
    → write_body_chunk body ≡ ok out
    → (out ≡ frame body) × (length body < 2 ^ 32)
unfolding write_body_chunk
write_body_chunk-eq-ok body {out} w = ground arith

-- A head that is written is read back, whatever follows it on the stream, if the codec decodes the
-- text that it gave for it and that text fits the reader's limit.
pub read_json_head-write_json_head :
    {A : Type 0} (codec : Codec A) (max_len : ℕ) (value : A) {json out : Bytes} (rest : Bytes)
    → codec.to_vec value ≡ some json
    → codec.from_slice json ≡ some value
    → length json ≤ max_len
    → write_json_head codec value ≡ ok out
    → read_json_head codec max_len (out ++ rest) ≡ ok (value, rest)
unfolding read_json_head
read_json_head-write_json_head codec max_len value {json} {out} rest e d fits w =
    let (f, small) = write_json_head-eq-ok codec value e w in
    rw (f, read_exact_prefix json rest)
      (rw
        (
          from_be_bytes-to_be_bytes (length json) small,
          read_exact-append (length json) json rest refl,
        )
        (ground arith))

-- A chunk of 1 to `body_chunk_len` bytes is read back as it was written.
pub read_body_chunk-write_body_chunk :
    (body : Bytes) {out : Bytes} (rest : Bytes)
    → 1 ≤ length body
    → length body ≤ body_chunk_len
    → write_body_chunk body ≡ ok out
    → read_body_chunk (out ++ rest) ≡ ok (some body, rest)
unfolding read_body_chunk
read_body_chunk-write_body_chunk body {out} rest lo hi w =
    let (f, small) = write_body_chunk-eq-ok body w in
    rw (f, read_exact_prefix body rest)
      (rw
        (
          from_be_bytes-to_be_bytes (length body) small,
          read_exact-append (length body) body rest refl,
        )
        (ground arith))

-- A chunk of more than `body_chunk_len` and less than 2^32 bytes is written, and refused by the
-- reader.
pub read_body_chunk_oversized :
    (body rest : Bytes)
    → body_chunk_len < length body
    → length body < 2 ^ 32
    → (out : Bytes) × (write_body_chunk body ≡ ok out)
      × (read_body_chunk (out ++ rest) ≡ err chunk_exceeds_limit)
unfolding read_body_chunk write_body_chunk
read_body_chunk_oversized body rest lo hi = (
  frame body,
  ground arith,
  rw (read_exact_prefix body rest) (rw (from_be_bytes-to_be_bytes (length body) hi) (ground arith)),
)
