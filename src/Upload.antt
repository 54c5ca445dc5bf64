-- ===== src/Upload.antt =====
-- The body of a tunnelled HTTP request, from the attaching side to the host: the upload loops of
-- `tunnel_request_on_lease` (src/attach.rs) and the body task of `forward_to_upstream_with_state`
-- (src/host.rs). An upload is the bytes that it wrote and how it ended: what was written before a
-- failure has been sent.
pub mod Declared
pub mod Chunked
pub mod Complete
pub mod Fuel
use locho.Base.{
  ℕ, zero, suc, ◌+◌, ◌-◌, min, Bool, true, false, ◌++◌, List, [], ◌∷◌, Option, none, some, Bytes,
  ltb, ◌==◌, length, concat, chunks, if◌then◌else◌, Result, ok, err, ◌>>=◌, ◌>>◌, bail_if,
}
use locho.Wire.{
  WireError, max_body_len, body_chunk_len, to_be_bytes, write_body_end, read_exact, read_body_chunk,
}

-- What `body.frame().await` yields; the body ends with the list.
pub data Frame : Type 0 where
  bytes : Bytes → Frame
  trailers failed : Frame

pub data UploadError : Type 0 where
  body_failed contains_trailers exceeds_declared_length length_changed exceeds_limit : UploadError

abbrev pub Upload : Type 0
Upload = Bytes × Result UploadError Unit

-- The bytes `out` are written before the rest of the upload.
abbrev pub after_writing : Bytes → Upload → Upload
after_writing out u = (out ++ u.0, u.1)

-- `if let Some(body_len) = body_len { … }`; the pieces of a frame follow one another unframed.
unfoldable pub upload_declared : ℕ → ℕ → List Frame → Upload
upload_declared body_len written [] =
    ([], if written == body_len then ok tt else err length_changed)
upload_declared body_len written (trailers ∷ frames) = ([], err contains_trailers)
upload_declared body_len written (failed ∷ frames) = ([], err body_failed)
upload_declared body_len written (bytes frame ∷ frames) =
    let rest = upload_declared body_len (written + length frame) frames in
    if ltb body_len (written + length frame)
    then ([], err exceeds_declared_length)
    else after_writing (concat (chunks body_chunk_len frame)) rest

-- `write_body_chunk` of each piece; a piece is no longer than `body_chunk_len`, so none is refused.
unfoldable pub write_pieces : List Bytes → Bytes
write_pieces [] = []
write_pieces (piece ∷ pieces) = (to_be_bytes (length piece) ++ piece) ++ write_pieces pieces

-- The branch for a body of unknown length.
unfoldable pub upload_chunked : ℕ → List Frame → Upload
upload_chunked written [] = (write_body_end, ok tt)
upload_chunked written (trailers ∷ frames) = ([], err contains_trailers)
upload_chunked written (failed ∷ frames) = ([], err body_failed)
upload_chunked written (bytes frame ∷ frames) =
    let rest = upload_chunked (written + length frame) frames in
    if ltb max_body_len (written + length frame)
    then ([], err exceeds_limit)
    else after_writing (write_pieces (chunks body_chunk_len frame)) rest

pub data ReceiveError : Type 0 where
  wire : WireError → ReceiveError
  truncated receive_limit no_fuel : ReceiveError

-- The pieces that the upstream has been sent, which it keeps when the read fails, and how the read
-- ends. On an error the body task drops its sender, so the upstream's body ends with these pieces.
abbrev pub Received : Type 0
Received = List Bytes × Result ReceiveError Bytes

-- One more piece has been sent upstream.
abbrev pub with_piece : Bytes → Received → Received
with_piece piece received = (piece ∷ received.0, received.1)

abbrev pub of_wire {ℓ} : {A : Type ℓ} → Result WireError A → Result ReceiveError A
of_wire (ok a) = ok a
of_wire (err e) = err (wire e)

-- `while remaining > 0 { … read_exact(&mut buffer[..count]) … }`
unfoldable pub receive_remaining : ℕ → ℕ → Bytes → Received
receive_remaining zero remaining reader = ([], err no_fuel)
receive_remaining (suc fuel) remaining reader =
    let count = min remaining body_chunk_len in
    elim (remaining == 0) [
      | true ↦ ([], ok reader)
      | false ↦ elim (read_exact count reader) [
        | none ↦ ([], err truncated)
        | some (piece, reader1) ↦
            with_piece piece (receive_remaining fuel (remaining - count) reader1)
      ]
    ]

unfoldable pub receive_declared : ℕ → Bytes → Received
unfolding receive_remaining
receive_declared len reader =
    if ltb max_body_len len then ([], err receive_limit) else receive_remaining (suc len) len reader

-- `while let Some(chunk) = read_body_chunk(&mut reader).await? { … }`
unfoldable pub receive_chunked : ℕ → ℕ → Bytes → Received
receive_chunked zero total reader = ([], err no_fuel)
receive_chunked (suc fuel) total reader = elim (read_body_chunk reader) [
  | err e ↦ ([], err (wire e))
  | ok (none, reader1) ↦ ([], ok reader1)
  | ok (some piece, reader1) ↦ elim (ltb max_body_len (total + length piece)) [
    | true ↦ ([], err receive_limit)
    | false ↦ with_piece piece (receive_chunked fuel (total + length piece) reader1)
  ]
]

-- The body task of the host.
unfoldable pub receive_body : Option ℕ → Bytes → Received
unfolding receive_declared receive_chunked
receive_body (some len) reader = receive_declared len reader
receive_body none reader = receive_chunked (suc (length reader)) 0 reader

-- The bytes of the frames that hold bytes.
abbrev pub content : List Frame → Bytes
content [] = []
content (bytes frame ∷ frames) = frame ++ content frames
content (trailers ∷ frames) = content frames
content (failed ∷ frames) = content frames
