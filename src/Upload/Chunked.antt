-- ===== src/Upload/Chunked.antt =====
-- The body of unknown length, piece by piece: an upload that is complete, and one that is cut short.
use locho.Base.{
  ℕ, zero, suc, ◌+◌, ◌≤◌, ◌<◌, ◌++◌, List, [], ◌∷◌, none, some, Bytes, ◌≡◌, refl, ap, ap₂, sym, ◌∙◌,
  inl, inr, arith, ltb, length, concat, chunks, chunks_sizes, concat-chunks, concat-append, All,
  All-append, length-append, append_assoc, Bool-cases, ok, err,
}
use locho.Wire.{
  max_body_len, body_chunk_len, to_be_bytes, from_be_bytes, read_exact, write_body_end,
  write_body_chunk, read_body_chunk, read_chunk_length,
}
use locho.Wire.RoundTrip.{frame, read_body_chunk-write_body_chunk}
use locho.Upload.{
  Frame, bytes, UploadError, trailers, failed, upload_chunked, write_pieces, receive_chunked,
  receive_body, content, wire,
}

abbrev pub Fits : Bytes → Type 0
Fits piece = (1 ≤ length piece) × (length piece ≤ body_chunk_len)

pub read_body_chunk-frame :
    (piece rest : Bytes)
    → Fits piece
    → read_body_chunk (frame piece ++ rest) ≡ ok (some piece, rest)
read_body_chunk-frame piece rest (lo, hi) =
    read_body_chunk-write_body_chunk piece rest lo hi (unfold write_body_chunk in ground arith)

pub read_body_chunk_end :
    (rest : Bytes) → read_body_chunk (write_body_end ++ rest) ≡ ok (none, rest)
unfolding read_body_chunk read_exact write_body_end to_be_bytes from_be_bytes
read_body_chunk_end rest = ground arith

receive-write_pieces :
    (pieces : List Bytes) (fuel total : ℕ) (rest : Bytes)
    → All Fits pieces
    → length pieces < fuel
    → total + length (concat pieces) ≤ max_body_len
    → receive_chunked fuel total (write_pieces pieces ++ (write_body_end ++ rest))
      ≡ (pieces, ok rest)
unfolding receive_chunked write_pieces
receive-write_pieces pieces zero total rest a h k = absurd (omega arith)
receive-write_pieces [] (suc fuel) total rest a h k = rw (read_body_chunk_end rest, receive_chunked)
receive-write_pieces (p ∷ ps) (suc fuel) total rest a h k =
    rw
      (
        append_assoc (frame p) (write_pieces ps) (write_body_end ++ rest),
        read_body_chunk-frame p (write_pieces ps ++ (write_body_end ++ rest)) a.0,
        receive_chunked,
      )
      (ground (
        arith,
        length-append p (concat ps),
        receive-write_pieces ps fuel (total + length p) rest a.1,
      ))

-- The pieces that an upload of the frames writes.
abbrev pieces : List Frame → List Bytes
pieces [] = []
pieces (bytes frame ∷ frames) = chunks body_chunk_len frame ++ pieces frames
pieces (trailers ∷ frames) = pieces frames
pieces (failed ∷ frames) = pieces frames

pieces-Fits : (frames : List Frame) → All Fits (pieces frames)
pieces-Fits [] = tt
pieces-Fits (bytes frame ∷ frames) =
    All-append Fits (chunks body_chunk_len frame) (pieces frames)
      (chunks_sizes body_chunk_len frame (omega arith)) (pieces-Fits frames)
pieces-Fits (trailers ∷ frames) = pieces-Fits frames
pieces-Fits (failed ∷ frames) = pieces-Fits frames

concat-pieces : (frames : List Frame) → concat (pieces frames) ≡ content frames
concat-pieces [] = refl
concat-pieces (bytes frame ∷ frames) =
    concat-append (chunks body_chunk_len frame) (pieces frames)
    ∙ ap₂ (◌++◌) (concat-chunks body_chunk_len frame (omega arith)) (concat-pieces frames)
concat-pieces (trailers ∷ frames) = concat-pieces frames
concat-pieces (failed ∷ frames) = concat-pieces frames

write_pieces-append :
    (ps qs : List Bytes) → write_pieces (ps ++ qs) ≡ write_pieces ps ++ write_pieces qs
unfolding write_pieces
write_pieces-append [] qs = refl
write_pieces-append (p ∷ ps) qs = rw (write_pieces-append ps qs) (sym (append_assoc (frame p) _ _))

-- A completed upload has written the pieces and the end, within the limit.
upload_chunked-eq-ok :
    (frames : List Frame) (written : ℕ)
    → written ≤ max_body_len
    → (upload_chunked written frames).1 ≡ ok tt
    → ((upload_chunked written frames).0 ≡ write_pieces (pieces frames) ++ write_body_end)
      × (written + length (content frames) ≤ max_body_len)
unfolding upload_chunked
upload_chunked-eq-ok [] written k h = (unfold write_pieces in refl, omega arith)
upload_chunked-eq-ok (trailers ∷ frames) written k h = ground arith
upload_chunked-eq-ok (failed ∷ frames) written k h = ground arith
upload_chunked-eq-ok (bytes frame ∷ frames) written k h =
    elim (Bool-cases (ltb max_body_len (written + length frame))) [
      | inl over ↦ absurd (ground arith)
      | inr fits ↦
          let (out, bound) =
            upload_chunked-eq-ok frames (written + length frame) (ground arith) (ground arith) in
          (
            rw (fits, out, write_pieces-append (chunks body_chunk_len frame) (pieces frames))
                (sym (append_assoc (write_pieces (chunks body_chunk_len frame)) _ _)),
            omega (arith, length-append frame (content frames)),
          )
    ]

length-concat-chunks :
    (body : Bytes) (ps : List Bytes)
    → length (concat (chunks body_chunk_len body ++ ps)) ≡ length body + length (concat ps)
length-concat-chunks body ps =
    ap length (concat-append (chunks body_chunk_len body) ps)
    ∙ ap (λ (b : Bytes). length (b ++ concat ps)) (concat-chunks body_chunk_len body (omega arith))
    ∙ length-append body (concat ps)

-- What comes of an upload that fails: whole pieces within the limit, with no end, which are a
-- beginning of the content.
abbrev Cut : ℕ → Bytes → Bytes → List Bytes → Type 0
Cut written out whole ps =
    (out ≡ write_pieces ps)
    × All Fits ps
    × (written + length (concat ps) ≤ max_body_len)
    × (unsent : Bytes) × (whole ≡ concat ps ++ unsent)

Cut-none : (written : ℕ) (whole : Bytes) → written ≤ max_body_len → Cut written [] whole []
Cut-none written whole k = (unfold write_pieces in refl, tt, omega arith, whole, refl)

Cut-frame :
    (written : ℕ) (body out whole : Bytes) (ps : List Bytes)
    → Cut (written + length body) out whole ps
    → Cut written
        (write_pieces (chunks body_chunk_len body) ++ out)
        (body ++ whole)
        (chunks body_chunk_len body ++ ps)
Cut-frame written body out whole ps (sent, a, bound, unsent, begins) = (
  ap (write_pieces (chunks body_chunk_len body) ++◌) sent
      ∙ sym (write_pieces-append (chunks body_chunk_len body) ps),
  All-append Fits (chunks body_chunk_len body) ps (chunks_sizes body_chunk_len body (omega arith))
      a,
  omega (arith, length-concat-chunks body ps),
  unsent,
  ap (body ++◌) begins
      ∙ sym (append_assoc body (concat ps) unsent)
      ∙ ap (◌++ unsent) (
          sym (
            concat-append (chunks body_chunk_len body) ps
            ∙ ap (◌++ concat ps) (concat-chunks body_chunk_len body (omega arith)))),
)

upload_chunked-eq-err :
    (frames : List Frame) (written : ℕ) (e : UploadError)
    → written ≤ max_body_len
    → (upload_chunked written frames).1 ≡ err e
    → (ps : List Bytes) × Cut written (upload_chunked written frames).0 (content frames) ps
unfolding upload_chunked
upload_chunked-eq-err [] written e k h = absurd (ground arith)
upload_chunked-eq-err (trailers ∷ frames) written e k h = ([], Cut-none written _ k)
upload_chunked-eq-err (failed ∷ frames) written e k h = ([], Cut-none written _ k)
upload_chunked-eq-err (bytes body ∷ frames) written e k h =
    elim (Bool-cases (ltb max_body_len (written + length body))) [
      | inl over ↦ ([], rw over (Cut-none written _ k))
      | inr fits ↦
          let (ps, cut) =
            upload_chunked-eq-err frames (written + length body) e (ground arith) (ground arith) in
          (chunks body_chunk_len body ++ ps, rw fits (Cut-frame written body _ _ ps cut))
    ]

receive_cut_off :
    (pieces : List Bytes) (fuel total : ℕ)
    → All Fits pieces
    → length pieces < fuel
    → total + length (concat pieces) ≤ max_body_len
    → receive_chunked fuel total (write_pieces pieces) ≡ (pieces, err (wire read_chunk_length))
unfolding receive_chunked write_pieces
receive_cut_off pieces zero total a h k = absurd (omega arith)
receive_cut_off [] (suc fuel) total a h k = unfold read_body_chunk read_exact in refl
receive_cut_off (p ∷ ps) (suc fuel) total a h k =
    rw (read_body_chunk-frame p (write_pieces ps) a.0, receive_chunked)
      (ground (arith, length-append p (concat ps), receive_cut_off ps fuel (total + length p) a.1))

pub length-pieces-le : (ps : List Bytes) → length ps ≤ length (write_pieces ps)
unfolding write_pieces to_be_bytes
length-pieces-le [] = omega arith
length-pieces-le (p ∷ ps) =
    omega (arith, length-pieces-le ps, length-append (frame p) (write_pieces ps))

-- A body of unknown length that is uploaded in full is received in full: the pieces that the host
-- passes upstream put together are the content of the frames, and nothing behind the body is read.
pub receive_body-upload_chunked :
    (frames : List Frame) (rest : Bytes)
    → (upload_chunked 0 frames).1 ≡ ok tt
    → (ps : List Bytes) × (receive_body none ((upload_chunked 0 frames).0 ++ rest) ≡ (ps, ok rest))
      × (concat ps ≡ content frames)
unfolding receive_body
receive_body-upload_chunked frames rest h =
    let (out, bound) = upload_chunked-eq-ok frames 0 (omega arith) h in
    (
      pieces frames,
      rw (out, append_assoc (write_pieces (pieces frames)) write_body_end rest)
          (receive-write_pieces (pieces frames)
            (suc (length (write_pieces (pieces frames) ++ (write_body_end ++ rest)))) 0 rest
            (pieces-Fits frames)
            (omega (
              arith,
              length-pieces-le (pieces frames),
              length-append (write_pieces (pieces frames)) (write_body_end ++ rest),
            ))
            (omega (arith, ap length (concat-pieces frames)))),
      concat-pieces frames,
    )

-- When an upload of unknown length fails, at whatever frame, the host's read of the body ends in an
-- error, and by then the host has passed upstream exactly the pieces that were written, whose bytes
-- are a beginning of the body.
pub receive_body_of_failed_upload :
    (frames : List Frame) (e : UploadError)
    → (upload_chunked 0 frames).1 ≡ err e
    → (ps : List Bytes) × (receive_body none (upload_chunked 0 frames).0
        ≡ (ps, err (wire read_chunk_length)))
      × ((upload_chunked 0 frames).0 ≡ write_pieces ps)
      × (unsent : Bytes) × (content frames ≡ concat ps ++ unsent)
unfolding receive_body
receive_body_of_failed_upload frames e h =
    let (ps, cut) = upload_chunked-eq-err frames 0 e (omega arith) h in
    let (out, a, bound, unsent, begins) = cut in
    (
      ps,
      rw out (
          receive_cut_off ps (suc (length (write_pieces ps))) 0 a
            (omega (arith, length-pieces-le ps)) bound),
      out,
      unsent,
      begins,
    )
