-- ===== src/Upload/Complete.antt =====
-- Which bodies are uploaded in full.
use locho.Base.{
  ℕ, ◌+◌, ◌≤◌, List, [], ◌∷◌, ◌≡◌, ◌↔◌, refl, arith, ltb, length, length-append, Bool-cases, inl,
  inr, ok,
}
use locho.Wire.{max_body_len}
use locho.Upload.{Frame, bytes, trailers, failed, upload_chunked, content}

-- Every frame holds bytes.
abbrev pub IsWhole : List Frame → Type 0
IsWhole [] = Unit
IsWhole (bytes frame ∷ frames) = IsWhole frames
IsWhole (trailers ∷ frames) = ⊥
IsWhole (failed ∷ frames) = ⊥

chunked-from :
    (frames : List Frame) (written : ℕ)
    → written ≤ max_body_len
    → ((upload_chunked written frames).1 ≡ ok tt)
      ↔ (IsWhole frames × (written + length (content frames) ≤ max_body_len))
unfolding upload_chunked
chunked-from [] written h = (λ _. (tt, omega arith), λ _. refl)
chunked-from (trailers ∷ frames) written h = (λ e. absurd (ground arith), λ w. absurd w.0)
chunked-from (failed ∷ frames) written h = (λ e. absurd (ground arith), λ w. absurd w.0)
chunked-from (bytes frame ∷ frames) written h =
    elim (Bool-cases (ltb max_body_len (written + length frame))) [
      | inl over ↦ (
        λ e. absurd (ground arith),
        λ w. absurd (ground (arith, over, w.1, length-append frame (content frames))),
      )
      | inr fits ↦
          let (to, from) = chunked-from frames (written + length frame) (ground arith) in
          (
            λ e.
                let (whole, bound) = to (rw (fits, upload_chunked) at e) in
                (whole, omega (arith, bound, length-append frame (content frames))),
            λ w.
                rw (fits, upload_chunked)
                  (from (w.0, omega (arith, w.1, length-append frame (content frames)))),
          )
    ]

-- A body of unknown length is uploaded in full exactly if all its frames hold bytes and these are
-- within the limit together.
pub upload_chunked_iff :
    (frames : List Frame)
    → ((upload_chunked 0 frames).1 ≡ ok tt)
      ↔ (IsWhole frames × (length (content frames) ≤ max_body_len))
upload_chunked_iff frames =
    let (to, from) = chunked-from frames 0 (omega arith) in
    (λ e. ((to e).0, omega (arith, (to e).1)), λ w. from (w.0, omega (arith, w.1)))
