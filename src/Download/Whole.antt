-- ===== src/Download/Whole.antt =====
-- A response of unknown length is delivered whole, or its stream ends in an error.
use locho.Base.{
  ℕ, zero, suc, ◌+◌, ◌≤◌, ◌<◌, true, false, ◌++◌, List, [], ◌∷◌, none, some, Bytes, ltb, length,
  All, length-append, append_assoc, append-nil, Bool-cases, ok, err, ◌≡◌, refl, sym, ap, ◌∙◌, inl,
  inr, arith, within,
}
use locho.Wire.{
  Codec, LochoResponseHead, max_body_len, max_head_len, write_body_end, write_json_head,
  read_body_chunk, read_exact, read_chunk_length,
}
use locho.Wire.RoundTrip.{frame, read_json_head-write_json_head}
use locho.Upload.{write_pieces}
use locho.Upload.Chunked.{Fits, read_body_chunk-frame, read_body_chunk_end, length-pieces-le}
use locho.Headers.Request.{HttpCrates, kept_pairs}
use locho.Download.{
  Upstream, SendError, after_writing, send_body, response_head, send_response, chunk_not_read,
  after_yield, deliver_chunked, deliver_body, deliver_behind, deliver_response, arrived,
  local_response,
}

-- What was sent of a body whose chunks fit into frames: all of them and the end, or some of them.
abbrev SentWhole : Upstream → ℕ → Type 0
SentWhole upstream total =
    ((send_body false total upstream).1 ≡ ok tt
      → (send_body false total upstream).0 ≡ write_pieces (arrived upstream) ++ write_body_end)
    × ((e : SendError)
        → (send_body false total upstream).1 ≡ err e
        → (ps : List Bytes) × ((send_body false total upstream).0 ≡ write_pieces ps) × All Fits ps)

send_body-SentWhole :
    (upstream : Upstream) (total : ℕ) → All Fits (arrived upstream) → SentWhole upstream total
unfolding send_body write_pieces
send_body-SentWhole [] total fits = ((λ _. refl), λ e h. absurd (ground arith))
send_body-SentWhole (none ∷ upstream) total fits =
    ((λ h. absurd (ground arith)), λ e h. ([], refl, tt))
send_body-SentWhole (some chunk ∷ upstream) total fits =
    let (whole, part) = send_body-SentWhole upstream (total + length chunk) fits.1 in
    elim (Bool-cases (ltb max_body_len (total + length chunk))) [
      | inl over ↦ rw over ((λ h. absurd (ground arith)), λ e h. ([], refl, tt))
      | inr small ↦ rw small (
        λ h.
            ap (frame chunk ++◌) (whole h)
            ∙ sym (append_assoc (frame chunk) (write_pieces (arrived upstream)) write_body_end),
        λ e h.
            let (ps, out, good) = part e h in
            (chunk ∷ ps, ap (frame chunk ++◌) out, (fits.0, good)),
      )
    ]

deliver-write_pieces :
    (ps : List Bytes) (fuel : ℕ) (rest : Bytes)
    → All Fits ps
    → length ps < fuel
    → deliver_chunked fuel (write_pieces ps ++ (write_body_end ++ rest)) ≡ (ps, ok tt)
unfolding deliver_chunked write_pieces
deliver-write_pieces ps zero rest good k = absurd (omega arith)
deliver-write_pieces [] (suc fuel) rest good k = rw (read_body_chunk_end rest, deliver_chunked) refl
deliver-write_pieces (p ∷ ps) (suc fuel) rest good k =
    rw
      (
        append_assoc (frame p) (write_pieces ps) (write_body_end ++ rest),
        read_body_chunk-frame p (write_pieces ps ++ (write_body_end ++ rest)) good.0,
        deliver_chunked,
      )
      (ap (after_yield p) (deliver-write_pieces ps fuel rest good.1 (omega arith)))

deliver_cut_off :
    (ps : List Bytes) (fuel : ℕ)
    → All Fits ps
    → length ps < fuel
    → deliver_chunked fuel (write_pieces ps) ≡ (ps, err (chunk_not_read read_chunk_length))
unfolding deliver_chunked write_pieces
deliver_cut_off ps zero good k = absurd (omega arith)
deliver_cut_off [] (suc fuel) good k = unfold read_body_chunk read_exact in refl
deliver_cut_off (p ∷ ps) (suc fuel) good k =
    rw (read_body_chunk-frame p (write_pieces ps) good.0, deliver_chunked)
      (ap (after_yield p) (deliver_cut_off ps fuel good.1 (omega arith)))

write_json_head-ok :
    (codec : Codec LochoResponseHead) (head : LochoResponseHead) (json : Bytes)
    → codec.to_vec head ≡ some json
    → length json ≤ max_head_len
    → write_json_head codec head ≡ ok (frame json)
unfolding write_json_head
write_json_head-ok codec head json e fits = rw e (ground arith)

deliver_body-whole :
    (ps : List Bytes)
    → All Fits ps
    → deliver_body none (write_pieces ps ++ write_body_end) ≡ (ps, ok tt)
unfolding deliver_body
deliver_body-whole ps good =
    ap (λ end. deliver_chunked (suc (length (write_pieces ps ++ end))) (write_pieces ps ++ end))
      (sym (append-nil write_body_end))
    ∙ deliver-write_pieces ps (suc (length (write_pieces ps ++ (write_body_end ++ [])))) [] good
        (omega (arith, length-pieces-le ps, length-append (write_pieces ps) (write_body_end ++ [])))

deliver_body_cut_off :
    (ps : List Bytes)
    → All Fits ps
    → deliver_body none (write_pieces ps) ≡ (ps, err (chunk_not_read read_chunk_length))
unfolding deliver_body
deliver_body_cut_off ps good =
    deliver_cut_off ps (suc (length (write_pieces ps))) good (omega (arith, length-pieces-le ps))

module _ {Url : Type 0} (crates : HttpCrates Url) (codec : Codec LochoResponseHead) (status : ℕ)
    (headers : List (Bytes × Bytes)) (json : Bytes)
    (encodes : codec.to_vec (response_head status headers none) ≡ some json)
    (decodes : codec.from_slice json ≡ some (response_head status headers none))
    (fits : length json ≤ max_head_len) (valid : within 100 999 status ≡ true) where
  send_response-frame :
      (upstream : Upstream)
      → send_response codec status headers none upstream
        ≡ after_writing (frame json) (send_body false 0 upstream)
  unfolding send_response
  send_response-frame upstream =
      rw (write_json_head-ok codec (response_head status headers none) json encodes fits) refl

  deliver_response-frame :
      (body : Bytes)
      → deliver_response crates codec (frame json ++ body)
        ≡ ok (local_response status (kept_pairs crates headers) (deliver_body none body))
  unfolding deliver_response deliver_behind
  deliver_response-frame body =
      ap (deliver_behind crates) (
        read_json_head-write_json_head codec max_head_len (response_head status headers none) body
          encodes decodes fits
          (write_json_head-ok codec (response_head status headers none) json encodes fits))
      ∙ rw valid refl

  -- A response of unknown length, whose chunks have 1 to `body_chunk_len` bytes: where the host
  -- has sent it to its end, the attaching side delivers the status, the headers that can be
  -- parsed but for those of a single connection, and every chunk, and its stream ends well; where the upstream broke off or the limit was passed, the stream
  -- ends in an error, and what was sent is never taken for the whole response. The head must fit
  -- its limit and be decoded as it was encoded.
  pub deliver_response-send_response :
      (upstream : Upstream)
      → All Fits (arrived upstream)
      → ((send_response codec status headers none upstream).1 ≡ ok tt
          → deliver_response crates codec (send_response codec status headers none upstream).0
            ≡ ok (local_response status (kept_pairs crates headers) (arrived upstream, ok tt)))
        × ((e : SendError)
            → (send_response codec status headers none upstream).1 ≡ err e
            → (ps : List Bytes) × (deliver_response crates codec
                  (send_response codec status headers none upstream).0
                ≡ ok (
                    local_response status
                      (kept_pairs crates headers)
                      (ps, err (chunk_not_read read_chunk_length)))))
  deliver_response-send_response upstream good =
      let (whole, part) = send_body-SentWhole upstream 0 good in
      let sent = send_response-frame upstream in
      (
        λ h.
            ap (λ s. deliver_response crates codec s.0) sent
            ∙ ap (λ out. deliver_response crates codec (frame json ++ out))
                (whole (sym (ap (λ s. s.1) sent) ∙ h))
            ∙ deliver_response-frame (write_pieces (arrived upstream) ++ write_body_end)
            ∙ ap (λ s. ok (local_response status (kept_pairs crates headers) s))
                (deliver_body-whole (arrived upstream) good),
        λ e h.
            let (ps, out, fine) = part e (sym (ap (λ s. s.1) sent) ∙ h) in
            (
              ps,
              ap (λ s. deliver_response crates codec s.0) sent
                  ∙ ap (λ out. deliver_response crates codec (frame json ++ out)) out
                  ∙ deliver_response-frame (write_pieces ps)
                  ∙ ap (λ s. ok (local_response status (kept_pairs crates headers) s))
                      (deliver_body_cut_off ps fine),
            ),
      )
