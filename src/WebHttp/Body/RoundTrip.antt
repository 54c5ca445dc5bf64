-- ===== src/WebHttp/Body/RoundTrip.antt =====
-- A chunked body is read back as the contents of its chunks.
use locho.Base.{
  ℕ, zero, suc, ◌+◌, ◌-◌, ◌≤◌, ◌<◌, true, false, ◌++◌, List, [], Option, none, some, Bytes, ltb,
  length, All, length-append, append_assoc, append-nil, ◌≡◌, refl, sym, ap, ◌∙◌, inl, inr, arith,
  Result, ok, err,
}
use locho.WebHttp.Reader.{HttpError, response_limit, Reader}
use locho.WebHttp.Body.{max_body, max_head, chunked, Body, Next, next, read_rest}
use locho.WebHttp.Body.Lines.{flat, IsSteady}
use locho.WebHttp.Body.Opened.{not_over}
use locho.WebHttp.Body.Chunked.{Chunk, IsChunk, sent, content, framing_length, Ahead}
use locho.WebHttp.Body.Progress.{next-Answers}

module _ (usize_max : ℕ) (enough : max_body ≤ usize_max) where
  -- What the loop makes of one answer.
  abbrev goes_on : ℕ → Bytes → Next → Option (Result HttpError Bytes)
  goes_on fuel so_far answer = elim answer [
    | err e ↦ some (err e)
    | ok (none, body1) ↦ some (ok so_far)
    | ok (some bytes, body1) ↦ elim (ltb (max_body - length so_far) (length bytes)) [
      | true ↦ some (err response_limit)
      | false ↦ read_rest usize_max fuel (so_far ++ bytes) body1
    ]
  ]

  read_rest-suc :
      (fuel : ℕ) (so_far : Bytes) (body : Body)
      → read_rest usize_max (suc fuel) so_far body ≡ goes_on fuel so_far (next usize_max true body)
  unfolding read_rest
  read_rest-suc fuel so_far body = refl

  read_rest-Ahead :
      (fuel : ℕ) (so_far expected tail : Bytes) (body : Body)
      → Ahead expected tail body
      → length so_far + length expected ≤ max_body
      → length expected < fuel
      → read_rest usize_max fuel so_far body ≡ some (ok (so_far ++ expected))
  read_rest-Ahead zero so_far expected tail body ahead fits fuelled = absurd (omega arith)
  read_rest-Ahead (suc fuel) so_far expected tail body ahead fits fuelled =
      elim (next-Answers usize_max enough expected tail body ahead) [
        | inl (body1, ends, e) ↦
            read_rest-suc fuel so_far body
            ∙ ap (goes_on fuel so_far) ends
            ∙ ap (λ x. some (ok x)) (sym (append-nil so_far) ∙ ap (so_far ++◌) (sym e))
        | inr (front, back, body1, passes, parted, nonempty, further) ↦
            let size = length-append front back in
            let gone = length-append so_far front in
            let whole = ap length parted in
            read_rest-suc fuel so_far body
            ∙ ap (goes_on fuel so_far) passes
            ∙ ap
                (λ over. elim over [
                  | true ↦ some (err response_limit)
                  | false ↦ read_rest usize_max fuel (so_far ++ front) body1
                ])
                (not_over (max_body - length so_far) (length front) (omega arith))
            ∙ read_rest-Ahead fuel (so_far ++ front) back tail body1 further (omega arith)
                (omega arith)
            ∙ ap (λ x. some (ok x)) (append_assoc so_far front back ∙ ap (so_far ++◌) (sym parted))
      ]

  -- A chunked body that respects the limits is read to its end, and gives the contents of its
  -- chunks, in whatever pieces the bytes arrive and whatever follows them.
  pub read_rest-sent :
      (chunks : List Chunk) (tail : Bytes) (reader : Reader) (framing_bytes trailer_limit : ℕ)
      → All IsChunk chunks
      → framing_bytes + framing_length chunks ≤ max_head
      → length (content chunks) ≤ max_body
      → 2 ≤ trailer_limit
      → IsSteady reader
      → flat reader ≡ sent chunks ++ tail
      → read_rest usize_max (suc (length (content chunks))) [] (record {
        reader = reader;
        framing = chunked 0 false;
        framing_bytes = framing_bytes;
        trailer_limit = trailer_limit;
      })
        ≡ some (ok (content chunks))
  read_rest-sent chunks tail reader framing_bytes trailer_limit well lines small trailer steady e =
      read_rest-Ahead (suc (length (content chunks))) [] (content chunks) tail _
        (inl (
          chunks,
          refl,
          record {
            ending = false;
            at = refl;
            fits = record {
              well_formed = well;
              framing_fits = lines;
              body_fits = small;
              trailer_fits = trailer;
              steady = steady;
            };
            ahead = e;
          },
        ))
        (omega (arith, small)) (omega arith)
