-- ===== src/WebHttp/Body/Progress.antt =====
-- Each call of `next` on a chunked body passes on the next bytes of its chunks.
use locho.Base.{
  ℕ, ◌+◌, ◌≤◌, min, Bool, true, false, ◌++◌, List, [], ◌∷◌, none, some, Bytes, ◌==◌, length,
  length-append, append_assoc, ◌≡◌, refl, sym, ap, subst, ◌∙◌, inl, inr, ◌⊎◌, arith, if◌then◌else◌,
  ok, err,
}
use locho.WebHttp.Reader.{response_limit, Reader}
use locho.WebHttp.Body.{
  max_body, read_bytes, crlf, empty, chunked, Body, Next, advance, next_bytes, open_chunk, next_by,
  next,
}
use locho.WebHttp.Body.Lines.{flat, IsSteady}
use locho.WebHttp.Body.Opened.{not_over, next_chunk-opens, open_chunk-ends}
use locho.WebHttp.Body.Taken.{next_bytes-Taken}
use locho.WebHttp.Body.Chunked.{Chunk, sent, content, Fits, Between, Inside, Ahead}

-- The body behind the bytes that were taken.
abbrev behind : Body → Bytes → Reader → Body
behind body front left = record body {
  reader = left;
  framing = advance (length front) body.framing;
}

behind-framing :
    (body : Body) (rest front back : Bytes) (left : Reader) {ending : Bool}
    → body.framing ≡ chunked (length rest) ending
    → rest ≡ front ++ back
    → (behind body front left).framing ≡ chunked (length back) (length back == 0)
behind-framing body rest front back left at parted =
    ap (advance (length front)) at
    ∙ ap (λ n. chunked n (n == 0)) (omega (arith, ap length parted, length-append front back))

behind-Fits :
    (body : Body) (chunks : List Chunk) (front : Bytes) (left : Reader)
    → Fits chunks body
    → IsSteady left
    → Fits chunks (behind body front left)
behind-Fits body chunks front left fits steady = record {
  well_formed = fits.well_formed;
  framing_fits = fits.framing_fits;
  body_fits = fits.body_fits;
  trailer_fits = fits.trailer_fits;
  steady = steady;
}

behind-Ahead :
    (body : Body) (rest : Bytes) (chunks : List Chunk) (tail front back : Bytes) (left : Reader)
    {ending : Bool}
    → body.framing ≡ chunked (length rest) ending
    → Fits chunks body
    → rest ≡ front ++ back
    → IsSteady left
    → flat left ≡ back ++ (crlf ++ (sent chunks ++ tail))
    → Ahead (back ++ content chunks) tail (behind body front left)
behind-Ahead body rest chunks tail front [] left at fits parted steady remains = inl (
  chunks,
  refl,
  record {
    ending = true;
    at = behind-framing body rest front [] left at parted;
    fits = behind-Fits body chunks front left fits steady;
    ahead = remains;
  },
)
behind-Ahead body rest chunks tail front (c ∷ cs) left at fits parted steady remains = inr (
  c ∷ cs,
  chunks,
  refl,
  record {
    ending = length (c ∷ cs) == 0;
    at = behind-framing body rest front (c ∷ cs) left at parted;
    nonempty = omega arith;
    fits = behind-Fits body chunks front left fits steady;
    ahead = remains;
  },
)

-- A chunk is opened, or goes on: some of its bytes are passed on, and the others are ahead.
abbrev pub Passes : Next → Bytes → Bytes → Type 0
Passes result expected tail =
    (front : Bytes) × (back : Bytes) × (body1 : Body) × (result ≡ ok (some front, body1))
    × (expected ≡ front ++ back)
    × (1 ≤ length front)
    × Ahead back tail body1

next_bytes-Passes :
    (most : ℕ) (body : Body) (rest : Bytes) (chunks : List Chunk) (tail : Bytes) {ending : Bool}
    → body.framing ≡ chunked (length rest) ending
    → Fits chunks body
    → flat body.reader ≡ rest ++ (crlf ++ (sent chunks ++ tail))
    → 1 ≤ most
    → most ≤ length rest
    → Passes (next_bytes most body.reader body) (rest ++ content chunks) tail
next_bytes-Passes most body rest chunks tail at fits ahead h k =
    let taken =
      next_bytes-Taken most rest (crlf ++ (sent chunks ++ tail)) body.reader body fits.steady ahead
        h k in
    (
      taken.front,
      taken.back ++ content chunks,
      behind body taken.front taken.left,
      taken.answer,
      ap (◌++ content chunks) taken.parted ∙ append_assoc taken.front taken.back (content chunks),
      taken.nonempty,
      behind-Ahead body rest chunks tail taken.front taken.back taken.left at fits taken.parted
          taken.steady taken.remains,
    )

sent-append :
    (chunk : Chunk) (chunks : List Chunk) (tail : Bytes)
    → sent (chunk ∷ chunks) ++ tail
      ≡ chunk.digits ++ (crlf ++ (chunk.bytes ++ (crlf ++ (sent chunks ++ tail))))
sent-append chunk chunks tail =
    append_assoc chunk.digits _ tail
    ∙ ap (λ x. chunk.digits ++ (crlf ++ x)) (append_assoc chunk.bytes (crlf ++ sent chunks) tail)

module _ (usize_max : ℕ) (enough : max_body ≤ usize_max) where
  -- What `next` answers on a chunked body: the end of it, or its next bytes.
  abbrev pub Answers : Body → Bytes → Bytes → Type 0
  Answers body expected tail =
      ((body1 : Body) × (next usize_max true body ≡ ok (none, body1)) × (expected ≡ []))
      ⊎ Passes (next usize_max true body) expected tail

  Passes-subst :
      {result result1 : Next} (expected tail : Bytes)
      → result ≡ result1
      → Passes result1 expected tail
      → Passes result expected tail
  Passes-subst expected tail h (front, back, body1, e, parted, nonempty, ahead) =
      (front, back, body1, h ∙ e, parted, nonempty, ahead)

  -- A chunk is opened in front of its bytes.
  open_chunk-Passes :
      (body : Body) (bytes : Bytes) (chunks : List Chunk) (tail : Bytes)
      → 1 ≤ length bytes
      → length bytes ≤ max_body
      → Fits chunks body
      → flat body.reader ≡ bytes ++ (crlf ++ (sent chunks ++ tail))
      → Passes (open_chunk usize_max true (length bytes) body) (bytes ++ content chunks) tail
  open_chunk-Passes body [] chunks tail nonempty small fits ahead = absurd (omega (arith, nonempty))
  open_chunk-Passes body (c ∷ cs) chunks tail nonempty small fits ahead =
      let size = length (c ∷ cs) in
      let opened = record body { framing = chunked size false } in
      Passes-subst ((c ∷ cs) ++ content chunks) tail
        (ap
          (λ over.
            if over
            then err response_limit
            else next_bytes (min size read_bytes) body.reader opened)
          (not_over max_body size small))
        (next_bytes-Passes (min size read_bytes) opened (c ∷ cs) chunks tail refl
          (record {
            well_formed = fits.well_formed;
            framing_fits = fits.framing_fits;
            body_fits = fits.body_fits;
            trailer_fits = fits.trailer_fits;
            steady = fits.steady;
          })
          ahead (omega arith) (omega arith))

  next-Inside :
      (rest : Bytes) (chunks : List Chunk) (tail : Bytes) (body : Body)
      → Inside rest chunks tail body
      → Passes (next usize_max true body) (rest ++ content chunks) tail
  unfolding next next_by
  next-Inside [] chunks tail body inside = absurd (omega (arith, inside.nonempty))
  next-Inside (c ∷ cs) chunks tail body inside =
      Passes-subst ((c ∷ cs) ++ content chunks) tail
        (ap (λ framing. next_by usize_max framing true body) inside.at)
        (next_bytes-Passes (min (length (c ∷ cs)) read_bytes) body (c ∷ cs) chunks tail inside.at
          inside.fits inside.ahead (omega arith) (omega arith))

  next-Between-end :
      (tail : Bytes) (body : Body)
      → Between [] tail body
      → (body1 : Body) × (next usize_max true body ≡ ok (none, body1))
  unfolding next next_by
  next-Between-end tail body between =
      let (left, opens, steady, e) =
        next_chunk-opens usize_max between.ending body (48 ∷ []) (crlf ++ tail) 0
          between.fits.steady between.ahead refl refl refl (omega arith)
          (omega (arith, between.fits.framing_fits)) in
      let (left1, ends) =
        open_chunk-ends usize_max
          (record body { reader = left; framing_bytes = body.framing_bytes + 3 }) tail steady e
          between.fits.trailer_fits in
      (
        record body { reader = left1; framing = empty; framing_bytes = body.framing_bytes + 3 },
        ap (λ framing. next_by usize_max framing true body) between.at ∙ opens ∙ ends,
      )

  next-Between :
      (chunk : Chunk) (chunks : List Chunk) (tail : Bytes) (body : Body)
      → Between (chunk ∷ chunks) tail body
      → Passes (next usize_max true body) (content (chunk ∷ chunks)) tail
  unfolding next next_by
  next-Between chunk chunks tail body between =
      let fits = between.fits in
      let (nonempty, hex, size, filled) = fits.well_formed.0 in
      let total = length-append chunk.bytes (content chunks) in
      let (left, opens, steady, e) =
        next_chunk-opens usize_max between.ending body chunk.digits
          (chunk.bytes ++ (crlf ++ (sent chunks ++ tail))) (length chunk.bytes) fits.steady
          (between.ahead
            ∙ ap ((if between.ending then crlf else []) ++◌) (sent-append chunk chunks tail))
          nonempty hex size (omega (arith, fits.body_fits)) (omega (arith, fits.framing_fits)) in
      Passes-subst (content (chunk ∷ chunks)) tail
        (ap (λ framing. next_by usize_max framing true body) between.at ∙ opens)
        (open_chunk-Passes
          (record body {
            reader = left;
            framing_bytes = body.framing_bytes + length (chunk.digits ++ crlf);
          })
          chunk.bytes chunks tail filled (omega (arith, fits.body_fits))
          (record {
            well_formed = fits.well_formed.1;
            framing_fits = omega (arith, fits.framing_fits, length-append chunk.digits crlf);
            body_fits = omega (arith, fits.body_fits);
            trailer_fits = fits.trailer_fits;
            steady = steady;
          })
          e)

  pub next-Answers :
      (expected tail : Bytes) (body : Body) → Ahead expected tail body → Answers body expected tail
  next-Answers expected tail body (inl ([], e, between)) =
      let (body1, ends) = next-Between-end tail body between in inl (body1, ends, e)
  next-Answers expected tail body (inl (chunk ∷ chunks, e, between)) = inr (
      subst (λ x. Passes (next usize_max true body) x tail) (sym e)
        (next-Between chunk chunks tail body between))
  next-Answers expected tail body (inr (rest, chunks, e, inside)) = inr (
      subst (λ x. Passes (next usize_max true body) x tail) (sym e)
        (next-Inside rest chunks tail body inside))
