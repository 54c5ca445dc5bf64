-- ===== src/Upload/Declared.antt =====
-- The body of declared length: the pieces that the host reads are the declared bytes.
use locho.Base.{
  append_assoc, subst, none, take-append-drop, ℕ, zero, suc, ◌+◌, ◌-◌, ◌≤◌, ◌<◌, min, ◌++◌, List,
  [], ◌∷◌, some, Bytes, ◌≡◌, refl, ap, ap₂, sym, ◌∙◌, inl, inr, arith, ltb, ◌==◌, ==_iff, length,
  take, drop, concat, concat-chunks, length-drop, length-append, take-length-append,
  drop-length-append, Bool-cases, ok, err,
}
use locho.Wire.{max_body_len, body_chunk_len, read_exact}
use locho.Upload.{
  Frame, bytes, trailers, failed, upload_declared, Received, with_piece, receive_remaining,
  receive_declared, receive_body, content, truncated, receive_limit,
}

-- A completed upload has written the content, which has the declared length.
upload_declared-eq-ok :
    (frames : List Frame) (len written : ℕ)
    → (upload_declared len written frames).1 ≡ ok tt
    → ((upload_declared len written frames).0 ≡ content frames)
      × (written + length (content frames) ≡ len)
unfolding upload_declared
upload_declared-eq-ok [] len written h = (refl, ground arith)
upload_declared-eq-ok (trailers ∷ frames) len written h = absurd (ground arith)
upload_declared-eq-ok (failed ∷ frames) len written h = absurd (ground arith)
upload_declared-eq-ok (bytes body ∷ frames) len written h =
    elim (Bool-cases (ltb len (written + length body))) [
      | inl over ↦ absurd (ground arith)
      | inr fits ↦
          let (out, total) =
            upload_declared-eq-ok frames len (written + length body) (ground arith) in
          (
            rw (fits, out, concat-chunks body_chunk_len body (omega arith)),
            omega (arith, length-append body (content frames)),
          )
    ]

module _ {ℓ} {A : Type ℓ} where
  take-nil : (n : ℕ) → take {A = A} n [] ≡ []
  take-nil zero = refl
  take-nil (suc n) = refl

  drop-nil : (n : ℕ) → drop {A = A} n [] ≡ []
  drop-nil zero = refl
  drop-nil (suc n) = refl

module _ {ℓ} {A : Type ℓ} where
  take-take-drop :
      (m n : ℕ) (xs : List A) → m ≤ n → take m xs ++ take (n - m) (drop m xs) ≡ take n xs
  take-take-drop zero n xs h = ap (λ (k : ℕ). take k xs) (omega arith)
  take-take-drop (suc m) zero xs h = absurd (omega arith)
  take-take-drop (suc m) (suc n) [] h = take-nil (suc n - suc m)
  take-take-drop (suc m) (suc n) (x ∷ xs) h =
      let e : suc n - suc m ≡ n - m = omega arith in
      rw e (ap (◌∷◌ x) (take-take-drop m n xs (omega arith)))

  drop-drop : (m n : ℕ) (xs : List A) → m ≤ n → drop (n - m) (drop m xs) ≡ drop n xs
  drop-drop zero n xs h = ap (λ (k : ℕ). drop k xs) (omega arith)
  drop-drop (suc m) zero xs h = absurd (omega arith)
  drop-drop (suc m) (suc n) [] h = drop-nil (suc n - suc m)
  drop-drop (suc m) (suc n) (x ∷ xs) h =
      let e : suc n - suc m ≡ n - m = omega arith in rw e (drop-drop m n xs (omega arith))

  take_all : (xs : List A) → take (length xs) xs ≡ xs
  take_all [] = refl
  take_all (x ∷ xs) = ap (◌∷◌ x) (take_all xs)

read_exact_enough :
    (n : ℕ) (reader : Bytes)
    → n ≤ length reader
    → read_exact n reader ≡ some (take n reader, drop n reader)
unfolding read_exact
read_exact_enough n reader h = ground arith

receive_remaining_step :
    (fuel remaining count : ℕ) (reader : Bytes)
    → 1 ≤ remaining
    → count ≡ min remaining body_chunk_len
    → count ≤ length reader
    → receive_remaining (suc fuel) remaining reader
      ≡ with_piece
          (take count reader)
          (receive_remaining fuel (remaining - count) (drop count reader))
unfolding receive_remaining
receive_remaining_step fuel remaining count reader pos e h =
    ground (arith, read_exact_enough count reader h)

-- With enough fuel the loop reads exactly the bytes that remain.
receive_remaining_enough :
    (fuel remaining : ℕ) (reader : Bytes)
    → remaining < fuel
    → remaining ≤ length reader
    → (ps : List Bytes) × (receive_remaining fuel remaining reader
        ≡ (ps, ok (drop remaining reader)))
      × (concat ps ≡ take remaining reader)
unfolding receive_remaining
receive_remaining_enough zero remaining reader f h = absurd (omega arith)
receive_remaining_enough (suc fuel) remaining reader f h = elim (Bool-cases (remaining == 0)) [
  | inl e ↦ let z : remaining ≡ 0 = (==_iff remaining 0).0 e in ([], rw z refl, rw z refl)
  | inr e ↦
      let count : ℕ = min remaining body_chunk_len in
      let (ps, read, whole) =
        receive_remaining_enough fuel (remaining - count) (drop count reader) (ground arith)
          (omega (arith, length-drop count reader)) in
      (
        take count reader ∷ ps,
        receive_remaining_step fuel remaining count reader (ground arith) refl (omega arith)
            ∙ ap (with_piece (take count reader)) read
            ∙ ap (λ (r : Bytes). (take count reader ∷ ps, ok r))
                (drop-drop count remaining reader (omega arith)),
        ap (◌++◌ (take count reader)) whole ∙ take-take-drop count remaining reader (omega arith),
      )
]

-- The pieces are a beginning of what there is to read, and then it is too short.
abbrev Short : Bytes → Received → Type 0
Short reader r =
    (ps : List Bytes) × (r ≡ (ps, err truncated)) × (rest : Bytes) × (reader ≡ concat ps ++ rest)

Short-with_piece :
    (piece reader1 : Bytes) (r : Received)
    → Short reader1 r
    → Short (piece ++ reader1) (with_piece piece r)
Short-with_piece piece reader1 r (ps, same, rest, whole) = (
  piece ∷ ps,
  ap (with_piece piece) same,
  rest,
  ap (piece ++◌) whole ∙ sym (append_assoc piece (concat ps) rest),
)

read_exact_short : (n : ℕ) (reader : Bytes) → length reader < n → read_exact n reader ≡ none
unfolding read_exact
read_exact_short n reader h = ground arith

-- With fewer bytes than announced the loop finds the stream too short.
receive_remaining-Short :
    (fuel remaining : ℕ) (reader : Bytes)
    → remaining < fuel
    → length reader < remaining
    → Short reader (receive_remaining fuel remaining reader)
unfolding receive_remaining
receive_remaining-Short zero remaining reader f h = absurd (omega arith)
receive_remaining-Short (suc fuel) remaining reader f h =
    let count : ℕ = min remaining body_chunk_len in
    elim (Bool-cases (ltb (length reader) count)) [
      | inl few ↦ ([], ground (arith, read_exact_short count reader), reader, refl)
      | inr enough ↦
          let rest =
            receive_remaining-Short fuel (remaining - count) (drop count reader) (ground arith)
              (ground (arith, length-drop count reader)) in
          subst (λ (b : Bytes). Short b (receive_remaining (suc fuel) remaining reader))
            (take-append-drop count reader)
            (subst (Short (take count reader ++ drop count reader))
              (sym (
                receive_remaining_step fuel remaining count reader (omega arith) refl
                  (ground arith)))
              (Short-with_piece (take count reader) (drop count reader) _ rest))
    ]

pub receive_declared-remaining :
    (len : ℕ) (reader : Bytes)
    → len ≤ max_body_len
    → receive_declared len reader ≡ receive_remaining (suc len) len reader
unfolding receive_declared
receive_declared-remaining len reader fits = ground arith

-- The whole behaviour of the host's read of a declared body: a length over the limit is refused
-- unread; a stream that ends early is an error, behind pieces that are a beginning of it; and
-- otherwise the pieces are the announced bytes and what follows them stays unread.
pub receive_declared_lem :
    (len : ℕ) (reader : Bytes)
    → (max_body_len < len → receive_declared len reader ≡ ([], err receive_limit))
      × (len ≤ max_body_len
          → length reader < len
          → (ps : List Bytes) × (receive_declared len reader ≡ (ps, err truncated))
            × (rest : Bytes) × (reader ≡ concat ps ++ rest))
      × (len ≤ max_body_len
          → len ≤ length reader
          → (ps : List Bytes) × (receive_declared len reader ≡ (ps, ok (drop len reader)))
            × (concat ps ≡ take len reader))
unfolding receive_declared
receive_declared_lem len reader = (
  λ over. ground arith,
  λ fits short.
      let (ps, read, rest, whole) =
        receive_remaining-Short (suc len) len reader (omega arith) short in
      (ps, receive_declared-remaining len reader fits ∙ read, rest, whole),
  λ fits enough.
      let (ps, read, whole) = receive_remaining_enough (suc len) len reader (omega arith) enough in
      (ps, rw read (ground arith), whole),
)

receive_declared-append :
    (body rest : Bytes)
    → length body ≤ max_body_len
    → (ps : List Bytes) × (receive_declared (length body) (body ++ rest) ≡ (ps, ok rest))
      × (concat ps ≡ body)
receive_declared-append body rest fits =
    let (ps, read, whole) =
      (receive_declared_lem (length body) (body ++ rest)).2 fits
        (omega (arith, length-append body rest)) in
    (
      ps,
      read ∙ ap (λ (r : Bytes). (ps, ok r)) (drop-length-append body rest),
      whole ∙ take-length-append body rest,
    )

-- A body of declared length that is uploaded in full, within the limit, is received in full, and
-- nothing behind it is read.
pub receive_body-upload_declared :
    (frames : List Frame) (len : ℕ) (rest : Bytes)
    → len ≤ max_body_len
    → (upload_declared len 0 frames).1 ≡ ok tt
    → (ps : List Bytes) × (receive_body (some len) ((upload_declared len 0 frames).0 ++ rest)
        ≡ (ps, ok rest))
      × (concat ps ≡ content frames)
unfolding receive_body
receive_body-upload_declared frames len rest fits h =
    let (out, total) = upload_declared-eq-ok frames len 0 h in
    let size : length (content frames) ≡ len = omega arith in
    let (ps, read, whole) = receive_declared-append (content frames) rest (omega arith) in
    (ps, ap₂ (λ (n : ℕ) (b : Bytes). receive_declared n (b ++ rest)) (sym size) out ∙ read, whole)
