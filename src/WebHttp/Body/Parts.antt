-- ===== src/WebHttp/Body/Parts.antt =====
-- What one step of reading a body takes off the stream: a line, or some of its bytes.
use locho.Base.{
  ℕ, ◌+◌, ◌≤◌, true, false, ◌++◌, [], ◌∷◌, none, some, Bytes, ltb, ◌==◌, length, all,
  is_ascii_hexdigit, length-append, ◌≡◌, refl, sym, ap, subst, ◌∙◌, inl, inr, arith, Bool-cases,
  &&-eq-true, Result, ok, err,
}
use locho.WebHttp.Reader.{
  HttpError, piece, breaks, Reader, unread, cut, ends_with_crlf, line_from, framing_line,
}
use locho.WebHttp.Body.{crlf, without_crlf}
use locho.WebHttp.Body.Lines.{
  flat, IsSteady, unread-IsSteady, judged, line_of, flattened, Cut, step, line_from-step,
  line_from-refines,
}

step-IsSteady :
    (limit : ℕ) (out p : Bytes) (reader : Reader) (o : Cut) {line : Bytes} {reader1 : Reader}
    → ((out1 : Bytes) → line_from limit out1 reader ≡ ok (line, reader1) → IsSteady reader1)
    → IsSteady reader
    → step limit out p reader o ≡ ok (line, reader1)
    → IsSteady reader1
step-IsSteady limit out p reader none ih h e =
    elim (Bool-cases (ltb limit (length out + length p))) [
      | inl b ↦ absurd (ground arith)
      | inr b ↦ ih (out ++ p) (ground arith)
    ]
step-IsSteady limit out p reader (some (end, rest)) {reader1 = reader1} ih h e =
    elim (Bool-cases (ltb limit (length out + length end))) [
      | inl b ↦ absurd (ground arith)
      | inr b ↦ elim (Bool-cases (ends_with_crlf (out ++ end))) [
        | inl t ↦
            subst IsSteady {x = unread rest reader} {y = reader1} (ground arith)
              (unread-IsSteady rest reader h)
        | inr t ↦ absurd (ground arith)
      ]
    ]

line_from-IsSteady :
    (limit : ℕ) (out : Bytes) (reader : Reader) {line : Bytes} {reader1 : Reader}
    → IsSteady reader
    → line_from limit out reader ≡ ok (line, reader1)
    → IsSteady reader1
unfolding line_from
line_from-IsSteady limit out [] h e = absurd (ground arith)
line_from-IsSteady limit out (breaks x ∷ reader) h e = absurd h
line_from-IsSteady limit out (piece [] ∷ reader) h e = absurd h
line_from-IsSteady limit out (piece (c ∷ cs) ∷ reader) h e =
    step-IsSteady limit out (c ∷ cs) reader (cut (c ∷ cs))
      (λ out1. line_from-IsSteady limit out1 reader h) h
      (sym (line_from-step limit out c cs reader) ∙ e)

hexdigit-lf : (c : ℕ) → is_ascii_hexdigit c ≡ true → (c == 10) ≡ false
hexdigit-lf c h = ground arith

cut-line :
    (text rest : Bytes)
    → all is_ascii_hexdigit text ≡ true
    → cut (text ++ (crlf ++ rest)) ≡ some (text ++ crlf, rest)
cut-line [] rest h = refl
cut-line (c ∷ cs) rest h =
    let (digit, digits) = &&-eq-true (is_ascii_hexdigit c) (all is_ascii_hexdigit cs) h in
    rw (hexdigit-lf c digit, cut-line cs rest digits) refl

ends_with_crlf-line : (text : Bytes) → ends_with_crlf (text ++ crlf) ≡ true
ends_with_crlf-line [] = refl
ends_with_crlf-line (c ∷ []) = refl
ends_with_crlf-line (c ∷ d ∷ []) = refl
ends_with_crlf-line (c ∷ d ∷ e ∷ cs) = ends_with_crlf-line (d ∷ e ∷ cs)

pub without_crlf-line : (text : Bytes) → without_crlf (text ++ crlf) ≡ text
without_crlf-line [] = refl
without_crlf-line (c ∷ []) = refl
without_crlf-line (c ∷ d ∷ []) = refl
without_crlf-line (c ∷ d ∷ e ∷ cs) = ap (◌∷◌ c) (without_crlf-line (d ∷ e ∷ cs))

fits-line :
    (limit : ℕ) (text : Bytes)
    → length text + 2 ≤ limit
    → ltb limit (0 + length (text ++ crlf)) ≡ false
fits-line limit text h = rw (length-append text crlf) (ground arith)

pub judged-some :
    (limit : ℕ) (line s rest : Bytes)
    → ltb limit (0 + length line) ≡ false
    → ends_with_crlf line ≡ true
    → judged limit [] s (some (line, rest)) ≡ ok (line, rest)
judged-some limit line s rest fits ends = simp (fits, ends)

line_of-line :
    (limit : ℕ) (text rest : Bytes)
    → all is_ascii_hexdigit text ≡ true
    → length text + 2 ≤ limit
    → line_of limit [] (text ++ (crlf ++ rest)) ≡ ok (text ++ crlf, rest)
line_of-line limit text rest h fits =
    ap (judged limit [] (text ++ (crlf ++ rest))) (cut-line text rest h)
    ∙ judged-some limit (text ++ crlf) (text ++ (crlf ++ rest)) rest (fits-line limit text fits)
        (ends_with_crlf-line text)

flattened-eq-ok :
    (result : Result HttpError (Bytes × Reader)) {line rest : Bytes}
    → flattened result ≡ ok (line, rest)
    → (reader1 : Reader) × (result ≡ ok (line, reader1)) × (flat reader1 ≡ rest)
flattened-eq-ok (err e) h = absurd (ground arith)
flattened-eq-ok (ok (line, reader1)) h = (reader1, ground arith, ground arith)

pub framing_line-rest :
    (limit : ℕ) (line rest : Bytes) (reader : Reader)
    → IsSteady reader
    → flattened (framing_line limit reader) ≡ ok (line, rest)
    → (reader1 : Reader) × (framing_line limit reader ≡ ok (line, reader1))
      × IsSteady reader1
      × (flat reader1 ≡ rest)
framing_line-rest limit line rest reader steady h =
    let (reader1, e, f) = flattened-eq-ok (framing_line limit reader) h in
    (reader1, e, line_from-IsSteady limit [] reader steady e, f)

-- A line of digits is read off whatever pieces it arrives in, and only it.
pub framing_line-line :
    (limit : ℕ) (text rest : Bytes) (reader : Reader)
    → IsSteady reader
    → flat reader ≡ text ++ (crlf ++ rest)
    → all is_ascii_hexdigit text ≡ true
    → length text + 2 ≤ limit
    → (reader1 : Reader) × (framing_line limit reader ≡ ok (text ++ crlf, reader1))
      × IsSteady reader1
      × (flat reader1 ≡ rest)
framing_line-line limit text rest reader steady e h fits =
    framing_line-rest limit (text ++ crlf) rest reader steady (
      line_from-refines limit [] reader steady (omega arith)
      ∙ ap (line_of limit []) e
      ∙ line_of-line limit text rest h fits)
