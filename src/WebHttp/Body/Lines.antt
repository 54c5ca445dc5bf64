-- ===== src/WebHttp/Body/Lines.antt =====
-- A line is read the same however the bytes arrive: reading it piece by piece refines cutting it
-- off the whole stream.
use locho.Base.{
  ℕ, ◌+◌, ◌≤◌, ◌<◌, true, false, ◌++◌, [], ◌∷◌, Option, none, some, Bytes, ltb, ◌==◌, length,
  length-append, append_assoc, ◌≡◌, refl, sym, ap, ◌∙◌, inl, inr, arith, Bool-cases, Option-cases,
  if◌then◌else◌, Result, ok, err,
}
use locho.WebHttp.Reader.{
  HttpError, truncated_response, response_limit, invalid_response, piece, breaks, Reader, unread,
  cut, ends_with_crlf, whole_line, line_from,
}

-- The bytes that still arrive, of a stream that does not break.
abbrev pub flat : Reader → Bytes
flat [] = []
flat (piece p ∷ reader) = p ++ flat reader
flat (breaks e ∷ reader) = []

-- No piece is empty, and nothing breaks.
abbrev pub IsSteady : Reader → Type 0
IsSteady [] = Unit
IsSteady (piece [] ∷ reader) = ⊥
IsSteady (piece (c ∷ cs) ∷ reader) = IsSteady reader
IsSteady (breaks e ∷ reader) = ⊥

pub flat-unread : (rest : Bytes) (reader : Reader) → flat (unread rest reader) ≡ rest ++ flat reader
flat-unread [] reader = refl
flat-unread (c ∷ cs) reader = refl

pub unread-IsSteady :
    (rest : Bytes) (reader : Reader) → IsSteady reader → IsSteady (unread rest reader)
unread-IsSteady [] reader h = h
unread-IsSteady (c ∷ cs) reader h = h

abbrev pub Cut : Type 0
Cut = Option (Bytes × Bytes)

-- Cutting behind a text without a newline.
abbrev behind : Bytes → Cut → Cut
behind p none = none
behind p (some (line, rest)) = some (p ++ line, rest)

abbrev pub cut_then : Cut → Bytes → Bytes → Cut
cut_then none p s = behind p (cut s)
cut_then (some (line, rest)) p s = some (line, rest ++ s)

behind-behind : (c : ℕ) (cs : Bytes) (o : Cut) → behind (c ∷ cs) o ≡ behind (c ∷ []) (behind cs o)
behind-behind c cs none = refl
behind-behind c cs (some (line, rest)) = refl

cut-stop : (c : ℕ) (cs : Bytes) → (c == 10) ≡ true → cut (c ∷ cs) ≡ some (c ∷ [], cs)
cut-stop c cs h = ground arith

cut-skip : (c : ℕ) (cs : Bytes) → (c == 10) ≡ false → cut (c ∷ cs) ≡ behind (c ∷ []) (cut cs)
cut-skip c cs h = elim (Option-cases (cut cs)) [
  | inl n ↦ ground arith
  | inr ((line, rest), e) ↦ ground arith
]

cut_then-behind :
    (c : ℕ) (o : Cut) (p s : Bytes)
    → behind (c ∷ []) (cut_then o p s) ≡ cut_then (behind (c ∷ []) o) (c ∷ p) s
cut_then-behind c none p s = sym (behind-behind c p (cut s))
cut_then-behind c (some (line, rest)) p s = refl

behind-nil : (o : Cut) → behind [] o ≡ o
behind-nil none = refl
behind-nil (some (line, rest)) = refl

pub cut-append : (p s : Bytes) → cut (p ++ s) ≡ cut_then (cut p) p s
cut-append [] s = sym (behind-nil (cut s))
cut-append (c ∷ cs) s = elim (Bool-cases (c == 10)) [
  | inl h ↦ cut-stop c (cs ++ s) h ∙ ap (λ o. cut_then o (c ∷ cs) s) (sym (cut-stop c cs h))
  | inr h ↦
      cut-skip c (cs ++ s) h
      ∙ ap (behind (c ∷ [])) (cut-append cs s)
      ∙ cut_then-behind c (cut cs) cs s
      ∙ ap (λ o. cut_then o (c ∷ cs) s) (sym (cut-skip c cs h))
]

-- What is made of the line that was cut off `s`, behind the bytes `out` of it.
abbrev pub judged : ℕ → Bytes → Bytes → Cut → Result HttpError (Bytes × Bytes)
judged limit out s none =
    if ltb limit (length out + length s) then err response_limit else err truncated_response
judged limit out s (some (end, rest)) =
    if ltb limit (length out + length end)
    then err response_limit
    else if ends_with_crlf (out ++ end)
    then ok (out ++ end, rest)
    else err invalid_response

-- The line of a whole stream: no pieces, no loop.
abbrev pub line_of : ℕ → Bytes → Bytes → Result HttpError (Bytes × Bytes)
line_of limit out s = judged limit out s (cut s)

abbrev pub flattened : Result HttpError (Bytes × Reader) → Result HttpError (Bytes × Bytes)
flattened (ok (line, reader)) = ok (line, flat reader)
flattened (err e) = err e

add_assoc : (a b c : ℕ) → a + (b + c) ≡ a + b + c
add_assoc a b c = omega arith

judged-behind :
    (limit : ℕ) (out p s : Bytes) (o : Cut)
    → judged limit out (p ++ s) (behind p o) ≡ judged limit (out ++ p) s o
judged-behind limit out p s none =
    rw (length-append p s, length-append out p)
      (ap (λ (n : ℕ). if ltb limit n then err response_limit else err truncated_response)
        (add_assoc (length out) (length p) (length s)))
judged-behind limit out p s (some (end, rest)) =
    rw (length-append p end, length-append out p, sym (append_assoc out p end))
      (ap
        (λ (n : ℕ).
          if ltb limit n
          then err response_limit
          else if ends_with_crlf ((out ++ p) ++ end)
          then ok ((out ++ p) ++ end, rest)
          else err invalid_response)
        (add_assoc (length out) (length p) (length end)))

judged-too_long :
    (limit : ℕ) (out s : Bytes) (o : Cut)
    → limit < length out
    → judged limit out s o ≡ err response_limit
judged-too_long limit out s none h = ground arith
judged-too_long limit out s (some (end, rest)) h = ground arith

flattened-whole_line :
    (out : Bytes) (reader : Reader)
    → flattened (whole_line out reader)
      ≡ (if ends_with_crlf out then ok (out, flat reader) else err invalid_response)
flattened-whole_line out reader = elim (Bool-cases (ends_with_crlf out)) [
  | inl h ↦ simp h
  | inr h ↦ simp h
]

-- One step of the loop, on a piece `p` and what is cut off it.
abbrev pub step : ℕ → Bytes → Bytes → Reader → Cut → Result HttpError (Bytes × Reader)
step limit out p reader none =
    if ltb limit (length out + length p)
    then err response_limit
    else line_from limit (out ++ p) reader
step limit out p reader (some (end, rest)) =
    if ltb limit (length out + length end)
    then err response_limit
    else whole_line (out ++ end) (unread rest reader)

pub line_from-step :
    (limit : ℕ) (out : Bytes) (c : ℕ) (cs : Bytes) (reader : Reader)
    → line_from limit out (piece (c ∷ cs) ∷ reader) ≡ step limit out (c ∷ cs) reader (cut (c ∷ cs))
unfolding line_from
line_from-step limit out c cs reader = elim (Option-cases (cut (c ∷ cs))) [
  | inl n ↦ ground arith
  | inr ((line, rest), e) ↦ ground arith
]

step-refines :
    (limit : ℕ) (out p : Bytes) (reader : Reader) (o : Cut)
    → ((out1 : Bytes)
        → length out1 ≤ limit
        → flattened (line_from limit out1 reader) ≡ line_of limit out1 (flat reader))
    → flattened (step limit out p reader o)
      ≡ judged limit out (p ++ flat reader) (cut_then o p (flat reader))
step-refines limit out p reader none ih = elim (Bool-cases (ltb limit (length out + length p))) [
  | inl b ↦
      ap (λ t. flattened (if t then err response_limit else line_from limit (out ++ p) reader)) b
      ∙ sym (
          judged-behind limit out p (flat reader) (cut (flat reader))
          ∙ judged-too_long limit (out ++ p) (flat reader) (cut (flat reader))
              (rw (length-append out p) (ground arith)))
  | inr b ↦
      ap (λ t. flattened (if t then err response_limit else line_from limit (out ++ p) reader)) b
      ∙ ih (out ++ p) (rw (length-append out p) (ground arith))
      ∙ sym (judged-behind limit out p (flat reader) (cut (flat reader)))
]
step-refines limit out p reader (some (end, rest)) ih =
    elim (Bool-cases (ltb limit (length out + length end))) [
      | inl b ↦ simp b
      | inr b ↦
          ap
            (λ t.
              flattened
                (if t then err response_limit else whole_line (out ++ end) (unread rest reader)))
            b
          ∙ flattened-whole_line (out ++ end) (unread rest reader)
          ∙ simp (flat-unread rest reader, b)
    ]

-- The line that is read piece by piece is the line of the whole stream, and what is left to read
-- is what is left of the stream; where there is no line, the errors are the same. No read fails and
-- no piece is empty, and what was read of the line before is within the limit.
pub line_from-refines :
    (limit : ℕ) (out : Bytes) (reader : Reader)
    → IsSteady reader
    → length out ≤ limit
    → flattened (line_from limit out reader) ≡ line_of limit out (flat reader)
unfolding line_from
line_from-refines limit out [] h fits = ground arith
line_from-refines limit out (breaks e ∷ reader) h fits = absurd h
line_from-refines limit out (piece [] ∷ reader) h fits = absurd h
line_from-refines limit out (piece (c ∷ cs) ∷ reader) h fits =
    ap flattened (line_from-step limit out c cs reader)
    ∙ step-refines limit out (c ∷ cs) reader (cut (c ∷ cs))
        (λ out1. line_from-refines limit out1 reader h)
    ∙ ap (judged limit out ((c ∷ cs) ++ flat reader)) (sym (cut-append (c ∷ cs) (flat reader)))
