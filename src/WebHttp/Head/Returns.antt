-- ===== src/WebHttp/Head/Returns.antt =====
-- The loops of `head` end: the bytes that a head may take bound its lines.
use locho.Base.{
  ℕ, zero, suc, ◌+◌, ◌-◌, ◌≤◌, ◌<◌, Bool, true, false, ◌++◌, [], ◌∷◌, Option, none, some, Bytes,
  str_eq, leb, ltb, length, length-append, Result, ok, err, Result-cases, ◌≡◌, refl, sym, ap, subst,
  ◌∙◌, inl, inr, arith, Bool-cases,
}
use locho.WebHttp.Reader.{
  HttpError, invalid_response, response_limit, piece, breaks, Reader, cut, ends_with_crlf,
  line_from, framing_line,
}
use locho.WebHttp.Body.{max_head, crlf}
use locho.WebHttp.Body.Lines.{Cut, step, line_from-step}
use locho.WebHttp.Head.{Parsed, Lines, Answer, head_lines, answer_of, frames, final_head}

pub two_bytes : (line : Bytes) → ends_with_crlf line ≡ true → 2 ≤ length line
two_bytes [] h = absurd (ground arith)
two_bytes (c ∷ []) h = absurd (ground arith)
two_bytes (c ∷ d ∷ cs) h = omega arith

step-bounds :
    (limit : ℕ) (out p : Bytes) (reader : Reader) (o : Cut) {line : Bytes} {reader1 : Reader}
    → ((out1 : Bytes)
        → line_from limit out1 reader ≡ ok (line, reader1)
        → (2 ≤ length line) × (length line ≤ limit))
    → step limit out p reader o ≡ ok (line, reader1)
    → (2 ≤ length line) × (length line ≤ limit)
step-bounds limit out p reader none ih e = elim (Bool-cases (ltb limit (length out + length p))) [
  | inl b ↦ absurd (ground arith)
  | inr b ↦ ih (out ++ p) (ground arith)
]
step-bounds limit out p reader (some (end, rest)) {line = line} ih e =
    elim (Bool-cases (ltb limit (length out + length end))) [
      | inl b ↦ absurd (ground arith)
      | inr b ↦ elim (Bool-cases (ends_with_crlf (out ++ end))) [
        | inl t ↦
            subst (λ l. (2 ≤ length l) × (length l ≤ limit)) {x = out ++ end} {y = line}
              (ground arith) (two_bytes (out ++ end) t, rw (length-append out end) (ground arith))
        | inr t ↦ absurd (ground arith)
      ]
    ]

line_from-bounds :
    (limit : ℕ) (out : Bytes) (reader : Reader) {line : Bytes} {reader1 : Reader}
    → line_from limit out reader ≡ ok (line, reader1)
    → (2 ≤ length line) × (length line ≤ limit)
unfolding line_from
line_from-bounds limit out [] e = absurd (ground arith)
line_from-bounds limit out (breaks x ∷ reader) e = absurd (ground arith)
line_from-bounds limit out (piece [] ∷ reader) e = absurd (ground arith)
line_from-bounds limit out (piece (c ∷ cs) ∷ reader) e =
    step-bounds limit out (c ∷ cs) reader (cut (c ∷ cs))
      (λ out1. line_from-bounds limit out1 reader) (sym (line_from-step limit out c cs reader) ∙ e)

-- The result of reading lines: an error, or lines within the limit.
abbrev pub Bounded : Result HttpError Lines → Type 0
Bounded (err e) = Unit
Bounded (ok lines) = lines.header_bytes ≤ max_head

abbrev pub Lined : Option (Result HttpError Lines) → Type 0
Lined result = (r : Result HttpError Lines) × (result ≡ some r) × Bounded r

abbrev pub on_end : ℕ → ℕ → Bytes → Bytes → Reader → Bool → Option (Result HttpError Lines)
on_end fuel header_bytes text next reader1 ends = elim ends [
  | true ↦ some (
      ok (record {
        text = text ++ next;
        header_bytes = header_bytes + length next;
        reader = reader1;
      }))
  | false ↦ head_lines fuel (header_bytes + length next) (text ++ next) reader1
]

-- The body of the loop, on the line that was read.
abbrev pub on_line :
    ℕ → ℕ → Bytes → Result HttpError (Bytes × Reader) → Option (Result HttpError Lines)
on_line fuel header_bytes text answer = elim answer [
  | err e ↦ some (err e)
  | ok (next, reader1) ↦ on_end fuel header_bytes text next reader1 (str_eq next crlf)
]

pub head_lines-on_line :
    (fuel header_bytes : ℕ) (text : Bytes) (reader : Reader)
    → head_lines (suc fuel) header_bytes text reader
      ≡ on_line fuel header_bytes text (framing_line (max_head - header_bytes) reader)
unfolding head_lines
head_lines-on_line fuel header_bytes text reader = refl

Lined-subst :
    {result result1 : Option (Result HttpError Lines)}
    → result ≡ result1
    → Lined result1
    → Lined result
Lined-subst h (r, e, bounded) = (r, h ∙ e, bounded)

head_lines-returns :
    (fuel header_bytes : ℕ) (text : Bytes) (reader : Reader)
    → header_bytes ≤ max_head
    → max_head - header_bytes < fuel
    → Lined (head_lines fuel header_bytes text reader)
head_lines-returns zero header_bytes text reader h k = absurd (omega arith)
head_lines-returns (suc fuel) header_bytes text reader h k =
    Lined-subst (head_lines-on_line fuel header_bytes text reader)
      (elim (Result-cases (framing_line (max_head - header_bytes) reader)) [
        | inr (e, failed) ↦ (err e, ap (on_line fuel header_bytes text) failed, tt)
        | inl ((next, reader1), read) ↦
            let (two, fits) = line_from-bounds (max_head - header_bytes) [] reader read in
            Lined-subst (ap (on_line fuel header_bytes text) read)
              (elim (Bool-cases (str_eq next crlf)) [
                | inl b ↦
                    Lined-subst (ap (on_end fuel header_bytes text next reader1) b)
                      (_, refl, omega (arith, fits))
                | inr b ↦ Lined-subst (ap (on_end fuel header_bytes text next reader1) b) (
                    head_lines-returns fuel (header_bytes + length next) (text ++ next) reader1
                      (omega (arith, fits)) (omega (arith, two, fits)))
              ])
      ])

-- An error, or a final answer whose head is within the limit.
abbrev pub Settled : Result HttpError (Answer × Lines) → Type 0
Settled (err e) = Unit
Settled (ok (answer, lines)) = lines.header_bytes ≤ max_head

abbrev pub Finished : Option (Result HttpError (Answer × Lines)) → Type 0
Finished result = (r : Result HttpError (Answer × Lines)) × (result ≡ some r) × Settled r

Finished-subst :
    {result result1 : Option (Result HttpError (Answer × Lines))}
    → result ≡ result1
    → Finished result1
    → Finished result
Finished-subst h (r, e, settled) = (r, h ∙ e, settled)

module _ (parse : Bytes → Option Parsed) where
  abbrev pub on_frames : ℕ → Lines → Answer → Bool → Option (Result HttpError (Answer × Lines))
  on_frames heads lines answer framed = elim framed [
    | true ↦ some (err invalid_response)
    | false ↦ final_head parse heads lines.header_bytes answer.field_count lines.reader
  ]

  abbrev pub on_code : ℕ → Lines → Answer → Bool → Option (Result HttpError (Answer × Lines))
  on_code heads lines answer final = elim final [
    | true ↦ some (ok (answer, lines))
    | false ↦ on_frames heads lines answer (frames answer.fields)
  ]

  abbrev pub on_answer :
      ℕ → Lines → Result HttpError Answer → Option (Result HttpError (Answer × Lines))
  on_answer heads lines result = elim result [
    | err e ↦ some (err e)
    | ok answer ↦ on_code heads lines answer (leb 200 answer.code)
  ]

  abbrev pub on_lines :
      ℕ → ℕ → Option (Result HttpError Lines) → Option (Result HttpError (Answer × Lines))
  on_lines heads field_count result = elim result [
    | none ↦ none
    | some (err e) ↦ some (err e)
    | some (ok lines) ↦ on_answer heads lines (answer_of parse field_count lines.text)
  ]

  pub final_head-on_lines :
      (heads header_bytes field_count : ℕ) (reader : Reader)
      → final_head parse (suc heads) header_bytes field_count reader
        ≡ on_lines heads field_count
            (head_lines (suc (max_head - header_bytes)) header_bytes [] reader)
  unfolding final_head
  final_head-on_lines heads header_bytes field_count reader = refl

  on_lines-Finished :
      (heads field_count : ℕ) (r : Result HttpError Lines)
      → Bounded r
      → ((header_bytes field_count1 : ℕ) (reader : Reader)
          → header_bytes ≤ max_head
          → Finished (final_head parse heads header_bytes field_count1 reader))
      → Finished (on_lines heads field_count (some r))
  on_lines-Finished heads field_count (err e) bounded ih = (err e, refl, tt)
  on_lines-Finished heads field_count (ok lines) bounded ih =
      elim (Result-cases (answer_of parse field_count lines.text)) [
        | inr (e, failed) ↦ (err e, ap (on_answer heads lines) failed, tt)
        | inl (answer, parsed) ↦
            Finished-subst (ap (on_answer heads lines) parsed)
              (elim (Bool-cases (leb 200 answer.code)) [
                | inl b ↦ (ok (answer, lines), ap (on_code heads lines answer) b, bounded)
                | inr b ↦
                    Finished-subst (ap (on_code heads lines answer) b)
                      (elim (Bool-cases (frames answer.fields)) [
                        | inl c ↦ (err invalid_response, ap (on_frames heads lines answer) c, tt)
                        | inr c ↦
                            Finished-subst (ap (on_frames heads lines answer) c)
                              (ih lines.header_bytes answer.field_count lines.reader bounded)
                      ])
              ])
      ]

  -- Reading the heads of a response comes to an end, with an error or with a final answer, however
  -- many lines and interim answers are sent and however they arrive; all of what was read then
  -- fits in 64 KiB, interim answers included, where what was read before does.
  pub final_head-Finished :
      (heads header_bytes field_count : ℕ) (reader : Reader)
      → header_bytes ≤ max_head
      → Finished (final_head parse heads header_bytes field_count reader)
  unfolding final_head
  final_head-Finished zero header_bytes field_count reader h = (err response_limit, refl, tt)
  final_head-Finished (suc heads) header_bytes field_count reader h =
      let (r, e, bounded) =
        head_lines-returns (suc (max_head - header_bytes)) header_bytes [] reader h (omega arith) in
      Finished-subst
        (final_head-on_lines heads header_bytes field_count reader
          ∙ ap (on_lines heads field_count) e)
        (on_lines-Finished heads field_count r bounded (final_head-Finished heads))
