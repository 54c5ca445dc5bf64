-- ===== src/WebHttp/Head/Reads.antt =====
-- A response in chunks is read whole, its head included.
use locho.Base.{
  ℕ, zero, suc, ◌+◌, ◌-◌, ◌≤◌, ◌<◌, Bool, true, false, ◌++◌, List, [], ◌∷◌, Option, none, some,
  Bytes, str_eq, leb, length, length-append, append_assoc, concat, All, Result, ok, err, ◌>>=◌, ◌≡◌,
  refl, sym, ap, ◌∙◌, arith,
}
use locho.WebHttp.Reader.{HttpError, response_limit, Reader, cut, ends_with_crlf, framing_line}
use locho.WebHttp.Body.{max_body, max_head, crlf, chunked, Body, read_rest}
use locho.WebHttp.Body.Lines.{
  flat, IsSteady, cut_then, cut-append, line_of, judged, line_from-refines,
}
use locho.WebHttp.Body.Parts.{framing_line-rest, judged-some}
use locho.WebHttp.Body.Opened.{not_over}
use locho.WebHttp.Body.Chunked.{Chunk, IsChunk, sent, content, framing_length}
use locho.WebHttp.Body.RoundTrip.{read_rest-sent}
use locho.WebHttp.Framed.{Fields, framed}
use locho.WebHttp.Head.{
  Parsed, Response, Lines, Answer, head_lines, answer_of, final_head, opened, head, is_too_long,
  read,
}
use locho.WebHttp.Head.Returns.{
  two_bytes, on_end, on_line, head_lines-on_line, on_code, on_answer, on_lines, final_head-on_lines,
}

-- A line with its end, that is not empty.
abbrev pub IsLine : Bytes → Type 0
IsLine line =
    (cut line ≡ some (line, [])) × (ends_with_crlf line ≡ true) × (str_eq line crlf ≡ false)

framing_line-whole :
    (limit : ℕ) (line rest : Bytes) (reader : Reader)
    → IsSteady reader
    → flat reader ≡ line ++ rest
    → cut line ≡ some (line, [])
    → ends_with_crlf line ≡ true
    → length line ≤ limit
    → (reader1 : Reader) × (framing_line limit reader ≡ ok (line, reader1))
      × IsSteady reader1
      × (flat reader1 ≡ rest)
framing_line-whole limit line rest reader steady e whole ends fits =
    framing_line-rest limit line rest reader steady (
      line_from-refines limit [] reader steady (omega arith)
      ∙ ap (line_of limit []) e
      ∙ ap (judged limit [] (line ++ rest))
          (cut-append line rest ∙ ap (λ o. cut_then o line rest) whole)
      ∙ judged-some limit line (line ++ rest) rest (not_over limit (0 + length line) (omega arith))
          ends)

-- What reading a head leaves: its text, the bytes that it took and the rest of the stream.
abbrev pub LeavesOf : Bytes → ℕ → Bytes → Option (Result HttpError Lines) → Type 0
LeavesOf text header_bytes rest result =
    (lines : Lines) × (result ≡ some (ok lines))
    × (lines.text ≡ text)
    × (lines.header_bytes ≡ header_bytes)
    × IsSteady lines.reader
    × (flat lines.reader ≡ rest)

head_lines-LeavesOf :
    (lines : List Bytes) (fuel header_bytes : ℕ) (text rest : Bytes) (reader : Reader)
    → All IsLine lines
    → IsSteady reader
    → flat reader ≡ concat lines ++ (crlf ++ rest)
    → header_bytes + length (concat lines) + 2 ≤ max_head
    → max_head - header_bytes < fuel
    → LeavesOf
        (text ++ (concat lines ++ crlf))
        (header_bytes + length (concat lines) + 2)
        rest
        (head_lines fuel header_bytes text reader)
head_lines-LeavesOf lines zero header_bytes text rest reader good steady e fits fuelled =
    absurd (omega arith)
head_lines-LeavesOf [] (suc fuel) header_bytes text rest reader good steady e fits fuelled =
    let (reader1, read, steady1, e1) =
      framing_line-whole (max_head - header_bytes) crlf rest reader steady e refl refl
        (omega arith) in
    (
      record { text = text ++ crlf; header_bytes = header_bytes + 2; reader = reader1 },
      head_lines-on_line fuel header_bytes text reader ∙ ap (on_line fuel header_bytes text) read,
      refl,
      omega arith,
      steady1,
      e1,
    )
head_lines-LeavesOf (line ∷ lines) (suc fuel) header_bytes text rest reader
      ((whole, ends, more), good) steady e fits fuelled =
    let two = two_bytes line ends in
    let size = length-append line (concat lines) in
    let (reader1, read, steady1, e1) =
      framing_line-whole (max_head - header_bytes) line (concat lines ++ (crlf ++ rest)) reader
        steady (e ∙ append_assoc line (concat lines) (crlf ++ rest)) whole ends (omega arith) in
    let (left, goes, texted, counted, steady2, e2) =
      head_lines-LeavesOf lines fuel (header_bytes + length line) (text ++ line) rest reader1 good
        steady1 e1 (omega arith) (omega arith) in
    (
      left,
      head_lines-on_line fuel header_bytes text reader
          ∙ ap (on_line fuel header_bytes text) read
          ∙ ap (on_end fuel header_bytes text line reader1) more
          ∙ goes,
      texted
          ∙ append_assoc text line (concat lines ++ crlf)
          ∙ ap (text ++◌) (sym (append_assoc line (concat lines) crlf)),
      omega (arith, counted),
      steady2,
      e2,
    )

module _ (parse : Bytes → Option Parsed) (usize_max : ℕ) (is_header_name : Bytes → Bool) where
  -- The answers of `head` and of `read`, behind what they read.
  abbrev on_final :
      Bytes
      → Option (Result HttpError (Answer × Lines))
      → Option (Result HttpError (Response × Body))
  on_final method result = elim result [
    | none ↦ none
    | some (err e) ↦ some (err e)
    | some (ok (answer, lines)) ↦ some (opened parse usize_max is_header_name method answer lines)
  ]

  abbrev on_rest :
      Response → Option (Result HttpError Bytes) → Option (Result HttpError (Response × Bytes))
  on_rest response result = elim result [
    | none ↦ none
    | some (err e) ↦ some (err e)
    | some (ok bytes) ↦ some (ok (response, bytes))
  ]

  abbrev on_head :
      ℕ → Option (Result HttpError (Response × Body)) → Option (Result HttpError (Response × Bytes))
  on_head fuel result = elim result [
    | none ↦ none
    | some (err e) ↦ some (err e)
    | some (ok (response, body)) ↦ elim (is_too_long parse usize_max is_header_name body.framing) [
      | true ↦ some (err response_limit)
      | false ↦ on_rest response (read_rest usize_max fuel [] body)
    ]
  ]

  read-on_head :
      (fuel : ℕ) (reader : Reader) (method : Bytes)
      → read parse usize_max is_header_name fuel reader method
        ≡ on_head fuel (on_final method (final_head parse 9 0 0 reader))
  unfolding read head
  read-on_head fuel reader method = refl

  final_head-at_once :
      (lines : List Bytes) (rest : Bytes) (reader : Reader) (answer : Answer)
      → All IsLine lines
      → length (concat lines) + 2 ≤ max_head
      → answer_of parse 0 (concat lines ++ crlf) ≡ ok answer
      → leb 200 answer.code ≡ true
      → IsSteady reader
      → flat reader ≡ concat lines ++ (crlf ++ rest)
      → (left : Lines) × (final_head parse 9 0 0 reader ≡ some (ok (answer, left)))
        × (left.header_bytes ≡ length (concat lines) + 2)
        × IsSteady left.reader
        × (flat left.reader ≡ rest)
  final_head-at_once lines rest reader answer good fits parsed final steady e =
      let (left, goes, texted, counted, steady1, e1) =
        head_lines-LeavesOf lines (suc max_head) 0 [] rest reader good steady e (omega arith)
          (omega arith) in
      (
        left,
        final_head-on_lines parse 8 0 0 reader
            ∙ ap (on_lines parse 8 0) goes
            ∙ ap (λ text. on_answer parse 8 left (answer_of parse 0 text)) texted
            ∙ ap (on_answer parse 8 left) parsed
            ∙ ap (on_code parse 8 left answer) final,
        omega (arith, counted),
        steady1,
        e1,
      )

  -- A response whose fields say that its body is in chunks is read whole: the head up to its empty
  -- line, and the contents of the chunks, however the bytes are cut into pieces, and whatever
  -- follows the body. Its first head is a final one that is accepted; head, framing and body are
  -- within their limits, with room for the two bytes behind the last chunk; the sizes are
  -- hexadecimal digits, of chunks that are not empty; no read fails, and no piece is empty; and the
  -- platform's sizes reach the limit of a body. The fuel is one more than the bytes of the body.
  pub read-sent :
      max_body ≤ usize_max
      → (method : Bytes) (lines : List Bytes) (chunks : List Chunk) (tail : Bytes) (reader : Reader)
        (answer : Answer) (passed : Fields)
      → All IsLine lines
      → length (concat lines) + 4 ≤ max_head
      → answer_of parse 0 (concat lines ++ crlf) ≡ ok answer
      → leb 200 answer.code ≡ true
      → framed usize_max is_header_name method answer.code answer.fields
        ≡ ok (chunked 0 false, passed)
      → All IsChunk chunks
      → framing_length chunks ≤ max_head
      → length (content chunks) ≤ max_body
      → IsSteady reader
      → flat reader ≡ concat lines ++ (crlf ++ (sent chunks ++ tail))
      → read parse usize_max is_header_name (suc (length (content chunks))) reader method
        ≡ some (ok (record { status = answer.code; headers = passed }, content chunks))
  read-sent enough method lines chunks tail reader answer passed good fits parsed final frame well
        framing small steady e =
      let fuel = suc (length (content chunks)) in
      let (left, goes, counted, steady1, e1) =
        final_head-at_once lines (sent chunks ++ tail) reader answer good (omega arith) parsed final
          steady e in
      let response : Response = record { status = answer.code; headers = passed } in
      read-on_head fuel reader method
      ∙ ap (λ r. on_head fuel (on_final method r)) goes
      ∙ ap
          (λ r. on_head fuel (
            some (
              r >>= λ (framing, passed). ok (
                record { status = answer.code; headers = passed },
                record {
                  reader = left.reader;
                  framing = framing;
                  framing_bytes = 0;
                  trailer_limit = max_head - left.header_bytes;
                },
              ))))
          frame
      ∙ ap (on_rest response) (
          read_rest-sent usize_max enough chunks tail left.reader 0 (max_head - left.header_bytes)
            well (omega arith) small (omega arith) steady1 e1)
