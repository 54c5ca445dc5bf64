-- ===== src/WebHttp/Head.antt =====
-- Reading the head of a response. `parse` is `httparse::Response::parse` on a whole head.
pub mod Returns
pub mod Reads
use locho.Base.{
  ℕ, zero, suc, ◌+◌, ◌-◌, Bool, true, false, not, ◌||◌, ◌&&◌, ◌++◌, List, [], ◌∷◌, Option, none,
  some, Bytes, codes, lowercase, str_eq, any, leb, ltb, ◌==◌, within, length, if◌then◌else◌, Result,
  ok, err, ok_or, ◌>>=◌, ◌>>◌, bail_if,
}
use locho.Headers.{trim}
use locho.WebHttp.Reader.{
  HttpError, invalid_response, response_limit, unsupported_response, Reader, framing_line,
}
use locho.WebHttp.Body.{max_body, max_head, crlf, Framing, sized, Body, read_rest}
use locho.WebHttp.Request.{bad_value_byte, max_fields}
use locho.WebHttp.Framed.{Fields, framed}

-- `httparse::Response`, behind a parse that did not fail.
pub record Parsed : Type 0 where
  pub is_complete : Bool
  pub version : Option ℕ
  pub code : Option ℕ
  pub headers : Fields

pub record Response : Type 0 where
  pub status : ℕ
  pub headers : Fields

-- The head of one answer, with the bytes that it took and what is left to read.
pub record Lines : Type 0 where
  pub text : Bytes
  pub header_bytes : ℕ
  pub reader : Reader

-- The inner loop of `head`: lines up to an empty one. `none` is no fuel.
unfoldable pub head_lines : ℕ → ℕ → Bytes → Reader → Option (Result HttpError Lines)
head_lines zero header_bytes text reader = none
head_lines (suc fuel) header_bytes text reader =
    elim (framing_line (max_head - header_bytes) reader) [
      | err e ↦ some (err e)
      | ok (next, reader1) ↦ elim (str_eq next crlf) [
        | true ↦ some (
            ok (record {
              text = text ++ next;
              header_bytes = header_bytes + length next;
              reader = reader1;
            }))
        | false ↦ head_lines fuel (header_bytes + length next) (text ++ next) reader1
      ]
    ]

abbrev pub is_version_1 : Option ℕ → Bool
is_version_1 none = false
is_version_1 (some v) = v == 1

-- The values are visible ASCII with spaces and tabs, so they are UTF-8.
abbrev pub field_texts : Fields → Result HttpError Fields
field_texts [] = ok []
field_texts ((name, value) ∷ fields) = do
  bail_if (any bad_value_byte value) invalid_response
  rest ← field_texts fields
  ok ((lowercase name, trim value) ∷ rest)

abbrev pub frames : Fields → Bool
frames = any (λ (name, value).
    str_eq name (codes "content-length") || str_eq name (codes "transfer-encoding"))

abbrev pub count_fields : Fields → ℕ
count_fields [] = 0
count_fields (entry ∷ fields) = suc (count_fields fields)

-- One head in the loop of at most nine: its code, its fields, and how many there have been.
pub record Answer : Type 0 where
  pub code : ℕ
  pub fields : Fields
  pub field_count : ℕ

module _ (parse : Bytes → Option Parsed) where
  abbrev pub answer_of : ℕ → Bytes → Result HttpError Answer
  answer_of field_count text = do
    parsed ← ok_or (parse text) invalid_response
    bail_if (not parsed.is_complete || not (is_version_1 parsed.version)) invalid_response
    code ← ok_or parsed.code invalid_response
    bail_if (not (within 100 599 code) || code == 101) unsupported_response
    bail_if (ltb max_fields (field_count + count_fields parsed.headers)) response_limit
    fields ← field_texts parsed.headers
    ok (record {
      code = code;
      fields = fields;
      field_count = field_count + count_fields parsed.headers;
    })

  -- The loop over the interim answers, with the number of heads that may still come. The fuel of
  -- the inner loop is one more than the bytes that the head may still take.
  unfoldable pub final_head : ℕ → ℕ → ℕ → Reader → Option (Result HttpError (Answer × Lines))
  unfolding head_lines
  final_head zero header_bytes field_count reader = some (err response_limit)
  final_head (suc heads) header_bytes field_count reader =
      elim (head_lines (suc (max_head - header_bytes)) header_bytes [] reader) [
        | none ↦ none
        | some (err e) ↦ some (err e)
        | some (ok lines) ↦ elim (answer_of field_count lines.text) [
          | err e ↦ some (err e)
          | ok answer ↦ elim (leb 200 answer.code) [
            | true ↦ some (ok (answer, lines))
            | false ↦ elim (frames answer.fields) [
              | true ↦ some (err invalid_response)
              | false ↦ final_head heads lines.header_bytes answer.field_count lines.reader
            ]
          ]
        ]
      ]

  module _ (usize_max : ℕ) (is_header_name : Bytes → Bool) where
    abbrev pub opened : Bytes → Answer → Lines → Result HttpError (Response × Body)
    opened method answer lines = do
      (framing, passed) ← framed usize_max is_header_name method answer.code answer.fields
      ok (
        record { status = answer.code; headers = passed },
        record {
          reader = lines.reader;
          framing = framing;
          framing_bytes = 0;
          trailer_limit = max_head - lines.header_bytes;
        },
      )

    unfoldable pub head : Reader → Bytes → Option (Result HttpError (Response × Body))
    unfolding final_head framed
    head reader method = elim (final_head 9 0 0 reader) [
      | none ↦ none
      | some (err e) ↦ some (err e)
      | some (ok (answer, lines)) ↦ some (opened method answer lines)
    ]

    abbrev pub is_too_long : Framing → Bool
    is_too_long (sized n) = ltb max_body n
    is_too_long framing = false

    -- `read`, with the fuel of its loop.
    unfoldable pub read : ℕ → Reader → Bytes → Option (Result HttpError (Response × Bytes))
    unfolding head read_rest
    read fuel reader method = elim (head reader method) [
      | none ↦ none
      | some (err e) ↦ some (err e)
      | some (ok (response, body)) ↦ elim (is_too_long body.framing) [
        | true ↦ some (err response_limit)
        | false ↦ elim (read_rest usize_max fuel [] body) [
          | none ↦ none
          | some (err e) ↦ some (err e)
          | some (ok bytes) ↦ some (ok (response, bytes))
        ]
      ]
    ]
