-- ===== src/WebHttp/Body.antt =====
-- The body of a response, by its framing.
pub mod Lines
pub mod Parts
pub mod Taken
pub mod Chunked
pub mod Progress
pub mod Opened
pub mod RoundTrip
use locho.Base.{
  ℕ, zero, suc, ◌+◌, ◌-◌, ◌*◌, min, Bool, true, false, not, ◌||◌, ◌++◌, List, [], ◌∷◌, Option, none,
  some, Bytes, codes, str_eq, all, is_empty, is_ascii_hexdigit, is_ascii_digit, to_ascii_lowercase,
  ltb, length, take, drop, ◌==◌, if◌then◌else◌, Result, ok, err, ◌>>=◌, ◌>>◌, bail_if,
}
use locho.WebHttp.Reader.{
  HttpError, transport, truncated_response, response_limit, invalid_response, unsupported_trailers,
  Piece, piece, breaks, Reader, unread, framing_line, line_from,
}

abbrev pub max_body : ℕ
max_body = 8 * 1024 * 1024

abbrev pub max_head : ℕ
max_head = 64 * 1024

abbrev pub read_bytes : ℕ
read_bytes = 16 * 1024

abbrev pub max_chunk_line : ℕ
max_chunk_line = 1024

pub data Framing : Type 0 where
  empty until_end : Framing
  sized : ℕ → Framing
  chunked : ℕ → Bool → Framing

pub record Body : Type 0 where
  pub reader : Reader
  pub framing : Framing
  pub framing_bytes : ℕ
  pub trailer_limit : ℕ

abbrev pub crlf : Bytes
crlf = 13 ∷ 10 ∷ []

-- `size_line[..size_line.len() - 2]`
abbrev pub without_crlf : Bytes → Bytes
without_crlf [] = []
without_crlf (c ∷ []) = []
without_crlf (c ∷ d ∷ []) = []
without_crlf (c ∷ d ∷ e ∷ cs) = c ∷ without_crlf (d ∷ e ∷ cs)

abbrev pub hex_digit : ℕ → ℕ
hex_digit c = if is_ascii_digit c then c - 48 else to_ascii_lowercase c - 87

abbrev pub hex_from : ℕ → Bytes → ℕ
hex_from n [] = n
hex_from n (c ∷ cs) = hex_from (n * 16 + hex_digit c) cs

-- One answer of `next`: some bytes of the body, or its end.
abbrev pub Next : Type 0
Next = Result HttpError (Option Bytes × Body)

-- The framing once `count` bytes of the body are passed on.
abbrev pub advance : ℕ → Framing → Framing
advance count empty = empty
advance count until_end = until_end
advance count (sized n) = sized (n - count)
advance count (chunked remaining ending) = chunked (remaining - count) (remaining - count == 0)

abbrev pub at_end : Body → Next
at_end body = elim body.framing [
  | until_end ↦ ok (none, record body { framing = empty })
  | _ ↦ err truncated_response
]

-- The last arm of `next`, with the most that it passes on.
unfoldable pub next_bytes : ℕ → Reader → Body → Next
next_bytes most [] body = at_end body
next_bytes most (breaks e ∷ reader) body = err e
next_bytes most (piece [] ∷ reader) body = at_end body
next_bytes most (piece (c ∷ cs) ∷ reader) body =
    let count = min most (length (c ∷ cs)) in
    ok (
      some (take count (c ∷ cs)),
      record body {
        reader = unread (drop count (c ∷ cs)) reader;
        framing = advance count body.framing;
      },
    )

-- `usize_max` is that of the platform: 2^32 - 1 in a browser.
module _ (usize_max : ℕ) where
  -- `usize::from_str_radix(text, 16)` of a text of hexadecimal digits
  abbrev pub parse_size : Bytes → Result HttpError ℕ
  parse_size text =
      if is_empty text || not (all is_ascii_hexdigit text)
      then err invalid_response
      else if ltb usize_max (hex_from 0 text)
      then err invalid_response
      else ok (hex_from 0 text)

  abbrev pub end_chunk : Bool → Reader → Result HttpError Reader
  end_chunk false reader = ok reader
  end_chunk true reader = do
    (line, reader1) ← framing_line 2 reader
    bail_if (not (str_eq line crlf)) invalid_response
    ok reader1

  abbrev pub line_limit : Bool → ℕ → ℕ
  line_limit buffered framing_bytes = if buffered then max_head - framing_bytes else max_chunk_line

  -- After the size of a chunk: the end of the body, or the bytes of the chunk.
  abbrev pub open_chunk : Bool → ℕ → Body → Next
  open_chunk buffered zero body = do
    (line, reader1) ← framing_line body.trailer_limit body.reader
    bail_if (not (str_eq line crlf)) unsupported_trailers
    ok (none, record body { reader = reader1; framing = empty })
  open_chunk buffered (suc size) body =
      if buffered
      then (if ltb max_body (suc size)
          then err response_limit
          else next_bytes (min (suc size) read_bytes) body.reader
              (record body { framing = chunked (suc size) false }))
      else next_bytes (min (suc size) read_bytes) body.reader
          (record body { framing = chunked (suc size) false })

  unfoldable pub next_chunk : Bool → Bool → Body → Next
  unfolding next_bytes line_from
  next_chunk buffered ending body = do
    reader1 ← end_chunk ending body.reader
    (line, reader2) ← framing_line (line_limit buffered body.framing_bytes) reader1
    size ← parse_size (without_crlf line)
    open_chunk buffered size (record body {
      reader = reader2;
      framing_bytes = if buffered then body.framing_bytes + length line else 0;
    })

  -- `Body::next`. The loop goes round a second time only behind the size of a chunk.
  unfoldable pub next_by : Framing → Bool → Body → Next
  unfolding next_bytes next_chunk
  next_by empty buffered body = ok (none, body)
  next_by until_end buffered body = next_bytes read_bytes body.reader body
  next_by (sized zero) buffered body = ok (none, body)
  next_by (sized (suc n)) buffered body = next_bytes (min (suc n) read_bytes) body.reader body
  next_by (chunked zero ending) buffered body = next_chunk buffered ending body
  next_by (chunked (suc n) ending) buffered body =
      next_bytes (min (suc n) read_bytes) body.reader body

  unfoldable pub next : Bool → Body → Next
  unfolding next_by
  next buffered body = next_by body.framing buffered body

  -- The loop of `read`; `none` is no fuel.
  unfoldable pub read_rest : ℕ → Bytes → Body → Option (Result HttpError Bytes)
  unfolding next
  read_rest zero so_far body = none
  read_rest (suc fuel) so_far body = elim (next true body) [
    | err e ↦ some (err e)
    | ok (none, body1) ↦ some (ok so_far)
    | ok (some bytes, body1) ↦ elim (ltb (max_body - length so_far) (length bytes)) [
      | true ↦ some (err response_limit)
      | false ↦ read_rest fuel (so_far ++ bytes) body1
    ]
  ]
