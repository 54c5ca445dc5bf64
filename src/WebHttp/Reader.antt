-- ===== src/WebHttp/Reader.antt =====
-- A buffered reader, and the lines of a message. `fill_buf` shows what has arrived, piece by piece;
-- an empty piece, or no more pieces, is the end of the stream.
use locho.Base.{
  ℕ, ◌+◌, Bool, false, ◌++◌, List, [], ◌∷◌, Option, none, some, Bytes, ltb, length, ◌==◌,
  if◌then◌else◌, Result, ok, err,
}

pub data HttpError : Type 0 where
  transport idle_timeout truncated_response response_limit invalid_response : HttpError
  unsupported_response unsupported_framing unsupported_encoding unsupported_trailers : HttpError
  invalid_timeout invalid_method invalid_body invalid_path invalid_authority : HttpError
  invalid_header request_limit : HttpError

pub data Piece : Type 0 where
  piece : Bytes → Piece
  breaks : HttpError → Piece

abbrev pub Reader : Type 0
Reader = List Piece

-- `consume` of a part of the piece that is shown.
abbrev pub unread : Bytes → Reader → Reader
unread [] reader = reader
unread (c ∷ rest) reader = piece (c ∷ rest) ∷ reader

-- The bytes up to and with the first newline, and those behind it.
abbrev pub cut : Bytes → Option (Bytes × Bytes)
cut [] = none
cut (c ∷ cs) =
    if c == 10
    then some (c ∷ [], cs)
    else elim (cut cs) [ none ↦ none | some (line, rest) ↦ some (c ∷ line, rest) ]

abbrev pub ends_with_crlf : Bytes → Bool
ends_with_crlf [] = false
ends_with_crlf (c ∷ []) = false
ends_with_crlf (c ∷ d ∷ []) = if c == 13 then d == 10 else false
ends_with_crlf (c ∷ d ∷ e ∷ cs) = ends_with_crlf (d ∷ e ∷ cs)

abbrev pub whole_line : Bytes → Reader → Result HttpError (Bytes × Reader)
whole_line out reader = if ends_with_crlf out then ok (out, reader) else err invalid_response

-- The loop of `line` and of `framing_line`; `out` is what has been read of the line.
unfoldable pub line_from : ℕ → Bytes → Reader → Result HttpError (Bytes × Reader)
line_from limit out [] = err truncated_response
line_from limit out (breaks e ∷ reader) = err e
line_from limit out (piece [] ∷ reader) = err truncated_response
line_from limit out (piece (c ∷ cs) ∷ reader) = elim (cut (c ∷ cs)) [
  | some (end, rest) ↦
      if ltb limit (length out + length end)
      then err response_limit
      else whole_line (out ++ end) (unread rest reader)
  | none ↦
      if ltb limit (length out + length (c ∷ cs))
      then err response_limit
      else line_from limit (out ++ (c ∷ cs)) reader
]

abbrev pub framing_line : ℕ → Reader → Result HttpError (Bytes × Reader)
framing_line limit reader = line_from limit [] reader
