-- ===== src/WebHttp/Body/Chunked.antt =====
-- Reading a chunked body gives the chunks, however the bytes arrive.
use locho.Base.{
  ℕ, ◌+◌, ◌≤◌, Bool, true, false, ◌++◌, List, [], ◌∷◌, Bytes, length, is_empty, all,
  is_ascii_hexdigit, All, ◌≡◌, ◌⊎◌, if◌then◌else◌,
}
use locho.WebHttp.Body.{max_body, max_head, crlf, hex_from, chunked, Body}
use locho.WebHttp.Body.Lines.{flat, IsSteady}

-- A chunk, with the digits that its size is written in.
pub record Chunk : Type 0 where
  pub digits : Bytes
  pub bytes : Bytes

abbrev pub IsChunk : Chunk → Type 0
IsChunk chunk =
    (is_empty chunk.digits ≡ false)
    × (all is_ascii_hexdigit chunk.digits ≡ true)
    × (hex_from 0 chunk.digits ≡ length chunk.bytes)
    × (1 ≤ length chunk.bytes)

-- The chunks as they are sent, with the last chunk.
abbrev pub sent : List Chunk → Bytes
sent [] = 48 ∷ crlf ++ crlf
sent (chunk ∷ chunks) = chunk.digits ++ (crlf ++ (chunk.bytes ++ (crlf ++ sent chunks)))

abbrev pub content : List Chunk → Bytes
content [] = []
content (chunk ∷ chunks) = chunk.bytes ++ content chunks

-- The bytes of the lines that frame the chunks.
abbrev pub framing_length : List Chunk → ℕ
framing_length [] = 3
framing_length (chunk ∷ chunks) = length chunk.digits + 2 + framing_length chunks

-- The limits that a body is read under.
pub record Fits (chunks : List Chunk) (body : Body) : Type 0 where
  pub well_formed : All IsChunk chunks
  pub framing_fits : body.framing_bytes + framing_length chunks ≤ max_head
  pub body_fits : length (content chunks) ≤ max_body
  pub trailer_fits : 2 ≤ body.trailer_limit
  pub steady : IsSteady body.reader

-- In front of a chunk; the one before it is still to be ended where `ending`.
pub record Between (chunks : List Chunk) (tail : Bytes) (body : Body) : Type 0 where
  pub ending : Bool
  pub at : body.framing ≡ chunked 0 ending
  pub fits : Fits chunks body
  pub ahead : flat body.reader ≡ (if ending then crlf else []) ++ (sent chunks ++ tail)

-- Inside a chunk, of which `rest` is still to be read.
pub record Inside (rest : Bytes) (chunks : List Chunk) (tail : Bytes) (body : Body) : Type 0 where
  pub ending : Bool
  pub at : body.framing ≡ chunked (length rest) ending
  pub nonempty : 1 ≤ length rest
  pub fits : Fits chunks body
  pub ahead : flat body.reader ≡ rest ++ (crlf ++ (sent chunks ++ tail))

abbrev pub Ahead : Bytes → Bytes → Body → Type 0
Ahead expected tail body =
    ((chunks : List Chunk) × (expected ≡ content chunks) × Between chunks tail body)
    ⊎ ((rest : Bytes) × (chunks : List Chunk) × (expected ≡ rest ++ content chunks)
        × Inside rest chunks tail body)
