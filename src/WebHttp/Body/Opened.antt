-- ===== src/WebHttp/Body/Opened.antt =====
-- Opening a chunk: what ends the one before it, the line with its size, and the size.
use locho.Base.{
  ℕ, ◌+◌, ◌-◌, ◌≤◌, Bool, true, false, ◌++◌, [], none, Bytes, ltb, length, is_empty, all,
  is_ascii_hexdigit, ◌≡◌, refl, ap, ◌∙◌, arith, if◌then◌else◌, Result, ok, ◌>>=◌,
}
use locho.WebHttp.Reader.{Reader}
use locho.WebHttp.Body.{
  max_head, crlf, without_crlf, hex_from, empty, Body, parse_size, end_chunk, open_chunk,
  next_chunk,
}
use locho.WebHttp.Body.Lines.{flat, IsSteady}
use locho.WebHttp.Body.Parts.{framing_line-line, without_crlf-line}

>>=-ok {ℓ κ μ} :
    {E : Type ℓ} {A : Type κ} {B : Type μ} {m : Result E A} {a : A} (next : A → Result E B)
    → m ≡ ok a
    → (m >>= next) ≡ next a
>>=-ok next h = ap (λ r. r >>= next) h

pub not_over : (limit n : ℕ) → n ≤ limit → ltb limit n ≡ false
not_over limit n h = ground arith

module _ (usize_max : ℕ) where
  end_chunk_lem :
      (ending : Bool) (reader : Reader) (s : Bytes)
      → IsSteady reader
      → flat reader ≡ (if ending then crlf else []) ++ s
      → (reader1 : Reader) × (end_chunk usize_max ending reader ≡ ok reader1)
        × IsSteady reader1
        × (flat reader1 ≡ s)
  end_chunk_lem false reader s steady e = (reader, refl, steady, e)
  end_chunk_lem true reader s steady e =
      let (reader1, line, steady1, e1) =
        framing_line-line 2 [] s reader steady e refl (omega arith) in
      (reader1, >>=-ok _ line, steady1, e1)

  pub parse_size_lem :
      (digits : Bytes) (n : ℕ)
      → is_empty digits ≡ false
      → all is_ascii_hexdigit digits ≡ true
      → hex_from 0 digits ≡ n
      → n ≤ usize_max
      → parse_size usize_max (without_crlf (digits ++ crlf)) ≡ ok n
  parse_size_lem digits n nonempty hex size fits =
      ap (parse_size usize_max) (without_crlf-line digits)
      ∙ simp (nonempty, hex, size, not_over usize_max n fits)

  -- The line with a size is read, and the chunk is opened behind it.
  pub next_chunk-opens :
      (ending : Bool) (body : Body) (digits s : Bytes) (n : ℕ)
      → IsSteady body.reader
      → flat body.reader ≡ (if ending then crlf else []) ++ (digits ++ (crlf ++ s))
      → is_empty digits ≡ false
      → all is_ascii_hexdigit digits ≡ true
      → hex_from 0 digits ≡ n
      → n ≤ usize_max
      → body.framing_bytes + (length digits + 2) ≤ max_head
      → (left : Reader) × (next_chunk usize_max true ending body
          ≡ open_chunk usize_max true n (record body {
            reader = left;
            framing_bytes = body.framing_bytes + length (digits ++ crlf);
          }))
        × IsSteady left
        × (flat left ≡ s)
  unfolding next_chunk
  next_chunk-opens ending body digits s n steady e nonempty hex size fits lines =
      let (reader1, ended, steady1, e1) =
        end_chunk_lem ending body.reader (digits ++ (crlf ++ s)) steady e in
      let (left, line, steady2, e2) =
        framing_line-line (max_head - body.framing_bytes) digits s reader1 steady1 e1 hex
          (omega arith) in
      (
        left,
        >>=-ok _ ended ∙ >>=-ok _ line ∙ >>=-ok _ (parse_size_lem digits n nonempty hex size fits),
        steady2,
        e2,
      )

  -- The end of the body: an empty line behind the last chunk.
  pub open_chunk-ends :
      (body : Body) (tail : Bytes)
      → IsSteady body.reader
      → flat body.reader ≡ crlf ++ tail
      → 2 ≤ body.trailer_limit
      → (left : Reader) × (open_chunk usize_max true 0 body
          ≡ ok (none, record body { reader = left; framing = empty }))
  open_chunk-ends body tail steady e fits =
      let (left, line, steady1, e1) =
        framing_line-line body.trailer_limit [] tail body.reader steady e refl (omega arith) in
      (left, >>=-ok _ line)
