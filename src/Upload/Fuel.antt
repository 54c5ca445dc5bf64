-- ===== src/Upload/Fuel.antt =====
-- The fuel of the host's loop over chunks is enough, whatever arrives.
use locho.Base.{
  if◌then◌else◌, ℕ, zero, suc, ◌+◌, ◌≤◌, ◌<◌, [], Option, none, some, Bytes, ◌≡◌, ◌≢◌, arith, ltb,
  ◌==◌, length, length-drop, Bool-cases, Option-cases, Result-cases, inl, inr, Result, ok, err,
  ◌>>=◌, >>=-eq-ok, bail_if-then, ok_or,
}
use locho.Wire.{
  WireError, read_exact, read_body_chunk, from_be_bytes, max_body_len, body_chunk_len,
  read_chunk_length, read_chunk, chunk_exceeds_limit,
}
use locho.Upload.{no_fuel, wire, receive_limit, Received, receive_chunked, receive_body}

read_exact-shrinks :
    (n : ℕ) (reader : Bytes) {xs rest : Bytes}
    → read_exact n reader ≡ some (xs, rest)
    → n + length rest ≡ length reader
unfolding read_exact
read_exact-shrinks n reader {xs} {rest} h = ground (arith, length-drop n reader)

abbrev Stops : Received → Type 0
Stops r = r.1 ≡ err no_fuel

of_ok : {A : Type 0} (o : Option A) (e : WireError) {a : A} → ok_or o e ≡ ok a → o ≡ some a
of_ok none e h = absurd (ground arith)
of_ok (some a) e h = ground arith

abbrev Yields : Result WireError (Option Bytes × Bytes) → Bytes → Bytes → Type 0
Yields r piece rest = r ≡ ok (some piece, rest)

Yields-none : (reader piece rest : Bytes) → Yields (ok (none, reader)) piece rest → ⊥
Yields-none reader piece rest h = ground arith

Yields-err : (e : WireError) (piece rest : Bytes) → Yields (err e) piece rest → ⊥
Yields-err e piece rest h = ground arith

Yields-some :
    (xs r piece rest : Bytes) → Yields (ok (some xs, r)) piece rest → length r ≡ length rest
Yields-some xs r piece rest h = ground arith

body-shrinks :
    (len : ℕ) (reader piece rest : Bytes)
    → Yields
        (if len == 0
          then ok (none, reader)
          else (ok_or (read_exact len reader) read_chunk >>= λ x. ok (some x.0, x.1)))
        piece
        rest
    → length rest ≤ length reader
body-shrinks len reader piece rest h = elim (Bool-cases (len == 0)) [
  | inl end ↦ absurd (Yields-none reader piece rest (rw end at h))
  | inr more ↦ elim (Option-cases (read_exact len reader)) [
    | inl short ↦ absurd (Yields-err read_chunk piece rest (rw (more, short) at h))
    | inr ((xs, r), full) ↦ omega (
      arith,
      read_exact-shrinks len reader full,
      Yields-some xs r piece rest (rw (more, full) at h),
    )
  ]
]

read_body_chunk-shrinks :
    (reader : Bytes) {piece rest : Bytes}
    → read_body_chunk reader ≡ ok (some piece, rest)
    → length rest < length reader
unfolding read_body_chunk
read_body_chunk-shrinks reader {piece} {rest} h =
    let ((prefix, reader1), e, h1) =
      >>=-eq-ok (ok_or (read_exact 4 reader) read_chunk_length) _ h in
    let (_, h2) = bail_if-then (ltb body_chunk_len (from_be_bytes prefix)) chunk_exceeds_limit h1 in
    omega (
      arith,
      read_exact-shrinks 4 reader (of_ok (read_exact 4 reader) read_chunk_length e),
      body-shrinks (from_be_bytes prefix) reader1 piece rest h2,
    )

enough_fuel :
    (fuel total : ℕ) (reader : Bytes)
    → length reader < fuel
    → (receive_chunked fuel total reader).1 ≢ err no_fuel
unfolding receive_chunked
enough_fuel zero total reader enough h = absurd (omega arith)
enough_fuel (suc fuel) total reader enough h = elim (Result-cases (read_body_chunk reader)) [
  | inr (e, failed) ↦ absurd (is_wire e (rw (failed, receive_chunked) at h))
  | inl ((none, rest), end) ↦ absurd (is_ok_end rest (rw (end, receive_chunked) at h))
  | inl ((some piece, rest), more) ↦ elim (Bool-cases (ltb max_body_len (total + length piece))) [
    | inl over ↦ absurd (is_limit (rw (more, over, receive_chunked) at h))
    | inr fits ↦ absurd (
        enough_fuel fuel (total + length piece) rest
          (omega (arith, read_body_chunk-shrinks reader more))
          (rw (more, fits, receive_chunked) at h))
  ]
]
  where
    is_wire : (e : WireError) → Stops ([], err (wire e)) → ⊥
    is_wire e h = ground arith

    is_ok_end : (rest : Bytes) → Stops ([], ok rest) → ⊥
    is_ok_end rest h = ground arith

    is_limit : Stops ([], err receive_limit) → ⊥
    is_limit h = ground arith

-- Reading a body of unknown length always comes to an end of its own, never for want of fuel.
pub receive_body_ends : (reader : Bytes) → (receive_body none reader).1 ≢ err no_fuel
unfolding receive_body
receive_body_ends reader = enough_fuel (suc (length reader)) 0 reader (omega arith)
