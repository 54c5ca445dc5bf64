-- ===== src/Download/Declared.antt =====
-- A response of declared length: the client gets the declared bytes, or its stream ends in an error.
use locho.Base.{
  ℕ, zero, suc, ◌+◌, ◌-◌, ◌≤◌, ◌<◌, min, true, ◌++◌, List, [], ◌∷◌, none, some, Bytes, ltb, ◌==◌,
  length, take, concat, append-nil, take-length-append, Bool-cases, Option-cases, Result, ok, err,
  ◌≡◌, refl, sym, ap, subst, ◌∙◌, inl, inr, arith,
}
use locho.Wire.{max_body_len, body_chunk_len, read_exact}
use locho.Upload.{ReceiveError, Received, with_piece, receive_remaining}
use locho.Upload.Declared.{receive_declared_lem, receive_declared-remaining}
use locho.Download.{
  Upstream, send_body, DeliverError, Stream, after_yield, deliver_remaining, deliver_body, arrived,
}

-- The attaching side reads as the host does, and yields what it reads.
abbrev Ends : List Bytes → Result ReceiveError Bytes → Stream → Type 0
Ends pieces (ok rest) stream = stream ≡ (pieces, ok tt)
Ends pieces (err e) stream = (x : DeliverError) × (stream.1 ≡ err x)

abbrev Follows : Received → Stream → Type 0
Follows received = Ends received.0 received.1

Follows-with_piece :
    (piece : Bytes) (r : Received) (stream : Stream)
    → Follows r stream
    → Follows (with_piece piece r) (after_yield piece stream)
Follows-with_piece piece (pieces, ok rest) stream h = ap (after_yield piece) h
Follows-with_piece piece (pieces, err e) stream h = h

deliver_remaining-Follows :
    (fuel remaining : ℕ) (reader : Bytes)
    → Follows (receive_remaining fuel remaining reader) (deliver_remaining fuel remaining reader)
unfolding receive_remaining deliver_remaining
deliver_remaining-Follows zero remaining reader = (_, refl)
deliver_remaining-Follows (suc fuel) remaining reader = elim (Bool-cases (remaining == 0)) [
  | inl e ↦ rw (e, receive_remaining, deliver_remaining) refl
  | inr e ↦ elim (Option-cases (read_exact (min remaining body_chunk_len) reader)) [
    | inl short ↦ rw (e, short, receive_remaining, deliver_remaining) (_, refl)
    | inr ((piece, reader1), read) ↦
        rw (e, read, receive_remaining, deliver_remaining)
          (Follows-with_piece piece _ _
            (deliver_remaining-Follows fuel (remaining - min remaining body_chunk_len) reader1))
  ]
]

send_body-declared :
    (upstream : Upstream) (total : ℕ)
    → (send_body true total upstream).1 ≡ ok tt
    → (send_body true total upstream).0 ≡ concat (arrived upstream)
unfolding send_body
send_body-declared [] total h = refl
send_body-declared (none ∷ upstream) total h = absurd (ground arith)
send_body-declared (some chunk ∷ upstream) total h =
    elim (Bool-cases (ltb max_body_len (total + length chunk))) [
      | inl over ↦ absurd (ground arith)
      | inr small ↦
          rw small
            (ap (chunk ++◌) (send_body-declared upstream (total + length chunk) (ground arith)))
    ]

-- The client's stream of a response of declared length, whatever arrives: with the announced bytes
-- it yields them and ends well, and with fewer it ends in an error.
pub deliver_body_declared :
    (len : ℕ) (reader : Bytes)
    → len ≤ max_body_len
    → (len ≤ length reader
        → (pieces : List Bytes) × (deliver_body (some len) reader ≡ (pieces, ok tt))
          × (concat pieces ≡ take len reader))
      × (length reader < len → (e : DeliverError) × ((deliver_body (some len) reader).1 ≡ err e))
unfolding deliver_body
deliver_body_declared len reader fits =
    let follows = deliver_remaining-Follows (suc len) len reader in
    let same = receive_declared-remaining len reader fits in
    let all = receive_declared_lem len reader in
    (
      λ enough.
          let (pieces, read, whole) = all.2 fits enough in
          (
            pieces,
            subst (λ r. Follows r (deliver_remaining (suc len) len reader)) (sym same ∙ read)
                follows,
            whole,
          ),
      λ short.
          let (pieces, read, rest, whole) = all.1 fits short in
          subst (λ r. Follows r (deliver_remaining (suc len) len reader)) (sym same ∙ read) follows,
    )

-- A response that is sent to its end, with as many bytes as it declares and within the limit, is
-- delivered as it came from upstream.
pub deliver_body-send_body :
    (upstream : Upstream)
    → length (concat (arrived upstream)) ≤ max_body_len
    → (send_body true 0 upstream).1 ≡ ok tt
    → (pieces : List Bytes) × (deliver_body
          (some (length (concat (arrived upstream))))
          (send_body true 0 upstream).0
        ≡ (pieces, ok tt))
      × (concat pieces ≡ concat (arrived upstream))
deliver_body-send_body upstream fits sent =
    let whole = concat (arrived upstream) in
    let out = send_body-declared upstream 0 sent in
    let (pieces, delivered, same) =
      (deliver_body_declared (length whole) whole fits).0 (omega arith) in
    (
      pieces,
      ap (deliver_body (some (length whole))) out ∙ delivered,
      same ∙ sym (ap (take (length whole)) (append-nil whole)) ∙ take-length-append whole [],
    )
