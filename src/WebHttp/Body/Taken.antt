-- ===== src/WebHttp/Body/Taken.antt =====
-- The bytes of a body that one step passes on are the next ones of the stream.
use locho.Base.{
  ℕ, zero, suc, ◌≤◌, min, ◌++◌, [], ◌∷◌, some, Bytes, length, take, drop, length-append,
  length-take, take-append-drop, ◌≡◌, refl, sym, ap, ◌∙◌, arith, ok,
}
use locho.WebHttp.Reader.{piece, breaks, Reader, unread}
use locho.WebHttp.Body.{Body, advance, next_bytes}
use locho.WebHttp.Body.Lines.{flat, IsSteady, flat-unread, unread-IsSteady}

take-append-front : (n : ℕ) (p s : Bytes) → n ≤ length p → take n (p ++ s) ≡ take n p
take-append-front zero p s h = refl
take-append-front (suc n) [] s h = absurd (omega arith)
take-append-front (suc n) (c ∷ cs) s h = ap (◌∷◌ c) (take-append-front n cs s (omega arith))

drop-append-front : (n : ℕ) (p s : Bytes) → n ≤ length p → drop n (p ++ s) ≡ drop n p ++ s
drop-append-front zero p s h = refl
drop-append-front (suc n) [] s h = absurd (omega arith)
drop-append-front (suc n) (c ∷ cs) s h = drop-append-front n cs s (omega arith)

-- `next_bytes` passes on the front of `d`, and leaves the rest of it and `rest`.
pub record Taken (most : ℕ) (d rest : Bytes) (reader : Reader) (body : Body) : Type 0 where
  pub front : Bytes
  pub back : Bytes
  pub left : Reader
  pub answer :
      next_bytes most reader body
      ≡ ok
          (some front, record body { reader = left; framing = advance (length front) body.framing })
  pub parted : d ≡ front ++ back
  pub nonempty : 1 ≤ length front
  pub steady : IsSteady left
  pub remains : flat left ≡ back ++ rest

pub next_bytes-Taken :
    (most : ℕ) (d rest : Bytes) (reader : Reader) (body : Body)
    → IsSteady reader
    → flat reader ≡ d ++ rest
    → 1 ≤ most
    → most ≤ length d
    → Taken most d rest reader body
unfolding next_bytes
next_bytes-Taken most d rest [] body steady e h k =
    absurd (omega (arith, ap length e, length-append d rest))
next_bytes-Taken most d rest (breaks x ∷ reader) body steady e h k = absurd steady
next_bytes-Taken most d rest (piece [] ∷ reader) body steady e h k = absurd steady
next_bytes-Taken most d rest (piece (c ∷ cs) ∷ reader) body steady e h k =
    let p = c ∷ cs in
    let count = min most (length p) in
    record {
      front = take count p;
      back = drop count d;
      left = unread (drop count p) reader;
      answer =
          ap
            (λ n. ok (
              some (take count p),
              record body {
                reader = unread (drop count p) reader;
                framing = advance n body.framing;
              },
            ))
            (omega (arith, length-take count p));
      parted =
          sym (take-append-drop count d)
          ∙ ap (◌++ drop count d) (
              sym (take-append-front count d rest (omega arith))
              ∙ ap (take count) (sym e)
              ∙ take-append-front count p (flat reader) (omega arith));
      nonempty = omega (arith, length-take count p);
      steady = unread-IsSteady (drop count p) reader steady;
      remains =
          flat-unread (drop count p) reader
          ∙ sym (drop-append-front count p (flat reader) (omega arith))
          ∙ ap (drop count) e
          ∙ drop-append-front count d rest (omega arith);
    }
