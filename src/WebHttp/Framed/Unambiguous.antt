-- ===== src/WebHttp/Framed/Unambiguous.antt =====
-- The framing that is chosen is the one that every field of the response agrees to.
use locho.Base.{
  ok-injective, ℕ, Bool, true, false, ◌&&◌, List, [], ◌∷◌, Option, none, some, Bytes, codes,
  lowercase, str_eq, is_some, ok, >>=-eq-ok, checks, checks_sound, All, ◌≡◌, refl, ap, subst, ◌∙◌,
  arith,
}
use locho.WebHttp.Body.{Framing, empty, until_end, sized, chunked}
use locho.WebHttp.Framed.{
  Fields, Found, declared, add_fields, nothing_found, framing_checks, chosen, is_bodiless, framed,
}
use locho.WebHttp.Framed.Told.{is_length, is_encoding, not_both, Tells, add_fields_lem}

module _ (usize_max : ℕ) (is_header_name : Bytes → Bool) where
  -- What the fields say of a body: its length, that it is in chunks, or neither.
  abbrev pub Agrees : Framing → Bytes × Bytes → Type 0
  Agrees empty (name, value) = Unit
  Agrees until_end (name, value) = (is_length name ≡ false) × (is_encoding name ≡ false)
  Agrees (sized n) (name, value) =
      (is_length name ≡ true → declared usize_max is_header_name value ≡ ok n)
      × (is_encoding name ≡ false)
  Agrees (chunked remaining ending) (name, value) =
      (is_length name ≡ false)
      × (is_encoding name ≡ true → str_eq (lowercase value) (codes "chunked") ≡ true)

  false_where : {b : Bool} → (b ≡ true → ⊥) → b ≡ false
  false_where {b = true} h = absurd (h refl)
  false_where {b = false} h = refl

  Tells-Agrees :
      (bodiless is_chunked : Bool) (length : Option ℕ) (names : List Bytes) (entry : Bytes × Bytes)
      → (is_chunked && is_some length) ≡ false
      → Tells usize_max is_header_name
          (record { length = length; is_chunked = is_chunked; connection_fields = names })
          entry
      → Agrees (chosen usize_max is_header_name bodiless is_chunked length) entry
  Tells-Agrees true is_chunked length names (name, value) h told = tt
  Tells-Agrees false true none names (name, value) h (told, told1) =
      (false_where (λ l. let (n, e, e1) = told l in absurd (ground (arith, e1))), λ t. (told1 t).0)
  Tells-Agrees false true (some n) names (name, value) h (told, told1) = absurd (ground arith)
  Tells-Agrees false false (some n) names (name, value) h (told, told1) = (
    λ l. let (m, e, e1) = told l in e ∙ ground arith,
    false_where (λ t. not_both refl (told1 t).1),
  )
  Tells-Agrees false false none names (name, value) h (told, told1) = (
    false_where (λ l. let (n, e, e1) = told l in absurd (ground (arith, e1))),
    false_where (λ t. not_both refl (told1 t).1),
  )

  Tells-Agrees-All :
      (bodiless : Bool) (found : Found) (fields : Fields)
      → (found.is_chunked && is_some found.length) ≡ false
      → All (Tells usize_max is_header_name found) fields
      → All (Agrees (chosen usize_max is_header_name bodiless found.is_chunked found.length)) fields
  Tells-Agrees-All bodiless found [] h told = tt
  Tells-Agrees-All bodiless found (entry ∷ fields) h (told, rest) = (
    Tells-Agrees bodiless found.is_chunked found.length found.connection_fields entry h told,
    Tells-Agrees-All bodiless found fields h rest,
  )

  -- A response that is accepted is framed in one way only: where its body has a length, every
  -- `Content-Length` is that number and there is no `Transfer-Encoding`; where it is in chunks,
  -- every `Transfer-Encoding` is `chunked` and there is no `Content-Length`; where it goes on to
  -- the end of the stream, there is neither.
  pub framed-Agrees :
      (method : Bytes) (status : ℕ) (fields : Fields) {framing : Framing} {passed : Fields}
      → framed usize_max is_header_name method status fields ≡ ok (framing, passed)
      → All (Agrees framing) fields
  unfolding framed
  framed-Agrees method status fields h =
      let (found, e, h1) =
        >>=-eq-ok
          (add_fields usize_max is_header_name fields (nothing_found usize_max is_header_name)) _
          h in
      let (u, checked, h2) =
        >>=-eq-ok (checks (framing_checks usize_max is_header_name status found)) _ h1 in
      let sound = checks_sound (framing_checks usize_max is_header_name status found) checked in
      let (told, keeps) =
        add_fields_lem usize_max is_header_name fields (nothing_found usize_max is_header_name) e in
      subst (λ framing. All (Agrees framing) fields) (ap (λ p. p.0) (ok-injective h2))
        (Tells-Agrees-All (is_bodiless usize_max is_header_name method status) found fields sound.0
          told)
