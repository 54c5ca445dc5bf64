-- ===== src/WebHttp/Framed/Told.antt =====
-- What the loop over the fields of a response finds of its framing.
use locho.Base.{
  ok-injective, ℕ, Bool, true, false, not, ◌||◌, [], ◌∷◌, Option, none, some, Bytes, codes,
  lowercase, split, str_eq, str_eq_iff, ok, bail_if-then, >>=-eq-ok, All, ◌≡◌, refl, sym, ap, ◌∙◌,
  arith,
}
use locho.WebHttp.Reader.{invalid_response, unsupported_framing}
use locho.WebHttp.Framed.{
  Fields, Found, is_another, declared, nominated, add_length, add_encoding, add_connection,
  is_coded, add_by, add_field, add_fields,
}

abbrev pub is_length : Bytes → Bool
is_length name = str_eq name (codes "content-length")

abbrev pub is_encoding : Bytes → Bool
is_encoding name = str_eq name (codes "transfer-encoding")

length_apart : (name : Bytes) → is_encoding name ≡ true → is_length name ≡ false
length_apart name h = ap is_length ((str_eq_iff name (codes "transfer-encoding")).0 h)

same_length :
    (o : Option ℕ) (current n : ℕ)
    → is_another o current ≡ false
    → o ≡ some n
    → some current ≡ some n
same_length none current n h e = absurd (ground arith)
same_length (some m) current n h e = ground arith

second : (a b : Bool) → (a || not b) ≡ false → b ≡ true
second a b h = ground arith

pub not_both : {b : Bool} → b ≡ false → b ≡ true → ⊥
not_both h k = ground (arith, h, k)

module _ (usize_max : ℕ) (is_header_name : Bytes → Bool) where
  -- What a field declares was found.
  abbrev pub Tells : Found → Bytes × Bytes → Type 0
  Tells found (name, value) =
      (is_length name ≡ true
        → (n : ℕ) × (declared usize_max is_header_name value ≡ ok n) × (found.length ≡ some n))
      × (is_encoding name ≡ true
          → (str_eq (lowercase value) (codes "chunked") ≡ true) × (found.is_chunked ≡ true))

  -- What was found stays found.
  abbrev pub Keeps : Found → Found → Type 0
  Keeps found found1 =
      ((n : ℕ) → found.length ≡ some n → found1.length ≡ some n)
      × (found.is_chunked ≡ true → found1.is_chunked ≡ true)

  Tells-Keeps :
      (found found1 : Found) (entry : Bytes × Bytes)
      → Keeps found found1
      → Tells found entry
      → Tells found1 entry
  Tells-Keeps found found1 (name, value) (lengths, encodings) (told, told1) = (
    λ h. let (n, e, e1) = told h in (n, e, lengths n e1),
    λ h. let (e, e1) = told1 h in (e, encodings e1),
  )

  same-Keeps : {found found1 : Found} → found ≡ found1 → Keeps found found1
  same-Keeps e =
      (λ n told. sym (ap (λ f. f.length) e) ∙ told, λ told. sym (ap (λ f. f.is_chunked) e) ∙ told)

  add_length_lem :
      (value : Bytes) (found : Found) {found1 : Found}
      → add_length usize_max is_header_name value found ≡ ok found1
      → ((n : ℕ) × (declared usize_max is_header_name value ≡ ok n) × (found1.length ≡ some n))
        × Keeps found found1
  add_length_lem value found {found1} h =
      let (current, e, h1) = >>=-eq-ok (declared usize_max is_header_name value) _ h in
      let (same, h2) = bail_if-then (is_another found.length current) invalid_response h1 in
      let made = ok-injective h2 in
      let length = sym (ap (λ f. f.length) made) in
      (
        (current, e, length),
        (
          λ n told. length ∙ same_length found.length current n same told,
          λ told. sym (ap (λ f. f.is_chunked) made) ∙ told,
        ),
      )

  add_encoding_lem :
      (value : Bytes) (found : Found) {found1 : Found}
      → add_encoding usize_max is_header_name value found ≡ ok found1
      → (str_eq (lowercase value) (codes "chunked") ≡ true)
        × (found1.is_chunked ≡ true)
        × Keeps found found1
  add_encoding_lem value found {found1} h =
      let (fine, h1) =
        bail_if-then (found.is_chunked || not (str_eq (lowercase value) (codes "chunked")))
          unsupported_framing h in
      let made = ok-injective h1 in
      let is_chunked = sym (ap (λ f. f.is_chunked) made) in
      (
        second found.is_chunked (str_eq (lowercase value) (codes "chunked")) fine,
        is_chunked,
        ((λ n told. sym (ap (λ f. f.length) made) ∙ told), λ told. is_chunked),
      )

  add_connection_lem :
      (value : Bytes) (found : Found) {found1 : Found}
      → add_connection usize_max is_header_name value found ≡ ok found1
      → Keeps found found1
  add_connection_lem value found {found1} h =
      let (names, e, h1) =
        >>=-eq-ok (nominated usize_max is_header_name (split 44 value) found.connection_fields) _
          h in
      let made = ok-injective h1 in
      (
        λ n told. sym (ap (λ f. f.length) made) ∙ told,
        λ told. sym (ap (λ f. f.is_chunked) made) ∙ told,
      )

  -- What one round tells, by which kind of field it meets.
  add_by_lem :
      (l t c d : Bool) (value : Bytes) (found : Found) {found1 : Found}
      → add_by usize_max is_header_name l t c d value found ≡ ok found1
      → (l ≡ true
          → (n : ℕ) × (declared usize_max is_header_name value ≡ ok n) × (found1.length ≡ some n))
        × (l ≡ false
            → t ≡ true
            → (str_eq (lowercase value) (codes "chunked") ≡ true) × (found1.is_chunked ≡ true))
        × Keeps found found1
  add_by_lem true t c d value found h =
      let (told, keeps) = add_length_lem value found h in
      ((λ _. told), (λ l. absurd (not_both l refl)), keeps)
  add_by_lem false true c d value found h =
      let (is_coded, was_chunked, keeps) = add_encoding_lem value found h in
      ((λ l. absurd (not_both refl l)), (λ _ _. (is_coded, was_chunked)), keeps)
  add_by_lem false false true d value found h = absurd (ground arith)
  add_by_lem false false false true value found h = (
    λ l. absurd (not_both refl l),
    λ _ t. absurd (not_both refl t),
    add_connection_lem value found h,
  )
  add_by_lem false false false false value found h =
      (λ l. absurd (not_both refl l), λ _ t. absurd (not_both refl t), same-Keeps (ok-injective h))

  add_field_lem :
      (entry : Bytes × Bytes) (found : Found) {found1 : Found}
      → add_field usize_max is_header_name entry found ≡ ok found1
      → Tells found1 entry × Keeps found found1
  add_field_lem (name, value) found {found1} h =
      let (told, told1, keeps) =
        add_by_lem (is_length name) (is_encoding name)
          (is_coded usize_max is_header_name name value) (str_eq name (codes "connection")) value
          found h in
      ((told, λ t. told1 (length_apart name t) t), keeps)

  -- Every field is told by what the loop has found.
  pub add_fields_lem :
      (fields : Fields) (found : Found) {found1 : Found}
      → add_fields usize_max is_header_name fields found ≡ ok found1
      → All (Tells found1) fields × Keeps found found1
  add_fields_lem [] found h = (tt, same-Keeps (ok-injective h))
  add_fields_lem (entry ∷ fields) found {found1} h =
      let (found2, e, h1) =
        >>=-eq-ok (add_field usize_max is_header_name entry found)
          (add_fields usize_max is_header_name fields) h in
      let (told, (lengths, encodings)) = add_field_lem entry found e in
      let (rest, (lengths1, encodings1)) = add_fields_lem fields found2 h1 in
      (
        (Tells-Keeps found2 found1 entry (lengths1, encodings1) told, rest),
        ((λ n k. lengths1 n (lengths n k)), λ k. encodings1 (encodings k)),
      )
