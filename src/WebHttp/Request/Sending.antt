-- ===== src/WebHttp/Request/Sending.antt =====
-- What is sent for a request: its lines are those of `encode`, whatever its fields hold.
use locho.Base.{
  ℕ, zero, suc, ◌+◌, ◌/◌, ◌%◌, ◌≤◌, Bool, true, false, not, ◌||◌, ◌&&◌, ◌++◌, List, [], ◌∷◌, Bytes,
  codes, lowercase, str_eq, str_eq_iff, any, all, lacks, leb, ltb, ◌==◌, ==_iff, length, is_empty,
  is_some, strip_prefix, ok, ok_or, checks, checks_sound, ◌≡◌, refl, sym, ap, ◌∙◌, arith,
  Bool-cases, inl, inr, &&-eq-true, >>=-eq-ok, bail_if-then, if◌then◌else◌,
}
use locho.WebHttp.Reader.{invalid_authority, invalid_header, request_limit}
use locho.WebHttp.Body.{max_head, crlf}
use locho.WebHttp.Request.{
  Request, Authority, Grammar, max_fields, one_of, methods, hop, ends_with, bad_value_byte,
  decimal_digits, field, opening, bad_path, bad_authority, bad_header, add_headers,
  checked_authority, request_checks, set_by_encode, encode,
}

-- The line feeds of a text.
abbrev pub lines : Bytes → ℕ
lines [] = 0
lines (c ∷ cs) = if c == 10 then suc (lines cs) else lines cs

lines-append : (a b : Bytes) → lines (a ++ b) ≡ lines a + lines b
lines-append [] b = omega arith
lines-append (c ∷ cs) b = ground (arith, lines-append cs b)

lines-lacks : (s : Bytes) → lacks 10 s ≡ true → lines s ≡ 0
lines-lacks [] h = refl
lines-lacks (c ∷ cs) h = ground (arith, lines-lacks cs)

any-lines : (p : ℕ → Bool) (s : Bytes) → p 10 ≡ true → any p s ≡ false → lines s ≡ 0
any-lines p [] stops h = refl
any-lines p (c ∷ cs) stops h = elim (Bool-cases (c == 10)) [
  | inl e ↦ let code = ap p ((==_iff c 10).0 e) in absurd (ground (arith, code))
  | inr e ↦ rw e (any-lines p cs stops (ground arith))
]

lines-digit : (n : ℕ) (acc : Bytes) → lines ((48 + n) ∷ acc) ≡ lines acc
lines-digit n acc = ground arith

lines-digits_or :
    (fuel n : ℕ) (acc : Bytes) {small : Bool}
    → ltb n 10 ≡ small
    → lines (decimal_digits (suc fuel) n acc)
      ≡ lines (if small then (48 + n) ∷ acc else decimal_digits fuel (n / 10) ((48 + n % 10) ∷ acc))
lines-digits_or fuel n acc {small = true} e =
    ap
      (λ b. lines (elim b [
        | true ↦ (48 + n) ∷ acc
        | false ↦ decimal_digits fuel (n / 10) ((48 + n % 10) ∷ acc)
      ]))
      e
lines-digits_or fuel n acc {small = false} e =
    ap
      (λ b. lines (elim b [
        | true ↦ (48 + n) ∷ acc
        | false ↦ decimal_digits fuel (n / 10) ((48 + n % 10) ∷ acc)
      ]))
      e

lines-decimal_digits : (fuel n : ℕ) (acc : Bytes) → lines (decimal_digits fuel n acc) ≡ lines acc
lines-decimal_digits zero n acc = refl
lines-decimal_digits (suc fuel) n acc = elim (Bool-cases (ltb n 10)) [
  | inl e ↦ lines-digits_or fuel n acc e ∙ lines-digit n acc
  | inr e ↦
      lines-digits_or fuel n acc e
      ∙ lines-decimal_digits fuel (n / 10) ((48 + n % 10) ∷ acc)
      ∙ lines-digit (n % 10) acc
]

lines-one_of :
    (names : List Bytes) (name : Bytes)
    → all (lacks 10) names ≡ true
    → one_of names name ≡ true
    → lines name ≡ 0
lines-one_of [] name h k = absurd (ground arith)
lines-one_of (n ∷ ns) name h k = elim (Bool-cases (str_eq n name)) [
  | inl e ↦
      ap lines (sym ((str_eq_iff n name).0 e))
      ∙ lines-lacks n (&&-eq-true (lacks 10 n) (all (lacks 10) ns) h).0
  | inr e ↦ lines-one_of ns name (&&-eq-true (lacks 10 n) (all (lacks 10) ns) h).1 (ground arith)
]

lines-opening :
    (request : Request) (n : ℕ)
    → lines request.method ≡ 0
    → lines request.path ≡ 0
    → lines request.authority ≡ 0
    → lines (opening request n) ≡ 5
lines-opening request n m p a = simp (lines-append, m, p, a, lines-decimal_digits)

last_two : (a b c d : Bool) → (a || b || not c || d) ≡ false → (c ≡ true) × (d ≡ false)
last_two a b c d h = ground arith

not-eq-false : (a : Bool) → not a ≡ false → a ≡ true
not-eq-false a h = ground arith

third : (a b c d : Bool) → (a || b || c || d) ≡ false → c ≡ false
third a b c d h = ground arith

fourth : (a b c d e f : Bool) → (a || b || c || d || e || f) ≡ false → d ≡ false
fourth a b c d e f h = ground arith

module _ (grammar : Grammar) where
  lines-field :
      (name value : Bytes) → bad_header grammar name value ≡ false → lines (field name value) ≡ 1
  lines-field name value h =
      let (named, valued) =
        last_two (hop (lowercase name)) (one_of set_by_encode (lowercase name))
          (grammar.is_header_name name) (any bad_value_byte value) h in
      simp (
        lines-append,
        lines-lacks name (grammar.is_header_name-lacks name named),
        any-lines bad_value_byte value refl valued,
      )

  lines-add_headers :
      (headers : List (Bytes × Bytes)) (out : Bytes) {out1 : Bytes}
      → add_headers grammar headers out ≡ ok out1
      → lines out1 ≡ lines out + length headers
  lines-add_headers [] out h = ground arith
  lines-add_headers ((name, value) ∷ headers) out h =
      let (good, h1) = bail_if-then (bad_header grammar name value) invalid_header h in
      let (fits, h2) =
        bail_if-then (ltb max_head (length (out ++ field name value))) request_limit h1 in
      let rest = lines-add_headers headers (out ++ field name value) h2 in
      omega (arith, rest, lines-append out (field name value), lines-field name value good)

  lines-path : (path : Bytes) → bad_path grammar path ≡ false → lines path ≡ 0
  lines-path path h =
      any-lines (λ b. leb b 32 || leb 127 b || b == 35 || b == 92) path refl
        (third (not (is_some (strip_prefix (codes "/") path)))
          (is_some (strip_prefix (codes "//") path))
          (any (λ b. leb b 32 || leb 127 b || b == 35 || b == 92) path)
          (not (grammar.is_path_and_query path)) h)

  lines-authority :
      (text : Bytes) {authority : Authority}
      → checked_authority grammar text ≡ ok authority
      → lines text ≡ 0
  lines-authority text h =
      let (authority, known, h1) =
        >>=-eq-ok (ok_or (grammar.parse_authority text) invalid_authority) _ h in
      let (good, e) = bail_if-then (bad_authority grammar text authority) invalid_authority h1 in
      any-lines (λ b. leb b 32 || b == 127) text refl
        (fourth (is_empty authority.host) (any (λ b. b == 64) text)
          (not (all (λ b. ltb b 128) text)) (any (λ b. leb b 32 || b == 127) text)
          (ends_with 58 text) (authority.has_port && not (is_some authority.port_u16)) good)

  -- What is sent for a request that is accepted is a head and the body. The head has its request
  -- line, the four fields that
  -- `encode` adds, one line for each field of the request and the empty line: no field's name or
  -- value, and neither path nor authority, starts a line of its own. It fits in 64 KiB.
  pub encode-lines :
      (request : Request) (body : Bytes) {out : Bytes}
      → encode grammar request body ≡ ok out
      → (head : Bytes) × (out ≡ head ++ body)
        × (lines head ≡ length request.headers + 6)
        × (length head ≤ max_head)
  unfolding encode
  encode-lines request body h =
      let (u, checked, h1) = >>=-eq-ok (checks (request_checks grammar request body)) _ h in
      let (authority, known, h2) = >>=-eq-ok (checked_authority grammar request.authority) _ h1 in
      let (few, h3) = bail_if-then (ltb max_fields (length request.headers + 4)) request_limit h2 in
      let (out1, added, h4) =
        >>=-eq-ok (add_headers grammar request.headers (opening request (length body))) _ h3 in
      let (fits, e) = bail_if-then (ltb max_head (length (out1 ++ crlf))) request_limit h4 in
      let sound = checks_sound (request_checks grammar request body) checked in
      let opened =
        lines-opening request (length body)
          (lines-one_of methods request.method refl
            (not-eq-false (one_of methods request.method) sound.1.0))
          (lines-path request.path sound.1.1.1.1.0) (lines-authority request.authority known) in
      let added_lines = lines-add_headers request.headers (opening request (length body)) added in
      (
        out1 ++ crlf,
        ground arith,
        omega (arith, lines-append out1 crlf, opened, added_lines),
        ground arith,
      )
