-- ===== src/Headers/Passed.antt =====
-- Which headers are passed on, said without the code's own tests.
use locho.Base.{
  lowercase, Bool, true, false, not, ◌&&◌, List, [], ◌∷◌, Option, some, Bytes, codes, str_eq,
  str_eq_iff, split, ◌≡◌, refl, ap, sym, ◌∙◌, ◌↔◌, ◌⊎◌, arith, Bool-cases, Option-cases, inl, inr,
}
use locho.Headers.{trim, nominated_by, connection_headers, kept, is_passed_on, headers_to_pairs}
use locho.Headers.Names.{
  In, Listed, IsHopByHop, includes_iff, is_hop_by_hop_header_iff, Listed-append, nominated_by_iff,
}

module _ (to_str : Bytes → Option Bytes) where
  -- The name is one of the parts, between commas, of the value of a `Connection` header.
  abbrev pub IsNominated : Bytes → List (Bytes × Bytes) → Type 0
  IsNominated name headers =
      (value text : Bytes) × In (codes "connection", value) headers
      × (to_str value ≡ some text)
      × (part : Bytes) × Listed part (split 44 text)
      × (name ≡ lowercase (trim part))

  connection_headers_sound :
      (name : Bytes) (headers : List (Bytes × Bytes))
      → Listed name (connection_headers to_str headers)
      → IsNominated name headers
  unfolding connection_headers
  connection_headers_sound name [] h = absurd h
  connection_headers_sound name ((n, v) ∷ headers) h =
      let later : Listed name (connection_headers to_str headers)
          → IsNominated name ((n, v) ∷ headers) =
        λ l.
          let (value, text, found, readable, part, listed, e) =
            connection_headers_sound name headers l in
          (value, text, inr found, readable, part, listed, e) in
      elim (Bool-cases (str_eq n (codes "connection"))) [
        | inr other ↦ later (rw (other, connection_headers) at h)
        | inl same ↦ elim (Option-cases (to_str v)) [
          | inl unreadable ↦ later (rw (same, unreadable, connection_headers) at h)
          | inr (text, readable) ↦
              elim ((Listed-append name (nominated_by (split 44 text))
                  (connection_headers to_str headers)).0
                (rw (same, readable, connection_headers) at h)) [
                  | inl here ↦
                      let (part, listed, e) = (nominated_by_iff name (split 44 text)).0 here in
                      let is_connection = (str_eq_iff n (codes "connection")).0 same in
                      (
                        v,
                        text,
                        inl (ap (λ m. (m, v)) (sym is_connection)),
                        readable,
                        part,
                        listed,
                        e,
                      )
                  | inr l ↦ later l
                ]
        ]
      ]

  connection_headers_complete :
      (name : Bytes) (headers : List (Bytes × Bytes))
      → IsNominated name headers
      → Listed name (connection_headers to_str headers)
  unfolding connection_headers
  connection_headers_complete name [] (value, text, found, readable, part, listed, e) = absurd found
  connection_headers_complete name ((n, v) ∷ headers)
        (value, text, inl same, readable, part, listed, e) =
      let is_connection : str_eq n (codes "connection") ≡ true =
        (str_eq_iff n (codes "connection")).1 (ap (λ p. p.0) (sym same)) in
      let readable_here : to_str v ≡ some text = ap to_str (ap (λ p. p.1) (sym same)) ∙ readable in
      rw (is_connection, readable_here, connection_headers)
        ((Listed-append name (nominated_by (split 44 text)) (connection_headers to_str headers)).1
          (inl ((nominated_by_iff name (split 44 text)).1 (part, listed, e))))
  connection_headers_complete name ((n, v) ∷ headers)
        (value, text, inr found, readable, part, listed, e) =
      let later : Listed name (connection_headers to_str headers) =
        connection_headers_complete name headers (value, text, found, readable, part, listed, e) in
      elim (Bool-cases (str_eq n (codes "connection"))) [
        | inr other ↦ rw (other, connection_headers) later
        | inl is_connection ↦ elim (Option-cases (to_str v)) [
          | inl unreadable ↦ rw (is_connection, unreadable, connection_headers) later
          | inr (t, readable_here) ↦
              rw (is_connection, readable_here, connection_headers)
                ((Listed-append name (nominated_by (split 44 t))
                    (connection_headers to_str headers)).1
                  (inr later))
        ]
      ]

  -- A header of the list that may be passed on, with the text of its value.
  abbrev Passes : (Bytes → Bool) → Bytes → Bytes → List (Bytes × Bytes) → Type 0
  Passes keep name text headers =
      (value : Bytes) × In (name, value) headers × (to_str value ≡ some text) × (keep name ≡ true)

  Passes-later :
      (keep : Bytes → Bool) (name text : Bytes) (h : Bytes × Bytes) (headers : List (Bytes × Bytes))
      → Passes keep name text headers
      → Passes keep name text (h ∷ headers)
  Passes-later keep name text h headers (value, found, readable, pass) =
      (value, inr found, readable, pass)

  first-or-later :
      (p q : Bytes × Bytes) (qs : List (Bytes × Bytes)) → In p (q ∷ qs) → (p ≡ q) ⊎ In p qs
  first-or-later p q qs h = h

  kept_sound :
      (keep : Bytes → Bool) (name text : Bytes) (headers : List (Bytes × Bytes))
      → In (name, text) (kept to_str keep headers)
      → Passes keep name text headers
  unfolding kept
  kept_sound keep name text [] h = absurd h
  kept_sound keep name text ((n, v) ∷ headers) h = elim (Bool-cases (keep n)) [
    | inr skip ↦
        Passes-later keep name text (n, v) headers
          (kept_sound keep name text headers (rw (skip, kept) at h))
    | inl pass ↦ elim (Option-cases (to_str v)) [
      | inl skip ↦
          Passes-later keep name text (n, v) headers
            (kept_sound keep name text headers (rw (pass, skip, kept) at h))
      | inr (t, readable) ↦
          elim (first-or-later (name, text) (n, t) _ (rw (pass, readable, kept) at h)) [
            | inl same ↦ (
              v,
              inl (ap (λ m. (m, v)) (ap (λ p. p.0) same)),
              readable ∙ ap (λ p. some p.1) (sym same),
              ap keep (ap (λ p. p.0) same) ∙ pass,
            )
            | inr later ↦
                Passes-later keep name text (n, v) headers (kept_sound keep name text headers later)
          ]
    ]
  ]

  kept_complete :
      (keep : Bytes → Bool) (name text : Bytes) (headers : List (Bytes × Bytes))
      → Passes keep name text headers
      → In (name, text) (kept to_str keep headers)
  unfolding kept
  kept_complete keep name text [] (value, found, readable, pass) = absurd found
  kept_complete keep name text ((n, v) ∷ headers) (value, inl same, readable, pass) =
      let here : keep n ≡ true = ap keep (ap (λ p. p.0) (sym same)) ∙ pass in
      let read_here : to_str v ≡ some text = ap to_str (ap (λ p. p.1) (sym same)) ∙ readable in
      rw (here, read_here, kept) (inl (ap (λ m. (m, text)) (ap (λ p. p.0) same)))
  kept_complete keep name text ((n, v) ∷ headers) (value, inr found, readable, pass) =
      let later : In (name, text) (kept to_str keep headers) =
        kept_complete keep name text headers (value, found, readable, pass) in
      elim (Bool-cases (keep n)) [
        | inr skip ↦ rw (skip, kept) later
        | inl here ↦ elim (Option-cases (to_str v)) [
          | inl skip ↦ rw (here, skip, kept) later
          | inr (t, read_here) ↦ rw (here, read_here, kept) (inr later)
        ]
      ]

  -- A header is passed on exactly if it is in the map with a readable value, and its name is neither
  -- one of the ten of a single connection nor among those, between commas, that a readable value of
  -- a `Connection` header lists.
  pub headers_to_pairs_iff :
      (name text : Bytes) (headers : List (Bytes × Bytes))
      → In (name, text) (headers_to_pairs to_str headers) ↔ (
          (value : Bytes) × In (name, value) headers
          × (to_str value ≡ some text)
          × (¬ IsHopByHop name)
          × (¬ IsNominated name headers))
  unfolding headers_to_pairs is_passed_on
  headers_to_pairs_iff name text headers = (
    λ h.
        let (value, found, readable, pass) = kept_sound _ name text headers h in
        let (hop, nominated) = passed_on _ _ pass in
        (
          value,
          found,
          readable,
          λ is_hop. is_not hop ((is_hop_by_hop_header_iff name).1 is_hop),
          λ is_nominated.
              is_not nominated
                ((includes_iff name _).1 (connection_headers_complete name headers is_nominated)),
        ),
    λ h.
        let (value, found, readable, hop, nominated) = h in
        kept_complete _ name text headers (
          value,
          found,
          readable,
          both (λ e. hop ((is_hop_by_hop_header_iff name).0 e))
              (λ e. nominated (connection_headers_sound name headers ((includes_iff name _).0 e))),
        ),
  )
    where
      passed_on : (b c : Bool) → (not b && not c) ≡ true → (b ≡ false) × (c ≡ false)
      passed_on b c h = ground arith

      is_not : {b : Bool} → b ≡ false → b ≡ true → ⊥
      is_not h e = ground arith

      both : {b c : Bool} → (b ≡ true → ⊥) → (c ≡ true → ⊥) → (not b && not c) ≡ true
      both {b} {c} h k = elim (Bool-cases b) [
        | inl e ↦ absurd (h e)
        | inr e ↦ elim (Bool-cases c) [ inl f ↦ absurd (k f) | inr f ↦ rw (e, f) refl ]
      ]
