-- ===== src/Headers/Kept.antt =====
-- Which received pairs become headers of the message that is made from them.
use locho.Base.{
  Bool, true, false, List, [], ◌∷◌, some, Bytes, ◌≡◌, ◌↔◌, ◌⊎◌, inl, inr, refl, sym, ap, ◌∙◌,
  Bool-cases, Option-cases, arith,
}
use locho.Headers.{is_hop_by_hop_header}
use locho.Headers.Upstream.{pairs_to_headers}
use locho.Headers.Names.{In, IsHopByHop, is_hop_by_hop_header_iff}
use locho.Headers.Request.{HttpCrates, without_hop_by_hop, kept_pairs}

module _ {Url : Type 0} (http : HttpCrates Url) where
  -- One of the pairs, parsed.
  abbrev pub IsParsed : Bytes × Bytes → List (Bytes × Bytes) → Type 0
  IsParsed p pairs =
      (name value : Bytes) × In (name, value) pairs
      × (http.parse_name name ≡ some p.0)
      × (http.parse_value value ≡ some p.1)

  IsParsed-later :
      (p q : Bytes × Bytes) (pairs : List (Bytes × Bytes))
      → IsParsed p pairs
      → IsParsed p (q ∷ pairs)
  IsParsed-later p q pairs (name, value, found, n, v) = (name, value, inr found, n, v)

  pairs_to_headers-IsParsed :
      (p : Bytes × Bytes) (pairs : List (Bytes × Bytes))
      → In p (pairs_to_headers http.parse_name http.parse_value pairs)
      → IsParsed p pairs
  unfolding pairs_to_headers
  pairs_to_headers-IsParsed p [] h = absurd h
  pairs_to_headers-IsParsed p ((name, value) ∷ pairs) h =
      let later : In p (pairs_to_headers http.parse_name http.parse_value pairs)
          → IsParsed p ((name, value) ∷ pairs) =
        λ l. IsParsed-later p (name, value) pairs (pairs_to_headers-IsParsed p pairs l) in
      elim (Option-cases (http.parse_name name)) [
        | inl bad ↦ later (rw (bad, pairs_to_headers) at h)
        | inr (n, good) ↦ elim (Option-cases (http.parse_value value)) [
          | inl bad ↦ later (rw (good, bad, pairs_to_headers) at h)
          | inr (v, fine) ↦ elim (first p (n, v) _ (rw (good, fine, pairs_to_headers) at h)) [
            | inl e ↦ (
              name,
              value,
              inl refl,
              good ∙ ap (λ q. some q.0) (sym e),
              fine ∙ ap (λ q. some q.1) (sym e),
            )
            | inr l ↦ later l
          ]
        ]
      ]
    where
      first : (p q : Bytes × Bytes) (qs : List (Bytes × Bytes)) → In p (q ∷ qs) → (p ≡ q) ⊎ In p qs
      first p q qs h = h

  without_hop_by_hop_sound :
      (p : Bytes × Bytes) (headers : List (Bytes × Bytes))
      → In p (without_hop_by_hop headers)
      → In p headers × (is_hop_by_hop_header p.0 ≡ false)
  without_hop_by_hop_sound p [] h = absurd h
  without_hop_by_hop_sound p ((n, v) ∷ headers) h = elim (Bool-cases (is_hop_by_hop_header n)) [
    | inl hop ↦
        let (found, passes) = without_hop_by_hop_sound p headers (rw hop at h) in
        (inr found, passes)
    | inr keep ↦ elim (rw keep at h) [
      | inl e ↦ (inl e, ap (λ (q : Bytes × Bytes). is_hop_by_hop_header q.0) e ∙ keep)
      | inr l ↦ let (found, passes) = without_hop_by_hop_sound p headers l in (inr found, passes)
    ]
  ]

  without_hop_by_hop_complete :
      (p : Bytes × Bytes) (headers : List (Bytes × Bytes))
      → In p headers
      → is_hop_by_hop_header p.0 ≡ false
      → In p (without_hop_by_hop headers)
  without_hop_by_hop_complete p [] h passes = absurd h
  without_hop_by_hop_complete p ((n, v) ∷ headers) (inl e) passes =
      rw (ap (λ (q : Bytes × Bytes). is_hop_by_hop_header q.0) (sym e) ∙ passes) (inl e)
  without_hop_by_hop_complete p ((n, v) ∷ headers) (inr l) passes =
      let later = without_hop_by_hop_complete p headers l passes in
      elim (Bool-cases (is_hop_by_hop_header n)) [
        | inl hop ↦ rw hop later
        | inr keep ↦ rw keep (inr later)
      ]

  IsParsed-kept :
      (n v : Bytes) (pairs : List (Bytes × Bytes))
      → IsParsed (n, v) pairs
      → In (n, v) (pairs_to_headers http.parse_name http.parse_value pairs)
  unfolding pairs_to_headers
  IsParsed-kept n v [] (name, value, found, good, fine) = absurd found
  IsParsed-kept n v ((name1, value1) ∷ pairs) (name, value, inl e, good, fine) =
      let good1 : http.parse_name name1 ≡ some n =
        ap (λ (q : Bytes × Bytes). http.parse_name q.0) (sym e) ∙ good in
      let fine1 : http.parse_value value1 ≡ some v =
        ap (λ (q : Bytes × Bytes). http.parse_value q.1) (sym e) ∙ fine in
      rw (good1, fine1, pairs_to_headers) (inl refl)
  IsParsed-kept n v ((name1, value1) ∷ pairs) (name, value, inr found, good, fine) =
      let later = IsParsed-kept n v pairs (name, value, found, good, fine) in
      elim (Option-cases (http.parse_name name1)) [
        | inl bad ↦ rw (bad, pairs_to_headers) later
        | inr (m, good1) ↦ elim (Option-cases (http.parse_value value1)) [
          | inl bad ↦ rw (good1, bad, pairs_to_headers) later
          | inr (w, fine1) ↦ rw (good1, fine1, pairs_to_headers) (inr later)
        ]
      ]

  -- Exactly the pairs that can be parsed are kept, but for those of a single connection.
  pub kept_pairs_iff :
      (p : Bytes × Bytes) (pairs : List (Bytes × Bytes))
      → In p (kept_pairs http pairs) ↔ (IsParsed p pairs × (¬ IsHopByHop p.0))
  unfolding kept_pairs
  kept_pairs_iff p pairs = (
    λ h.
        let (found, passes) = without_hop_by_hop_sound p _ h in
        (
          pairs_to_headers-IsParsed p pairs found,
          λ hop. differ passes ((is_hop_by_hop_header_iff p.0).1 hop),
        ),
    λ h.
        without_hop_by_hop_complete p _ (IsParsed-kept p.0 p.1 pairs h.0)
          (elim (Bool-cases (is_hop_by_hop_header p.0)) [
            | inl hop ↦ absurd (h.1 ((is_hop_by_hop_header_iff p.0).0 hop))
            | inr keep ↦ keep
          ]),
  )
    where
      differ : {b : Bool} → b ≡ false → b ≡ true → ⊥
      differ h e = ground arith
