-- ===== src/Headers/Names.antt =====
-- The names of headers, said without the code's own tests: those of a single connection, and the
-- parts of a list between commas.
use locho.Base.{
  lowercase, true, false, ◌++◌, List, [], ◌∷◌, Bytes, codes, str_eq, str_eq_iff, ◌≡◌, refl, ap, sym,
  ◌∙◌, ◌↔◌, ◌⊎◌, arith, Bool-cases, inl, inr,
}
use locho.Headers.{hop_by_hop, includes, is_hop_by_hop_header, trim, nominated_by}

abbrev pub In : Bytes × Bytes → List (Bytes × Bytes) → Type 0
In p [] = ⊥
In p (q ∷ qs) = (p ≡ q) ⊎ In p qs

abbrev pub Listed : Bytes → List Bytes → Type 0
Listed name [] = ⊥
Listed name (n ∷ names) = (name ≡ n) ⊎ Listed name names

-- The headers of one connection (RFC 2616, 13.5.1), and those that every connection sets anew.
abbrev pub IsHopByHop : Bytes → Type 0
IsHopByHop name = Listed name (
    codes "connection"
    ∷ codes "keep-alive"
    ∷ codes "proxy-authenticate"
    ∷ codes "proxy-authorization"
    ∷ codes "te"
    ∷ codes "trailer"
    ∷ codes "transfer-encoding"
    ∷ codes "upgrade"
    ∷ codes "host"
    ∷ codes "content-length"
    ∷ [])

pub includes_iff :
    (name : Bytes) (names : List Bytes) → (includes name names ≡ true) ↔ Listed name names
includes_iff name [] = (λ h. ground arith, λ h. absurd h)
includes_iff name (n ∷ names) = elim (Bool-cases (str_eq n name)) [
  | inl same ↦ (λ h. inl (sym ((str_eq_iff n name).0 same)), λ h. rw same refl)
  | inr other ↦ (
    λ h. inr ((includes_iff name names).0 (rw other at h)),
    λ h. elim h [
      | inl e ↦ absurd (differ n name other (sym e))
      | inr later ↦ rw other ((includes_iff name names).1 later)
    ],
  )
]
  where
    differ : (a b : Bytes) → str_eq a b ≡ false → a ≡ b → ⊥
    differ a b h e = ground (arith, (str_eq_iff a b).1 e)

pub is_hop_by_hop_header_iff : (name : Bytes) → (is_hop_by_hop_header name ≡ true) ↔ IsHopByHop name
unfolding is_hop_by_hop_header
is_hop_by_hop_header_iff name = includes_iff name hop_by_hop

pub Listed-append :
    (name : Bytes) (xs ys : List Bytes) → Listed name (xs ++ ys) ↔ (Listed name xs ⊎ Listed name ys)
Listed-append name [] ys = (λ h. inr h, λ h. elim h [ inl e ↦ absurd e | inr l ↦ l ])
Listed-append name (x ∷ xs) ys = (
  λ h. elim h [
    | inl e ↦ inl (inl e)
    | inr later ↦ elim ((Listed-append name xs ys).0 later) [ inl l ↦ inl (inr l) | inr r ↦ inr r ]
  ],
  λ h. elim h [
    | inl l ↦ elim l [ inl e ↦ inl e | inr later ↦ inr ((Listed-append name xs ys).1 (inl later)) ]
    | inr r ↦ inr ((Listed-append name xs ys).1 (inr r))
  ],
)

-- A part between commas, without the white space around it and in lower case, is the name.
abbrev IsPart : Bytes → List Bytes → Type 0
IsPart name parts = (part : Bytes) × Listed part parts × (name ≡ lowercase (trim part))

pub nominated_by_iff :
    (name : Bytes) (parts : List Bytes) → Listed name (nominated_by parts) ↔ IsPart name parts
nominated_by_iff name [] = (λ h. absurd h, λ h. absurd h.1)
nominated_by_iff name (p ∷ parts) = (
  λ h. elim h [
    | inl e ↦ (p, inl refl, e)
    | inr later ↦ let (part, l, e) = (nominated_by_iff name parts).0 later in (part, inr l, e)
  ],
  λ h.
      let (part, l, e) = h in
      elim l [
        | inl same ↦ inl (e ∙ ap (λ q. lowercase (trim q)) same)
        | inr later ↦ inr ((nominated_by_iff name parts).1 (part, later, e))
      ],
)
