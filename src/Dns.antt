-- ===== src/Dns.antt =====
-- src/dns.rs: which of two lookups decides.
use locho.Base.{
  Bool, true, false, ◌||◌, List, [], ◌∷◌, ◌≡◌, refl, ◌⊎◌, inl, inr, arith, Result, ok, err,
  if◌then◌else◌,
}

abbrev pub Lookup : Type 0 → Type 0 → Type 0
Lookup E A = Result E (List A)

abbrev pub has_records : {E A : Type 0} → Lookup E A → Bool
has_records (ok (v ∷ vs)) = true
has_records _ = false

abbrev merge : {E A : Type 0} → Lookup E A → Lookup E A → Lookup E A
merge (ok (v ∷ vs)) public = ok (v ∷ vs)
merge (ok []) (ok values) = ok values
merge (err e) (ok values) = ok values
merge (ok []) (err e) = ok []
merge (err e) (err f) = err e

-- `system_first`: whether the system's lookup is the first to answer.
pub first_records : {E A : Type 0} → Bool → Lookup E A → Lookup E A → Lookup E A
first_records system_first system public =
    if system_first
    then (if has_records system then system else merge system public)
    else (if has_records public then public else merge system public)

-- Whichever lookup answers first, the result is one of the two, has records exactly if one of the
-- two has, and is an error only if both are: then it is the system's.
pub first_records_lem :
    {E A : Type 0} (system_first : Bool) (system public : Lookup E A)
    → ((first_records system_first system public ≡ system)
        ⊎ (first_records system_first system public ≡ public))
      × (has_records (first_records system_first system public)
          ≡ (has_records system || has_records public))
      × ((e : E)
          → first_records system_first system public ≡ err e
          → (system ≡ err e) × (f : E) × (public ≡ err f))
unfolding first_records
first_records_lem true (ok []) (ok []) = (inl refl, refl, λ e h. absurd (ground arith))
first_records_lem true (ok []) (ok (v ∷ vs)) = (inr refl, refl, λ e h. absurd (ground arith))
first_records_lem true (ok []) (err f) = (inl refl, refl, λ e h. absurd (ground arith))
first_records_lem true (ok (v ∷ vs)) public = (inl refl, refl, λ e h. absurd (ground arith))
first_records_lem true (err e) (ok []) = (inr refl, refl, λ e1 h. absurd (ground arith))
first_records_lem true (err e) (ok (v ∷ vs)) = (inr refl, refl, λ e1 h. absurd (ground arith))
first_records_lem true (err e) (err f) = (inl refl, refl, λ e1 h. (h, f, refl))
first_records_lem false (ok []) (ok []) = (inl refl, refl, λ e h. absurd (ground arith))
first_records_lem false (ok []) (ok (v ∷ vs)) = (inr refl, refl, λ e h. absurd (ground arith))
first_records_lem false (ok []) (err f) = (inl refl, refl, λ e h. absurd (ground arith))
first_records_lem false (ok (v ∷ vs)) (ok []) = (inl refl, refl, λ e h. absurd (ground arith))
first_records_lem false (ok (v ∷ vs)) (ok (w ∷ ws)) = (inr refl, refl, λ e h. absurd (ground arith))
first_records_lem false (ok (v ∷ vs)) (err f) = (inl refl, refl, λ e h. absurd (ground arith))
first_records_lem false (err e) (ok []) = (inr refl, refl, λ e1 h. absurd (ground arith))
first_records_lem false (err e) (ok (v ∷ vs)) = (inr refl, refl, λ e1 h. absurd (ground arith))
first_records_lem false (err e) (err f) = (inl refl, refl, λ e1 h. (h, f, refl))
