-- ===== src/Base/Lists.antt =====
-- Lists measured by native numbers, equality as an interface, and lists read as hash sets.
use Prim.Native.Nat.{ℕ, zero, suc, ◌+◌, ◌-◌, ◌≤◌, min}
use mathlib.Core.Path.{◌≡◌, refl, sym, ap, ◌∙◌}
use mathlib.Core.Logic.{◌↔◌, inl, inr}
use mathlib.Core.Bool.{Bool, true, false, ◌&&◌, ◌||◌}
use mathlib.Core.Option.{Option, none, some}
use mathlib.Core.List.{List, [], ◌∷◌, ◌++◌, append_assoc}
use native.Mathlib.Omega.{arith}
use locho.Base.Tests.{if◌then◌else◌, Bool-cases}
use locho.Base.Outcome.{Checked, ok, bail_if, ◌>>◌}

module _ {ℓ} {A : Type ℓ} where
  abbrev pub length : List A → ℕ
  length [] = 0
  length (x ∷ xs) = suc (length xs)

  abbrev pub take : ℕ → List A → List A
  take zero xs = []
  take (suc n) [] = []
  take (suc n) (x ∷ xs) = x ∷ take n xs

  abbrev pub drop : ℕ → List A → List A
  drop zero xs = xs
  drop (suc n) [] = []
  drop (suc n) (x ∷ xs) = drop n xs

  pub length-append : (xs ys : List A) → length (xs ++ ys) ≡ length xs + length ys
  length-append [] ys = omega arith
  length-append (x ∷ xs) ys = omega (arith, length-append xs ys)

  pub take-length-append : (xs ys : List A) → take (length xs) (xs ++ ys) ≡ xs
  take-length-append [] ys = refl
  take-length-append (x ∷ xs) ys = ap (◌∷◌ x) (take-length-append xs ys)

  pub drop-length-append : (xs ys : List A) → drop (length xs) (xs ++ ys) ≡ ys
  drop-length-append [] ys = refl
  drop-length-append (x ∷ xs) ys = drop-length-append xs ys

  pub take-append-drop : (n : ℕ) (xs : List A) → take n xs ++ drop n xs ≡ xs
  take-append-drop zero xs = refl
  take-append-drop (suc n) [] = refl
  take-append-drop (suc n) (x ∷ xs) = ap (◌∷◌ x) (take-append-drop n xs)

  pub length-take : (n : ℕ) (xs : List A) → length (take n xs) ≡ min n (length xs)
  length-take zero xs = omega arith
  length-take (suc n) [] = omega arith
  length-take (suc n) (x ∷ xs) = omega (arith, length-take n xs)

  abbrev pub is_empty : List A → Bool
  is_empty [] = true
  is_empty (x ∷ xs) = false

  abbrev pub all : (A → Bool) → List A → Bool
  all p [] = true
  all p (x ∷ xs) = p x && all p xs

  abbrev pub any : (A → Bool) → List A → Bool
  any p [] = false
  any p (x ∷ xs) = p x || any p xs

  abbrev pub All {κ} : (A → Type κ) → List A → Type κ
  All P [] = Unit
  All P (x ∷ xs) = P x × All P xs

  abbrev pub concat : List (List A) → List A
  concat [] = []
  concat (x ∷ xs) = x ++ concat xs

  -- `slice::chunks`: pieces of `n` elements, the last one possibly shorter. Fuel: the length.
  pub chunks_fuel : ℕ → ℕ → List A → List (List A)
  chunks_fuel zero n xs = []
  chunks_fuel (suc fuel) n [] = []
  chunks_fuel (suc fuel) n (x ∷ xs) = take n (x ∷ xs) ∷ chunks_fuel fuel n (drop n (x ∷ xs))

  unfoldable pub chunks : ℕ → List A → List (List A)
  unfolding chunks_fuel
  chunks n xs = chunks_fuel (length xs) n xs

  pub length-drop : (n : ℕ) (xs : List A) → length (drop n xs) ≡ length xs - n
  length-drop zero xs = omega arith
  length-drop (suc n) [] = omega arith
  length-drop (suc n) (x ∷ xs) = omega (arith, length-drop n xs)

  concat-chunks_fuel :
      (fuel n : ℕ) (xs : List A) → length xs ≤ fuel → 1 ≤ n → concat (chunks_fuel fuel n xs) ≡ xs
  unfolding chunks_fuel
  concat-chunks_fuel zero n [] h k = refl
  concat-chunks_fuel zero n (x ∷ xs) h k = absurd (omega arith)
  concat-chunks_fuel (suc fuel) n [] h k = refl
  concat-chunks_fuel (suc fuel) n (x ∷ xs) h k =
      rw (concat-chunks_fuel fuel n (drop n (x ∷ xs)) (omega (arith, length-drop n (x ∷ xs))) k)
        (take-append-drop n (x ∷ xs))

  -- The pieces put together are the list.
  pub concat-chunks : (n : ℕ) (xs : List A) → 1 ≤ n → concat (chunks n xs) ≡ xs
  unfolding chunks
  concat-chunks n xs k = concat-chunks_fuel (length xs) n xs (omega arith) k

module _ {ℓ} {A : Type ℓ} where
  chunks_fuel_sizes :
      (fuel n : ℕ) (xs : List A)
      → 1 ≤ n
      → All (λ c. (1 ≤ length c) × (length c ≤ n)) (chunks_fuel fuel n xs)
  unfolding chunks_fuel
  chunks_fuel_sizes zero n xs k = tt
  chunks_fuel_sizes (suc fuel) n [] k = tt
  chunks_fuel_sizes (suc fuel) n (x ∷ xs) k = (
    (omega (arith, length-take n (x ∷ xs)), omega (arith, length-take n (x ∷ xs))),
    chunks_fuel_sizes fuel n (drop n (x ∷ xs)) k,
  )

  -- Each piece has 1 to `n` elements.
  pub chunks_sizes :
      (n : ℕ) (xs : List A) → 1 ≤ n → All (λ c. (1 ≤ length c) × (length c ≤ n)) (chunks n xs)
  unfolding chunks
  chunks_sizes n xs k = chunks_fuel_sizes (length xs) n xs k

  pub concat-append : (xs ys : List (List A)) → concat (xs ++ ys) ≡ concat xs ++ concat ys
  concat-append [] ys = refl
  concat-append (x ∷ xs) ys = rw (concat-append xs ys) (sym (append_assoc x _ _))

  abbrev pub find : (A → Bool) → List A → Option A
  find p [] = none
  find p (x ∷ xs) = if p x then some x else find p xs

  pub All-append {κ} : (P : A → Type κ) (xs ys : List A) → All P xs → All P ys → All P (xs ++ ys)
  All-append P [] ys hx hy = hy
  All-append P (x ∷ xs) ys hx hy = (hx.0, All-append P xs ys hx.1 hy)

  pub find-eq-some : (p : A → Bool) (xs : List A) {x : A} → find p xs ≡ some x → p x ≡ true
  find-eq-some p [] h = ground arith
  find-eq-some p (y ∷ ys) {x} h = ground (arith, find-eq-some p ys {x = x})

-- `PartialEq`, lawful.
pub record Eq {ℓ} (A : Type ℓ) : Type ℓ where
  pub beq : A → A → Bool
  pub beq_iff : (x y : A) → (beq x y ≡ true) ↔ (x ≡ y)

-- A hash set is the list of its elements, the newest first; `contains` is its only observation.
module _ {ℓ} {A : Type ℓ} ⦃e : Eq A⦄ where
  abbrev pub contains : List A → A → Bool
  contains [] x = false
  contains (member ∷ members) x = e.beq x member || contains members x

  -- Pairwise different.
  abbrev pub Distinct : List A → Type 0
  Distinct [] = Unit
  Distinct (x ∷ xs) = (contains xs x ≡ false) × Distinct xs

module _ {ℓ} {A : Type ℓ} ⦃e : Eq A⦄ where
  beq_comm : (a b : A) → e.beq a b ≡ e.beq b a
  beq_comm a b = elim (Bool-cases (e.beq a b)) [
    | inl p ↦ p ∙ sym ((e.beq_iff b a).1 (sym ((e.beq_iff a b).0 p)))
    | inr p ↦ elim (Bool-cases (e.beq b a)) [
      | inl q ↦ absurd (ground (arith, (e.beq_iff a b).1 (sym ((e.beq_iff b a).0 q))))
      | inr q ↦ p ∙ sym q
    ]
  ]

  -- What a loop with `if !seen.insert(x) { bail!(…) }` lets pass, `seen` being the set before it.
  abbrev pub Fresh : List A → List A → Type 0
  Fresh seen [] = Unit
  Fresh seen (x ∷ xs) = (contains seen x ≡ false) × Fresh (x ∷ seen) xs

  abbrev pub Unseen : List A → List A → Type 0
  Unseen seen [] = Unit
  Unseen seen (x ∷ xs) = (contains seen x ≡ false) × Unseen seen xs

  Unseen-cons :
      (seen xs : List A) (x : A) → Unseen (x ∷ seen) xs ↔ (contains xs x ≡ false) × Unseen seen xs
  Unseen-cons seen [] x = ((λ _. (refl, tt)), λ _. tt)
  Unseen-cons seen (y ∷ ys) x =
      let (to, from) = Unseen-cons seen ys x in
      let c = beq_comm x y in
      (
        λ (u, us). let (n, r) = to us in (ground arith, (ground arith, r)),
        λ (n, (u, us)). (ground arith, from (ground arith, us)),
      )

  -- Such a loop passes exactly on pairwise different elements, none of them seen before.
  pub Fresh-iff : (seen xs : List A) → Fresh seen xs ↔ Distinct xs × Unseen seen xs
  Fresh-iff seen [] = ((λ _. (tt, tt)), λ _. tt)
  Fresh-iff seen (x ∷ xs) =
      let (to, from) = Fresh-iff (x ∷ seen) xs in
      let (apart, together) = Unseen-cons seen xs x in
      (
        λ (n, f). let (d, u) = to f in let (m, v) = apart u in ((m, d), (n, v)),
        λ ((m, d), (n, v)). (n, from (d, together (m, v))),
      )

  Unseen-nil : (xs : List A) → Unseen [] xs
  Unseen-nil [] = tt
  Unseen-nil (x ∷ xs) = (refl, Unseen-nil xs)

  pub Fresh-nil_iff : (xs : List A) → Fresh [] xs ↔ Distinct xs
  Fresh-nil_iff xs = ((λ f. ((Fresh-iff [] xs).0 f).0), λ d. (Fresh-iff [] xs).1 (d, Unseen-nil xs))

-- Consecutive `if bad { bail!(e) }`.
abbrev pub checks {ℓ} : {E : Type ℓ} → List (Bool × E) → Checked E
checks [] = ok tt
checks ((bad, e) ∷ cs) = bail_if bad e >> checks cs

pub checks_sound {ℓ} :
    {E : Type ℓ} (cs : List (Bool × E)) → checks cs ≡ ok tt → All (λ c. c.0 ≡ false) cs
checks_sound [] h = tt
checks_sound ((false, e) ∷ cs) h = (refl, checks_sound cs h)
checks_sound ((true, e) ∷ cs) h = absurd (ground arith)

pub checks_complete {ℓ} :
    {E : Type ℓ} (cs : List (Bool × E)) → All (λ c. c.0 ≡ false) cs → checks cs ≡ ok tt
checks_complete [] h = refl
checks_complete ((false, e) ∷ cs) h = checks_complete cs h.1
checks_complete ((true, e) ∷ cs) h = absurd (ground arith)
