-- ===== src/Base/Text.antt =====
-- Text as its bytes: literals, comparison, ASCII classes, splitting.
use Prim.Native.Char.{code}
use Prim.Native.String.{String}
use Prim.Native.Nat.{ℕ, ◌+◌}
use mathlib.Core.Path.{◌≡◌, refl, ap}
use mathlib.Core.Logic.{◌↔◌, inl, inr}
use mathlib.Core.Bool.{Bool, true, false, not, ◌&&◌, ◌||◌}
use mathlib.Core.Option.{Option, none, some}
use mathlib.Core.List.{List, [], ◌∷◌, ◌++◌}
use native.Mathlib.Omega.{arith}
use locho.Base.Tests.{leb, ◌==◌, ==_iff, if◌then◌else◌, Bool-cases}
use locho.Base.Lists.{Eq, all, All}

abbrev pub Bytes : Type 0
Bytes = List ℕ

-- The bytes of an ASCII literal.
abbrev pub codes : String → Bytes
codes String.[] = []
codes (String.◌∷◌ c s) = code c ∷ codes s

abbrev pub str_eq : Bytes → Bytes → Bool
str_eq [] [] = true
str_eq (x ∷ xs) (y ∷ ys) = x == y && str_eq xs ys
str_eq _ _ = false

pub str_eq_iff : (a b : Bytes) → (str_eq a b ≡ true) ↔ (a ≡ b)
str_eq_iff (x ∷ a) (y ∷ b) = ground (arith, str_eq_iff a b)
str_eq_iff _ _ = ground arith

pub str_eq_refl : (a : Bytes) → str_eq a a ≡ true
str_eq_refl a = (str_eq_iff a a).1 refl

instance abbrev pub bytes_eq : Eq Bytes
bytes_eq = record { beq = str_eq; beq_iff = str_eq_iff }

instance abbrev pub nat_eq : Eq ℕ
nat_eq = record { beq = ◌==◌; beq_iff = ==_iff }

abbrev pub within : ℕ → ℕ → ℕ → Bool
within lo hi c = leb lo c && leb c hi

abbrev pub is_ascii_digit : ℕ → Bool
is_ascii_digit c = within b'0' b'9' c

abbrev pub is_ascii_alphanumeric : ℕ → Bool
is_ascii_alphanumeric c = within b'a' b'z' c || within b'A' b'Z' c || is_ascii_digit c

abbrev pub is_ascii_hexdigit : ℕ → Bool
is_ascii_hexdigit c = within b'a' b'f' c || within b'A' b'F' c || is_ascii_digit c

abbrev pub is_ascii_graphic : ℕ → Bool
is_ascii_graphic c = within 33 126 c

-- Space, tab, line feed, form feed, carriage return.
abbrev pub is_ascii_whitespace : ℕ → Bool
is_ascii_whitespace c = c == 32 || c == 9 || c == 10 || c == 12 || c == 13

abbrev pub is_ascii_control : ℕ → Bool
is_ascii_control c = leb c 31 || c == 127

abbrev pub to_ascii_lowercase : ℕ → ℕ
to_ascii_lowercase c = if within b'A' b'Z' c then c + 32 else c

abbrev pub push_head : ℕ → List Bytes → List Bytes
push_head c [] = (c ∷ []) ∷ []
push_head c (p ∷ ps) = (c ∷ p) ∷ ps

-- `str::split` at a one-byte separator: never empty.
abbrev pub split : ℕ → Bytes → List Bytes
split d [] = [] ∷ []
split d (c ∷ cs) = let rest = split d cs in if c == d then [] ∷ rest else push_head c rest

-- `str::strip_prefix`
abbrev pub strip_prefix : Bytes → Bytes → Option Bytes
strip_prefix [] s = some s
strip_prefix (p ∷ ps) [] = none
strip_prefix (p ∷ ps) (c ∷ cs) = if p == c then strip_prefix ps cs else none

pub strip_prefix-append : (p s : Bytes) → strip_prefix p (p ++ s) ≡ some s
strip_prefix-append [] s = refl
strip_prefix-append (c ∷ p) s = ground (arith, strip_prefix-append p s)

pub strip_prefix-eq-some : (p s : Bytes) {r : Bytes} → strip_prefix p s ≡ some r → s ≡ p ++ r
strip_prefix-eq-some [] s h = ground arith
strip_prefix-eq-some (c ∷ p) [] h = ground arith
strip_prefix-eq-some (c ∷ p) (d ∷ s) {r} h = ground (arith, strip_prefix-eq-some p s {r = r})

-- `slice::join` of the parts with a one-byte separator.
abbrev pub join : ℕ → List Bytes → Bytes
join d [] = []
join d (p ∷ []) = p
join d (p ∷ q ∷ ps) = p ++ d ∷ join d (q ∷ ps)

split-cons : (d : ℕ) (s : Bytes) → (p : Bytes) × (ps : List Bytes) × (split d s ≡ p ∷ ps)
split-cons d [] = ([], [], refl)
split-cons d (c ∷ s) = elim (Bool-cases (c == d)) [
  | inl e ↦ ([], split d s, rw e)
  | inr e ↦ let (p, ps, q) = split-cons d s in (c ∷ p, ps, rw (e, q))
]

join-push_head : (d c : ℕ) (ps : List Bytes) → join d (push_head c ps) ≡ c ∷ join d ps
join-push_head d c [] = refl
join-push_head d c (p ∷ []) = refl
join-push_head d c (p ∷ q ∷ ps) = refl

pub join-split : (d : ℕ) (s : Bytes) → join d (split d s) ≡ s
join-split d [] = refl
join-split d (c ∷ s) = elim (Bool-cases (c == d)) [
  | inl e ↦
      let (p, ps, q) = split-cons d s in rw (e, q) (ground (arith, ap (join d) q, join-split d s))
  | inr e ↦ rw (e, join-push_head d c (split d s), join-split d s)
]

abbrev pub lacks : ℕ → Bytes → Bool
lacks d s = all (λ c. not (c == d)) s

pub split_whole : (d : ℕ) (s : Bytes) → lacks d s ≡ true → split d s ≡ s ∷ []
split_whole d [] h = refl
split_whole d (c ∷ s) h = ground (arith, split_whole d s)

pub split_append : (d : ℕ) (p s : Bytes) → lacks d p ≡ true → split d (p ++ d ∷ s) ≡ p ∷ split d s
split_append d [] s h = ground arith
split_append d (c ∷ p) s h = ground (arith, split_append d p s)

push_head-lacks :
    (d c : ℕ) (ps : List Bytes)
    → (c == d) ≡ false
    → All (λ p. lacks d p ≡ true) ps
    → All (λ p. lacks d p ≡ true) (push_head c ps)
push_head-lacks d c [] h a = ground arith
push_head-lacks d c (p ∷ ps) h a = ground arith

-- No part of a split holds the separator.
pub split-lacks : (d : ℕ) (s : Bytes) → All (λ p. lacks d p ≡ true) (split d s)
split-lacks d [] = (refl, tt)
split-lacks d (c ∷ s) = elim (Bool-cases (c == d)) [
  | inl e ↦ rw e (refl, split-lacks d s)
  | inr e ↦ rw e (push_head-lacks d c (split d s) e (split-lacks d s))
]

-- `str::to_ascii_lowercase`
abbrev pub lowercase : Bytes → Bytes
lowercase [] = []
lowercase (c ∷ cs) = to_ascii_lowercase c ∷ lowercase cs
