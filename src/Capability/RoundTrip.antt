-- ===== src/Capability/RoundTrip.antt =====
-- Printing and parsing of capabilities undo one another.
use locho.Base.{
  true, false, List, [], ◌∷◌, ◌≡◌, refl, ap, sym, ◌∙◌, arith, Bytes, codes, str_eq_iff, split,
  is_empty, join, join-split, lacks, split_whole, split_append, split-lacks, all, All, subst, ok,
}
use locho.Service.{ServiceType, http, tcp, as_str, is_service_byte, is_safe_service_name}
use locho.Capability.{Capability, format, parse_parts, parse}

-- The capabilities that `parse` returns: a safe name, and a secret of at least one byte, none `:`.
pub record IsValid (c : Capability) : Type 0 where
  pub safe : is_safe_service_name c.service ≡ true
  pub has_secret : is_empty c.secret ≡ false
  pub one_part : lacks b':' c.secret ≡ true

all-is_service_byte-lacks : (s : Bytes) → all is_service_byte s ≡ true → lacks b':' s ≡ true
unfolding is_service_byte
all-is_service_byte-lacks [] h = refl
all-is_service_byte-lacks (c ∷ s) h = ground (arith, all-is_service_byte-lacks s)

safe-lacks : (s : Bytes) → is_safe_service_name s ≡ true → lacks b':' s ≡ true
unfolding is_safe_service_name
safe-lacks s h = ground (arith, all-is_service_byte-lacks s)

as_str-lacks : (t : ServiceType) → lacks b':' (as_str t) ≡ true
as_str-lacks http = refl
as_str-lacks tcp = refl

split-format :
    (c : Capability)
    → IsValid c
    → split b':' (format c.service c.service_type c.secret)
      ≡ c.service ∷ as_str c.service_type ∷ c.secret ∷ []
unfolding format
split-format c v =
    split_append b':' c.service _ (safe-lacks c.service v.safe)
    ∙ ap (◌∷◌ c.service) (
        split_append b':' (as_str c.service_type) c.secret (as_str-lacks c.service_type)
        ∙ ap (◌∷◌ (as_str c.service_type)) (split_whole b':' c.secret v.one_part))

parse_parts_valid :
    (n s : Bytes) (t : ServiceType)
    → is_safe_service_name n ≡ true
    → is_empty s ≡ false
    → parse_parts (n ∷ as_str t ∷ s ∷ [])
      ≡ ok (record { service = n; service_type = t; secret = s })
unfolding parse_parts
parse_parts_valid n s http h k = ground arith
parse_parts_valid n s tcp h k = ground arith

-- Parsing the text of a valid capability gives that capability back.
pub parse-format :
    (c : Capability) → IsValid c → parse (format c.service c.service_type c.secret) ≡ ok c
unfolding parse
parse-format c v =
    ap parse_parts (split-format c v)
    ∙ parse_parts_valid c.service c.secret c.service_type v.safe v.has_secret

pub record Parts (parts : List Bytes) (c : Capability) : Type 0 where
  shape : parts ≡ c.service ∷ as_str c.service_type ∷ c.secret ∷ []
  safe : is_safe_service_name c.service ≡ true
  has_secret : is_empty c.secret ≡ false

parse_parts-Parts : (parts : List Bytes) {c : Capability} → parse_parts parts ≡ ok c → Parts parts c
unfolding parse_parts is_safe_service_name
parse_parts-Parts [] h = ground arith
parse_parts-Parts (n ∷ []) h = ground arith
parse_parts-Parts (n ∷ t ∷ []) h = ground arith
parse_parts-Parts (n ∷ t ∷ s ∷ []) h =
    ground (arith, str_eq_iff t (codes "http"), str_eq_iff t (codes "tcp"))
parse_parts-Parts (n ∷ t ∷ s ∷ r ∷ ps) h = ground arith

-- Whatever `parse` accepts is the text of the valid capability that it returns.
pub parse-eq-ok :
    (value : Bytes) {c : Capability}
    → parse value ≡ ok c
    → IsValid c × (format c.service c.service_type c.secret ≡ value)
unfolding parse format
parse-eq-ok value {c} h =
    let p = parse_parts-Parts (split b':' value) h in
    let l = subst (All (λ q. lacks b':' q ≡ true)) p.shape (split-lacks b':' value) in
    (
      record { safe = p.safe; has_secret = p.has_secret; one_part = l.1.1.0 },
      sym (ap (join b':') p.shape) ∙ join-split b':' value,
    )
