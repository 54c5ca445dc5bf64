-- ===== src/Capability.antt =====
-- crates/locho-core/src/capability.rs: the `<service>:<type>:<secret>` credentials.
pub mod RoundTrip
use locho.Base.{
  ℕ, Bool, true, false, not, ◌||◌, ◌++◌, List, [], ◌∷◌, Bytes, codes, str_eq, split, is_empty,
  if◌then◌else◌, Result, ok, err, ◌>>=◌, ◌>>◌, bail_if,
}
use locho.Service.{ServiceType, http, tcp, as_str, is_safe_service_name}

pub record Capability : Type 0 where
  pub service : Bytes
  pub service_type : ServiceType
  pub secret : Bytes

pub data CapabilityError : Type 0 where
  invalid_format invalid_service_type empty_secret : CapabilityError

unfoldable pub format : Bytes → ServiceType → Bytes → Bytes
format service service_type secret = service ++ (b':' ∷ (as_str service_type ++ (b':' ∷ secret)))

-- `parts.next()`: the part, if any, and the iterator behind it.
abbrev pub next_or_default : List Bytes → Bytes × List Bytes
next_or_default [] = ([], [])
next_or_default (p ∷ ps) = (p, ps)

abbrev parse_type : Bytes → Result CapabilityError ServiceType
parse_type t =
    if str_eq t (codes "http")
    then ok http
    else if str_eq t (codes "tcp")
    then ok tcp
    else err invalid_service_type

unfoldable pub parse_parts : List Bytes → Result CapabilityError Capability
parse_parts parts0 =
    let (service, parts1) = next_or_default parts0 in
    let (service_type, parts2) = next_or_default parts1 in
    let (secret, parts3) = next_or_default parts2 in
    do
      bail_if (not (is_empty parts3) || not (is_safe_service_name service)) invalid_format
      kind ← parse_type service_type
      bail_if (is_empty secret) empty_secret
      ok (record { service = service; service_type = kind; secret = secret })

unfoldable pub parse : Bytes → Result CapabilityError Capability
unfolding parse_parts
parse value = parse_parts (split b':' value)
