-- ===== src/Ticket.antt =====
-- crates/locho-core/src/ticket.rs: the portable text of one capability. JSON, URLs and the URL-safe
-- base64 without padding come from other crates.
pub mod Checks
use locho.Base.{
  ℕ, Bool, true, false, not, ◌&&◌, ◌||◌, ◌++◌, List, [], ◌∷◌, Option, none, some, Bytes, codes,
  str_eq, ltb, leb, ◌==◌, length, all, any, is_some, is_empty, contains, strip_prefix, lowercase,
  is_ascii_hexdigit, is_ascii_graphic, is_ascii_whitespace, is_ascii_control, if◌then◌else◌, Result,
  ok, err, ◌>>=◌, ◌>>◌, bail_if, ok_or, map_err, bytes_eq, is_ok,
}
use locho.Service.{ServiceType}
use locho.Capability.{Capability, format}
use locho.Capability
use locho.Wire.{Codec}

abbrev pub max_ticket_len : ℕ
max_ticket_len = 8192

abbrev pub max_peer_relays : ℕ
max_peer_relays = 4

abbrev pub ticket_prefix : Bytes
ticket_prefix = codes "locho1:"

pub record Ticket : Type 0 where
  pub host_id : Bytes
  pub capability : Capability
  pub peer_relay_urls : List Bytes

pub data TicketError : Type 0 where
  too_large invalid_encoding unsupported_version invalid_payload : TicketError
  invalid_host_id invalid_capability invalid_peer_relay : TicketError

pub record Payload : Type 0 where
  pub host_id : Bytes
  pub capability : Bytes
  pub peer_relay_urls : List Bytes

-- The crate `url`.
pub record UrlLibrary (Url : Type 0) : Type 0 where
  pub from_text : Bytes → Option Url
  pub scheme : Url → Bytes
  pub has_host : Url → Bool
  pub username : Url → Bytes
  pub password : Url → Option Bytes
  pub url_path : Url → Bytes
  pub query : Url → Option Bytes
  pub fragment : Url → Option Bytes
  pub domain : Url → Option Bytes
  pub set_host : Bytes → Url → Option Url
  pub to_text : Url → Bytes

pub record Base64 : Type 0 where
  pub encode64 : Bytes → Bytes
  pub decode64 : Bytes → Option Bytes

-- `str::strip_suffix('.')`
abbrev strip_dot : Bytes → Option Bytes
strip_dot [] = none
strip_dot (c ∷ []) = if c == b'.' then some [] else none
strip_dot (c ∷ d ∷ cs) = elim (strip_dot (d ∷ cs)) [ none ↦ none | some rest ↦ some (c ∷ rest) ]

abbrev and_then : Option Bytes → (Bytes → Option Bytes) → Option Bytes
and_then none f = none
and_then (some b) f = f b

module _ {Url : Type 0} (urls : UrlLibrary Url) where
  abbrev is_not_base : Url → Bool
  is_not_base url =
      not (str_eq (urls.scheme url) (codes "https"))
      || (not (urls.has_host url)
          || (not (is_empty (urls.username url))
              || (is_some (urls.password url)
                  || (not (str_eq (urls.url_path url) (codes "/"))
                      || (is_some (urls.query url) || is_some (urls.fragment url))))))

  abbrev without_dot : Url → Result TicketError Url
  without_dot url = elim (and_then (urls.domain url) strip_dot) [
    | none ↦ ok url
    | some host ↦ ok_or (urls.set_host host url) invalid_peer_relay
  ]

  unfoldable pub normalize : Bytes → Result TicketError Bytes
  normalize value = do
    bail_if (ltb 512 (length value) || any (λ c. is_ascii_whitespace c || is_ascii_control c) value)
        invalid_peer_relay
    url ← ok_or (urls.from_text value) invalid_peer_relay
    bail_if (is_not_base url) invalid_peer_relay
    base ← without_dot url
    ok (urls.to_text base)

  -- The loop over the URLs; `seen` is the set of those before.
  unfoldable pub peer_relays : List Bytes → List Bytes → Result TicketError (List Bytes)
  unfolding normalize
  peer_relays seen [] = ok []
  peer_relays seen (value ∷ values) = do
    normalized ← normalize value
    bail_if (contains seen normalized) invalid_peer_relay
    relays ← peer_relays (normalized ∷ seen) values
    ok (normalized ∷ relays)

module _ (base64 : Base64) (payloads : Codec Payload) where
  abbrev pub payload_of : Ticket → Payload
  payload_of ticket = record {
    host_id = ticket.host_id;
    capability =
        format ticket.capability.service ticket.capability.service_type ticket.capability.secret;
    peer_relay_urls = ticket.peer_relay_urls;
  }

  unfoldable pub encode : Ticket → Result TicketError Bytes
  encode ticket = do
    json ← ok_or (payloads.to_vec (payload_of ticket)) invalid_payload
    bail_if (ltb max_ticket_len (length (ticket_prefix ++ base64.encode64 json))) too_large
    ok (ticket_prefix ++ base64.encode64 json)

-- A text without the prefix of this version.
abbrev pub prefix_error : Bytes → TicketError
prefix_error value =
    if is_some (strip_prefix (codes "locho") value) && any (λ c. c == b':') value
    then unsupported_version
    else invalid_encoding

module _ {Url : Type 0} (urls : UrlLibrary Url) (base64 : Base64) (payloads : Codec Payload) where
  -- `Ticket::new`
  unfoldable pub new : Bytes → Bytes → List Bytes → Result TicketError Ticket
  unfolding peer_relays encode
  new host_id capability peer_relay_urls = do
    bail_if (not (length host_id == 64) || not (all is_ascii_hexdigit host_id)) invalid_host_id
    bail_if (ltb max_ticket_len (length capability)) invalid_capability
    parsed ← map_err (Capability.parse capability) invalid_capability
    bail_if (ltb 1024 (length parsed.secret) || not (all is_ascii_graphic parsed.secret))
        invalid_capability
    bail_if (ltb max_peer_relays (length peer_relay_urls)) invalid_peer_relay
    relays ← peer_relays urls [] peer_relay_urls
    let ticket : Ticket = record {
      host_id = lowercase host_id;
      capability = parsed;
      peer_relay_urls = relays;
    }
    text ← encode base64 payloads ticket
    ok ticket

  unfoldable pub parse : Bytes → Result TicketError Ticket
  unfolding new
  parse value = do
    bail_if (ltb max_ticket_len (length value)) too_large
    encoded ← ok_or (strip_prefix ticket_prefix value) (prefix_error value)
    json ← ok_or (base64.decode64 encoded) invalid_encoding
    payload ← ok_or (payloads.from_slice json) invalid_payload
    new payload.host_id payload.capability payload.peer_relay_urls
