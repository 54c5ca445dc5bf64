-- ===== src/Ticket/Checks.antt =====
-- What every ticket satisfies that is made or parsed.
use locho.Base.{
  ℕ, suc, ◌≤◌, Bool, true, not, ◌||◌, ◌++◌, List, [], ◌∷◌, Bytes, ltb, ◌==◌, length, all, ◌≡◌,
  &&-eq-true, refl, ap, subst, ◌∙◌, arith, contains, Distinct, Fresh, Fresh-nil_iff, strip_prefix,
  lowercase, to_ascii_lowercase, is_ascii_hexdigit, is_ascii_graphic, within, Result, ok, err, ◌>>◌,
  >>=-eq-ok, bail_if, bail_if-then, ok_or, map_err, bytes_eq,
}
use locho.Capability.{Capability, CapabilityError}
use locho.Capability
use locho.Capability.RoundTrip.{IsValid, parse-eq-ok}
use locho.Wire.{Codec}
use locho.Ticket.{
  Ticket, TicketError, invalid_capability, too_large, invalid_encoding, invalid_payload,
  prefix_error, ticket_prefix, Payload, UrlLibrary, Base64, max_ticket_len, max_peer_relays,
  normalize, peer_relays, encode, new, parse,
}

-- A digit, or a letter from `a` to `f`.
abbrev pub is_lower_hexdigit : ℕ → Bool
is_lower_hexdigit c = within b'a' b'f' c || within b'0' b'9' c

lower-hexdigit :
    (c : ℕ) → is_ascii_hexdigit c ≡ true → is_lower_hexdigit (to_ascii_lowercase c) ≡ true
lower-hexdigit c h = ground arith

all-lowercase :
    (s : Bytes) → all is_ascii_hexdigit s ≡ true → all is_lower_hexdigit (lowercase s) ≡ true
all-lowercase [] h = refl
all-lowercase (c ∷ s) h =
    let (first, rest) = &&-eq-true (is_ascii_hexdigit c) (all is_ascii_hexdigit s) h in
    rw (lower-hexdigit c first) (all-lowercase s rest)

length-lowercase : (s : Bytes) → length (lowercase s) ≡ length s
length-lowercase [] = refl
length-lowercase (c ∷ s) = ground (arith, length-lowercase s)

checked_bound :
    (candidate : Bytes) (e : TicketError) {text : Bytes}
    → (bail_if (ltb max_ticket_len (length candidate)) e >> ok candidate) ≡ ok text
    → length text ≤ max_ticket_len
checked_bound candidate e h = ground arith

module _ {Url : Type 0} (urls : UrlLibrary Url) where
  peer_relays_sound :
      (seen values : List Bytes) {relays : List Bytes}
      → peer_relays urls seen values ≡ ok relays
      → Fresh seen relays × (length relays ≡ length values)
  unfolding peer_relays
  peer_relays_sound seen [] {relays} h =
      let nil : [] ≡ relays = ground arith in
      subst (λ rs. Fresh seen rs × (length rs ≡ 0)) nil (tt, refl)
  peer_relays_sound seen (value ∷ values) {relays} h =
      let (n, e, h1) = >>=-eq-ok (normalize urls value) _ h in
      let (new_one, h2) = bail_if-then (contains seen n) _ h1 in
      let (rs, more, h3) = >>=-eq-ok (peer_relays urls (n ∷ seen) values) _ h2 in
      let (fresh, size) = peer_relays_sound (n ∷ seen) values more in
      let whole : n ∷ rs ≡ relays = ground arith in
      subst (λ all_relays. Fresh seen all_relays × (length all_relays ≡ suc (length values))) whole
        ((new_one, fresh), ap suc size)

module _ {Url : Type 0} (urls : UrlLibrary Url) (base64 : Base64) (payloads : Codec Payload) where
  pub record IsIssued (ticket : Ticket) : Type 0 where
    pub host_id_length : length ticket.host_id ≡ 64
    pub host_id_lower : all is_lower_hexdigit ticket.host_id ≡ true
    pub valid : IsValid ticket.capability
    pub secret_length : length ticket.capability.secret ≤ 1024
    pub secret_graphic : all is_ascii_graphic ticket.capability.secret ≡ true
    pub few_relays : length ticket.peer_relay_urls ≤ max_peer_relays
    pub distinct_relays : Distinct ticket.peer_relay_urls
    pub text : Bytes
    pub encoded : encode base64 payloads ticket ≡ ok text
    pub text_length : length text ≤ max_ticket_len

  encode_bound :
      (ticket : Ticket) {text : Bytes}
      → encode base64 payloads ticket ≡ ok text
      → length text ≤ max_ticket_len
  unfolding encode
  encode_bound ticket {text} h =
      let (json, _, h1) = >>=-eq-ok (ok_or (payloads.to_vec _) _) _ h in
      checked_bound (ticket_prefix ++ base64.encode64 json) too_large h1

  capability_of :
      (r : Result CapabilityError Capability) {c : Capability}
      → map_err r invalid_capability ≡ ok c
      → r ≡ ok c
  capability_of (err e) h = absurd (ground arith)
  capability_of (ok c) h = ground arith

  new_sound :
      (host_id capability : Bytes) (relay_urls : List Bytes) {ticket : Ticket}
      → new urls base64 payloads host_id capability relay_urls ≡ ok ticket
      → IsIssued ticket
  unfolding new
  new_sound host_id capability relay_urls {ticket} h =
      let (id_checked, h1) =
        bail_if-then (not (length host_id == 64) || not (all is_ascii_hexdigit host_id)) _ h in
      let (_, h2) = bail_if-then (ltb max_ticket_len (length capability)) _ h1 in
      let (c, parsed, h3) =
        >>=-eq-ok (map_err (Capability.parse capability) invalid_capability) _ h2 in
      let (secret_checked, h4) =
        bail_if-then (ltb 1024 (length c.secret) || not (all is_ascii_graphic c.secret)) _ h3 in
      let (few, h5) = bail_if-then (ltb max_peer_relays (length relay_urls)) _ h4 in
      let (relays, kept, h6) = >>=-eq-ok (peer_relays urls [] relay_urls) _ h5 in
      let made : Ticket = record {
        host_id = lowercase host_id;
        capability = c;
        peer_relay_urls = relays;
      } in
      let (text, encoded, h7) = >>=-eq-ok (encode base64 payloads made) _ h6 in
      let same : made ≡ ticket = ground arith in
      let (fresh, size) = peer_relays_sound urls [] relay_urls kept in
      subst IsIssued same (record {
        host_id_length = length-lowercase host_id ∙ ground arith;
        host_id_lower = all-lowercase host_id (ground arith);
        valid = (parse-eq-ok capability (capability_of (Capability.parse capability) parsed)).0;
        secret_length = ground arith;
        secret_graphic = ground arith;
        few_relays = ground (arith, size, few);
        distinct_relays = (Fresh-nil_iff relays).0 fresh;
        text = text;
        encoded = encoded;
        text_length = encode_bound made encoded;
      })

  -- A text that is parsed gives a ticket whose host id is 64 lower-case hexadecimal digits, whose
  -- capability is valid with a printable secret of at most 1024 bytes, whose relay URLs are at most
  -- four and pairwise different, and which can be encoded again within the size limit.
  pub parse_sound :
      (value : Bytes) {ticket : Ticket}
      → parse urls base64 payloads value ≡ ok ticket
      → IsIssued ticket
  unfolding parse
  parse_sound value {ticket} h =
      let (_, h1) = bail_if-then (ltb max_ticket_len (length value)) _ h in
      let (text, _, h2) =
        >>=-eq-ok (ok_or (strip_prefix ticket_prefix value) (prefix_error value)) _ h1 in
      let (json, _, h3) = >>=-eq-ok (ok_or (base64.decode64 text) invalid_encoding) _ h2 in
      let (payload, _, h4) = >>=-eq-ok (ok_or (payloads.from_slice json) invalid_payload) _ h3 in
      new_sound payload.host_id payload.capability payload.peer_relay_urls h4
