-- ===== src/Tests/Tickets.antt =====
-- A ticket is parsed; local accepts fail and recover.
use locho.Base.{
  inl, inr, ok, err, ◌≢◌, arith, List, ℕ, ◌*◌, ◌^◌, min, true, [], ◌∷◌, none, some, Bytes, codes,
  ◌≡◌, refl, ok,
}
use locho.Service.{tcp, is_safe_service_name, is_service_byte}
use locho.Capability.{Capability}
use locho.Capability
use locho.Wire.{Codec}
use locho.Ticket.{Ticket, Payload, UrlLibrary, Base64, new, parse, encode, normalize, peer_relays}
use locho.AcceptRetry.{
  IoError, other_kind, emfile, no_retry, accept, accept_failed, accepted, after_failures,
  after_failures-delay, Errno, other_errno, Round, cancelled_waiting, cancelled_accepting, returned,
}
use locho.AcceptRetry.Passing.{IsPassing, accept-after_failures}
use locho.Ticket.Checks.{IsIssued, parse_sound}

-- URLs are their own text; JSON and base64 are those of this one ticket.
abbrev urls : UrlLibrary Bytes
urls = record {
  from_text = λ text. some text;
  scheme = λ url. codes "https";
  has_host = λ url. true;
  username = λ url. [];
  password = λ url. none;
  url_path = λ url. codes "/";
  query = λ url. none;
  fragment = λ url. none;
  domain = λ url. some (codes "relay.example");
  set_host = λ host url. some url;
  to_text = λ url. url;
}

abbrev payloads : Codec Payload
payloads = record {
  to_vec = λ payload. some (codes "j");
  from_slice = λ json. some (record {
    host_id = codes "ABCDEF0123456789ABCDEF0123456789ABCDEF0123456789ABCDEF0123456789";
    capability = codes "ssh:tcp:s3";
    peer_relay_urls = codes "https://relay.example/" ∷ [];
  });
}

abbrev base64 : Base64
base64 = record { encode64 = λ b. b; decode64 = λ b. some b }

abbrev issued : Ticket
issued = record {
  host_id = codes "abcdef0123456789abcdef0123456789abcdef0123456789abcdef0123456789";
  capability = record { service = codes "ssh"; service_type = tcp; secret = codes "s3" };
  peer_relay_urls = codes "https://relay.example/" ∷ [];
}

ticket_parsed : parse urls base64 payloads (codes "locho1:j") ≡ ok issued
unfolding parse new encode peer_relays normalize Capability.parse Capability.parse_parts
    is_safe_service_name is_service_byte Capability.format
ticket_parsed = refl

parse_sound_example : IsIssued urls base64 payloads issued
parse_sound_example = parse_sound urls base64 payloads (codes "locho1:j") ticket_parsed

abbrev shortage : IoError
shortage = record { kind = other_kind; raw_os_error = some emfile }

abbrev wrong_number : IoError
wrong_number = record { kind = other_kind; raw_os_error = some other_errno }

shortage-IsPassing : IsPassing shortage
shortage-IsPassing = inr (emfile, refl, λ e. absurd (ground arith))

wrong_number-lasts : ¬ IsPassing wrong_number
wrong_number-lasts h = elim h [
  | inl kind ↦ kind refl
  | inr number ↦ lasts number.0 number.1 number.2
]
  where
    lasts : (n : Errno) → some other_errno ≡ some n → n ≢ other_errno → ⊥
    lasts n e h = h (ground arith)

abbrev before_accept : Round ℕ → List (Round ℕ)
before_accept next = accept_failed 5 shortage ∷ accept_failed 110 shortage ∷ next ∷ []

accept-after_failures_example :
    (accept no_retry (before_accept (accepted 7)) ≡ (no_retry, returned (ok (some 7))))
    × (accept no_retry (before_accept cancelled_waiting)
        ≡ (record { delay = 400; next_attempt = some 310 }, returned (ok none)))
    × (accept no_retry (before_accept cancelled_accepting)
        ≡ (record { delay = 400; next_attempt = some 310 }, returned (ok none)))
    × (accept no_retry (before_accept (accept_failed 320 wrong_number))
        ≡ (record { delay = 400; next_attempt = some 310 }, returned (err wrong_number)))
accept-after_failures_example =
    accept-after_failures ((5, shortage) ∷ []) 110 shortage 7 320 wrong_number []
      (shortage-IsPassing, tt) shortage-IsPassing wrong_number-lasts

after_failures-delay_example :
    (after_failures no_retry (5 ∷ 110 ∷ [])).delay ≡ min (100 * 2 ^ 2) 1000
after_failures-delay_example = after_failures-delay (5 ∷ 110 ∷ [])
