-- ===== src/Service.antt =====
-- crates/locho-core/src/service.rs: the service kinds and the safe service names.
use locho.Base.{
  ℕ, Bool, true, false, not, ◌&&◌, ◌||◌, ◌==◌, leb, Bytes, codes, all, is_empty, length,
  is_ascii_alphanumeric,
}

pub data ServiceType : Type 0 where
  http tcp : ServiceType

abbrev pub as_str : ServiceType → Bytes
as_str http = codes "http"
as_str tcp = codes "tcp"

abbrev pub is_tcp : ServiceType → Bool
is_tcp tcp = true
is_tcp http = false

abbrev pub is_http : ServiceType → Bool
is_http http = true
is_http tcp = false

unfoldable pub is_service_byte : ℕ → Bool
is_service_byte byte = is_ascii_alphanumeric byte || (byte == b'-' || byte == b'_')

unfoldable pub is_safe_service_name : Bytes → Bool
is_safe_service_name name =
    not (is_empty name) && (leb (length name) 64 && all is_service_byte name)
