-- ===== src/AttachConfig.antt =====
-- src/attach_config.rs: the attachments of a configuration file. `is_blank` stands for
-- `s.trim().is_empty()`, `max_path_bytes` for the platform's limit on socket paths.
pub mod Listeners
use locho.Base.{
  ℕ, Bool, true, false, not, ◌||◌, ◌++◌, List, [], ◌∷◌, Option, none, some, Bytes, codes, str_eq,
  is_some, is_empty, any, contains, bytes_eq, nat_eq, length, ltb, ◌==◌, join, if◌then◌else◌,
  Result, Checked, ok, err, ◌>>=◌, ◌>>◌, bail_if, ok_or, map_err,
}
use locho.Service.{ServiceType, http, tcp}
use locho.Capability.{Capability}
use locho.Capability
use locho.Net.{IpAddr, SocketAddr, components}
use locho.Config.{
  resolve_tcp_idle_timeout, validate_unix_socket_path, http_request_timeout,
  max_http_request_timeout_secs,
}

abbrev pub max_configured_services : ℕ
max_configured_services = 128

pub record AttachServiceConfig : Type 0 where
  pub capability : Bytes
  pub listen_port : Option ℕ
  pub listen_unix : Option Bytes
  pub http_timeout_secs : Option ℕ
  pub tcp_idle_timeout_secs : Option ℕ

pub record AttachConfig : Type 0 where
  pub host_id : Bytes
  pub direct_address : Option SocketAddr
  pub listen_host : IpAddr
  pub services : List AttachServiceConfig

pub data ListenerAddress : Type 0 where
  tcp_at : SocketAddr → ListenerAddress
  unix_at : Bytes → ListenerAddress

pub record AttachmentConfig : Type 0 where
  pub capability : Capability
  pub listen : ListenerAddress
  pub http_timeout : ℕ
  pub tcp_idle_timeout : Option ℕ

pub data AttachError : Type 0 where
  empty_host_id no_services too_many_services zero_listen_port : AttachError
  invalid_capability duplicate_service duplicate_port duplicate_unix_path : AttachError
  http_with_unix http_with_idle_timeout http_without_port http_timeout_range : AttachError
  tcp_with_http_timeout invalid_unix_path two_listeners no_listener idle_timeout_range : AttachError

unfoldable pub resolve_http_timeout : Option ℕ → Result AttachError ℕ
resolve_http_timeout none = ok http_request_timeout
resolve_http_timeout (some secs) =
    if secs == 0 || ltb max_http_request_timeout_secs secs then err http_timeout_range else ok secs

-- On a validated path, whose components hold no `..`.
unfoldable pub normalize_unix_path : Bytes → Bytes
normalize_unix_path path = b'/' ∷ join b'/' (components path)

-- The three hash sets of `attachments`.
pub record Seen : Type 0 where
  pub names : List Bytes
  pub ports : List ℕ
  pub unix_paths : List Bytes

abbrev pub claim_name : Bytes → Seen → Result AttachError Seen
claim_name name seen =
    if contains seen.names name
    then err duplicate_service
    else ok (record seen { names = name ∷ seen.names })

abbrev pub claim_port : Option ℕ → Seen → Result AttachError Seen
claim_port none seen = ok seen
claim_port (some port) seen =
    if contains seen.ports port
    then err duplicate_port
    else ok (record seen { ports = port ∷ seen.ports })

abbrev pub claim_path : ListenerAddress → Seen → Result AttachError Seen
claim_path (tcp_at address) seen = ok seen
claim_path (unix_at path) seen =
    if contains seen.unix_paths path
    then err duplicate_unix_path
    else ok (record seen { unix_paths = path ∷ seen.unix_paths })

module _ (max_path_bytes : ℕ) (listen_host : IpAddr) where
  abbrev pub http_listener : Option ℕ → Result AttachError ListenerAddress
  http_listener none = err http_without_port
  http_listener (some port) = ok (tcp_at (record { ip = listen_host; port = port }))

  abbrev pub tcp_listener : Option ℕ → Option Bytes → Result AttachError ListenerAddress
  tcp_listener (some port) none = ok (tcp_at (record { ip = listen_host; port = port }))
  tcp_listener none (some path) = do
    map_err (validate_unix_socket_path max_path_bytes path) invalid_unix_path
    ok (unix_at (normalize_unix_path path))
  tcp_listener (some port) (some path) = err two_listeners
  tcp_listener none none = err no_listener

  unfoldable pub resolve_http :
      Capability → AttachServiceConfig → Result AttachError AttachmentConfig
  unfolding resolve_http_timeout
  resolve_http capability service = do
    bail_if (is_some service.listen_unix) http_with_unix
    bail_if (is_some service.tcp_idle_timeout_secs) http_with_idle_timeout
    listen ← http_listener service.listen_port
    timeout ← resolve_http_timeout service.http_timeout_secs
    ok (record {
      capability = capability;
      listen = listen;
      http_timeout = timeout;
      tcp_idle_timeout = none;
    })

  unfoldable pub resolve_tcp :
      Capability → AttachServiceConfig → Result AttachError AttachmentConfig
  resolve_tcp capability service = do
    bail_if (is_some service.http_timeout_secs) tcp_with_http_timeout
    listen ← tcp_listener service.listen_port service.listen_unix
    idle ← map_err (resolve_tcp_idle_timeout service.tcp_idle_timeout_secs) idle_timeout_range
    ok (record {
      capability = capability;
      listen = listen;
      http_timeout = http_request_timeout;
      tcp_idle_timeout = idle;
    })

  unfoldable pub resolve : Capability → AttachServiceConfig → Result AttachError AttachmentConfig
  unfolding resolve_http resolve_tcp
  resolve capability service = elim capability.service_type [
    | http ↦ resolve_http capability service
    | tcp ↦ resolve_tcp capability service
  ]

  -- The closure of `attachments`, for one service.
  unfoldable pub attachment :
      Seen → AttachServiceConfig → Result AttachError (AttachmentConfig × Seen)
  attachment seen service = do
    capability ← map_err (Capability.parse service.capability) invalid_capability
    named ← claim_name capability.service seen
    ported ← claim_port service.listen_port named
    config ← resolve capability service
    done ← claim_path config.listen ported
    ok (config, done)

  unfoldable pub attachments_from :
      Seen → List AttachServiceConfig → Result AttachError (List AttachmentConfig)
  attachments_from seen [] = ok []
  attachments_from seen (service ∷ services) = do
    (config, seen1) ← attachment seen service
    configs ← attachments_from seen1 services
    ok (config ∷ configs)

abbrev pub nothing_seen : Seen
nothing_seen = record { names = []; ports = []; unix_paths = [] }

unfoldable pub attachments : ℕ → AttachConfig → Result AttachError (List AttachmentConfig)
attachments max_path_bytes config =
    attachments_from max_path_bytes config.listen_host nothing_seen config.services

abbrev is_zero : Option ℕ → Bool
is_zero none = false
is_zero (some port) = port == 0

unfoldable pub validate : (Bytes → Bool) → ℕ → AttachConfig → Checked AttachError
validate is_blank max_path_bytes config = do
  bail_if (is_blank config.host_id) empty_host_id
  bail_if (is_empty config.services) no_services
  bail_if (ltb max_configured_services (length config.services)) too_many_services
  bail_if (any (λ service. is_zero service.listen_port) config.services) zero_listen_port
  configs ← attachments max_path_bytes config
  ok tt
