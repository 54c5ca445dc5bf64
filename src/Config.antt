-- ===== src/Config.antt =====
-- src/config.rs: the host's services and their validation. The URL type is a parameter; what the
-- code asks of it, of the file system and of the certificate parser is in `Env`.
pub mod Http
pub mod Valid
use locho.Base.{
  ℕ, ◌*◌, Bool, true, false, not, ◌&&◌, ◌||◌, List, [], ◌∷◌, Option, none, some, Bytes, codes,
  str_eq, is_some, is_empty, any, contains, bytes_eq, nat_eq, length, ltb, ◌==◌, if◌then◌else◌,
  Result, Checked, ok, err, ◌>>=◌, ◌>>◌, bail_if, ok_or, checks,
}
use locho.Service.{ServiceType, http, tcp, is_safe_service_name}
use locho.Net.{SocketAddr, is_absolute, components, file_name, is_parent_dir, ends_with}

pub record ServiceConfig (Url : Type 0) : Type 0 where
  pub name : Bytes
  pub service_type : ServiceType
  pub upstream : Option Url
  pub upstream_timeout_secs : Option ℕ
  pub ca_cert : Option Bytes
  pub endpoint : Option SocketAddr
  pub unix_socket : Option Bytes
  pub tcp_idle_timeout_secs : Option ℕ

pub data StreamEndpoint : Type 0 where
  tcp_at : SocketAddr → StreamEndpoint
  unix_at : Bytes → StreamEndpoint

abbrev either_endpoint : Option SocketAddr → Option Bytes → Option StreamEndpoint
either_endpoint (some address) none = some (tcp_at address)
either_endpoint none (some path) = some (unix_at path)
either_endpoint none none = none
either_endpoint (some address) (some path) = none

unfoldable pub stream_endpoint : {Url : Type 0} → ServiceConfig Url → Option StreamEndpoint
stream_endpoint s = either_endpoint s.endpoint s.unix_socket

pub data ConfigError : Type 0 where
  no_services invalid_name duplicate_name : ConfigError
  http_with_endpoint http_with_idle_timeout http_without_upstream : ConfigError
  ca_unreadable ca_not_pem upstream_timeout_range upstream_not_https : ConfigError
  tcp_with_http_options not_one_endpoint zero_port idle_timeout_range : ConfigError
  path_not_absolute path_empty path_no_name path_traversal path_is_directory path_nul : ConfigError
  path_too_long : ConfigError

-- Seconds. `protocol.rs` has the two HTTP and the TCP default.
abbrev pub tcp_idle_timeout : ℕ
tcp_idle_timeout = 300

abbrev pub http_request_timeout : ℕ
http_request_timeout = 60

abbrev pub max_http_request_timeout_secs : ℕ
max_http_request_timeout_secs = 300

abbrev pub max_tcp_idle_timeout_secs : ℕ
max_tcp_idle_timeout_secs = 60 * 60 * 24 * 365 * 100

-- `None` of the result disables the deadline.
unfoldable pub resolve_tcp_idle_timeout : Option ℕ → Result ConfigError (Option ℕ)
resolve_tcp_idle_timeout none = ok (some tcp_idle_timeout)
resolve_tcp_idle_timeout (some seconds) =
    if seconds == 0
    then ok none
    else if ltb max_tcp_idle_timeout_secs seconds
    then err idle_timeout_range
    else ok (some seconds)

-- On Unix; the bound on the length is 103 on macOS and 107 elsewhere.
abbrev pub path_checks : ℕ → Bytes → List (Bool × ConfigError)
path_checks max_path_bytes path =
    (not (is_absolute path), path_not_absolute)
    ∷ (is_empty path, path_empty)
    ∷ (not (is_some (file_name path)), path_no_name)
    ∷ (any is_parent_dir (components path), path_traversal)
    ∷ (ends_with (codes "/") path || ends_with (codes "/.") path, path_is_directory)
    ∷ (contains path 0, path_nul)
    ∷ (ltb max_path_bytes (length path), path_too_long)
    ∷ []

unfoldable pub validate_unix_socket_path : ℕ → Bytes → Checked ConfigError
validate_unix_socket_path max_path_bytes path = checks (path_checks max_path_bytes path)

pub record Env (Url : Type 0) : Type 0 where
  pub scheme : Url → Bytes
  pub host_str : Url → Option Bytes
  pub read_file : Bytes → Option Bytes
  pub is_pem : Bytes → Bool
  pub integration_test : Bool
  pub max_path_bytes : ℕ

module _ {Url : Type 0} (env : Env Url) where
  abbrev pub check_ca_cert : Option Bytes → Checked ConfigError
  check_ca_cert none = ok tt
  check_ca_cert (some path) = do
    certificate ← ok_or (env.read_file path) ca_unreadable
    bail_if (not (env.is_pem certificate)) ca_not_pem

  abbrev pub check_upstream_timeout : Option ℕ → Checked ConfigError
  check_upstream_timeout none = ok tt
  check_upstream_timeout (some secs) =
      bail_if (secs == 0 || ltb max_http_request_timeout_secs secs) upstream_timeout_range

  abbrev pub is_local_host : Option Bytes → Bool
  is_local_host none = false
  is_local_host (some host) = str_eq host (codes "127.0.0.1")

  abbrev pub local_test_http : Url → Bool
  local_test_http upstream =
      env.integration_test
      && (str_eq (env.scheme upstream) (codes "http") && is_local_host (env.host_str upstream))

  abbrev pub check_scheme : Url → Checked ConfigError
  check_scheme upstream =
      bail_if
        ((not (str_eq (env.scheme upstream) (codes "https")) && not (local_test_http upstream))
          || not (is_some (env.host_str upstream)))
        upstream_not_https

  unfoldable pub validate_http : ServiceConfig Url → Checked ConfigError
  validate_http s = do
    bail_if (is_some s.endpoint || is_some s.unix_socket) http_with_endpoint
    bail_if (is_some s.tcp_idle_timeout_secs) http_with_idle_timeout
    upstream ← ok_or s.upstream http_without_upstream
    check_ca_cert s.ca_cert
    check_upstream_timeout s.upstream_timeout_secs
    check_scheme upstream

  abbrev pub has_zero_port : Option SocketAddr → Bool
  has_zero_port none = false
  has_zero_port (some address) = address.port == 0

  abbrev pub check_unix_socket : Option Bytes → Checked ConfigError
  check_unix_socket none = ok tt
  check_unix_socket (some path) = validate_unix_socket_path env.max_path_bytes path

  abbrev pub same : Bool → Bool → Bool
  same true b = b
  same false b = not b

  unfoldable pub validate_tcp : ServiceConfig Url → Checked ConfigError
  validate_tcp s = do
    bail_if (is_some s.upstream || (is_some s.upstream_timeout_secs || is_some s.ca_cert))
        tcp_with_http_options
    bail_if (same (is_some s.endpoint) (is_some s.unix_socket)) not_one_endpoint
    bail_if (has_zero_port s.endpoint) zero_port
    check_unix_socket s.unix_socket
    idle ← resolve_tcp_idle_timeout s.tcp_idle_timeout_secs
    ok tt

  unfoldable pub validate_service : ServiceConfig Url → Checked ConfigError
  validate_service s = elim s.service_type [ http ↦ validate_http s | tcp ↦ validate_tcp s ]

  -- The loop; the set holds the names seen.
  unfoldable pub validate_services : List Bytes → List (ServiceConfig Url) → Checked ConfigError
  validate_services names [] = ok tt
  validate_services names (s ∷ services) = do
    bail_if (not (is_safe_service_name s.name)) invalid_name
    bail_if (contains names s.name) duplicate_name
    validate_service s
    validate_services (s.name ∷ names) services

  unfoldable pub validate : List (ServiceConfig Url) → Checked ConfigError
  validate services = do bail_if (is_empty services) no_services; validate_services [] services
