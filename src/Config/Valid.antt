-- ===== src/Config/Valid.antt =====
-- What `Config::validate` accepts, by a description apart from the code's order of checks.
use locho.Base.{
  ℕ, ◌≤◌, Bool, true, false, not, ◌||◌, List, [], ◌∷◌, Option, none, some, Bytes, codes, ◌≡◌, ◌≢◌,
  ◌↔◌, ◌⊎◌, inl, inr, refl, arith, Bool-cases, is_some, is_empty, contains, any, map, Distinct,
  Fresh, Fresh-nil_iff, bytes_eq, nat_eq, All, ok, length, ◌==◌, ap, ap₂, Result-cases,
  bail_if-then, >>=-eq-ok, checks_sound, checks_complete,
}
use locho.Service.{ServiceType, http, tcp, is_safe_service_name}
use locho.Net.{SocketAddr, is_absolute, components, file_name, is_parent_dir, ends_with}
use locho.Config.Http.{HttpIsValid, http_sound, http_complete}
use locho.Config.{
  ServiceConfig, Env, max_tcp_idle_timeout_secs, path_checks, validate_unix_socket_path,
  resolve_tcp_idle_timeout, check_unix_socket, has_zero_port, same, validate_tcp, validate_service,
  validate_services, validate,
}

-- A socket path: absolute, with a last component, no `..`, no trailing separator, no NUL, and no
-- longer than the platform's limit.
pub record SocketPathIsValid (max_path_bytes : ℕ) (path : Bytes) : Type 0 where
  pub absolute : is_absolute path ≡ true
  pub named : is_some (file_name path) ≡ true
  pub no_traversal : any is_parent_dir (components path) ≡ false
  pub no_separator_end : ends_with (codes "/") path ≡ false
  pub no_dot_end : ends_with (codes "/.") path ≡ false
  pub no_nul : contains path 0 ≡ false
  pub short : length path ≤ max_path_bytes

neither : (a b : Bool) → (a || b) ≡ false → (a ≡ false) × (b ≡ false)
neither a b h = ground arith

not-true : (b : Bool) → not b ≡ false → b ≡ true
not-true b h = ground arith

pub unix_path_sound :
    (m : ℕ) (path : Bytes) → validate_unix_socket_path m path ≡ ok tt → SocketPathIsValid m path
unfolding validate_unix_socket_path
unix_path_sound m path h =
    let (a, (_, (n, (t, (d, (z, (l, _))))))) = checks_sound (path_checks m path) h in
    record {
      absolute = not-true (is_absolute path) a;
      named = not-true (is_some (file_name path)) n;
      no_traversal = t;
      no_separator_end = (neither (ends_with (codes "/") path) (ends_with (codes "/.") path) d).0;
      no_dot_end = (neither (ends_with (codes "/") path) (ends_with (codes "/.") path) d).1;
      no_nul = z;
      short = ground arith;
    }

absolute-is_empty : (path : Bytes) → is_absolute path ≡ true → is_empty path ≡ false
absolute-is_empty [] h = absurd (ground arith)
absolute-is_empty (c ∷ path) h = refl

unix_path_complete :
    (m : ℕ) (path : Bytes) → SocketPathIsValid m path → validate_unix_socket_path m path ≡ ok tt
unfolding validate_unix_socket_path
unix_path_complete m path v = checks_complete (path_checks m path) (
  ap not v.absolute,
  (
    absolute-is_empty path v.absolute,
    (
      ap not v.named,
      (
        v.no_traversal,
        (ap₂ (◌||◌) v.no_separator_end v.no_dot_end, (v.no_nul, (ground arith, tt))),
      ),
    ),
  ),
)

abbrev pub IdleInRange : Option ℕ → Type 0
IdleInRange none = Unit
IdleInRange (some secs) = secs ≤ max_tcp_idle_timeout_secs

resolve_sound : (o : Option ℕ) {r : Option ℕ} → resolve_tcp_idle_timeout o ≡ ok r → IdleInRange o
unfolding resolve_tcp_idle_timeout
resolve_sound none h = tt
resolve_sound (some secs) h = ground arith

pub resolve_complete :
    (o : Option ℕ) → IdleInRange o → (r : Option ℕ) × (resolve_tcp_idle_timeout o ≡ ok r)
unfolding resolve_tcp_idle_timeout
resolve_complete none v = (some 300, refl)
resolve_complete (some secs) v = elim (Bool-cases (secs == 0)) [
  | inl e ↦ (none, rw e)
  | inr e ↦ (some secs, ground arith)
]

-- Exactly one of the two endpoints, and that one usable.
abbrev pub OneEndpoint : ℕ → Option SocketAddr → Option Bytes → Type 0
OneEndpoint m (some address) none = address.port ≢ 0
OneEndpoint m none (some path) = SocketPathIsValid m path
OneEndpoint m none none = ⊥
OneEndpoint m (some address) (some path) = ⊥

module _ {Url : Type 0} (env : Env Url) where
  pub record TcpIsValid (s : ServiceConfig Url) : Type 0 where
    pub no_upstream : s.upstream ≡ none
    pub no_timeout : s.upstream_timeout_secs ≡ none
    pub no_ca_cert : s.ca_cert ≡ none
    pub endpoint : OneEndpoint env.max_path_bytes s.endpoint s.unix_socket
    pub idle : IdleInRange s.tcp_idle_timeout_secs

  endpoint_sound :
      (e : Option SocketAddr) (u : Option Bytes)
      → same env (is_some e) (is_some u) ≡ false
      → has_zero_port env e ≡ false
      → check_unix_socket env u ≡ ok tt
      → OneEndpoint env.max_path_bytes e u
  endpoint_sound none none h z c = absurd (ground arith)
  endpoint_sound none (some path) h z c = unix_path_sound env.max_path_bytes path c
  endpoint_sound (some a) none h z c = ground arith
  endpoint_sound (some a) (some path) h z c = absurd (ground arith)

  endpoint_complete :
      (e : Option SocketAddr) (u : Option Bytes)
      → OneEndpoint env.max_path_bytes e u
      → (same env (is_some e) (is_some u) ≡ false)
        × (has_zero_port env e ≡ false)
        × (check_unix_socket env u ≡ ok tt)
  endpoint_complete none none v = absurd v
  endpoint_complete none (some path) v = (refl, refl, unix_path_complete env.max_path_bytes path v)
  endpoint_complete (some a) none v = (refl, ground arith, refl)
  endpoint_complete (some a) (some path) v = absurd v

  tcp_sound : (s : ServiceConfig Url) → validate_tcp env s ≡ ok tt → TcpIsValid s
  unfolding validate_tcp
  tcp_sound s h = elim (Result-cases (resolve_tcp_idle_timeout s.tcp_idle_timeout_secs)) [
    | inr (e, r) ↦ absurd (ground arith)
    | inl (idle, r) ↦ record {
      no_upstream = ground arith;
      no_timeout = ground arith;
      no_ca_cert = ground arith;
      endpoint =
          endpoint_sound s.endpoint s.unix_socket (ground arith) (ground arith) (ground arith);
      idle = resolve_sound s.tcp_idle_timeout_secs r;
    }
  ]

  tcp_complete : (s : ServiceConfig Url) → TcpIsValid s → validate_tcp env s ≡ ok tt
  unfolding validate_tcp
  tcp_complete s v =
      let (one, port, path) = endpoint_complete s.endpoint s.unix_socket v.endpoint in
      let (r, idle) = resolve_complete s.tcp_idle_timeout_secs v.idle in
      rw (v.no_upstream, v.no_timeout, v.no_ca_cert, one, port, path, idle) refl

  abbrev pub ServiceIsValid : ServiceConfig Url → Type 0
  ServiceIsValid s =
      (is_safe_service_name s.name ≡ true)
      × ((s.service_type ≡ http) × HttpIsValid env s ⊎ (s.service_type ≡ tcp) × TcpIsValid s)

  -- At least one service, each valid, and no two with one name.
  pub record ConfigIsValid (services : List (ServiceConfig Url)) : Type 0 where
    pub some_service : is_empty services ≡ false
    pub all_valid : All ServiceIsValid services
    pub distinct : Distinct (map (λ s. s.name) services)

  service_sound :
      (s : ServiceConfig Url) (t : ServiceType)
      → s.service_type ≡ t
      → validate_service env s ≡ ok tt
      → (s.service_type ≡ http) × HttpIsValid env s ⊎ (s.service_type ≡ tcp) × TcpIsValid s
  unfolding validate_service
  service_sound s http e h = inl (e, http_sound env s (rw (e, validate_service) at h))
  service_sound s tcp e h = inr (e, tcp_sound s (rw (e, validate_service) at h))

  service_complete : (s : ServiceConfig Url) → ServiceIsValid s → validate_service env s ≡ ok tt
  unfolding validate_service
  service_complete s (_, inl (e, v)) = rw (e, validate_service) (http_complete env s v)
  service_complete s (_, inr (e, v)) = rw (e, validate_service) (tcp_complete s v)

  services_sound :
      (names : List Bytes) (services : List (ServiceConfig Url))
      → validate_services env names services ≡ ok tt
      → All ServiceIsValid services × Fresh names (map (λ s. s.name) services)
  unfolding validate_services
  services_sound names [] h = (tt, tt)
  services_sound names (s ∷ services) h =
      let (safe, h1) = bail_if-then (not (is_safe_service_name s.name)) _ h in
      let (new, h2) = bail_if-then (contains names s.name) _ h1 in
      let (_, valid, h3) = >>=-eq-ok (validate_service env s) _ h2 in
      let (a, f) = services_sound (s.name ∷ names) services h3 in
      (((ground arith, service_sound s s.service_type refl valid), a), (new, f))

  services_complete :
      (names : List Bytes) (services : List (ServiceConfig Url))
      → All ServiceIsValid services
      → Fresh names (map (λ s. s.name) services)
      → validate_services env names services ≡ ok tt
  unfolding validate_services
  services_complete names [] a f = refl
  services_complete names (s ∷ services) (v, a) (new, f) =
      rw (v.0, new, service_complete s v) (services_complete (s.name ∷ names) services a f)

  -- `Config::validate` accepts exactly the valid configurations.
  pub validate_iff :
      (services : List (ServiceConfig Url))
      → (validate env services ≡ ok tt) ↔ ConfigIsValid services
  unfolding validate
  validate_iff services = (
    λ h.
        let (n, h1) = bail_if-then (is_empty services) _ h in
        let (a, f) = services_sound [] services h1 in
        record { some_service = n; all_valid = a; distinct = (Fresh-nil_iff _).0 f },
    λ v.
        rw v.some_service
          (services_complete [] services v.all_valid ((Fresh-nil_iff _).1 v.distinct)),
  )
