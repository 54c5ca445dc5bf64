-- ===== src/Config/Http.antt =====
-- HTTP services: what `Config::validate` accepts, by a description apart from the code's order.
use locho.Base.{
  ℕ, ◌≤◌, true, Option, none, some, Bytes, codes, ◌≡◌, ◌⊎◌, inl, inr, refl, arith, str_eq,
  str_eq_iff, ap, Bool-cases, Option-cases, is_some, bytes_eq, ok,
}
use locho.Config.{
  ServiceConfig, Env, max_http_request_timeout_secs, check_ca_cert, check_upstream_timeout,
  is_local_host, check_scheme, validate_http,
}

module _ {Url : Type 0} (env : Env Url) where
  abbrev pub CaCertIsReadable : Option Bytes → Type 0
  CaCertIsReadable none = Unit
  CaCertIsReadable (some path) =
      (pem : Bytes) × (env.read_file path ≡ some pem) × (env.is_pem pem ≡ true)

  abbrev pub TimeoutInRange : Option ℕ → Type 0
  TimeoutInRange none = Unit
  TimeoutInRange (some secs) = (1 ≤ secs) × (secs ≤ max_http_request_timeout_secs)

  -- An HTTPS URL with a host; in builds for the integration tests also HTTP to 127.0.0.1.
  abbrev pub UpstreamIsAllowed : Option Url → Type 0
  UpstreamIsAllowed none = ⊥
  UpstreamIsAllowed (some url) =
      ((env.scheme url ≡ codes "https") × (is_some (env.host_str url) ≡ true))
      ⊎ ((env.integration_test ≡ true)
          × (env.scheme url ≡ codes "http")
          × (env.host_str url ≡ some (codes "127.0.0.1")))

  pub record HttpIsValid (s : ServiceConfig Url) : Type 0 where
    pub no_endpoint : s.endpoint ≡ none
    pub no_unix_socket : s.unix_socket ≡ none
    pub no_idle_timeout : s.tcp_idle_timeout_secs ≡ none
    pub certificate : CaCertIsReadable s.ca_cert
    pub timeout : TimeoutInRange s.upstream_timeout_secs
    pub allowed : UpstreamIsAllowed s.upstream

  check_ca_cert_sound : (o : Option Bytes) → check_ca_cert env o ≡ ok tt → CaCertIsReadable o
  check_ca_cert_sound none h = tt
  check_ca_cert_sound (some path) h = elim (Option-cases (env.read_file path)) [
    | inl e ↦ absurd (ground arith)
    | inr (pem, e) ↦ (pem, e, ground arith)
  ]

  check_ca_cert_complete : (o : Option Bytes) → CaCertIsReadable o → check_ca_cert env o ≡ ok tt
  check_ca_cert_complete none v = refl
  check_ca_cert_complete (some path) (pem, read, valid) = ground arith

  check_upstream_timeout_sound :
      (o : Option ℕ) → check_upstream_timeout env o ≡ ok tt → TimeoutInRange o
  check_upstream_timeout_sound none h = tt
  check_upstream_timeout_sound (some secs) h = ground arith

  check_upstream_timeout_complete :
      (o : Option ℕ) → TimeoutInRange o → check_upstream_timeout env o ≡ ok tt
  check_upstream_timeout_complete none v = refl
  check_upstream_timeout_complete (some secs) v = ground arith

  is_local_host_sound :
      (o : Option Bytes) → is_local_host env o ≡ true → o ≡ some (codes "127.0.0.1")
  is_local_host_sound none h = ground arith
  is_local_host_sound (some host) h = ap some ((str_eq_iff host (codes "127.0.0.1")).0 h)

  check_scheme_sound : (url : Url) → check_scheme env url ≡ ok tt → UpstreamIsAllowed (some url)
  check_scheme_sound url h = elim (Bool-cases (str_eq (env.scheme url) (codes "https"))) [
    | inl e ↦ inl ((str_eq_iff (env.scheme url) (codes "https")).0 e, ground arith)
    | inr e ↦ inr (
      ground arith,
      (str_eq_iff (env.scheme url) (codes "http")).0 (ground arith),
      is_local_host_sound (env.host_str url) (ground arith),
    )
  ]

  check_scheme_complete : (url : Url) → UpstreamIsAllowed (some url) → check_scheme env url ≡ ok tt
  check_scheme_complete url (inl (secure, host)) =
      ground (arith, str_eq_iff (env.scheme url) (codes "https"))
  check_scheme_complete url (inr (test, plain, host)) = rw (test, plain, host) refl

  pub http_sound : (s : ServiceConfig Url) → validate_http env s ≡ ok tt → HttpIsValid s
  unfolding validate_http
  http_sound s h = elim (Option-cases s.upstream) [
    | inl e ↦ absurd (ground arith)
    | inr (url, e) ↦ record {
      no_endpoint = ground arith;
      no_unix_socket = ground arith;
      no_idle_timeout = ground arith;
      certificate = check_ca_cert_sound s.ca_cert (ground arith);
      timeout = check_upstream_timeout_sound s.upstream_timeout_secs (ground arith);
      allowed = rw e (check_scheme_sound url (ground arith));
    }
  ]

  pub http_complete : (s : ServiceConfig Url) → HttpIsValid s → validate_http env s ≡ ok tt
  unfolding validate_http
  http_complete s v = elim (Option-cases s.upstream) [
    | inl e ↦ absurd (rw e at v.allowed)
    | inr (url, e) ↦
        rw
          (
            v.no_endpoint,
            v.no_unix_socket,
            v.no_idle_timeout,
            e,
            check_ca_cert_complete s.ca_cert v.certificate,
            check_upstream_timeout_complete s.upstream_timeout_secs v.timeout,
          )
          (check_scheme_complete url (rw e at v.allowed))
  ]
