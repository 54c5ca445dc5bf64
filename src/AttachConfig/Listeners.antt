-- ===== src/AttachConfig/Listeners.antt =====
-- The listeners of accepted attachments never collide.
use locho.Base.{
  ℕ, false, List, [], ◌∷◌, Option, none, some, Bytes, ◌≡◌, refl, subst, arith, Result-cases, inl,
  inr, contains, bytes_eq, nat_eq, Distinct, Fresh, Fresh-nil_iff, ok, >>=-eq-ok, map_err,
}
use locho.Capability.{Capability}
use locho.Capability
use locho.Service.{ServiceType, http, tcp}
use locho.Net.{IpAddr}
use locho.AttachConfig.{
  AttachServiceConfig, AttachConfig, AttachmentConfig, ListenerAddress, tcp_at, unix_at, Seen,
  nothing_seen, invalid_capability, resolve_http, resolve_tcp, resolve, http_listener, tcp_listener,
  claim_name, claim_port, claim_path, attachment, attachments_from, attachments,
}

abbrev pub service_names : List AttachmentConfig → List Bytes
service_names [] = []
service_names (c ∷ cs) = c.capability.service ∷ service_names cs

abbrev pub consider_port : ListenerAddress → List ℕ → List ℕ
consider_port (tcp_at address) ports = address.port ∷ ports
consider_port (unix_at path) ports = ports

abbrev pub consider_path : ListenerAddress → List Bytes → List Bytes
consider_path (tcp_at address) paths = paths
consider_path (unix_at path) paths = path ∷ paths

-- The ports and the socket paths that the attachments listen on.
abbrev pub tcp_ports : List AttachmentConfig → List ℕ
tcp_ports [] = []
tcp_ports (c ∷ cs) = consider_port c.listen (tcp_ports cs)

abbrev pub socket_paths : List AttachmentConfig → List Bytes
socket_paths [] = []
socket_paths (c ∷ cs) = consider_path c.listen (socket_paths cs)

-- A port is listened on exactly if it is configured.
abbrev pub ListensOn : Option ℕ → ListenerAddress → Type 0
ListensOn port (tcp_at address) = port ≡ some address.port
ListensOn port (unix_at path) = port ≡ none

module _ (max_path_bytes : ℕ) (listen_host : IpAddr) where
  http_listener-ListensOn :
      (port : Option ℕ) {l : ListenerAddress}
      → http_listener max_path_bytes listen_host port ≡ ok l
      → ListensOn port l
  http_listener-ListensOn none h = absurd (ground arith)
  http_listener-ListensOn (some port) {l = tcp_at address} h = ground arith
  http_listener-ListensOn (some port) {l = unix_at path} h = absurd (ground arith)

  tcp_listener-ListensOn :
      (port : Option ℕ) (path : Option Bytes) {l : ListenerAddress}
      → tcp_listener max_path_bytes listen_host port path ≡ ok l
      → ListensOn port l
  tcp_listener-ListensOn (some port) none {l = tcp_at address} h = ground arith
  tcp_listener-ListensOn (some port) none {l = unix_at path} h = absurd (ground arith)
  tcp_listener-ListensOn none (some path) {l = tcp_at address} h = absurd (ground arith)
  tcp_listener-ListensOn none (some path) {l = unix_at p} h = refl
  tcp_listener-ListensOn (some port) (some path) h = absurd (ground arith)
  tcp_listener-ListensOn none none h = absurd (ground arith)

  pub record Resolved (capability : Capability) (port : Option ℕ) (c : AttachmentConfig)
      : Type 0 where
    pub same_capability : c.capability ≡ capability
    pub listens : ListensOn port c.listen

  resolve_http-Resolved :
      (capability : Capability) (service : AttachServiceConfig) {c : AttachmentConfig}
      → resolve_http max_path_bytes listen_host capability service ≡ ok c
      → Resolved capability service.listen_port c
  unfolding resolve_http
  resolve_http-Resolved capability service {c} h =
      elim (Result-cases (http_listener max_path_bytes listen_host service.listen_port)) [
        | inr (e, r) ↦ absurd (ground arith)
        | inl (l, r) ↦
            let same : l ≡ c.listen = ground arith in
            record {
              same_capability = ground arith;
              listens =
                  subst (ListensOn service.listen_port) same
                    (http_listener-ListensOn service.listen_port r);
            }
      ]

  resolve_tcp-Resolved :
      (capability : Capability) (service : AttachServiceConfig) {c : AttachmentConfig}
      → resolve_tcp max_path_bytes listen_host capability service ≡ ok c
      → Resolved capability service.listen_port c
  unfolding resolve_tcp
  resolve_tcp-Resolved capability service {c} h =
      elim (Result-cases
        (tcp_listener max_path_bytes listen_host service.listen_port service.listen_unix)) [
          | inr (e, r) ↦ absurd (ground arith)
          | inl (l, r) ↦
              let same : l ≡ c.listen = ground arith in
              record {
                same_capability = ground arith;
                listens =
                    subst (ListensOn service.listen_port) same
                      (tcp_listener-ListensOn service.listen_port service.listen_unix r);
              }
        ]

  resolve-Resolved :
      (t : ServiceType) (capability : Capability) (service : AttachServiceConfig)
      {c : AttachmentConfig}
      → capability.service_type ≡ t
      → resolve max_path_bytes listen_host capability service ≡ ok c
      → Resolved capability service.listen_port c
  unfolding resolve
  resolve-Resolved http capability service e h =
      resolve_http-Resolved capability service (rw (e, resolve) at h)
  resolve-Resolved tcp capability service e h =
      resolve_tcp-Resolved capability service (rw (e, resolve) at h)

  -- What one accepted attachment adds to the sets, each time something new.
  record Claims (seen : Seen) (name : Bytes) (l : ListenerAddress) (seen1 : Seen) : Type 0 where
    new_name : contains seen.names name ≡ false
    names : seen1.names ≡ name ∷ seen.names
    new_port : Fresh seen.ports (consider_port l [])
    ports : seen1.ports ≡ consider_port l seen.ports
    new_path : Fresh seen.unix_paths (consider_path l [])
    unix_paths : seen1.unix_paths ≡ consider_path l seen.unix_paths

  claims :
      (seen named ported done : Seen) (name : Bytes) (port : Option ℕ) (l : ListenerAddress)
      → claim_name name seen ≡ ok named
      → claim_port port named ≡ ok ported
      → claim_path l ported ≡ ok done
      → ListensOn port l
      → Claims seen name l done
  claims seen named ported done name (some port) (tcp_at address) n p q h = record {
    new_name = ground arith;
    names = ground arith;
    new_port = ground arith;
    ports = ground arith;
    new_path = tt;
    unix_paths = ground arith;
  }
  claims seen named ported done name none (tcp_at address) n p q h = absurd (ground arith)
  claims seen named ported done name (some port) (unix_at path) n p q h = absurd (ground arith)
  claims seen named ported done name none (unix_at path) n p q h = record {
    new_name = ground arith;
    names = ground arith;
    new_port = tt;
    ports = ground arith;
    new_path = ground arith;
    unix_paths = ground arith;
  }

  attachment-Claims :
      (seen : Seen) (service : AttachServiceConfig) {c : AttachmentConfig} {seen1 : Seen}
      → attachment max_path_bytes listen_host seen service ≡ ok (c, seen1)
      → Claims seen c.capability.service c.listen seen1
  unfolding attachment
  attachment-Claims seen service {c} {seen1} h =
      let (capability, parsed, h1) =
        >>=-eq-ok (map_err (Capability.parse service.capability) invalid_capability) _ h in
      let (named, n, h2) = >>=-eq-ok (claim_name capability.service seen) _ h1 in
      let (ported, p, h3) = >>=-eq-ok (claim_port service.listen_port named) _ h2 in
      let (config, r, h4) =
        >>=-eq-ok (resolve max_path_bytes listen_host capability service) _ h3 in
      let (done, q, h5) = >>=-eq-ok (claim_path config.listen ported) _ h4 in
      let resolved = resolve-Resolved capability.service_type capability service refl r in
      let same_config : config ≡ c = ground arith in
      let same_seen : done ≡ seen1 = ground arith in
      subst (λ (x : AttachmentConfig). Claims seen x.capability.service x.listen seen1) same_config
        (subst (Claims seen config.capability.service config.listen) same_seen (
          claims seen named ported done config.capability.service service.listen_port config.listen
            (rw (resolved.same_capability) n) p q resolved.listens))

  record Apart (seen : Seen) (cs : List AttachmentConfig) : Type 0 where
    names : Fresh seen.names (service_names cs)
    ports : Fresh seen.ports (tcp_ports cs)
    unix_paths : Fresh seen.unix_paths (socket_paths cs)

  Apart-cons :
      (seen : Seen) (c : AttachmentConfig) (l : ListenerAddress) (seen1 : Seen)
      (cs : List AttachmentConfig)
      → c.listen ≡ l
      → Claims seen c.capability.service l seen1
      → Apart seen1 cs
      → Apart seen (c ∷ cs)
  Apart-cons seen c (tcp_at address) seen1 cs e k a = record {
    names = (k.new_name, subst (λ ns. Fresh ns (service_names cs)) k.names a.names);
    ports = rw e (k.new_port.0, subst (λ ps. Fresh ps (tcp_ports cs)) k.ports a.ports);
    unix_paths = rw e (subst (λ us. Fresh us (socket_paths cs)) k.unix_paths a.unix_paths);
  }
  Apart-cons seen c (unix_at path) seen1 cs e k a = record {
    names = (k.new_name, subst (λ ns. Fresh ns (service_names cs)) k.names a.names);
    ports = rw e (subst (λ ps. Fresh ps (tcp_ports cs)) k.ports a.ports);
    unix_paths =
        rw e (k.new_path.0, subst (λ us. Fresh us (socket_paths cs)) k.unix_paths a.unix_paths);
  }

  attachments_from-Apart :
      (seen : Seen) (services : List AttachServiceConfig) {cs : List AttachmentConfig}
      → attachments_from max_path_bytes listen_host seen services ≡ ok cs
      → Apart seen cs
  unfolding attachments_from
  attachments_from-Apart seen [] {cs} h =
      let nil : [] ≡ cs = ground arith in
      subst (Apart seen) nil (record { names = tt; ports = tt; unix_paths = tt })
  attachments_from-Apart seen (service ∷ services) {cs = all_cs} h =
      let ((c, seen1), one, h1) =
        >>=-eq-ok (attachment max_path_bytes listen_host seen service) _ h in
      let (cs, more, h2) =
        >>=-eq-ok (attachments_from max_path_bytes listen_host seen1 services) _ h1 in
      let whole : c ∷ cs ≡ all_cs = ground arith in
      subst (Apart seen) whole (
        Apart-cons seen c c.listen seen1 cs refl (attachment-Claims seen service one)
          (attachments_from-Apart seen1 services more))

-- The attachments that a configuration yields serve pairwise different services, on pairwise
-- different ports and pairwise different socket paths.
pub attachments_apart :
    (max_path_bytes : ℕ) (config : AttachConfig) {cs : List AttachmentConfig}
    → attachments max_path_bytes config ≡ ok cs
    → Distinct (service_names cs) × Distinct (tcp_ports cs) × Distinct (socket_paths cs)
unfolding attachments
attachments_apart max_path_bytes config {cs} h =
    let a =
      attachments_from-Apart max_path_bytes config.listen_host nothing_seen config.services h in
    (
      (Fresh-nil_iff (service_names cs)).0 a.names,
      (Fresh-nil_iff (tcp_ports cs)).0 a.ports,
      (Fresh-nil_iff (socket_paths cs)).0 a.unix_paths,
    )
