-- ===== src/Host/Tcp.antt =====
-- TCP streams: who reaches an upstream, and what every stream is answered.
use locho.Base.{
  ℕ, ◌<◌, Bool, List, [], ◌∷◌, Option, some, Bytes, ◌≡◌, refl, ap, ◌∙◌, ◌⊎◌, inl, inr, arith,
  Bool-cases, Option-cases, ok, is_ok, ◌==◌, ==_iff,
}
use locho.Service.{ServiceType, http, tcp}
use locho.Wire.{TcpRequestHead, protocol_version}
use locho.Auth.{secret_proof, verify_secret_proof, is_ok-verify_secret_proof, verify_own_proof}
use locho.Config.{ServiceConfig, StreamEndpoint, stream_endpoint, resolve_tcp_idle_timeout}
use locho.Config.Valid.{IdleInRange, resolve_complete}
use locho.Host.{
  HostServices, Effect, write_head, connect, relay, forward, Run, lookup, Connect, connected,
  refused, timed_out, named, write_error, handle_tcp_stream, tcp_authenticate, tcp_endpoint,
  tcp_admit,
}

module _ {Url : Type 0} where
  abbrev pub Occurs : Effect Url → List (Effect Url) → Type 0
  Occurs x [] = ⊥
  Occurs x (y ∷ ys) = (x ≡ y) ⊎ Occurs x ys

  -- The statuses of the response heads written.
  abbrev pub heads : List (Effect Url) → List ℕ
  heads [] = []
  heads (write_head status ∷ effects) = status ∷ heads effects
  heads (connect e ∷ effects) = heads effects
  heads (relay idle ∷ effects) = heads effects
  heads (forward sent ∷ effects) = heads effects

module _ (digest_hex : Bytes → Bytes) {Url : Type 0} (host : HostServices Url) where
  -- The request names a configured TCP service and proves to know its secret.
  pub record IsAuthorized (req : TcpRequestHead) (endpoint : StreamEndpoint) : Type 0 where
    pub version : req.version ≡ protocol_version
    pub service : ServiceConfig Url
    pub found : named req.service host.services ≡ some service
    pub kind : service.service_type ≡ tcp
    pub target : stream_endpoint service ≡ some endpoint
    pub secret : Bytes
    pub stored : lookup service.name host.secrets ≡ some secret
    pub proof : req.secret_proof ≡ secret_proof digest_hex secret

  error-connects :
      (status : ℕ) (e : StreamEndpoint) → Occurs (connect e) (write_error {Url = Url} status).0 → ⊥
  error-connects status e o = ground arith

  admit-connects :
      (service : ServiceConfig Url) (endpoint e : StreamEndpoint) (outcome : Connect)
      (relayed : Bool)
      → Occurs (connect e) (tcp_admit digest_hex host service endpoint outcome relayed).0
      → (endpoint ≡ e) × (0 < host.tcp_available)
  unfolding tcp_admit
  admit-connects service endpoint e connected relayed o = ground arith
  admit-connects service endpoint e refused relayed o = ground arith
  admit-connects service endpoint e timed_out relayed o = ground arith

  endpoint-connects :
      (t : ServiceType) (service : ServiceConfig Url) (e : StreamEndpoint) (outcome : Connect)
      (relayed : Bool)
      → Occurs (connect e) (tcp_endpoint digest_hex host t service outcome relayed).0
      → (t ≡ tcp) × (stream_endpoint service ≡ some e) × (0 < host.tcp_available)
  unfolding tcp_endpoint
  endpoint-connects http service e outcome relayed o = ground arith
  endpoint-connects tcp service e outcome relayed o =
      elim (Option-cases (stream_endpoint service)) [
        | inl n ↦ absurd (error-connects 400 e (rw (n, tcp_endpoint) at o))
        | inr (endpoint, t) ↦
            let (same, room) =
              admit-connects service endpoint e outcome relayed (rw (t, tcp_endpoint) at o) in
            (refl, t ∙ ap some same, room)
      ]

  authenticate-connects :
      (service : ServiceConfig Url) (proof : Bytes) (e : StreamEndpoint) (outcome : Connect)
      (relayed : Bool)
      → Occurs (connect e) (tcp_authenticate digest_hex host service proof outcome relayed).0
      → (secret : Bytes) × (lookup service.name host.secrets ≡ some secret)
        × (proof ≡ secret_proof digest_hex secret)
        × Occurs
            (connect e)
            (tcp_endpoint digest_hex host service.service_type service outcome relayed).0
  unfolding tcp_authenticate
  authenticate-connects service proof e outcome relayed o =
      elim (Option-cases (lookup service.name host.secrets)) [
        | inl n ↦ absurd (rw (n, tcp_authenticate) at o)
        | inr (secret, l) ↦
            elim (Bool-cases (is_ok (verify_secret_proof digest_hex secret proof))) [
              | inl v ↦ (
                secret,
                l,
                is_ok-verify_secret_proof digest_hex secret proof v,
                rw (l, v, tcp_authenticate) at o,
              )
              | inr v ↦ absurd (error-connects 403 e (rw (l, v, tcp_authenticate) at o))
            ]
      ]

  -- An upstream is contacted only for a peer that proved to know the secret of a configured TCP
  -- service, at that service's endpoint, and while a permit is left.
  pub handle_tcp_stream-connects :
      (req : TcpRequestHead) (outcome : Connect) (relayed : Bool) (e : StreamEndpoint)
      → Occurs (connect e) (handle_tcp_stream digest_hex host req outcome relayed).0
      → IsAuthorized req e × (0 < host.tcp_available)
  unfolding handle_tcp_stream
  handle_tcp_stream-connects req outcome relayed e o =
      elim (Bool-cases (req.version == protocol_version)) [
        | inr v ↦ absurd (error-connects 400 e (rw (v, handle_tcp_stream) at o))
        | inl v ↦ elim (Option-cases (named req.service host.services)) [
          | inl n ↦ absurd (error-connects 404 e (rw (v, n, handle_tcp_stream) at o))
          | inr (service, n) ↦
              let (secret, stored, proof, o1) =
                authenticate-connects service req.secret_proof e outcome relayed
                  (rw (v, n, handle_tcp_stream) at o) in
              let (kind, target, room) =
                endpoint-connects service.service_type service e outcome relayed o1 in
              (
                record {
                  version = (==_iff req.version protocol_version).0 v;
                  service = service;
                  found = n;
                  kind = kind;
                  target = target;
                  secret = secret;
                  stored = stored;
                  proof = proof;
                },
                room,
              )
        ]
      ]

  authorized-endpoint :
      (service : ServiceConfig Url) (t : ServiceType) (outcome : Connect) (relayed : Bool)
      (e : StreamEndpoint)
      → t ≡ tcp
      → stream_endpoint service ≡ some e
      → tcp_endpoint digest_hex host t service outcome relayed
        ≡ tcp_admit digest_hex host service e outcome relayed
  authorized-endpoint service t outcome relayed e kind target =
      rw kind (unfold tcp_endpoint in rw (target, tcp_endpoint) refl)

  authorized-authenticate :
      (service : ServiceConfig Url) (secret proof : Bytes) (outcome : Connect) (relayed : Bool)
      → lookup service.name host.secrets ≡ some secret
      → proof ≡ secret_proof digest_hex secret
      → tcp_authenticate digest_hex host service proof outcome relayed
        ≡ tcp_endpoint digest_hex host service.service_type service outcome relayed
  authorized-authenticate service secret proof outcome relayed stored own =
      unfold tcp_authenticate in
      rw (stored, tcp_authenticate) (rw (verify_own_proof digest_hex secret proof own) refl)

  authorized-handle :
      (req : TcpRequestHead) (service : ServiceConfig Url) (outcome : Connect) (relayed : Bool)
      → req.version ≡ protocol_version
      → named req.service host.services ≡ some service
      → handle_tcp_stream digest_hex host req outcome relayed
        ≡ tcp_authenticate digest_hex host service req.secret_proof outcome relayed
  authorized-handle req service outcome relayed version found =
      unfold handle_tcp_stream in
      rw ((==_iff req.version protocol_version).1 version) (rw (found, handle_tcp_stream) refl)

  authorized-admit :
      (req : TcpRequestHead) (outcome : Connect) (relayed : Bool) (e : StreamEndpoint)
      (a : IsAuthorized req e)
      → handle_tcp_stream digest_hex host req outcome relayed
        ≡ tcp_admit digest_hex host a.service e outcome relayed
  authorized-admit req outcome relayed e a =
      authorized-handle req a.service outcome relayed a.version a.found
      ∙ authorized-authenticate a.service a.secret req.secret_proof outcome relayed a.stored a.proof
      ∙ authorized-endpoint a.service a.service.service_type outcome relayed e a.kind a.target

  -- How an admitted stream goes on, by the outcome of the connection.
  abbrev pub Admitted : ServiceConfig Url → StreamEndpoint → Connect → Run Url → Type 0
  Admitted service e connected run =
      (idle : Option ℕ) × (resolve_tcp_idle_timeout service.tcp_idle_timeout_secs ≡ ok idle)
      × (run.0 ≡ connect e ∷ write_head 200 ∷ relay idle ∷ [])
  Admitted service e refused run = run ≡ (connect e ∷ write_head 502 ∷ [], ok tt)
  Admitted service e timed_out run = run ≡ (connect e ∷ write_head 504 ∷ [], ok tt)

  -- An authorized stream with a permit, whose service has no idle timeout out of range, is connected to the service's endpoint; it is answered 200
  -- and relayed under the service's idle policy exactly if that succeeds, and 502 or 504 otherwise.
  pub handle_tcp_stream_authorized :
      (req : TcpRequestHead) (outcome : Connect) (relayed : Bool) (e : StreamEndpoint)
      (a : IsAuthorized req e)
      → 0 < host.tcp_available
      → IdleInRange a.service.tcp_idle_timeout_secs
      → Admitted a.service e outcome (handle_tcp_stream digest_hex host req outcome relayed)
  unfolding tcp_admit
  handle_tcp_stream_authorized req connected relayed e a room idle =
      let (i, resolved) = resolve_complete a.service.tcp_idle_timeout_secs idle in
      (i, resolved, rw (authorized-admit req connected relayed e a) (ground arith))
  handle_tcp_stream_authorized req refused relayed e a room idle =
      authorized-admit req refused relayed e a ∙ ground arith
  handle_tcp_stream_authorized req timed_out relayed e a room idle =
      authorized-admit req timed_out relayed e a ∙ ground arith

  -- Without a permit an authorized stream is answered 429, and nothing is contacted.
  pub handle_tcp_stream_full :
      (req : TcpRequestHead) (outcome : Connect) (relayed : Bool) (e : StreamEndpoint)
      → IsAuthorized req e
      → host.tcp_available ≡ 0
      → handle_tcp_stream digest_hex host req outcome relayed ≡ (write_head 429 ∷ [], ok tt)
  unfolding tcp_admit
  handle_tcp_stream_full req outcome relayed e a full =
      authorized-admit req outcome relayed e a ∙ ground arith
