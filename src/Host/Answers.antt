-- ===== src/Host/Answers.antt =====
-- What every TCP stream is answered.
use locho.Base.{
  ℕ, Bool, false, [], ◌∷◌, Bytes, ◌≡◌, refl, ◌⊎◌, inl, inr, arith, Bool-cases, Option-cases, err,
  is_ok, ◌==◌,
}
use locho.Service.{ServiceType, http, tcp}
use locho.Wire.{TcpRequestHead, protocol_version}
use locho.Auth.{verify_secret_proof}
use locho.Config.{ServiceConfig, StreamEndpoint, stream_endpoint}
use locho.Host.{
  HostServices, missing_service_secret, Run, lookup, Connect, connected, refused, timed_out, named,
  handle_tcp_stream, tcp_authenticate, tcp_endpoint, tcp_admit,
}
use locho.Host.Tcp.{heads}

module _ (digest_hex : Bytes → Bytes) {Url : Type 0} (host : HostServices Url) where
  -- One response head, or none where the host has no secret for the service.
  abbrev pub IsAnswered : Run Url → Type 0
  IsAnswered run =
      ((status : ℕ) × (heads run.0 ≡ status ∷ []))
      ⊎ ((heads run.0 ≡ []) × (run.1 ≡ err missing_service_secret))

  admit-IsAnswered :
      (service : ServiceConfig Url) (e : StreamEndpoint) (outcome : Connect) (relayed : Bool)
      → IsAnswered (tcp_admit digest_hex host service e outcome relayed)
  unfolding tcp_admit
  admit-IsAnswered service e outcome relayed = elim (Bool-cases (host.tcp_available == 0)) [
    | inl full ↦ inl (429, ground arith)
    | inr room ↦ connected-IsAnswered outcome room
  ]
    where
      connected-IsAnswered :
          (o : Connect)
          → (host.tcp_available == 0) ≡ false
          → IsAnswered (tcp_admit digest_hex host service e o relayed)
      connected-IsAnswered connected room = inl (200, ground arith)
      connected-IsAnswered refused room = inl (502, ground arith)
      connected-IsAnswered timed_out room = inl (504, ground arith)

  endpoint-IsAnswered :
      (t : ServiceType) (service : ServiceConfig Url) (outcome : Connect) (relayed : Bool)
      → IsAnswered (tcp_endpoint digest_hex host t service outcome relayed)
  unfolding tcp_endpoint
  endpoint-IsAnswered http service outcome relayed = inl (400, refl)
  endpoint-IsAnswered tcp service outcome relayed = elim (Option-cases (stream_endpoint service)) [
    | inl n ↦ rw (n, tcp_endpoint) (inl (400, refl))
    | inr (e, n) ↦ rw (n, tcp_endpoint) (admit-IsAnswered service e outcome relayed)
  ]

  authenticate-IsAnswered :
      (service : ServiceConfig Url) (proof : Bytes) (outcome : Connect) (relayed : Bool)
      → IsAnswered (tcp_authenticate digest_hex host service proof outcome relayed)
  unfolding tcp_authenticate
  authenticate-IsAnswered service proof outcome relayed =
      elim (Option-cases (lookup service.name host.secrets)) [
        | inl n ↦ rw (n, tcp_authenticate) (inr (refl, refl))
        | inr (secret, l) ↦
            elim (Bool-cases (is_ok (verify_secret_proof digest_hex secret proof))) [
              | inl v ↦
                  rw (l, v, tcp_authenticate)
                    (endpoint-IsAnswered service.service_type service outcome relayed)
              | inr v ↦ rw (l, v, tcp_authenticate) (inl (403, refl))
            ]
      ]

  -- Every TCP stream is answered by exactly one response head, whatever the request and the
  -- upstream do, unless the host lacks the secret of the service that is asked for.
  pub handle_tcp_stream-IsAnswered :
      (req : TcpRequestHead) (outcome : Connect) (relayed : Bool)
      → IsAnswered (handle_tcp_stream digest_hex host req outcome relayed)
  unfolding handle_tcp_stream
  handle_tcp_stream-IsAnswered req outcome relayed =
      elim (Bool-cases (req.version == protocol_version)) [
        | inr v ↦ rw (v, handle_tcp_stream) (inl (400, refl))
        | inl v ↦ elim (Option-cases (named req.service host.services)) [
          | inl n ↦ rw (v, n, handle_tcp_stream) (inl (404, refl))
          | inr (service, n) ↦
              rw (v, n, handle_tcp_stream)
                (authenticate-IsAnswered service req.secret_proof outcome relayed)
        ]
      ]
