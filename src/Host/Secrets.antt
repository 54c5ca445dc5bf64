-- ===== src/Host/Secrets.antt =====
-- Which secret a peer must know to reach an upstream.
use locho.Base.{Bool, ◌++◌, some, Bytes, codes, drop, ◌≡◌, sym, ap, ◌∙◌}
use locho.Wire.{StreamRequestHead}
use locho.Auth.{secret_proof}
use locho.Config.{ServiceConfig, StreamEndpoint}
use locho.Headers.Request.{HttpCrates, UpstreamRequest}
use locho.Host.{
  HostServices, connect, forward, Run, lookup, Connect, Forward, head, named, handle_stream,
}
use locho.Host.Tcp.{Occurs, handle_tcp_stream-connects}
use locho.Host.Http.{handle_http_stream-forwards}

abbrev service_of : StreamRequestHead → Bytes
service_of (StreamRequestHead.http req) = req.service
service_of (StreamRequestHead.tcp req) = req.service

abbrev proof_of : StreamRequestHead → Bytes
proof_of (StreamRequestHead.http req) = req.secret_proof
proof_of (StreamRequestHead.tcp req) = req.secret_proof

-- An HTTP stream reaches an upstream by a request, and a TCP stream by a connection.
abbrev pub Reaches : {Url : Type 0} → StreamRequestHead → Run Url → Type 0
Reaches {Url} (StreamRequestHead.http req) run =
    (sent : UpstreamRequest Url) × Occurs (forward sent) run.0
Reaches (StreamRequestHead.tcp req) run = (e : StreamEndpoint) × Occurs (connect e) run.0

module _ (digest_hex : Bytes → Bytes) {Url : Type 0} (crates : HttpCrates Url)
    (host : HostServices Url) where
  -- `given` is the secret that the host has for the service named so.
  abbrev pub IsSecretOf : Bytes → Bytes → Type 0
  IsSecretOf given name =
      (service : ServiceConfig Url) × (named name host.services ≡ some service)
      × (lookup service.name host.secrets ≡ some given)

  same_secret :
      (given secret proof : Bytes)
      → ((text : Bytes)
          → digest_hex text ≡ digest_hex (codes "locho-v1:" ++ given)
          → text ≡ codes "locho-v1:" ++ given)
      → proof ≡ digest_hex (codes "locho-v1:" ++ given)
      → proof ≡ secret_proof digest_hex secret
      → secret ≡ given
  unfolding secret_proof
  same_secret given secret proof unique made checked =
      ap (drop 9) (unique (codes "locho-v1:" ++ secret) (sym checked ∙ made))

  -- A stream reaches an upstream only if the host's secret of the service that its head names is the
  -- one that the peer made its proof from, behind the text `locho-v1:`, if no other text has the
  -- digest of that one.
  pub handle_stream-Reaches :
      (given : Bytes) (first : StreamRequestHead) (outcome : Connect) (relayed : Bool)
      (forwarded : Forward)
      → ((text : Bytes)
          → digest_hex text ≡ digest_hex (codes "locho-v1:" ++ given)
          → text ≡ codes "locho-v1:" ++ given)
      → proof_of first ≡ digest_hex (codes "locho-v1:" ++ given)
      → Reaches first (handle_stream digest_hex crates host (head first) outcome relayed forwarded)
      → IsSecretOf given (service_of first)
  unfolding handle_stream
  handle_stream-Reaches given (StreamRequestHead.http req) outcome relayed forwarded unique made r =
      let (sent, o) = r in
      let (service, admitted, upstream, configured, rebuilt) =
        handle_http_stream-forwards digest_hex crates host req sent forwarded o in
      (
        service,
        admitted.found,
        admitted.stored
            ∙ ap (λ s. some s)
                (same_secret given admitted.secret req.secret_proof unique made admitted.proof),
      )
  handle_stream-Reaches given (StreamRequestHead.tcp req) outcome relayed forwarded unique made r =
      let (e, o) = r in
      let (authorized, room) = handle_tcp_stream-connects digest_hex host req outcome relayed e o in
      (
        authorized.service,
        authorized.found,
        authorized.stored
            ∙ ap (λ s. some s)
                (same_secret given authorized.secret req.secret_proof unique made authorized.proof),
      )
