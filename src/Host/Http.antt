-- ===== src/Host/Http.antt =====
-- HTTP streams and the dispatch on the request head.
use locho.Base.{
  ℕ, Bool, false, not, [], ◌∷◌, Option, none, some, Bytes, ◌≡◌, refl, subst, inl, inr, arith,
  Option-cases, Result-cases, Result, ok, err, >>=-eq-ok, bail_if-then, ok_or, map_err, ◌==◌,
  ==_iff,
}
use locho.Service.{ServiceType, http, tcp, is_http}
use locho.Wire.{LochoRequestHead, StreamRequestHead, protocol_version}
use locho.Auth.{secret_proof, verify_secret_proof, verify_secret_proof_iff, verify_own_proof}
use locho.Config.{ServiceConfig}
use locho.Headers.Request.{HttpCrates, UpstreamRequest, upstream_request}
use locho.Headers.Built.{IsBuilt, upstream_request-IsBuilt}
use locho.Host.{
  HostServices, forward, lookup, named, Connect, Forward, completed, stopped, Head, head,
  head_timed_out, malformed, after_forward, write_error, then_run, validate_http_request,
  forward_to_upstream_with_state, handle_http_stream, handle_stream,
}
use locho.Host.Tcp.{Occurs, heads}
use locho.Host.Answers.{IsAnswered, handle_tcp_stream-IsAnswered}

module _ (digest_hex : Bytes → Bytes) {Url : Type 0} (host : HostServices Url) where
  -- The request names a configured HTTP service and proves to know its secret.
  pub record IsAdmitted (req : LochoRequestHead) (service : ServiceConfig Url) : Type 0 where
    pub version : req.version ≡ protocol_version
    pub found : named req.service host.services ≡ some service
    pub kind : service.service_type ≡ http
    pub secret : Bytes
    pub stored : lookup service.name host.secrets ≡ some secret
    pub proof : req.secret_proof ≡ secret_proof digest_hex secret

  ok_or-eq-ok :
      {A : Type 0} (o : Option A) (status : ℕ) {a : A} → ok_or o status ≡ ok a → o ≡ some a
  ok_or-eq-ok none status h = absurd (ground arith)
  ok_or-eq-ok (some b) status h = ground arith

  map_err-eq-ok :
      {E A : Type 0} (r : Result E A) (status : ℕ) {a : A} → map_err r status ≡ ok a → r ≡ ok a
  map_err-eq-ok (err e) status h = absurd (ground arith)
  map_err-eq-ok (ok b) status h = ground arith

  kind_of : (t : ServiceType) → not (is_http t) ≡ false → t ≡ http
  kind_of http h = refl
  kind_of tcp h = absurd (ground arith)

  -- `validate_http_request` passes exactly the admitted requests.
  pub validate_http_request_sound :
      (req : LochoRequestHead) {service : ServiceConfig Url}
      → validate_http_request digest_hex host req ≡ ok service
      → IsAdmitted req service
  unfolding validate_http_request
  validate_http_request_sound req {service} h =
      let (v, h1) = bail_if-then (not (req.version == protocol_version)) 400 h in
      let (s, n, h2) = >>=-eq-ok (ok_or (named req.service host.services) 404) _ h1 in
      let (k, h3) = bail_if-then (not (is_http s.service_type)) 400 h2 in
      let (secret, l, h4) = >>=-eq-ok (ok_or (lookup s.name host.secrets) 403) _ h3 in
      let (_, p, h5) =
        >>=-eq-ok (map_err (verify_secret_proof digest_hex secret req.secret_proof) 403) _ h4 in
      let same : s ≡ service = ground arith in
      subst (IsAdmitted req) same (record {
        version = ground arith;
        found = ok_or-eq-ok (named req.service host.services) 404 n;
        kind = kind_of s.service_type k;
        secret = secret;
        stored = ok_or-eq-ok (lookup s.name host.secrets) 403 l;
        proof =
            (verify_secret_proof_iff digest_hex secret req.secret_proof).0
              (map_err-eq-ok (verify_secret_proof digest_hex secret req.secret_proof) 403 p);
      })

  validate_http_request_complete :
      (req : LochoRequestHead) {service : ServiceConfig Url}
      → IsAdmitted req service
      → validate_http_request digest_hex host req ≡ ok service
  unfolding validate_http_request
  validate_http_request_complete req {service} a =
      rw
        (
          (==_iff req.version protocol_version).1 a.version,
          a.found,
          a.kind,
          a.stored,
          verify_own_proof digest_hex a.secret req.secret_proof a.proof,
        )
        refl

  error-forwards :
      (status : ℕ) (sent : UpstreamRequest Url)
      → Occurs (forward sent) (write_error {Url = Url} status).0
      → ⊥
  error-forwards status sent o = ground arith

  after-forwards :
      (outcome : Forward) (up sent : UpstreamRequest Url)
      → Occurs (forward sent) (then_run (forward up ∷ []) (after_forward outcome)).0
      → up ≡ sent
  unfolding after_forward
  after-forwards (completed status) up sent o = ground arith
  after-forwards (stopped (some status) stop) up sent o = ground arith
  after-forwards (stopped none stop) up sent o = ground arith

  after_forward-IsAnswered :
      (outcome : Forward)
      → (status : ℕ) × (heads (after_forward {Url = Url} outcome).0 ≡ status ∷ [])
  unfolding after_forward
  after_forward-IsAnswered (completed status) = (status, refl)
  after_forward-IsAnswered (stopped (some status) stop) = (status, refl)
  after_forward-IsAnswered (stopped none stop) = (_, refl)

module _ (digest_hex : Bytes → Bytes) {Url : Type 0} (crates : HttpCrates Url)
    (host : HostServices Url) where
  -- The request that the head of a stream asks for.
  abbrev pub IsRebuilt : Url → LochoRequestHead → UpstreamRequest Url → Type 0
  IsRebuilt upstream req =
      IsBuilt crates upstream req.path_and_query req.method req.headers req.body_len

  forward_to_upstream_with_state-forwards :
      (upstream : Url) (req : LochoRequestHead) (outcome : Forward) (sent : UpstreamRequest Url)
      → Occurs
          (forward sent)
          (forward_to_upstream_with_state digest_hex crates host upstream req outcome).0
      → IsRebuilt upstream req sent
  unfolding forward_to_upstream_with_state
  forward_to_upstream_with_state-forwards upstream req outcome sent o =
      elim (Result-cases
        (upstream_request crates upstream req.path_and_query req.method req.headers req.body_len)) [
          | inr (e, bad) ↦ absurd (
              error-forwards digest_hex host 502 sent
                (rw (bad, forward_to_upstream_with_state) at o))
          | inl (up, good) ↦
              subst (IsRebuilt upstream req)
                (after-forwards digest_hex host outcome up sent
                  (rw (good, forward_to_upstream_with_state) at o))
                (upstream_request-IsBuilt crates upstream req.path_and_query req.method req.headers
                  req.body_len good)
        ]

  pub handle_http_stream-forwards :
      (req : LochoRequestHead) (sent : UpstreamRequest Url) (outcome : Forward)
      → Occurs (forward sent) (handle_http_stream digest_hex crates host req outcome).0
      → (service : ServiceConfig Url) × IsAdmitted digest_hex host req service
        × (upstream : Url) × (service.upstream ≡ some upstream)
        × IsRebuilt upstream req sent
  unfolding handle_http_stream
  handle_http_stream-forwards req sent outcome o =
      elim (Result-cases (validate_http_request digest_hex host req)) [
        | inr (status, v) ↦
            absurd (error-forwards digest_hex host status sent (rw (v, handle_http_stream) at o))
        | inl (service, v) ↦ elim (Option-cases service.upstream) [
          | inl n ↦
              absurd (error-forwards digest_hex host 500 sent (rw (v, n, handle_http_stream) at o))
          | inr (up, n) ↦ (
            service,
            validate_http_request_sound digest_hex host req v,
            up,
            n,
            forward_to_upstream_with_state-forwards up req outcome sent
                (rw (v, n, handle_http_stream) at o),
          )
        ]
      ]

  -- An admitted request whose upstream request can be built is sent as that one, first of all.
  pub handle_http_stream_admitted :
      (req : LochoRequestHead) (service : ServiceConfig Url) (outcome : Forward) (url : Url)
      (sent : UpstreamRequest Url)
      → IsAdmitted digest_hex host req service
      → service.upstream ≡ some url
      → upstream_request crates url req.path_and_query req.method req.headers req.body_len ≡ ok sent
      → handle_http_stream digest_hex crates host req outcome
        ≡ then_run (forward sent ∷ []) (after_forward outcome)
  unfolding handle_http_stream forward_to_upstream_with_state
  handle_http_stream_admitted req service outcome url sent a n built =
      rw
        (
          validate_http_request_complete digest_hex host req a,
          n,
          handle_http_stream,
          built,
          forward_to_upstream_with_state,
        )
        refl

  forward_to_upstream_with_state-IsAnswered :
      (upstream : Url) (req : LochoRequestHead) (outcome : Forward)
      → (status : ℕ) × (heads
            (forward_to_upstream_with_state digest_hex crates host upstream req outcome).0
          ≡ status ∷ [])
  unfolding forward_to_upstream_with_state
  forward_to_upstream_with_state-IsAnswered upstream req outcome =
      elim (Result-cases
        (upstream_request crates upstream req.path_and_query req.method req.headers req.body_len)) [
          | inr (e, bad) ↦ rw (bad, forward_to_upstream_with_state) (502, refl)
          | inl (up, good) ↦
              rw (good, forward_to_upstream_with_state)
                (after_forward-IsAnswered digest_hex host outcome)
        ]

  http-IsAnswered :
      (req : LochoRequestHead) (outcome : Forward)
      → (status : ℕ) × (heads (handle_http_stream digest_hex crates host req outcome).0
          ≡ status ∷ [])
  unfolding handle_http_stream
  http-IsAnswered req outcome = elim (Result-cases (validate_http_request digest_hex host req)) [
    | inr (status, v) ↦ rw (v, handle_http_stream) (status, refl)
    | inl (service, v) ↦ elim (Option-cases service.upstream) [
      | inl n ↦ rw (v, n, handle_http_stream) (500, refl)
      | inr (up, n) ↦
          rw (v, n, handle_http_stream) (forward_to_upstream_with_state-IsAnswered up req outcome)
    ]
  ]

  -- Every stream is answered by exactly one response head, on every path: a head that did not come
  -- or cannot be read, a refused request, an upstream that fails before or after its own response
  -- head. The only exception is a run that ends since the host lacks the secret of a TCP service.
  pub handle_stream-IsAnswered :
      (first : Head) (outcome : Connect) (relayed : Bool) (forwarded : Forward)
      → IsAnswered digest_hex host
          (handle_stream digest_hex crates host first outcome relayed forwarded)
  unfolding handle_stream
  handle_stream-IsAnswered head_timed_out outcome relayed forwarded = inl (408, refl)
  handle_stream-IsAnswered malformed outcome relayed forwarded = inl (400, refl)
  handle_stream-IsAnswered (head (StreamRequestHead.http req)) outcome relayed forwarded =
      inl (http-IsAnswered req forwarded)
  handle_stream-IsAnswered (head (StreamRequestHead.tcp req)) outcome relayed forwarded =
      handle_tcp_stream-IsAnswered digest_hex host req outcome relayed
