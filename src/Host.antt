-- ===== src/Host.antt =====
-- src/host.rs: what the host does with one stream of a peer, up to the relaying of bytes. Network
-- outcomes are arguments; a run is the list of its effects, in order, and how it ended.
pub mod Tcp
pub mod Answers
pub mod Http
pub mod Secrets
pub mod Startup
use locho.Base.{
  ℕ, Bool, true, false, not, ◌||◌, ◌++◌, List, [], ◌∷◌, Option, none, some, Bytes, codes, str_eq,
  find, ◌==◌, if◌then◌else◌, Result, Checked, ok, err, ◌>>=◌, ◌>>◌, bail_if, ok_or, map_err, is_ok,
}
use locho.Service.{ServiceType, http, tcp, is_http}
use locho.Wire.{
  TcpRequestHead, LochoRequestHead, StreamRequestHead, LochoResponseHead, WireError,
  protocol_version,
}
use locho.Wire
use locho.Auth.{verify_secret_proof}
use locho.Headers.Request.{HttpCrates, UpstreamRequest, upstream_request}
use locho.Config.{
  ServiceConfig, StreamEndpoint, stream_endpoint, resolve_tcp_idle_timeout, http_request_timeout,
}

-- `tcp_available`: the permits left in the semaphore `tcp_connections`.
pub record HostServices (Url : Type 0) : Type 0 where
  pub services : List (ServiceConfig Url)
  pub secrets : List (Bytes × Bytes)
  pub tcp_available : ℕ

pub data Effect (Url : Type 0) : Type 0 where
  write_head : ℕ → Effect Url
  connect : StreamEndpoint → Effect Url
  relay : Option ℕ → Effect Url
  forward : UpstreamRequest Url → Effect Url

pub data HostError : Type 0 where
  missing_service_secret bad_idle_timeout relay_failed no_such_client : HostError

abbrev pub Run : Type 0 → Type 0
Run Url = List (Effect Url) × Checked HostError

abbrev pub lookup {ℓ} : {V : Type ℓ} → Bytes → List (Bytes × V) → Option V
lookup k [] = none
lookup k ((j, v) ∷ m) = if str_eq j k then some v else lookup k m

-- How the connection to the upstream went.
pub data Connect : Type 0 where
  connected refused timed_out : Connect

-- The response head without headers or body, of `write_error` and of an admitted TCP stream.
abbrev pub empty_response : ℕ → LochoResponseHead
empty_response status = record {
  version = protocol_version;
  status = status;
  headers = [];
  body_len = some 0;
}

-- `write_error`: a head without a body. Its own failure is not modelled.
abbrev pub write_error : {Url : Type 0} → ℕ → Run Url
write_error status = (write_head status ∷ [], ok tt)

abbrev pub then_run : {Url : Type 0} → List (Effect Url) → Run Url → Run Url
then_run effects run = (effects ++ run.0, run.1)

abbrev pub named : {Url : Type 0} → Bytes → List (ServiceConfig Url) → Option (ServiceConfig Url)
named service = find (λ s. str_eq s.name service)

module _ (digest_hex : Bytes → Bytes) {Url : Type 0} (host : HostServices Url) where
  -- `handle_tcp_stream`, from its last step to its first.
  tcp_relay : ServiceConfig Url → Bool → Run Url
  tcp_relay service relayed = elim (resolve_tcp_idle_timeout service.tcp_idle_timeout_secs) [
    | err e ↦ ([], err bad_idle_timeout)
    | ok idle ↦ (relay idle ∷ [], if relayed then ok tt else err relay_failed)
  ]

  tcp_connected : ServiceConfig Url → Connect → Bool → Run Url
  unfolding tcp_relay
  tcp_connected service connected relayed =
      then_run (write_head 200 ∷ []) (tcp_relay service relayed)
  tcp_connected service refused relayed = write_error 502
  tcp_connected service timed_out relayed = write_error 504

  tcp_admit : ServiceConfig Url → StreamEndpoint → Connect → Bool → Run Url
  unfolding tcp_connected
  tcp_admit service endpoint outcome relayed =
      if host.tcp_available == 0
      then write_error 429
      else then_run (connect endpoint ∷ []) (tcp_connected service outcome relayed)

  tcp_endpoint : ServiceType → ServiceConfig Url → Connect → Bool → Run Url
  unfolding tcp_admit
  tcp_endpoint http service outcome relayed = write_error 400
  tcp_endpoint tcp service outcome relayed = elim (stream_endpoint service) [
    | none ↦ write_error 400
    | some endpoint ↦ tcp_admit service endpoint outcome relayed
  ]

  tcp_authenticate : ServiceConfig Url → Bytes → Connect → Bool → Run Url
  unfolding tcp_endpoint
  tcp_authenticate service proof outcome relayed = elim (lookup service.name host.secrets) [
    | none ↦ ([], err missing_service_secret)
    | some secret ↦
        if is_ok (verify_secret_proof digest_hex secret proof)
        then tcp_endpoint service.service_type service outcome relayed
        else write_error 403
  ]

  -- `outcome` is how the connection to the upstream goes, if one is tried, and `relayed` whether
  -- the relay then ends without an error.
  unfoldable pub handle_tcp_stream : TcpRequestHead → Connect → Bool → Run Url
  unfolding tcp_authenticate
  handle_tcp_stream req outcome relayed =
      if not (req.version == protocol_version)
      then write_error 400
      else elim (named req.service host.services) [
        | none ↦ write_error 404
        | some service ↦ tcp_authenticate service req.secret_proof outcome relayed
      ]

  -- The service for which the request is admitted, or the status that refuses it.
  unfoldable pub validate_http_request : LochoRequestHead → Result ℕ (ServiceConfig Url)
  validate_http_request req = do
    bail_if (not (req.version == protocol_version)) 400
    service ← ok_or (named req.service host.services) 404
    bail_if (not (is_http service.service_type)) 400
    secret ← ok_or (lookup service.name host.secrets) 403
    map_err (verify_secret_proof digest_hex secret req.secret_proof) 403
    ok service

-- Why `forward_to_upstream_with_state` stopped before its end.
pub data Stop : Type 0 where
  deadline upstream_timeout body_limit other_failure : Stop

-- The status of the response head that it wrote, and whether it went on to the end.
pub data Forward : Type 0 where
  completed : ℕ → Forward
  stopped : Option ℕ → Stop → Forward

abbrev stop_status : Stop → ℕ
stop_status deadline = 504
stop_status upstream_timeout = 504
stop_status body_limit = 413
stop_status other_failure = 502

-- After the sending of the request: an error status is written only if no response head has been.
unfoldable pub after_forward : {Url : Type 0} → Forward → Run Url
after_forward (completed status) = (write_head status ∷ [], ok tt)
after_forward (stopped (some status) stop) = (write_head status ∷ [], ok tt)
after_forward (stopped none stop) = write_error (stop_status stop)

-- What came of reading the request head.
pub data Head : Type 0 where
  head : StreamRequestHead → Head
  head_timed_out malformed : Head

module _ (digest_hex : Bytes → Bytes) {Url : Type 0} (crates : HttpCrates Url)
    (host : HostServices Url) where
  -- `forward_to_upstream_with_state`: the request is built and sent, and `outcome` is what comes of
  -- it; where it cannot be built, nothing is sent.
  forward_to_upstream_with_state : Url → LochoRequestHead → Forward → Run Url
  unfolding after_forward upstream_request
  forward_to_upstream_with_state upstream req outcome =
      elim (upstream_request crates upstream req.path_and_query req.method req.headers
        req.body_len) [
          | err e ↦ after_forward (stopped none other_failure)
          | ok sent ↦ then_run (forward sent ∷ []) (after_forward outcome)
        ]

  unfoldable pub handle_http_stream : LochoRequestHead → Forward → Run Url
  unfolding forward_to_upstream_with_state
  handle_http_stream req outcome = elim (validate_http_request digest_hex host req) [
    | err status ↦ write_error status
    | ok service ↦ elim service.upstream [
      | none ↦ write_error 500
      | some upstream ↦ forward_to_upstream_with_state upstream req outcome
    ]
  ]

  unfoldable pub handle_stream : Head → Connect → Bool → Forward → Run Url
  unfolding handle_tcp_stream handle_http_stream
  handle_stream head_timed_out outcome relayed forwarded = write_error 408
  handle_stream malformed outcome relayed forwarded = write_error 400
  handle_stream (head (StreamRequestHead.http req)) outcome relayed forwarded =
      handle_http_stream req forwarded
  handle_stream (head (StreamRequestHead.tcp req)) outcome relayed forwarded =
      handle_tcp_stream digest_hex host req outcome relayed
