-- ===== src/Tests/Sessions.antt =====
-- A peer session that connects, is asked to end, and its handshakes.
use locho.Base.{true, false, [], ◌∷◌, ◌++◌, none, some, codes, ◌≡◌, ◌≢◌, refl, arith, ok, err}
use locho.Service.{tcp}
use locho.Capability.{Capability}
use locho.Wire.{StreamRequestHead, LochoResponseHead, Codec, write_json_head, to_be_bytes}
use locho.Host.{empty_response}
use locho.Session.Status.{connected, service_rejected, update, path, format_transport_paths}
use locho.Session.{
  Session, done, started, World, established, stable_elapsed, drive, drive_from, loop_head,
  attempted, publish, request_shutdown, ConnectionLease, acquire, invalidate, close_result,
  terminal_result,
}
use locho.Session.Consistent.{IsConsistent}
use locho.Session.Steps.{
  IsReachable, at_start, after, driven, shutdown_requested, reachable-IsConsistent,
}
use locho.Session.Lease.{IsWatching, acquire_lem, invalidate-stale}
use locho.Session.Shutdown.{shutdown_ends}
use locho.Session.Authorize.{authorize_tcp, request_of, authorize_tcp_answered}

-- The endpoint is open, and an attempt gives connection 7, without a known path.
abbrev world : World
world = record {
  endpoint_is_closed = false;
  attempt = established 7 [];
  event = stable_elapsed;
  cleaned = true;
}

abbrev online : Session
online = drive world (drive world started)

online-IsReachable : IsReachable online
online-IsReachable =
    after (after at_start (driven world started)) (driven world (drive world started))

abbrev stopping : Session
stopping = request_shutdown online

stopping-IsReachable : IsReachable stopping
stopping-IsReachable = after online-IsReachable (shutdown_requested online)

stopping_cancelled : stopping.is_cancelled ≡ true
unfolding request_shutdown
stopping_cancelled = refl

abbrev current : ConnectionLease
current = record { connection = 7; generation = 1 }

abbrev old : ConnectionLease
old = record { connection = 3; generation = 0 }

online_acquired : acquire online ≡ some (ok current)
unfolding acquire drive drive_from loop_head attempted publish update path format_transport_paths
online_acquired = refl

online_generation : online.generation ≡ 1
unfolding drive drive_from loop_head attempted publish
online_generation = refl

old_is_stale : old.generation ≢ online.generation
old_is_stale h = absurd (omega (arith, online_generation, h))

reachable-IsConsistent_example : IsConsistent online
reachable-IsConsistent_example = reachable-IsConsistent online online-IsReachable

shutdown_ends_example :
    ((drive world (drive world (drive world (drive world stopping)))).phase ≡ done)
    × ((drive world (drive world (drive world (drive world stopping)))).active ≡ none)
    × (close_result (drive world (drive world (drive world (drive world stopping))))
        ≡ some (
            terminal_result
              (drive world
                (drive world (drive world (drive world stopping)))).status.terminal_error))
shutdown_ends_example =
    shutdown_ends stopping world world world world stopping-IsReachable stopping_cancelled

acquire_lem_example :
    (online.is_cancelled ≡ false)
    × (1 ≡ online.generation)
    × (online.status.state ≡ connected)
    × IsWatching online.phase 7
acquire_lem_example = acquire_lem online current online-IsReachable online_acquired

invalidate-stale_example : invalidate old online ≡ online
invalidate-stale_example = invalidate-stale online old online-IsReachable old_is_stale

abbrev ssh : Capability
ssh = record { service = codes "ssh"; service_type = tcp; secret = codes "s3" }

-- Codecs for the one request and the one response of this run.
abbrev requests : Codec StreamRequestHead
requests = record { to_vec = λ head. some (1 ∷ []); from_slice = λ json. none }

abbrev responses : Codec LochoResponseHead
responses = record {
  to_vec = λ head. some (2 ∷ []);
  from_slice = λ json. some (empty_response 403);
}

sent :
    write_json_head requests (request_of (λ b. b) requests responses ssh)
    ≡ ok (0 ∷ 0 ∷ 0 ∷ 1 ∷ 1 ∷ [])
unfolding write_json_head to_be_bytes
sent = refl

answered : write_json_head responses (empty_response 403) ≡ ok (0 ∷ 0 ∷ 0 ∷ 1 ∷ 2 ∷ [])
unfolding write_json_head to_be_bytes
answered = refl

authorize_tcp_answered_example :
    authorize_tcp (λ b. b) requests responses ssh ((0 ∷ 0 ∷ 0 ∷ 1 ∷ 2 ∷ []) ++ [])
    ≡ err (service_rejected 403)
authorize_tcp_answered_example =
    authorize_tcp_answered (λ b. b) requests responses ssh 403 [] sent (omega arith) (omega arith)
      refl refl (omega arith) answered
