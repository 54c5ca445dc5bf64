-- ===== src/Session.antt =====
-- crates/locho-core/src/session.rs: the owner of a peer session, its leases, and the driver that
-- keeps it connected. The driver is a state machine whose phases are the points where `supervise`
-- and `run` wait; a lease or an owner may act between any two of its steps.
pub mod Status
pub mod Backoff
pub mod Consistent
pub mod Steps
pub mod Lease
pub mod Authorize
pub mod Shutdown
use locho.Base.{
  ℕ, Bool, true, false, not, ◌&&◌, ◌||◌, List, [], ◌∷◌, Option, none, some, codes, ◌==◌,
  if◌then◌else◌, Result, Checked, ok, err,
}
use locho.Session.Status.{
  SessionState, connecting, connected, reconnecting, failed, closing, closed, unknown, SessionError,
  timeout, transport, driver_stopped, connect, shutdown, SessionStatus, initial_status, bump,
  update, PathInfo, path,
}
use locho.Session.Backoff.{initial_backoff, next_backoff, reconnect_delay}

-- A connection is the number under which the endpoint knows it.
pub record ActiveConnection : Type 0 where
  pub generation : ℕ
  pub connection : ℕ

-- `waiting after_failure delay` is the wait of `retry`: after an attempt that failed, or
-- after a connection that was lost. `watching` and `selecting` are the head of the inner loop and
-- its `select!`, with the connection and `is_stable`. `withdrawing` is between the two writes at the
-- end of `run`.
pub data Phase : Type 0 where
  start attempting withdrawing cleanup done : Phase
  waiting : Bool → ℕ → Phase
  watching selecting : ℕ → Bool → Phase

pub record Session : Type 0 where
  pub phase : Phase
  pub status : SessionStatus
  pub active : Option ActiveConnection
  pub is_cancelled : Bool
  pub recovering : Bool
  pub backoff : ℕ
  pub generation : ℕ
  pub closed_connections : List ℕ

-- `PeerSession::start`, and the first lines of `supervise`.
abbrev pub started : Session
started = record {
  phase = Phase.start;
  status = initial_status;
  active = none;
  is_cancelled = false;
  recovering = false;
  backoff = initial_backoff;
  generation = 0;
  closed_connections = [];
}

pub data Attempt : Type 0 where
  established : ℕ → List PathInfo → Attempt
  refused timed_out : Attempt

-- What the inner `select!` sees first, after the shutdown.
pub data Event : Type 0 where
  connection_closed stable_elapsed invalidated paths_ended : Event
  path_update : List PathInfo → Event

-- What the driver finds at a step; each phase looks at its part.
pub record World : Type 0 where
  pub endpoint_is_closed : Bool
  pub attempt : Attempt
  pub event : Event
  pub cleaned : Bool

-- `run`, once `supervise` has returned: first the status is written, and then the connection.
unfoldable pub finish : Session → Session
finish s = record s { phase = withdrawing; status = update closing none s.status }

-- `self.connections.send_replace(None)`
unfoldable pub withdraw : Session → Session
withdraw s = record s { phase = cleanup; active = none }

abbrev pub attempt_state : Bool → SessionState
attempt_state recovering = if recovering then reconnecting else connecting

abbrev with_terminal_error : SessionError → SessionStatus → SessionStatus
with_terminal_error error status = record status {
  revision = bump status.revision;
  terminal_error = some error;
}

-- The endpoint was closed by someone else.
abbrev pub endpoint_stopped : Session → Session
endpoint_stopped s = record s {
  status = with_terminal_error driver_stopped (update failed (some driver_stopped) s.status);
  is_cancelled = true;
}

unfoldable pub loop_head : Bool → Session → Session
unfolding finish
loop_head endpoint_is_closed s =
    if endpoint_is_closed && not s.is_cancelled
    then finish (endpoint_stopped s)
    else record s { phase = attempting; status = update (attempt_state s.recovering) none s.status }

unfoldable pub attempt_failed : SessionError → Session → Session
attempt_failed error s = record s {
  phase = waiting true (reconnect_delay s.recovering s.backoff);
  status = update (attempt_state s.recovering) (some error) s.status;
}

unfoldable pub publish : ℕ → List PathInfo → Session → Session
publish connection paths s = record s {
  phase = watching connection false;
  generation = bump s.generation;
  status = path paths (update connected none s.status);
  active = some (record { generation = bump s.generation; connection = connection });
}

unfoldable pub attempted : Attempt → Session → Session
unfolding attempt_failed publish
attempted (established connection paths) s = publish connection paths s
attempted refused s = attempt_failed (transport connect) s
attempted timed_out s = attempt_failed (timeout connect) s

-- `connection.close`
abbrev pub close_connection : ℕ → Session → Session
close_connection connection s = record s { closed_connections = connection ∷ s.closed_connections }

-- The end of the outer loop: the connection is given up, and the driver waits to reconnect.
unfoldable pub lost : ℕ → Session → Session
lost connection s = record s {
  phase = waiting false (reconnect_delay true s.backoff);
  status = update reconnecting (some (transport connect)) s.status;
  active = none;
  recovering = true;
  closed_connections = connection ∷ s.closed_connections;
}

unfoldable pub waited : Bool → Session → Session
waited after_failure s = record s {
  phase = Phase.start;
  backoff = if after_failure && not s.recovering then next_backoff s.backoff else s.backoff;
}

unfoldable pub watched : ℕ → Bool → Option ActiveConnection → Session → Session
unfolding lost
watched connection is_stable none s = lost connection s
watched connection is_stable (some active) s = record s { phase = selecting connection is_stable }

unfoldable pub selected : ℕ → Bool → Event → Session → Session
unfolding lost watched
selected connection is_stable connection_closed s = lost connection s
selected connection is_stable stable_elapsed s =
    if is_stable
    then s
    else record s { phase = watching connection true; backoff = initial_backoff }
selected connection is_stable invalidated s = elim s.active [
  | none ↦ lost connection s
  | some active ↦ record s { phase = watching connection is_stable }
]
selected connection is_stable paths_ended s = lost connection s
selected connection is_stable (path_update paths) s = record s {
  phase = watching connection is_stable;
  status = path paths s.status;
}

unfoldable pub cleaned_up : Bool → Session → Session
cleaned_up cleaned s = record s {
  phase = done;
  status = record s.status {
    revision = bump s.status.revision;
    state = closed;
    terminal_error = if cleaned then s.status.terminal_error else some (timeout shutdown);
  };
}

-- One step of the driver, to its next wait, or between the two writes of `run`. Each wait is a biased `select!` that looks at the shutdown first.
unfoldable pub drive_from : Phase → World → Session → Session
unfolding finish withdraw loop_head attempted waited watched selected cleaned_up
drive_from Phase.start w s = loop_head w.endpoint_is_closed s
drive_from attempting w s = if s.is_cancelled then finish s else attempted w.attempt s
drive_from (waiting after_failure delay) w s =
    if s.is_cancelled then finish s else waited after_failure s
drive_from (watching connection is_stable) w s = watched connection is_stable s.active s
drive_from (selecting connection is_stable) w s =
    if s.is_cancelled
    then finish (close_connection connection s)
    else selected connection is_stable w.event s
drive_from withdrawing w s = withdraw s
drive_from cleanup w s = cleaned_up w.cleaned s
drive_from done w s = s

unfoldable pub drive : World → Session → Session
unfolding drive_from
drive w s = drive_from s.phase w s

pub record ConnectionLease : Type 0 where
  pub connection : ℕ
  pub generation : ℕ

-- `PeerSession::acquire` at one look: `none` while it waits.
unfoldable pub acquire : Session → Option (Result SessionError ConnectionLease)
acquire s = if s.is_cancelled then some (err closed) else elim s.active [
  | none ↦ none
  | some active ↦
      some (ok (record { connection = active.connection; generation = active.generation }))
]

abbrev pub invalidate_active : ℕ → Option ActiveConnection → Option ActiveConnection
invalidate_active generation none = none
invalidate_active generation (some active) =
    if active.generation == generation then none else some active

-- `ConnectionLease::invalidate`
unfoldable pub invalidate : ConnectionLease → Session → Session
invalidate lease s = record s { active = invalidate_active lease.generation s.active }

-- `close_inner` before its loop, and the drop of the last owner.
unfoldable pub request_shutdown : Session → Session
request_shutdown s = record s { is_cancelled = true }

abbrev pub terminal_result : Option SessionError → Checked SessionError
terminal_result none = ok tt
terminal_result (some error) = err error

-- `close_inner` at one look: `none` while it waits.
unfoldable pub close_result : Session → Option (Checked SessionError)
close_result s = elim s.status.state [
  | closed ↦ some (terminal_result s.status.terminal_error)
  | _ ↦ none
]

-- `Drop` of the driver.
unfoldable pub drop_driver_from : Phase → Session → Session
drop_driver_from done s = s
drop_driver_from _ s = record s {
  phase = done;
  is_cancelled = true;
  active = none;
  closed_connections = elim s.active [
    | none ↦ s.closed_connections
    | some active ↦ active.connection ∷ s.closed_connections
  ];
  status = record {
    revision = bump s.status.revision;
    state = closed;
    path = unknown;
    path_description = codes "none";
    last_error = some driver_stopped;
    terminal_error = some driver_stopped;
  };
}

unfoldable pub drop_driver : Session → Session
unfolding drop_driver_from
drop_driver s = drop_driver_from s.phase s
