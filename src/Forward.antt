-- ===== src/Forward.antt =====
-- crates/locho-client-native/src/forward.rs: the listeners of local streams, each with its own
-- limit of connections, that share one more limit. A semaphore is the number of its permits left.
pub mod Permits
use locho.Base.{ℕ, zero, suc, ◌+◌, ◌-◌, Bool, true, false, List, [], ◌∷◌, ◌==◌, if◌then◌else◌}
use locho.Wire.{max_tcp_connections}

-- What `serve_listener` returns.
pub data Outcome : Type 0 where
  stopped accept_failed : Outcome

pub data Phase : Type 0 where
  serving : Phase
  draining ended : Outcome → Phase

-- The tasks that hold their permits still, and those that only wait to be joined.
pub record Listener : Type 0 where
  pub phase : Phase
  pub connections : ℕ
  pub running : ℕ
  pub finished : ℕ

abbrev pub bound : Listener
bound = record { phase = serving; connections = max_tcp_connections; running = 0; finished = 0 }

-- What may happen to a listener next.
pub data Event : Type 0 where
  shutdown_requested connection_accepted accept_stopped accept_error : Event
  task_ended task_joined deadline_reached : Event

-- A local stream was accepted: it takes both permits, or it is dropped and takes none.
unfoldable pub take_permits : Listener → ℕ → Listener × ℕ
take_permits listener total =
    if listener.connections == 0
    then (listener, total)
    else if total == 0
    then (listener, total)
    else (
      record listener { connections = listener.connections - 1; running = suc listener.running },
      total - 1,
    )

-- `forward_connection` returned: its permits are dropped.
abbrev pub end_task : Listener → ℕ → ℕ → Listener × ℕ
end_task listener zero total = (listener, total)
end_task listener (suc running) total = (
  record listener {
    connections = suc listener.connections;
    running = running;
    finished = suc listener.finished;
  },
  suc total,
)

-- `abort_all`: every task is dropped, with its permits.
abbrev pub abort_all : Listener → ℕ → Listener × ℕ
abort_all listener total = (
  record listener {
    connections = listener.connections + listener.running;
    running = 0;
    finished = listener.finished + listener.running;
  },
  total + listener.running,
)

-- `join_next` while draining: without tasks it gives `None`, and the listener has ended.
abbrev pub drain : Outcome → Listener → ℕ → Listener
drain outcome listener zero =
    if listener.running == 0 then record listener { phase = ended outcome } else listener
drain outcome listener (suc finished) = record listener { finished = finished }

unfoldable pub serve : Phase → Event → Listener → ℕ → Listener × ℕ
unfolding take_permits
serve (ended outcome) event listener total = (listener, total)
serve phase task_ended listener total = end_task listener listener.running total
serve serving shutdown_requested listener total =
    (record listener { phase = draining stopped }, total)
serve serving connection_accepted listener total = take_permits listener total
serve serving accept_stopped listener total = (record listener { phase = draining stopped }, total)
serve serving accept_error listener total =
    (record listener { phase = draining accept_failed }, total)
serve serving task_joined listener total =
    (record listener { finished = listener.finished - 1 }, total)
serve serving deadline_reached listener total = (listener, total)
serve (draining outcome) task_joined listener total =
    (drain outcome listener listener.finished, total)
serve (draining outcome) deadline_reached listener total = abort_all listener total
serve (draining outcome) event listener total = (listener, total)

abbrev pub placed : List Listener → Listener × ℕ → List Listener × ℕ
placed listeners (listener, total) = (listener ∷ listeners, total)

abbrev pub beside : Listener → List Listener × ℕ → List Listener × ℕ
beside listener (listeners, total) = (listener ∷ listeners, total)

-- An event of one of the listeners, by its place.
unfoldable pub happens : ℕ → Event → List Listener → ℕ → List Listener × ℕ
unfolding serve
happens place event [] total = ([], total)
happens zero event (listener ∷ listeners) total =
    placed listeners (serve listener.phase event listener total)
happens (suc place) event (listener ∷ listeners) total =
    beside listener (happens place event listeners total)

abbrev pub all_bound : ℕ → List Listener
all_bound zero = []
all_bound (suc n) = bound ∷ all_bound n

-- The listeners and the permits left for them together, after any events in any order.
pub data IsReachable (count limit : ℕ) : List Listener → ℕ → Type 0 where
  at_start : IsReachable count limit (all_bound count) limit
  after :
      (listeners : List Listener) (total place : ℕ) (event : Event)
      → IsReachable count limit listeners total
      → IsReachable count limit
          (happens place event listeners total).0
          (happens place event listeners total).1
