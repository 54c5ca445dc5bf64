-- ===== src/Session/Consistent.antt =====
-- What holds of a session at every point, whatever the driver finds and the leases and owners do.
use locho.Base.{
  ℕ, ◌≤◌, Bool, true, false, List, Option, none, some, codes, ◌≡◌, ◌≢◌, refl, ◌∙◌, ◌⊎◌, inl, inr,
  arith, not, ◌&&◌, Bool-cases, Option-cases,
}
use locho.Session.Status.{
  SessionState, connected, closing, closed, unknown, SessionError, SessionStatus, update, PathInfo,
  path, is_connected,
}
use locho.Session.Backoff.{initial_backoff, max_backoff, next_backoff_bounds}
use locho.Session.{
  ActiveConnection, Phase, withdrawing, cleanup, done, watching, selecting, Session, Attempt,
  established, refused, timed_out, Event, connection_closed, stable_elapsed, invalidated,
  paths_ended, path_update, attempt_state, endpoint_stopped, finish, loop_head, attempted, publish,
  attempt_failed, lost, waited, watched, selected,
}

-- A connection of this generation is published, or none.
abbrev pub Holds : Option ActiveConnection → ℕ → Type 0
Holds active generation =
    (active ≡ none)
    ⊎ ((connection : ℕ) × (active
          ≡ some (record { generation = generation; connection = connection })))

-- The phase against the rest: only a driver that watches a connection may have published one, and
-- then it is that one, in its generation, until it is withdrawn; it ends only after a shutdown.
abbrev pub Agrees : Phase → Option ActiveConnection → ℕ → SessionState → Bool → Type 0
Agrees (watching connection is_stable) active generation state is_cancelled =
    (state ≡ connected)
    × ((active ≡ none)
        ⊎ (active ≡ some (record { generation = generation; connection = connection })))
Agrees (selecting connection is_stable) active generation state is_cancelled =
    (state ≡ connected)
    × ((active ≡ none)
        ⊎ (active ≡ some (record { generation = generation; connection = connection })))
Agrees withdrawing active generation state is_cancelled =
    (state ≡ closing) × (is_cancelled ≡ true) × Holds active generation
Agrees cleanup active generation state is_cancelled =
    (active ≡ none) × (state ≡ closing) × (is_cancelled ≡ true)
Agrees done active generation state is_cancelled =
    (active ≡ none) × (state ≡ closed) × (is_cancelled ≡ true)
Agrees _ active generation state is_cancelled =
    (active ≡ none) × (is_connected state ≡ false) × (state ≢ closed)

-- A path is shown only while the session is connected.
abbrev pub PathIsCurrent : SessionStatus → Type 0
PathIsCurrent status =
    is_connected status.state ≡ false
    → (status.path ≡ unknown) × (status.path_description ≡ codes "none")

pub record IsConsistent (s : Session) : Type 0 where
  pub agrees : Agrees s.phase s.active s.generation s.status.state s.is_cancelled
  pub current : PathIsCurrent s.status
  pub backoff : (initial_backoff ≤ s.backoff) × (s.backoff ≤ max_backoff)

update-PathIsCurrent :
    (state : SessionState) (error : Option SessionError) (status : SessionStatus)
    → PathIsCurrent (update state error status)
unfolding update
update-PathIsCurrent state error status off = rw off (refl, refl)

path-state :
    (paths : List PathInfo) (status : SessionStatus) → (path paths status).state ≡ status.state
unfolding path
path-state paths status = ground arith

path-PathIsCurrent :
    (paths : List PathInfo) (status : SessionStatus)
    → status.state ≡ connected
    → PathIsCurrent (path paths status)
path-PathIsCurrent paths status on off = absurd (ground (arith, on, off, path-state paths status))

pub finish-IsConsistent :
    (s : Session)
    → s.is_cancelled ≡ true
    → Holds s.active s.generation
    → (initial_backoff ≤ s.backoff) × (s.backoff ≤ max_backoff)
    → IsConsistent (finish s)
unfolding finish update
finish-IsConsistent s stop held backoff = record {
  agrees = (refl, stop, held);
  current = λ off. (refl, refl);
  backoff = backoff;
}

abbrev pub BackoffInRange : ℕ → Type 0
BackoffInRange backoff = (initial_backoff ≤ backoff) × (backoff ≤ max_backoff)

attempt_state-off :
    (recovering : Bool)
    → (is_connected (attempt_state recovering) ≡ false) × (attempt_state recovering ≢ closed)
attempt_state-off true = (refl, ground arith)
attempt_state-off false = (refl, ground arith)

pub loop_head-IsConsistent :
    (endpoint_is_closed : Bool) (s : Session)
    → Agrees Phase.start s.active s.generation s.status.state s.is_cancelled
    → BackoffInRange s.backoff
    → IsConsistent (loop_head endpoint_is_closed s)
unfolding loop_head update
loop_head-IsConsistent closed_now s agrees backoff =
    elim (Bool-cases (closed_now && not s.is_cancelled)) [
      | inl stop ↦
          rw (stop, loop_head)
            (finish-IsConsistent (endpoint_stopped s) refl (inl agrees.0) backoff)
      | inr go ↦
          rw (go, loop_head)
            (record {
              agrees = (
                agrees.0,
                (attempt_state-off s.recovering).0,
                (attempt_state-off s.recovering).1,
              );
              current = update-PathIsCurrent _ none s.status;
              backoff = backoff;
            })
    ]

attempt_failed-IsConsistent :
    (error : SessionError) (s : Session)
    → s.active ≡ none
    → BackoffInRange s.backoff
    → IsConsistent (attempt_failed error s)
unfolding attempt_failed update
attempt_failed-IsConsistent error s none_active backoff = record {
  agrees = (none_active, (attempt_state-off s.recovering).0, (attempt_state-off s.recovering).1);
  current = update-PathIsCurrent _ (some error) s.status;
  backoff = backoff;
}

publish-IsConsistent :
    (connection : ℕ) (paths : List PathInfo) (s : Session)
    → BackoffInRange s.backoff
    → IsConsistent (publish connection paths s)
unfolding publish update
publish-IsConsistent connection paths s backoff = record {
  agrees = (path-state paths (update connected none s.status), inr refl);
  current = path-PathIsCurrent paths (update connected none s.status) refl;
  backoff = backoff;
}

lost-IsConsistent :
    (connection : ℕ) (s : Session) → BackoffInRange s.backoff → IsConsistent (lost connection s)
unfolding lost update
lost-IsConsistent connection s backoff = record {
  agrees = (refl, refl, ground arith);
  current = λ off. (refl, refl);
  backoff = backoff;
}

pub attempted-IsConsistent :
    (attempt : Attempt) (s : Session)
    → s.active ≡ none
    → BackoffInRange s.backoff
    → IsConsistent (attempted attempt s)
unfolding attempted
attempted-IsConsistent (established connection paths) s off backoff =
    publish-IsConsistent connection paths s backoff
attempted-IsConsistent refused s off backoff = attempt_failed-IsConsistent _ s off backoff
attempted-IsConsistent timed_out s off backoff = attempt_failed-IsConsistent _ s off backoff

pub waited-IsConsistent :
    (after_failure : Bool) (s : Session)
    → Agrees Phase.start s.active s.generation s.status.state s.is_cancelled
    → PathIsCurrent s.status
    → BackoffInRange s.backoff
    → IsConsistent (waited after_failure s)
unfolding waited
waited-IsConsistent after_failure s agrees current backoff = record {
  agrees = agrees;
  current = current;
  backoff = elim (Bool-cases (after_failure && not s.recovering)) [
    | inl grow ↦ rw grow (next_backoff_bounds s.backoff backoff.0 backoff.1)
    | inr keep ↦ rw keep backoff
  ];
}

pub watched-IsConsistent :
    (connection : ℕ) (is_stable : Bool) (active : Option ActiveConnection) (s : Session)
    → s.active ≡ active
    → Agrees (watching connection is_stable) s.active s.generation s.status.state s.is_cancelled
    → PathIsCurrent s.status
    → BackoffInRange s.backoff
    → IsConsistent (watched connection is_stable active s)
unfolding watched
watched-IsConsistent connection is_stable none s same agrees current backoff =
    lost-IsConsistent connection s backoff
watched-IsConsistent connection is_stable (some active) s same agrees current backoff = record {
  agrees = agrees;
  current = current;
  backoff = backoff;
}

pub selected-IsConsistent :
    (connection : ℕ) (is_stable : Bool) (event : Event) (s : Session)
    → s.phase ≡ selecting connection is_stable
    → IsConsistent s
    → Agrees (selecting connection is_stable) s.active s.generation s.status.state s.is_cancelled
    → IsConsistent (selected connection is_stable event s)
unfolding selected
selected-IsConsistent connection is_stable connection_closed s same h agrees =
    lost-IsConsistent connection s h.backoff
selected-IsConsistent connection true stable_elapsed s same h agrees = h
selected-IsConsistent connection false stable_elapsed s same h agrees = record {
  agrees = agrees;
  current = h.current;
  backoff = (ground arith, ground arith);
}
selected-IsConsistent connection is_stable invalidated s same h agrees =
    elim (Option-cases s.active) [
      | inl off ↦ rw (off, selected) (lost-IsConsistent connection s h.backoff)
      | inr (active, on) ↦
          rw (on, selected) (record { agrees = agrees; current = h.current; backoff = h.backoff })
    ]
selected-IsConsistent connection is_stable paths_ended s same h agrees =
    lost-IsConsistent connection s h.backoff
selected-IsConsistent connection is_stable (path_update paths) s same h agrees = record {
  agrees = (path-state paths s.status ∙ agrees.0, agrees.1);
  current = path-PathIsCurrent paths s.status agrees.0;
  backoff = h.backoff;
}
