-- ===== src/Session/Steps.antt =====
-- Consistency is kept by every step of the driver, a lease and an owner; what a lease can reach.
use locho.Base.{
  ℕ, Bool, true, false, Option, none, some, ◌≡◌, refl, ap, ◌⊎◌, inl, inr, arith, Bool-cases,
  if◌then◌else◌, ◌==◌,
}
use locho.Session.Status.{SessionState, is_connected}
use locho.Session.{
  ActiveConnection, Phase, attempting, withdrawing, cleanup, done, waiting, watching, selecting,
  Session, started, World, close_connection, withdraw, invalidate_active, cleaned_up, drive_from,
  drive, ConnectionLease, invalidate, request_shutdown, drop_driver_from, drop_driver,
}
use locho.Session.Consistent.{
  Holds, Agrees, IsConsistent, finish-IsConsistent, loop_head-IsConsistent, attempted-IsConsistent,
  waited-IsConsistent, watched-IsConsistent, selected-IsConsistent,
}

if-IsConsistent :
    (b : Bool) {s t : Session}
    → (b ≡ true → IsConsistent s)
    → (b ≡ false → IsConsistent t)
    → IsConsistent (if b then s else t)
if-IsConsistent true on off = on refl
if-IsConsistent false on off = off refl

held :
    (connection : ℕ) (active : Option ActiveConnection) (generation : ℕ)
    → (active ≡ none)
      ⊎ (active ≡ some (record { generation = generation; connection = connection }))
    → Holds active generation
held connection active generation (inl off) = inl off
held connection active generation (inr on) = inr (connection, on)

drive_from-IsConsistent :
    (phase : Phase) (w : World) (s : Session)
    → s.phase ≡ phase
    → IsConsistent s
    → Agrees phase s.active s.generation s.status.state s.is_cancelled
    → IsConsistent (drive_from phase w s)
unfolding drive_from cleaned_up withdraw
drive_from-IsConsistent Phase.start w s same h agrees =
    loop_head-IsConsistent w.endpoint_is_closed s agrees h.backoff
drive_from-IsConsistent attempting w s same h agrees =
    if-IsConsistent s.is_cancelled (λ stop. finish-IsConsistent s stop (inl agrees.0) h.backoff)
      (λ go. attempted-IsConsistent w.attempt s agrees.0 h.backoff)
drive_from-IsConsistent (waiting after_failure delay) w s same h agrees =
    if-IsConsistent s.is_cancelled (λ stop. finish-IsConsistent s stop (inl agrees.0) h.backoff)
      (λ go. waited-IsConsistent after_failure s agrees h.current h.backoff)
drive_from-IsConsistent (watching connection is_stable) w s same h agrees =
    watched-IsConsistent connection is_stable s.active s refl agrees h.current h.backoff
drive_from-IsConsistent (selecting connection is_stable) w s same h agrees =
    if-IsConsistent s.is_cancelled
      (λ stop.
        finish-IsConsistent (close_connection connection s) stop
          (held connection s.active s.generation agrees.1) h.backoff)
      (λ go. selected-IsConsistent connection is_stable w.event s same h agrees)
drive_from-IsConsistent withdrawing w s same h agrees = record {
  agrees = (refl, agrees.0, agrees.1);
  current = h.current;
  backoff = h.backoff;
}
drive_from-IsConsistent cleanup w s same h agrees = record {
  agrees = (agrees.0, refl, agrees.2);
  current = λ off. h.current (ap is_connected agrees.1);
  backoff = h.backoff;
}
drive_from-IsConsistent done w s same h agrees = h

drive-IsConsistent : (w : World) (s : Session) → IsConsistent s → IsConsistent (drive w s)
unfolding drive
drive-IsConsistent w s h = drive_from-IsConsistent s.phase w s refl h h.agrees

invalidate-none :
    (generation : ℕ) (active : Option ActiveConnection)
    → active ≡ none
    → invalidate_active generation active ≡ none
invalidate-none generation none off = refl
invalidate-none generation (some active) off = absurd (ground arith)

invalidate-published :
    (generation : ℕ) (active : Option ActiveConnection) (published : ActiveConnection)
    → (active ≡ none) ⊎ (active ≡ some published)
    → (invalidate_active generation active ≡ none)
      ⊎ (invalidate_active generation active ≡ some published)
invalidate-published generation none published h = inl refl
invalidate-published generation (some active) published h =
    elim (Bool-cases (active.generation == generation)) [
      | inl hit ↦ inl (rw hit refl)
      | inr miss ↦ rw miss h
    ]

invalidate-Agrees :
    (phase : Phase) (lease : ℕ) (active : Option ActiveConnection) (generation : ℕ)
    (state : SessionState) (c : Bool)
    → Agrees phase active generation state c
    → Agrees phase (invalidate_active lease active) generation state c
invalidate-Agrees Phase.start lease active generation state c h =
    (invalidate-none lease active h.0, h.1, h.2)
invalidate-Agrees attempting lease active generation state c h =
    (invalidate-none lease active h.0, h.1, h.2)
invalidate-Agrees (waiting after_failure delay) lease active generation state c h =
    (invalidate-none lease active h.0, h.1, h.2)
invalidate-Agrees (watching connection is_stable) lease active generation state c h =
    (h.0, invalidate-published lease _ _ h.1)
invalidate-Agrees (selecting connection is_stable) lease active generation state c h =
    (h.0, invalidate-published lease _ _ h.1)
invalidate-Agrees withdrawing lease active generation state c (shut, stop, inl off) =
    (shut, stop, inl (invalidate-none lease active off))
invalidate-Agrees withdrawing lease active generation state c (shut, stop, inr (conn, on)) =
    (shut, stop, held conn _ generation (invalidate-published lease active _ (inr on)))
invalidate-Agrees cleanup lease active generation state c h =
    (invalidate-none lease active h.0, h.1, h.2)
invalidate-Agrees done lease active generation state c h =
    (invalidate-none lease active h.0, h.1, h.2)

invalidate-IsConsistent :
    (lease : ConnectionLease) (s : Session) → IsConsistent s → IsConsistent (invalidate lease s)
unfolding invalidate
invalidate-IsConsistent lease s h = record {
  agrees =
      invalidate-Agrees s.phase lease.generation s.active s.generation s.status.state s.is_cancelled
        h.agrees;
  current = h.current;
  backoff = h.backoff;
}

shutdown-Agrees :
    (phase : Phase) (active : Option ActiveConnection) (generation : ℕ) (state : SessionState)
    (c : Bool)
    → Agrees phase active generation state c
    → Agrees phase active generation state true
shutdown-Agrees Phase.start active generation state c h = h
shutdown-Agrees attempting active generation state c h = h
shutdown-Agrees (waiting after_failure delay) active generation state c h = h
shutdown-Agrees (watching connection is_stable) active generation state c h = h
shutdown-Agrees (selecting connection is_stable) active generation state c h = h
shutdown-Agrees withdrawing active generation state c h = (h.0, refl, h.2)
shutdown-Agrees cleanup active generation state c h = (h.0, h.1, refl)
shutdown-Agrees done active generation state c h = (h.0, h.1, refl)

request_shutdown-IsConsistent : (s : Session) → IsConsistent s → IsConsistent (request_shutdown s)
unfolding request_shutdown
request_shutdown-IsConsistent s h = record {
  agrees = shutdown-Agrees s.phase s.active s.generation s.status.state s.is_cancelled h.agrees;
  current = h.current;
  backoff = h.backoff;
}

drop_driver_from-IsConsistent :
    (phase : Phase) (s : Session) → IsConsistent s → IsConsistent (drop_driver_from phase s)
unfolding drop_driver_from
drop_driver_from-IsConsistent done s h = h
drop_driver_from-IsConsistent Phase.start s h = record {
  agrees = (refl, refl, refl);
  current = λ off. (refl, refl);
  backoff = h.backoff;
}
drop_driver_from-IsConsistent attempting s h = record {
  agrees = (refl, refl, refl);
  current = λ off. (refl, refl);
  backoff = h.backoff;
}
drop_driver_from-IsConsistent withdrawing s h = record {
  agrees = (refl, refl, refl);
  current = λ off. (refl, refl);
  backoff = h.backoff;
}
drop_driver_from-IsConsistent cleanup s h = record {
  agrees = (refl, refl, refl);
  current = λ off. (refl, refl);
  backoff = h.backoff;
}
drop_driver_from-IsConsistent (waiting after_failure delay) s h = record {
  agrees = (refl, refl, refl);
  current = λ off. (refl, refl);
  backoff = h.backoff;
}
drop_driver_from-IsConsistent (watching connection is_stable) s h = record {
  agrees = (refl, refl, refl);
  current = λ off. (refl, refl);
  backoff = h.backoff;
}
drop_driver_from-IsConsistent (selecting connection is_stable) s h = record {
  agrees = (refl, refl, refl);
  current = λ off. (refl, refl);
  backoff = h.backoff;
}

drop_driver-IsConsistent : (s : Session) → IsConsistent s → IsConsistent (drop_driver s)
unfolding drop_driver
drop_driver-IsConsistent s h = drop_driver_from-IsConsistent s.phase s h

-- One action of the driver, of a lease, or of the owners.
pub data Step : Session → Session → Type 0 where
  driven : (w : World) (s : Session) → Step s (drive w s)
  lease_invalidated : (lease : ConnectionLease) (s : Session) → Step s (invalidate lease s)
  shutdown_requested : (s : Session) → Step s (request_shutdown s)
  driver_dropped : (s : Session) → Step s (drop_driver s)

-- The sessions that some interleaving of actions leads to.
pub data IsReachable : Session → Type 0 where
  at_start : IsReachable started
  after : {s t : Session} → IsReachable s → Step s t → IsReachable t

Step-IsConsistent : {s t : Session} → Step s t → IsConsistent s → IsConsistent t
Step-IsConsistent (driven w s) h = drive-IsConsistent w s h
Step-IsConsistent (lease_invalidated lease s) h = invalidate-IsConsistent lease s h
Step-IsConsistent (shutdown_requested s) h = request_shutdown-IsConsistent s h
Step-IsConsistent (driver_dropped s) h = drop_driver-IsConsistent s h

-- Every reachable session is consistent: a connection is published only while the driver watches
-- it, or is about to withdraw it after a shutdown, and then in its generation; a path is shown only while the session is connected; the backoff stays
-- between its bounds; and the session ends only after a shutdown.
pub reachable-IsConsistent : (s : Session) → IsReachable s → IsConsistent s
reachable-IsConsistent s at_start = record {
  agrees = (refl, refl, ground arith);
  current = λ off. (refl, refl);
  backoff = (ground arith, ground arith);
}
reachable-IsConsistent t (after r step) = Step-IsConsistent step (reachable-IsConsistent _ r)
