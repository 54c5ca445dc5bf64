-- ===== src/Session/Shutdown.antt =====
-- A requested shutdown ends the session within a bounded number of the driver's steps.
use locho.Base.{
  ℕ, ◌-◌, ◌≤◌, Bool, true, false, Option, none, some, ◌≡◌, refl, sym, ap, subst, arith,
  if◌then◌else◌, not,
}
use locho.Session.Status.{closed}
use locho.Session.{
  ActiveConnection, Phase, attempting, withdrawing, cleanup, done, waiting, watching, selecting,
  Session, World, drive, drive_from, finish, withdraw, loop_head, watched, lost, cleaned_up,
  close_result, terminal_result,
}
use locho.Session.Consistent.{Agrees}
use locho.Session.Steps.{IsReachable, after, driven, reachable-IsConsistent}

-- The steps that a cancelled driver still takes, at most.
abbrev steps_left : Phase → ℕ
steps_left done = 0
steps_left cleanup = 1
steps_left withdrawing = 2
steps_left (selecting connection is_stable) = 3
steps_left (waiting after_failure delay) = 3
steps_left attempting = 3
steps_left Phase.start = 4
steps_left (watching connection is_stable) = 4

record Ends (n : ℕ) (s : Session) : Type 0 where
  stopped : s.is_cancelled ≡ true
  few : steps_left s.phase ≤ n

if-Ends : (n : ℕ) (b : Bool) (s t : Session) → b ≡ true → Ends n s → Ends n (if b then s else t)
if-Ends n b s t stop h = subst (λ c. Ends n (if c then s else t)) (sym stop) h

if-Ends-else :
    (n : ℕ) (b : Bool) (s t : Session) → b ≡ false → Ends n t → Ends n (if b then s else t)
if-Ends-else n b s t go h = subst (λ c. Ends n (if c then s else t)) (sym go) h

head-Ends : (w : Bool) (s : Session) → s.is_cancelled ≡ true → Ends 3 (loop_head w s)
unfolding loop_head
head-Ends true s stop =
    if-Ends-else 3 (not s.is_cancelled) _ _ (ap not stop)
      (record { stopped = stop; few = ground arith })
head-Ends false s stop = record { stopped = stop; few = ground arith }

watched-Ends :
    (connection : ℕ) (is_stable : Bool) (active : Option ActiveConnection) (s : Session)
    → s.is_cancelled ≡ true
    → Ends 3 (watched connection is_stable active s)
unfolding watched lost
watched-Ends connection is_stable none s stop = record { stopped = stop; few = ground arith }
watched-Ends connection is_stable (some active) s stop = record {
  stopped = stop;
  few = ground arith;
}

drive_from-Ends :
    (phase : Phase) (w : World) (s : Session)
    → s.phase ≡ phase
    → s.is_cancelled ≡ true
    → Ends (steps_left phase - 1) (drive_from phase w s)
unfolding drive_from finish withdraw cleaned_up
drive_from-Ends Phase.start w s same stop = head-Ends w.endpoint_is_closed s stop
drive_from-Ends attempting w s same stop =
    if-Ends 2 s.is_cancelled _ _ stop (record { stopped = stop; few = ground arith })
drive_from-Ends (waiting after_failure delay) w s same stop =
    if-Ends 2 s.is_cancelled _ _ stop (record { stopped = stop; few = ground arith })
drive_from-Ends (watching connection is_stable) w s same stop =
    watched-Ends connection is_stable s.active s stop
drive_from-Ends (selecting connection is_stable) w s same stop =
    if-Ends 2 s.is_cancelled _ _ stop (record { stopped = stop; few = ground arith })
drive_from-Ends withdrawing w s same stop = record { stopped = stop; few = ground arith }
drive_from-Ends cleanup w s same stop = record { stopped = stop; few = ground arith }
drive_from-Ends done w s same stop = record { stopped = stop; few = ground arith }

drive-Ends : (n : ℕ) (w : World) (s : Session) → Ends n s → Ends (n - 1) (drive w s)
unfolding drive
drive-Ends n w s h =
    let next = drive_from-Ends s.phase w s refl h.stopped in
    record { stopped = next.stopped; few = ground (arith, h.few, next.few) }

any-Ends : (phase : Phase) → steps_left phase ≤ 4
any-Ends done = ground arith
any-Ends withdrawing = ground arith
any-Ends cleanup = ground arith
any-Ends (selecting connection is_stable) = ground arith
any-Ends (waiting after_failure delay) = ground arith
any-Ends attempting = ground arith
any-Ends Phase.start = ground arith
any-Ends (watching connection is_stable) = ground arith

done_of : (phase : Phase) → steps_left phase ≤ 0 → phase ≡ done
done_of done h = refl
done_of withdrawing h = absurd (ground arith)
done_of cleanup h = absurd (ground arith)
done_of (selecting connection is_stable) h = absurd (ground arith)
done_of (waiting after_failure delay) h = absurd (ground arith)
done_of attempting h = absurd (ground arith)
done_of Phase.start h = absurd (ground arith)
done_of (watching connection is_stable) h = absurd (ground arith)

-- Once a shutdown is requested of a reachable session, the driver ends within four of its steps,
-- whatever it waits for and whatever it finds: then nothing is published any more, and `close` gets
-- the terminal result.
pub shutdown_ends :
    (s : Session) (u v w x : World)
    → IsReachable s
    → s.is_cancelled ≡ true
    → ((drive x (drive w (drive v (drive u s)))).phase ≡ done)
      × ((drive x (drive w (drive v (drive u s)))).active ≡ none)
      × (close_result (drive x (drive w (drive v (drive u s))))
          ≡ some (terminal_result (drive x (drive w (drive v (drive u s)))).status.terminal_error))
unfolding close_result
shutdown_ends s u v w x r stop =
    let p : Session = drive w (drive v (drive u s)) in
    let t : Session = drive x p in
    let ends : Ends 0 t = drive-Ends 1 x p (
      drive-Ends 2 w (drive v (drive u s)) (
        drive-Ends 3 v (drive u s)
          (drive-Ends 4 u s (record { stopped = stop; few = any-Ends s.phase })))) in
    let ended : t.phase ≡ done = done_of t.phase ends.few in
    let reached : IsReachable t =
      after
        (after (after (after r (driven u s)) (driven v (drive u s)))
          (driven w (drive v (drive u s))))
        (driven x p) in
    let agrees : Agrees done t.active t.generation t.status.state t.is_cancelled =
      subst (λ phase. Agrees phase t.active t.generation t.status.state t.is_cancelled) ended
        (reachable-IsConsistent t reached).agrees in
    (ended, agrees.0, closed_result t agrees.1)
  where
    closed_result :
        (t : Session)
        → t.status.state ≡ closed
        → close_result t ≡ some (terminal_result t.status.terminal_error)
    closed_result t h = rw h refl
