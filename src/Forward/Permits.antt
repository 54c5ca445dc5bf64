-- ===== src/Forward/Permits.antt =====
-- No permit is lost or made up by the listeners of local streams.
use locho.Base.{
  ℕ, zero, suc, ◌+◌, List, [], ◌∷◌, All, ◌==◌, ==_iff, ◌≡◌, refl, ◌∙◌, inl, inr, arith, Bool-cases,
}
use locho.Wire.{max_tcp_connections}
use locho.Forward.{
  Outcome, Phase, serving, draining, ended, Listener, Event, shutdown_requested,
  connection_accepted, accept_stopped, accept_error, task_ended, task_joined, deadline_reached,
  take_permits, end_task, drain, serve, happens, all_bound, IsReachable, at_start, after,
}

-- A listener that has ended has no tasks left.
abbrev pub IsQuiet : Phase → Listener → Type 0
IsQuiet (ended outcome) listener = (listener.running ≡ 0) × (listener.finished ≡ 0)
IsQuiet serving listener = Unit
IsQuiet (draining outcome) listener = Unit

abbrev pub IsBalanced : Listener → Type 0
IsBalanced listener =
    (listener.connections + listener.running ≡ max_tcp_connections)
    × IsQuiet listener.phase listener

abbrev pub all_running : List Listener → ℕ
all_running [] = 0
all_running (listener ∷ listeners) = listener.running + all_running listeners

-- The permits of a step: those of the listener, and those of all.
abbrev Keeps : Listener → ℕ → Listener × ℕ → Type 0
Keeps listener total (listener1, total1) =
    IsBalanced listener1 × (total1 + listener1.running ≡ total + listener.running)

-- While it serves or drains, a listener may have tasks.
serving-IsQuiet : (phase : Phase) (listener : Listener) → phase ≡ serving → IsQuiet phase listener
serving-IsQuiet serving listener h = tt
serving-IsQuiet (draining outcome) listener h = tt
serving-IsQuiet (ended outcome) listener h = absurd (ground (arith, h))

draining-IsQuiet :
    (phase : Phase) (listener : Listener) (outcome : Outcome)
    → phase ≡ draining outcome
    → IsQuiet phase listener
draining-IsQuiet serving listener outcome h = tt
draining-IsQuiet (draining other) listener outcome h = tt
draining-IsQuiet (ended other) listener outcome h = absurd (ground (arith, h))

take_permits-Keeps :
    (listener : Listener) (total : ℕ)
    → listener.phase ≡ serving
    → IsBalanced listener
    → Keeps listener total (take_permits listener total)
unfolding take_permits
take_permits-Keeps listener total phase (balanced, quiet) =
    elim (Bool-cases (listener.connections == 0)) [
      | inl full ↦ rw full ((balanced, quiet), refl)
      | inr free ↦ elim (Bool-cases (total == 0)) [
        | inl none_left ↦ rw (free, none_left) ((balanced, quiet), refl)
        | inr left ↦
            rw (free, left) ((ground arith, serving-IsQuiet listener.phase _ phase), ground arith)
      ]
    ]

end_task-Keeps :
    (listener : Listener) (running total : ℕ)
    → listener.running ≡ running
    → ((l : Listener) → IsQuiet listener.phase l)
    → IsBalanced listener
    → Keeps listener total (end_task listener running total)
end_task-Keeps listener zero total h any (balanced, quiet) = ((balanced, quiet), refl)
end_task-Keeps listener (suc running) total h any (balanced, quiet) =
    ((omega (arith, h, balanced), any _), omega (arith, h))

drain-Keeps :
    (listener : Listener) (outcome : Outcome) (total finished : ℕ)
    → listener.phase ≡ draining outcome
    → listener.finished ≡ finished
    → IsBalanced listener
    → Keeps listener total (drain outcome listener finished, total)
drain-Keeps listener outcome total zero phase none_left b =
    elim (Bool-cases (listener.running == 0)) [
      | inl idle ↦ rw idle ((b.0, ((==_iff listener.running 0).0 idle, none_left)), refl)
      | inr busy ↦ rw busy (b, refl)
    ]
drain-Keeps listener outcome total (suc finished) phase more b =
    ((b.0, draining-IsQuiet listener.phase _ outcome phase), refl)

serve-Keeps :
    (phase : Phase) (event : Event) (listener : Listener) (total : ℕ)
    → listener.phase ≡ phase
    → IsBalanced listener
    → Keeps listener total (serve phase event listener total)
unfolding serve
serve-Keeps (ended outcome) event listener total h b = (b, refl)
serve-Keeps serving task_ended listener total h b =
    end_task-Keeps listener listener.running total refl (λ l. serving-IsQuiet listener.phase l h) b
serve-Keeps (draining outcome) task_ended listener total h b =
    end_task-Keeps listener listener.running total refl
      (λ l. draining-IsQuiet listener.phase l outcome h) b
serve-Keeps serving shutdown_requested listener total h b = ((b.0, tt), refl)
serve-Keeps serving connection_accepted listener total h b = take_permits-Keeps listener total h b
serve-Keeps serving accept_stopped listener total h b = ((b.0, tt), refl)
serve-Keeps serving accept_error listener total h b = ((b.0, tt), refl)
serve-Keeps serving task_joined listener total h b =
    ((b.0, serving-IsQuiet listener.phase _ h), refl)
serve-Keeps serving deadline_reached listener total h b = (b, refl)
serve-Keeps (draining outcome) task_joined listener total h b =
    drain-Keeps listener outcome total listener.finished h refl b
serve-Keeps (draining outcome) deadline_reached listener total h b =
    ((omega (arith, b.0), draining-IsQuiet listener.phase _ outcome h), omega arith)
serve-Keeps (draining outcome) shutdown_requested listener total h b = (b, refl)
serve-Keeps (draining outcome) connection_accepted listener total h b = (b, refl)
serve-Keeps (draining outcome) accept_stopped listener total h b = (b, refl)
serve-Keeps (draining outcome) accept_error listener total h b = (b, refl)

happens-Keeps :
    (place : ℕ) (event : Event) (listeners : List Listener) (total : ℕ)
    → All IsBalanced listeners
    → All IsBalanced (happens place event listeners total).0
      × ((happens place event listeners total).1
            + all_running (happens place event listeners total).0
          ≡ total + all_running listeners)
unfolding happens
happens-Keeps place event [] total b = (tt, refl)
happens-Keeps zero event (listener ∷ listeners) total b =
    let (balanced, kept) = serve-Keeps listener.phase event listener total refl b.0 in
    ((balanced, b.1), omega (arith, kept))
happens-Keeps (suc place) event (listener ∷ listeners) total b =
    let (balanced, kept) = happens-Keeps place event listeners total b.1 in
    ((b.0, balanced), omega (arith, kept))

all_bound-lem :
    (count limit : ℕ)
    → All IsBalanced (all_bound count) × (limit + all_running (all_bound count) ≡ limit)
all_bound-lem zero limit = (tt, omega arith)
all_bound-lem (suc count) limit =
    let (balanced, kept) = all_bound-lem count limit in
    (((omega arith, tt), balanced), omega (arith, kept))

-- Whatever happens to the listeners, in whatever order: the connections of each and its permits
-- left are 128 together, the connections of all and the shared permits left are the shared limit
-- together, so that neither limit is exceeded and every permit comes back; and a listener ends only
-- when no task of it is left.
pub reachable-IsBalanced :
    (count limit : ℕ) (listeners : List Listener) (total : ℕ)
    → IsReachable count limit listeners total
    → All IsBalanced listeners × (total + all_running listeners ≡ limit)
reachable-IsBalanced count limit _ _ at_start = all_bound-lem count limit
reachable-IsBalanced count limit _ _ (after listeners total place event before) =
    let (balanced, kept) = reachable-IsBalanced count limit listeners total before in
    let (balanced1, kept1) = happens-Keeps place event listeners total balanced in
    (balanced1, kept1 ∙ kept)
