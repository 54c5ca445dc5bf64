-- ===== src/Wire/Idle.antt =====
-- crates/locho-core/src/protocol.rs: the relaying of two streams under an idle deadline. The copy of
-- the streams is polled at times of its own; what it copies is not modelled. Times are natural
-- numbers.
pub mod Gaps
use locho.Base.{
  ℕ, zero, suc, ◌+◌, ◌-◌, ◌*◌, Bool, true, false, not, ◌||◌, ◌&&◌, List, [], ◌∷◌, Option, none,
  some, leb, ltb, ◌==◌, length, if◌then◌else◌,
}

-- One poll of the copy: when, whether it comes before the timer at the same instant, how many bytes
-- it read and wrote, and whether it finished, and well.
pub record Poll : Type 0 where
  pub at : ℕ
  pub before_timer : Bool
  pub moved : ℕ
  pub finished : Option Bool

pub data Ended : Type 0 where
  copied : Bool → Ended
  idle_timeout : ℕ → Ended
  still_pending : Ended

-- `poll_read` and `poll_write` of `ActivityStream` note the time where bytes were moved.
abbrev pub noted : Poll → ℕ → ℕ
noted poll last_activity = if ltb 0 poll.moved then poll.at else last_activity

-- Whether the timer fires before the next poll.
abbrev pub fires_first : ℕ → List Poll → Bool
fires_first deadline [] = true
fires_first deadline (poll ∷ polls) =
    ltb deadline poll.at || (deadline == poll.at && not poll.before_timer)

-- The loop, with the activity that it saw at its head, which the timer is set by.
unfoldable pub relay_from : ℕ → ℕ → ℕ → ℕ → List Poll → Option Ended
relay_from zero duration seen last_activity polls = none
relay_from (suc fuel) duration seen last_activity polls =
    elim (fires_first (seen + duration) polls) [
      | true ↦ elim (leb duration (seen + duration - last_activity)) [
        | true ↦ some (idle_timeout (seen + duration))
        | false ↦ relay_from fuel duration last_activity last_activity polls
      ]
      | false ↦ elim polls [
        | [] ↦ some still_pending
        | poll ∷ rest ↦ elim poll.finished [
          | some well ↦ some (copied well)
          | none ↦ relay_from fuel duration seen (noted poll last_activity) rest
        ]
      ]
    ]

-- Without a deadline.
abbrev pub relay_on : List Poll → Ended
relay_on [] = still_pending
relay_on (poll ∷ polls) = elim poll.finished [ some well ↦ copied well | none ↦ relay_on polls ]

-- From `start` on; each poll takes two rounds of the loop at most.
unfoldable pub relay_with_idle_policy : Option ℕ → ℕ → List Poll → Option Ended
unfolding relay_from
relay_with_idle_policy none start polls = some (relay_on polls)
relay_with_idle_policy (some duration) start polls =
    relay_from (suc (2 * length polls)) duration start start polls
