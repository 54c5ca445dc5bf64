-- ===== src/Wire/Idle/Gaps.antt =====
-- The idle deadline by gaps: what the loop with its timer does, without loop and timer.
use locho.Base.{
  ℕ, zero, suc, ◌+◌, ◌-◌, ◌*◌, ◌≤◌, ◌<◌, Bool, true, false, List, [], ◌∷◌, Option, none, some, leb,
  ltb, ◌==◌, ==_iff, length, if◌then◌else◌, ◌≡◌, ◌≢◌, refl, sym, ap, subst, ◌∙◌, inl, inr, arith,
  Bool-cases, Option-cases,
}
use locho.Wire.Idle.{
  Poll, Ended, copied, idle_timeout, still_pending, noted, fires_first, relay_from, relay_on,
  relay_with_idle_policy,
}

-- The relay ends when no bytes were moved for `duration`, or when the copy finishes before.
abbrev pub by_gaps : ℕ → ℕ → List Poll → Ended
by_gaps duration last_activity [] = idle_timeout (last_activity + duration)
by_gaps duration last_activity (poll ∷ polls) =
    let rest = by_gaps duration (noted poll last_activity) polls in
    if fires_first (last_activity + duration) (poll ∷ polls)
    then idle_timeout (last_activity + duration)
    else elim poll.finished [ some well ↦ copied well | none ↦ rest ]

-- Polls come one after the other.
abbrev pub InOrder : ℕ → List Poll → Type 0
InOrder time [] = Unit
InOrder time (poll ∷ polls) = (time ≤ poll.at) × InOrder poll.at polls

abbrev pub expected : Option ℕ → ℕ → List Poll → Ended
expected none start polls = relay_on polls
expected (some duration) start polls = by_gaps duration start polls

abbrev Rounds : ℕ → ℕ → ℕ → List Poll → Type 0
Rounds fuel seen last_activity polls =
    (2 * length polls + 1 ≤ fuel) × (seen < last_activity → 2 * length polls + 2 ≤ fuel)

-- The body of the loop: once its timer fired, and once it did not.
abbrev on_timer : ℕ → ℕ → ℕ → ℕ → List Poll → Bool → Option Ended
on_timer fuel duration seen last_activity polls is_over = elim is_over [
  | true ↦ some (idle_timeout (seen + duration))
  | false ↦ relay_from fuel duration last_activity last_activity polls
]

abbrev on_copy : ℕ → ℕ → ℕ → ℕ → Poll → List Poll → Option Bool → Option Ended
on_copy fuel duration seen last_activity poll rest finished = elim finished [
  | some well ↦ some (copied well)
  | none ↦ relay_from fuel duration seen (noted poll last_activity) rest
]

abbrev on_round : ℕ → ℕ → ℕ → ℕ → List Poll → Bool → Option Ended
on_round fuel duration seen last_activity polls fires = elim fires [
  | true ↦
      on_timer fuel duration seen last_activity polls
        (leb duration (seen + duration - last_activity))
  | false ↦ elim polls [
    | [] ↦ some still_pending
    | poll ∷ rest ↦ on_copy fuel duration seen last_activity poll rest poll.finished
  ]
]

relay_from-on_round :
    (fuel duration seen last_activity : ℕ) (polls : List Poll)
    → relay_from (suc fuel) duration seen last_activity polls
      ≡ on_round fuel duration seen last_activity polls (fires_first (seen + duration) polls)
unfolding relay_from
relay_from-on_round fuel duration seen last_activity polls = refl

abbrev gap_ahead : ℕ → ℕ → Poll → List Poll → Option Bool → Ended
gap_ahead duration last_activity poll polls finished = elim finished [
  | some well ↦ copied well
  | none ↦ by_gaps duration (noted poll last_activity) polls
]

by_gaps_late :
    (duration last_activity : ℕ) (polls : List Poll)
    → fires_first (last_activity + duration) polls ≡ true
    → by_gaps duration last_activity polls ≡ idle_timeout (last_activity + duration)
by_gaps_late duration last_activity [] h = refl
by_gaps_late duration last_activity (poll ∷ polls) h =
    ap
      (λ late.
        if late
        then idle_timeout (last_activity + duration)
        else gap_ahead duration last_activity poll polls poll.finished)
      h

by_gaps_polled :
    (duration last_activity : ℕ) (poll : Poll) (polls : List Poll)
    → fires_first (last_activity + duration) (poll ∷ polls) ≡ false
    → by_gaps duration last_activity (poll ∷ polls)
      ≡ gap_ahead duration last_activity poll polls poll.finished
by_gaps_polled duration last_activity poll polls h =
    ap
      (λ late.
        if late
        then idle_timeout (last_activity + duration)
        else gap_ahead duration last_activity poll polls poll.finished)
      h

fires_later :
    (a b : ℕ) (poll : Poll) (polls : List Poll)
    → a ≤ b
    → fires_first a (poll ∷ polls) ≡ false
    → fires_first b (poll ∷ polls) ≡ false
fires_later a b poll polls h k = ground arith

noted-bounds :
    (poll : Poll) (seen last_activity time : ℕ)
    → seen ≤ last_activity
    → last_activity ≤ time
    → time ≤ poll.at
    → (seen ≤ noted poll last_activity) × (noted poll last_activity ≤ poll.at)
noted-bounds poll seen last_activity time h k l = elim (Bool-cases (ltb 0 poll.moved)) [
  | inl moved ↦ rw moved (omega arith, omega arith)
  | inr still ↦ rw still (omega arith, omega arith)
]

module _ (duration : ℕ) (positive : 1 ≤ duration) where
  over :
      (seen last_activity : ℕ)
      → seen ≡ last_activity
      → leb duration (seen + duration - last_activity) ≡ true
  over seen last_activity e = ground arith

  not_over :
      (seen last_activity : ℕ)
      → seen ≤ last_activity
      → (seen == last_activity) ≡ false
      → leb duration (seen + duration - last_activity) ≡ false
  not_over seen last_activity s e = ground arith

  abbrev Follows : ℕ → Type 0
  Follows fuel =
      (time seen last_activity : ℕ) (polls : List Poll)
      → seen ≤ last_activity
      → last_activity ≤ time
      → InOrder time polls
      → Rounds fuel seen last_activity polls
      → relay_from fuel duration seen last_activity polls
        ≡ some (by_gaps duration last_activity polls)

  on_polls :
      (fuel time seen last_activity : ℕ) (polls : List Poll)
      → seen ≤ last_activity
      → last_activity ≤ time
      → InOrder time polls
      → Rounds (suc fuel) seen last_activity polls
      → fires_first (seen + duration) polls ≡ false
      → Follows fuel
      → on_round fuel duration seen last_activity polls false
        ≡ some (by_gaps duration last_activity polls)
  on_polls fuel time seen last_activity [] s t order rounds polled ih = absurd (ground arith)
  on_polls fuel time seen last_activity (poll ∷ rest) s t order rounds polled ih =
      let spec =
        by_gaps_polled duration last_activity poll rest (
          fires_later (seen + duration) (last_activity + duration) poll rest (omega arith)
            polled) in
      elim (Option-cases poll.finished) [
        | inr (well, done) ↦
            ap (on_copy fuel duration seen last_activity poll rest) done
            ∙ ap some (sym (spec ∙ ap (gap_ahead duration last_activity poll rest) done))
        | inl going ↦
            let (low, high) = noted-bounds poll seen last_activity time s t order.0 in
            ap (on_copy fuel duration seen last_activity poll rest) going
            ∙ ih poll.at seen (noted poll last_activity) rest low high order.1
                (omega (arith, rounds.0), λ h. omega (arith, rounds.0))
            ∙ ap some (sym (spec ∙ ap (gap_ahead duration last_activity poll rest) going))
      ]

  relay_from-by_gaps : (fuel : ℕ) → Follows fuel
  relay_from-by_gaps zero time seen last_activity polls s t order rounds =
      absurd (omega (arith, rounds.0))
  relay_from-by_gaps (suc fuel) time seen last_activity polls s t order rounds =
      relay_from-on_round fuel duration seen last_activity polls
      ∙ elim (Bool-cases (fires_first (seen + duration) polls)) [
        | inl fires ↦
            ap (on_round fuel duration seen last_activity polls) fires
            ∙ elim (Bool-cases (seen == last_activity)) [
              | inl same ↦
                  let e = (==_iff seen last_activity).0 same in
                  ap (on_timer fuel duration seen last_activity polls) (over seen last_activity e)
                  ∙ ap (λ n. some (idle_timeout (n + duration))) e
                  ∙ ap some (
                      sym (
                        by_gaps_late duration last_activity polls
                          (subst (λ n. fires_first (n + duration) polls ≡ true) e fires)))
              | inr earlier ↦
                  ap (on_timer fuel duration seen last_activity polls)
                    (not_over seen last_activity s earlier)
                  ∙ relay_from-by_gaps fuel time last_activity last_activity polls (omega arith) t
                      order (omega (arith, rounds.1 (ground arith)), λ h. absurd (omega arith))
            ]
        | inr polled ↦
            ap (on_round fuel duration seen last_activity polls) polled
            ∙ on_polls fuel time seen last_activity polls s t order rounds polled
                (relay_from-by_gaps fuel)
      ]

-- The relay ends in the idle timeout exactly when nothing was moved for the whole duration, at the
-- end of that gap, and else as the copy ends: setting its timer again only where it fires loses no
-- timeout and reports none too early, and its rounds always suffice. Polls come in the order of
-- their times, and the duration is not zero.
pub relay_with_idle_policy_lem :
    (idle_timeout : Option ℕ) (start : ℕ) (polls : List Poll)
    → idle_timeout ≢ some 0
    → InOrder start polls
    → relay_with_idle_policy idle_timeout start polls ≡ some (expected idle_timeout start polls)
unfolding relay_with_idle_policy
relay_with_idle_policy_lem none start polls h order = refl
relay_with_idle_policy_lem (some zero) start polls h order = absurd (h refl)
relay_with_idle_policy_lem (some (suc n)) start polls h order =
    relay_from-by_gaps (suc n) (omega arith) (suc (2 * length polls)) start start start polls
      (omega arith) (omega arith) order (omega arith, λ h. absurd (omega arith))
