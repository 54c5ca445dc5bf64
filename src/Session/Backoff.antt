-- ===== src/Session/Backoff.antt =====
-- The reconnection delays. A duration is its number of whole milliseconds.
use locho.Base.{
  ℕ, zero, suc, ◌*◌, ◌^◌, ◌≤◌, Bool, Option, none, some, ◌≡◌, ap, ◌∙◌, min, arith, ltb,
  if◌then◌else◌,
}

-- `RECONNECT_INITIAL_BACKOFF`
abbrev pub initial_backoff : ℕ
initial_backoff = 250

-- `RECONNECT_MAX_BACKOFF`
abbrev pub max_backoff : ℕ
max_backoff = 30000

-- `Duration::checked_mul`: the seconds of a duration are a `u64`.
abbrev checked_mul : ℕ → ℕ → Option ℕ
checked_mul duration n = if ltb (duration * n) (2 ^ 64 * 1000) then some (duration * n) else none

abbrev unwrap_or : Option ℕ → ℕ → ℕ
unwrap_or (some n) d = n
unwrap_or none d = d

unfoldable pub next_backoff : ℕ → ℕ
next_backoff current = min (unwrap_or (checked_mul current 2) max_backoff) max_backoff

abbrev pub reconnect_delay : Bool → ℕ → ℕ
reconnect_delay recovering backoff = if recovering then initial_backoff else backoff

pub next_backoff_bounds :
    (current : ℕ)
    → initial_backoff ≤ current
    → current ≤ max_backoff
    → (initial_backoff ≤ next_backoff current) × (next_backoff current ≤ max_backoff)
unfolding next_backoff
next_backoff_bounds current low high = (ground arith, ground arith)

-- The backoff after some attempts that failed in a row.
abbrev pub backoff_after : ℕ → ℕ
backoff_after zero = initial_backoff
backoff_after (suc failures) = next_backoff (backoff_after failures)

next_backoff_double :
    (current : ℕ) → current ≤ max_backoff → next_backoff current ≡ min (current * 2) max_backoff
unfolding next_backoff
next_backoff_double current high = ground arith

capped : (p : ℕ) → min (min p max_backoff * 2) max_backoff ≡ min (p * 2) max_backoff
capped p = ground arith

-- The backoff doubles with each failure in a row, until it stays at its maximum.
pub backoff_after_lem :
    (failures : ℕ) → backoff_after failures ≡ min (initial_backoff * 2 ^ failures) max_backoff
backoff_after_lem zero = ground arith
backoff_after_lem (suc failures) =
    ap next_backoff (backoff_after_lem failures)
    ∙ next_backoff_double (min (initial_backoff * 2 ^ failures) max_backoff) (ground arith)
    ∙ capped (initial_backoff * 2 ^ failures)
    ∙ ground arith
