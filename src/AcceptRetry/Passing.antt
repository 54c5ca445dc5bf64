-- ===== src/AcceptRetry/Passing.antt =====
-- Local accepts that fail for a while: which errors may pass, and what the loop then does.
use locho.Base.{
  ℕ, suc, ◌+◌, ◌*◌, ◌^◌, Bool, true, false, ◌||◌, List, [], ◌∷◌, Option, none, some, ◌≡◌, ◌≢◌, refl,
  ap, ◌⊎◌, inl, inr, Bool-cases, ◌∙◌, arith, min, ok, err,
}
use locho.AcceptRetry.{
  ErrorKind, interrupted, connection_aborted, connection_reset, would_block, other_kind, Errno,
  emfile, enfile, enobufs, enomem, other_errno, IoError, is_transient, is_shortage, retryable,
  AcceptRetry, no_retry, Round, cancelled_waiting, cancelled_accepting, accepted, accept_failed,
  returned, retry_later, accept, after_failures, count, capped, after_failures-delay,
}

-- The kinds and the numbers of the errors that may pass.
abbrev pub IsPassing : IoError → Type 0
IsPassing error =
    (error.kind ≢ other_kind)
    ⊎ ((number : Errno) × (error.raw_os_error ≡ some number) × (number ≢ other_errno))

IsPassing-retryable : (error : IoError) → IsPassing error → retryable error ≡ true
IsPassing-retryable error (inl h) = ap (◌|| is_shortage error.raw_os_error) (transient error.kind h)
  where
    transient : (kind : ErrorKind) → kind ≢ other_kind → is_transient kind ≡ true
    transient interrupted h = refl
    transient connection_aborted h = refl
    transient connection_reset h = refl
    transient would_block h = refl
    transient other_kind h = absurd (h refl)
IsPassing-retryable error (inr (number, some_number, h)) =
    rw some_number (or_true (is_transient error.kind) (shortage number h))
  where
    shortage : (n : Errno) → n ≢ other_errno → is_shortage (some n) ≡ true
    shortage emfile h = refl
    shortage enfile h = refl
    shortage enobufs h = refl
    shortage enomem h = refl
    shortage other_errno h = absurd (h refl)

    or_true : (b : Bool) {c : Bool} → c ≡ true → (b || c) ≡ true
    or_true b h = ground arith

retryable-IsPassing : (error : IoError) → retryable error ≡ true → IsPassing error
retryable-IsPassing error h = from_parts error.kind error.raw_os_error refl refl h
  where
    from_parts :
        (kind : ErrorKind) (number : Option Errno)
        → error.kind ≡ kind
        → error.raw_os_error ≡ number
        → (is_transient kind || is_shortage number) ≡ true
        → IsPassing error
    from_parts interrupted number k n h = inl (λ e. absurd (ground arith))
    from_parts connection_aborted number k n h = inl (λ e. absurd (ground arith))
    from_parts connection_reset number k n h = inl (λ e. absurd (ground arith))
    from_parts would_block number k n h = inl (λ e. absurd (ground arith))
    from_parts other_kind none k n h = absurd (ground arith)
    from_parts other_kind (some emfile) k n h = inr (emfile, n, λ e. absurd (ground arith))
    from_parts other_kind (some enfile) k n h = inr (enfile, n, λ e. absurd (ground arith))
    from_parts other_kind (some enobufs) k n h = inr (enobufs, n, λ e. absurd (ground arith))
    from_parts other_kind (some enomem) k n h = inr (enomem, n, λ e. absurd (ground arith))
    from_parts other_kind (some other_errno) k n h = absurd (ground arith)

not-retryable : (error : IoError) → ¬ IsPassing error → retryable error ≡ false
not-retryable error h = elim (Bool-cases (retryable error)) [
  | inl passing ↦ absurd (h (retryable-IsPassing error passing))
  | inr lasting ↦ lasting
]

-- Accepts that fail one after the other, each at a time.
abbrev pub failing : {T : Type 0} → List (ℕ × IoError) → List (Round T) → List (Round T)
failing [] rounds = rounds
failing ((now, error) ∷ failures) rounds = accept_failed now error ∷ failing failures rounds

abbrev times_of : List (ℕ × IoError) → List ℕ
times_of [] = []
times_of ((now, error) ∷ failures) = now ∷ times_of failures

abbrev pub Pass : List (ℕ × IoError) → Type 0
Pass [] = Unit
Pass ((now, error) ∷ failures) = IsPassing error × Pass failures

accept-failing :
    {T : Type 0} (failures : List (ℕ × IoError)) (retry : AcceptRetry) (rounds : List (Round T))
    → Pass failures
    → accept retry (failing failures rounds)
      ≡ accept (after_failures retry (times_of failures)) rounds
unfolding accept
accept-failing [] retry rounds h = refl
accept-failing ((now, error) ∷ failures) retry rounds (passes, h) =
    rw (IsPassing-retryable error passes, accept)
      (accept-failing failures (retry_later now retry) rounds h)

-- After `n` failures and one more, at the time `now`.
abbrev pub waiting : ℕ → ℕ → AcceptRetry
waiting n now = record {
  delay = min (100 * 2 ^ suc n) 1000;
  next_attempt = some (now + min (100 * 2 ^ n) 1000);
}

abbrev pub number_of : List (ℕ × IoError) → ℕ
number_of [] = 0
number_of (f ∷ failures) = suc (number_of failures)

count-times_of : (failures : List (ℕ × IoError)) → count (times_of failures) ≡ number_of failures
count-times_of [] = refl
count-times_of ((now, error) ∷ failures) = ap suc (count-times_of failures)

retry_later-waiting :
    (failures : List (ℕ × IoError)) (now : ℕ)
    → retry_later now (after_failures no_retry (times_of failures))
      ≡ waiting (number_of failures) now
retry_later-waiting failures now =
    let d : (after_failures no_retry (times_of failures)).delay
        ≡ min (100 * 2 ^ number_of failures) 1000 =
      after_failures-delay (times_of failures)
      ∙ ap (λ n. min (100 * 2 ^ n) 1000) (count-times_of failures) in
    ap (λ (p : ℕ). record { delay = min (p * 2) 1000; next_attempt = some (now + p) }) d
    ∙ ap
        (λ (p : ℕ). record {
          delay = p;
          next_attempt = some (now + min (100 * 2 ^ number_of failures) 1000);
        })
        (capped (100 * 2 ^ number_of failures) ∙ ground arith)

-- What the loop does with one more round, from the start, after failures that may all pass, the last
-- one at the time `now`: a connection is returned, and the state is the one from the start; a
-- shutdown, while the loop waits or accepts, returns nothing, and an error that cannot pass is
-- returned, both in the state whose delay has doubled with each failure, up to a second, and whose
-- next attempt is after the delay before, counted from `now`.
pub accept-after_failures :
    {T : Type 0} (failures : List (ℕ × IoError)) (now : ℕ) (error : IoError) (value : T) (later : ℕ)
    (lasting : IoError) (rounds : List (Round T))
    → Pass failures
    → IsPassing error
    → ¬ IsPassing lasting
    → (accept no_retry (failing failures (accept_failed now error ∷ accepted value ∷ rounds))
        ≡ (no_retry, returned (ok (some value))))
      × (accept no_retry (failing failures (accept_failed now error ∷ cancelled_waiting ∷ rounds))
          ≡ (waiting (number_of failures) now, returned (ok none)))
      × (accept no_retry (failing failures (accept_failed now error ∷ cancelled_accepting ∷ rounds))
          ≡ (waiting (number_of failures) now, returned (ok none)))
      × (accept no_retry
            (failing failures (accept_failed now error ∷ accept_failed later lasting ∷ rounds))
          ≡ (waiting (number_of failures) now, returned (err lasting)))
unfolding accept
accept-after_failures {T} failures now error value later lasting rounds pass passes lasts = (
  from (accepted value) ∙ refl,
  from cancelled_waiting ∙ refl,
  from cancelled_accepting ∙ refl,
  from (accept_failed later lasting) ∙ rw (not-retryable lasting lasts) refl,
)
  where
    from :
        (next : Round T)
        → accept no_retry (failing failures (accept_failed now error ∷ next ∷ rounds))
          ≡ accept (waiting (number_of failures) now) (next ∷ rounds)
    from next =
        accept-failing failures no_retry (accept_failed now error ∷ next ∷ rounds) pass
        ∙ rw (IsPassing-retryable error passes, accept)
            (ap (λ r. accept r (next ∷ rounds)) (retry_later-waiting failures now))
