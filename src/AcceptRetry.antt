-- ===== src/AcceptRetry.antt =====
-- crates/locho-client-native/src/listener.rs: local accepts that survive a lack of resources. A
-- time is a number of milliseconds.
pub mod Passing
use locho.Base.{
  ℕ, suc, ◌+◌, ◌*◌, ◌^◌, Bool, true, false, ◌||◌, List, [], ◌∷◌, Option, none, some, ◌≡◌, ◌≢◌, refl,
  ap, ◌⊎◌, inl, inr, sym, Bool-cases, ◌∙◌, arith, min, is_some, if◌then◌else◌, Result, ok, err,
}

pub data ErrorKind : Type 0 where
  interrupted connection_aborted connection_reset would_block other_kind : ErrorKind

pub data Errno : Type 0 where
  emfile enfile enobufs enomem other_errno : Errno

-- `io::Error`, on Unix
pub record IoError : Type 0 where
  pub kind : ErrorKind
  pub raw_os_error : Option Errno

abbrev is_transient : ErrorKind → Bool
is_transient other_kind = false
is_transient _ = true

abbrev is_shortage : Option Errno → Bool
is_shortage none = false
is_shortage (some other_errno) = false
is_shortage (some _) = true

abbrev pub retryable : IoError → Bool
retryable error = is_transient error.kind || is_shortage error.raw_os_error

pub record AcceptRetry : Type 0 where
  pub delay : ℕ
  pub next_attempt : Option ℕ

-- `AcceptRetry::default`
abbrev pub no_retry : AcceptRetry
no_retry = record { delay = 100; next_attempt = none }

-- One round of the loop: a shutdown during the wait for `next_attempt` (which there is only after a
-- failure), a shutdown during the accept, or what the accept gave, and at what time.
pub data Round (T : Type 0) : Type 0 where
  cancelled_waiting cancelled_accepting : Round T
  accepted : T → Round T
  accept_failed : ℕ → IoError → Round T

-- `pending`: the rounds are over, and the loop still runs.
pub data Accept (T : Type 0) : Type 0 where
  pending : Accept T
  returned : Result IoError (Option T) → Accept T

-- The state after a failure that may pass.
abbrev pub retry_later : ℕ → AcceptRetry → AcceptRetry
retry_later now retry = record {
  delay = min (retry.delay * 2) 1000;
  next_attempt = some (now + retry.delay);
}

unfoldable pub accept : {T : Type 0} → AcceptRetry → List (Round T) → AcceptRetry × Accept T
accept retry [] = (retry, pending)
accept retry (cancelled_waiting ∷ rounds) =
    let rest = accept retry rounds in
    if is_some retry.next_attempt then (retry, returned (ok none)) else rest
accept retry (cancelled_accepting ∷ rounds) = (retry, returned (ok none))
accept retry (accepted value ∷ rounds) = (no_retry, returned (ok (some value)))
accept retry (accept_failed now error ∷ rounds) =
    let rest = accept (retry_later now retry) rounds in
    if retryable error then rest else (retry, returned (err error))

-- The state after failures at some times, in order, that may pass.
abbrev pub after_failures : AcceptRetry → List ℕ → AcceptRetry
after_failures retry [] = retry
after_failures retry (now ∷ times) = after_failures (retry_later now retry) times

abbrev pub count : List ℕ → ℕ
count [] = 0
count (t ∷ times) = suc (count times)

capped : (p : ℕ) → min (min p 1000 * 2) 1000 ≡ min (p * 2) 1000
capped p = ground arith

delay_from :
    (k : ℕ) (retry : AcceptRetry) (times : List ℕ)
    → retry.delay ≡ min (100 * 2 ^ k) 1000
    → (after_failures retry times).delay ≡ min (100 * 2 ^ (k + count times)) 1000
delay_from k retry [] h = h ∙ ap (λ n. min (100 * 2 ^ n) 1000) (omega arith)
delay_from k retry (now ∷ times) h =
    delay_from (suc k) (retry_later now retry) times
      (ap (λ n. min (n * 2) 1000) h ∙ capped (100 * 2 ^ k) ∙ ground arith)
    ∙ ap (λ n. min (100 * 2 ^ n) 1000) (omega arith)

-- After some failures in a row from the start, the delay is 100 milliseconds doubled as often, and
-- at most a second.
pub after_failures-delay :
    (times : List ℕ) → (after_failures no_retry times).delay ≡ min (100 * 2 ^ count times) 1000
after_failures-delay times =
    delay_from 0 no_retry times (ground arith) ∙ ap (λ n. min (100 * 2 ^ n) 1000) (omega arith)
