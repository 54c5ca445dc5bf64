-- ===== src/Session/Lease.antt =====
-- What a lease stands for, and that an old one does no harm.
use locho.Base.{
  ℕ, Bool, true, false, Option, none, some, ◌≡◌, ◌≢◌, refl, sym, ap, ◌∙◌, ◌⊎◌, inl, inr, arith,
  Bool-cases, Option-cases, Result, ok, err,
}
use locho.Session.Status.{SessionState, connected, SessionError, closed}
use locho.Session.{
  ActiveConnection, Phase, attempting, withdrawing, cleanup, done, waiting, watching, selecting,
  Session, ConnectionLease, acquire, invalidate, invalidate_active,
}
use locho.Session.Consistent.{Agrees}
use locho.Session.Steps.{IsReachable, reachable-IsConsistent}

-- The driver watches this connection.
abbrev pub IsWatching : Phase → ℕ → Type 0
IsWatching (watching connection is_stable) c = connection ≡ c
IsWatching (selecting connection is_stable) c = connection ≡ c
IsWatching _ c = ⊥

published :
    (phase : Phase) (a : ActiveConnection) (active : Option ActiveConnection) (generation : ℕ)
    (state : SessionState) (c : Bool)
    → Agrees phase active generation state c
    → active ≡ some a
    → (a.generation ≡ generation)
      × ((c ≡ true) ⊎ ((state ≡ connected) × IsWatching phase a.connection))
published (watching connection is_stable) a active generation state c (on, inl off) h =
    absurd (ground arith)
published (watching connection is_stable) a active generation state c (on, inr same) h =
    (ground arith, inr (on, ground arith))
published (selecting connection is_stable) a active generation state c (on, inl off) h =
    absurd (ground arith)
published (selecting connection is_stable) a active generation state c (on, inr same) h =
    (ground arith, inr (on, ground arith))
published withdrawing a active generation state c (shut, stop, inl off) h = absurd (ground arith)
published withdrawing a active generation state c (shut, stop, inr (connection, same)) h =
    (ground arith, inl stop)
published cleanup a active generation state c agrees h = absurd (ground arith)
published done a active generation state c agrees h = absurd (ground arith)
published Phase.start a active generation state c agrees h = absurd (ground arith)
published attempting a active generation state c agrees h = absurd (ground arith)
published (waiting after_failure delay) a active generation state c agrees h = absurd (ground arith)

abbrev Granted : Option (Result SessionError ConnectionLease) → ConnectionLease → Type 0
Granted look lease = look ≡ some (ok lease)

lease-eq :
    (a : ActiveConnection) (lease : ConnectionLease)
    → Granted (some (ok (record { connection = a.connection; generation = a.generation }))) lease
    → a ≡ record { generation = lease.generation; connection = lease.connection }
lease-eq a lease h = ground arith

refused : {error : SessionError} {lease : ConnectionLease} → Granted (some (err error)) lease → ⊥
refused h = ground arith

waits : {lease : ConnectionLease} → Granted none lease → ⊥
waits h = ground arith

acquired :
    (s : Session) (lease : ConnectionLease)
    → acquire s ≡ some (ok lease)
    → (s.is_cancelled ≡ false)
      × (s.active ≡ some (record { generation = lease.generation; connection = lease.connection }))
unfolding acquire
acquired s lease h = elim (Bool-cases s.is_cancelled) [
  | inl stop ↦ let h1 : Granted (some (err closed)) lease = rw stop at h in absurd (refused h1)
  | inr go ↦ elim (Option-cases s.active) [
    | inl off ↦ let h1 : Granted none lease = rw (go, off) at h in absurd (waits h1)
    | inr (a, on) ↦ (go, on ∙ ap some (lease-eq a lease (rw (go, on) at h)))
  ]
]

-- In a reachable session, a lease is granted only before a shutdown and while the session is
-- connected, and it is the connection that the driver watches, in the current generation.
pub acquire_lem :
    (s : Session) (lease : ConnectionLease)
    → IsReachable s
    → acquire s ≡ some (ok lease)
    → (s.is_cancelled ≡ false)
      × (lease.generation ≡ s.generation)
      × (s.status.state ≡ connected)
      × IsWatching s.phase lease.connection
acquire_lem s lease r h =
    let (go, on) = acquired s lease h in
    let (same, rest) =
      published s.phase (record { generation = lease.generation; connection = lease.connection })
        s.active s.generation s.status.state s.is_cancelled (reachable-IsConsistent s r).agrees
        on in
    (
      go,
      same,
      elim rest [ inl stop ↦ absurd (ground (arith, stop, go)) | inr both ↦ both.0 ],
      elim rest [ inl stop ↦ absurd (ground (arith, stop, go)) | inr both ↦ both.1 ],
    )

invalidate_active_miss :
    (generation : ℕ) (active : Option ActiveConnection)
    → ((a : ActiveConnection) → active ≡ some a → a.generation ≢ generation)
    → invalidate_active generation active ≡ active
invalidate_active_miss generation none other = refl
invalidate_active_miss generation (some a) other = ground (arith, other a refl)

-- In a reachable session, a lease of another generation than the current one cannot cancel the
-- current connection: its invalidation changes nothing.
pub invalidate-stale :
    (s : Session) (lease : ConnectionLease)
    → IsReachable s
    → lease.generation ≢ s.generation
    → invalidate lease s ≡ s
unfolding invalidate
invalidate-stale s lease r stale =
    ap (λ active. record s { active = active })
      (invalidate_active_miss lease.generation s.active (λ a on same. stale (
        sym same
        ∙ (published s.phase a s.active s.generation s.status.state s.is_cancelled
            (reachable-IsConsistent s r).agrees on).0)))

-- A lease that is still current cancels the connection it was granted for.
pub invalidate-current :
    (s : Session) (lease : ConnectionLease)
    → acquire s ≡ some (ok lease)
    → (invalidate lease s).active ≡ none
unfolding invalidate
invalidate-current s lease h =
    ap (invalidate_active lease.generation) (acquired s lease h).1 ∙ ground arith
