-- ===== src/State/Loaded.antt =====
-- Loading the host's state: what is returned is what the file then holds, and loading again gives
-- the same.
use locho.Base.{
  true, false, Option, none, some, Bytes, ◌≡◌, refl, ap, subst, ◌∙◌, inl, inr, arith, Bool-cases,
}
use locho.State.Files.{File, Disk, secured, secure_at, unsupported_schema, pure, fail}
use locho.State.{
  PersistedHostState, Parts, Chance, host_state_path, is_supported, repair_host_state, migrate,
  save_if, parsed_state, new_state, state_from, load_or_create_host_state,
}
use locho.State.Stored.{Does, continue-Does, IsFaithful, Holds, IsCurrent, saved, repaired-Holds}

pub secured-content : (file : File) → (secured file).content ≡ file.content
secured-content file = ground arith

pub secured-found :
    (o : Option File) (file : File) (disk : Disk)
    → o ≡ some file
    → secure_at host_state_path o disk host_state_path ≡ some (secured file)
secured-found none file disk h = absurd (ground arith)
secured-found (some f) file disk h =
    ap (λ (o : Option File). secure_at host_state_path o disk host_state_path) h

module _ (parts : Parts) where
  pub parsed-Does :
      (o : Option PersistedHostState) (disk after : Disk) (state : PersistedHostState)
      → Does (parsed_state parts o disk) after state
      → (o ≡ some state) × (is_supported state ≡ true) × (after ≡ disk)
  parsed-Does none disk after state h = absurd (ground arith)
  parsed-Does (some s) disk after state h = elim (Bool-cases (is_supported s)) [
    | inl yes_it_is ↦
        let h1 : Does (pure s disk) after state = rw yes_it_is at h in
        let same : s ≡ state = ground arith in
        (ap some same, subst (λ t. is_supported t ≡ true) same yes_it_is, ground arith)
    | inr other ↦
        let h1 : Does (fail unsupported_schema disk) after state = rw other at h in
        absurd (failed h1)
  ]
    where
      failed : Does (fail unsupported_schema disk) after state → ⊥
      failed e = ground arith

  module _ (faithful : IsFaithful parts) (endpoint_id : Bytes) where
    from-Holds :
        (chance : Chance) (o : Option File) (disk after : Disk) (state : PersistedHostState)
        → parts.is_blank chance.attach_secret ≡ false
        → disk host_state_path ≡ o
        → Does (state_from parts endpoint_id chance o disk) after state
        → Holds parts after state × IsCurrent parts endpoint_id state
    from-Holds chance none disk after state fit found done =
        let (same, left) =
          saved parts faithful chance true state (new_state parts endpoint_id chance) disk after
            done in
        elim left [
          | inl holds ↦ (
            holds,
            subst (IsCurrent parts endpoint_id) same
                (record { schema = refl; identity = refl; secret = fit }),
          )
          | inr (kept, place) ↦ absurd (ground arith)
        ]
    from-Holds chance (some file) disk after state fit found done =
        let middle : Disk = secure_at host_state_path (disk host_state_path) disk in
        let (place, old, parsed, rest) =
          continue-Does (parsed_state parts (parts.states.from_slice file.content) middle)
            (λ s.
              save_if parts chance
                (migrate parts (repair_host_state parts endpoint_id chance.attach_secret s)))
            done in
        let (parses, supported, same_place) =
          parsed-Does (parts.states.from_slice file.content) middle place old parsed in
        let stored : place host_state_path ≡ some (secured file) =
          ap (λ (d : Disk). d host_state_path) same_place
          ∙ secured-found (disk host_state_path) file disk found in
        repaired-Holds parts faithful endpoint_id chance file.content (secured file) old state place
          after fit supported stored (ap parts.states.from_slice (secured-content file) ∙ parses)
          rest

    -- A load that succeeds leaves the state that it returns on disk, in the current schema and with
    -- the id of the host.
    pub load-Holds :
        (chance : Chance) (disk after : Disk) (state : PersistedHostState)
        → parts.is_blank chance.attach_secret ≡ false
        → Does (load_or_create_host_state parts endpoint_id chance disk) after state
        → Holds parts after state × IsCurrent parts endpoint_id state
    unfolding load_or_create_host_state
    load-Holds chance disk after state fit done =
        from-Holds chance (disk host_state_path) disk after state fit refl done
