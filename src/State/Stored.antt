-- ===== src/State/Stored.antt =====
-- What a load leaves on disk: the state that it returns.
use locho.Base.{
  Bool, true, false, some, Bytes, str_eq_iff, ◌==◌, ◌≡◌, refl, sym, ap, subst, ◌∙◌, ◌⊎◌, inl, inr,
  arith, Option-cases, Result, ok, err,
}
use locho.State.Files.{
  File, Disk, StateError, no_json, Action, pure, fail, continue, Fault, private_file,
}
use locho.State.Atomic.{write_file_atomic-IsAtomic}
use locho.State.{
  PersistedHostState, Parts, Chance, host_state_path, current_schema_version, legacy_schema_version,
  is_supported, write_host_state_file, replace, repair_host_state, migrate, save_if,
}

-- An action that went well.
abbrev pub Does : {A : Type 0} → Disk × Result StateError A → Disk → A → Type 0
Does r disk a = r ≡ (disk, ok a)

pub continue-Does :
    {A B : Type 0} (r : Disk × Result StateError A) (next : A → Action B) {disk : Disk} {b : B}
    → Does (continue r next) disk b
    → (middle : Disk) × (a : A) × Does r middle a × Does (next a middle) disk b
continue-Does (middle, ok a) next h = (middle, a, refl, h)
continue-Does (middle, err e) next h = absurd (ground arith)

-- The JSON library gives back what it was given.
abbrev pub IsFaithful : Parts → Type 0
IsFaithful parts =
    (state : PersistedHostState) (json : Bytes)
    → parts.states.to_vec state ≡ some json
    → parts.states.from_slice json ≡ some state

module _ (parts : Parts) where
  -- The state file holds this state.
  pub record Holds (disk : Disk) (state : PersistedHostState) : Type 0 where
    pub file : File
    pub found : disk host_state_path ≡ some file
    pub parses : parts.states.from_slice file.content ≡ some state

  -- The state fits the identity, in the current schema.
  pub record IsCurrent (endpoint_id : Bytes) (state : PersistedHostState) : Type 0 where
    pub schema : state.schema_version ≡ current_schema_version
    pub identity : state.endpoint_id ≡ endpoint_id
    pub secret : parts.is_blank state.attach_secret ≡ false

  replaced-Holds :
      (faithful : IsFaithful parts) (fault : Fault) (nonce json : Bytes)
      (state : PersistedHostState) (disk after : Disk)
      → parts.states.to_vec state ≡ some json
      → Does (replace fault nonce host_state_path json disk) after tt
      → Holds after state
  replaced-Holds faithful fault nonce json state disk after text done =
      let atomic = write_file_atomic-IsAtomic fault nonce host_state_path json disk in
      let stored : after host_state_path ≡ some (private_file json) =
        subst (λ (d : Disk). d host_state_path ≡ some (private_file json)) (ap (λ r. r.0) done)
          (atomic.replaced (ap (λ r. r.1) done)).0 in
      record { file = private_file json; found = stored; parses = faithful state json text }

  pub write-Holds :
      (faithful : IsFaithful parts) (fault : Fault) (nonce : Bytes) (state : PersistedHostState)
      (disk after : Disk)
      → Does (write_host_state_file parts fault nonce state disk) after tt
      → Holds after state
  write-Holds faithful fault nonce state disk after done =
      elim (Option-cases (parts.states.to_vec state)) [
        | inl none_of ↦ absurd (no_text (rw none_of at done))
        | inr (json, text) ↦
            replaced-Holds faithful fault nonce json state disk after text (rw text at done)
      ]
    where
      no_text : Does (fail no_json disk) after tt → ⊥
      no_text h = ground arith

  state_eq :
      (s t : PersistedHostState)
      → s.schema_version ≡ t.schema_version
      → s.endpoint_id ≡ t.endpoint_id
      → s.attach_secret ≡ t.attach_secret
      → s.service_secrets ≡ t.service_secrets
      → s ≡ t
  state_eq s t a b c d = cc

  migrate-IsCurrent :
      (endpoint_id fresh : Bytes) (state : PersistedHostState)
      → is_supported state ≡ true
      → parts.is_blank fresh ≡ false
      → IsCurrent endpoint_id (migrate parts (repair_host_state parts endpoint_id fresh state)).0
  unfolding migrate repair_host_state
  migrate-IsCurrent endpoint_id fresh state supported fit = record {
    schema = ground arith;
    identity = ground arith;
    secret = ground arith;
  }

  migrate-same :
      (endpoint_id fresh : Bytes) (state : PersistedHostState)
      → (migrate parts (repair_host_state parts endpoint_id fresh state)).1 ≡ false
      → (migrate parts (repair_host_state parts endpoint_id fresh state)).0 ≡ state
  unfolding migrate repair_host_state
  migrate-same endpoint_id fresh state kept =
      state_eq _ state (ground arith) (ground (arith, str_eq_iff state.endpoint_id endpoint_id))
        (ground arith) (ground arith)

  pub migrate-current :
      (endpoint_id fresh : Bytes) (state : PersistedHostState)
      → IsCurrent endpoint_id state
      → migrate parts (repair_host_state parts endpoint_id fresh state) ≡ (state, false)
  unfolding migrate repair_host_state
  migrate-current endpoint_id fresh state c =
      let not_legacy : (state.schema_version == legacy_schema_version) ≡ false =
        ground (arith, c.schema) in
      rw (not_legacy, c.secret, (str_eq_iff state.endpoint_id endpoint_id).1 c.identity)
        (ap (λ (t : PersistedHostState). (t, false))
          (state_eq _ state refl (sym c.identity) refl refl))

  -- What `save_if` leaves.
  pub saved :
      (faithful : IsFaithful parts) (chance : Chance) (changed : Bool)
      (state state' : PersistedHostState) (disk after : Disk)
      → Does (save_if parts chance (state', changed) disk) after state
      → (state' ≡ state) × (Holds after state ⊎ (changed ≡ false) × (after ≡ disk))
  saved faithful chance false state state' disk after done = ground arith
  saved faithful chance true state state' disk after done =
      let (middle, _, wrote, ended) =
        continue-Does
          (write_host_state_file parts chance.state_fault chance.state_nonce state' disk)
          (λ _. pure state') done in
      let same : state' ≡ state = ground arith in
      let place : middle ≡ after = ground arith in
      (
        same,
        inl (
            subst (λ d. Holds d state) place
              (subst (Holds middle) same (
                write-Holds faithful chance.state_fault chance.state_nonce state' disk middle
                  wrote))),
      )

  module _ (faithful : IsFaithful parts) (endpoint_id : Bytes) where
    pub repaired-Holds :
        (chance : Chance) (content : Bytes) (file : File) (old state : PersistedHostState)
        (disk after : Disk)
        → parts.is_blank chance.attach_secret ≡ false
        → is_supported old ≡ true
        → disk host_state_path ≡ some file
        → parts.states.from_slice file.content ≡ some old
        → Does
            (save_if parts chance
              (migrate parts (repair_host_state parts endpoint_id chance.attach_secret old))
              disk)
            after
            state
        → Holds after state × IsCurrent endpoint_id state
    repaired-Holds chance content file old state disk after fit supported found parses done =
        let next = migrate parts (repair_host_state parts endpoint_id chance.attach_secret old) in
        let (same, left) = saved faithful chance next.1 state next.0 disk after done in
        let current =
          subst (IsCurrent endpoint_id) same
            (migrate-IsCurrent endpoint_id chance.attach_secret old supported fit) in
        elim left [
          | inl holds ↦ (holds, current)
          | inr (kept, place) ↦
              let old_is : old ≡ state =
                sym (migrate-same endpoint_id chance.attach_secret old kept) ∙ same in
              (
                subst (λ d. Holds d state) (sym place)
                    (record { file = file; found = found; parses = parses ∙ ap some old_is }),
                current,
              )
        ]
