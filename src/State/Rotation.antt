-- ===== src/State/Rotation.antt =====
-- The state file as a map of secrets: a rotation replaces one of them, and reads see it.
use locho.Base.{
  true, false, List, [], ◌∷◌, Option, none, some, Bytes, str_eq, str_eq_iff, length, ==_iff, ◌≡◌,
  refl, sym, ap, subst, ◌∙◌, inl, inr, arith, Bool-cases, if◌then◌else◌, Result, ok,
}
use locho.Host.{lookup}
use locho.State.Files.{File, Disk, secured, secure_at, StateError, pure, continue}
use locho.State.{
  PersistedHostState, Parts, Chance, host_key_path, host_state_path, insert, is_supported,
  repair_host_state, migrate, save_if, parsed_state, state_from, load_or_create_host_state,
  load_or_create_host_secret_key, key_from, checked_key, rotated, rotate_secret,
  write_host_state_file,
}
use locho.State.Stored.{
  Does, continue-Does, IsFaithful, Holds, IsCurrent, write-Holds, migrate-current,
}
use locho.State.Loaded.{secured-content, secured-found}

pub lookup-insert : (k v : Bytes) (m : List (Bytes × Bytes)) → lookup k (insert k v m) ≡ some v
lookup-insert k v [] = rw ((str_eq_iff k k).1 refl) refl
lookup-insert k v ((j, w) ∷ m) = elim (Bool-cases (str_eq j k)) [
  | inl hit ↦ rw hit (rw ((str_eq_iff k k).1 refl) refl)
  | inr miss ↦ rw miss (rw miss (lookup-insert k v m))
]

pub lookup-insert_other :
    (k v other : Bytes) (m : List (Bytes × Bytes))
    → str_eq k other ≡ false
    → lookup other (insert k v m) ≡ lookup other m
lookup-insert_other k v other [] h = rw h refl
lookup-insert_other k v other ((j, w) ∷ m) h = elim (Bool-cases (str_eq j k)) [
  | inl hit ↦ let same : j ≡ k = (str_eq_iff j k).0 hit in rw (hit, h, same) (rw h refl)
  | inr miss ↦
      rw miss
        (ap (λ rest. if str_eq j other then some w else rest) (lookup-insert_other k v other m h))
]

module _ (parts : Parts) where
  pub current-supported :
      (endpoint_id : Bytes) (state : PersistedHostState)
      → IsCurrent parts endpoint_id state
      → is_supported state ≡ true
  current-supported endpoint_id state c = ground (arith, c.schema)

  -- Reading the file of a supported state gives that state.
  pub parsed-Holds :
      (disk : Disk) (state : PersistedHostState) (o : Option PersistedHostState)
      → o ≡ some state
      → is_supported state ≡ true
      → parsed_state parts o disk ≡ (disk, ok state)
  parsed-Holds disk state none h supported = absurd (ground arith)
  parsed-Holds disk state (some s) h supported =
      let same : s ≡ state = ground arith in rw same (rw supported refl)

  secured-Holds :
      (disk : Disk) (state : PersistedHostState)
      → Holds parts disk state
      → Holds parts (secure_at host_state_path (disk host_state_path) disk) state
  secured-Holds disk state h = record {
    file = secured h.file;
    found = secured-found (disk host_state_path) h.file disk h.found;
    parses = ap parts.states.from_slice (secured-content h.file) ∙ h.parses;
  }

  -- Loading a current state changes nothing but the mode of the file.
  pub load_current :
      (endpoint_id : Bytes) (chance : Chance) (disk : Disk) (state : PersistedHostState)
      → Holds parts disk state
      → IsCurrent parts endpoint_id state
      → load_or_create_host_state parts endpoint_id chance disk
        ≡ (secure_at host_state_path (disk host_state_path) disk, ok state)
  unfolding load_or_create_host_state
  load_current endpoint_id chance disk state h c =
      let middle : Disk = secure_at host_state_path (disk host_state_path) disk in
      ap (λ o. state_from parts endpoint_id chance o disk) h.found
      ∙ ap
          (λ r. continue r (λ s.
            save_if parts chance
              (migrate parts (repair_host_state parts endpoint_id chance.attach_secret s))))
          (parsed-Holds middle state (parts.states.from_slice h.file.content) h.parses
            (current-supported endpoint_id state c))
      ∙ ap (λ m. save_if parts chance m middle)
          (migrate-current parts endpoint_id chance.attach_secret state c)

  key_current :
      (chance : Chance) (disk : Disk) (file : File)
      → disk host_key_path ≡ some file
      → length file.content ≡ 32
      → load_or_create_host_secret_key parts chance disk
        ≡ (secure_at host_key_path (disk host_key_path) disk, ok file.content)
  unfolding load_or_create_host_secret_key
  key_current chance disk file found size =
      ap (λ o. key_from parts chance o disk) found
      ∙ sized file.content (secure_at host_key_path (disk host_key_path) disk) size
    where
      sized :
          (bytes : Bytes) (d : Disk) → length bytes ≡ 32 → checked_key parts bytes d ≡ (d, ok bytes)
      sized bytes d h = rw ((==_iff (length bytes) 32).1 h) refl

  beside_key :
      (o : Option File) (disk : Disk)
      → secure_at host_key_path o disk host_state_path ≡ disk host_state_path
  beside_key none disk = refl
  beside_key (some file) disk = refl

  -- The identity and the secrets of a host that has been started.
  pub record IsStarted (disk : Disk) (key : Bytes) (state : PersistedHostState) : Type 0 where
    pub key_file : File
    pub key_found : disk host_key_path ≡ some key_file
    pub key_content : key_file.content ≡ key
    pub key_length : length key ≡ 32
    pub holds : Holds parts disk state
    pub current : IsCurrent parts (parts.id_of key) state

  rotated-Does :
      (faithful : IsFaithful parts) (service secret : Bytes) (chance : Chance)
      (state : PersistedHostState) (o : Option Bytes) (disk after : Disk)
      → Does (rotated parts service chance state o disk) after secret
      → (secret ≡ chance.service_secret)
        × ((old : Bytes) × (o ≡ some old))
        × Holds parts after (record state {
          service_secrets = insert service chance.service_secret state.service_secrets;
        })
  rotated-Does faithful service secret chance state none disk after done = absurd (ground arith)
  rotated-Does faithful service secret chance state (some old) disk after done =
      let next : PersistedHostState = record state {
        service_secrets = insert service chance.service_secret state.service_secrets;
      } in
      let (middle, _, wrote, ended) =
        continue-Does
          (write_host_state_file parts chance.rotate_fault chance.rotate_nonce next disk)
          (λ _. pure chance.service_secret) done in
      let place : middle ≡ after = ground arith in
      (
        ground arith,
        (old, refl),
        subst (λ d. Holds parts d next) place
            (write-Holds parts faithful chance.rotate_fault chance.rotate_nonce next disk middle
              wrote),
      )

  Does-unique :
      {A : Type 0} (r : Disk × Result StateError A) (d e : Disk) (a b : A)
      → Does r d a
      → r ≡ (e, ok b)
      → (e ≡ d) × (b ≡ a)
  Does-unique r d e a b h k = ground arith

  same_identity :
      (endpoint_id : Bytes) (state : PersistedHostState)
      → state.endpoint_id ≡ endpoint_id
      → record state { endpoint_id = endpoint_id } ≡ state
  same_identity endpoint_id state h = cc

  -- On the files of a started host, a rotation that succeeds is the insertion of the new secret,
  -- which it returns, into the map of secrets, where the service had one; nothing else of the state
  -- changes. The lock is free, and JSON gives back what it was given.
  pub rotate_secret_refines :
      (faithful : IsFaithful parts) (service secret : Bytes) (chance : Chance) (disk after : Disk)
      (key : Bytes) (state : PersistedHostState)
      → IsStarted disk key state
      → Does (rotate_secret parts service false chance disk) after secret
      → (secret ≡ chance.service_secret)
        × ((old : Bytes) × (lookup service state.service_secrets ≡ some old))
        × Holds parts after
            (record state { service_secrets = insert service secret state.service_secrets })
  unfolding rotate_secret
  rotate_secret_refines faithful service secret chance disk after key state started done =
      let (d1, k, e1, done1) =
        continue-Does (load_or_create_host_secret_key parts chance disk)
          (λ k. λ d. continue (load_or_create_host_state parts (parts.id_of k) chance d) (λ s.
            rotated parts service chance (record s { endpoint_id = parts.id_of k })
              (lookup service s.service_secrets)))
          done in
      let (place, same_key) =
        Does-unique (load_or_create_host_secret_key parts chance disk) d1 _ k _ e1 (
          key_current chance disk started.key_file started.key_found
            (ap length started.key_content ∙ started.key_length)) in
      let key_is : k ≡ key = sym same_key ∙ started.key_content in
      let (d2, s, e2, done2) =
        continue-Does (load_or_create_host_state parts (parts.id_of k) chance d1)
          (λ s.
            rotated parts service chance (record s { endpoint_id = parts.id_of k })
              (lookup service s.service_secrets))
          done1 in
      let holds : Holds parts d1 state = record {
        file = started.holds.file;
        found =
            ap (λ (d : Disk). d host_state_path) (sym place)
            ∙ beside_key (disk host_key_path) disk
            ∙ started.holds.found;
        parses = started.holds.parses;
      } in
      let current : IsCurrent parts (parts.id_of k) state =
        subst (λ c. IsCurrent parts (parts.id_of c) state) (sym key_is) started.current in
      let (_, same) =
        Does-unique (load_or_create_host_state parts (parts.id_of k) chance d1) d2 _ s _ e2
          (load_current (parts.id_of k) chance d1 state holds current) in
      let state_is : record s { endpoint_id = parts.id_of k } ≡ state =
        ap (λ (t : PersistedHostState). record t { endpoint_id = parts.id_of k }) (sym same)
        ∙ same_identity (parts.id_of k) state current.identity in
      let (secret_is, known, held) =
        rotated-Does faithful service secret chance (record s { endpoint_id = parts.id_of k })
          (lookup service s.service_secrets) d2 after done2 in
      (
        secret_is,
        (known.0, ap (λ (t : PersistedHostState). lookup service t.service_secrets) same ∙ known.1),
        subst
            (λ v.
              Holds parts after
                (record state { service_secrets = insert service v state.service_secrets }))
            (sym secret_is)
            (subst
              (λ (t : PersistedHostState). Holds parts after (record t {
                service_secrets = insert service chance.service_secret t.service_secrets;
              }))
              state_is held),
      )
