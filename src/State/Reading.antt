-- ===== src/State/Reading.antt =====
-- Reading a service's secret, before and after a rotation.
use locho.Base.{
  true, false, Option, none, some, Bytes, str_eq, ◌≡◌, refl, sym, ap, ◌∙◌, if◌then◌else◌, ok,
}
use locho.Host.{lookup}
use locho.State.Files.{Disk, secure_at, invalid_host_id, pure, fail, continue}
use locho.State.{
  PersistedHostState, Parts, Chance, host_state_path, insert, load_or_create_host_state,
  rotate_secret, read_host_state, read_service_secret,
}
use locho.State.Stored.{Does, IsFaithful, Holds, IsCurrent}
use locho.State.Loaded.{load-Holds}
use locho.State.{existing_state, found_secret}
use locho.State.Rotation.{
  IsStarted, load_current, rotate_secret_refines, lookup-insert, lookup-insert_other, parsed-Holds,
  current-supported,
}

module _ (parts : Parts) where
  existing_Holds :
      (disk : Disk) (state : PersistedHostState) (endpoint_id : Bytes)
      → Holds parts disk state
      → IsCurrent parts endpoint_id state
      → parts.is_id endpoint_id ≡ true
      → read_host_state parts disk
        ≡ (secure_at host_state_path (disk host_state_path) disk, ok state)
  unfolding read_host_state
  existing_Holds disk state endpoint_id h c valid =
      let middle : Disk = secure_at host_state_path (disk host_state_path) disk in
      ap (λ o. existing_state parts o disk) h.found
      ∙ ap
          (λ r. continue r (λ (s : PersistedHostState).
            if parts.is_id s.endpoint_id then pure s else fail invalid_host_id))
          (parsed-Holds parts middle state (parts.states.from_slice h.file.content) h.parses
            (current-supported parts endpoint_id state c))
      ∙ known middle
    where
      known :
          (d : Disk)
          → (if parts.is_id state.endpoint_id then pure state else fail invalid_host_id) d
            ≡ (d, ok state)
      known d = rw (c.identity, valid) refl

  -- Reading a secret of a stored state is the lookup in its map.
  read_Holds :
      (service : Bytes) (disk : Disk) (state : PersistedHostState) (endpoint_id : Bytes)
      → Holds parts disk state
      → IsCurrent parts endpoint_id state
      → parts.is_id endpoint_id ≡ true
      → (read_service_secret parts service disk).1
        ≡ (found_secret parts (lookup service state.service_secrets) disk).1
  unfolding read_service_secret
  read_Holds service disk state endpoint_id h c valid =
      ap
        (λ r.
          (continue r
            (λ (s : PersistedHostState). found_secret parts (lookup service s.service_secrets))).1)
        (existing_Holds disk state endpoint_id h c valid)
      ∙ unplaced (lookup service state.service_secrets)
          (secure_at host_state_path (disk host_state_path) disk)
    where
      unplaced :
          (o : Option Bytes) (d : Disk) → (found_secret parts o d).1 ≡ (found_secret parts o disk).1
      unplaced none d = refl
      unplaced (some secret) d = refl

  -- After a rotation on a started host, the secret of that service reads as the new one, which the
  -- rotation returned, and the secret of every other service reads as before.
  pub read_service_secret-rotate_secret :
      (faithful : IsFaithful parts) (service secret : Bytes) (chance : Chance) (disk after : Disk)
      (key : Bytes) (state : PersistedHostState)
      → IsStarted parts disk key state
      → parts.is_id (parts.id_of key) ≡ true
      → Does (rotate_secret parts service false chance disk) after secret
      → ((read_service_secret parts service after).1 ≡ ok secret)
        × ((other : Bytes)
            → str_eq service other ≡ false
            → (read_service_secret parts other after).1 ≡ (read_service_secret parts other disk).1)
  read_service_secret-rotate_secret faithful service secret chance disk after key state started
        valid done =
      let (_, _, holds) =
        rotate_secret_refines parts faithful service secret chance disk after key state started
          done in
      let next : PersistedHostState = record state {
        service_secrets = insert service secret state.service_secrets;
      } in
      let current : IsCurrent parts (parts.id_of key) next = record {
        schema = started.current.schema;
        identity = started.current.identity;
        secret = started.current.secret;
      } in
      (
        read_Holds service after next (parts.id_of key) holds current valid
            ∙ ap (λ o. (found_secret parts o after).1)
                (lookup-insert service secret state.service_secrets),
        λ other apart.
            read_Holds other after next (parts.id_of key) holds current valid
            ∙ ap (λ o. (found_secret parts o after).1)
                (lookup-insert_other service secret other state.service_secrets apart)
            ∙ unplaced (lookup other state.service_secrets)
            ∙ sym
                (read_Holds other disk state (parts.id_of key) started.holds started.current valid),
      )
    where
      unplaced : (o : Option Bytes) → (found_secret parts o after).1 ≡ (found_secret parts o disk).1
      unplaced none = refl
      unplaced (some found) = refl

  -- A load that succeeds leaves on disk the state that it returns, in the current schema and with
  -- the id of the host, whether it was there, repaired, migrated or created; and loading again
  -- gives the same state, whatever is then drawn at random or fails to be written. A secret that is
  -- drawn is not blank, and JSON gives back what it was given.
  pub load_again :
      (faithful : IsFaithful parts) (endpoint_id : Bytes) (chance again : Chance)
      (disk after : Disk) (state : PersistedHostState)
      → parts.is_blank chance.attach_secret ≡ false
      → Does (load_or_create_host_state parts endpoint_id chance disk) after state
      → Holds parts after state
        × IsCurrent parts endpoint_id state
        × ((load_or_create_host_state parts endpoint_id again after).1 ≡ ok state)
  load_again faithful endpoint_id chance again disk after state fit done =
      let (holds, current) =
        load-Holds parts faithful endpoint_id chance disk after state fit done in
      (
        holds,
        current,
        ap (λ r. r.1) (load_current parts endpoint_id again after state holds current),
      )
