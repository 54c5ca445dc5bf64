-- ===== src/State.antt =====
-- src/state.rs: the host's identity and its secrets on disk. Random values, faults and the lock are
-- arguments; the JSON text of a state, the id of a key and the tests on texts are parameters.
pub mod Files
pub mod Atomic
pub mod Stored
pub mod Loaded
pub mod Rotation
pub mod Reading
use locho.Base.{
  ℕ, Bool, true, false, not, ◌||◌, ◌&&◌, List, [], ◌∷◌, Option, none, some, Bytes, codes, str_eq,
  is_some, length, ◌==◌, if◌then◌else◌, Result, Checked, ok, err,
}
use locho.Wire.{Codec}
use locho.Host.{lookup}
use locho.State.Files.{
  File, Disk, remove, StateError, another_is_active, invalid_key_length, no_identity, no_state,
  unreadable_state, unsupported_schema, unknown_service, identity_mismatch, invalid_host_id,
  no_json, Action, pure, fail, continue, ◌>>=◌, ◌>>◌, ensure_private_file, Fault, write_file_atomic,
}

abbrev pub current_schema_version : ℕ
current_schema_version = 2

abbrev pub legacy_schema_version : ℕ
legacy_schema_version = 1

pub record PersistedHostState : Type 0 where
  pub schema_version : ℕ
  pub endpoint_id : Bytes
  pub attach_secret : Bytes
  pub service_secrets : List (Bytes × Bytes)

abbrev pub host_key_path : Bytes
host_key_path = codes "host.key"

abbrev pub host_state_path : Bytes
host_state_path = codes "host_state.json"

-- What an operation draws at random, and how its two writes go.
pub record Chance : Type 0 where
  pub key : Bytes
  pub attach_secret : Bytes
  pub service_secret : Bytes
  pub key_nonce : Bytes
  pub state_nonce : Bytes
  pub key_fault : Fault
  pub state_fault : Fault
  pub rotate_nonce : Bytes
  pub rotate_fault : Fault

-- `HashMap::insert`
abbrev pub insert : Bytes → Bytes → List (Bytes × Bytes) → List (Bytes × Bytes)
insert k v [] = (k, v) ∷ []
insert k v ((j, w) ∷ m) =
    let rest = insert k v m in if str_eq j k then (k, v) ∷ m else (j, w) ∷ rest

abbrev pub replace : Fault → Bytes → Bytes → Bytes → Action (Unit {0})
replace fault nonce path bytes disk =
    let r = write_file_atomic fault nonce path bytes disk in (r.after, r.result)

-- `ensure_private_file` and `fs::read`, of a path that exists.
abbrev pub read_private : Bytes → File → Action Bytes
read_private path file = do ensure_private_file path; pure file.content

abbrev pub is_supported : PersistedHostState → Bool
is_supported state =
    state.schema_version == current_schema_version || state.schema_version == legacy_schema_version

-- `is_blank` stands for `s.trim().is_empty()`, `id_of` for the text of the endpoint id of a secret
-- key, `is_id` for whether a text is one.
pub record Parts : Type 0 where
  pub states : Codec PersistedHostState
  pub is_blank : Bytes → Bool
  pub id_of : Bytes → Bytes
  pub is_id : Bytes → Bool

module _ (parts : Parts) where
  abbrev pub write_json : Fault → Bytes → Option Bytes → Action (Unit {0})
  write_json fault nonce none = fail no_json
  write_json fault nonce (some json) = replace fault nonce host_state_path json

  -- `write_host_state_file`
  abbrev pub write_host_state_file : Fault → Bytes → PersistedHostState → Action (Unit {0})
  write_host_state_file fault nonce state = write_json fault nonce (parts.states.to_vec state)

  abbrev pub checked_key : Bytes → Action Bytes
  checked_key bytes = if length bytes == 32 then pure bytes else fail invalid_key_length

  abbrev pub key_from : Chance → Option File → Action Bytes
  key_from chance (some file) = do bytes ← read_private host_key_path file; checked_key bytes
  key_from chance none = do
    replace chance.key_fault chance.key_nonce host_key_path chance.key
    pure chance.key

  unfoldable pub load_or_create_host_secret_key : Chance → Action Bytes
  load_or_create_host_secret_key chance disk = key_from chance (disk host_key_path) disk

  -- `repair_host_state`, then the step from the legacy schema.
  unfoldable pub repair_host_state : Bytes → Bytes → PersistedHostState → PersistedHostState × Bool
  repair_host_state endpoint_id fresh state = (
    record state {
      endpoint_id = endpoint_id;
      attach_secret = if parts.is_blank state.attach_secret then fresh else state.attach_secret;
    },
    not (str_eq state.endpoint_id endpoint_id) || parts.is_blank state.attach_secret,
  )

  unfoldable pub migrate : PersistedHostState × Bool → PersistedHostState × Bool
  migrate (state, changed) =
      if state.schema_version == legacy_schema_version
      then (record state { schema_version = current_schema_version }, true)
      else (state, changed)

  abbrev pub save_if : Chance → PersistedHostState × Bool → Action PersistedHostState
  save_if chance (state, true) = do
    write_host_state_file chance.state_fault chance.state_nonce state
    pure state
  save_if chance (state, false) = pure state

  abbrev pub parsed_state : Option PersistedHostState → Action PersistedHostState
  parsed_state none = fail unreadable_state
  parsed_state (some state) = if is_supported state then pure state else fail unsupported_schema

  abbrev pub new_state : Bytes → Chance → PersistedHostState
  new_state endpoint_id chance = record {
    schema_version = current_schema_version;
    endpoint_id = endpoint_id;
    attach_secret = chance.attach_secret;
    service_secrets = [];
  }

  abbrev pub state_from : Bytes → Chance → Option File → Action PersistedHostState
  state_from endpoint_id chance (some file) = do
    bytes ← read_private host_state_path file
    state ← parsed_state (parts.states.from_slice bytes)
    save_if chance (migrate (repair_host_state endpoint_id chance.attach_secret state))
  state_from endpoint_id chance none = save_if chance (new_state endpoint_id chance, true)

  unfoldable pub load_or_create_host_state : Bytes → Chance → Action PersistedHostState
  unfolding repair_host_state migrate
  load_or_create_host_state endpoint_id chance disk =
      state_from endpoint_id chance (disk host_state_path) disk

  abbrev remove_if_exists : Bytes → Action (Unit {0})
  remove_if_exists path disk = (remove path disk, ok tt)

  abbrev pub acquire_state_lock : Bool → Action (Unit {0})
  acquire_state_lock is_active = if is_active then fail another_is_active else pure tt

  unfoldable pub reset_identity : Bool → Action (Unit {0})
  reset_identity is_active = do
    acquire_state_lock is_active
    remove_if_exists host_key_path
    remove_if_exists host_state_path

  abbrev pub rotated : Bytes → Chance → PersistedHostState → Option Bytes → Action Bytes
  rotated service chance state none = fail unknown_service
  rotated service chance state (some old) = do
    write_host_state_file chance.rotate_fault chance.rotate_nonce (record state {
      service_secrets = insert service chance.service_secret state.service_secrets;
    })
    pure chance.service_secret

  -- `rotate_secret`, whose host id is that of the key.
  unfoldable pub rotate_secret : Bytes → Bool → Chance → Action Bytes
  unfolding load_or_create_host_secret_key load_or_create_host_state
  rotate_secret service is_active chance = do
    acquire_state_lock is_active
    key ← load_or_create_host_secret_key chance
    state ← load_or_create_host_state (parts.id_of key) chance
    rotated service chance (record state { endpoint_id = parts.id_of key })
        (lookup service state.service_secrets)

  abbrev pub existing_state : Option File → Action PersistedHostState
  existing_state none = fail no_state
  existing_state (some file) = do
    bytes ← read_private host_state_path file
    state ← parsed_state (parts.states.from_slice bytes)
    if parts.is_id state.endpoint_id then pure state else fail invalid_host_id

  unfoldable pub read_host_state : Action PersistedHostState
  read_host_state disk = existing_state (disk host_state_path) disk

  abbrev pub found_secret : Option Bytes → Action Bytes
  found_secret none = fail unknown_service
  found_secret (some secret) = pure secret

  unfoldable pub read_service_secret : Bytes → Action Bytes
  unfolding read_host_state
  read_service_secret service = do
    state ← read_host_state
    found_secret (lookup service state.service_secrets)

  abbrev existing_key : Option File → Action Bytes
  existing_key none = fail no_identity
  existing_key (some file) = do bytes ← read_private host_key_path file; checked_key bytes

  unfoldable pub read_existing_host_endpoint_id : Action Bytes
  read_existing_host_endpoint_id disk =
      continue (existing_key (disk host_key_path) disk) (λ key. pure (parts.id_of key))

  unfoldable pub read_host_endpoint_id : Action Bytes
  unfolding read_host_state read_existing_host_endpoint_id
  read_host_endpoint_id = do
    state ← read_host_state
    endpoint_id ← read_existing_host_endpoint_id
    if str_eq state.endpoint_id endpoint_id then pure endpoint_id else fail identity_mismatch
