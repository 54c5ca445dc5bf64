-- ===== src/Tests/States.antt =====
-- A host's files: a start, a rotation and an interrupted write.
use locho.Base.{
  ℕ, true, false, List, [], ◌∷◌, Option, none, some, Bytes, codes, str_eq, contains, bytes_eq,
  if◌then◌else◌, ◌≡◌, refl, sym, ap, arith, ok,
}
use locho.Host.{lookup}
use locho.Host.Startup.{active_secrets, or_else, active_secrets_lem}
use locho.State.Files.{
  Disk, Fault, put, no_fault, write_fails, temp_path, private_file, write_file_atomic,
}
use locho.State.Atomic.{IsAtomic, write_file_atomic-IsAtomic}
use locho.State.{
  PersistedHostState, Parts, Chance, host_key_path, host_state_path, insert,
  load_or_create_host_secret_key, load_or_create_host_state, repair_host_state, migrate,
  rotate_secret,
}
use locho.State.Stored.{Does, IsFaithful, Holds, IsCurrent}
use locho.State.Rotation.{IsStarted, rotate_secret_refines}
use locho.State.Reading.{load_again}

-- The text of a state with one service, whose texts are of one byte each.
pack : ℕ → Bytes → Bytes → List (Bytes × Bytes) → Option Bytes
pack v (x ∷ []) (y ∷ []) ((n ∷ [], s ∷ []) ∷ []) = some (v ∷ x ∷ y ∷ n ∷ s ∷ [])
pack v endpoint_id attach_secret secrets = none

unpack : Bytes → Option PersistedHostState
unpack (v ∷ x ∷ y ∷ n ∷ s ∷ []) = some (record {
  schema_version = v;
  endpoint_id = x ∷ [];
  attach_secret = y ∷ [];
  service_secrets = (n ∷ [], s ∷ []) ∷ [];
})
unpack text = none

unpack-pack :
    (v : ℕ) (endpoint_id attach_secret : Bytes) (secrets : List (Bytes × Bytes)) {json : Bytes}
    → pack v endpoint_id attach_secret secrets ≡ some json
    → unpack json
      ≡ some (record {
        schema_version = v;
        endpoint_id = endpoint_id;
        attach_secret = attach_secret;
        service_secrets = secrets;
      })
unfolding pack unpack
unpack-pack v (x ∷ []) (y ∷ []) ((n ∷ [], s ∷ []) ∷ []) {json} h =
    ap (λ o. elim o [ none ↦ none | some text ↦ unpack text ]) (sym h)
unpack-pack v endpoint_id attach_secret secrets h = absurd (ground arith)

abbrev parts : Parts
parts = record {
  states = record {
    to_vec = λ s. pack s.schema_version s.endpoint_id s.attach_secret s.service_secrets;
    from_slice = unpack;
  };
  is_blank = λ text. str_eq text [];
  id_of = λ key. 9 ∷ [];
  is_id = λ text. true;
}

parts-IsFaithful : IsFaithful parts
parts-IsFaithful s json h =
    unpack-pack s.schema_version s.endpoint_id s.attach_secret s.service_secrets h

abbrev key : Bytes
key = codes "an_identity_key_of_32_bytes_long"

abbrev chance : Chance
chance = record {
  key = key;
  attach_secret = 5 ∷ [];
  service_secret = 6 ∷ [];
  key_nonce = codes "1";
  state_nonce = codes "2";
  key_fault = no_fault;
  state_fault = no_fault;
  rotate_nonce = codes "3";
  rotate_fault = no_fault;
}

abbrev stored : PersistedHostState
stored = record {
  schema_version = 2;
  endpoint_id = 9 ∷ [];
  attach_secret = 5 ∷ [];
  service_secrets = (1 ∷ [], 4 ∷ []) ∷ [];
}

abbrev nothing : Disk
nothing path = none

abbrev disk : Disk
disk =
    put host_key_path (private_file key)
      (put host_state_path (private_file (2 ∷ 9 ∷ 5 ∷ 1 ∷ 4 ∷ [])) nothing)

disk-IsStarted : IsStarted parts disk key stored
unfolding unpack
disk-IsStarted = record {
  key_file = private_file key;
  key_found = refl;
  key_content = refl;
  key_length = refl;
  holds = record { file = private_file (2 ∷ 9 ∷ 5 ∷ 1 ∷ 4 ∷ []); found = refl; parses = refl };
  current = record { schema = refl; identity = refl; secret = refl };
}

abbrev rotated_disk : Disk
rotated_disk = (rotate_secret parts (1 ∷ []) false chance disk).0

rotation : Does (rotate_secret parts (1 ∷ []) false chance disk) rotated_disk (6 ∷ [])
unfolding rotate_secret load_or_create_host_secret_key load_or_create_host_state repair_host_state
    migrate write_file_atomic pack unpack
rotation = refl

rotate_secret_refines_example :
    ((6 ∷ []) ≡ chance.service_secret)
    × ((old : Bytes) × (lookup (1 ∷ []) stored.service_secrets ≡ some old))
    × Holds parts rotated_disk
        (record stored { service_secrets = insert (1 ∷ []) (6 ∷ []) stored.service_secrets })
rotate_secret_refines_example =
    rotate_secret_refines parts parts-IsFaithful (1 ∷ []) (6 ∷ []) chance disk rotated_disk key
      stored disk-IsStarted rotation

-- The state file of an older version.
abbrev legacy_disk : Disk
legacy_disk = put host_state_path (private_file (1 ∷ 9 ∷ 5 ∷ 1 ∷ 4 ∷ [])) nothing

abbrev loaded_disk : Disk
loaded_disk = (load_or_create_host_state parts (9 ∷ []) chance legacy_disk).0

load : Does (load_or_create_host_state parts (9 ∷ []) chance legacy_disk) loaded_disk stored
unfolding load_or_create_host_state repair_host_state migrate write_file_atomic pack unpack
load = refl

load_again_example :
    Holds parts loaded_disk stored
    × IsCurrent parts (9 ∷ []) stored
    × ((load_or_create_host_state parts (9 ∷ []) chance loaded_disk).1 ≡ ok stored)
load_again_example =
    load_again parts parts-IsFaithful (9 ∷ []) chance chance legacy_disk loaded_disk stored refl
      load

abbrev half_written : Fault
half_written = record { failure = write_fails (1 ∷ []); removal_fails = false }

write_file_atomic-IsAtomic_example :
    IsAtomic false
      (temp_path (codes "7") host_state_path)
      host_state_path
      (1 ∷ 2 ∷ [])
      disk
      (write_file_atomic half_written (codes "7") host_state_path (1 ∷ 2 ∷ []) disk)
write_file_atomic-IsAtomic_example =
    write_file_atomic-IsAtomic half_written (codes "7") host_state_path (1 ∷ 2 ∷ []) disk

abbrev drawn : Bytes → Bytes
drawn name = 8 ∷ name

abbrev two_secrets : List (Bytes × Bytes)
two_secrets = (codes "web", 1 ∷ []) ∷ (codes "old", 2 ∷ []) ∷ []

abbrev two_names : List Bytes
two_names = codes "web" ∷ codes "ssh" ∷ []

active_secrets_lem_example : lookup (codes "ssh") (active_secrets drawn two_names two_secrets) ≡ (
    if contains two_names (codes "ssh")
    then some (or_else (lookup (codes "ssh") two_secrets) (drawn (codes "ssh")))
    else none)
active_secrets_lem_example = active_secrets_lem drawn two_names two_secrets (codes "ssh")
