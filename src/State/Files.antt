-- ===== src/State/Files.antt =====
-- The files of the state directory, and how src/state.rs replaces one of them.
use locho.Base.{
  ℕ, ◌%◌, Bool, true, false, ◌++◌, List, [], ◌∷◌, Option, none, some, Bytes, codes, str_eq, is_some,
  ◌==◌, if◌then◌else◌, Result, Checked, ok, err,
}

pub record File : Type 0 where
  pub content : Bytes
  pub mode : ℕ

-- By the name in the directory.
abbrev pub Disk : Type 0
Disk = Bytes → Option File

abbrev pub put : Bytes → File → Disk → Disk
put path file disk p = if str_eq path p then some file else disk p

-- `fs::remove_file`
abbrev pub remove : Bytes → Disk → Disk
remove path disk p = if str_eq path p then none else disk p

pub data StateError : Type 0 where
  another_is_active invalid_key_length no_identity no_state unreadable_state : StateError
  unsupported_schema unknown_service identity_mismatch invalid_host_id : StateError
  no_json directory_failed create_failed write_failed sync_failed rename_failed : StateError
  directory_sync_failed : StateError

-- An operation on the files that may fail; what it did to them before that stays.
abbrev pub Action : Type 0 → Type 0
Action A = Disk → Disk × Result StateError A

abbrev pub pure : {A : Type 0} → A → Action A
pure a disk = (disk, ok a)

abbrev pub fail : {A : Type 0} → StateError → Action A
fail e disk = (disk, err e)

abbrev pub continue :
    {A B : Type 0} → Disk × Result StateError A → (A → Action B) → Disk × Result StateError B
continue (disk, ok a) next = next a disk
continue (disk, err e) next = (disk, err e)

infixl 5 ◌>>=◌ ◌>>◌
abbrev pub ◌>>=◌ : {A B : Type 0} → Action A → (A → Action B) → Action B
◌>>=◌ action next disk = continue (action disk) next

abbrev pub ◌>>◌ : {B : Type 0} → Action (Unit {0}) → Action B → Action B
action >> next = action >>= λ _. next

-- `mode & 0o077` is what `mode` leaves modulo 64; 384 is `0o600`.
abbrev pub secured : File → File
secured file = if file.mode % 64 == 0 then file else record file { mode = 384 }

abbrev pub secure_at : Bytes → Option File → Disk → Disk
secure_at path none disk = disk
secure_at path (some file) disk = put path (secured file) disk

-- `ensure_private_file` on a path that exists
abbrev pub ensure_private_file : Bytes → Action (Unit {0})
ensure_private_file path disk = (secure_at path (disk path) disk, ok tt)

-- The step at which the replacement of a file fails, if any does: the part that was written stands
-- in `write_fails`.
pub data Failure : Type 0 where
  no_failure directory_fails create_fails sync_fails rename_fails directory_sync_fails : Failure
  write_fails : Bytes → Failure

-- What goes wrong while a file is replaced, and whether the temporary file then cannot be removed.
pub record Fault : Type 0 where
  pub failure : Failure
  pub removal_fails : Bool

abbrev pub no_fault : Fault
no_fault = record { failure = no_failure; removal_fails = false }

-- `path.with_file_name(format!(".{}.tmp-{}", …))`; the random number is in decimal digits.
abbrev pub temp_path : Bytes → Bytes → Bytes
temp_path nonce path = b'.' ∷ (path ++ (codes ".tmp-" ++ nonce))

abbrev pub private_file : Bytes → File
private_file content = record { content = content; mode = 384 }

-- The files after each step of `write_file_atomic`, the last step first, and its result.
pub record Replacement : Type 0 where
  pub after : Disk
  pub before : List Disk
  pub result : Checked StateError

-- The closure failed: the temporary file is removed, and a failure to do so is ignored.
abbrev pub clean_up : Bool → Bytes → List Disk → Disk → StateError → Replacement
clean_up removal_fails temp before disk e = record {
  after = if removal_fails then disk else remove temp disk;
  before = disk ∷ before;
  result = err e;
}

abbrev pub replace_with : Bool → Failure → Bytes → Bytes → Bytes → Disk → Replacement
replace_with removal_fails directory_fails temp path bytes disk = record {
  after = disk;
  before = [];
  result = err directory_failed;
}
replace_with removal_fails create_fails temp path bytes disk =
    clean_up removal_fails temp [] disk create_failed
replace_with removal_fails (write_fails part) temp path bytes disk =
    clean_up removal_fails temp (put temp (private_file []) disk ∷ disk ∷ [])
      (put temp (private_file part) disk) write_failed
replace_with removal_fails sync_fails temp path bytes disk =
    clean_up removal_fails temp (put temp (private_file []) disk ∷ disk ∷ [])
      (put temp (private_file bytes) disk) sync_failed
replace_with removal_fails rename_fails temp path bytes disk =
    clean_up removal_fails temp (put temp (private_file []) disk ∷ disk ∷ [])
      (put temp (private_file bytes) disk) rename_failed
replace_with removal_fails directory_sync_fails temp path bytes disk =
    clean_up removal_fails temp
      (put temp (private_file bytes) disk ∷ put temp (private_file []) disk ∷ disk ∷ [])
      (put path (private_file bytes) (remove temp disk)) directory_sync_failed
replace_with removal_fails no_failure temp path bytes disk = record {
  after = put path (private_file bytes) (remove temp disk);
  before = put temp (private_file bytes) disk ∷ put temp (private_file []) disk ∷ disk ∷ [];
  result = ok tt;
}

-- `create_new` fails on a file that exists.
abbrev pub actual_failure : Failure → Bool → Failure
actual_failure directory_fails exists = directory_fails
actual_failure _ true = create_fails
actual_failure f false = f

unfoldable pub write_file_atomic : Fault → Bytes → Bytes → Bytes → Disk → Replacement
write_file_atomic fault nonce path bytes disk =
    replace_with fault.removal_fails
      (actual_failure fault.failure (is_some (disk (temp_path nonce path)))) (temp_path nonce path)
      path bytes disk
