-- ===== src/State/Atomic.antt =====
-- A file of the state directory is replaced as a whole or not at all.
use locho.Base.{
  ◌+◌, Bool, true, false, ◌++◌, List, [], ◌∷◌, none, some, Bytes, str_eq, str_eq_iff, str_eq_refl,
  is_some, length, length-append, All, ◌≡◌, ◌≢◌, refl, sym, ap, ◌∙◌, ◌⊎◌, inl, inr, arith,
  Bool-cases, ok, err,
}
use locho.State.Files.{
  Disk, put, remove, StateError, directory_failed, Fault, Failure, no_failure, directory_fails,
  create_fails, sync_fails, rename_fails, directory_sync_fails, write_fails, temp_path,
  private_file, Replacement, clean_up, replace_with, actual_failure, write_file_atomic,
}

-- The file at `path` is the old or the new one, and no file but the temporary one is touched.
pub record IsIntact (temp path bytes : Bytes) (old : Disk) (d : Disk) : Type 0 where
  pub whole : (d path ≡ old path) ⊎ (d path ≡ some (private_file bytes))
  pub others : (q : Bytes) → str_eq path q ≡ false → str_eq temp q ≡ false → d q ≡ old q

pub record IsAtomic (removal_fails : Bool) (temp path bytes : Bytes) (old : Disk) (r : Replacement)
    : Type 0 where
  pub intact : All (IsIntact temp path bytes old) (r.after ∷ r.before)
  pub replaced :
      r.result ≡ ok tt → (r.after path ≡ some (private_file bytes)) × (r.after temp ≡ none)
  pub cleaned : removal_fails ≡ false → r.result ≢ err directory_failed → r.after temp ≡ none

-- A text is not a longer one.
longer : (path end : Bytes) → b'.' ∷ (path ++ end) ≢ path
longer path end same = absurd (omega (arith, ap length same, length-append path end, one_more))
  where
    one_more : length (b'.' ∷ (path ++ end)) ≡ length (path ++ end) + 1
    one_more = omega arith

temp_path-apart : (nonce path : Bytes) → str_eq (temp_path nonce path) path ≡ false
temp_path-apart nonce path = elim (Bool-cases (str_eq (temp_path nonce path) path)) [
  | inr apart ↦ apart
  | inl same ↦ absurd (longer path _ ((str_eq_iff (temp_path nonce path) path).0 same))
]

module _ (temp path bytes : Bytes) (old : Disk) (apart : str_eq temp path ≡ false) where
  apart_back : str_eq path temp ≡ false
  apart_back = elim (Bool-cases (str_eq path temp)) [
    | inr other ↦ other
    | inl same ↦
        absurd
          (differs (sym ((str_eq_iff temp path).1 (sym ((str_eq_iff path temp).0 same))) ∙ apart))
  ]
    where
      differs : true ≡ false → ⊥
      differs e = ground arith

  untouched : IsIntact temp path bytes old old
  untouched = record { whole = inl refl; others = λ q p t. refl }

  temp_written : (part : Bytes) → IsIntact temp path bytes old (put temp (private_file part) old)
  temp_written part = record { whole = inl (rw apart refl); others = λ q p t. rw t refl }

  temp_removed :
      (d : Disk) → IsIntact temp path bytes old d → IsIntact temp path bytes old (remove temp d)
  temp_removed d i = record { whole = rw apart i.whole; others = λ q p t. rw t (i.others q p t) }

  renamed : IsIntact temp path bytes old (put path (private_file bytes) (remove temp old))
  renamed = record { whole = inr (rw (str_eq_refl path) refl); others = λ q p t. rw (p, t) refl }

  -- The temporary file is gone.
  removed_at : (d : Disk) → remove temp d temp ≡ none
  removed_at d = rw (str_eq_refl temp) refl

  replaced_at : put path (private_file bytes) (remove temp old) path ≡ some (private_file bytes)
  replaced_at = rw (str_eq_refl path) refl

  clean_up-IsAtomic :
      (removal_fails : Bool) (before : List Disk) (d : Disk) (e : StateError)
      → All (IsIntact temp path bytes old) (d ∷ before)
      → IsAtomic removal_fails temp path bytes old (clean_up removal_fails temp before d e)
  clean_up-IsAtomic true before d e all_intact = record {
    intact = (all_intact.0, all_intact);
    replaced = λ done. absurd (ground arith);
    cleaned = λ works. absurd (ground arith);
  }
  clean_up-IsAtomic false before d e all_intact = record {
    intact = (temp_removed d all_intact.0, all_intact);
    replaced = λ done. absurd (ground arith);
    cleaned = λ _ _. removed_at d;
  }

  replace_with-IsAtomic :
      (removal_fails : Bool) (failure : Failure)
      → IsAtomic removal_fails temp path bytes old
          (replace_with removal_fails failure temp path bytes old)
  replace_with-IsAtomic removal directory_fails = record {
    intact = (untouched, tt);
    replaced = λ done. absurd (ground arith);
    cleaned = λ works other. absurd (other refl);
  }
  replace_with-IsAtomic removal create_fails = clean_up-IsAtomic removal [] old _ (untouched, tt)
  replace_with-IsAtomic removal (write_fails part) =
      clean_up-IsAtomic removal _ _ _ (temp_written part, (temp_written [], (untouched, tt)))
  replace_with-IsAtomic removal sync_fails =
      clean_up-IsAtomic removal _ _ _ (temp_written bytes, (temp_written [], (untouched, tt)))
  replace_with-IsAtomic removal rename_fails =
      clean_up-IsAtomic removal _ _ _ (temp_written bytes, (temp_written [], (untouched, tt)))
  replace_with-IsAtomic removal directory_sync_fails =
      clean_up-IsAtomic removal _ _ _
        (renamed, (temp_written bytes, (temp_written [], (untouched, tt))))
  replace_with-IsAtomic removal no_failure = record {
    intact = (renamed, (temp_written bytes, (temp_written [], (untouched, tt))));
    replaced = λ _. (replaced_at, rw apart_back (removed_at old));
    cleaned = λ _ _. rw apart_back (removed_at old);
  }

-- Whatever fails, and wherever it stops, a file is replaced as a whole or not at all: after every
-- step it holds the old or the new content, and no file but the temporary one differs from before.
-- With success the content is the new one and the temporary file is gone. It is gone after any
-- failure too, but that to make the directory, unless its removal fails as well.
pub write_file_atomic-IsAtomic :
    (fault : Fault) (nonce path bytes : Bytes) (disk : Disk)
    → IsAtomic fault.removal_fails
        (temp_path nonce path)
        path
        bytes
        disk
        (write_file_atomic fault nonce path bytes disk)
unfolding write_file_atomic
write_file_atomic-IsAtomic fault nonce path bytes disk =
    replace_with-IsAtomic (temp_path nonce path) path bytes disk (temp_path-apart nonce path)
      fault.removal_fails (actual_failure fault.failure (is_some (disk (temp_path nonce path))))
