-- ===== src/Server/Sync/Outcome.antt =====
-- What `sync_backup` does to the local backups.
use barman.Prelude.{
  ◌≡◌, ◌≢◌, ◌⊎◌, refl, Bool, true, false, ◌&&◌, ◌||◌, not, none, some, if◌then◌else◌, Bool-cases,
  inl, inr,
}
use barman.Text.{Text, text_eq}
use barman.Dict.{get}
use barman.Result.{
  Result, ok, err, require, key_error, sync_error, sync_nothing_to_do, sync_to_be_deleted, ◌>>=◌,
  ◌>>◌,
}
use barman.Backup.{BackupInfo, failed, done, status_eq}
use barman.Catalog.{Backups}
use barman.Catalog.Deletion.{Manager, Called}
use barman.Server.Sync.{
  Policy, Purge, Copy, SyncEnd, saved, check_sync_required, is_backup_locally_obsolete, sync_backup,
  purge_backup, after_purge, copy_status, with_backup, has_status,
}

-- The backup is copied: no other one has changed, and the copy's status is the last one saved.
abbrev pub IsCopied : Copy → Text → Backups → Manager → Called SyncEnd → Type 0
IsCopied copy name remote m called =
    (b : BackupInfo) × (get remote name ≡ some b)
    × (called.0 ≡ ok (saved (copy_status copy)))
    × ((j : Text)
        → get called.1.stored j
          ≡ (if text_eq name j then some (with_backup (copy_status copy) b) else get m.stored j))

-- What `is_backup_locally_obsolete` raises is no error of the synchronisation.
abbrev IsForeign : {A : Type 0} → Result A → Type 0
IsForeign r = r ≢ err sync_to_be_deleted

-- The guards of `check_sync_required`, for what they test
guards : Bool → Bool → Bool → Bool → Result (Unit {0}) → Result (Unit {0})
guards present exists is_failed is_done rest =
    require (present || exists) sync_error
    >> require (present || not is_failed) sync_to_be_deleted
    >> require (present || not is_done) sync_nothing_to_do
    >> require (not (present && is_done)) sync_nothing_to_do
    >> rest

-- The last check: the retention policy
last_check : Policy → Backups → Text → Backups → Result (Unit {0})
last_check policy stored name remote =
    if policy.is_auto
    then (is_backup_locally_obsolete policy stored name remote >>= λ old.
        require (not old) sync_nothing_to_do)
    else ok tt

-- The primary does not have the backup, which is FAILED here.
abbrev pub IsToBeDeleted : Text → Result Backups → BackupInfo → Type 0
IsToBeDeleted name primary b =
    (status_eq b.status failed ≡ true)
    × ((remote : Backups) × (primary ≡ ok remote) × (get remote name ≡ none))

-- What a call may have done
abbrev pub IsSynced :
    Purge → Bool → Copy → Text → Result Backups → Manager → Called SyncEnd → Type 0
IsSynced purge lock_free copy name primary m called =
    (called.1 ≡ m)
    ⊎ (((b : BackupInfo) × (get m.stored name ≡ some b)
          × IsToBeDeleted name primary b
          × (called ≡ after_purge (purge_backup purge b m)))
        ⊎ ((remote : Backups) × (primary ≡ ok remote)
            × (has_status (get m.stored name) done ≡ false)
            × (lock_free ≡ true)
            × IsCopied copy name remote m called))

-- A backup that the primary does not have, and that is here but neither FAILED nor DONE, makes
-- `sync_backup` fail with a `KeyError` that changes nothing, whatever the policy and the lock are.
pub sync_backup-key_error :
    (policy : Policy) (purge : Purge) (lock_free : Bool) (copy : Copy) (name : Text)
    (remote : Backups) (m : Manager) (b : BackupInfo)
    → get remote name ≡ none
    → get m.stored name ≡ some b
    → status_eq b.status failed ≡ false
    → status_eq b.status done ≡ false
    → sync_backup true policy purge lock_free copy (ok remote) name m ≡ (err key_error, m)
unfolding sync_backup check_sync_required is_backup_locally_obsolete
sync_backup-key_error policy purge lock_free copy name remote m b absent here not_failed not_done =
    elim (Bool-cases policy.is_auto) [
      | inl e ↦ rw (absent, here, not_failed, not_done, e) refl
      | inr e ↦ rw (absent, here, not_failed, not_done, e, absent) refl
    ]
