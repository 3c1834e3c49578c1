-- ===== src/Catalog/Caching.antt =====
-- What is read of the cache of backups after a change.
use barman.Prelude.{◌≡◌, refl, true, Option, none, some, List, [], ◌∷◌, if◌then◌else◌}
use barman.Text.{Text, text_eq}
use barman.Dict.{get, put, remove, keys}
use barman.Dict.Laws.{get-put, get-remove, IsDistinct}
use barman.Result.{ok, err, key_error, ◌>>=◌}
use barman.Backup.{
  BackupInfo, BackupStatus, status_in, status_eq, status_all, empty, started, failed,
  waiting_for_wals, done, syncing,
}
use barman.Catalog.{
  Backups, Cache, with_status, loaded, backup_cache_add, backup_cache_remove, get_backup,
}

every_status : (s : BackupStatus) → status_in s status_all ≡ true
unfolding status_in status_eq
every_status empty = refl
every_status started = refl
every_status failed = refl
every_status waiting_for_wals = refl
every_status done = refl
every_status syncing = refl

with_status-all : (cache : Backups) → with_status status_all cache ≡ cache
unfolding with_status
with_status-all [] = refl
with_status-all ((key, value) ∷ cache) = rw (every_status value.status, with_status-all cache) refl

-- A backup that is added to the cache is found by its id, and the others are found as before,
-- whether the cache was loaded or is loaded now.
pub get_backup-backup_cache_add :
    (files : List BackupInfo) (b : BackupInfo) (cache : Cache) (bid : Text)
    → (get_backup files (some bid) (backup_cache_add files b cache)).0
      ≡ (if text_eq b.backup_id bid then some b else (get_backup files (some bid) cache).0)
unfolding get_backup backup_cache_add
get_backup-backup_cache_add files b cache bid =
    rw
      (
        with_status-all (put (loaded files cache) b.backup_id b),
        with_status-all (loaded files cache),
        get-put (loaded files cache) b.backup_id bid b,
      )
      refl

-- Removing a backup that a loaded cache has leaves none of its id, and the others are found as
-- before; where the cache does not have it, the removal fails.
pub get_backup-backup_cache_remove :
    (files : List BackupInfo) (b : BackupInfo) (backups : Backups) (bid : Text)
    → IsDistinct (keys backups)
    → (backup_cache_remove b (some backups) >>= λ cache. ok ((get_backup files (some bid) cache).0))
      ≡ (elim (get backups b.backup_id) [
        | none ↦ err key_error
        | some found ↦ ok (
            if text_eq b.backup_id bid
            then none
            else (get_backup files (some bid) (some backups)).0)
      ])
unfolding get_backup backup_cache_remove
get_backup-backup_cache_remove files b backups bid distinct = by_found (get backups b.backup_id)
  where
    by_found :
        (o : Option BackupInfo)
        → ((elim o [ none ↦ err key_error | some found ↦ ok (some (remove backups b.backup_id)) ])
            >>= λ cache. ok (get (with_status status_all (loaded files cache)) bid))
          ≡ (elim o [
            | none ↦ err key_error
            | some found ↦
                ok (
                  if text_eq b.backup_id bid
                  then none
                  else get (with_status status_all backups) bid)
          ])
    by_found none = refl
    by_found (some found) =
        rw
          (
            with_status-all (remove backups b.backup_id),
            with_status-all backups,
            get-remove backups b.backup_id bid distinct,
          )
          refl
