-- ===== src/Server/Deletion.antt =====
-- The deletion of a backup with all that depend on it (server.py: `delete_backup`,
-- `perform_delete_backup`).
--
-- The state is a parameter, with the deletion of one backup by the backup manager, which may raise.
pub mod Order
use barman.Prelude.{
  ℕ, Bool, true, false, ◌&&◌, not, Option, none, some, List, [], ◌∷◌, ◌++◌, length, leb,
  if◌then◌else◌,
}
use barman.Text.{Text, text, text_eq}
use barman.Result.{Result, ok, err, Error, lock_file_busy, lock_file_permission_denied}
use barman.Backup.{BackupInfo, BackupStatus, done, status_eq}
use barman.Backup.Tree.{Disk, walk_backups_tree}
use barman.Catalog.{Backups, with_status}

-- How a lock is taken
pub data Locking : Type 0 where
  granted busy denied : Locking

-- What a call has returned
abbrev pub flag : Result Bool → Bool
flag (err e) = false
flag (ok deleted) = deleted

module _ {ℓ} {S : Type ℓ} where
  abbrev pub finish : (S → S) → Result Bool × S → Result Bool × S
  finish remove_lock_file (err e, after) = (err e, after)
  finish remove_lock_file (ok false, after) = (ok false, after)
  finish remove_lock_file (ok true, after) = (ok true, remove_lock_file after)

  abbrev pub under_lock : Locking → S → Result Bool × S → Result Bool × S
  under_lock granted s called = called
  under_lock busy s called = (ok false, s)
  under_lock denied s called = (ok false, s)

  -- The deletion of one backup: under its lock, whose file goes once the backup is gone
  unfoldable pub perform_delete_backup :
      (BackupInfo → S → Result Bool × S)
      → (Text → Locking)
      → (Text → S → S)
      → BackupInfo
      → S
      → Result Bool × S
  perform_delete_backup manager_delete locking remove_lock_file backup s =
      under_lock (locking backup.backup_id) s
        (finish (remove_lock_file backup.backup_id) (manager_delete backup s))

  -- What the loop does after a call; a deletion that raises ends it.
  abbrev pub go_on : Bool → Result Bool × S → Result Bool × S → Result Bool × S
  go_on is_root (err e, after) rest = (err e, after)
  go_on is_root (ok true, after) rest = rest
  go_on is_root (ok false, after) rest = if is_root then rest else (ok false, after)

  -- `for del_backup in backups_to_delete`
  unfoldable pub delete_tree :
      (BackupInfo → S → Result Bool × S) → Text → List BackupInfo → Bool → S → Result Bool × S
  delete_tree perform root [] deleted s = (ok deleted, s)
  delete_tree perform root (b ∷ backups) deleted s =
      let called = perform b s in
      let rest = delete_tree perform root backups (flag called.0) called.1 in
      go_on (text_eq b.backup_id root) called rest

  -- With the backups of the catalogue, the minimum redundancy, whether the backup is kept, how the
  -- lock of the server is taken, and fuel for the walk
  unfoldable pub delete_backup :
      (BackupInfo → S → Result Bool × S)
      → Backups
      → ℕ
      → Bool
      → Locking
      → ℕ
      → Disk
      → BackupInfo
      → S
      → Result Bool × S
  delete_backup perform backups minimum_redundancy is_kept locking fuel disk backup s =
      let available = with_status (done ∷ []) backups in
      if is_kept
      then (ok false, s)
      else if status_eq backup.status done && leb (length available) minimum_redundancy
      then (ok false, s)
      else under_lock locking s
          (delete_tree perform backup.backup_id (walk_backups_tree fuel disk true backup) false s)
