-- ===== src/Catalog/Deletion.antt =====
-- The deletion of a backup and the enforcement of the retention policy (backup.py: `delete_backup`,
-- `cron_retention_policy`, the delete annotation).
--
-- A call gives what it returns or raises, and the state that it leaves in either case. What the file
-- system and the hook scripts do is a parameter.
pub mod Outcome
use barman.Prelude.{
  ℕ, Bool, true, false, ◌&&◌, ◌||◌, not, Option, none, some, List, [], ◌∷◌, ◌++◌, if◌then◌else◌,
}
use barman.Text.{Text, text, text_eq, text_in}
use barman.Text.Sort.{sort_asc}
use barman.Dict.{Dict, get, put, remove, keys, values}
use barman.Result.{Result, ok, err, value_error, attribute_error, key_error, ◌>>=◌}
use barman.Backup.{
  BackupInfo, BackupStatus, RetentionStatus, obsolete, status_copy_done, status_archiving,
  status_all, is_some, backup_type, BackupType, rsync,
}
use barman.Backup.Tree.{unless_empty}
use barman.Annotations.{Store, get_annotation, put_annotation, delete_annotation, get_keep_target}
use barman.Catalog.{
  Backups, Cache, Range, loaded, with_status, find_next_backup_in, should_remove_wals,
  get_timelines_to_protect, backup_cache_remove,
}
use barman.Catalog.Removal.Deleting.{Archive}
use barman.Catalog.Removal.Whole.{Setting, remove_wal_before_backup}

abbrev pub delete_key : Text
delete_key = text "delete_this"

-- The backups on disk by their ids, the cache, the annotations, the lines of the xlogdb, the files of
-- the WAL archive, and the backups that have a lock file of the synchronisation
pub record Manager : Type 0 where
  pub stored : Backups
  pub cache : Cache
  pub annotations : Store
  pub xlogdb : List Text
  pub archive : Archive
  pub sync_locks : List Text

-- The end of the hooks that run first, whether the two deletions go through, what a deletion of the
-- directory that fails leaves of it, the option `concurrent_backup`, the size of a backup on disk, and
-- what the removal of WAL files needs
pub record Outside : Type 0 where
  pub pre_delete : Result (Unit {0})
  pub deletes_data : Bool
  pub deletes_directory : Bool
  pub leaves_info : Bool
  pub leaves_annotations : Bool
  pub is_concurrent : Bool
  pub size_of : Text → ℕ
  pub setting : Setting

unfoldable pub put_delete_annotation : Text → Manager → Manager
put_delete_annotation backup_id m = record m {
  annotations = put_annotation backup_id delete_key (some (text "delete")) m.annotations;
}

unfoldable pub check_delete_annotation : Text → Manager → Bool
check_delete_annotation backup_id m = is_some (get_annotation backup_id delete_key m.annotations)

unfoldable pub release_delete_annotation : Text → Manager → Manager
release_delete_annotation backup_id m = record m {
  annotations = delete_annotation backup_id delete_key m.annotations;
}

-- What a call leaves
abbrev pub Called {ℓ} : Type ℓ → Type ℓ
Called V = Result V × Manager

abbrev pub after_call {ℓ κ} :
    {V : Type ℓ} {W : Type κ} → Result V → Manager → (V → Called W) → Called W
after_call (err e) m rest = (err e, m)
after_call (ok v) m rest = rest v

-- The cache once it is loaded
abbrev pub all_backups : Manager → Backups
all_backups m = loaded (values m.stored) m.cache

unfoldable pub load : Manager → Manager
load m = record m { cache = some (all_backups m) }

-- Up to where WAL files are removed
abbrev pub remove_until : Option BackupInfo → Bool → BackupInfo → Option BackupInfo
remove_until (some next_backup) is_concurrent backup = some next_backup
remove_until none is_concurrent backup = if is_concurrent then some backup else none

unfoldable pub remove_wals :
    Outside → BackupInfo → Option BackupInfo → List Range → Manager → Called (List Text)
remove_wals out backup next_backup wal_ranges_to_protect m =
    let until = remove_until next_backup out.is_concurrent backup in
    let timelines =
      get_timelines_to_protect until backup (with_status status_archiving (all_backups m)) in
    let removed =
      remove_wal_before_backup out.setting until timelines wal_ranges_to_protect
        (m.xlogdb, m.archive) in
    (removed.0, record m { xlogdb = removed.1.0; archive = removed.1.1 })

-- `children_backup_ids.remove(backup_id)`, and `None` for the empty list
unfoldable pub without_id : Text → List Text → List Text
without_id backup_id [] = []
without_id backup_id (t ∷ l) =
    let rest = without_id backup_id l in if text_eq t backup_id then l else t ∷ rest

abbrev or_none : List Text → Option (List Text)
or_none [] = none
or_none (t ∷ l) = some (t ∷ l)

abbrev pub remove_child : Text → Option (List Text) → Result (Option (List Text))
remove_child backup_id none = err attribute_error
remove_child backup_id (some ids) =
    if text_in backup_id ids then ok (or_none (without_id backup_id ids)) else err value_error

-- The parent on disk, unless it is `EMPTY`
abbrev pub stored_parent : Backups → Option Text → Option BackupInfo
stored_parent stored none = none
stored_parent stored (some id) = elim (get stored id) [ none ↦ none | some b ↦ unless_empty b ]

abbrev pub leave_parent : BackupInfo → Option BackupInfo → Manager → Called (Unit {0})
leave_parent backup none m = (ok tt, m)
leave_parent backup (some parent) m =
    after_call (remove_child backup.backup_id parent.children_backup_ids) m (λ ids.
      let saved : BackupInfo = record parent { children_backup_ids = ids } in
      (ok tt, record m { stored = put m.stored parent.backup_id saved }))

-- `_set_backup_sizes` of the next backup, which stands in the cache, if it is an rsync backup
abbrev is_rsync : BackupType → Bool
is_rsync rsync = true
is_rsync _ = false

abbrev pub set_next_size : (Text → ℕ) → Option BackupInfo → Manager → Manager
set_next_size size_of none m = m
set_next_size size_of (some next) m =
    let sized : BackupInfo = record next { size = some (size_of next.backup_id) } in
    if is_rsync (backup_type next)
    then record m {
      stored = put m.stored next.backup_id sized;
      cache = some (put (all_backups m) next.backup_id sized);
    }
    else m

-- `delete_basebackup`: the directory with `backup.info` and the annotations
unfoldable pub delete_basebackup : Text → Manager → Manager
delete_basebackup backup_id m = record m {
  stored = remove m.stored backup_id;
  annotations = remove m.annotations backup_id;
}

-- A deletion of the directory that fails may have removed files before it does.
unfoldable pub delete_partly : Outside → Text → Manager → Manager
delete_partly out backup_id m = record m {
  stored = if out.leaves_info then m.stored else remove m.stored backup_id;
  annotations = if out.leaves_annotations then m.annotations else remove m.annotations backup_id;
}

-- What follows once the directory is gone; a stop that the last hooks ask for is ignored.
unfoldable pub forget_backup : Outside → BackupInfo → Option BackupInfo → Manager → Called Bool
forget_backup out backup next_backup m =
    let left = leave_parent backup (stored_parent m.stored backup.parent_backup_id) m in
    after_call left.0 left.1 (λ done.
      let sized : Manager = set_next_size out.size_of next_backup left.1 in
      let unlocked : Manager = record sized {
        sync_locks = without_id backup.backup_id sized.sync_locks;
      } in
      after_call (backup_cache_remove backup unlocked.cache) unlocked
        (λ cache. (ok true, record unlocked { cache = cache })))

unfoldable pub delete_directory : Outside → BackupInfo → Option BackupInfo → Manager → Called Bool
delete_directory out backup next_backup m =
    let released : Manager = release_delete_annotation backup.backup_id m in
    if out.deletes_directory
    then forget_backup out backup next_backup (delete_basebackup backup.backup_id released)
    else (ok false, delete_partly out backup.backup_id released)

unfoldable pub delete_data :
    Outside → BackupInfo → Bool × List Range → Option BackupInfo → Manager → Called Bool
delete_data out backup (should_remove, ranges) next_backup m =
    let removed =
      if should_remove then remove_wals out backup next_backup ranges m else (ok [], m) in
    if out.deletes_data
    then after_call removed.0 removed.1 (λ done. delete_directory out backup next_backup removed.1)
    else (ok false, m)

-- The backup is as it stands on disk, so `get_next_backup` looks among the same backups.
unfoldable pub delete_backup : Outside → Bool → BackupInfo → Manager → Called Bool
delete_backup out skip_wal_cleanup_if_standalone backup m =
    let marked : Manager = put_delete_annotation backup.backup_id m in
    after_call out.pre_delete marked (λ run.
      let m1 : Manager = load marked in
      let available = with_status (status_copy_done ++ backup.status ∷ []) (all_backups m1) in
      let keep = λ (backup_id : Text). get_keep_target backup_id m1.annotations in
      after_call
        (should_remove_wals backup available keep skip_wal_cleanup_if_standalone status_copy_done)
        m1
        (λ decision.
          after_call (find_next_backup_in available backup.backup_id status_copy_done) m1
            (λ next_backup. delete_data out backup decision next_backup m1)))

-- The report with the backups that have a delete annotation, which is released
unfoldable pub mark_obsolete :
    List BackupInfo → Dict RetentionStatus → Manager → Dict RetentionStatus × Manager
mark_obsolete [] report m = (report, m)
mark_obsolete (backup ∷ backups) report m =
    let marked = check_delete_annotation backup.backup_id m in
    mark_obsolete backups (if marked then put report backup.backup_id obsolete else report)
      (if marked then release_delete_annotation backup.backup_id m else m)

abbrev pub is_obsolete : RetentionStatus → Bool
is_obsolete obsolete = true
is_obsolete _ = false

abbrev pub delete_available :
    (BackupInfo → Manager → Called Bool) → Option BackupInfo → Manager → Called Bool
delete_available delete none m = (err key_error, m)
delete_available delete (some backup) m = delete backup m

-- The loop over the sorted ids: a backup whose lock is busy is skipped.
unfoldable pub enforce :
    (BackupInfo → Manager → Called Bool)
    → (Text → Bool)
    → Backups
    → List (Text × RetentionStatus)
    → Manager
    → Called (Unit {0})
enforce delete lock_free available [] m = (ok tt, m)
enforce delete lock_free available ((bid, status) ∷ report) m =
    let called =
      if is_obsolete status && lock_free bid
      then delete_available delete (get available bid) m
      else (ok true, m) in
    after_call called.0 called.1 (λ done. enforce delete lock_free available report called.1)

-- `delete` is `delete_backup` with its second argument `False`; `report` is the policy's.
unfoldable pub cron_retention_policy :
    (BackupInfo → Manager → Called Bool)
    → (Text → Bool)
    → Bool
    → (Manager → Result (Dict RetentionStatus))
    → Manager
    → Called (Unit {0})
cron_retention_policy delete lock_free is_auto report m =
    if is_auto
    then (let m1 : Manager = load m in
        let available = with_status status_all (all_backups m1) in
        after_call (report m1) m1 (λ statuses.
          let marked = mark_obsolete (values available) statuses m1 in
          enforce delete lock_free available
            (sort_asc (λ (x : Text × RetentionStatus). x.0) marked.0) marked.1))
    else (ok tt, m)
