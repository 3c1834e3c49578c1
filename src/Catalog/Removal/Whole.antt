-- ===== src/Catalog/Removal/Whole.antt =====
-- The removal of WAL files with the deletion of the files and the new xlogdb (backup.py:
-- `remove_wal_before_backup`).
--
-- The directory of each file is found once all lines are read: the names are valid then. The xlogdb
-- is the list of its lines.
pub mod Removed
use barman.Prelude.{ℕ, Option, none, some, List, [], ◌∷◌, ◌++◌, map}
use barman.Text.{Text}
use barman.Dict.{Dict, get, put}
use barman.Result.{Result, ok, err, ◌>>=◌}
use barman.Backup.{BackupInfo}
use barman.Xlog.Name.{hash_dir}
use barman.Locks.{join}
use barman.Catalog.{Range}
use barman.Catalog.Removal.{WalFileInfo, Sorted, sort_lines}
use barman.Catalog.Removal.Line.{Times, to_xlogdb_line, from_xlogdb_line}
use barman.Catalog.Removal.Deleting.{Archive, delete_wals}

-- The directory of the archive, the texts of a time, and the hooks before the deletion of a file
pub record Setting : Type 0 where
  pub wals_directory : Text
  pub times : Times
  pub pre_wal_delete : WalFileInfo → Result (Unit {0})

-- `os.path.dirname(wal_info.fullpath(self.server))`; a history file has no directory of its own.
abbrev pub dir_of : Text → Text → Text
dir_of wals_directory [] = wals_directory
dir_of wals_directory (c ∷ s) = join wals_directory (c ∷ s)

abbrev pub listed : Option (List WalFileInfo) → List WalFileInfo
listed none = []
listed (some l) = l

-- `wals_to_remove[wal_dir].append(wal_info)`
unfoldable pub group_by_dir :
    Text → Dict (List WalFileInfo) → List WalFileInfo → Result (Dict (List WalFileInfo))
group_by_dir wals_directory groups [] = ok groups
group_by_dir wals_directory groups (w ∷ wals) = do
  hash ← hash_dir w.name
  group_by_dir wals_directory
      (put groups (dir_of wals_directory hash)
        (listed (get groups (dir_of wals_directory hash)) ++ w ∷ []))
      wals

abbrev pub Logged : Type 0
Logged = List Text × Archive

-- The new xlogdb takes the place of the old one only once the files are deleted.
abbrev pub new_log :
    Times
    → List WalFileInfo
    → List Text
    → Result (List Text) × Archive
    → Result (List Text) × Logged
new_log times kept lines (err e, archive) = (err e, (lines, archive))
new_log times kept lines (ok names, archive) =
    (ok names, (map (to_xlogdb_line times) kept, archive))

abbrev pub remove_sorted : Setting → Result Sorted → Logged → Result (List Text) × Logged
remove_sorted setting (err e) logged = (err e, logged)
remove_sorted setting (ok (kept, removed)) (lines, archive) =
    elim (group_by_dir setting.wals_directory [] removed) [
      | err e ↦ (err e, (lines, archive))
      | ok groups ↦
          new_log setting.times kept lines (delete_wals setting.pre_wal_delete groups archive)
    ]

unfoldable pub remove_wal_before_backup :
    Setting
    → Option BackupInfo
    → List (Option ℕ)
    → List Range
    → Logged
    → Result (List Text) × Logged
remove_wal_before_backup setting backup_info timelines ranges logged =
    remove_sorted setting
      (sort_lines (from_xlogdb_line setting.times) backup_info timelines ranges logged.0) logged
