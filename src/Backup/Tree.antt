-- ===== src/Backup/Tree.antt =====
-- The trees of incremental backups (infofile.py: `get_parent_backup_info`, `get_child_backup_info`,
-- `walk_backups_tree`, `walk_to_root`, `is_checksum_consistent`).
--
-- `LocalBackupInfo(server, backup_id=id)` reads `backup.info` from disk, or gives an `EMPTY` backup;
-- a disk is therefore a function from ids to backups. The walks take fuel.
pub mod Descent
pub mod Ancestry
use barman.Prelude.{
  ℕ, zero, suc, Bool, true, false, ◌&&◌, ◌||◌, not, Option, none, some, List, [], ◌∷◌, ◌++◌,
  if◌then◌else◌,
}
use barman.Text.{Text, text, text_in}
use barman.Backup.{BackupInfo, BackupStatus, empty, status_eq, is_incremental, field_is}

abbrev pub Disk : Type 0
Disk = Text → BackupInfo

-- `None` and `[]` both have no child.
abbrev pub children : BackupInfo → List Text
children b = elim b.children_backup_ids [ none ↦ [] | some ids ↦ ids ]

-- `backup_info if backup_info.status != EMPTY else None`
unfoldable pub unless_empty : BackupInfo → Option BackupInfo
unless_empty b = if status_eq b.status empty then none else some b

abbrev parent_on : Disk → Option Text → Option BackupInfo
parent_on disk none = none
parent_on disk (some id) = unless_empty (disk id)

unfoldable pub get_parent_backup_info : Disk → BackupInfo → Option BackupInfo
get_parent_backup_info disk b = parent_on disk b.parent_backup_id

unfoldable pub get_child_backup_info : Disk → BackupInfo → Text → Option BackupInfo
get_child_backup_info disk b child_backup_id =
    if text_in child_backup_id (children b) then unless_empty (disk child_backup_id) else none

-- `for child_backup_id in self.children_backup_ids: yield from …`
unfoldable pub walk_children : (BackupInfo → List BackupInfo) → Disk → List Text → List BackupInfo
walk_children walk disk [] = []
walk_children walk disk (id ∷ ids) = walk (disk id) ++ walk_children walk disk ids

unfoldable pub walk_backups_tree : ℕ → Disk → Bool → BackupInfo → List BackupInfo
walk_backups_tree zero disk return_self b = []
walk_backups_tree (suc fuel) disk return_self b =
    walk_children (walk_backups_tree fuel disk true) disk (children b)
    ++ (if return_self then b ∷ [] else [])

-- `while backup_info: yield backup_info; …`
unfoldable pub walk_parents : ℕ → Disk → Option BackupInfo → List BackupInfo
walk_parents zero disk o = []
walk_parents (suc fuel) disk none = []
walk_parents (suc fuel) disk (some b) = b ∷ walk_parents fuel disk (get_parent_backup_info disk b)

unfoldable pub walk_to_root : ℕ → Disk → Bool → BackupInfo → List BackupInfo
walk_to_root fuel disk return_self b =
    (if return_self then b ∷ [] else []) ++ walk_parents fuel disk (get_parent_backup_info disk b)

unfoldable pub none_off : List BackupInfo → Bool
none_off [] = true
none_off (b ∷ l) = if field_is b.data_checksums (text "off") then false else none_off l

unfoldable pub is_checksum_consistent : ℕ → Disk → BackupInfo → Bool
is_checksum_consistent fuel disk b =
    if not (field_is b.data_checksums (text "on")) || not (is_incremental b)
    then true
    else none_off (walk_to_root fuel disk false b)
