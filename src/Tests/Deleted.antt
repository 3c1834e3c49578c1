-- ===== src/Tests/Deleted.antt =====
-- The theorems on deletions, at a backup with one that depends on it.
use barman.Prelude.{
  ◌≡◌, ◌⊎◌, refl, Bool, true, false, ◌&&◌, ◌||◌, none, some, List, [], ◌∷◌, length, leb,
  if◌then◌else◌,
}
use barman.Text.{Text, text, text_eq, text_le}
use barman.Text.Sort.{sort_asc, sort_by, insert_by}
use barman.Dict.{get, put}
use barman.Annotations.{put_annotation}
use barman.Result.{Result, ok}
use barman.Backup.{BackupInfo, done, status_eq, status_in}
use barman.Backup.Tree.{Disk, walk_backups_tree, walk_children}
use barman.Catalog.{
  with_status, should_remove_wals, find_previous_backup_in, find_next_backup_in, index_of,
  previous_from, next_from, load_from, removal_loop,
}
use barman.Catalog.Deletion.{
  Manager, Outside, delete_backup, check_delete_annotation, put_delete_annotation, load,
  delete_data,
}
use barman.Catalog.Deletion.Outcome.{KeepsOthers, delete_backup-false}
use barman.Server.Deletion.{Locking, granted, under_lock}
use barman.Server.Deletion.Order.{in_turn, delete_backup-in_turn}
use barman.Tests.Data.{id1, id2, backup1, backup2, catalogue}

abbrev manager : Manager
manager = record {
  stored = catalogue;
  cache = none;
  annotations = [];
  xlogdb = [];
  archive = [];
  sync_locks = [];
}

abbrev pub read_only : Outside
read_only = record {
  pre_delete = ok tt;
  deletes_data = false;
  deletes_directory = false;
  leaves_info = true;
  leaves_annotations = true;
  is_concurrent = true;
  size_of = λ bid. 0;
  setting = record {
    wals_directory = text "wals";
    times = record { show_time = λ t. text "5.0"; float_of = λ s. some 5 };
    pre_wal_delete = λ w. ok tt;
  };
}

abbrev marked : Manager
marked = load (put_delete_annotation id1 manager)

failed_deletion : delete_backup read_only true backup1 manager ≡ (ok false, marked)
unfolding delete_backup load put_delete_annotation delete_data should_remove_wals
    find_previous_backup_in find_next_backup_in index_of previous_from next_from with_status
    load_from status_in status_eq sort_asc sort_by insert_by text_eq text_le put get put_annotation
    removal_loop
failed_deletion = refl

delete_backup-false_example :
    ((read_only.deletes_data ≡ false)
      × (marked.stored ≡ manager.stored)
      × (marked.xlogdb ≡ manager.xlogdb)
      × (marked.archive ≡ manager.archive)
      × (check_delete_annotation id1 marked ≡ true))
    ⊎ ((read_only.deletes_data ≡ true)
        × (read_only.deletes_directory ≡ false)
        × KeepsOthers id1 manager.stored marked.stored)
delete_backup-false_example =
    delete_backup-false read_only true backup1 manager marked
      (unfold text_eq in ((refl, (refl, tt)), ((refl, tt), (tt, tt)))) failed_deletion

abbrev parent : BackupInfo
parent = record backup1 { children_backup_ids = some (id2 ∷ []) }

abbrev disk : Disk
disk id = if text_eq id id1 then parent else backup2

abbrev logs : BackupInfo → List Text → Result Bool × List Text
logs b l = (ok true, b.backup_id ∷ l)

others : walk_backups_tree 3 disk false parent ≡ backup2 ∷ []
unfolding walk_backups_tree walk_children text_eq
others = refl

delete_backup-in_turn_example :
    barman.Server.Deletion.delete_backup logs catalogue 1 false granted 3 disk parent [] ≡ (
      if false
        || (status_eq parent.status done && leb (length (with_status (done ∷ []) catalogue)) 1)
      then (ok false, [])
      else under_lock granted []
          (in_turn logs (walk_backups_tree 3 disk false parent) (logs parent) []))
delete_backup-in_turn_example =
    delete_backup-in_turn logs catalogue 1 false granted 2 disk parent []
      (unfold walk_backups_tree walk_children text_eq in (refl, tt))
