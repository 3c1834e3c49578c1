-- ===== src/Tests/Synced.antt =====
-- The theorems on the synchronisation of a passive node.
use barman.Prelude.{◌≡◌, refl, true, false, none, some, List, [], ◌∷◌, ◌++◌, take}
use barman.Prelude.Int.{pos}
use barman.Text.{Text, text, text_eq, text_le}
use barman.Text.Sort.{sort_asc, sort_by}
use barman.Text.Number.{int_of}
use barman.Text.Number.Decimal.{decimal, is_free}
use barman.Dict.{get, put}
use barman.Result.{Result, ok, err, key_error}
use barman.Backup.{BackupInfo, syncing, failed, status_eq}
use barman.Catalog.{Backups}
use barman.Catalog.Deletion.{Manager}
use barman.Server.Deletion.{Locking}
use barman.Tests.Deleted.{read_only}
use barman.Catalog.Removal.{WalFileInfo}
use barman.Server.Sync.{
  SyncStatus, Policy, Purge, copied, sync_status, sync_loop, discards, split_lines,
  set_sync_starting_point, load_sync_wals_info, write_sync_wals_info_file, sync_backup,
  check_sync_required,
}
use barman.Server.Sync.Resume.{is_line, join_lines, sync_status-twice}
use barman.Server.Sync.Info.{load-write_sync_wals_info}
use barman.Server.Sync.Outcome.{sync_backup-key_error}
use barman.Tests.Data.{id1, backup1, catalogue, wal2, wal3}

-- A line is the name of the file.
abbrev parse : Text → Result WalFileInfo
parse line = ok (record { name = take 24 line; size = 0; time = 0; compression = none })

abbrev row : Text → WalFileInfo
row name = record { name = name; size = 0; time = 0; compression = none }

abbrev lines : List Text
lines = (wal2 ++ text "\n") ∷ []

abbrev status : SyncStatus
status = record {
  last_position = 25;
  last_name = wal3;
  backups = [];
  wals = row wal2 ∷ row wal3 ∷ [];
}

first_status :
    sync_status parse [] (join_lines lines ++ ((wal3 ++ text "\n") ++ [])) none none ≡ ok status
unfolding sync_status sync_loop discards split_lines set_sync_starting_point sort_asc sort_by
first_status = refl

sync_status-twice_example :
    sync_status parse []
      (join_lines lines ++ ((wal3 ++ text "\n") ++ text "x"))
      (some wal3)
      (some 25)
    ≡ sync_status parse [] (join_lines lines ++ ((wal3 ++ text "\n") ++ text "x")) (some wal3) none
sync_status-twice_example =
    sync_status-twice parse [] [] lines (wal3 ++ text "\n") (text "x") (text "\n") (row wal3) status
      (unfold is_line in (refl, tt)) (unfold is_line in refl) refl refl refl
      ((row wal2, refl, unfold text_le in refl), tt) first_status

load-write_sync_wals_info_example :
    (load_sync_wals_info (write_sync_wals_info_file status) ≡ ok (some wal3, some (decimal 25)))
    × (int_of 10 (decimal 25) ≡ some (pos 25))
load-write_sync_wals_info_example =
    load-write_sync_wals_info status (unfold is_free in refl) (unfold is_free in refl)

abbrev policy : Policy
policy = record { is_auto = false; report = λ backups. none }

abbrev purge : Purge
purge = record {
  out = read_only;
  minimum_redundancy = 0;
  locking = Locking.granted;
  backup_locking = λ bid. Locking.granted;
  unread = λ bid. backup1;
  fuel = 3;
}

abbrev with_stored : Backups → Manager
with_stored stored = record {
  stored = stored;
  cache = none;
  annotations = [];
  xlogdb = [];
  archive = [];
  sync_locks = [];
}

abbrev here : Manager
here = with_stored ((id1, record backup1 { status = failed }) ∷ [])

-- The copy makes the backup DONE.
synced_now :
    get (sync_backup true policy purge true copied (ok catalogue) id1 here).1.stored id1
    ≡ some backup1
unfolding sync_backup check_sync_required get put text_eq status_eq
synced_now = refl

abbrev cut_off : BackupInfo
cut_off = record backup1 { status = syncing }

sync_backup-key_error_example :
    sync_backup true policy purge true copied (ok []) id1 (with_stored ((id1, cut_off) ∷ []))
    ≡ (err key_error, with_stored ((id1, cut_off) ∷ []))
sync_backup-key_error_example =
    sync_backup-key_error policy purge true copied id1 [] (with_stored ((id1, cut_off) ∷ []))
      cut_off (unfold get in refl) (unfold get text_eq in refl) (unfold status_eq in refl)
      (unfold status_eq in refl)
