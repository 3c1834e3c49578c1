-- ===== src/Tests/Data.antt =====
-- Test data: three root backups of timeline 1, and a server.
use barman.Prelude.{ℕ, none, some, List, [], ◌∷◌}
use barman.Text.{Text, text}
use barman.Backup.{BackupInfo, BackupStatus}
use barman.Catalog.{Backups}
use barman.Retention.{ServerMetadata}

abbrev pub id1 : Text
id1 = text "20240101T0"

abbrev pub id2 : Text
id2 = text "20240102T0"

abbrev pub id3 : Text
id3 = text "20240103T0"

abbrev pub a_backup : Text → Text → Text → ℕ → BackupInfo
a_backup backup_id begin_wal end_wal end_time = record {
  backup_id = backup_id;
  status = BackupStatus.done;
  mode = text "rsync";
  timeline = some 1;
  begin_wal = some begin_wal;
  end_wal = some end_wal;
  end_xlog = some (text "0/5");
  end_time = some end_time;
  size = some 100;
  version = some 150000;
  xlog_segment_size = 16777216;
  backup_name = none;
  data_checksums = some (text "on");
  summarize_wal = none;
  parent_backup_id = none;
  children_backup_ids = none;
}

abbrev pub wal2 : Text
wal2 = text "000000010000000000000002"

abbrev pub wal3 : Text
wal3 = text "000000010000000000000003"

abbrev pub wal5 : Text
wal5 = text "000000010000000000000005"

abbrev pub wal6 : Text
wal6 = text "000000010000000000000006"

abbrev pub backup1 : BackupInfo
backup1 = a_backup id1 wal2 wal3 100

abbrev pub backup2 : BackupInfo
backup2 = a_backup id2 wal3 wal5 200

abbrev pub backup3 : BackupInfo
backup3 = a_backup id3 wal6 wal6 300

abbrev pub catalogue : Backups
catalogue = (id2, backup2) ∷ (id1, backup1) ∷ (id3, backup3) ∷ []

abbrev pub server : ServerMetadata
server = record { minimum_redundancy = 1; get_keep_target = λ bid. none }

abbrev pub no_walk : BackupInfo → List BackupInfo
no_walk b = []
