-- ===== src/Catalog/Check.antt =====
-- The check of a backup against the WAL archive (backup.py: `check_backup`), and the segments that
-- a backup needs (infofile.py: `get_required_wal_segments`).
pub mod Complete
use barman.Prelude.{ℕ, Bool, true, false, Option, none, some, List, [], ◌∷◌, take, if◌then◌else◌}
use barman.Text.{Text, text_le, text_lt}
use barman.Dict.{Dict, get}
use barman.Result.{Result, ok, err, type_error, ◌>>=◌}
use barman.Backup.{BackupInfo, BackupStatus}
use barman.Xlog.Segments.{generate_segment_names}

-- `get_required_wal_segments`, its first `n` names
unfoldable pub get_required_wal_segments : ℕ → Text → BackupInfo → Result (List Text)
get_required_wal_segments n begin_wal b =
    generate_segment_names n begin_wal b.end_wal b.version (some b.xlog_segment_size)

-- The loop over the segments, up to the last that is archived: the first that is missing
unfoldable pub first_missing : (Text → Bool) → Text → List Text → Option Text
first_missing exists last_archived_wal [] = none
first_missing exists last_archived_wal (wal ∷ segments) =
    let rest = first_missing exists last_archived_wal segments in
    if text_lt last_archived_wal wal then none else if exists wal then rest else some wal

-- What the check leaves: nothing is saved, or a status is, with the missing WAL if there is one.
pub data Checked : Type 0 where
  in_progress : Checked
  saved : BackupStatus → Option Text → Checked

abbrev pub judge : Text → Text → Option Text → Checked
judge end_wal last_archived_wal (some missing_wal) = saved BackupStatus.failed (some missing_wal)
judge end_wal last_archived_wal none =
    if text_le end_wal last_archived_wal
    then saved BackupStatus.done none
    else saved BackupStatus.waiting_for_wals none

abbrev pub check_archived :
    ℕ → (Text → Bool) → BackupInfo → Text → Text → Option Text → Result Checked
check_archived n exists b begin_wal end_wal none = ok (saved BackupStatus.waiting_for_wals none)
check_archived n exists b begin_wal end_wal (some last_archived_wal) =
    if text_lt last_archived_wal begin_wal
    then ok (saved BackupStatus.waiting_for_wals none)
    else get_required_wal_segments n begin_wal b >>= λ segments.
        ok (judge end_wal last_archived_wal (first_missing exists last_archived_wal segments))

-- `if not end_wal`
abbrev pub on_end : Option Text → (Text → Result Checked) → Result Checked
on_end none k = ok in_progress
on_end (some []) k = ok in_progress
on_end (some (c ∷ end_wal)) k = k (c ∷ end_wal)

-- `begin_wal[:8]` fails on `None`.
abbrev pub on_begin : Option Text → (Text → Result Checked) → Result Checked
on_begin none k = err type_error
on_begin (some begin_wal) k = k begin_wal

-- `exists` tells which segments the archive has, `timelines` the name of the last WAL of each
-- timeline; no more than `n` segments are needed.
unfoldable pub check_backup : ℕ → Dict Text → (Text → Bool) → BackupInfo → Result Checked
check_backup n timelines exists b = on_begin b.begin_wal (λ begin_wal.
    on_end b.end_wal
      (λ end_wal. check_archived n exists b begin_wal end_wal (get timelines (take 8 begin_wal))))
