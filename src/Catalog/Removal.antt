-- ===== src/Catalog/Removal.antt =====
-- The removal of the WAL files before a backup (backup.py: `remove_wal_before_backup`), and the
-- row of a WAL file (infofile.py: `WalFileInfo`).
--
-- `time` is in seconds.
pub mod Kept
pub mod Deleting
pub mod Line
pub mod Whole
use barman.Prelude.{
  ℕ, zero, suc, Bool, true, false, ◌&&◌, ◌||◌, Option, none, some, List, [], ◌∷◌, take,
  if◌then◌else◌,
}
use barman.Text.{Text, text_le}
use barman.Result.{Result, ok, err, type_error, ◌>>=◌}
use barman.Backup.{BackupInfo}
use barman.Xlog.Name.{is_any_xlog_file, is_history_file, is_backup_file, decode_segment_name}
use barman.Catalog.{Range, timeline_in}

pub record WalFileInfo : Type 0 where
  pub name : Text
  pub size : ℕ
  pub time : ℕ
  pub compression : Option Text

-- `if timelines_to_protect: …`
unfoldable pub on_protected_timeline : List (Option ℕ) → Text → Result Bool
on_protected_timeline [] name = ok false
on_protected_timeline (t ∷ timelines) name = do
  decoded ← decode_segment_name name
  ok (timeline_in (some decoded.0) (t ∷ timelines))

-- `wal_name >= begin_wal and wal_name <= end_wal`, where a bound may be `None`
unfoldable pub in_wal_range : Text → Range → Result Bool
in_wal_range wal_name (none, end_wal) = err type_error
in_wal_range wal_name (some begin_wal, none) =
    if text_le begin_wal wal_name then err type_error else ok false
in_wal_range wal_name (some begin_wal, some end_wal) =
    ok (text_le begin_wal wal_name && text_le wal_name end_wal)

unfoldable pub in_wal_ranges : Text → List Range → Result Bool
in_wal_ranges wal_name [] = ok false
in_wal_ranges wal_name (r ∷ ranges) = do
  here ← in_wal_range wal_name r
  rest ← in_wal_ranges wal_name ranges
  ok (here || rest)

unfoldable pub range_name : Text → Text
range_name name = if is_backup_file name then take 24 name else name

-- `if backup_info and backup_info.begin_wal is not None: …`
abbrev pub from_begin : Text → Option Text → Bool
from_begin name none = false
from_begin name (some begin_wal) = text_le begin_wal name

unfoldable pub is_newer : Option BackupInfo → Text → Bool
is_newer none name = false
is_newer (some backup_info) name = from_begin name backup_info.begin_wal

-- The `keep` of a line whose name is valid
unfoldable pub keep_wal : Option BackupInfo → List (Option ℕ) → List Range → Text → Result Bool
keep_wal backup_info timelines_to_protect wal_ranges_to_protect name = do
  protected ← on_protected_timeline timelines_to_protect name
  ranged ← in_wal_ranges (range_name name) wal_ranges_to_protect
  ok (is_history_file name || protected || ranged || is_newer backup_info name)

-- The new xlogdb, and the files to remove
abbrev pub Sorted : Type 0
Sorted = List WalFileInfo × List WalFileInfo

abbrev pub put_line : Bool → WalFileInfo → Sorted → Sorted
put_line true w s = (w ∷ s.0, s.1)
put_line false w s = (s.0, w ∷ s.1)

-- The loop over the lines of the xlogdb, with `WalFileInfo.from_xlogdb_line`; a line with an invalid
-- name is left out of both.
unfoldable pub sort_lines :
    (Text → Result WalFileInfo)
    → Option BackupInfo
    → List (Option ℕ)
    → List Range
    → List Text
    → Result Sorted
sort_lines from_xlogdb_line backup_info timelines ranges [] = ok ([], [])
sort_lines from_xlogdb_line backup_info timelines ranges (line ∷ lines) =
    let rest = sort_lines from_xlogdb_line backup_info timelines ranges lines in
    from_xlogdb_line line >>= λ w.
    if is_any_xlog_file w.name
    then (keep_wal backup_info timelines ranges w.name >>= λ keep.
        rest >>= λ s. ok (put_line keep w s))
    else rest
