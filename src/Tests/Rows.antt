-- ===== src/Tests/Rows.antt =====
-- The theorems on the lines of the xlogdb and on the deletion of WAL files.
use barman.Prelude.{◌≡◌, refl, none, some, List, [], ◌∷◌, arith}
use barman.Text.{Text, text, text_eq, text_in}
use barman.Text.Number.{is_space}
use barman.Text.Number.Decimal.{is_solid}
use barman.Dict.{get}
use barman.Result.{Result, ok}
use barman.Catalog.Removal.{WalFileInfo}
use barman.Catalog.Removal.Line.{Times, to_xlogdb_line, from_xlogdb_line}
use barman.Catalog.Removal.Line.RoundTrip.{from_xlogdb_line-to_xlogdb_line}
use barman.Catalog.Removal.Deleting.{Archive, delete_in}
use barman.Catalog.Removal.Deleting.Spared.{HasFile, delete_in-HasFile}
use barman.Prelude.{not}
use barman.Dict.{Dict}
use barman.Catalog.{Range}
use barman.Catalog.Removal.Deleting.{delete_wals}
use barman.Catalog.Removal.Kept.{AreRows, is_kept, select}
use barman.Catalog.Removal.Whole.{Setting, listed, remove_wal_before_backup}
use barman.Catalog.Removal.Whole.Removed.{in_dir, IsRemoved, remove_wals-select}
use barman.Tests.Data.{wal2, wal3}

abbrev row : WalFileInfo
row = record { name = wal2; size = 16777216; time = 5; compression = some (text "gzip") }

abbrev times : Times
times = record { show_time = λ t. text "5.0"; float_of = λ s. some 5 }

from_xlogdb_line-to_xlogdb_line_example : from_xlogdb_line times (to_xlogdb_line times row) ≡ ok row
from_xlogdb_line-to_xlogdb_line_example =
    from_xlogdb_line-to_xlogdb_line times row (unfold is_solid is_space in (refl, omega arith))
      ((unfold is_solid is_space in (refl, omega arith)), unfold text_eq in refl)
      (unfold is_solid is_space in (refl, omega arith)) refl

abbrev wal_dir : Text
wal_dir = text "0000000100000000"

abbrev archive : Archive
archive = (wal_dir, wal2 ∷ wal3 ∷ []) ∷ []

abbrev runs : WalFileInfo → Result (Unit {0})
runs w = ok tt

delete_in-HasFile_example : HasFile (delete_in runs wal_dir (row ∷ []) archive).1 wal_dir wal3
delete_in-HasFile_example =
    delete_in-HasFile runs wal_dir wal3 (row ∷ []) archive (omega arith)
      (unfold text_in text_eq in refl) (unfold get text_in text_eq in refl)

abbrev row3 : WalFileInfo
row3 = record row { name = wal3 }

abbrev lines : List Text
lines = to_xlogdb_line times row ∷ to_xlogdb_line times row3 ∷ []

abbrev setting : Setting
setting = record { wals_directory = text "wals"; times = times; pre_wal_delete = runs }

abbrev ranges : List Range
ranges = (some wal3, some wal3) ∷ []

lines-AreRows : AreRows (from_xlogdb_line times) lines (row ∷ row3 ∷ [])
lines-AreRows = (
  from_xlogdb_line-to_xlogdb_line_example,
  (
    from_xlogdb_line-to_xlogdb_line times row3 (unfold is_solid is_space in (refl, omega arith))
        ((unfold is_solid is_space in (refl, omega arith)), unfold text_eq in refl)
        (unfold is_solid is_space in (refl, omega arith)) refl,
    tt,
  ),
)

remove_wals-select_example :
    (groups : Dict (List WalFileInfo)) × ((dir : Text)
      → listed (get groups dir)
        ≡ in_dir
            (text "wals")
            dir
            (select (λ name. not (is_kept none (some 2 ∷ []) ranges name)) (row ∷ row3 ∷ [])))
    × IsRemoved setting lines
        (select (is_kept none (some 2 ∷ []) ranges) (row ∷ row3 ∷ []))
        (delete_wals runs groups archive)
        (remove_wal_before_backup setting none (some 2 ∷ []) ranges (lines, archive))
remove_wals-select_example =
    remove_wals-select setting none (some 2 ∷ []) ranges lines (row ∷ row3 ∷ []) archive
      ((wal3, wal3, refl), tt) lines-AreRows
