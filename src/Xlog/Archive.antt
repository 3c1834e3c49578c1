-- ===== src/Xlog/Archive.antt =====
-- The check of a WAL archive before its first use (xlog.py: `check_archive_usable` and its
-- helpers). A timeline is `None` or an integer.
pub mod Usable
use barman.Prelude.{
  ℕ, zero, suc, ◌+◌, ◌<◌, ◌≤◌, ◌≡◌, refl, ◌↔◌, Bool, true, false, not, Option, none, some, List, [],
  ◌∷◌, arith, length, All, leb, ltb, Bool-cases, inl, inr, if◌then◌else◌,
}
use barman.Prelude.Int.{ℤ, pos, negsuc, ltb_ℤ}
use barman.Text.{Text}
use barman.Result.{
  Result, ok, err, command_exception, unexpected_file, archive_not_empty, newer_wals, ◌>>=◌, ◌>>◌,
  require, >>=-eq-ok,
}
use barman.Xlog.Name.{Segment, is_any_xlog_file, decode_segment_name}

-- `_validate_timeline`
unfoldable pub validate_timeline : ℤ → Result (Unit {0})
validate_timeline timeline = require (not (ltb_ℤ timeline (pos 1))) command_exception

-- `_wal_archive_filter_fun`: whether the file is of the timeline or of a later one
unfoldable pub wal_archive_filter_fun : ℤ → Text → Result Bool
wal_archive_filter_fun timeline wal = do
  require (is_any_xlog_file wal) (unexpected_file wal)
  decoded ← decode_segment_name wal
  ok (not (ltb_ℤ (pos decoded.0) timeline))

-- `[wal for wal in existing_wals if filter_fun(wal)]`; the first file that raises ends it.
unfoldable pub unexpected_wals : ℤ → List Text → Result (List Text)
unexpected_wals timeline [] = ok []
unexpected_wals timeline (wal ∷ wals) = do
  keep ← wal_archive_filter_fun timeline wal
  rest ← unexpected_wals timeline wals
  ok (if keep then wal ∷ rest else rest)

-- `if num_unexpected_wals > 0: raise …`
unfoldable pub raise_if_newer : ℕ → Result (Unit {0})
raise_if_newer zero = ok tt
raise_if_newer (suc n) = err (newer_wals (suc n))

unfoldable pub check_archive_usable : List Text → Option ℤ → Result (Unit {0})
check_archive_usable [] none = ok tt
check_archive_usable (wal ∷ wals) none = err archive_not_empty
check_archive_usable existing_wals (some timeline) = do
  validate_timeline timeline
  found ← unexpected_wals timeline existing_wals
  raise_if_newer (length found)
