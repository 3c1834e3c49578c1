-- ===== src/Xlog/History.antt =====
-- Timeline history files (xlog.py: `decode_history_file`), from the lines of the file.
pub mod Readable
use barman.Prelude.{ℕ, Bool, true, false, ◌||◌, List, [], ◌∷◌, if◌then◌else◌}
use barman.Prelude.Int.{ℤ}
use barman.Text.{Text, starts_with, split_on}
use barman.Text.Number.{strip}
use barman.Result.{Result, ok, err, bad_history_file_contents, ◌>>=◌}
use barman.Xlog.Name.{decode_segment_name}
use barman.Xlog.Lsn.{int_or_raise, parse_lsn}

pub record HistoryFileData : Type 0 where
  pub tli : ℕ
  pub parent_tli : ℤ
  pub switchpoint : ℤ
  pub reason : Text

-- `continue` on comments and empty lines
abbrev pub is_empty : Text → Bool
is_empty [] = true
is_empty (c ∷ line) = false

unfoldable pub is_skipped : Text → Bool
is_skipped line = starts_with line (b'#' ∷ []) || is_empty line

-- The fields of a line, of which there must be three
unfoldable pub history_line : Text → ℕ → List Text → Result HistoryFileData
history_line path tli (parent ∷ switchpoint ∷ reason ∷ []) = do
  parent_tli ← int_or_raise 10 parent
  lsn ← parse_lsn switchpoint
  ok (record { tli = tli; parent_tli = parent_tli; switchpoint = lsn; reason = reason })
history_line path tli contents = err (bad_history_file_contents path)

unfoldable pub history_lines : Text → ℕ → List Text → Result (List HistoryFileData)
history_lines path tli [] = ok []
history_lines path tli (line ∷ lines) =
    let rest = history_lines path tli lines in
    if is_skipped (strip line)
    then rest
    else (history_line path tli (split_on b'\t' (strip line)) >>= λ h. rest >>= λ l. ok (h ∷ l))

abbrev pub unless_none : Text → List HistoryFileData → Result (List HistoryFileData)
unless_none path [] = err (bad_history_file_contents path)
unless_none path (h ∷ l) = ok (h ∷ l)

unfoldable pub decode_history_file : Text → Text → List Text → Result (List HistoryFileData)
decode_history_file path name fp = do
  decoded ← decode_segment_name name
  lines ← history_lines path decoded.0 fp
  unless_none path lines
