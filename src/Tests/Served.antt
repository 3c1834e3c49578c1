-- ===== src/Tests/Served.antt =====
-- The theorems on the checks and the WAL files of a server.
use barman.Prelude.{◌≡◌, refl, inl, inr, true, false, none, some, List, [], ◌∷◌, All}
use barman.Text.{Text, text, text_eq, text_in, text_le}
use barman.Text.Sort.{Pairwise}
use barman.Result.{ok}
use barman.Catalog.Removal.{WalFileInfo}
use barman.Xlog.Name.{decode_segment_name, is_history_file}
use barman.Server.Checks.{
  CheckStrategy, Call, starts, reports, run_checks, new_strategy, non_critical_checks, result,
  init_check, check_name_of, any_critical, run_checks-any_critical,
}
use barman.Server.Wals.{no_tli, chosen_tli, get_required_xlog_files, parse_target_tli}
use barman.Server.Wals.Required.{
  keep_rows, is_required, is_wanted_beyond, IsReadable, InOrder, get_required_xlog_files-keep_rows,
}
use barman.Tests.Data.{backup2, wal2, wal3, wal5, wal6}

abbrev calls : List Call
calls =
    starts (text "WAL archive")
    ∷ reports (text "main") false none
    ∷ reports (text "main") false (some (text "failed backups"))
    ∷ []

abbrev after : CheckStrategy
after = record {
  ignore_list = non_critical_checks;
  check_result =
      record { server_name = text "main"; check = text "WAL archive"; status = false }
      ∷ record { server_name = text "main"; check = text "failed backups"; status = false }
      ∷ [];
  has_error = true;
  running_check = none;
}

ran : run_checks calls (new_strategy non_critical_checks) ≡ ok after
unfolding run_checks new_strategy result init_check check_name_of text_in text_eq
ran = refl

run_checks-any_critical_example : true ≡ any_critical non_critical_checks after.check_result
run_checks-any_critical_example = run_checks-any_critical non_critical_checks calls after ran

abbrev row : Text → WalFileInfo
row name = record { name = name; size = 16777216; time = 0; compression = none }

abbrev history : Text
history = text "00000002.history"

abbrev xlogdb : List WalFileInfo
xlogdb = row wal2 ∷ row wal3 ∷ row history ∷ row wal5 ∷ row wal6 ∷ []

tli_chosen : chosen_tli no_tli wal5 none ≡ ok (some 1)
unfolding decode_segment_name
tli_chosen = refl

rows-IsReadable : All IsReadable xlogdb
unfolding decode_segment_name is_history_file
rows-IsReadable = (
  inr ((1, some 0, some 2), refl),
  (
    inr ((1, some 0, some 3), refl),
    (inl refl, (inr ((1, some 0, some 5), refl), (inr ((1, some 0, some 6), refl), tt))),
  ),
)

rows-InOrder : Pairwise InOrder xlogdb
unfolding is_history_file text_le
rows-InOrder = (
  (refl, (refl, (refl, (refl, tt)))),
  ((refl, (refl, (refl, tt))), ((refl, (refl, tt)), ((refl, tt), (tt, tt)))),
)

get_required_xlog_files-keep_rows_example :
    get_required_xlog_files [] backup2 no_tli none true xlogdb
    ≡ ok (keep_rows (is_required 1 wal3 true none wal5) xlogdb)
get_required_xlog_files-keep_rows_example =
    get_required_xlog_files-keep_rows [] backup2 no_tli none true xlogdb wal3 wal5 none 1 none refl
      refl (unfold parse_target_tli in refl) tli_chosen refl rows-IsReadable rows-InOrder

required_now :
    keep_rows (is_required 1 wal3 true none wal5) xlogdb ≡ row wal3 ∷ row history ∷ row wal5 ∷ []
unfolding keep_rows is_required is_history_file text_le decode_segment_name is_wanted_beyond
required_now = refl
