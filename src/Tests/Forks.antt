-- ===== src/Tests/Forks.antt =====
-- The theorem on children timelines at an archive with one history file.
use barman.Prelude.{◌↔◌, ◌≡◌, refl, Option, none, some, List, [], ◌∷◌, Any, arith, if◌then◌else◌}
use barman.Prelude.Int.{pos, ◌+ℤ◌, ◌*ℤ◌}
use barman.Text.{Text, text, text_eq, starts_with, split_on}
use barman.Text.Number.{strip}
use barman.Result.{ok}
use barman.Xlog.Name.{encode_history_file_name, decode_segment_name}
use barman.Xlog.Lsn.{int_or_raise, parse_lsn}
use barman.Xlog.History.{
  HistoryFileData, decode_history_file, history_lines, history_line, is_skipped,
}
use barman.Locks.{join}
use barman.Server.Timelines.{Histories, get_children_timelines}
use barman.Server.Timelines.Children.{
  get_children_timelines-IsChild, HasEntry, IsChild, AreHistories,
}

abbrev wals : Text
wals = text "/wals"

abbrev read : Text → Option (List Text)
read path =
    if text_eq path (text "/wals/00000002.history")
    then some (text "1\t0/5\tbefore 2000" ∷ [])
    else none

abbrev entry : HistoryFileData
entry = record { tli = 2; parent_tli = pos 1; switchpoint = pos 5; reason = text "before 2000" }

read-AreHistories : AreHistories read wals 1 ((entry ∷ []) ∷ [])
unfolding decode_history_file decode_segment_name history_lines history_line is_skipped strip
    starts_with split_on int_or_raise parse_lsn ◌+ℤ◌ ◌*ℤ◌ encode_history_file_name join text_eq
read-AreHistories = ((text "1\t0/5\tbefore 2000" ∷ [], refl, refl), refl)

get_children_timelines-IsChild_example :
    (children : Histories) × (get_children_timelines read wals 2 1 (some (text "0/3"))
      ≡ some (ok children))
    × ((h : HistoryFileData)
        → HasEntry h children ↔ (Any (HasEntry h) ((entry ∷ []) ∷ []) × IsChild 1 (some (pos 3)) h))
get_children_timelines-IsChild_example =
    get_children_timelines-IsChild read wals 2 1 (some (text "0/3")) (some (pos 3))
      ((entry ∷ []) ∷ []) (unfold parse_lsn split_on int_or_raise ◌+ℤ◌ ◌*ℤ◌ in refl)
      read-AreHistories (omega arith)
