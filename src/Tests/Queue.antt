-- ===== src/Tests/Queue.antt =====
-- The theorems on the archivers at small directories.
use mathlib.Core.List.{map}
use barman.Text.Sort.{sort_asc}
use barman.Prelude.{refl, ◌++◌, ◌≡◌, true, List, [], ◌∷◌, length, min, if◌then◌else◌}
use barman.Prelude.Int.{pos}
use barman.Text.{Text, text, text_eq}
use barman.Archiver.{
  WalArchiverQueue, FileSystem, Outcome, Event, RunEnd, archive, archive_loop, run_size, size,
  get_next_batch_streaming,
}
use barman.Archiver.Batches.{
  streaming_leaves_last, is_full, is_partial, names_with, taken, IsRun, archive-IsRun,
}
use barman.Tests.Data.{wal2, wal3, wal5}

abbrev all_files : FileSystem
all_files = record { exists = λ name. true; is_file = λ name. true }

abbrev directory : List Text
directory = wal3 ∷ wal2 ∷ text "README" ∷ text "000000010000000000000004.partial" ∷ []

streaming_leaves_last_example :
    let q = get_next_batch_streaming all_files (pos 10) directory in
    let names = sort_asc (λ (name : Text). name) directory in
    let valid = names_with (is_full all_files) names ++ names_with (is_partial all_files) names in
    (q.items ++ q.skip ≡ valid) × (length q.skip ≡ min 1 (length valid))
streaming_leaves_last_example = streaming_leaves_last all_files (pos 10) directory

abbrev queue : WalArchiverQueue
queue = record {
  items = wal2 ∷ wal3 ∷ wal5 ∷ [];
  skip = [];
  errors = text "README" ∷ [];
  batch_size = 2;
}

abbrev outcomes : Text → Outcome
outcomes name = if text_eq name wal2 then Outcome.archived else Outcome.failed

archive-IsRun_example :
    IsRun outcomes (taken queue) (map Event.move_to_errors queue.errors) (archive outcomes queue)
archive-IsRun_example = archive-IsRun outcomes queue

-- The second file ends the run.
run_raised : archive outcomes queue ≡ (Event.archive_file wal2 ∷ [], RunEnd.raised)
unfolding archive archive_loop run_size size text_eq
run_raised = refl
