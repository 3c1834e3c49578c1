-- ===== src/Archiver.antt =====
-- The queue of the WAL archivers (wal_archiver.py: `WalArchiverQueue`, the two `get_next_batch`,
-- and which files `archive` takes in one run).
--
-- A directory is the list of its paths, with what the file system says of each.
pub mod Batches
pub mod Storing
use mathlib.Core.List.{map}
use barman.Prelude.{
  ℕ, zero, suc, ◌-◌, min, Bool, true, false, ◌&&◌, Option, none, some, List, [], ◌∷◌, ◌++◌, length,
  take, ltb, not, if◌then◌else◌,
}
use barman.Prelude.Int.{ℤ, pos, negsuc}
use barman.Text.{Text, text}
use barman.Text.Sort.{sort_asc}
use barman.Xlog.Name.{is_any_xlog_file, is_partial_file, ends_with}

pub record WalArchiverQueue : Type 0 where
  pub items : List Text
  pub skip : List Text
  pub errors : List Text
  pub batch_size : ℕ

-- `batch_size if batch_size > 0 else 0`
unfoldable pub normalised : ℤ → ℕ
normalised (pos n) = n
normalised (negsuc n) = 0

unfoldable pub size : WalArchiverQueue → ℕ
size q = length q.items

unfoldable pub run_size : WalArchiverQueue → ℕ
run_size q = if ltb 0 q.batch_size then min (size q) q.batch_size else size q

-- What the file system says of a path
pub record FileSystem : Type 0 where
  pub exists : Text → Bool
  pub is_file : Text → Bool

-- The files of the incoming directory: valid ones, and errors
unfoldable pub sort_incoming : FileSystem → List Text → List Text × List Text
sort_incoming fs [] = ([], [])
sort_incoming fs (name ∷ names) =
    let rest = sort_incoming fs names in
    if ends_with name (text ".tmp")
    then rest
    else if is_any_xlog_file name && fs.is_file name
    then (name ∷ rest.0, rest.1)
    else (rest.0, name ∷ rest.1)

-- `FileWalArchiver.get_next_batch`
unfoldable pub get_next_batch_file : FileSystem → ℤ → List Text → WalArchiverQueue
get_next_batch_file fs archiver_batch_size directory =
    let sorted = sort_incoming fs (sort_asc (λ (name : Text). name) directory) in
    record {
      items = sorted.0;
      skip = [];
      errors = sorted.1;
      batch_size = normalised archiver_batch_size;
    }

-- The files of the streaming directory: valid ones, partial ones, and errors
pub record Streamed : Type 0 where
  pub files : List Text
  pub partial : List Text
  pub errors : List Text

unfoldable pub sort_streaming : FileSystem → List Text → Streamed
sort_streaming fs [] = record { files = []; partial = []; errors = [] }
sort_streaming fs (name ∷ names) =
    let rest = sort_streaming fs names in
    if ends_with name (text ".tmp")
    then rest
    else if not (fs.exists name)
    then rest
    else if not (fs.is_file name)
    then record rest { errors = name ∷ rest.errors }
    else if is_partial_file name
    then record rest { partial = name ∷ rest.partial }
    else if is_any_xlog_file name
    then record rest { files = name ∷ rest.files }
    else record rest { errors = name ∷ rest.errors }

-- `l[:-1]` and `l[-1:]`
unfoldable pub all_but_last : List Text → List Text
all_but_last [] = []
all_but_last (x ∷ []) = []
all_but_last (x ∷ y ∷ l) = x ∷ all_but_last (y ∷ l)

unfoldable pub last_only : List Text → List Text
last_only [] = []
last_only (x ∷ []) = x ∷ []
last_only (x ∷ y ∷ l) = last_only (y ∷ l)

-- The files to archive and the file to skip: all partial files but the last are archived; without
-- a partial file the last full one is skipped.
unfoldable pub keep_one : List Text → List Text → List Text × List Text
keep_one files [] = (all_but_last files, last_only files)
keep_one files (p ∷ []) = (files, p ∷ [])
keep_one files (p ∷ q ∷ l) = (files ++ all_but_last (p ∷ q ∷ l), last_only (p ∷ q ∷ l))

-- `StreamingWalArchiver.get_next_batch`
unfoldable pub get_next_batch_streaming : FileSystem → ℤ → List Text → WalArchiverQueue
get_next_batch_streaming fs streaming_archiver_batch_size directory =
    let sorted = sort_streaming fs (sort_asc (λ (name : Text). name) directory) in
    let kept = keep_one sorted.files sorted.partial in
    record {
      items = kept.0;
      skip = kept.1;
      errors = sorted.errors;
      batch_size = normalised streaming_archiver_batch_size;
    }

-- What becomes of a file in `archive`: `archive_wal` returns or raises; `failed` is any exception
-- that `archive` does not catch.
pub data Outcome : Type 0 where
  archived matching_duplicate duplicate aborted failed : Outcome

-- What the loop of `archive` does to the files, in order
pub data Event : Type 0 where
  archive_file unlink move_to_errors : Text → Event

-- How a run ends: it returns, also early, or it raises.
pub data RunEnd : Type 0 where
  finished stopped raised : RunEnd

abbrev pub Run : Type 0
Run = List Event × RunEnd

abbrev pub then_run : Event → Run → Run
then_run event (events, end) = (event ∷ events, end)

abbrev pub on_outcome : Text → Outcome → Run → Run
on_outcome name archived rest = then_run (archive_file name) rest
on_outcome name matching_duplicate rest = then_run (unlink name) rest
on_outcome name duplicate rest = then_run (move_to_errors name) rest
on_outcome name aborted rest = ([], stopped)
on_outcome name failed rest = ([], raised)

-- The loop, with the files processed and what follows it where nothing ends it early
unfoldable pub archive_loop : (Text → Outcome) → ℕ → ℕ → List Text → Run → Run
archive_loop archive_wal run processed [] after = after
archive_loop archive_wal run processed (name ∷ batch) after =
    let rest = archive_loop archive_wal run (suc processed) batch after in
    if ltb processed run then on_outcome name (archive_wal name) rest else after

unfoldable pub archive : (Text → Outcome) → WalArchiverQueue → Run
archive archive_wal batch =
    archive_loop archive_wal (run_size batch) 0 batch.items
      (map move_to_errors batch.errors, finished)
