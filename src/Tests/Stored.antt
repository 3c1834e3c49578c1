-- ===== src/Tests/Stored.antt =====
-- The theorems on the archiving of a file, with a compressor that puts a mark in front.
use barman.Prelude.{refl, true, false, Option, none, some, [], ◌∷◌, if◌then◌else◌, ◌==◌}
use barman.Text.{Text, text, text_eq}
use barman.Result.{Result, ok, err, os_error}
use barman.Catalog.Removal.{WalFileInfo}
use barman.Archiver.Storing.{Compressors, Store, Faults, archive_wal}
use barman.Archiver.Storing.Kept.{IsSafe, archive_wal-IsSafe}
use barman.Archiver.Storing.Done.{Stores, archive_wal-free}
use barman.Tests.Data.{wal2}

abbrev unmarked : Text → Result Text
unmarked [] = err os_error
unmarked (c ∷ s) = ok s

abbrev mark_of : Text → Option Text
mark_of [] = none
mark_of (c ∷ s) = if c == b'#' then some (text "mark") else none

abbrev tools : Compressors
tools = record {
  compress = λ name contents. b'#' ∷ contents;
  decompress = λ name contents. unmarked contents;
  compression_of = mark_of;
}

abbrev row : WalFileInfo
row = record { name = wal2; size = 3; time = 0; compression = none }

abbrev src : Text
src = text "in/2"

abbrev dst : Text
dst = text "wals/2"

abbrev incoming : Store
incoming = record { files = λ p. if text_eq p src then some (text "abc") else none; xlogdb = [] }

-- The archive is on another file system.
abbrev copies : Faults
copies = record { fault = λ step. none; same_stat = false; renames = false; part = none }

archive_wal-free_example :
    Stores tools src dst row
      (text "abc")
      incoming
      (archive_wal tools copies (ok tt) (some (text "mark")) src dst row incoming)
archive_wal-free_example =
    archive_wal-free tools copies (some (text "mark")) src dst row incoming (text "abc")
      (λ name c. refl) (unfold text_eq in refl) (unfold text_eq in refl) (λ step. refl)
      (unfold text_eq in refl) (unfold text_eq in refl)

-- The disk is full when the temporary file is written.
abbrev full : Faults
full = record {
  fault = λ step. some os_error;
  same_stat = false;
  renames = true;
  part = some (text "#a");
}

archive_wal-IsSafe_example :
    IsSafe tools src dst row
      (text "abc")
      incoming
      (archive_wal tools full (ok tt) (some (text "mark")) src dst row incoming).1
archive_wal-IsSafe_example =
    archive_wal-IsSafe tools full (ok tt) (some (text "mark")) src dst row incoming (text "abc")
      (λ name c. refl) (unfold text_eq in refl) (unfold text_eq in refl) (unfold text_eq in refl)
