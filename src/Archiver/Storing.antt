-- ===== src/Archiver/Storing.antt =====
-- The archiving of one WAL file (wal_archiver.py: `archive_wal`).
--
-- The files are their contents by their paths. The compressors and what is told of the compression
-- of an archived file are parameters, and so is which of the steps fails, with which error, and how
-- the hooks that run first end; the hooks that run last change nothing here. The files that are
-- uncompressed for a comparison are gone again in the end. A row is written whole or not at all.
pub mod Kept
pub mod Done
use barman.Prelude.{
  Bool, true, false, ◌||◌, Option, none, some, List, [], ◌∷◌, ◌++◌, length, if◌then◌else◌,
}
use barman.Text.{Text, text, text_eq}
use barman.Result.{
  Result, ok, err, Error, os_error, matching_duplicate_wal_file, duplicate_wal_file, ◌>>=◌,
}
use barman.Catalog.Removal.{WalFileInfo}

pub record Compressors : Type 0 where
  pub compress : Text → Text → Text
  pub decompress : Text → Text → Result Text
  pub compression_of : Text → Option Text

abbrev pub Files : Type 0
Files = Text → Option Text

pub record Store : Type 0 where
  pub files : Files
  pub xlogdb : List WalFileInfo

-- The steps that may fail
pub data Step : Type 0 where
  make_directory compress_file lock_xlogdb copy_stat copy_source rename_tmp unlink_source : Step
  stat_archived sync_files write_row flush_row : Step

-- Besides them, `os.stat` may tell the same type, size and time of the two files that are compared,
-- which `filecmp.cmp` takes as equality; the renaming from one directory to the other may not be
-- possible; and a step that fails may leave a part of a file.
pub record Faults : Type 0 where
  pub fault : Step → Option Error
  pub same_stat : Bool
  pub renames : Bool
  pub part : Option Text

unfoldable pub set_file : Text → Option Text → Store → Store
set_file path contents s = record s { files = λ p. if text_eq path p then contents else s.files p }

-- The uncompressed contents
abbrev pub plain : Compressors → Option Text → Text → Result Text
plain tools none contents = ok contents
plain tools (some name) contents = tools.decompress name contents

-- `filecmp.cmp`
abbrev pub is_same : Bool → Text → Text → Bool
is_same same_stat old new = same_stat || text_eq old new

-- `get_wal_file_info(dst_file)`, and the comparison of the two files, which always raises
unfoldable pub compare_files : Compressors → Bool → Option Text → Text → Text → Result WalFileInfo
compare_files tools same_stat compression old contents = do
  dst_uncompressed ← plain tools (tools.compression_of old) old
  src_uncompressed ← plain tools compression contents
  err (
      if is_same same_stat dst_uncompressed src_uncompressed
      then matching_duplicate_wal_file
      else duplicate_wal_file)

abbrev pub Called : Type 0
Called = Result WalFileInfo × Store

-- A step that fails leaves a store, and else what follows is done.
abbrev pub attempt : Option Error → Store → Called → Called
attempt (some e) left rest = (err e, left)
attempt none left rest = rest

-- `fsync` of the file and its directories, and the new row
unfoldable pub add_row : Faults → WalFileInfo → Store → Called
add_row faults row s =
    let written : Store = record s { xlogdb = s.xlogdb ++ row ∷ [] } in
    attempt (faults.fault sync_files) s (
      attempt (faults.fault write_row) s
        (attempt (faults.fault flush_row) written (ok row, written)))

-- The file with the extension `.tmp` becomes the archived one, and then the source goes.
unfoldable pub from_tmp : Faults → Text → Text → Text → Text → Store → (Store → Called) → Called
from_tmp faults src_file dst_file tmp_file contents s rest =
    let renamed : Store = set_file tmp_file none (set_file dst_file (some contents) s) in
    attempt (faults.fault rename_tmp) s
      (attempt (faults.fault unlink_source) renamed (rest (set_file src_file none renamed)))

-- `compressor and not wal_info.compression`
unfoldable pub store_compressed :
    Faults → Text → Text → Text → Text → Text → WalFileInfo → Store → Called
store_compressed faults src_file dst_file tmp_file name compressed wal_info s =
    let row : WalFileInfo = record wal_info { size = length compressed; compression = some name } in
    let begun : Store = set_file tmp_file (some compressed) s in
    attempt (faults.fault compress_file) (set_file tmp_file faults.part s) (
      attempt (faults.fault lock_xlogdb) begun (
        attempt (faults.fault copy_stat) begun (
          from_tmp faults src_file dst_file tmp_file compressed begun
            (λ stored. attempt (faults.fault stat_archived) stored (add_row faults row stored)))))

unfoldable pub store_plain : Faults → Text → Text → Text → Text → WalFileInfo → Store → Called
store_plain faults src_file dst_file tmp_file contents wal_info s =
    attempt (faults.fault lock_xlogdb) s (
      if faults.renames
      then add_row faults wal_info (set_file src_file none (set_file dst_file (some contents) s))
      else attempt (faults.fault copy_source) (set_file tmp_file faults.part s) (
          from_tmp faults src_file dst_file tmp_file contents (set_file tmp_file (some contents) s)
            (add_row faults wal_info)))

abbrev pub store_file :
    Compressors
    → Faults
    → Option Text
    → Option Text
    → Text
    → Text
    → Text
    → Text
    → WalFileInfo
    → Store
    → Called
store_file tools faults (some name) none src_file dst_file tmp_file contents wal_info s =
    store_compressed faults src_file dst_file tmp_file name (tools.compress name contents) wal_info
      s
store_file tools faults compressor compression src_file dst_file tmp_file contents wal_info s =
    store_plain faults src_file dst_file tmp_file contents wal_info s

abbrev pub tmp_of : Text → Text
tmp_of dst_file = dst_file ++ text ".tmp"

abbrev pub on_source :
    Compressors
    → Faults
    → Option Text
    → Text
    → Text
    → WalFileInfo
    → Option Text
    → Option Text
    → Store
    → Called
on_source tools faults compressor src_file dst_file wal_info none existing s = (err os_error, s)
on_source tools faults compressor src_file dst_file wal_info (some contents) (some old) s =
    (compare_files tools faults.same_stat wal_info.compression old contents, s)
on_source tools faults compressor src_file dst_file wal_info (some contents) none s =
    attempt (faults.fault make_directory) s (
      store_file tools faults compressor wal_info.compression src_file dst_file (tmp_of dst_file)
        contents wal_info s)

abbrev pub after_hooks : Result (Unit {0}) → Store → Called → Called
after_hooks (err e) s rest = (err e, s)
after_hooks (ok tt) s rest = rest

unfoldable pub archive_wal :
    Compressors
    → Faults
    → Result (Unit {0})
    → Option Text
    → Text
    → Text
    → WalFileInfo
    → Store
    → Called
archive_wal tools faults pre_archive compressor src_file dst_file wal_info s =
    after_hooks pre_archive s (
      on_source tools faults compressor src_file dst_file wal_info (s.files src_file)
        (s.files dst_file) s)
