-- ===== src/Archiver/Storing/Done.antt =====
-- How the archiving of a file succeeds.
use barman.Prelude.{
  ◌≡◌, refl, ap, ◌∙◌, Bool, true, false, Option, none, some, [], ◌∷◌, ◌++◌, if◌then◌else◌,
}
use barman.Text.{Text, text_eq}
use barman.Result.{ok}
use barman.Catalog.Removal.{WalFileInfo}
use barman.Archiver.Storing.{
  Compressors, Store, Faults, Step, Called, set_file, plain, add_row, from_tmp, store_compressed,
  store_plain, store_file, tmp_of, archive_wal,
}
use barman.Archiver.Storing.Kept.{
  IsLossless, IsElsewhere, Holds, IsStored, stored, stored-IsElsewhere, stored-Holds, stored_xlogdb,
  src_removed, compressed_row, moved, moved-IsElsewhere, moved-Holds,
}

-- The steps go through, but for the renaming between directories, which need not.
abbrev pub NoFault : Faults → Type 0
NoFault faults = (step : Step) → faults.fault step ≡ none

add_row-done :
    (faults : Faults) (row : WalFileInfo) (s : Store)
    → NoFault faults
    → add_row faults row s ≡ (ok row, record s { xlogdb = s.xlogdb ++ row ∷ [] })
unfolding add_row
add_row-done faults row s quiet =
    rw (quiet Step.sync_files, quiet Step.write_row, quiet Step.flush_row) refl

from_tmp-done :
    (faults : Faults) (src dst tmp new : Text) (s : Store) (rest : Store → Called)
    → NoFault faults
    → from_tmp faults src dst tmp new s rest
      ≡ rest (set_file src none (set_file tmp none (set_file dst (some new) s)))
unfolding from_tmp
from_tmp-done faults src dst tmp new s rest quiet =
    rw (quiet Step.rename_tmp, quiet Step.unlink_source) refl

-- What becomes of a file that is archived, with the row that is appended
abbrev pub Stores : Compressors → Text → Text → WalFileInfo → Text → Store → Called → Type 0
Stores tools src dst w contents s called =
    (row : WalFileInfo) × (after : Store) × (called ≡ (ok row, after))
    × IsStored tools src dst w contents s row after

module _ (tools : Compressors) (faults : Faults) (src dst : Text) (w : WalFileInfo) (s : Store)
    (contents : Text) (apart : text_eq dst src ≡ false)
    (tmp_apart : text_eq (tmp_of dst) src ≡ false) (quiet : NoFault faults) where
  with_row :
      (row : WalFileInfo) (st : Store) (called : Called)
      → called ≡ (ok row, record st { xlogdb = st.xlogdb ++ row ∷ [] })
      → IsElsewhere src dst s st
      → st.xlogdb ≡ s.xlogdb
      → st.files src ≡ none
      → Holds tools row.compression w.compression contents dst st
      → Stores tools src dst w contents s called
  with_row row st called same away log gone holds = (
    row,
    record st { xlogdb = st.xlogdb ++ row ∷ [] },
    same,
    (away, ap (λ l. l ++ row ∷ []) log, gone, holds),
  )

  from_tmp-Stores :
      (row : WalFileInfo) (new : Text) (called : Called)
      → plain tools row.compression new ≡ plain tools w.compression contents
      → s.files src ≡ some contents
      → called
        ≡ add_row faults row (
            set_file src none (
              set_file
                (tmp_of dst)
                none
                (set_file dst (some new) (set_file (tmp_of dst) (some new) s))))
      → Stores tools src dst w contents s called
  from_tmp-Stores row new called reads here same =
      let st : Store =
        stored tools faults src dst w s contents apart tmp_apart row new reads here in
      with_row row st called (same ∙ add_row-done faults row st quiet)
        (stored-IsElsewhere tools faults src dst w s contents apart tmp_apart row new reads here)
        (stored_xlogdb tools faults src dst w s contents apart tmp_apart row new reads here)
        (src_removed tools faults src dst w s contents apart tmp_apart _)
        (stored-Holds tools faults src dst w s contents apart tmp_apart row new reads here)

  compressed-Stores :
      (name : Text)
      → s.files src ≡ some contents
      → plain tools (some name) (tools.compress name contents) ≡ plain tools w.compression contents
      → Stores tools src dst w contents s
          (store_compressed faults src dst (tmp_of dst) name (tools.compress name contents) w s)
  unfolding store_compressed
  compressed-Stores name here reads =
      from_tmp-Stores (compressed_row tools faults src dst w s contents apart tmp_apart name)
        (tools.compress name contents) _ reads here
        (rw (quiet Step.compress_file, quiet Step.lock_xlogdb, quiet Step.copy_stat)
          (from_tmp-done faults src dst (tmp_of dst) (tools.compress name contents)
              (set_file (tmp_of dst) (some (tools.compress name contents)) s) _ quiet
            ∙ rw (quiet Step.stat_archived) refl))

  either-Stores :
      (b : Bool) (x y : Called)
      → Stores tools src dst w contents s x
      → Stores tools src dst w contents s y
      → Stores tools src dst w contents s (if b then x else y)
  either-Stores true x y hx hy = hx
  either-Stores false x y hx hy = hy

  plain-Stores :
      s.files src ≡ some contents
      → Stores tools src dst w contents s (store_plain faults src dst (tmp_of dst) contents w s)
  unfolding store_plain
  plain-Stores here =
      let st : Store = moved tools faults src dst w s contents apart tmp_apart in
      rw (quiet Step.lock_xlogdb) (
        either-Stores faults.renames _ _
          (with_row w st _ (add_row-done faults w st quiet)
            (moved-IsElsewhere tools faults src dst w s contents apart tmp_apart)
            (unfold set_file in refl)
            (src_removed tools faults src dst w s contents apart tmp_apart _)
            (moved-Holds tools faults src dst w s contents apart tmp_apart))
          (from_tmp-Stores w contents _ refl here (
            rw (quiet Step.copy_source) (
              from_tmp-done faults src dst (tmp_of dst) contents
                (set_file (tmp_of dst) (some contents) s) _ quiet))))

  file-Stores :
      (compressor compression : Option Text)
      → IsLossless tools
      → w.compression ≡ compression
      → s.files src ≡ some contents
      → Stores tools src dst w contents s
          (store_file tools faults compressor compression src dst (tmp_of dst) contents w s)
  file-Stores none compression lossless e here = plain-Stores here
  file-Stores (some name) none lossless e here =
      compressed-Stores name here (rw e (lossless name contents))
  file-Stores (some name) (some c) lossless e here = plain-Stores here

-- If no hook asks to stop and no step fails, also where a file cannot be renamed to the archive and
-- is copied there: with a compressor that gives back what it compresses, the archiving of a file that
-- is there and whose place is free succeeds. The source is gone, the place holds a file which, read as
-- the new row says, has the uncompressed contents of the source, that row is appended to the xlogdb,
-- and no other file has changed but for the one with `.tmp`.
pub archive_wal-free :
    (tools : Compressors) (faults : Faults) (compressor : Option Text) (src dst : Text)
    (w : WalFileInfo) (s : Store) (contents : Text)
    → IsLossless tools
    → text_eq dst src ≡ false
    → text_eq (tmp_of dst) src ≡ false
    → NoFault faults
    → s.files src ≡ some contents
    → s.files dst ≡ none
    → Stores tools src dst w contents s (archive_wal tools faults (ok tt) compressor src dst w s)
unfolding archive_wal
archive_wal-free tools faults compressor src dst w s contents lossless apart tmp_apart quiet here
      free =
    rw (here, free, quiet Step.make_directory)
      (file-Stores tools faults src dst w s contents apart tmp_apart quiet compressor w.compression
        lossless refl here)
