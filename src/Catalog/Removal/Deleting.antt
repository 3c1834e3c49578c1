-- ===== src/Catalog/Removal/Deleting.antt =====
-- The deletion of WAL files (backup.py: `delete_wals`, `delete_wal`).
--
-- The archive is the names in each of its directories. The hooks that run before a deletion are a
-- parameter, as they may ask to stop; those that run after it change nothing.
pub mod Spared
use barman.Prelude.{
  ℕ, Bool, true, false, ◌&&◌, Option, none, some, List, [], ◌∷◌, ◌++◌, length, leb, if◌then◌else◌,
}
use barman.Text.{Text, text_eq, text_in}
use barman.Dict.{Dict, get, put, remove}
use barman.Result.{Result, ok, err, os_error, ◌>>◌}
use barman.Catalog.Removal.{WalFileInfo}

abbrev pub Archive : Type 0
Archive = Dict (List Text)

abbrev pub Called : Type 0 → Type 0
Called V = Result V × Archive

abbrev pub wal_names : List WalFileInfo → List Text
wal_names [] = []
wal_names (w ∷ l) = w.name ∷ wal_names l

-- `set(...).issubset(...)`
unfoldable pub is_subset : List Text → List Text → Bool
is_subset [] names = true
is_subset (t ∷ l) names = text_in t names && is_subset l names

unfoldable pub run_pre_delete :
    (WalFileInfo → Result (Unit {0})) → List WalFileInfo → Result (Unit {0})
run_pre_delete pre [] = ok tt
run_pre_delete pre (w ∷ l) = pre w >> run_pre_delete pre l

unfoldable pub without_name : Text → List Text → List Text
without_name name [] = []
without_name name (t ∷ l) =
    let rest = without_name name l in if text_eq t name then rest else t ∷ rest

-- `os.removedirs`, which leaves a directory that is not empty
abbrev pub keep_directory : Text → List Text → Archive → Archive
keep_directory wal_dir [] archive = remove archive wal_dir
keep_directory wal_dir (t ∷ l) archive = put archive wal_dir (t ∷ l)

-- `os.unlink`; a file that is missing is no error.
abbrev pub unlink : Text → Text → Option (List Text) → Archive → Archive
unlink wal_dir name none archive = archive
unlink wal_dir name (some files) archive = keep_directory wal_dir (without_name name files) archive

abbrev pub after_hook : Result (Unit {0}) → Archive → Archive → Called (Unit {0})
after_hook (err e) archive deleted = (err e, archive)
after_hook (ok tt) archive deleted = (ok tt, deleted)

unfoldable pub delete_wal :
    (WalFileInfo → Result (Unit {0})) → Text → WalFileInfo → Archive → Called (Unit {0})
delete_wal pre wal_dir wal_info archive =
    after_hook (pre wal_info) archive (unlink wal_dir wal_info.name (get archive wal_dir) archive)

abbrev pub then_rest : Result (Unit {0}) → Archive → Called (Unit {0}) → Called (Unit {0})
then_rest (err e) archive rest = (err e, archive)
then_rest (ok tt) archive rest = rest

unfoldable pub delete_each :
    (WalFileInfo → Result (Unit {0})) → Text → List WalFileInfo → Archive → Called (Unit {0})
delete_each pre wal_dir [] archive = (ok tt, archive)
delete_each pre wal_dir (w ∷ l) archive =
    let called = delete_wal pre wal_dir w archive in
    then_rest called.0 called.1 (delete_each pre wal_dir l called.1)

-- `shutil.rmtree`, which fails where there is no directory
abbrev pub rmtree : Text → Option (List Text) → Archive → Called (Unit {0})
rmtree wal_dir none archive = (err os_error, archive)
rmtree wal_dir (some files) archive = (ok tt, remove archive wal_dir)

abbrev pub delete_all :
    (WalFileInfo → Result (Unit {0})) → Text → List WalFileInfo → Archive → Called (Unit {0})
delete_all pre wal_dir wal_list archive =
    then_rest (run_pre_delete pre wal_list) archive (rmtree wal_dir (get archive wal_dir) archive)

-- `os.listdir` and what depends on it
abbrev pub by_listing :
    (WalFileInfo → Result (Unit {0}))
    → Text
    → List WalFileInfo
    → Option (List Text)
    → Archive
    → Called (Unit {0})
by_listing pre wal_dir wal_list none archive = (err os_error, archive)
by_listing pre wal_dir wal_list (some files) archive =
    if is_subset files (wal_names wal_list)
    then delete_all pre wal_dir wal_list archive
    else delete_each pre wal_dir wal_list archive

-- The body of the loop
unfoldable pub delete_in :
    (WalFileInfo → Result (Unit {0})) → Text → List WalFileInfo → Archive → Called (Unit {0})
delete_in pre wal_dir wal_list archive =
    if leb 256 (length wal_list)
    then delete_all pre wal_dir wal_list archive
    else by_listing pre wal_dir wal_list (get archive wal_dir) archive

-- The names of the list are those of deleted files, with the names that follow.
abbrev pub then_names :
    Result (Unit {0}) → Archive → List WalFileInfo → Called (List Text) → Called (List Text)
then_names (err e) archive wal_list rest = (err e, archive)
then_names (ok tt) archive wal_list (err e, deleted) = (err e, deleted)
then_names (ok tt) archive wal_list (ok names, deleted) =
    (ok (wal_names wal_list ++ names), deleted)

unfoldable pub delete_wals :
    (WalFileInfo → Result (Unit {0})) → Dict (List WalFileInfo) → Archive → Called (List Text)
delete_wals pre [] archive = (ok [], archive)
delete_wals pre ((wal_dir, wal_list) ∷ wals_to_delete) archive =
    let called = delete_in pre wal_dir wal_list archive in
    then_names called.0 called.1 wal_list (delete_wals pre wals_to_delete called.1)
