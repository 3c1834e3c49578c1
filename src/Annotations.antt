-- ===== src/Annotations.antt =====
-- Annotations of backups (annotations.py: `AnnotationManagerFile`) and the keep annotation
-- (`KeepManagerMixin`).
--
-- A store is what stands below the base directory: the `annotations` directory of each backup that
-- has one, and in it the contents of the files by their names. Of the errors of the file system
-- only those that the code handles occur: a file or a directory is missing or not empty.
pub mod Keeping
use barman.Prelude.{Bool, true, false, Option, none, some, List, [], ◌∷◌, if◌then◌else◌}
use barman.Text.{Text, text, text_in}
use barman.Dict.{Dict, get, put, remove}
use barman.Result.{Result, ok, err, archival_backup, ◌>>◌, require}
use barman.Backup.{is_some}

abbrev pub Store : Type 0
Store = Dict (Dict Text)

-- The files of a directory; a missing one has none.
abbrev pub files_of : Option (Dict Text) → Dict Text
files_of none = []
files_of (some files) = files

unfoldable pub get_annotation : Text → Text → Store → Option Text
get_annotation backup_id key store = get (files_of (get store backup_id)) key

-- What is written of a value: nothing of `None`
abbrev pub content : Option Text → Text
content none = []
content (some value) = value

unfoldable pub put_annotation : Text → Text → Option Text → Store → Store
put_annotation backup_id key value store =
    put store backup_id (put (files_of (get store backup_id)) key (content value))

-- `os.rmdir`, which leaves a directory that is not empty
abbrev pub remove_directory : Text → Dict Text → Store → Store
remove_directory backup_id [] store = remove store backup_id
remove_directory backup_id (file ∷ files) store = put store backup_id (file ∷ files)

-- `os.remove`, which fails where the file is missing: the directory then stays.
abbrev pub delete_file : Option Text → Text → Text → Dict Text → Store → Store
delete_file none backup_id key files store = store
delete_file (some value) backup_id key files store =
    remove_directory backup_id (remove files key) store

unfoldable pub delete_annotation : Text → Text → Store → Store
delete_annotation backup_id key store =
    delete_file (get_annotation backup_id key store) backup_id key (files_of (get store backup_id))
      store

abbrev pub annotation_key : Text
annotation_key = text "keep"

abbrev pub supported_targets : List Text
supported_targets = text "full" ∷ text "standalone" ∷ []

unfoldable pub should_keep_backup : Text → Store → Bool
should_keep_backup backup_id store = is_some (get_annotation backup_id annotation_key store)

unfoldable pub keep_backup : Text → Text → Store → Result Store
keep_backup backup_id target store =
    require (text_in target supported_targets) archival_backup
    >> ok (put_annotation backup_id annotation_key (some target) store)

unfoldable pub get_keep_target : Text → Store → Option Text
get_keep_target backup_id store = get_annotation backup_id annotation_key store

unfoldable pub release_keep : Text → Store → Store
release_keep backup_id store = delete_annotation backup_id annotation_key store
