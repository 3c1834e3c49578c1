-- ===== src/Catalog/Shortcut.antt =====
-- Names and shortcuts of backups (utils.py: `check_backup_name`, `is_backup_id`,
-- `get_backup_id_using_shortcut`).
--
-- `is_decimal` is what `\d` matches, which is for the `re` module to say.
pub mod Names
use barman.Prelude.{
  ℕ, zero, suc, Bool, true, false, ◌&&◌, ◌||◌, Option, none, some, List, [], ◌∷◌, ◌==◌,
  if◌then◌else◌,
}
use barman.Text.{Text, text, text_eq, text_in, starts_with}
use barman.Dict.{values}
use barman.Result.{Result, ok, err, argument_type}
use barman.Backup.{BackupInfo, BackupStatus, status_copy_done}
use barman.Catalog.{Backups, with_status}
use barman.Catalog.Find.{get_last_backup_id, get_first_backup_id, get_last_full_backup_id}

-- `$` also matches before a newline at the end.
abbrev at_end : Text → Bool
at_end [] = true
at_end (c ∷ []) = c == b'\n'
at_end (c ∷ d ∷ s) = false

unfoldable pub digits : (ℕ → Bool) → ℕ → Text → Option Text
digits is_decimal zero s = some s
digits is_decimal (suc n) [] = none
digits is_decimal (suc n) (c ∷ s) =
    let rest = digits is_decimal n s in if is_decimal c then rest else none

abbrev time_part : (ℕ → Bool) → Option Text → Bool
time_part is_decimal none = false
time_part is_decimal (some s) = at_end s

abbrev date_part : (ℕ → Bool) → Option Text → Bool
date_part is_decimal none = false
date_part is_decimal (some []) = false
date_part is_decimal (some (c ∷ s)) = (c == b'T') && time_part is_decimal (digits is_decimal 6 s)

unfoldable pub is_backup_id : (ℕ → Bool) → Text → Bool
is_backup_id is_decimal backup_id = date_part is_decimal (digits is_decimal 8 backup_id)

abbrev pub reserved_backup_ids : List Text
reserved_backup_ids =
    text "latest" ∷ text "last" ∷ text "oldest" ∷ text "first" ∷ text "last-failed" ∷ []

unfoldable pub check_backup_name : (ℕ → Bool) → Option Text → Result Text
check_backup_name is_decimal none = err argument_type
check_backup_name is_decimal (some []) = err argument_type
check_backup_name is_decimal (some (c ∷ name)) =
    if is_backup_id is_decimal (c ∷ name)
    then err argument_type
    else if text_in (c ∷ name) reserved_backup_ids
    then err argument_type
    else ok (c ∷ name)

-- `t in s` for two strings
unfoldable pub is_substring : Text → Text → Bool
is_substring t [] = starts_with [] t
is_substring t (c ∷ s) = starts_with (c ∷ s) t || is_substring t s

-- `server.get_last_backup_id` and the other two, over the backups of the server
unfoldable pub get_backup_id_using_shortcut : (ℕ → Bool) → Backups → Text → Option Text
get_backup_id_using_shortcut is_decimal server shortcut =
    if text_in shortcut (text "latest" ∷ text "last" ∷ [])
    then get_last_backup_id (values (with_status status_copy_done server))
    else if text_in shortcut (text "oldest" ∷ text "first" ∷ [])
    then get_first_backup_id (with_status status_copy_done server)
    else if is_substring shortcut (text "last-failed")
    then get_last_backup_id (values (with_status (BackupStatus.failed ∷ []) server))
    else if text_in shortcut (text "latest-full" ∷ text "last-full" ∷ [])
    then get_last_full_backup_id (values (with_status status_copy_done server))
    else if is_backup_id is_decimal shortcut
    then some shortcut
    else none
