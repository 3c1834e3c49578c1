-- ===== src/Catalog/Shortcut/Names.antt =====
-- Names of backups and shortcuts: which accepted names are taken for a shortcut.
use barman.Prelude.{ℕ, ◌≡◌, Bool, false, none, some, [], ◌∷◌, arith, if◌then◌else◌}
use barman.Text.{Text, text, text_in}
use barman.Dict.{values}
use barman.Result.{ok}
use barman.Backup.{BackupStatus, status_copy_done}
use barman.Catalog.{Backups, with_status}
use barman.Catalog.Find.{get_last_backup_id, get_last_full_backup_id}
use barman.Catalog.Shortcut.{
  is_backup_id, check_backup_name, is_substring, get_backup_id_using_shortcut, reserved_backup_ids,
}

accepted_parts :
    (is_decimal : ℕ → Bool) (name checked : Text)
    → check_backup_name is_decimal (some name) ≡ ok checked
    → (is_backup_id is_decimal name ≡ false) × (text_in name reserved_backup_ids ≡ false)
unfolding check_backup_name
accepted_parts is_decimal [] checked h = cc
accepted_parts is_decimal (c ∷ name) checked h = ground arith

not_reserved :
    (name : Text)
    → text_in name reserved_backup_ids ≡ false
    → (text_in name (text "latest" ∷ text "last" ∷ []) ≡ false)
      × (text_in name (text "oldest" ∷ text "first" ∷ []) ≡ false)
unfolding text_in
not_reserved name h = ground arith

-- A name that is accepted is no shortcut, except for the parts of `last-failed`, which stand for
-- the last failed backup, and for `latest-full` and `last-full`, which stand for the last full one.
pub accepted_name-shortcut :
    (is_decimal : ℕ → Bool) (server : Backups) (name checked : Text)
    → check_backup_name is_decimal (some name) ≡ ok checked
    → get_backup_id_using_shortcut is_decimal server name ≡ (
        if is_substring name (text "last-failed")
        then get_last_backup_id (values (with_status (BackupStatus.failed ∷ []) server))
        else if text_in name (text "latest-full" ∷ text "last-full" ∷ [])
        then get_last_full_backup_id (values (with_status status_copy_done server))
        else none)
unfolding get_backup_id_using_shortcut
accepted_name-shortcut is_decimal server name checked h =
    let parts = accepted_parts is_decimal name checked h in
    let free = not_reserved name parts.1 in rw (free.0, free.1, parts.0) (ground arith)
