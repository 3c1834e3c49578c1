-- ===== src/Retention.antt =====
-- Retention policies (retention_policies.py): what the policies share.
--
-- The backups of a server are a dictionary of `BackupInfo`; `get_keep_target` is the server's
-- reading of the keep annotation, and `walk` gives the descendants of a backup (`Backup.Tree`).
pub mod Forest
pub mod Redundancy
pub mod Window
use barman.Prelude.{ℕ, Bool, true, false, Option, none, some, List, [], ◌∷◌}
use barman.Text.{Text, text, text_eq}
use barman.Dict.{Dict, put}
use barman.Backup.{BackupInfo, RetentionStatus}

-- The properties of `ServerMetadata` that the reports read.
pub record ServerMetadata : Type 0 where
  pub minimum_redundancy : ℕ
  pub get_keep_target : Text → Option Text

-- What a keep target says to a report: `standalone`, any other non-empty text, or nothing. The
-- empty text is false in Python.
pub data Keep : Type 0 where
  not_kept kept_standalone kept_full : Keep

unfoldable pub keep_of : Option Text → Keep
unfolding text_eq
keep_of none = Keep.not_kept
keep_of (some []) = Keep.not_kept
keep_of (some (c ∷ target)) = elim (text_eq (c ∷ target) (text "standalone")) [
  | true ↦ Keep.kept_standalone
  | false ↦ Keep.kept_full
]

-- `_propagate_retention_status_to_children`, over the descendants
unfoldable pub propagate :
    List BackupInfo → Dict RetentionStatus → RetentionStatus → Dict RetentionStatus
propagate [] report status = report
propagate (b ∷ backup_tree) report status =
    propagate backup_tree (put report b.backup_id status) status
