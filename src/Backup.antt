-- ===== src/Backup.antt =====
-- Backups (infofile.py: `BackupInfo` and the properties that the catalogue reads).
--
-- A field that may be `None` is an `Option`; times are seconds, sizes are bytes.
pub mod Tree
use barman.Prelude.{
  ℕ, ◌+◌, ◌/◌, ◌%◌, Bool, true, false, ◌&&◌, ◌||◌, not, Option, none, some, List, [], ◌∷◌, leb,
  if◌then◌else◌,
}
use Prim.Native.Nat.{compare, Ordering}
use barman.Text.{Text, text, text_eq, starts_with}

pub data BackupStatus : Type 0 where
  empty started failed waiting_for_wals done syncing : BackupStatus

abbrev pub status_number : BackupStatus → ℕ
status_number empty = 0
status_number started = 1
status_number failed = 2
status_number waiting_for_wals = 3
status_number done = 4
status_number syncing = 5

abbrev pub status_copy_done : List BackupStatus
status_copy_done = waiting_for_wals ∷ done ∷ []

abbrev pub status_all : List BackupStatus
status_all = empty ∷ started ∷ waiting_for_wals ∷ done ∷ syncing ∷ failed ∷ []

abbrev pub status_not_empty : List BackupStatus
status_not_empty = started ∷ waiting_for_wals ∷ done ∷ syncing ∷ failed ∷ []

abbrev pub status_archiving : List BackupStatus
status_archiving = started ∷ waiting_for_wals ∷ done ∷ syncing ∷ []

pub data RetentionStatus : Type 0 where
  obsolete valid potentially_obsolete keep_full keep_standalone unclassified : RetentionStatus

pub record BackupInfo : Type 0 where
  pub backup_id : Text
  pub status : BackupStatus
  pub mode : Text
  pub timeline : Option ℕ
  pub begin_wal : Option Text
  pub end_wal : Option Text
  pub end_xlog : Option Text
  pub end_time : Option ℕ
  pub size : Option ℕ
  pub version : Option ℕ
  pub xlog_segment_size : ℕ
  pub backup_name : Option Text
  pub data_checksums : Option Text
  pub summarize_wal : Option Text
  pub parent_backup_id : Option Text
  pub children_backup_ids : Option (List Text)

abbrev pub is_some {ℓ} : {A : Type ℓ} → Option A → Bool
is_some none = false
is_some (some a) = true

-- `status == other`, and `status in filter`
unfoldable pub status_eq : BackupStatus → BackupStatus → Bool
status_eq s t = elim (compare (status_number s) (status_number t)) [
  | Ordering.eq ↦ true
  | _ ↦ false
]

unfoldable pub status_in : BackupStatus → List BackupStatus → Bool
unfolding status_eq
status_in s [] = false
status_in s (t ∷ filter) = status_eq s t || status_in s filter

unfoldable pub is_incremental : BackupInfo → Bool
is_incremental b = is_some b.parent_backup_id

unfoldable pub has_children : BackupInfo → Bool
has_children b = is_some b.children_backup_ids

pub data BackupType : Type 0 where
  snapshot rsync incremental full : BackupType

unfoldable pub backup_type : BackupInfo → BackupType
backup_type b =
    if starts_with b.mode (text "snapshot")
    then snapshot
    else if starts_with b.mode (text "rsync")
    then rsync
    else if is_incremental b
    then incremental
    else full

-- `value == literal` for a field that may be `None`
unfoldable pub field_is : Option Text → Text → Bool
field_is none literal = false
field_is (some t) literal = text_eq t literal

unfoldable pub is_full_and_eligible_for_incremental : BackupInfo → Bool
is_full_and_eligible_for_incremental b =
    text_eq b.mode (text "postgres")
    && (field_is b.summarize_wal (text "on") && not (is_incremental b))
