-- ===== src/Server/Sync.antt =====
-- The synchronisation of a passive node (server.py: `sync_status`, `set_sync_starting_point`,
-- `check_sync_required`, `is_backup_locally_obsolete`, `sync_backup`, `load_sync_wals_info`,
-- `write_sync_wals_info_file`).
--
-- The xlogdb is its text, and the reading of a row is a parameter. So are the report of the
-- retention policy, what the primary node says, and what becomes of the copy. The local backups are
-- those of the backup manager's state.
pub mod Resume
pub mod Outcome
pub mod Info
use barman.Prelude.{
  ℕ, zero, suc, ◌+◌, ◌-◌, Bool, true, false, ◌&&◌, ◌||◌, not, Option, none, some, List, [], ◌∷◌,
  ◌++◌, ◌==◌, length, take, drop, if◌then◌else◌,
}
use barman.Text.{Text, text, text_eq, text_le, text_lt, split_on}
use barman.Text.Sort.{sort_asc}
use barman.Text.Number.Decimal.{decimal, readline}
use barman.Dict.{Dict, get, put, values}
use barman.Result.{
  Result, ok, err, Error, require, key_error, type_error, sync_error, sync_nothing_to_do,
  sync_to_be_deleted, attribute_error, ◌>>=◌, ◌>>◌,
}
use barman.Backup.{
  BackupInfo, BackupStatus, failed, done, syncing, is_some, status_eq, status_not_empty,
  RetentionStatus, obsolete,
}
use barman.Annotations.{should_keep_backup}
use barman.Catalog.{Backups, Entry, with_status, backup_cache_add}
use barman.Catalog.Deletion.{Manager, Outside, Called, all_backups}
use barman.Server.Deletion.{Locking, perform_delete_backup}
use barman.Catalog.Removal.{WalFileInfo}

-- The lines of a file, with their ends
abbrev cons_line : ℕ → List Text → List Text
cons_line c [] = (c ∷ []) ∷ []
cons_line c (l ∷ ls) = (c ∷ l) ∷ ls

unfoldable pub split_lines : Text → List Text
split_lines [] = []
split_lines (c ∷ s) =
    let rest = split_lines s in if c == 10 then (c ∷ []) ∷ rest else cons_line c rest

abbrev pub is_text : Text → Option Text → Bool
is_text t none = false
is_text t (some u) = text_eq t u

abbrev pub start_at : Option ℕ → ℕ
start_at none = 0
start_at (some position) = position

unfoldable pub set_sync_starting_point : Text → Option Text → Option ℕ → ℕ
set_sync_starting_point xlogdb last_wal last_position =
    let position = start_at last_position in
    if is_text (take 24 (drop position xlogdb)) last_wal then position else 0

-- `None` and the empty text are false.
abbrev pub truthy : Option Text → Bool
truthy none = false
truthy (some []) = false
truthy (some (c ∷ s)) = true

-- `last_wal < wal_info.name`, and `last_wal > wal_info.name`
abbrev pub is_older : Option Text → Text → Bool
is_older none name = false
is_older (some last_wal) name = text_lt last_wal name

abbrev pub is_newer : Option Text → Text → Bool
is_newer none name = false
is_newer (some last_wal) name = text_lt name last_wal

abbrev pub up_to : Option Text → Text → Bool
up_to none name = false
up_to (some last_wal) name = text_le name last_wal

abbrev pub is_before : Option Text → Text → Bool
is_before none name = false
is_before (some []) name = false
is_before (some (c ∷ s)) name = text_lt name (c ∷ s)

-- Whether a row is left out
unfoldable pub discards : Option Text → Option Text → Text → Bool
discards last_wal first_useful_wal name =
    if truthy last_wal then up_to last_wal name else is_before first_useful_wal name

abbrev pub Row : Type 0
Row = Text × WalFileInfo

-- The rows that the loop takes, and the last line with its row
unfoldable pub sync_loop :
    (Text → Result WalFileInfo)
    → Option Text
    → Option Text
    → Bool
    → Option Row
    → List Text
    → Result (List WalFileInfo × Option Row)
sync_loop from_xlogdb_line last_wal first_useful_wal check_first_wal seen [] = ok ([], seen)
sync_loop from_xlogdb_line last_wal first_useful_wal check_first_wal seen (line ∷ lines) =
    from_xlogdb_line line >>= λ wal_info.
    require (not (check_first_wal && is_older last_wal wal_info.name)) sync_error
    >> (sync_loop from_xlogdb_line last_wal first_useful_wal false (some (line, wal_info)) lines
        >>= λ rest. ok (
          (if discards last_wal first_useful_wal wal_info.name then rest.0 else wal_info ∷ rest.0),
          rest.1,
        ))

pub record SyncStatus : Type 0 where
  pub last_position : ℕ
  pub last_name : Text
  pub backups : Backups
  pub wals : List WalFileInfo

abbrev pub first_begin : List Entry → Option Text
first_begin [] = none
first_begin (x ∷ l) = x.1.begin_wal

abbrev pub finish_status :
    Text → Option Text → Backups → List WalFileInfo → Option Row → Result SyncStatus
finish_status xlogdb last_wal backups wals none =
    ok (record { last_position = 0; last_name = []; backups = backups; wals = wals })
finish_status xlogdb last_wal backups wals (some (line, wal_info)) =
    require (not (is_newer last_wal wal_info.name)) sync_error
    >> ok (record {
      last_position = length xlogdb - length line;
      last_name = wal_info.name;
      backups = backups;
      wals = wals;
    })

unfoldable pub sync_status :
    (Text → Result WalFileInfo) → Backups → Text → Option Text → Option ℕ → Result SyncStatus
sync_status from_xlogdb_line backups xlogdb last_wal last_position =
    let first_useful_wal = first_begin (sort_asc (λ (x : Entry). x.0) backups) in
    let starting_point = set_sync_starting_point xlogdb last_wal last_position in
    let is_given : Bool = elim last_wal [ none ↦ false | some name ↦ true ] in
    sync_loop from_xlogdb_line last_wal first_useful_wal ((starting_point == 0) && is_given) none
      (split_lines (drop starting_point xlogdb))
    >>= λ read. finish_status xlogdb last_wal backups read.0 read.1

-- The last WAL and the position that the passive node keeps; a line with another number of fields
-- fails.
abbrev pub fields_of : List Text → Result (Option Text × Option Text)
fields_of (last_wal ∷ last_position ∷ []) = ok (some last_wal, some last_position)
fields_of _ = err type_error

abbrev pub SyncFile : Type 0
SyncFile = Option Text

unfoldable pub load_sync_wals_info : SyncFile → Result (Option Text × Option Text)
load_sync_wals_info none = ok (none, none)
load_sync_wals_info (some contents) = fields_of (split_on 9 (readline contents))

unfoldable pub write_sync_wals_info_file : SyncStatus → SyncFile
write_sync_wals_info_file primary_info =
    some (primary_info.last_name ++ (text "\t" ++ decimal primary_info.last_position))

-- Whether the retention policies are enforced and automatic, and the report of some backups, if it
-- does not raise a `TypeError`
pub record Policy : Type 0 where
  pub is_auto : Bool
  pub report : Backups → Option (Dict RetentionStatus)

abbrev pub or_key_error {ℓ} : {A : Type ℓ} → Option A → Result A
or_key_error none = err key_error
or_key_error (some a) = ok a

abbrev pub is_obsolete : RetentionStatus → Bool
is_obsolete obsolete = true
is_obsolete _ = false

-- With all local backups
abbrev pub or_type_error {ℓ} : {A : Type ℓ} → Option A → Result A
or_type_error none = err type_error
or_type_error (some a) = ok a

unfoldable pub is_backup_locally_obsolete : Policy → Backups → Text → Backups → Result Bool
is_backup_locally_obsolete policy local_backups backup_name remote_backups = do
  backup ← or_key_error (get remote_backups backup_name)
  report ←
      or_type_error
        (policy.report (put (with_status status_not_empty local_backups) backup_name backup))
  status ← or_key_error (get report backup_name)
  ok (is_obsolete status)

abbrev pub has_status : Option BackupInfo → BackupStatus → Bool
has_status none status = false
has_status (some b) status = status_eq b.status status

unfoldable pub check_sync_required :
    Policy → Backups → Text → Backups → Option BackupInfo → Result (Unit {0})
check_sync_required policy local_backups backup_name remote local_backup_info =
    let present = is_some (get remote backup_name) in
    require (present || is_some local_backup_info) sync_error
    >> require (present || not (has_status local_backup_info failed)) sync_to_be_deleted
    >> require (present || not (has_status local_backup_info done)) sync_nothing_to_do
    >> require (not (present && has_status local_backup_info done)) sync_nothing_to_do
    >> (if policy.is_auto
        then (is_backup_locally_obsolete policy local_backups backup_name remote >>= λ old.
            require (not old) sync_nothing_to_do)
        else ok tt)

-- What becomes of the copy, and of the rest of the `try`
pub data Copy : Type 0 where
  copied command_failed interrupted : Copy

-- How `sync_backup` ends, with the status that it saves last
pub data SyncEnd : Type 0 where
  refused nothing purged busy : SyncEnd
  saved : BackupStatus → SyncEnd

abbrev pub with_backup : BackupStatus → BackupInfo → BackupInfo
with_backup status backup = record backup { status = status }

-- The statuses that the copy saves in turn
abbrev pub copy_status : Copy → BackupStatus
copy_status copied = done
copy_status command_failed = failed
copy_status interrupted = failed

-- The cache has the same object, whose status changes with it.
abbrev pub save_backup : Text → BackupInfo → Manager → Manager
save_backup backup_name backup m =
    let stored : Backups = put m.stored backup_name backup in
    record m { stored = stored; cache = backup_cache_add (values stored) backup m.cache }

abbrev pub copy_backup : Copy → Text → BackupInfo → Manager → Called SyncEnd
copy_backup copy backup_name remote m = (
  ok (saved (copy_status copy)),
  save_backup backup_name (with_backup (copy_status copy) remote)
      (save_backup backup_name (with_backup syncing remote) m),
)

-- What the deletion of a local backup needs: `unread` is a backup without a `backup.info`, and fuel
-- is for the walk of the tree.
pub record Purge : Type 0 where
  pub out : Outside
  pub minimum_redundancy : ℕ
  pub locking : Locking
  pub backup_locking : Text → Locking
  pub unread : Text → BackupInfo
  pub fuel : ℕ

abbrev pub or_unread : (Text → BackupInfo) → Text → Option BackupInfo → BackupInfo
or_unread unread backup_id none = unread backup_id
or_unread unread backup_id (some b) = b

-- `self.delete_backup(local_backup_info)`; the lock files of backups are not in the state.
unfoldable pub purge_backup : Purge → BackupInfo → Manager → Called Bool
purge_backup purge backup m =
    let perform =
      perform_delete_backup (barman.Catalog.Deletion.delete_backup purge.out true)
        purge.backup_locking (λ backup_id after. after) in
    barman.Server.Deletion.delete_backup perform (all_backups m) purge.minimum_redundancy
      (should_keep_backup backup.backup_id m.annotations) purge.locking purge.fuel
      (λ id. or_unread purge.unread id (get m.stored id)) backup m

-- The result of the deletion does not count, unless it raises.
abbrev pub after_purge : Called Bool → Called SyncEnd
after_purge (err e, after) = (err e, after)
after_purge (ok deleted, after) = (ok purged, after)

abbrev pub purge_local : Purge → Option BackupInfo → Manager → Called SyncEnd
purge_local purge none m = (err attribute_error, m)
purge_local purge (some backup) m = after_purge (purge_backup purge backup m)

-- The handlers of the first `try`
abbrev pub not_required : Purge → Error → Option BackupInfo → Manager → Called SyncEnd
not_required purge sync_error local_backup_info m = (ok refused, m)
not_required purge sync_to_be_deleted local_backup_info m = purge_local purge local_backup_info m
not_required purge sync_nothing_to_do local_backup_info m = (ok nothing, m)
not_required purge e local_backup_info m = (err e, m)

abbrev pub under_sync_lock : Bool → Copy → Text → Option BackupInfo → Manager → Called SyncEnd
under_sync_lock lock_free copy backup_name none m = (err key_error, m)
under_sync_lock lock_free copy backup_name (some remote) m =
    if lock_free then copy_backup copy backup_name remote m else (ok busy, m)

abbrev pub on_required :
    Result (Unit {0}) → Purge → Bool → Copy → Text → Backups → Manager → Called SyncEnd
on_required (err e) purge lock_free copy backup_name remote m =
    not_required purge e (get m.stored backup_name) m
on_required (ok tt) purge lock_free copy backup_name remote m =
    under_sync_lock lock_free copy backup_name (get remote backup_name) m

-- What `load_primary_info` gives or raises
abbrev pub with_primary :
    Result Backups → Policy → Purge → Bool → Copy → Text → Manager → Called SyncEnd
with_primary (err e) policy purge lock_free copy backup_name m =
    not_required purge e (get m.stored backup_name) m
with_primary (ok remote) policy purge lock_free copy backup_name m =
    on_required (check_sync_required policy m.stored backup_name remote (get m.stored backup_name))
      purge lock_free copy backup_name remote m

unfoldable pub sync_backup :
    Bool → Policy → Purge → Bool → Copy → Result Backups → Text → Manager → Called SyncEnd
sync_backup passive_node policy purge lock_free copy primary_info backup_name m =
    if passive_node
    then with_primary primary_info policy purge lock_free copy backup_name m
    else (err sync_error, m)
