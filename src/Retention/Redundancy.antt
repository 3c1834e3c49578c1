-- ===== src/Retention/Redundancy.antt =====
-- `RedundancyRetentionPolicy._backup_report` (retention_policies.py).
pub mod Ranking
pub mod Children
use barman.Prelude.{
  ℕ, ◌+◌, Bool, true, false, Option, none, some, List, [], ◌∷◌, ltb, if◌then◌else◌,
}
use barman.Text.{Text}
use barman.Text.Sort.{sort_desc}
use barman.Dict.{Dict, put}
use barman.Backup.{
  BackupInfo, RetentionStatus, obsolete, valid, keep_full, keep_standalone, unclassified, done,
  status_eq, is_incremental, has_children,
}
use barman.Retention.{ServerMetadata, Keep, keep_of, propagate}

-- The variables of the loop, and the attribute `_first_backup` that it sets.
pub record Report : Type 0 where
  pub report : Dict RetentionStatus
  pub i : ℕ
  pub first_backup : Option Text

abbrev pub no_report : Report
no_report = record { report = []; i = 0; first_backup = none }

-- The redundancy, raised to the server's minimum
unfoldable pub normalised : ServerMetadata → ℕ → ℕ
normalised server value =
    if ltb value server.minimum_redundancy then server.minimum_redundancy else value

-- The status of a `DONE` backup that `i` newer ones precede
unfoldable pub done_status : Keep → ℕ → ℕ → RetentionStatus
done_status Keep.kept_standalone i redundancy = keep_standalone
done_status Keep.kept_full i redundancy = keep_full
done_status Keep.not_kept i redundancy = if ltb i redundancy then valid else obsolete

-- `self._first_backup = bid`, in the branch that reports `VALID`
unfoldable pub next_first : Keep → ℕ → ℕ → Text → Option Text → Option Text
next_first Keep.not_kept i redundancy bid first = if ltb i redundancy then some bid else first
next_first _ i redundancy bid first = first

-- The status that the descendants get; `i` already counts the backup itself.
unfoldable pub children_status : RetentionStatus → ℕ → ℕ → RetentionStatus
children_status keep_standalone i redundancy = if ltb redundancy i then obsolete else valid
children_status keep_full i redundancy = valid
children_status status i redundancy = status

module _ (walk : BackupInfo → List BackupInfo) (server : ServerMetadata) (redundancy : ℕ) where
  -- The `if backups[bid].has_children` at the end of the loop's body
  unfoldable pub to_children : BackupInfo → RetentionStatus → Report → Report
  to_children b status r =
      if has_children b
      then record r { report = propagate (walk b) r.report (children_status status r.i redundancy) }
      else r

  -- The body of the loop, for a backup that is not incremental
  unfoldable pub visit_root : Text → BackupInfo → Report → Report
  visit_root bid b r =
      let keep = keep_of (server.get_keep_target bid) in
      let status = done_status keep r.i redundancy in
      if status_eq b.status done
      then to_children b status (record {
        report = put r.report bid status;
        i = r.i + 1;
        first_backup = next_first keep r.i redundancy bid r.first_backup;
      })
      else to_children b unclassified (record r { report = put r.report bid unclassified })

  unfoldable pub visit : Text × BackupInfo → Report → Report
  visit (bid, b) r = if is_incremental b then r else visit_root bid b r

  unfoldable pub visit_all : List (Text × BackupInfo) → Report → Report
  visit_all [] r = r
  visit_all (item ∷ items) r = visit_all items (visit item r)

-- `_backup_report(source)`, from an object whose `_first_backup` is not set
unfoldable pub backup_report :
    (BackupInfo → List BackupInfo) → ServerMetadata → ℕ → Dict BackupInfo → Report
backup_report walk server value source =
    visit_all walk server (normalised server value) (sort_desc (λ item. item.0) source) no_report
