-- ===== src/Retention/Window.antt =====
-- `RecoveryWindowRetentionPolicy` (retention_policies.py): the window's length and `_backup_report`.
--
-- Times are seconds. The clock is read for each backup that the loop compares, so the time is a
-- function of the id at hand.
pub mod Ranking
pub mod Statuses
use barman.Prelude.{
  ℕ, ◌+◌, ◌-◌, ◌*◌, Bool, true, false, Option, none, some, List, [], ◌∷◌, ltb, if◌then◌else◌,
}
use barman.Text.{Text}
use barman.Text.Sort.{sort_desc}
use barman.Dict.{Dict, put}
use barman.Result.{Result, ok, err, type_error, ◌>>=◌}
use barman.Backup.{
  BackupInfo, RetentionStatus, obsolete, valid, potentially_obsolete, keep_full, keep_standalone,
  unclassified, done, status_eq, is_incremental, has_children,
}
use barman.Retention.{ServerMetadata, Keep, keep_of, propagate}

pub data WindowUnit : Type 0 where
  days weeks months : WindowUnit

-- `self.timedelta`, in seconds
unfoldable pub timedelta : WindowUnit → ℕ → ℕ
timedelta days value = value * 86400
timedelta weeks value = 7 * value * 86400
timedelta months value = 31 * value * 86400

-- `_point_of_recoverability`: 0 where the window reaches back before the epoch
unfoldable pub point_of_recoverability : WindowUnit → ℕ → ℕ → ℕ
unfolding timedelta
point_of_recoverability unit value now = now - timedelta unit value

-- The variables of the loop, and the attribute `_first_backup` that it sets.
pub record WindowReport : Type 0 where
  pub report : Dict RetentionStatus
  pub found : Bool
  pub valid_count : ℕ
  pub first_backup : Option Text

abbrev pub no_report : WindowReport
no_report = record { report = []; found = false; valid_count = 0; first_backup = none }

-- `keep_target or status`
unfoldable pub keep_or : Keep → RetentionStatus → RetentionStatus
keep_or Keep.not_kept status = status
keep_or Keep.kept_standalone status = keep_standalone
keep_or Keep.kept_full status = keep_full

-- The status that the descendants get
unfoldable pub children_status : RetentionStatus → Bool → RetentionStatus
children_status keep_standalone found = if found then obsolete else valid
children_status keep_full found = valid
children_status status found = status

-- `end_time < point`, which fails on `None`
unfoldable pub ends_before : Option ℕ → ℕ → Result Bool
ends_before none point = err type_error
ends_before (some end_time) point = ok (ltb end_time point)

module _ (walk : BackupInfo → List BackupInfo) (server : ServerMetadata) (point : Text → ℕ) where
  unfoldable pub to_children : BackupInfo → RetentionStatus → WindowReport → WindowReport
  to_children b status r =
      if has_children b
      then record r { report = propagate (walk b) r.report (children_status status r.found) }
      else r

  -- The three branches for a `DONE` backup: behind the window with the minimum redundancy not yet
  -- reached, behind the window otherwise, and within it. The status is `report[bid]`.
  unfoldable pub classify :
      Text → BackupInfo → WindowReport → Result (RetentionStatus × WindowReport)
  classify bid b r =
      let keep = keep_of (server.get_keep_target bid) in
      if r.found
      then (if ltb r.valid_count server.minimum_redundancy
          then ok (
            keep_or keep potentially_obsolete,
            record r {
              report = put r.report bid (keep_or keep potentially_obsolete);
              valid_count = r.valid_count + 1;
              first_backup = some bid;
            },
          )
          else ok (
            keep_or keep obsolete,
            record r { report = put r.report bid (keep_or keep obsolete) },
          ))
      else (do
        old ← ends_before b.end_time (point bid)
        ok (
          keep_or keep valid,
          record {
            report = put r.report bid (keep_or keep valid);
            found = old;
            valid_count = r.valid_count + 1;
            first_backup = some bid;
          },
        ))

  unfoldable pub visit_done : Text → BackupInfo → WindowReport → Result WindowReport
  visit_done bid b r = do
    classified ← classify bid b r
    ok (to_children b classified.0 classified.1)

  unfoldable pub visit : Text × BackupInfo → WindowReport → Result WindowReport
  visit (bid, b) r =
      if is_incremental b
      then ok r
      else if status_eq b.status done
      then visit_done bid b r
      else ok (to_children b unclassified (record r { report = put r.report bid unclassified }))

  unfoldable pub visit_all : List (Text × BackupInfo) → WindowReport → Result WindowReport
  visit_all [] r = ok r
  visit_all (item ∷ items) r = do r' ← visit item r; visit_all items r'

-- `_backup_report(source)`, from an object whose `_first_backup` is not set
unfoldable pub backup_report :
    (BackupInfo → List BackupInfo)
    → ServerMetadata
    → (Text → ℕ)
    → Dict BackupInfo
    → Result WindowReport
backup_report walk server point source =
    visit_all walk server point (sort_desc (λ item. item.0) source) no_report
