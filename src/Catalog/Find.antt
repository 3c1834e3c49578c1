-- ===== src/Catalog/Find.antt =====
-- Which backup a target stands for (utils.py: `get_last_backup_id`, `get_backup_id_from_target_*`,
-- `get_backup_info_from_name`), over the backups of a catalogue.
pub mod Newest
use barman.Prelude.{
  ℕ, Bool, true, false, ◌&&◌, Option, none, some, List, [], ◌∷◌, ◌++◌, leb, ◌==◌, if◌then◌else◌,
}
use barman.Prelude.Int.{ℤ, ltb_ℤ}
use barman.Prelude.{not}
use barman.Text.{Text, text_eq}
use barman.Text.Sort.{sort_asc, sort_desc}
use barman.Result.{
  Result, ok, err, unbound_local_error, value_error, type_error, attribute_error, ◌>>=◌,
}
use barman.Backup.{BackupInfo, BackupStatus, field_is, is_full_and_eligible_for_incremental}
use barman.Xlog.Lsn.{parse_lsn}
use barman.Catalog.{Backups, Entry, timeline_eq}

abbrev pub backup_id_of : BackupInfo → Text
backup_id_of b = b.backup_id

-- `backups[-1].backup_id`, none of no backups
unfoldable pub last_id : List BackupInfo → Option Text
last_id [] = none
last_id (b ∷ []) = some b.backup_id
last_id (b ∷ c ∷ l) = last_id (c ∷ l)

unfoldable pub get_last_backup_id : List BackupInfo → Option Text
get_last_backup_id available_backups = last_id (sort_asc backup_id_of available_backups)

unfoldable pub filter_full : List BackupInfo → List BackupInfo
filter_full [] = []
filter_full (b ∷ l) =
    let rest = filter_full l in if is_full_and_eligible_for_incremental b then b ∷ rest else rest

unfoldable pub get_last_full_backup_id : List BackupInfo → Option Text
get_last_full_backup_id available_backups =
    last_id (sort_asc backup_id_of (filter_full available_backups))

-- `ids[0]`
abbrev pub first_key : List Entry → Option Text
first_key [] = none
first_key (x ∷ l) = some x.0

unfoldable pub get_first_backup_id : Backups → Option Text
get_first_backup_id available_backups = first_key (sort_asc (λ (x : Entry). x.0) available_backups)

-- `target_tli is not None and candidate_backup.timeline != target_tli` is the reason to go on.
abbrev pub on_timeline : Option ℕ → Option ℕ → Bool
on_timeline none timeline = true
on_timeline (some tli) timeline = timeline_eq timeline (some tli)

-- The loop over the candidates, with the test that it makes first
unfoldable pub first_candidate :
    (BackupInfo → Result Bool) → Option ℕ → List BackupInfo → Result (Option Text)
first_candidate is_before target_tli [] = ok none
first_candidate is_before target_tli (b ∷ l) =
    let rest = first_candidate is_before target_tli l in
    is_before b >>= λ before.
    if before && on_timeline target_tli b.timeline then ok (some b.backup_id) else rest

-- `candidate_backup.end_time <= parsed_target`
abbrev pub ends_by : ℕ → Option ℕ → Result Bool
ends_by target none = err type_error
ends_by target (some end_time) = ok (leb end_time target)

-- `load_datetime_tz` is a parameter: `none` is its `ValueError`, whose handler reads the unbound
-- `parsed_target`.
unfoldable pub get_backup_id_from_target_time :
    (Text → Option ℕ) → List BackupInfo → Text → Option ℕ → Result (Option Text)
get_backup_id_from_target_time load_datetime_tz available_backups target_time target_tli =
    elim (load_datetime_tz target_time) [
      | none ↦ err unbound_local_error
      | some parsed_target ↦
          first_candidate (λ b. ends_by parsed_target b.end_time) target_tli
            (sort_desc backup_id_of available_backups)
    ]

-- `xlog.parse_lsn(candidate_backup.end_xlog) <= parsed_target`
abbrev pub lsn_by : ℤ → Option Text → Result Bool
lsn_by target none = err attribute_error
lsn_by target (some end_xlog) = parse_lsn end_xlog >>= λ lsn. ok (not (ltb_ℤ target lsn))

unfoldable pub get_backup_id_from_target_lsn :
    List BackupInfo → Text → Option ℕ → Result (Option Text)
get_backup_id_from_target_lsn available_backups target_lsn target_tli =
    parse_lsn target_lsn >>= λ parsed_target.
    first_candidate (λ b. lsn_by parsed_target b.end_xlog) target_tli
      (sort_desc backup_id_of available_backups)

unfoldable pub first_on_timeline : ℕ → List BackupInfo → Option Text
first_on_timeline target_tli [] = none
first_on_timeline target_tli (b ∷ l) =
    let rest = first_on_timeline target_tli l in
    if timeline_eq b.timeline (some target_tli) then some b.backup_id else rest

unfoldable pub get_backup_id_from_target_tli : List BackupInfo → ℕ → Option Text
get_backup_id_from_target_tli available_backups target_tli =
    first_on_timeline target_tli (sort_desc backup_id_of available_backups)

unfoldable pub named : Text → List BackupInfo → List BackupInfo
named backup_name [] = []
named backup_name (b ∷ l) =
    let rest = named backup_name l in if field_is b.backup_name backup_name then b ∷ rest else rest

abbrev pub only : List BackupInfo → Result (Option BackupInfo)
only [] = ok none
only (b ∷ []) = ok (some b)
only (b ∷ c ∷ l) = err value_error

unfoldable pub get_backup_info_from_name : List BackupInfo → Text → Result (Option BackupInfo)
get_backup_info_from_name backups backup_name = only (named backup_name backups)
