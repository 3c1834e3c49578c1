-- ===== src/Catalog.antt =====
-- The catalogue of a server's backups (backup.py: `BackupManager`).
--
-- Where the source sorts the keys of a dictionary and reads it at each key, the model sorts the
-- entries by key.
pub mod Neighbours
pub mod Caching
pub mod Cleanup
pub mod Find
pub mod Check
pub mod Removal
pub mod Shortcut
pub mod Deletion
use barman.Prelude.{
  ℕ, zero, suc, ◌+◌, ◌-◌, Bool, true, false, ◌&&◌, ◌||◌, not, Option, none, some, List, [], ◌∷◌,
  ◌++◌, length, get_elem?, ◌==◌, if◌then◌else◌,
}
use barman.Text.{Text, text, text_eq}
use barman.Text.Sort.{sort_asc}
use barman.Dict.{Dict, get, put, remove, values}
use barman.Result.{Result, ok, err, unknown_backup_id, index_error, key_error, ◌>>=◌}
use barman.Backup.{
  BackupInfo, BackupStatus, status_in, status_copy_done, status_all,
  is_full_and_eligible_for_incremental, field_is,
}

abbrev pub Backups : Type 0
Backups = Dict BackupInfo

abbrev pub Entry : Type 0
Entry = Text × BackupInfo

-- The comprehension of `get_available_backups`, for a filter that is a tuple
unfoldable pub with_status : List BackupStatus → Backups → Backups
with_status status_filter [] = []
with_status status_filter ((key, value) ∷ cache) =
    let rest = with_status status_filter cache in
    if status_in value.status status_filter then (key, value) ∷ rest else rest

-- `_backup_cache`: `None` until it is loaded.
abbrev pub Cache : Type 0
Cache = Option Backups

-- `_load_backup_cache`, over the `backup.info` files in the order of `glob`
unfoldable pub load_from : Backups → List BackupInfo → Backups
load_from cache [] = cache
load_from cache (backup ∷ rest) = load_from (put cache backup.backup_id backup) rest

abbrev pub loaded : List BackupInfo → Cache → Backups
loaded files none = load_from [] files
loaded files (some cache) = cache

-- The backups, and the cache that is loaded afterwards
unfoldable pub get_available_backups : List BackupInfo → List BackupStatus → Cache → Backups × Cache
get_available_backups files status_filter cache =
    (with_status status_filter (loaded files cache), some (loaded files cache))

unfoldable pub backup_cache_add : List BackupInfo → BackupInfo → Cache → Cache
backup_cache_add files backup_info cache =
    some (put (loaded files cache) backup_info.backup_id backup_info)

-- `del`, which fails on a key that is missing
unfoldable pub backup_cache_remove : BackupInfo → Cache → Result Cache
backup_cache_remove backup_info none = ok none
backup_cache_remove backup_info (some cache) = elim (get cache backup_info.backup_id) [
  | none ↦ err key_error
  | some b ↦ ok (some (remove cache backup_info.backup_id))
]

unfoldable pub get_backup : List BackupInfo → Option Text → Cache → Option BackupInfo × Cache
get_backup files none cache = (none, cache)
get_backup files (some backup_id) cache =
    (get (with_status status_all (loaded files cache)) backup_id, some (loaded files cache))

abbrev pub next_index : Option ℕ → Option ℕ
next_index none = none
next_index (some n) = some (suc n)

-- `ids.index(backup_id)`
unfoldable pub index_of : Text → List Entry → Option ℕ
index_of backup_id [] = none
index_of backup_id ((key, b) ∷ entries) =
    if text_eq key backup_id then some 0 else next_index (index_of backup_id entries)

abbrev pub on_entry :
    Option Entry → (BackupInfo → Result (Option BackupInfo)) → Result (Option BackupInfo)
on_entry none k = err index_error
on_entry (some x) k = k x.1

-- `while current > 0`
unfoldable pub previous_from : List Entry → List BackupStatus → ℕ → Result (Option BackupInfo)
previous_from entries status_filter zero = ok none
previous_from entries status_filter (suc current) =
    let rest = previous_from entries status_filter current in
    on_entry (get_elem? entries current)
      (λ res. if status_in res.status status_filter then ok (some res) else rest)

-- `while current < len(ids) - 1`, by the rounds that are left
unfoldable pub next_from : List Entry → List BackupStatus → ℕ → ℕ → Result (Option BackupInfo)
next_from entries status_filter current zero = ok none
next_from entries status_filter current (suc rounds) =
    let rest = next_from entries status_filter (current + 1) rounds in
    on_entry (get_elem? entries (current + 1))
      (λ res. if status_in res.status status_filter then ok (some res) else rest)

-- `except ValueError`
abbrev pub on_index :
    Text → Option ℕ → (ℕ → Result (Option BackupInfo)) → Result (Option BackupInfo)
on_index backup_id none k = err (unknown_backup_id backup_id)
on_index backup_id (some current) k = k current

unfoldable pub find_previous_backup_in :
    Backups → Text → List BackupStatus → Result (Option BackupInfo)
find_previous_backup_in available_backups backup_id status_filter =
    let entries = sort_asc (λ (x : Entry). x.0) available_backups in
    on_index backup_id (index_of backup_id entries) (previous_from entries status_filter)

unfoldable pub find_next_backup_in : Backups → Text → List BackupStatus → Result (Option BackupInfo)
find_next_backup_in available_backups backup_id status_filter =
    let entries = sort_asc (λ (x : Entry). x.0) available_backups in
    on_index backup_id (index_of backup_id entries)
      (λ current. next_from entries status_filter current (length entries - 1 - current))

abbrev pub Range : Type 0
Range = Option Text × Option Text

-- The `while True` of `should_remove_wals`, on fuel above the number of backups
unfoldable pub removal_loop :
    ℕ
    → Backups
    → (Text → Option Text)
    → Bool
    → List BackupStatus
    → Option BackupInfo
    → List Range
    → Result (Bool × List Range)
removal_loop zero available get_keep_target skip status_filter previous ranges = err index_error
removal_loop (suc fuel) available get_keep_target skip status_filter none ranges = ok (true, ranges)
removal_loop (suc fuel) available get_keep_target skip status_filter (some previous) ranges =
    let earlier = find_previous_backup_in available previous.backup_id status_filter >>= λ next.
    removal_loop fuel available get_keep_target skip status_filter next
      (ranges ++ (previous.begin_wal, previous.end_wal) ∷ []) in
    if field_is (get_keep_target previous.backup_id) (text "standalone")
    then (if skip then ok (false, []) else earlier)
    else ok (false, [])

unfoldable pub should_remove_wals :
    BackupInfo
    → Backups
    → (Text → Option Text)
    → Bool
    → List BackupStatus
    → Result (Bool × List Range)
should_remove_wals backup available get_keep_target skip_wal_cleanup_if_standalone status_filter =
    do
      previous ← find_previous_backup_in available backup.backup_id status_filter
      removal_loop (length available + 1) available get_keep_target skip_wal_cleanup_if_standalone
          status_filter previous []

-- A timeline is `None` or a number.
unfoldable pub timeline_eq : Option ℕ → Option ℕ → Bool
timeline_eq none none = true
timeline_eq (some a) (some b) = a == b
timeline_eq _ _ = false

unfoldable pub timeline_in : Option ℕ → List (Option ℕ) → Bool
timeline_in t [] = false
timeline_in t (u ∷ l) = timeline_eq t u || timeline_in t l

-- The timelines of the other backups, less that of `remove_until`; a backup is known by its id.
unfoldable pub other_timelines : BackupInfo → Text → List BackupInfo → List (Option ℕ)
other_timelines remove_until deleted [] = []
other_timelines remove_until deleted (value ∷ rest) =
    let timelines = other_timelines remove_until deleted rest in
    if text_eq value.backup_id deleted || timeline_eq value.timeline remove_until.timeline
    then timelines
    else value.timeline ∷ timelines

unfoldable pub get_timelines_to_protect : Option BackupInfo → BackupInfo → Backups → List (Option ℕ)
get_timelines_to_protect none deleted_backup available_backups = []
get_timelines_to_protect (some remove_until) deleted_backup available_backups =
    other_timelines remove_until deleted_backup.backup_id (values available_backups)
