-- ===== src/Server/Wals.antt =====
-- Which WAL files a recovery or a backup needs (server.py: `get_required_xlog_files`,
-- `get_wal_until_next_backup`, `get_wal_possible_paths`; utils.py: `parse_target_tli`).
--
-- The xlogdb is the list of its rows. A generator is the list of what it yields; where it raises,
-- the model gives the error only.
pub mod Required
use barman.Prelude.{
  ℕ, zero, suc, ◌+◌, ◌*◌, ◌-◌, Bool, true, false, ◌&&◌, ◌||◌, not, Option, none, some, List, [],
  ◌∷◌, ◌++◌, ltb, leb, if◌then◌else◌,
}
use barman.Prelude.Int.{ℤ, pos, negsuc}
use barman.Text.{Text, text, text_eq, text_le}
use barman.Text.Number.{int_of}
use barman.Result.{Result, ok, err, value_error, type_error, attribute_error, ◌>>=◌}
use barman.Backup.{BackupInfo}
use barman.Xlog.Name.{decode_segment_name, hash_dir, is_history_file, is_wal_file}
use barman.Xlog.Lsn.{location_to_xlogfile_name_offset}
use barman.Catalog.Removal.{WalFileInfo}
use barman.Locks.{join}

-- A target timeline: `None`, a number, or a text
pub data TargetTli : Type 0 where
  no_tli : TargetTli
  tli_number : ℕ → TargetTli
  tli_text : Text → TargetTli

-- `str.isdigit`, over ASCII
unfoldable pub all_digits : Text → Bool
all_digits [] = true
all_digits (c ∷ s) = (leb 48 c && leb c 57) && all_digits s

-- `max` of some texts; there is none of an empty list.
unfoldable pub max_text : Text → List Text → Text
max_text best [] = best
max_text best (t ∷ l) = max_text (if text_le t best then best else t) l

abbrev pub natural : Option ℤ → Result (Option ℕ)
natural (some (pos n)) = ok (some n)
natural _ = err value_error

-- `int(max(valid_timelines.keys()), 16)`
unfoldable pub latest_tli : List Text → Result (Option ℕ)
latest_tli [] = err value_error
latest_tli (t ∷ l) = natural (int_of 16 (max_text t l))

abbrev pub current_tli : Option BackupInfo → Result (Option ℕ)
current_tli none = err value_error
current_tli (some backup_info) = ok backup_info.timeline

-- With the timelines that have archived WAL files; the empty text stands for no timeline.
unfoldable pub parse_target_tli : List Text → TargetTli → Option BackupInfo → Result (Option ℕ)
parse_target_tli archived no_tli backup_info = ok none
parse_target_tli archived (tli_number n) backup_info = ok (some n)
parse_target_tli archived (tli_text []) backup_info = ok none
parse_target_tli archived (tli_text (c ∷ s)) backup_info =
    if text_eq (c ∷ s) (text "current")
    then current_tli backup_info
    else if text_eq (c ∷ s) (text "latest")
    then latest_tli archived
    else if all_digits (c ∷ s)
    then natural (int_of 10 (c ∷ s))
    else err value_error

-- `not target_tli`
abbrev pub is_no_tli : TargetTli → Bool
is_no_tli no_tli = true
is_no_tli (tli_number zero) = true
is_no_tli (tli_number (suc n)) = false
is_no_tli (tli_text []) = true
is_no_tli (tli_text (c ∷ s)) = false

-- What the loop does with a row
pub data Choice : Type 0 where
  gives passes stops : Choice

-- `tli > calculated_target_tli`
abbrev pub is_later : ℕ → Option ℕ → Result Bool
is_later tli none = err type_error
is_later tli (some target) = ok (ltb target tli)

-- `target_lsn and wal_info.name > target_wal`
abbrev pub is_beyond : Text → Option Text → Bool
is_beyond name none = false
is_beyond name (some target_wal) = not (text_le name target_wal)

abbrev pub beyond_end : Bool → Option Text → Text → Text → Choice
beyond_end target_immediate target_wal end name =
    if text_le name end
    then gives
    else if target_immediate
    then stops
    else if is_beyond name target_wal
    then stops
    else gives

unfoldable pub choose : Option ℕ → Text → Bool → Option Text → Text → Text → Result Choice
choose target_tli begin target_immediate target_wal end name =
    if is_history_file name
    then ok gives
    else if not (text_le begin name)
    then ok passes
    else (decode_segment_name name >>= λ decoded. is_later decoded.0 target_tli >>= λ later.
        ok (if later then passes else beyond_end target_immediate target_wal end name))

-- `end = wal_info.name`, for a row beyond the end that is given and no history file
unfoldable pub next_end : Result Choice → Text → Text → Text
next_end (ok gives) end name = if is_history_file name || text_le name end then end else name
next_end _ end name = end

-- `if xlog.is_history_file(wal_info.name): yield wal_info`
unfoldable pub remaining_history : List WalFileInfo → List WalFileInfo
remaining_history [] = []
remaining_history (w ∷ lines) =
    let rest = remaining_history lines in if is_history_file w.name then w ∷ rest else rest

abbrev pub on_choice :
    Result Choice
    → WalFileInfo
    → Result (List WalFileInfo)
    → List WalFileInfo
    → Result (List WalFileInfo)
on_choice (err e) w rest behind = err e
on_choice (ok gives) w rest behind = rest >>= λ l. ok (w ∷ l)
on_choice (ok passes) w rest behind = rest
on_choice (ok stops) w rest behind = ok behind

unfoldable pub required_loop :
    Option ℕ → Text → Bool → Option Text → Text → List WalFileInfo → Result (List WalFileInfo)
required_loop target_tli begin immediate target_wal end [] = ok []
required_loop target_tli begin immediate target_wal end (w ∷ lines) =
    let choice = choose target_tli begin immediate target_wal end w.name in
    let rest =
      required_loop target_tli begin immediate target_wal (next_end choice end w.name) lines in
    on_choice choice w rest (remaining_history lines)

-- A field that must not be `None`
abbrev pub known : Option Text → Result Text
known none = err type_error
known (some t) = ok t

-- `if target_lsn: …`
abbrev pub target_wal_of : Option Text → Option ℕ → ℕ → Result (Option Text)
target_wal_of none tli xlog_segment_size = ok none
target_wal_of (some []) tli xlog_segment_size = ok none
target_wal_of (some (c ∷ s)) none xlog_segment_size =
    location_to_xlogfile_name_offset (c ∷ s) 0 xlog_segment_size >>= λ place. err type_error
target_wal_of (some (c ∷ s)) (some tli) xlog_segment_size =
    location_to_xlogfile_name_offset (c ∷ s) tli xlog_segment_size >>= λ place. ok (some place.0)

-- `if not target_tli: …`
abbrev pub chosen_tli : TargetTli → Text → Option ℕ → Result (Option ℕ)
chosen_tli target_tli end calculated =
    if is_no_tli target_tli
    then (decode_segment_name end >>= λ decoded. ok (some decoded.0))
    else ok calculated

unfoldable pub get_required_xlog_files :
    List Text
    → BackupInfo
    → TargetTli
    → Option Text
    → Bool
    → List WalFileInfo
    → Result (List WalFileInfo)
get_required_xlog_files archived backup target_tli target_lsn target_immediate xlogdb = do
  begin ← known backup.begin_wal
  end ← known backup.end_wal
  calculated ← parse_target_tli archived target_tli (some backup)
  tli ← chosen_tli target_tli end calculated
  target_wal ← target_wal_of target_lsn tli backup.xlog_segment_size
  required_loop tli begin target_immediate target_wal end xlogdb

-- `next_end and wal_info.name > next_end`
abbrev pub is_past : Text → Option Text → Bool
is_past name none = false
is_past name (some []) = false
is_past name (some (c ∷ s)) = not (text_le name (c ∷ s))

unfoldable pub choose_until : ℕ → Text → Bool → Option Text → Text → Result Choice
choose_until backup_tli begin include_history next_end_wal name =
    if is_history_file name
    then ok (if include_history then gives else passes)
    else if not (text_le begin name)
    then ok passes
    else (decode_segment_name name >>= λ decoded. ok (
        if ltb backup_tli decoded.0
        then passes
        else if not (is_wal_file name)
        then passes
        else if is_past name next_end_wal
        then stops
        else gives))

unfoldable pub until_loop :
    ℕ → Text → Bool → Option Text → List WalFileInfo → Result (List WalFileInfo)
until_loop backup_tli begin include_history next_end_wal [] = ok []
until_loop backup_tli begin include_history next_end_wal (w ∷ lines) =
    let rest = until_loop backup_tli begin include_history next_end_wal lines in
    on_choice (choose_until backup_tli begin include_history next_end_wal w.name) w rest []

abbrev end_wal_of : Option BackupInfo → Option Text
end_wal_of none = none
end_wal_of (some next_backup) = next_backup.end_wal

-- With the next backup, if there is one
unfoldable pub get_wal_until_next_backup :
    Result (Option BackupInfo) → BackupInfo → Bool → List WalFileInfo → Result (List WalFileInfo)
get_wal_until_next_backup next_backup backup include_history xlogdb = do
  next ← next_backup
  begin ← known backup.begin_wal
  decoded ← decode_segment_name begin
  until_loop decoded.0 begin include_history (end_wal_of next) xlogdb

-- The directories of a server
pub record Directories : Type 0 where
  pub wals_directory : Text
  pub incoming_wals_directory : Text
  pub streaming_wals_directory : Text

unfoldable pub get_wal_full_path : Directories → Text → Result Text
get_wal_full_path config wal_name = do
  directory ← hash_dir wal_name
  ok (join (join config.wals_directory directory) wal_name)

unfoldable pub get_wal_possible_paths : Directories → Text → Bool → Result (List Text)
get_wal_possible_paths config wal_name partial = do
  full_path ← get_wal_full_path config wal_name
  let incoming_path = join config.incoming_wals_directory wal_name
  let streaming_path = join config.streaming_wals_directory wal_name
  ok (
      full_path
      ∷ incoming_path
      ∷ streaming_path
      ∷ ((if partial
            then (streaming_path ++ text ".partial")
              ∷ streaming_path
              ∷ (full_path ++ text ".partial")
              ∷ (incoming_path ++ text ".partial")
              ∷ []
            else [])
          ++ full_path ∷ []))
