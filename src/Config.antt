-- ===== src/Config.antt =====
-- The parsers of options (config.py: `parse_*`, `CsvOption` and its subclasses).
--
-- Case and white space are those of ASCII. A set is the list of its values, the last one added first;
-- an interval of time is in seconds.
pub mod Csv
use barman.Prelude.{
  ℕ, ◌+◌, ◌*◌, ◌/◌, Bool, true, false, ◌&&◌, ◌||◌, not, Option, none, some, List, [], ◌∷◌, ◌==◌,
  leb, if◌then◌else◌,
}
use barman.Prelude.Int.{ℤ, pos, negsuc}
use barman.Text.{Text, text, text_eq, text_in, split_on, starts_with}
use barman.Text.Sort.{sort_asc}
use barman.Text.Number.{is_space, int_of, strip}
use barman.Xlog.Name.{chop_newline}
use barman.Dict.{Dict, get}
use barman.Result.{Result, ok, err, require, value_error, overflow_error, ◌>>=◌, ◌>>◌}

-- `str.lower`
unfoldable pub lower : Text → Text
lower [] = []
lower (c ∷ s) = (if leb 65 c && leb c 90 then c + 32 else c) ∷ lower s

-- `re.match` of `^(…|…)$` in any case, where `$` may stand before the end of a line
unfoldable pub is_one_of : Text → List Text → Bool
is_one_of value words = text_in (lower (chop_newline value)) words

unfoldable pub parse_boolean : Text → Result Bool
parse_boolean value =
    if is_one_of value (text "true" ∷ text "t" ∷ text "yes" ∷ text "1" ∷ text "on" ∷ [])
    then ok true
    else if is_one_of value (text "false" ∷ text "f" ∷ text "no" ∷ text "0" ∷ text "off" ∷ [])
    then ok false
    else err value_error

-- The digits in front, and what follows them
unfoldable pub span_digits : Text → Text × Text
span_digits [] = ([], [])
span_digits (c ∷ s) =
    let rest = span_digits s in if leb 48 c && leb c 57 then (c ∷ rest.0, rest.1) else ([], c ∷ s)

abbrev pub number_of : Option ℤ → Result ℕ
number_of (some (pos n)) = ok n
number_of _ = err value_error

-- The factor of a suffix; the empty text is no suffix.
unfoldable pub si_factor : Text → Result ℕ
si_factor unit =
    if text_eq unit []
    then ok 1
    else if text_eq unit (text "k")
    then ok 1000
    else if text_eq unit (text "Ki")
    then ok 1024
    else if text_eq unit (text "M")
    then ok 1000000
    else if text_eq unit (text "Mi")
    then ok 1048576
    else if text_eq unit (text "G")
    then ok 1000000000
    else if text_eq unit (text "Gi")
    then ok 1073741824
    else if text_eq unit (text "T")
    then ok 1000000000000
    else if text_eq unit (text "Ti")
    then ok 1099511627776
    else err value_error

abbrev scaled : Text × Text → Result (Option ℕ)
scaled (digits, rest) = si_factor (strip rest) >>= λ factor.
    number_of (int_of 10 digits) >>= λ n. ok (some (n * factor))

unfoldable pub parse_si_suffix : Option Text → Result (Option ℕ)
parse_si_suffix none = ok none
parse_si_suffix (some []) = ok none
parse_si_suffix (some (c ∷ s)) = scaled (span_digits (c ∷ s))

-- The seconds of a unit, with or without its `s`
unfoldable pub unit_seconds : Text → Result ℕ
unit_seconds unit =
    if text_in unit (text "day" ∷ text "days" ∷ [])
    then ok 86400
    else if text_in unit (text "week" ∷ text "weeks" ∷ [])
    then ok (7 * 86400)
    else if text_in unit (text "month" ∷ text "months" ∷ [])
    then ok (31 * 86400)
    else if text_in unit (text "hour" ∷ text "hours" ∷ [])
    then ok 3600
    else err value_error

abbrev pub begins_with_space : Text → Bool
begins_with_space [] = false
begins_with_space (c ∷ s) = is_space c

-- `datetime.timedelta`, of at most 999999999 days
abbrev interval : Text × Text → Result (Option ℕ)
interval (digits, rest) =
    require (begins_with_space rest) value_error
    >> (unit_seconds (lower (strip rest)) >>= λ seconds. number_of (int_of 10 digits) >>= λ n.
        require (leb (n * seconds / 86400) 999999999) overflow_error >> ok (some (n * seconds)))

unfoldable pub parse_time_interval : Option Text → Result (Option ℕ)
parse_time_interval none = ok none
parse_time_interval (some []) = ok none
parse_time_interval (some (c ∷ s)) = interval (span_digits (strip (c ∷ s)))

-- A value of a list, in any case
unfoldable pub parse_choice : List Text → Option Text → Result (Option Text)
parse_choice choices none = ok none
parse_choice choices (some value) =
    if text_in (lower value) choices then ok (some (lower value)) else err value_error

unfoldable pub parse_reuse_backup : Option Text → Result (Option Text)
parse_reuse_backup = parse_choice (text "copy" ∷ text "link" ∷ text "off" ∷ [])

unfoldable pub parse_backup_compression : Option Text → Result (Option Text)
parse_backup_compression = parse_choice (text "gzip" ∷ text "lz4" ∷ text "zstd" ∷ text "none" ∷ [])

unfoldable pub parse_backup_compression_format : Option Text → Result (Option Text)
parse_backup_compression_format = parse_choice (text "plain" ∷ text "tar" ∷ [])

unfoldable pub parse_backup_compression_location : Option Text → Result (Option Text)
parse_backup_compression_location = parse_choice (text "client" ∷ text "server" ∷ [])

unfoldable pub parse_backup_method : Option Text → Result (Option Text)
parse_backup_method =
    parse_choice (text "rsync" ∷ text "postgres" ∷ text "local-rsync" ∷ text "snapshot" ∷ [])

unfoldable pub parse_create_slot : Option Text → Result (Option Text)
parse_create_slot = parse_choice (text "manual" ∷ text "auto" ∷ [])

-- `os.path.isabs`
unfoldable pub parse_staging_path : Option Text → Result (Option Text)
parse_staging_path none = ok none
parse_staging_path (some value) =
    if starts_with value (text "/") then ok (some value) else err value_error

-- `^[0-9a-z_]+$`
unfoldable pub all_slot_letters : Text → Bool
all_slot_letters [] = true
all_slot_letters (c ∷ s) =
    ((leb 48 c && leb c 57) || ((leb 97 c && leb c 122) || (c == b'_'))) && all_slot_letters s

unfoldable pub is_slot_name : Text → Bool
is_slot_name value = not (text_eq (chop_newline value) []) && all_slot_letters (chop_newline value)

unfoldable pub parse_slot_name : Option Text → Result (Option Text)
parse_slot_name none = ok none
parse_slot_name (some value) =
    if is_slot_name (lower value) then ok (some (lower value)) else err value_error

unfoldable pub parse_snapshot_disks : Text → Result (List Text)
parse_snapshot_disks value =
    if text_in [] (split_on 44 value) then err value_error else ok (split_on 44 value)

-- The class attributes of an option: the values that are allowed, and for some of them a value that
-- conflicts with it
pub record CsvClass : Type 0 where
  pub value_list : List Text
  pub conflicts : Dict Text

abbrev pub backup_options : CsvClass
backup_options = record {
  value_list =
      text "exclusive_backup" ∷ text "concurrent_backup" ∷ text "external_configuration" ∷ [];
  conflicts =
      (text "exclusive_backup", text "concurrent_backup")
      ∷ (text "concurrent_backup", text "exclusive_backup")
      ∷ [];
}

abbrev pub recovery_options : CsvClass
recovery_options = record { value_list = text "get-wal" ∷ []; conflicts = [] }

-- `val in self.conflicts and self.conflicts[val] in self`
abbrev pub is_conflict : Option Text → List Text → Bool
is_conflict none values = false
is_conflict (some other) values = text_in other values

unfoldable pub add_value : CsvClass → Text → List Text → Result (List Text)
add_value class val values =
    require (text_in val class.value_list) value_error
    >> require (not (is_conflict (get class.conflicts val) values)) value_error
    >> ok (if text_in val values then values else val ∷ values)

unfoldable pub add_values : CsvClass → List Text → List Text → Result (List Text)
add_values class [] values = ok values
add_values class (val ∷ rest) values =
    add_value class (lower (strip val)) values >>= λ more. add_values class rest more

unfoldable pub parse_csv : CsvClass → Option Text → Result (List Text)
parse_csv class none = ok []
parse_csv class (some []) = ok []
parse_csv class (some (c ∷ s)) =
    add_values class (sort_asc (λ (t : Text). t) (split_on 44 (c ∷ s))) []
