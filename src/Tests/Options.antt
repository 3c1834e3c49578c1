-- ===== src/Tests/Options.antt =====
-- The parsers of options at small texts.
use barman.Prelude.{◌≡◌, refl, true, some, List, [], ◌∷◌}
use barman.Text.{Text, text, text_eq, text_le, text_in, split_on}
use barman.Text.Sort.{sort_asc, sort_by, insert_by}
use barman.Text.Number.{strip, int_of}
use barman.Xlog.Name.{chop_newline}
use barman.Dict.{get}
use barman.Result.{ok, err, value_error}
use barman.Config.{
  backup_options, parse_csv, add_values, add_value, lower, parse_boolean, is_one_of,
  parse_si_suffix, span_digits, si_factor, parse_time_interval, unit_seconds, parse_slot_name,
  is_slot_name, all_slot_letters,
}
use barman.Config.Csv.{IsSymmetric, IsAllowed, parse_csv-IsAllowed, swap_symmetric}

backup_options-IsSymmetric : IsSymmetric backup_options
backup_options-IsSymmetric =
    swap_symmetric (text "exclusive_backup") (text "concurrent_backup") (unfold text_eq in refl)

abbrev value : Text
value = text "External_configuration, concurrent_backup,concurrent_backup"

abbrev values : List Text
values = text "external_configuration" ∷ text "concurrent_backup" ∷ []

parsed : parse_csv backup_options (some value) ≡ ok values
unfolding parse_csv add_values add_value lower strip split_on sort_asc sort_by insert_by text_le
    text_in text_eq get
parsed = refl

conflicting :
    parse_csv backup_options (some (text "exclusive_backup,concurrent_backup")) ≡ err value_error
unfolding parse_csv add_values add_value lower strip split_on sort_asc sort_by insert_by text_le
    text_in text_eq get
conflicting = refl

parse_csv-IsAllowed_example : IsAllowed backup_options values
parse_csv-IsAllowed_example =
    parse_csv-IsAllowed backup_options (some value) values backup_options-IsSymmetric parsed

numbers :
    (parse_si_suffix (some (text "16 Ki")) ≡ ok (some 16384))
    × (parse_si_suffix (some (text "16 Ko")) ≡ err value_error)
    × (parse_time_interval (some (text " 2 WEEKS ")) ≡ ok (some 1209600))
    × (parse_time_interval (some (text "2weeks")) ≡ err value_error)
    × (parse_boolean (text "Yes") ≡ ok true)
    × (parse_boolean (text "maybe") ≡ err value_error)
    × (parse_slot_name (some (text "Slot_1")) ≡ ok (some (text "slot_1")))
    × (parse_slot_name (some (text "slot-1")) ≡ err value_error)
unfolding parse_si_suffix span_digits si_factor parse_time_interval unit_seconds parse_boolean
    is_one_of lower strip int_of chop_newline text_in text_eq parse_slot_name is_slot_name
    all_slot_letters
numbers = (refl, refl, refl, refl, refl, refl, refl, refl)
