-- ===== src/Xlog/Lsn.antt =====
-- LSNs (xlog.py): `parse_lsn`, `diff_lsn`, `format_lsn`, and the conversion between a location and
-- a file name with an offset.
--
-- The numbers that are formatted are natural: PostgreSQL prints LSNs unsigned. A location with a
-- sign can be parsed and subtracted; its conversion to a file name is left out, as an error.
pub mod RoundTrip
pub mod Location
use Prim.Native.Nat.{bit_and}
use barman.Prelude.{ℕ, ◌+◌, ◌-◌, ◌*◌, ◌/◌, ◌^◌, Option, none, some, List, [], ◌∷◌, ◌++◌}
use barman.Prelude.Int.{ℤ, pos, negsuc, ◌+ℤ◌, ◌-ℤ◌, ◌*ℤ◌}
use barman.Text.{Text, split_on}
use barman.Text.Hex.{upper_hex}
use barman.Text.Number.{int_of}
use barman.Result.{Result, ok, err, value_error, type_error, ◌>>=◌}
use barman.Xlog.Name.{Segment, decode_segment_name, encode_segment_name}
use barman.Xlog.Segments.{xlog_segment_mask}

abbrev pub or_raise : Option ℤ → Result ℤ
or_raise none = err value_error
or_raise (some n) = ok n

unfoldable pub int_or_raise : ℕ → Text → Result ℤ
unfolding int_of
int_or_raise base s = or_raise (int_of base s)

-- `(int(lsn_list[0], 16) << 32) + int(lsn_list[1], 16)`, for two parts
parse_parts : List Text → Result ℤ
parse_parts (high ∷ low ∷ []) = do
  h ← int_or_raise 16 high
  l ← int_or_raise 16 low
  ok (h *ℤ pos (2 ^ 32) +ℤ l)
parse_parts _ = err value_error

unfoldable pub parse_lsn : Text → Result ℤ
unfolding parse_parts
parse_lsn lsn_string = parse_parts (split_on b'/' lsn_string)

-- `none` is Python's `None`, as an argument and as the result.
unfoldable pub diff_lsn : Option Text → Option Text → Result (Option ℤ)
diff_lsn (some lsn_string1) (some lsn_string2) = do
  a ← parse_lsn lsn_string1
  b ← parse_lsn lsn_string2
  ok (some (a -ℤ b))
diff_lsn _ _ = ok none

-- `"%X/%X" % (lsn >> 32, lsn & 0xFFFFFFFF)`
unfoldable pub format_lsn : ℕ → Text
unfolding upper_hex
format_lsn lsn = upper_hex (lsn / 2 ^ 32) ++ b'/' ∷ upper_hex (bit_and lsn 0xFFFFFFFF)

file_name_offset : ℕ → ℕ → ℕ → Text × ℕ
unfolding encode_segment_name xlog_segment_mask
file_name_offset lsn timeline size = (
  encode_segment_name timeline (lsn / 2 ^ 32) (bit_and lsn (xlog_segment_mask size) / size),
  bit_and lsn (size - 1),
)

-- The file name and the offset of a location
unfoldable pub location_to_xlogfile_name_offset : Text → ℕ → ℕ → Result (Text × ℕ)
unfolding file_name_offset
location_to_xlogfile_name_offset location timeline xlog_segment_size = do
  lsn ← parse_lsn location
  elim lsn [
    | pos n ↦ ok (file_name_offset n timeline xlog_segment_size)
    | negsuc n ↦ err value_error
  ]

-- The arithmetic on `decoded_segment`; a history file has no numbers, and `None << 32` fails.
location_of : Segment → ℕ → ℕ → Result Text
location_of (tli, some log, some seg) file_offset size =
    ok (format_lsn (log * 2 ^ 32 + seg * size + file_offset))
location_of _ file_offset size = err type_error

unfoldable pub location_from_xlogfile_name_offset : Text → ℕ → ℕ → Result Text
unfolding location_of
location_from_xlogfile_name_offset file_name file_offset xlog_segment_size = do
  decoded ← decode_segment_name file_name
  location_of decoded file_offset xlog_segment_size
