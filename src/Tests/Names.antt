-- ===== src/Tests/Names.antt =====
-- The theorems on xlog.py at concrete names, LSNs and segments.
use barman.Prelude.{◌+◌, ◌-◌, ◌*◌, ◌≡◌, ◌↔◌, refl, false, some, [], ◌∷◌, arith, All, min}
use barman.Prelude.Int.{pos}
use barman.Bits.{pow2}
use barman.Result.{ok}
use barman.Xlog.Name.{decode_segment_name, encode_segment_name}
use barman.Xlog.Name.Codec.{decode-encode}
use barman.Xlog.Name.Ranges.{IsSegment, decode-IsSegment}
use barman.Xlog.Segments.{Generator, generate_segment_names}
use barman.Xlog.Segments.Sequence.{names_from, IsStarted, log_size}
use barman.Xlog.Segments.Generate.{segments_of, generate-eq-names_from}
use barman.Xlog.Lsn.{
  parse_lsn, format_lsn, location_to_xlogfile_name_offset, location_from_xlogfile_name_offset,
}
use barman.Xlog.Lsn.Location.{location-round_trip}
use barman.Xlog.Archive.{check_archive_usable}
use barman.Xlog.Archive.Usable.{IsEarlier, check_archive_usable_iff}
use barman.Xlog.History.{
  HistoryFileData, decode_history_file, history_lines, history_line, is_skipped,
}
use barman.Text.{Text, text, starts_with, split_on}
use barman.Text.Number.{strip}
use barman.Xlog.Lsn.{int_or_raise}
use barman.Prelude.{Any, List, none}
use barman.Prelude.Int.{◌+ℤ◌, ◌*ℤ◌}
use barman.Xlog.History.Readable.{decode_history_iff, HasContent, IsReadable}
use barman.Tests.Data.{wal2, wal3}

decode-encode_example : decode_segment_name (encode_segment_name 2 1 175) ≡ ok (2, some 1, some 175)
decode-encode_example = decode-encode 2 1 175 (omega arith) (omega arith) (omega arith)

decode-IsSegment_example : IsSegment (1, some 0, some 2)
unfolding decode_segment_name
decode-IsSegment_example = decode-IsSegment wal2 (1, some 0, some 2) refl

abbrev generator : Generator
generator = record {
  tli = 1;
  cur_log = 0;
  cur_seg = 254;
  end = some (1, 1);
  xlog_seg_per_file = 255;
  skip_last_segment = false;
}

generator-IsStarted : IsStarted generator
unfolding log_size
generator-IsStarted = record { current = omega arith; last = λ a b e. ground arith }

-- From the last two segments of a log to the second of the next, before version 9.3
generate-eq-names_from_example :
    generate_segment_names 10
      (encode_segment_name 1 0 253)
      (some (encode_segment_name 1 1 1))
      (some 90200)
      (some 16777216)
    ≡ ok (
        names_from 1
          (segments_of (some 90200) (some 16777216))
          (0 * segments_of (some 90200) (some 16777216) + 253)
          (min 10 (
            1 * segments_of (some 90200) (some 16777216)
            + 1
            + 1
            - (0 * segments_of (some 90200) (some 16777216) + 253))))
unfolding generate_segment_names
generate-eq-names_from_example =
    generate-eq-names_from 10 1 0 253 1 1 (some 90200) (some 16777216) (omega arith) (omega arith)
      (omega arith) (omega arith) (omega arith) (omega arith) (omega arith)

location-round_trip_example :
    (location_to_xlogfile_name_offset (format_lsn 4311744513) 1 (pow2 24)
      ≡ ok (encode_segment_name 1 1 1, 1))
    × (location_from_xlogfile_name_offset (encode_segment_name 1 1 1) 1 (pow2 24)
        ≡ ok (format_lsn 4311744513))
location-round_trip_example = location-round_trip 24 8 4311744513 refl 1 (omega arith) (omega arith)

check_archive_usable_iff_example :
    (check_archive_usable (wal2 ∷ wal3 ∷ []) (some (pos 2)) ≡ ok tt)
    ↔ All (IsEarlier 2) (wal2 ∷ wal3 ∷ [])
check_archive_usable_iff_example = check_archive_usable_iff (wal2 ∷ wal3 ∷ []) 2 (omega arith)

abbrev history : List Text
history = text "# switched" ∷ text "1\t0/5\tbefore 2000" ∷ []

decode_history_iff_example :
    ((l : List HistoryFileData) × (decode_history_file (text "h") (text "00000002.history") history
        ≡ ok l))
    ↔ (Any HasContent history × All (λ line. HasContent line → IsReadable line) history)
unfolding decode_segment_name
decode_history_iff_example =
    decode_history_iff (text "h") (text "00000002.history") history (2, none, none) refl

-- The file is read.
history_read :
    decode_history_file (text "h") (text "00000002.history") history
    ≡ ok (
        record { tli = 2; parent_tli = pos 1; switchpoint = pos 5; reason = text "before 2000" }
        ∷ [])
unfolding decode_history_file decode_segment_name history_lines history_line is_skipped strip
    starts_with split_on int_or_raise parse_lsn ◌+ℤ◌ ◌*ℤ◌
history_read = refl
