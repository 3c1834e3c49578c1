-- ===== src/Tests/XlogRuns.antt =====
-- Runs of xlog.py.
use barman.Prelude.{◌≡◌, refl, true, false, some, none}
use barman.Text.{text}
use barman.Result.{ok, err, bad_xlog_segment_name}
use barman.Xlog.Name.{
  is_any_xlog_file, is_wal_file, is_backup_file, is_partial_file, is_history_file,
  decode_segment_name, encode_segment_name, hash_dir, decode_hash_dir, basename,
  encode_history_file_name,
}

names : Unit {0}
unfolding is_any_xlog_file is_wal_file is_backup_file is_partial_file is_history_file
    decode_segment_name encode_segment_name hash_dir decode_hash_dir basename
    encode_history_file_name
names = tt

kinds :
    (is_wal_file (text "a/00000001000000000000000A") ≡ true)
    × (is_wal_file (text "00000001000000000000000A.partial") ≡ false)
    × (is_partial_file (text "00000001000000000000000A.partial") ≡ true)
    × (is_backup_file (text "00000001000000000000000A.00000028.backup") ≡ true)
    × (is_history_file (text "00000002.history") ≡ true)
    × (is_any_xlog_file (text "00000001000000000000000G") ≡ false)
    × (is_any_xlog_file (text "00000001000000000000000A.0028.backup") ≡ false)
    × (is_any_xlog_file (text "00000002.history\n") ≡ true)
unfolding names
kinds = (refl, refl, refl, refl, refl, refl, refl, refl)

decoded :
    (decode_segment_name (text "w/0000000200000001000000Af") ≡ ok (2, some 1, some 175))
    × (decode_segment_name (text "00000002.history") ≡ ok (2, none, none))
    × (decode_segment_name (text "backup.info") ≡ err (bad_xlog_segment_name (text "backup.info")))
    × (hash_dir (text "0000000200000001000000Af") ≡ ok (text "0000000200000001"))
    × (decode_hash_dir (text "0000000200000001") ≡ ok (2, 1))
    × (encode_segment_name 2 1 175 ≡ text "0000000200000001000000AF")
unfolding names
decoded = (refl, refl, refl, refl, refl, refl)
