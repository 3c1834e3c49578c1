-- ===== src/Tests/Catalogue.antt =====
-- The theorems on the catalogue at three backups.
use barman.Prelude.{
  ℕ, ◌+◌, ◌≡◌, ◌↔◌, refl, true, false, Option, none, some, [], ◌∷◌, ◌++◌, arith, All,
}
use barman.Prelude.Int.{pos, ◌+ℤ◌, ◌*ℤ◌}
use barman.Text.{Text, text, text_le, text_eq, split_on}
use barman.Text.Hex.{hex8}
use barman.Text.Sort.{sort_asc, sort_by, insert_by}
use barman.Dict.{get}
use barman.Result.{ok}
use barman.Backup.{BackupInfo, BackupStatus, status_copy_done, field_is, is_incremental, status_eq}
use barman.Backup.Tree.{
  Disk, walk_backups_tree, get_parent_backup_info, is_checksum_consistent, unless_empty,
}
use barman.Backup.Tree.Descent.{In, Descends, walk-iff-Descends}
use barman.Backup.Tree.Ancestry.{IsAncestor, HasChecksumsOff, inconsistent_iff}
use barman.Xlog.Name.{encode_segment_name}
use barman.Xlog.Lsn.{parse_lsn, int_or_raise}
use barman.Xlog.Segments.{skips_last, segments_for}
use barman.Xlog.Segments.Sequence.{names_from}
use barman.Catalog.{Entry, find_previous_backup_in, should_remove_wals}
use barman.Catalog.Neighbours.{last_match, HasDistinctIds, find_previous-last_match}
use barman.Catalog.Cleanup.{decision, matching, should_remove_wals-decision}
use barman.Catalog.Find.{get_backup_id_from_target_lsn}
use barman.Catalog.Find.Newest.{IsNewest, EndsBy, IsOnTimeline, target_lsn-IsNewest}
use barman.Catalog.Check.{check_backup, Checked}
use barman.Catalog.Check.Complete.{check_backup-done_iff}
use barman.Prelude.{Bool, ◌&&◌, leb, if◌then◌else◌}
use barman.Text.{text_in}
use barman.Dict.{values}
use barman.Catalog.{with_status}
use barman.Catalog.Find.{get_last_backup_id, get_last_full_backup_id}
use barman.Catalog.Shortcut.{
  get_backup_id_using_shortcut, is_substring, check_backup_name, is_backup_id, digits,
}
use barman.Catalog.Shortcut.Names.{accepted_name-shortcut}
use barman.Tests.Data.{id1, id2, id3, wal3, wal6, backup1, backup2, backup3, catalogue}

names : Unit {0}
unfolding sort_asc sort_by insert_by text_le text_eq encode_segment_name hex8 parse_lsn
    get_parent_backup_info unless_empty is_incremental split_on int_or_raise ◌+ℤ◌ ◌*ℤ◌ skips_last
    segments_for get status_eq
names = tt

sorted_by_id :
    sort_asc (λ (x : Entry). x.0) catalogue
    ≡ ((id1, backup1) ∷ []) ++ (id2, backup2) ∷ (id3, backup3) ∷ []
unfolding names
sorted_by_id = refl

distinct_ids : HasDistinctIds catalogue
unfolding names
distinct_ids = ((refl, (refl, tt)), ((refl, tt), (tt, tt)))

find_previous-last_match_example :
    find_previous_backup_in catalogue id2 status_copy_done
    ≡ ok (last_match status_copy_done ((id1, backup1) ∷ []))
find_previous-last_match_example =
    find_previous-last_match catalogue ((id1, backup1) ∷ []) ((id3, backup3) ∷ []) id2 backup2
      status_copy_done distinct_ids sorted_by_id

abbrev standalone : Text → Option Text
standalone bid = some (text "standalone")

should_remove_wals-decision_example :
    should_remove_wals backup2 catalogue standalone false status_copy_done
    ≡ ok (decision standalone false (matching status_copy_done ((id1, backup1) ∷ [])))
should_remove_wals-decision_example =
    should_remove_wals-decision catalogue ((id1, backup1) ∷ []) ((id3, backup3) ∷ []) id2 backup2
      status_copy_done distinct_ids (refl, (refl, (refl, tt))) sorted_by_id standalone false

target_lsn-IsNewest_example :
    (r : Option Text) × (get_backup_id_from_target_lsn
        (backup1 ∷ backup3 ∷ [])
        (text "0/5")
        (some 1)
      ≡ ok r)
    × IsNewest (λ b. EndsBy (pos 5) b × IsOnTimeline (some 1) b) (backup1 ∷ backup3 ∷ []) r
unfolding names
target_lsn-IsNewest_example =
    target_lsn-IsNewest (backup1 ∷ backup3 ∷ []) (text "0/5") (some 1) (pos 5) refl
      ((text "0/5", pos 5, refl, refl), ((text "0/5", pos 5, refl, refl), tt))

check_backup-done_iff_example :
    (check_backup 3 ((text "00000001", wal6) ∷ []) (text_eq wal3) backup2
      ≡ ok (Checked.saved BackupStatus.done none))
    ↔ ((text_le (encode_segment_name 1 0 3) wal6 ≡ true)
        × (text_le (encode_segment_name 1 0 5) wal6 ≡ true)
        × All (λ w. text_eq wal3 w ≡ true) (names_from 1 256 3 3))
unfolding names
check_backup-done_iff_example =
    check_backup-done_iff 1 0 3 0 5 (omega arith) (omega arith) (omega arith) (omega arith)
      (omega arith) backup2 3 ((text "00000001", wal6) ∷ []) (text_eq wal3) wal6 refl refl
      (omega arith) (omega arith) (omega arith) (omega arith) refl

-- A full backup with one incremental backup, and any other id an unrelated full backup
abbrev parent : BackupInfo
parent = record backup1 { children_backup_ids = some (id2 ∷ []) }

abbrev child_backup : BackupInfo
child_backup = record backup2 { parent_backup_id = some id1 }

abbrev disk : Disk
disk id = elim (text_eq id id2) [ true ↦ child_backup | false ↦ parent ]

walk-iff-Descends_example :
    (In child_backup (walk_backups_tree 2 disk false parent) ↔ Descends disk parent child_backup)
    × ((k : ℕ)
        → walk_backups_tree (2 + k) disk false parent ≡ walk_backups_tree 2 disk false parent)
unfolding names
walk-iff-Descends_example = walk-iff-Descends disk 2 parent child_backup (tt, tt)

inconsistent_iff_example : (is_checksum_consistent 2 disk child_backup ≡ false) ↔ (
    (field_is child_backup.data_checksums (text "on") ≡ true)
    × (is_incremental child_backup ≡ true)
    × ((a : BackupInfo) × IsAncestor disk a (get_parent_backup_info disk child_backup)
        × HasChecksumsOff a))
unfolding names
inconsistent_iff_example = inconsistent_iff 2 disk child_backup tt

abbrev is_decimal : ℕ → Bool
is_decimal c = leb b'0' c && leb c b'9'

-- The name `fail` is accepted, and is taken for the shortcut of the last failed backup.
accepted_name-shortcut_example : get_backup_id_using_shortcut is_decimal catalogue (text "fail") ≡ (
    if is_substring (text "fail") (text "last-failed")
    then get_last_backup_id (values (with_status (BackupStatus.failed ∷ []) catalogue))
    else if text_in (text "fail") (text "latest-full" ∷ text "last-full" ∷ [])
    then get_last_full_backup_id (values (with_status status_copy_done catalogue))
    else none)
unfolding check_backup_name is_backup_id digits text_in text_eq
accepted_name-shortcut_example =
    accepted_name-shortcut is_decimal catalogue (text "fail") (text "fail") refl
