-- ===== src/Catalog/Removal/Kept.antt =====
-- Which WAL files `remove_wal_before_backup` keeps.
use barman.Prelude.{
  ℕ, ◌≡◌, refl, Bool, true, false, ◌&&◌, ◌||◌, not, Option, some, List, [], ◌∷◌, All, Bool-cases,
  inl, inr, if◌then◌else◌, none, take,
}
use barman.Text.{Text, text_le}
use barman.Result.{Result, ok, err}
use barman.Backup.{BackupInfo}
use barman.Xlog.Name.{
  Segment, is_any_xlog_file, is_history_file, is_backup_file, decode_segment_name,
}
use barman.Xlog.Name.Kinds.{decode-accepted}
use barman.Catalog.{Range, timeline_in}
use barman.Catalog.Removal.{
  WalFileInfo, on_protected_timeline, in_wal_range, in_wal_ranges, range_name, is_newer, keep_wal,
  from_begin, sort_lines, put_line,
}

-- Both bounds of a range are known.
abbrev pub HasBounds : Range → Type 0
HasBounds r = (a b : Text) × (r ≡ (some a, some b))

abbrev pub covers : Text → Range → Bool
covers name (some a, some b) = text_le a name && text_le name b
covers name r = false

unfoldable pub any_covers : Text → List Range → Bool
any_covers name [] = false
any_covers name (r ∷ ranges) = covers name r || any_covers name ranges

abbrev pub timeline_of_in : Result Segment → List (Option ℕ) → Bool
timeline_of_in (ok s) timelines = timeline_in (some s.0) timelines
timeline_of_in (err e) timelines = false

-- The name by which a file is looked for in a range: a backup file counts as its segment.
abbrev pub segment_of : Text → Text
segment_of name = if is_backup_file name then take 24 name else name

-- A file from the beginning of the backup on
abbrev pub is_from : Option BackupInfo → Text → Bool
is_from none name = false
is_from (some backup_info) name = elim backup_info.begin_wal [
  | none ↦ false
  | some begin_wal ↦ text_le begin_wal name
]

-- A file is kept if it is a history file, on a protected timeline, in a protected range, or not
-- before the backup.
unfoldable pub is_kept : Option BackupInfo → List (Option ℕ) → List Range → Text → Bool
is_kept backup_info timelines ranges name =
    is_history_file name
    || timeline_of_in (decode_segment_name name) timelines
    || any_covers (segment_of name) ranges
    || is_from backup_info name

is_newer-eq : (o : Option BackupInfo) (name : Text) → is_newer o name ≡ is_from o name
unfolding is_newer
is_newer-eq none name = refl
is_newer-eq (some b) name = bound b.begin_wal
  where
    bound :
        (begin_wal : Option Text)
        → from_begin name begin_wal
          ≡ (elim begin_wal [ none ↦ false | some begin ↦ text_le begin name ])
    bound none = refl
    bound (some begin) = refl

unfoldable pub select : (Text → Bool) → List WalFileInfo → List WalFileInfo
select p [] = []
select p (w ∷ lines) =
    let rest = select p lines in if is_any_xlog_file w.name && p w.name then w ∷ rest else rest

put_line-select :
    (w : WalFileInfo) (keep : Bool) (kept removed : List WalFileInfo)
    → ok (put_line keep w (kept, removed))
      ≡ ok (if keep then w ∷ kept else kept, if not keep then w ∷ removed else removed)
put_line-select w true kept removed = refl
put_line-select w false kept removed = refl

in_wal_ranges-covers :
    (name : Text) (ranges : List Range)
    → All HasBounds ranges
    → in_wal_ranges name ranges ≡ ok (any_covers name ranges)
unfolding in_wal_ranges any_covers
in_wal_ranges-covers name [] h = refl
in_wal_ranges-covers name (r ∷ ranges) h =
    let (a, b, e) = h.0 in
    rw (e, in_wal_ranges-covers name ranges h.1) (unfold in_wal_range in refl)

on_protected_timeline-eq :
    (timelines : List (Option ℕ)) (name : Text)
    → is_any_xlog_file name ≡ true
    → on_protected_timeline timelines name
      ≡ ok (timeline_of_in (decode_segment_name name) timelines)
unfolding on_protected_timeline
on_protected_timeline-eq [] name h =
    let (s, e) = decode-accepted name h in rw e (unfold timeline_in in refl)
on_protected_timeline-eq (t ∷ timelines) name h = let (s, e) = decode-accepted name h in rw e refl

-- The rows of some lines
abbrev pub AreRows : (Text → Result WalFileInfo) → List Text → List WalFileInfo → Type 0
AreRows read [] [] = Unit
AreRows read (line ∷ lines) (w ∷ rows) = (read line ≡ ok w) × AreRows read lines rows
AreRows read [] (w ∷ rows) = ⊥
AreRows read (line ∷ lines) [] = ⊥

module _ (backup_info : Option BackupInfo) (timelines : List (Option ℕ)) (ranges : List Range)
    (bounded : All HasBounds ranges) where
  keep_wal-eq :
      (name : Text)
      → is_any_xlog_file name ≡ true
      → keep_wal backup_info timelines ranges name ≡ ok (is_kept backup_info timelines ranges name)
  unfolding keep_wal
  keep_wal-eq name a =
      rw
        (
          on_protected_timeline-eq timelines name a,
          in_wal_ranges-covers (range_name name) ranges bounded,
          is_newer-eq backup_info name,
        )
        (unfold is_kept range_name in refl)

  pub sort_lines-select :
      (read : Text → Result WalFileInfo) (lines : List Text) (rows : List WalFileInfo)
      → AreRows read lines rows
      → sort_lines read backup_info timelines ranges lines
        ≡ ok (
          select (is_kept backup_info timelines ranges) rows,
          select (λ name. not (is_kept backup_info timelines ranges name)) rows,
        )
  unfolding sort_lines select
  sort_lines-select read [] [] h = refl
  sort_lines-select read (line ∷ lines) (w ∷ rows) h = elim (Bool-cases (is_any_xlog_file w.name)) [
    | inl a ↦
        rw (h.0, a, keep_wal-eq w.name a, sort_lines-select read lines rows h.1)
          (put_line-select w (is_kept backup_info timelines ranges w.name) _ _)
    | inr a ↦ rw (h.0, a, sort_lines-select read lines rows h.1) refl
  ]
  sort_lines-select read [] (w ∷ rows) h = absurd h
  sort_lines-select read (line ∷ lines) [] h = absurd h
