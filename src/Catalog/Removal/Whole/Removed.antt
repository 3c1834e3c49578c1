-- ===== src/Catalog/Removal/Whole/Removed.antt =====
-- What `remove_wal_before_backup` leaves in the xlogdb, and which files it deletes.
use mathlib.Core.List.{append-nil, append_assoc}
use barman.Prelude.{
  ℕ, ◌≡◌, ◌⊎◌, inl, inr, refl, sym, ap, ◌∙◌, Bool, true, false, not, Option, List, [], ◌∷◌, ◌++◌,
  map, All, Bool-cases, if◌then◌else◌,
}
use barman.Text.{Text, text_eq}
use barman.Text.Order.{text_eq_iff}
use barman.Dict.{Dict, get, put}
use barman.Dict.Laws.{get-put}
use barman.Result.{Result, ok, err, Error}
use barman.Backup.{BackupInfo}
use barman.Xlog.Name.{hash_dir, hash_prefix, is_any_xlog_file}
use barman.Xlog.Name.Kinds.{decode-accepted}
use barman.Catalog.{Range}
use barman.Catalog.Removal.{WalFileInfo}
use barman.Catalog.Removal.Kept.{AreRows, HasBounds, is_kept, select, sort_lines-select}
use barman.Catalog.Removal.Line.{to_xlogdb_line, from_xlogdb_line}
use barman.Catalog.Removal.Deleting.{Archive, delete_wals}
use barman.Catalog.Removal.Whole.{
  Setting, Logged, dir_of, listed, group_by_dir, new_log, remove_sorted, remove_wal_before_backup,
}

-- Whether a file stands in a directory of the archive
abbrev pub stands_at : Text → Text → Result Text → Bool
stands_at wals dir (ok hash) = text_eq (dir_of wals hash) dir
stands_at wals dir (err e) = false

abbrev pub stands_in : Text → Text → WalFileInfo → Bool
stands_in wals dir w = stands_at wals dir (hash_dir w.name)

unfoldable pub in_dir : Text → Text → List WalFileInfo → List WalFileInfo
in_dir wals dir [] = []
in_dir wals dir (w ∷ l) =
    let rest = in_dir wals dir l in if stands_in wals dir w then w ∷ rest else rest

abbrev HasHash : WalFileInfo → Type 0
HasHash w = (hash : Text) × (hash_dir w.name ≡ ok hash)

listed-put :
    (groups : Dict (List WalFileInfo)) (dir j : Text) (l : List WalFileInfo)
    → listed (get (put groups dir (listed (get groups dir) ++ l)) j)
      ≡ listed (get groups j) ++ (if text_eq dir j then l else [])
listed-put groups dir j l =
    ap listed (get-put groups dir j (listed (get groups dir) ++ l))
    ∙ (elim (Bool-cases (text_eq dir j)) [
      | inl y ↦ let same : dir ≡ j = (text_eq_iff dir j).0 y in rw (y, same) refl
      | inr n ↦ rw (n, append-nil (listed (get groups j))) refl
    ])

one_more :
    (b : Bool) (w : WalFileInfo) (l : List WalFileInfo)
    → (if b then w ∷ [] else []) ++ l ≡ (if b then w ∷ l else l)
one_more true w l = refl
one_more false w l = refl

group_by_dir-in_dir :
    (wals : Text) (groups : Dict (List WalFileInfo)) (l : List WalFileInfo)
    → All HasHash l
    → (all : Dict (List WalFileInfo)) × (group_by_dir wals groups l ≡ ok all)
      × ((j : Text) → listed (get all j) ≡ listed (get groups j) ++ in_dir wals j l)
unfolding group_by_dir in_dir
group_by_dir-in_dir wals groups [] h = (groups, refl, λ j. sym (append-nil (listed (get groups j))))
group_by_dir-in_dir wals groups (w ∷ l) ((hash, e), h) =
    let dir : Text = dir_of wals hash in
    let (all, done, lists) =
      group_by_dir-in_dir wals (put groups dir (listed (get groups dir) ++ w ∷ [])) l h in
    (
      all,
      rw e done,
      λ j.
          lists j
          ∙ (ap (λ t. t ++ in_dir wals j l) (listed-put groups dir j (w ∷ []))
              ∙ (append_assoc (listed (get groups j)) (if text_eq dir j then w ∷ [] else [])
                    (in_dir wals j l)
                  ∙ ap (λ t. listed (get groups j) ++ t)
                      (rw e (one_more (text_eq dir j) w (in_dir wals j l))))),
    )

accepted-HasHash : (w : WalFileInfo) → is_any_xlog_file w.name ≡ true → HasHash w
unfolding hash_dir
accepted-HasHash w a = let (s, e) = decode-accepted w.name a in (hash_prefix s, rw e refl)

select-HasHash : (p : Text → Bool) (l : List WalFileInfo) → All HasHash (select p l)
unfolding select
select-HasHash p [] = tt
select-HasHash p (w ∷ l) = elim (Bool-cases (is_any_xlog_file w.name)) [
  | inr n ↦ rw n (select-HasHash p l)
  | inl a ↦ rw a (either (p w.name) (select p l) (accepted-HasHash w a) (select-HasHash p l))
]
  where
    either :
        (b : Bool) (rest : List WalFileInfo)
        → HasHash w
        → All HasHash rest
        → All HasHash (if b then w ∷ rest else rest)
    either true rest here later = (here, later)
    either false rest here later = later

-- The deletion has gone through, and the rows that are kept are the new xlogdb; or it has raised, and
-- the xlogdb is the old one.
abbrev pub IsRemoved :
    Setting
    → List Text
    → List WalFileInfo
    → Result (List Text) × Archive
    → Result (List Text) × Logged
    → Type 0
IsRemoved setting lines kept deletion called =
    ((names : List Text) × (archive : Archive) × (deletion ≡ (ok names, archive))
      × (called ≡ (ok names, (map (to_xlogdb_line setting.times) kept, archive))))
    ⊎ ((e : Error) × (archive : Archive) × (deletion ≡ (err e, archive))
        × (called ≡ (err e, (lines, archive))))

new_log-IsRemoved :
    (setting : Setting) (lines : List Text) (kept : List WalFileInfo)
    (deletion : Result (List Text) × Archive)
    → IsRemoved setting lines kept deletion (new_log setting.times kept lines deletion)
new_log-IsRemoved setting lines kept (ok names, archive) = inl (names, archive, refl, refl)
new_log-IsRemoved setting lines kept (err e, archive) = inr (e, archive, refl, refl)

-- If all lines of the xlogdb can be read and both bounds of every protected range are known: of the
-- rows with a valid name those are kept that are of history files, of the protected timelines, of the
-- protected ranges or from the beginning of the backup on. `delete_wals` is called with all the others,
-- under the directory of each and in their order. If it goes through, the new xlogdb has the lines of
-- the rows that are kept, in their order; if it raises, so does the removal, and the xlogdb is as before.
pub remove_wals-select :
    (setting : Setting) (backup_info : Option BackupInfo) (timelines : List (Option ℕ))
    (ranges : List Range) (lines : List Text) (rows : List WalFileInfo) (archive : Archive)
    → All HasBounds ranges
    → AreRows (from_xlogdb_line setting.times) lines rows
    → (groups : Dict (List WalFileInfo)) × ((dir : Text)
        → listed (get groups dir)
          ≡ in_dir setting.wals_directory dir
              (select (λ name. not (is_kept backup_info timelines ranges name)) rows))
      × IsRemoved setting lines
          (select (is_kept backup_info timelines ranges) rows)
          (delete_wals setting.pre_wal_delete groups archive)
          (remove_wal_before_backup setting backup_info timelines ranges (lines, archive))
unfolding remove_wal_before_backup
remove_wals-select setting backup_info timelines ranges lines rows archive bounded read =
    let kept = select (is_kept backup_info timelines ranges) rows in
    let removed = select (λ name. not (is_kept backup_info timelines ranges name)) rows in
    let (groups, grouped, lists) =
      group_by_dir-in_dir setting.wals_directory [] removed
        (select-HasHash (λ name. not (is_kept backup_info timelines ranges name)) rows) in
    (
      groups,
      λ dir. lists dir ∙ (unfold get in refl),
      rw
          (
            sort_lines-select backup_info timelines ranges bounded (from_xlogdb_line setting.times)
                lines rows read,
            remove_sorted,
            grouped,
          )
          (new_log-IsRemoved setting lines kept
            (delete_wals setting.pre_wal_delete groups archive)),
    )
