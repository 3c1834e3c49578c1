-- ===== src/Server/Deletion/Order.antt =====
-- The order in which a tree of backups is deleted.
use mathlib.Core.List.{append-nil}
use barman.Prelude.{
  ℕ, ◌≡◌, refl, sym, ap, Bool, true, false, ◌&&◌, ◌||◌, List, [], ◌∷◌, ◌++◌, length, leb, All,
  if◌then◌else◌, suc,
}
use barman.Text.{text_eq}
use barman.Text.Order.{text_eq_refl}
use barman.Result.{Result, ok, err}
use barman.Backup.{BackupInfo, done, status_eq}
use barman.Backup.Tree.{Disk, walk_backups_tree, walk_children, children}
use barman.Catalog.{Backups, with_status}
use barman.Server.Deletion.{Locking, delete_tree, delete_backup, go_on, flag, under_lock}

walk_ends_at_root :
    (fuel : ℕ) (disk : Disk) (b : BackupInfo)
    → walk_backups_tree (suc fuel) disk true b ≡ walk_backups_tree (suc fuel) disk false b ++ b ∷ []
unfolding walk_backups_tree
walk_ends_at_root fuel disk b =
    ap (λ (l : List BackupInfo). l ++ b ∷ [])
      (sym (append-nil (walk_children (walk_backups_tree fuel disk true) disk (children b))))

module _ {ℓ} {S : Type ℓ} where
  abbrev stop_or : Result Bool × S → (S → Result Bool × S) → Result Bool × S
  stop_or (err e, s) rest = (err e, s)
  stop_or (ok false, s) rest = (ok false, s)
  stop_or (ok true, s) rest = rest s

  -- Calls in turn, of which the first that does not succeed ends all; then the last call
  unfoldable pub in_turn :
      (BackupInfo → S → Result Bool × S)
      → List BackupInfo
      → (S → Result Bool × S)
      → S
      → Result Bool × S
  in_turn perform [] last s = last s
  in_turn perform (b ∷ l) last s = stop_or (perform b s) (in_turn perform l last)

  last_call :
      (perform : BackupInfo → S → Result Bool × S) (root : BackupInfo) (deleted : Bool) (s : S)
      → delete_tree perform root.backup_id (root ∷ []) deleted s ≡ perform root s
  unfolding delete_tree
  last_call perform root deleted s = by_result (perform root s) (text_eq_refl root.backup_id)
    where
      by_result :
          (called : Result Bool × S)
          → text_eq root.backup_id root.backup_id ≡ true
          → go_on (text_eq root.backup_id root.backup_id) called (ok (flag called.0), called.1)
            ≡ called
      by_result (err e, after) h = refl
      by_result (ok true, after) h = refl
      by_result (ok false, after) h = rw h refl

  other_call :
      (called : Result Bool × S) (is_root : Bool) (tree : Bool → S → Result Bool × S)
      (rest : S → Result Bool × S)
      → is_root ≡ false
      → ((d : Bool) (s : S) → tree d s ≡ rest s)
      → go_on is_root called (tree (flag called.0) called.1) ≡ stop_or called rest
  other_call (err e, after) is_root tree rest h same = refl
  other_call (ok true, after) is_root tree rest h same = same true after
  other_call (ok false, after) is_root tree rest h same = rw h refl

  delete_tree-in_turn :
      (perform : BackupInfo → S → Result Bool × S) (root : BackupInfo) (l : List BackupInfo)
      (deleted : Bool) (s : S)
      → All (λ (b : BackupInfo). text_eq b.backup_id root.backup_id ≡ false) l
      → delete_tree perform root.backup_id (l ++ root ∷ []) deleted s
        ≡ in_turn perform l (perform root) s
  unfolding in_turn delete_tree
  delete_tree-in_turn perform root [] deleted s h = last_call perform root deleted s
  delete_tree-in_turn perform root (b ∷ l) deleted s (other, h) =
      other_call (perform b s) (text_eq b.backup_id root.backup_id)
        (delete_tree perform root.backup_id (l ++ root ∷ [])) (in_turn perform l (perform root))
        other (λ d after. delete_tree-in_turn perform root l d after h)

  -- A backup that is not kept, and that is not DONE or stands among more DONE backups than the minimum
  -- redundancy, is deleted under the lock of the server only after all that depend on it, in the order
  -- of the walk, each only if the ones before have been deleted; the first that is not, or that
  -- raises, ends the deletion. In all other cases nothing is done. The ids of those that depend on
  -- the backup are not its own.
  pub delete_backup-in_turn :
      (perform : BackupInfo → S → Result Bool × S) (backups : Backups) (minimum_redundancy : ℕ)
      (is_kept : Bool) (locking : Locking) (fuel : ℕ) (disk : Disk) (backup : BackupInfo) (s : S)
      → All
          (λ (b : BackupInfo). text_eq b.backup_id backup.backup_id ≡ false)
          (walk_backups_tree (suc fuel) disk false backup)
      → delete_backup perform backups minimum_redundancy is_kept locking (suc fuel) disk backup s
        ≡ (if is_kept
              || (status_eq backup.status done
                  && leb (length (with_status (done ∷ []) backups)) minimum_redundancy)
            then (ok false, s)
            else under_lock locking s (
                in_turn perform
                  (walk_backups_tree (suc fuel) disk false backup)
                  (perform backup)
                  s))
  unfolding delete_backup
  delete_backup-in_turn perform backups m is_kept locking fuel disk backup s h =
      let walked = walk_ends_at_root fuel disk backup in
      let turn =
        delete_tree-in_turn perform backup (walk_backups_tree (suc fuel) disk false backup) false s
          h in
      by_guards is_kept
        (status_eq backup.status done && leb (length (with_status (done ∷ []) backups)) m)
        (under_lock locking s (
          delete_tree perform backup.backup_id (walk_backups_tree (suc fuel) disk true backup) false
            s))
        (under_lock locking s
          (in_turn perform (walk_backups_tree (suc fuel) disk false backup) (perform backup) s))
        (rw (walked, turn) refl)
    where
      by_guards :
          (kept scarce : Bool) (x y : Result Bool × S)
          → x ≡ y
          → (if kept then (ok false, s) else if scarce then (ok false, s) else x)
            ≡ (if kept || scarce then (ok false, s) else y)
      by_guards true scarce x y e = refl
      by_guards false true x y e = refl
      by_guards false false x y e = e
