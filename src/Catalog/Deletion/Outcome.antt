-- ===== src/Catalog/Deletion/Outcome.antt =====
-- What a deletion that does not succeed leaves.
use mathlib.Core.Path.{subst}
use barman.Prelude.{
  sym, ◌≡◌, ◌⊎◌, refl, ap, ◌∙◌, Bool, true, false, Option, some, List, ◌∷◌, [], ◌++◌, if◌then◌else◌,
  inl, inr,
}
use barman.Text.{Text, text, text_eq}
use barman.Text.Order.{text_eq_refl}
use barman.Result.{Result, ok, err}
use barman.Backup.{BackupInfo, status_copy_done}
use barman.Annotations.{get_keep_target}
use barman.Annotations.Keeping.{get-put_annotation}
use barman.Catalog.{Backups, Range, with_status, should_remove_wals, find_next_backup_in}
use barman.Dict.{get, remove, keys}
use barman.Dict.Laws.{IsDistinct, get-remove}
use barman.Catalog.Deletion.{
  Manager, Outside, Called, after_call, delete_key, put_delete_annotation, check_delete_annotation,
  release_delete_annotation, all_backups, load, remove_wals, delete_basebackup, forget_backup,
  delete_directory, delete_partly, delete_data, delete_backup, leave_parent, stored_parent,
}

after_call-ok {ℓ κ} :
    {V : Type ℓ} {W : Type κ} {w : W} {after : Manager} (r : Result V) (m : Manager)
    (rest : V → Called W)
    → after_call r m rest ≡ (ok w, after)
    → (v : V) × (r ≡ ok v) × (rest v ≡ (ok w, after))
after_call-ok (err e) m rest h = cc
after_call-ok (ok v) m rest h = (v, refl, h)

never_false :
    {V : Type 0} (r : Result V) (m after : Manager) (rest : V → Manager)
    → after_call r m (λ v. (ok true, rest v)) ≡ (ok false, after)
    → ⊥
never_false (err e) m after rest h = cc h
never_false (ok v) m after rest h = cc h

never_false_after :
    {V : Type 0} (r : Result V) (m after : Manager) (rest : V → Called Bool)
    → ((v : V) → rest v ≡ (ok false, after) → ⊥)
    → after_call r m rest ≡ (ok false, after)
    → ⊥
never_false_after (err e) m after rest never h = cc h
never_false_after (ok v) m after rest never h = never v h

forget_backup-true :
    (out : Outside) (b : BackupInfo) (next : Option BackupInfo) (m after : Manager)
    → forget_backup out b next m ≡ (ok false, after)
    → ⊥
unfolding forget_backup
forget_backup-true out b next m after h =
    let left : Called (Unit {0}) = leave_parent b (stored_parent m.stored b.parent_backup_id) m in
    never_false_after left.0 left.1 after _ (λ v. never_false _ _ after _) h

if_false :
    (test : Bool) (m after : Manager) (rest : Called Bool)
    → (if test then rest else (ok false, m)) ≡ (ok false, after)
    → ((test ≡ false) × (after ≡ m)) ⊎ ((test ≡ true) × (rest ≡ (ok false, after)))
if_false true m after rest h = inr (refl, h)
if_false false m after rest h = inl (refl, cc)

-- The other backups are on disk as before.
abbrev pub KeepsOthers : Text → Backups → Backups → Type 0
KeepsOthers backup_id stored after =
    (j : Text) → text_eq backup_id j ≡ false → get after j ≡ get stored j

delete_partly-KeepsOthers :
    (out : Outside) (backup_id : Text) (m : Manager)
    → IsDistinct (keys m.stored)
    → KeepsOthers backup_id m.stored (delete_partly out backup_id m).stored
unfolding delete_partly
delete_partly-KeepsOthers out backup_id m distinct j other = either out.leaves_info
  where
    either : (b : Bool) → get (if b then m.stored else remove m.stored backup_id) j ≡ get m.stored j
    either true = refl
    either false = get-remove m.stored backup_id j distinct ∙ rw other refl

delete_directory-false :
    (out : Outside) (b : BackupInfo) (next : Option BackupInfo) (m after : Manager)
    → IsDistinct (keys m.stored)
    → delete_directory out b next m ≡ (ok false, after)
    → (out.deletes_directory ≡ false) × KeepsOthers b.backup_id m.stored after.stored
unfolding delete_directory release_delete_annotation
delete_directory-false out b next m after distinct h =
    let released : Manager = release_delete_annotation b.backup_id m in
    elim (if_false out.deletes_directory (delete_partly out b.backup_id released) after
      (forget_backup out b next (delete_basebackup b.backup_id released)) h) [
        | inl told ↦ (
          told.0,
          λ j other.
              ap (λ (s : Manager). get s.stored j) told.1
              ∙ delete_partly-KeepsOthers out b.backup_id released distinct j other,
        )
        | inr told ↦
            absurd
              (forget_backup-true out b next (delete_basebackup b.backup_id released) after told.1)
      ]

-- A deletion of WAL files leaves the backups.
removed_keeps :
    (out : Outside) (b : BackupInfo) (next : Option BackupInfo) (should_remove : Bool)
    (ranges : List Range) (m : Manager)
    → (if should_remove then remove_wals out b next ranges m else (ok [], m)).1.stored ≡ m.stored
unfolding remove_wals
removed_keeps out b next false ranges m = refl
removed_keeps out b next true ranges m = refl

delete_data-false :
    (out : Outside) (b : BackupInfo) (decision : Bool × List Range) (next : Option BackupInfo)
    (m after : Manager)
    → IsDistinct (keys m.stored)
    → delete_data out b decision next m ≡ (ok false, after)
    → ((out.deletes_data ≡ false) × (after ≡ m))
      ⊎ ((out.deletes_data ≡ true)
          × ((out.deletes_directory ≡ false) × KeepsOthers b.backup_id m.stored after.stored))
unfolding delete_data
delete_data-false out b (should_remove, ranges) next m after distinct h =
    let removed : Called (List Text) =
      if should_remove then remove_wals out b next ranges m else (ok [], m) in
    let same : removed.1.stored ≡ m.stored = removed_keeps out b next should_remove ranges m in
    elim (if_false out.deletes_data m after
      (after_call removed.0 removed.1 (λ done. delete_directory out b next removed.1)) h) [
        | inl told ↦ inl told
        | inr told ↦
            let (names, went, last) =
              after_call-ok removed.0 removed.1 (λ done. delete_directory out b next removed.1)
                told.1 in
            let stays =
              delete_directory-false out b next removed.1 after
                (subst (λ d. IsDistinct (keys d)) (sym same) distinct) last in
            inr (told.0, (stays.0, λ j other. stays.1 j other ∙ ap (λ (d : Backups). get d j) same))
      ]

marked-check :
    (backup_id : Text) (m : Manager)
    → check_delete_annotation backup_id (load (put_delete_annotation backup_id m)) ≡ true
unfolding check_delete_annotation load put_delete_annotation
marked-check backup_id m =
    rw
      (
        get-put_annotation m.annotations backup_id delete_key (some (text "delete")) backup_id
            delete_key,
        text_eq_refl backup_id,
        text_eq_refl delete_key,
      )
      refl

-- A deletion that returns `False` has failed in one of two ways. The data of the backup could not be
-- deleted: then all `backup.info` files, the xlogdb and the WAL files are as before, and the delete
-- annotation tells the next run of the retention policy to try again. Or the data went and the
-- directory could not be deleted as a whole: then the `backup.info` files of all other backups are as
-- before.
pub delete_backup-false :
    (out : Outside) (skip : Bool) (b : BackupInfo) (m after : Manager)
    → IsDistinct (keys m.stored)
    → delete_backup out skip b m ≡ (ok false, after)
    → ((out.deletes_data ≡ false)
        × (after.stored ≡ m.stored)
        × (after.xlogdb ≡ m.xlogdb)
        × (after.archive ≡ m.archive)
        × (check_delete_annotation b.backup_id after ≡ true))
      ⊎ ((out.deletes_data ≡ true)
          × (out.deletes_directory ≡ false)
          × KeepsOthers b.backup_id m.stored after.stored)
unfolding delete_backup load put_delete_annotation
delete_backup-false out skip b m after distinct h =
    let m1 : Manager = load (put_delete_annotation b.backup_id m) in
    let available : Backups = with_status (status_copy_done ++ b.status ∷ []) (all_backups m1) in
    let (u, ran, h1) = after_call-ok out.pre_delete (put_delete_annotation b.backup_id m) _ h in
    let (decision, decided, h2) =
      after_call-ok
        (should_remove_wals b available (λ bid. get_keep_target bid m1.annotations) skip
          status_copy_done)
        m1 _ h1 in
    let (next, found, h3) =
      after_call-ok (find_next_backup_in available b.backup_id status_copy_done) m1 _ h2 in
    elim (delete_data-false out b decision next m1 after distinct h3) [
      | inl told ↦ inl (
        told.0,
        ap (λ (s : Manager). s.stored) told.1,
        ap (λ (s : Manager). s.xlogdb) told.1,
        ap (λ (s : Manager). s.archive) told.1,
        ap (check_delete_annotation b.backup_id) told.1 ∙ marked-check b.backup_id m,
      )
      | inr told ↦ inr (told.0, told.1.0, told.1.1)
    ]
