-- ===== src/Retention/Forest.antt =====
-- What the reports of the two policies share: the backups of a forest, in the order of the loop.
use mathlib.Core.Path.{subst}
use barman.Prelude.{
  Option, none, some, ℕ, ◌+◌, ◌≡◌, refl, ◌∙◌, Bool, false, ◌&&◌, not, List, [], ◌∷◌, ◌++◌, arith,
  All, All-drop, All-map, if◌then◌else◌,
}
use barman.Text.{Text, text, text_eq}
use barman.Text.Order.{text_eq_iff}
use barman.Text.Sort.{sort_desc, Pairwise, Pairwise-drop, All-sort_by, sort_by-Pairwise, descending}
use barman.Dict.{Dict, get, put}
use barman.Dict.Laws.{get-put}
use barman.Backup.{
  BackupInfo, RetentionStatus, keep_full, keep_standalone, done, status_eq, is_incremental,
}
use barman.Retention.{propagate}

abbrev pub Item : Type 0
Item = Text × BackupInfo

-- A root backup that is done: one that counts for the redundancy.
unfoldable pub counts : Item → Bool
counts (bid, b) = not (is_incremental b) && status_eq b.status done

unfoldable pub done_roots : List Item → ℕ
unfolding counts
done_roots [] = 0
done_roots (x ∷ items) = if counts x then done_roots items + 1 else done_roots items

-- What a keep target makes of a status: no target, or an empty one, leaves it.
unfoldable pub kept_or : Option Text → RetentionStatus → RetentionStatus
kept_or none status = status
kept_or (some []) status = status
kept_or (some (c ∷ target)) status =
    if text_eq (c ∷ target) (text "standalone") then keep_standalone else keep_full

-- No backup of the list has the id `k`.
abbrev pub Avoids : Text → List BackupInfo → Type 0
Avoids k = All (λ c. text_eq c.backup_id k ≡ false)

pub get-propagate :
    (l : List BackupInfo) (report : Dict RetentionStatus) (s : RetentionStatus) (k : Text)
    → Avoids k l
    → get (propagate l report s) k ≡ get report k
unfolding propagate
get-propagate [] report s k h = refl
get-propagate (c ∷ l) report s k h =
    get-propagate l (put report c.backup_id s) s k h.1 ∙ rw (get-put report c.backup_id k s, h.0)

-- A catalogue that the report can rank: the ids are distinct, and no descendant of a root backup
-- is a root backup itself.
pub record IsForest (walk : BackupInfo → List BackupInfo) (source : List Item) : Type 0 where
  pub distinct : Pairwise (λ x y. text_eq x.0 y.0 ≡ false) source
  pub apart :
      All
        (λ x.
          is_incremental x.1 ≡ false
          → All (λ y. is_incremental y.1 ≡ false → Avoids y.0 (walk x.1)) source)
        source

text_ne_symm : (s t : Text) → text_eq s t ≡ false → text_eq t s ≡ false
text_ne_symm s t h = ground (arith, text_eq_iff s t, text_eq_iff t s)

-- A backup that is another one than `k`, and that has no descendant `k` if it is a root.
pub record IsApart (walk : BackupInfo → List BackupInfo) (k : Text) (x : Item) : Type 0 where
  pub other : text_eq x.0 k ≡ false
  pub descendants : is_incremental x.1 ≡ false → Avoids k (walk x.1)

module _ (walk : BackupInfo → List BackupInfo) (source pre post : List Item) (bid : Text)
    (b : BackupInfo) (forest : IsForest walk source)
    (split : sort_desc (λ item. item.0) source ≡ pre ++ (bid, b) ∷ post)
    (root : is_incremental b ≡ false) where
  -- What holds of all backups of the source holds of this one and of those behind it.
  from_source : (P : Item → Type 0) → All P source → All P ((bid, b) ∷ post)
  from_source P h = All-drop P pre ((bid, b) ∷ post) (
      subst (All P) split
        (unfold sort_desc in All-sort_by (descending (λ item. item.0)) P source h))

  others_distinct : All (λ y. text_eq bid y.0 ≡ false) post
  others_distinct =
      let R = λ (x y : Item). text_eq x.0 y.0 ≡ false in
      (Pairwise-drop R pre ((bid, b) ∷ post) (
        subst (Pairwise R) split (
          unfold sort_desc in
          sort_by-Pairwise (descending (λ item. item.0)) R (λ x y. text_ne_symm x.0 y.0) source
            forest.distinct))).0

  -- Of the roots of the source, none has this backup's id for a descendant.
  apart_here : All (λ x. is_incremental x.1 ≡ false → Avoids bid (walk x.1)) ((bid, b) ∷ post)
  apart_here =
      All-map
        (λ x h e.
          (from_source (λ y. is_incremental y.1 ≡ false → Avoids y.0 (walk x.1)) (h e)).0 root)
        ((bid, b) ∷ post) (from_source _ forest.apart)

  IsApart-from_All :
      (l : List Item)
      → All (λ y. text_eq bid y.0 ≡ false) l
      → All (λ x. is_incremental x.1 ≡ false → Avoids bid (walk x.1)) l
      → All (IsApart walk bid) l
  IsApart-from_All [] h k = tt
  IsApart-from_All (x ∷ l) h k =
      (record { other = text_ne_symm bid x.0 h.0; descendants = k.0 }, IsApart-from_All l h.1 k.1)

  -- The roots of the source do not have this backup's id, nor a descendant of that id.
  pub here-Avoids : Avoids bid (walk b)
  here-Avoids = apart_here.0 root

  pub behind-IsApart : All (IsApart walk bid) post
  behind-IsApart = IsApart-from_All post others_distinct apart_here.1
