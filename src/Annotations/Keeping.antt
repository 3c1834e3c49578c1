-- ===== src/Annotations/Keeping.antt =====
-- What is read of the annotations after a change.
use barman.Prelude.{
  ◌≡◌, refl, ◌∙◌, true, false, ◌&&◌, Option, none, some, [], ◌∷◌, arith, Bool-cases, Option-cases,
  inl, inr, ◌⊎◌, if◌then◌else◌,
}
use barman.Text.{Text, text_eq, text_in}
use barman.Text.Order.{text_eq→eq, text_eq_refl}
use barman.Dict.{Dict, get, put, remove, keys}
use barman.Dict.Laws.{get-put, get-remove, IsDistinct}
use barman.Result.{ok, err, archival_backup}
use barman.Annotations.{
  Store, files_of, content, get_annotation, put_annotation, remove_directory, delete_annotation,
  annotation_key, supported_targets, keep_backup, get_keep_target, release_keep,
}

-- No backup has two directories, and no directory has two files of a name.
pub record IsStore (store : Store) : Type 0 where
  pub backups : IsDistinct (keys store)
  pub files : (bid : Text) → IsDistinct (keys (files_of (get store bid)))

-- An annotation that is put is read back, and no other is changed; putting `None` puts the empty
-- text.
pub get-put_annotation :
    (store : Store) (bid key : Text) (value : Option Text) (other_bid other_key : Text)
    → get_annotation other_bid other_key (put_annotation bid key value store) ≡ (
        if text_eq bid other_bid && text_eq key other_key
        then some (content value)
        else get_annotation other_bid other_key store)
unfolding get_annotation put_annotation
get-put_annotation store bid key value b k = elim (Bool-cases (text_eq bid b)) [
  | inl e ↦
      let same : bid ≡ b = text_eq→eq bid b e in
      rw (get-put store bid b (put (files_of (get store bid)) key (content value)), e)
        (get-put (files_of (get store bid)) key k (content value) ∙ rw same refl)
  | inr n ↦ rw (get-put store bid b (put (files_of (get store bid)) key (content value)), n) refl
]

-- What stands in the directories after a file has been removed from one of them
get-remove_directory :
    (store : Store) (bid b : Text) (files : Dict Text)
    → IsDistinct (keys store)
    → files_of (get (remove_directory bid files store) b)
      ≡ (if text_eq bid b then files else files_of (get store b))
get-remove_directory store bid b [] h = rw (get-remove store bid b h) (ground arith)
get-remove_directory store bid b (x ∷ files) h = rw (get-put store bid b (x ∷ files)) (ground arith)

-- An annotation that is deleted is gone, also where it was not there, and no other is changed.
pub get-delete_annotation :
    (store : Store) (bid key other_bid other_key : Text)
    → IsStore store
    → get_annotation other_bid other_key (delete_annotation bid key store) ≡ (
        if text_eq bid other_bid && text_eq key other_key
        then none
        else get_annotation other_bid other_key store)
unfolding get_annotation delete_annotation
get-delete_annotation store bid key b k h =
    elim (Option-cases (get (files_of (get store bid)) key)) [
      | inl missing ↦ rw missing (absent missing)
      | inr (v, found) ↦
          rw
            (
              found,
              get-remove_directory store bid b (remove (files_of (get store bid)) key) h.backups,
            )
            (present (Bool-cases (text_eq bid b)))
    ]
  where
    present :
        (text_eq bid b ≡ true) ⊎ (text_eq bid b ≡ false)
        → get
            (if text_eq bid b
              then remove (files_of (get store bid)) key
              else files_of (get store b))
            k
          ≡ (if text_eq bid b && text_eq key k then none else get (files_of (get store b)) k)
    present (inl e) =
        let same : bid ≡ b = text_eq→eq bid b e in
        rw e (get-remove (files_of (get store bid)) key k (h.files bid) ∙ rw same refl)
    present (inr n) = rw n refl

    absent :
        get (files_of (get store bid)) key ≡ none
        → get (files_of (get store b)) k
          ≡ (if text_eq bid b && text_eq key k then none else get (files_of (get store b)) k)
    absent missing = elim (Bool-cases (text_eq bid b && text_eq key k)) [
      | inl both ↦
          let e : (text_eq bid b ≡ true) × (text_eq key k ≡ true) = ground arith in
          let same : bid ≡ b = text_eq→eq bid b e.0 in
          let same' : key ≡ k = text_eq→eq key k e.1 in rw both (rw (same, same') at missing)
      | inr n ↦ rw n refl
    ]

-- A backup that is kept has its target, which is one of the two that are supported, and the
-- other backups have the targets that they had; another target is refused.
pub keep_backup-get_keep_target :
    (store : Store) (bid target : Text)
    → (text_in target supported_targets ≡ true
        → (s : Store) × (keep_backup bid target store ≡ ok s)
          × ((b : Text)
              → get_keep_target b s
                ≡ (if text_eq bid b then some target else get_keep_target b store)))
      × (text_in target supported_targets ≡ false
          → keep_backup bid target store ≡ err archival_backup)
unfolding keep_backup get_keep_target
keep_backup-get_keep_target store bid target = (
  λ h. (
    put_annotation bid annotation_key (some target) store,
    rw h refl,
    λ b.
        get-put_annotation store bid annotation_key (some target) b annotation_key
        ∙ rw (text_eq_refl annotation_key) (ground arith),
  ),
  λ h. rw h refl,
)

-- After the release no target is left of the backup, and the other backups have the targets that
-- they had.
pub release_keep-get_keep_target :
    (store : Store) (bid b : Text)
    → IsStore store
    → get_keep_target b (release_keep bid store)
      ≡ (if text_eq bid b then none else get_keep_target b store)
unfolding release_keep get_keep_target
release_keep-get_keep_target store bid b h =
    get-delete_annotation store bid annotation_key b annotation_key h
    ∙ rw (text_eq_refl annotation_key) (ground arith)
