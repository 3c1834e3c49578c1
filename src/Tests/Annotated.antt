-- ===== src/Tests/Annotated.antt =====
-- The theorems on annotations at a store with one annotation.
use barman.Prelude.{
  ◌≡◌, refl, true, false, none, some, [], ◌∷◌, if◌then◌else◌, Bool-cases, inl, inr,
}
use barman.Text.{Text, text, text_eq, text_in}
use barman.Dict.{get}
use barman.Result.{ok, err, archival_backup}
use barman.Annotations.{Store, supported_targets, keep_backup, get_keep_target, release_keep}
use barman.Annotations.Keeping.{IsStore, keep_backup-get_keep_target, release_keep-get_keep_target}
use barman.Tests.Data.{id1, id2}

abbrev store : Store
store = (id1, (text "keep", text "full") ∷ (text "note", []) ∷ []) ∷ []

store-IsStore : IsStore store
unfolding get text_eq
store-IsStore = record {
  backups = (tt, tt);
  files = λ bid. elim (Bool-cases (text_eq id1 bid)) [
    | inl e ↦ rw e ((refl, tt), (tt, tt))
    | inr n ↦ rw n tt
  ];
}

keep_backup-get_keep_target_example :
    (text_in (text "full") supported_targets ≡ true
      → (s : Store) × (keep_backup id2 (text "full") store ≡ ok s)
        × ((b : Text)
            → get_keep_target b s
              ≡ (if text_eq id2 b then some (text "full") else get_keep_target b store)))
    × (text_in (text "full") supported_targets ≡ false
        → keep_backup id2 (text "full") store ≡ err archival_backup)
keep_backup-get_keep_target_example = keep_backup-get_keep_target store id2 (text "full")

release_keep-get_keep_target_example :
    get_keep_target id1 (release_keep id1 store)
    ≡ (if text_eq id1 id1 then none else get_keep_target id1 store)
release_keep-get_keep_target_example = release_keep-get_keep_target store id1 id1 store-IsStore
