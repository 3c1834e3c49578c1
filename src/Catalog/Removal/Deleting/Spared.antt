-- ===== src/Catalog/Removal/Deleting/Spared.antt =====
-- Which files a deletion of WAL files leaves.
use barman.Prelude.{
  ◌≡◌, ◌<◌, refl, ap, ◌∙◌, true, false, Option, none, some, List, [], ◌∷◌, length, leb, arith,
  Bool-cases, inl, inr,
}
use barman.Text.{Text, text_eq, text_in}
use barman.Text.Order.{text_eq_iff, text_eq_refl}
use barman.Dict.{get}
use barman.Dict.Laws.{get-put}
use barman.Result.{Result, ok, err}
use barman.Catalog.Removal.{WalFileInfo}
use barman.Catalog.Removal.Deleting.{
  Archive, Called, wal_names, is_subset, without_name, keep_directory, unlink, after_hook,
  delete_wal, then_rest, delete_each, by_listing, delete_in,
}

-- The names in a directory; a missing one has none.
abbrev pub listing : Option (List Text) → List Text
listing none = []
listing (some files) = files

-- A file of the archive
abbrev pub HasFile : Archive → Text → Text → Type 0
HasFile archive wal_dir name = text_in name (listing (get archive wal_dir)) ≡ true

text_in-is_subset :
    (name : Text) (files names : List Text)
    → is_subset files names ≡ true
    → text_in name files ≡ true
    → text_in name names ≡ true
unfolding is_subset text_in
text_in-is_subset name [] names s h = cc
text_in-is_subset name (t ∷ files) names s h = elim (Bool-cases (text_eq name t)) [
  | inl e ↦
      let same : name ≡ t = (text_eq_iff name t).0 e in
      let here : text_in t names ≡ true = ground arith in
      ap (λ (u : Text). text_in u names) same ∙ here
  | inr e ↦
      let rest : is_subset files names ≡ true = ground arith in
      let there : text_in name files ≡ true = ground arith in
      text_in-is_subset name files names rest there
]

text_in-without_name :
    (name other : Text) (files : List Text)
    → text_eq name other ≡ false
    → text_in name files ≡ true
    → text_in name (without_name other files) ≡ true
unfolding text_in without_name
text_in-without_name name other [] apart h = cc
text_in-without_name name other (t ∷ files) apart h = ground (
  arith,
  text_in-without_name name other files,
  text_eq_iff name t,
  text_eq_iff t other,
  text_eq_iff name other,
)

keep_directory-HasFile :
    (wal_dir name : Text) (files : List Text) (archive : Archive)
    → text_in name files ≡ true
    → HasFile (keep_directory wal_dir files archive) wal_dir name
keep_directory-HasFile wal_dir name [] archive h = unfold text_in in cc h
keep_directory-HasFile wal_dir name (t ∷ files) archive h =
    rw (get-put archive wal_dir wal_dir (t ∷ files), text_eq_refl wal_dir) h

unlink-HasFile :
    (wal_dir name other : Text) (o : Option (List Text)) (archive : Archive)
    → o ≡ get archive wal_dir
    → text_eq name other ≡ false
    → HasFile archive wal_dir name
    → HasFile (unlink wal_dir other o archive) wal_dir name
unlink-HasFile wal_dir name other none archive e apart h = h
unlink-HasFile wal_dir name other (some files) archive e apart h =
    keep_directory-HasFile wal_dir name (without_name other files) archive (
      text_in-without_name name other files apart
        (ap (λ (o : Option (List Text)). text_in name (listing o)) e ∙ h))

then_rest-HasFile :
    (wal_dir name : Text) (r : Result (Unit {0})) (archive : Archive) (rest : Called (Unit {0}))
    → HasFile archive wal_dir name
    → HasFile rest.1 wal_dir name
    → HasFile (then_rest r archive rest).1 wal_dir name
then_rest-HasFile wal_dir name (err e) archive rest h k = h
then_rest-HasFile wal_dir name (ok u) archive rest h k = k

after_hook-HasFile :
    (wal_dir name : Text) (r : Result (Unit {0})) (archive deleted : Archive)
    → HasFile archive wal_dir name
    → HasFile deleted wal_dir name
    → HasFile (after_hook r archive deleted).1 wal_dir name
after_hook-HasFile wal_dir name (err e) archive deleted h k = h
after_hook-HasFile wal_dir name (ok u) archive deleted h k = k

delete_wal-HasFile :
    (pre : WalFileInfo → Result (Unit {0})) (wal_dir name : Text) (w : WalFileInfo)
    (archive : Archive)
    → text_eq name w.name ≡ false
    → HasFile archive wal_dir name
    → HasFile (delete_wal pre wal_dir w archive).1 wal_dir name
unfolding delete_wal
delete_wal-HasFile pre wal_dir name w archive apart h =
    after_hook-HasFile wal_dir name (pre w) archive
      (unlink wal_dir w.name (get archive wal_dir) archive) h
      (unlink-HasFile wal_dir name w.name (get archive wal_dir) archive refl apart h)

delete_each-HasFile :
    (pre : WalFileInfo → Result (Unit {0})) (wal_dir name : Text) (l : List WalFileInfo)
    (archive : Archive)
    → text_in name (wal_names l) ≡ false
    → HasFile archive wal_dir name
    → HasFile (delete_each pre wal_dir l archive).1 wal_dir name
unfolding delete_each
delete_each-HasFile pre wal_dir name [] archive absent h = h
delete_each-HasFile pre wal_dir name (w ∷ l) archive absent h =
    let apart : text_eq name w.name ≡ false = unfold text_in in ground arith in
    let rest : text_in name (wal_names l) ≡ false = unfold text_in in ground arith in
    let called = delete_wal pre wal_dir w archive in
    let still = delete_wal-HasFile pre wal_dir name w archive apart h in
    then_rest-HasFile wal_dir name called.0 called.1 (delete_each pre wal_dir l called.1) still
      (delete_each-HasFile pre wal_dir name l called.1 rest still)

by_listing-HasFile :
    (pre : WalFileInfo → Result (Unit {0})) (wal_dir name : Text) (l : List WalFileInfo)
    (o : Option (List Text)) (archive : Archive)
    → o ≡ get archive wal_dir
    → text_in name (wal_names l) ≡ false
    → HasFile archive wal_dir name
    → HasFile (by_listing pre wal_dir l o archive).1 wal_dir name
by_listing-HasFile pre wal_dir name l none archive e absent h = h
by_listing-HasFile pre wal_dir name l (some files) archive e absent h =
    elim (Bool-cases (is_subset files (wal_names l))) [
      | inl all ↦
          let here : text_in name files ≡ true =
            ap (λ (o : Option (List Text)). text_in name (listing o)) e ∙ h in
          cc (absent, text_in-is_subset name files (wal_names l) all here)
      | inr some_kept ↦ rw some_kept (delete_each-HasFile pre wal_dir name l archive absent h)
    ]

-- With fewer than 256 files to delete in a directory, every other file of the directory stays,
-- whatever the hooks do.
pub delete_in-HasFile :
    (pre : WalFileInfo → Result (Unit {0})) (wal_dir name : Text) (wal_list : List WalFileInfo)
    (archive : Archive)
    → length wal_list < 256
    → text_in name (wal_names wal_list) ≡ false
    → HasFile archive wal_dir name
    → HasFile (delete_in pre wal_dir wal_list archive).1 wal_dir name
unfolding delete_in
delete_in-HasFile pre wal_dir name l archive few absent h =
    let small : leb 256 (length l) ≡ false = ground arith in
    rw small (by_listing-HasFile pre wal_dir name l (get archive wal_dir) archive refl absent h)
