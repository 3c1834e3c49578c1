-- ===== src/Catalog/Neighbours.antt =====
-- The previous and the next backup, in the order of the ids.
use mathlib.Core.Path.{subst}
use barman.Prelude.{
  ℕ, zero, suc, ◌+◌, ◌-◌, ◌≤◌, ◌≡◌, refl, false, Option, none, some, List, [], ◌∷◌, ◌++◌, arith,
  All, All-drop, length, length-append, take, drop, get_elem?-take, get_elem?-drop,
  take-length-append, drop-after, drop_all, if◌then◌else◌,
}
use barman.Text.{Text, text_eq}
use barman.Text.Order.{text_eq_iff, text_eq_refl}
use barman.Text.Sort.{sort_asc, Pairwise, sort_by-Pairwise, ascending}
use barman.Result.{ok}
use barman.Backup.{BackupInfo, BackupStatus, status_in}
use barman.Catalog.{
  Backups, Entry, index_of, previous_from, next_from, find_previous_backup_in, find_next_backup_in,
}

-- The last, and the first, backup of a list whose status passes a filter
unfoldable pub last_match : List BackupStatus → List Entry → Option BackupInfo
last_match f [] = none
last_match f (x ∷ l) = elim (last_match f l) [
  | none ↦ if status_in x.1.status f then some x.1 else none
  | some b ↦ some b
]

unfoldable pub first_match : List BackupStatus → List Entry → Option BackupInfo
first_match f [] = none
first_match f (x ∷ l) =
    let rest = first_match f l in if status_in x.1.status f then some x.1 else rest

last_match-snoc :
    (f : List BackupStatus) (l : List Entry) (x : Entry)
    → last_match f (l ++ x ∷ []) ≡ (if status_in x.1.status f then some x.1 else last_match f l)
unfolding last_match
last_match-snoc f [] x = refl
last_match-snoc f (y ∷ l) x = ground (arith, last_match-snoc f l x)

previous_from-eq :
    (entries : List Entry) (f : List BackupStatus) (n : ℕ)
    → n ≤ length entries
    → previous_from entries f n ≡ ok (last_match f (take n entries))
unfolding previous_from
previous_from-eq entries f zero h = unfold last_match in refl
previous_from-eq entries f (suc n) h =
    let (x, found, taken) = get_elem?-take entries n h in
    rw
      (
        found,
        taken,
        last_match-snoc f (take n entries) x,
        previous_from-eq entries f n (omega arith),
      )
      (ground arith)

next_from-eq :
    (entries : List Entry) (f : List BackupStatus) (current rounds : ℕ)
    → current + rounds + 1 ≡ length entries
    → next_from entries f current rounds ≡ ok (first_match f (drop (current + 1) entries))
unfolding next_from
next_from-eq entries f current zero h =
    let e : current + 1 ≡ length entries = omega arith in
    rw (e, drop_all entries) (unfold first_match in refl)
next_from-eq entries f current (suc rounds) h =
    let (x, found, left) = get_elem?-drop entries (current + 1) (omega arith) in
    rw (found, left, next_from-eq entries f (current + 1) rounds (omega arith))
      (unfold first_match in ground arith)

-- Where an id is the key of one entry, its index is the number of entries before it.
index_of-append :
    (pre post : List Entry) (bid : Text) (b : BackupInfo)
    → All (λ x. text_eq x.0 bid ≡ false) pre
    → index_of bid (pre ++ (bid, b) ∷ post) ≡ some (length pre)
unfolding index_of
index_of-append [] post bid b h = rw (text_eq_refl bid)
index_of-append (x ∷ pre) post bid b h = rw (h.0, index_of-append pre post bid b h.1)

text_ne_symm : (s t : Text) → text_eq s t ≡ false → text_eq t s ≡ false
text_ne_symm s t h = ground (arith, text_eq_iff s t, text_eq_iff t s)

-- The ids of a catalogue are distinct, as the keys of a dictionary are.
abbrev pub HasDistinctIds : Backups → Type 0
HasDistinctIds = Pairwise (λ x y. text_eq x.0 y.0 ≡ false)

before-distinct :
    (pre post : List Entry) (x : Entry)
    → Pairwise (λ x y. text_eq x.0 y.0 ≡ false) (pre ++ x ∷ post)
    → All (λ y. text_eq y.0 x.0 ≡ false) pre
before-distinct [] post x h = tt
before-distinct (y ∷ pre) post x h =
    ((All-drop _ pre (x ∷ post) h.0).0, before-distinct pre post x h.1)

module _ (available : Backups) (pre post : List Entry) (bid : Text) (b : BackupInfo)
    (filter : List BackupStatus) (distinct : HasDistinctIds available)
    (split : sort_asc (λ (x : Entry). x.0) available ≡ pre ++ (bid, b) ∷ post) where
  abbrev sorted : List Entry
  sorted = sort_asc (λ (x : Entry). x.0) available

  older-distinct : All (λ y. text_eq y.0 bid ≡ false) pre
  older-distinct =
      let R = λ (x y : Entry). text_eq x.0 y.0 ≡ false in
      before-distinct pre post (bid, b)
        (subst (Pairwise R) split (
          unfold sort_asc in
          sort_by-Pairwise (ascending (λ (x : Entry). x.0)) R (λ x y. text_ne_symm x.0 y.0)
            available distinct))

  index_here : index_of bid (pre ++ (bid, b) ∷ post) ≡ some (length pre)
  index_here = index_of-append pre post bid b older-distinct

  -- With `pre` the older and `post` the newer backups of the catalogue, the previous backup is the
  -- last of `pre` whose status passes the filter, if there is one.
  pub find_previous-last_match :
      find_previous_backup_in available bid filter ≡ ok (last_match filter pre)
  unfolding find_previous_backup_in
  find_previous-last_match = rw (
    split,
    index_here,
    previous_from-eq (pre ++ (bid, b) ∷ post) filter (length pre)
        (omega (arith, length-append pre ((bid, b) ∷ post))),
    take-length-append pre ((bid, b) ∷ post),
  )

  -- With `pre` the older and `post` the newer backups of the catalogue, the next backup is the
  -- first of `post` whose status passes the filter, if there is one.
  pub find_next-first_match :
      find_next_backup_in available bid filter ≡ ok (first_match filter post)
  unfolding find_next_backup_in
  find_next-first_match =
      let size = length-append pre ((bid, b) ∷ post) in
      rw (
        split,
        index_here,
        next_from-eq (pre ++ (bid, b) ∷ post) filter (length pre)
            (length (pre ++ (bid, b) ∷ post) - 1 - length pre) (omega (arith, size)),
        drop-after pre (bid, b) post,
      )
