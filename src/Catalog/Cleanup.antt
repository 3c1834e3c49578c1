-- ===== src/Catalog/Cleanup.antt =====
-- What `should_remove_wals` decides, from the older backups.
use mathlib.Core.Path.{subst}
use mathlib.Core.List.{append_assoc}
use barman.Prelude.{
  ℕ, zero, suc, ◌+◌, ◌<◌, ◌≡◌, refl, sym, ap, ◌∙◌, Bool, true, false, ◌&&◌, not, Option, none, some,
  List, [], ◌∷◌, ◌++◌, arith, All, All-drop, All-front, length, length-append, Bool-cases, inl, inr,
  if◌then◌else◌, ◌⊎◌,
}
use barman.Text.{Text, text}
use barman.Text.Sort.{sort_asc, ascending, All-sort_by, length-sort_by}
use barman.Result.{ok}
use barman.Backup.{BackupInfo, BackupStatus, status_in, field_is}
use barman.Catalog.{Backups, Entry, Range, removal_loop, should_remove_wals}
use barman.Catalog.Neighbours.{last_match, HasDistinctIds, find_previous-last_match}

-- The backups whose status passes the filter
unfoldable pub matching : List BackupStatus → List Entry → List BackupInfo
matching f [] = []
matching f (x ∷ l) = let rest = matching f l in if status_in x.1.status f then x.1 ∷ rest else rest

unfoldable pub is_standalone : (Text → Option Text) → BackupInfo → Bool
is_standalone keep b = field_is (keep b.backup_id) (text "standalone")

unfoldable pub all_standalone : (Text → Option Text) → List BackupInfo → Bool
all_standalone keep [] = true
all_standalone keep (b ∷ l) = is_standalone keep b && all_standalone keep l

-- The ranges of the backups, the newest first
unfoldable pub ranges_of : List BackupInfo → List Range
ranges_of [] = []
ranges_of (b ∷ l) = ranges_of l ++ (b.begin_wal, b.end_wal) ∷ []

abbrev pub is_empty : List BackupInfo → Bool
is_empty [] = true
is_empty (b ∷ l) = false

-- The decision, from the older backups
unfoldable pub decision : (Text → Option Text) → Bool → List BackupInfo → Bool × List Range
decision keep skip older =
    if is_empty older
    then (true, [])
    else if all_standalone keep older && not skip
    then (true, ranges_of older)
    else (false, [])

-- The key of each entry is its backup's id.
abbrev pub IsKeyed : List Entry → Type 0
IsKeyed = All (λ x. x.1.backup_id ≡ x.0)

-- A list in which the filter passes none, and the split at the last that it passes.
record LastSplit (f : List BackupStatus) (pre : List Entry) (b : BackupInfo) : Type 0 where
  front : List Entry
  back : List Entry
  bid : Text
  split : pre ≡ front ++ (bid, b) ∷ back
  older : matching f pre ≡ matching f front ++ b ∷ []

abbrev LastCases : List BackupStatus → List Entry → Type 0
LastCases f l =
    ((last_match f l ≡ none) × (matching f l ≡ []))
    ⊎ ((b : BackupInfo) × (last_match f l ≡ some b) × LastSplit f l b)

last_match_cases : (f : List BackupStatus) (l : List Entry) → LastCases f l
unfolding last_match matching
last_match_cases f [] = inl (refl, refl)
last_match_cases f (x ∷ l) = elim (last_match_cases f l) [
  | inl (e, m) ↦ elim (Bool-cases (status_in x.1.status f)) [
    | inl passes ↦ inr (
      x.1,
      ground arith,
      record { front = []; back = l; bid = x.0; split = refl; older = rw (passes, m) },
    )
    | inr fails ↦ inl (ground arith, rw (fails, m))
  ]
  | inr (b, e, s) ↦ inr (
    b,
    ground arith,
    record {
      front = x ∷ s.front;
      back = s.back;
      bid = s.bid;
      split = ap (λ t. x ∷ t) s.split;
      older = ground (arith, s.older);
    },
  )
]

all_standalone-snoc :
    (keep : Text → Option Text) (l : List BackupInfo) (b : BackupInfo)
    → all_standalone keep (l ++ b ∷ []) ≡ (all_standalone keep l && is_standalone keep b)
unfolding all_standalone
all_standalone-snoc keep [] b = ground arith
all_standalone-snoc keep (x ∷ l) b = ground (arith, all_standalone-snoc keep l b)

ranges_of-snoc :
    (l : List BackupInfo) (b : BackupInfo)
    → ranges_of (l ++ b ∷ []) ≡ (b.begin_wal, b.end_wal) ∷ ranges_of l
unfolding ranges_of
ranges_of-snoc [] b = refl
ranges_of-snoc (x ∷ l) b = rw (ranges_of-snoc l b)

-- The decision where ranges were found before
unfoldable continued :
    (Text → Option Text) → Bool → List BackupInfo → List Range → Bool × List Range
continued keep skip older ranges =
    if is_empty older
    then (true, ranges)
    else if all_standalone keep older && not skip
    then (true, ranges ++ ranges_of older)
    else (false, [])

is_empty-snoc : (l : List BackupInfo) (b : BackupInfo) → is_empty (l ++ b ∷ []) ≡ false
is_empty-snoc [] b = refl
is_empty-snoc (x ∷ l) b = refl

empty_ranges : (keep : Text → Option Text) (l : List BackupInfo) → is_empty l ≡ true → l ≡ []
empty_ranges keep [] e = refl
empty_ranges keep (x ∷ l) e = ground arith

-- One backup more decides first.
decide_last {ℓ} :
    {A : Type ℓ} (all here skip : Bool) (go stop : A)
    → (if (all && here) && not skip then go else stop)
      ≡ (if here then (if skip then stop else if all && not skip then go else stop) else stop)
decide_last true true true go stop = refl
decide_last true true false go stop = refl
decide_last true false skip go stop = refl
decide_last false true true go stop = refl
decide_last false true false go stop = refl
decide_last false false skip go stop = refl

decide_only {ℓ} :
    {A : Type ℓ} (here skip : Bool) (go stop : A)
    → (if here && not skip then go else stop) ≡ (if here then (if skip then stop else go) else stop)
decide_only true true go stop = refl
decide_only true false go stop = refl
decide_only false skip go stop = refl

continued-snoc :
    (keep : Text → Option Text) (skip : Bool) (l : List BackupInfo) (b : BackupInfo)
    (ranges : List Range)
    → continued keep skip (l ++ b ∷ []) ranges ≡ (
        if is_standalone keep b
        then (if skip
            then (false, [])
            else continued keep skip l (ranges ++ (b.begin_wal, b.end_wal) ∷ []))
        else (false, []))
unfolding continued
continued-snoc keep skip [] b ranges =
    rw (all_standalone-snoc keep [] b, ranges_of-snoc [] b)
      (unfold all_standalone in
        unfold ranges_of in
        decide_only (is_standalone keep b) skip (true, ranges ++ (b.begin_wal, b.end_wal) ∷ [])
          (false, []))
continued-snoc keep skip (x ∷ l) b ranges =
    rw
      (
        all_standalone-snoc keep (x ∷ l) b,
        ranges_of-snoc (x ∷ l) b,
        append_assoc ranges ((b.begin_wal, b.end_wal) ∷ []) (ranges_of (x ∷ l)),
      )
      (decide_last (all_standalone keep (x ∷ l)) (is_standalone keep b) skip
        (true, ranges ++ (b.begin_wal, b.end_wal) ∷ ranges_of (x ∷ l)) (false, []))

module _ (available : Backups) (keep : Text → Option Text) (skip : Bool) (f : List BackupStatus)
    (distinct : HasDistinctIds available) where
  removal_loop-eq :
      (fuel : ℕ) (pre post : List Entry) (bid : Text) (b : BackupInfo) (ranges : List Range)
      → length pre < fuel
      → sort_asc (λ (x : Entry). x.0) available ≡ pre ++ (bid, b) ∷ post
      → IsKeyed pre
      → removal_loop fuel available keep skip f (last_match f pre) ranges
        ≡ ok (continued keep skip (matching f pre) ranges)
  unfolding removal_loop
  removal_loop-eq zero pre post bid b ranges enough split keyed = ground arith
  removal_loop-eq (suc fuel) pre post bid b ranges enough split keyed =
      elim (last_match_cases f pre) [
        | inl (e, m) ↦ rw (e, m) (unfold continued in refl)
        | inr (c, e, s) ↦
            let here : sort_asc (λ (x : Entry). x.0) available
                ≡ s.front ++ (s.bid, c) ∷ (s.back ++ (bid, b) ∷ post) =
              split
              ∙ ap (λ t. t ++ (bid, b) ∷ post) s.split
              ∙ append_assoc s.front ((s.bid, c) ∷ s.back) ((bid, b) ∷ post) in
            let size : length pre ≡ length s.front + suc (length s.back) =
              ap length s.split ∙ length-append s.front ((s.bid, c) ∷ s.back) in
            let keys = subst IsKeyed s.split keyed in
            let id : c.backup_id ≡ s.bid = (All-drop _ s.front ((s.bid, c) ∷ s.back) keys).0 in
            let found =
              find_previous-last_match available s.front (s.back ++ (bid, b) ∷ post) s.bid c f
                distinct here in
            let rest =
              removal_loop-eq fuel s.front (s.back ++ (bid, b) ∷ post) s.bid c
                (ranges ++ (c.begin_wal, c.end_wal) ∷ []) (omega (arith, enough, size)) here
                (All-front _ s.front ((s.bid, c) ∷ s.back) keys) in
            rw (e, s.older, continued-snoc keep skip (matching f s.front) c ranges)
              (rw (id, found, rest) (unfold is_standalone in ground arith))
      ]

module _ (available : Backups) (pre post : List Entry) (bid : Text) (b : BackupInfo)
    (filter : List BackupStatus) (distinct : HasDistinctIds available) (keyed : IsKeyed available)
    (split : sort_asc (λ (x : Entry). x.0) available ≡ pre ++ (bid, b) ∷ post)
    (keep : Text → Option Text) (skip : Bool) where
  -- For a backup of a catalogue with distinct ids and `pre` the older backups: with none of these
  -- passing the status filter, the WALs are removed, and no range is protected; else, if all that
  -- pass are kept as standalone and this is not to be skipped, the WALs are removed, and the
  -- ranges of all that pass are protected; else no WAL is removed.
  pub should_remove_wals-decision :
      should_remove_wals b available keep skip filter
      ≡ ok (decision keep skip (matching filter pre))
  unfolding should_remove_wals decision
  should_remove_wals-decision =
      let sorted : All (λ x. x.1.backup_id ≡ x.0) (sort_asc (λ (x : Entry). x.0) available) =
        unfold sort_asc in All-sort_by (ascending (λ (x : Entry). x.0)) _ available keyed in
      let keys = subst IsKeyed split sorted in
      let id : b.backup_id ≡ bid = (All-drop _ pre ((bid, b) ∷ post) keys).0 in
      let found = find_previous-last_match available pre post bid b filter distinct split in
      let whole : length (sort_asc (λ (x : Entry). x.0) available) ≡ length available =
        unfold sort_asc in length-sort_by (ascending (λ (x : Entry). x.0)) available in
      let size : length available ≡ length pre + suc (length post) =
        sym whole ∙ ap length split ∙ length-append pre ((bid, b) ∷ post) in
      rw
        (
          id,
          found,
          removal_loop-eq available keep skip filter distinct (length available + 1) pre post bid b
              [] (omega (arith, size)) split (All-front _ pre ((bid, b) ∷ post) keys),
        )
        (unfold continued in refl)
