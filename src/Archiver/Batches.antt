-- ===== src/Archiver/Batches.antt =====
-- What a run of an archiver takes, and what it leaves behind.
use mathlib.Core.List.{map, append-nil, append_assoc}
use barman.Prelude.{
  ℕ, zero, suc, ◌+◌, min, ◌≡◌, refl, ap, ◌∙◌, Bool, true, false, ◌&&◌, not, List, [], ◌∷◌, length,
  length-append, take, ltb, ◌++◌, ◌⊎◌, if◌then◌else◌, arith, Bool-cases, inl, inr,
}
use barman.Prelude.Int.{ℤ}
use barman.Text.{Text, text}
use barman.Text.Sort.{sort_asc}
use barman.Xlog.Name.{is_any_xlog_file, is_partial_file, ends_with}
use barman.Xlog.Name.Kinds.{kinds_partition}
use barman.Archiver.{
  WalArchiverQueue, FileSystem, sort_streaming, keep_one, all_but_last, last_only,
  get_next_batch_streaming, size, run_size, Outcome, Event, Run, RunEnd, then_run, on_outcome,
  archive_loop, archive,
}

-- A file that an archiver may take
unfoldable pub is_valid : FileSystem → Text → Bool
is_valid fs name =
    not (ends_with name (text ".tmp"))
    && (fs.exists name && (fs.is_file name && is_any_xlog_file name))

-- The names that pass a test, in their order
unfoldable pub names_with : (Text → Bool) → List Text → List Text
names_with p [] = []
names_with p (x ∷ l) = let rest = names_with p l in if p x then x ∷ rest else rest

partial-accepted : (name : Text) → is_any_xlog_file name ≡ false → is_partial_file name ≡ false
partial-accepted name h = ground (arith, kinds_partition name)

abbrev pub is_partial : FileSystem → Text → Bool
is_partial fs name = is_valid fs name && is_partial_file name

abbrev pub is_full : FileSystem → Text → Bool
is_full fs name = is_valid fs name && not (is_partial_file name)

-- Each valid file is full or partial.
sort_streaming-names_with :
    (fs : FileSystem) (l : List Text)
    → ((sort_streaming fs l).files ≡ names_with (is_full fs) l)
      × ((sort_streaming fs l).partial ≡ names_with (is_partial fs) l)
unfolding sort_streaming names_with is_valid
sort_streaming-names_with fs [] = (refl, refl)
sort_streaming-names_with fs (x ∷ l) =
    let rest = sort_streaming-names_with fs l in ground (arith, rest, partial-accepted x)

last_split :
    (l : List Text)
    → (all_but_last l ++ last_only l ≡ l) × (length (last_only l) ≡ min 1 (length l))
unfolding all_but_last last_only
last_split [] = (refl, refl)
last_split (x ∷ []) = (refl, refl)
last_split (x ∷ y ∷ l) =
    let rest = last_split (y ∷ l) in (ap (λ t. x ∷ t) rest.0, omega (arith, rest))

-- The file that is left out is the last one.
keep_one-split :
    (files partial : List Text)
    → ((keep_one files partial).0 ++ (keep_one files partial).1 ≡ files ++ partial)
      × (length (keep_one files partial).1 ≡ min 1 (length (files ++ partial)))
unfolding keep_one
keep_one-split files [] = rw (append-nil files) (last_split files)
keep_one-split files (p ∷ []) = (refl, omega (arith, length-append files (p ∷ [])))
keep_one-split files (p ∷ q ∷ l) =
    let last = last_split (p ∷ q ∷ l) in
    (
      append_assoc files (all_but_last (p ∷ q ∷ l)) (last_only (p ∷ q ∷ l))
          ∙ ap (λ t. files ++ t) last.0,
      omega (arith, last, length-append files (p ∷ q ∷ l)),
    )

-- Of the valid files, the full ones in the order of their names and then the partial ones in theirs,
-- the streaming archiver queues all but the last, in this order, and leaves the last one in its
-- directory, if there is one.
pub streaming_leaves_last :
    (fs : FileSystem) (batch : ℤ) (directory : List Text)
    → let q = get_next_batch_streaming fs batch directory in
      let names = sort_asc (λ (name : Text). name) directory in
      let valid = names_with (is_full fs) names ++ names_with (is_partial fs) names in
      (q.items ++ q.skip ≡ valid) × (length q.skip ≡ min 1 (length valid))
unfolding get_next_batch_streaming
streaming_leaves_last fs batch directory =
    let names = sort_asc (λ (name : Text). name) directory in
    let (full, partial) = sort_streaming-names_with fs names in
    rw (full, partial)
      (keep_one-split (names_with (is_full fs) names) (names_with (is_partial fs) names))

-- What becomes of some files in turn
unfoldable pub process : (Text → Outcome) → List Text → Run → Run
process archive_wal [] after = after
process archive_wal (x ∷ l) after =
    let rest = process archive_wal l after in on_outcome x (archive_wal x) rest

archive_loop-process :
    (archive_wal : Text → Outcome) (bound run processed : ℕ) (l : List Text) (after : Run)
    → bound ≡ processed + run
    → archive_loop archive_wal bound processed l after ≡ process archive_wal (take run l) after
unfolding archive_loop process
archive_loop-process aw bound zero processed [] after e = refl
archive_loop-process aw bound (suc run) processed [] after e = refl
archive_loop-process aw bound zero processed (x ∷ l) after e = ground arith
archive_loop-process aw bound (suc run) processed (x ∷ l) after e =
    let goes_on : ltb processed bound ≡ true = ground arith in
    rw (goes_on, archive_loop-process aw bound run (suc processed) l after (omega arith)) refl

take-length : (l : List Text) → take (length l) l ≡ l
take-length [] = refl
take-length (x ∷ l) = ap (λ t. x ∷ t) (take-length l)

take-min : (l : List Text) (n : ℕ) → take (min (length l) n) l ≡ take n l
take-min [] zero = refl
take-min [] (suc n) = let e : min 0 (suc n) ≡ 0 = omega arith in rw e refl
take-min (x ∷ l) zero = let e : min (suc (length l)) 0 ≡ 0 = omega arith in rw e refl
take-min (x ∷ l) (suc n) =
    let e : min (suc (length l)) (suc n) ≡ suc (min (length l) n) = omega arith in
    rw (e, take-min l n) refl

-- The first files of the queue, at most the size of the batch where that is positive, else all
abbrev pub taken : WalArchiverQueue → List Text
taken q = if ltb 0 q.batch_size then take q.batch_size q.items else q.items

archive-process :
    (archive_wal : Text → Outcome) (q : WalArchiverQueue)
    → archive archive_wal q
      ≡ process archive_wal (taken q) (map Event.move_to_errors q.errors, RunEnd.finished)
unfolding archive run_size size
archive-process aw q =
    let all = archive_loop-process aw in
    elim (Bool-cases (ltb 0 q.batch_size)) [
      | inl y ↦
          rw
            (
              y,
              all (min (length q.items) q.batch_size) (min (length q.items) q.batch_size) 0 q.items
                  (map Event.move_to_errors q.errors, RunEnd.finished) (omega arith),
              take-min q.items q.batch_size,
            )
            refl
      | inr f ↦
          rw
            (
              f,
              all (length q.items) (length q.items) 0 q.items
                  (map Event.move_to_errors q.errors, RunEnd.finished) (omega arith),
              take-length q.items,
            )
            refl
    ]

-- What is done to a file that does not end the run
abbrev pub IsDone : Text → Outcome → Event → Type 0
IsDone name outcome event =
    ((outcome ≡ Outcome.archived) × (event ≡ Event.archive_file name))
    ⊎ (((outcome ≡ Outcome.matching_duplicate) × (event ≡ Event.unlink name))
        ⊎ ((outcome ≡ Outcome.duplicate) × (event ≡ Event.move_to_errors name)))

abbrev pub AreDone : (Text → Outcome) → List Text → List Event → Type 0
AreDone archive_wal [] [] = Unit
AreDone archive_wal (x ∷ l) (e ∷ events) = IsDone x (archive_wal x) e × AreDone archive_wal l events
AreDone archive_wal [] (e ∷ events) = ⊥
AreDone archive_wal (x ∷ l) [] = ⊥

-- The outcomes that end the run, with its end
abbrev pub IsLast : Outcome → RunEnd → Type 0
IsLast outcome end =
    ((outcome ≡ Outcome.aborted) × (end ≡ RunEnd.stopped))
    ⊎ ((outcome ≡ Outcome.failed) × (end ≡ RunEnd.raised))

-- The files up to one that ends the run, or all of them and then what follows
abbrev pub IsRun : (Text → Outcome) → List Text → List Event → Run → Type 0
IsRun archive_wal names after r =
    ((done : List Event) × AreDone archive_wal names done × (r ≡ (done ++ after, RunEnd.finished)))
    ⊎ ((before : List Text) × (x : Text) × (later : List Text) × (names ≡ before ++ x ∷ later)
        × AreDone archive_wal before r.0
        × IsLast (archive_wal x) r.1)

IsRun-later :
    (aw : Text → Outcome) (x : Text) (names : List Text) (after : List Event) (e : Event) (r : Run)
    → IsDone x (aw x) e
    → IsRun aw names after r
    → IsRun aw (x ∷ names) after (then_run e r)
IsRun-later aw x names after e r here (inl (done, all, same)) =
    inl (e ∷ done, (here, all), rw same refl)
IsRun-later aw x names after e r here (inr (before, y, later, same, all, last)) =
    inr (x ∷ before, y, later, ap (λ l. x ∷ l) same, (here, all), last)

on_outcome-IsRun :
    (aw : Text → Outcome) (x : Text) (names : List Text) (after : List Event) (o : Outcome)
    (r : Run)
    → aw x ≡ o
    → IsRun aw names after r
    → IsRun aw (x ∷ names) after (on_outcome x o r)
on_outcome-IsRun aw x names after Outcome.archived r e h =
    IsRun-later aw x names after (Event.archive_file x) r (inl (e, refl)) h
on_outcome-IsRun aw x names after Outcome.matching_duplicate r e h =
    IsRun-later aw x names after (Event.unlink x) r (inr (inl (e, refl))) h
on_outcome-IsRun aw x names after Outcome.duplicate r e h =
    IsRun-later aw x names after (Event.move_to_errors x) r (inr (inr (e, refl))) h
on_outcome-IsRun aw x names after Outcome.aborted r e h =
    inr ([], x, names, refl, tt, inl (e, refl))
on_outcome-IsRun aw x names after Outcome.failed r e h = inr ([], x, names, refl, tt, inr (e, refl))

process-IsRun :
    (aw : Text → Outcome) (names : List Text) (after : List Event)
    → IsRun aw names after (process aw names (after, RunEnd.finished))
unfolding process
process-IsRun aw [] after = inl ([], tt, refl)
process-IsRun aw (x ∷ l) after =
    on_outcome-IsRun aw x l after (aw x) (process aw l (after, RunEnd.finished)) refl
      (process-IsRun aw l after)

-- One run takes the first files of the queue, at most the size of the batch where that is positive
-- and else all of them, in their order. A file that is archived stays so, a duplicate that matches is
-- unlinked and another duplicate goes to the errors. Either that is all, and then the errors of the
-- queue are moved away; or a file ends the run at once: a hook that aborts makes it return and
-- another exception makes it raise, with the errors not moved.
pub archive-IsRun :
    (archive_wal : Text → Outcome) (q : WalArchiverQueue)
    → IsRun archive_wal (taken q) (map Event.move_to_errors q.errors) (archive archive_wal q)
archive-IsRun aw q =
    rw (archive-process aw q) (process-IsRun aw (taken q) (map Event.move_to_errors q.errors))
