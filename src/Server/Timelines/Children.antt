-- ===== src/Server/Timelines/Children.antt =====
-- What the search for children finds, and the fuel that it needs.
use mathlib.Core.Path.{subst}
use barman.Prelude.{
  Bool, sym, if◌then◌else◌, ℕ, zero, suc, ◌+◌, ◌<◌, ◌≡◌, refl, ◌⊎◌, inl, inr, ◌↔◌, true, false,
  Option, none, some, List, [], ◌∷◌, ◌++◌, length, Any, arith,
}
use barman.Prelude.Int.{ℤ, pos, negsuc, ◌≤ℤ◌}
use barman.Text.{Text}
use barman.Result.{ok}
use barman.Xlog.Name.{encode_history_file_name}
use barman.Xlog.History.{HistoryFileData, decode_history_file}
use barman.Locks.{join}
use barman.Server.Timelines.{
  Histories, is_child, is_tli, is_forked_before, children_in, search_children, parse_forked_after,
  get_children_timelines,
}

-- The files after a timeline, one for each number, up to one that is missing
abbrev pub AreHistories : (Text → Option (List Text)) → Text → ℕ → List Histories → Type 0
AreHistories read wals_directory tli [] =
    read (join wals_directory (encode_history_file_name (tli + 1))) ≡ none
AreHistories read wals_directory tli (h ∷ files) =
    ((fp : List Text) × (read (join wals_directory (encode_history_file_name (tli + 1))) ≡ some fp)
      × (decode_history_file (join wals_directory (encode_history_file_name (tli + 1)))
            (encode_history_file_name (tli + 1)) fp
          ≡ ok h))
    × AreHistories read wals_directory (tli + 1) files

abbrev all_children : ℕ → Option ℤ → List Histories → Histories
all_children tli forked_after [] = []
all_children tli forked_after (h ∷ files) =
    children_in tli forked_after h ++ all_children tli forked_after files

-- No location, the location 0, or one that is not past the switch
abbrev pub IsForkedAfter : Option ℤ → ℤ → Type 0
IsForkedAfter none switchpoint = Unit
IsForkedAfter (some lsn) switchpoint = (lsn ≡ pos 0) ⊎ (lsn ≤ℤ switchpoint)

abbrev pub IsChild : ℕ → Option ℤ → HistoryFileData → Type 0
IsChild tli forked_after h = (h.parent_tli ≡ pos tli) × IsForkedAfter forked_after h.switchpoint

search_children-AreHistories :
    (read : Text → Option (List Text)) (wals_directory : Text) (tli : ℕ) (forked_after : Option ℤ)
    → (fuel at : ℕ) (files : List Histories) → AreHistories read wals_directory at files
    → length files < fuel
    → search_children read wals_directory tli forked_after fuel at
      ≡ some (ok (all_children tli forked_after files))
unfolding search_children
search_children-AreHistories read wals_directory tli forked_after zero at files h enough =
    let wrong : ⊥ = omega arith in elim wrong [ ]
search_children-AreHistories read wals_directory tli forked_after (suc fuel) at [] h enough =
    rw (search_children, h) refl
search_children-AreHistories read wals_directory tli forked_after (suc fuel) at (l ∷ files)
      ((fp, found, decoded), h) enough =
    rw
      (
        search_children,
        found,
        decoded,
        search_children-AreHistories read wals_directory tli forked_after fuel (at + 1) files h
            (omega arith),
      )
      refl

is_tli_iff : (parent : ℤ) (tli : ℕ) → (is_tli parent tli ≡ true) ↔ (parent ≡ pos tli)
is_tli_iff (pos n) tli = ground arith
is_tli_iff (negsuc n) tli = ground arith

not_before_iff :
    (forked_after : Option ℤ) (switchpoint : ℤ)
    → (is_forked_before forked_after switchpoint ≡ false) ↔ IsForkedAfter forked_after switchpoint
not_before_iff none switchpoint = ground arith
not_before_iff (some (pos zero)) switchpoint = ground arith
not_before_iff (some (pos (suc n))) switchpoint = ground arith
not_before_iff (some (negsuc n)) switchpoint = ground arith

is_child_iff :
    (tli : ℕ) (forked_after : Option ℤ) (h : HistoryFileData)
    → (is_child tli forked_after h ≡ true) ↔ IsChild tli forked_after h
unfolding is_child
is_child_iff tli forked_after h =
    let t = is_tli_iff h.parent_tli tli in
    let b = not_before_iff forked_after h.switchpoint in ground (arith, t, b)

abbrev pub HasEntry : HistoryFileData → Histories → Type 0
HasEntry h l = Any (λ x. h ≡ x) l

HasEntry-append :
    (h : HistoryFileData) (l m : Histories) → HasEntry h (l ++ m) ↔ (HasEntry h l ⊎ HasEntry h m)
HasEntry-append h [] m = ground arith
HasEntry-append h (x ∷ l) m = let rest = HasEntry-append h l m in ground (arith, rest)

-- One more entry, which is kept if it is a child
kept_entry :
    (P : HistoryFileData → Type 0) (h x : HistoryFileData) (kept : Bool) (l m : Histories)
    → (kept ≡ true) ↔ P x
    → HasEntry h m ↔ (HasEntry h l × P h)
    → HasEntry h (if kept then x ∷ m else m) ↔ (HasEntry h (x ∷ l) × P h)
kept_entry P h x true l m holds rest = (
  λ e. elim e [
    | inl same ↦ (inl same, subst P (sym same) (holds.0 refl))
    | inr found ↦ (inr (rest.0 found).0, (rest.0 found).1)
  ],
  λ e. elim e.0 [ inl same ↦ inl same | inr found ↦ inr (rest.1 (found, e.1)) ],
)
kept_entry P h x false l m holds rest = (
  λ e. (inr (rest.0 e).0, (rest.0 e).1),
  λ e. elim e.0 [
    | inl same ↦ let wrong : false ≡ true = holds.1 (subst P same e.1) in cc wrong
    | inr found ↦ rest.1 (found, e.1)
  ],
)

children_in-HasEntry :
    (tli : ℕ) (forked_after : Option ℤ) (h : HistoryFileData) (l : Histories)
    → HasEntry h (children_in tli forked_after l) ↔ (HasEntry h l × IsChild tli forked_after h)
unfolding children_in
children_in-HasEntry tli forked_after h [] = ground arith
children_in-HasEntry tli forked_after h (x ∷ l) =
    kept_entry (IsChild tli forked_after) h x (is_child tli forked_after x) l
      (children_in tli forked_after l) (is_child_iff tli forked_after x)
      (children_in-HasEntry tli forked_after h l)

all_children-HasEntry :
    (tli : ℕ) (forked_after : Option ℤ) (h : HistoryFileData) (files : List Histories)
    → HasEntry h (all_children tli forked_after files)
      ↔ (Any (HasEntry h) files × IsChild tli forked_after h)
all_children-HasEntry tli forked_after h [] = ground arith
all_children-HasEntry tli forked_after h (l ∷ files) =
    let rest = all_children-HasEntry tli forked_after h files in
    let first = children_in-HasEntry tli forked_after h l in
    let both =
      HasEntry-append h (children_in tli forked_after l) (all_children tli forked_after files) in
    ground (arith, rest, first, both)

-- For history files that follow the timeline without a gap and can be decoded, and fuel for one more
-- than there are: the search returns, and its result has the lines of all these files that are of
-- children of the timeline, not forked before the location, and no others.
pub get_children_timelines-IsChild :
    (read : Text → Option (List Text)) (wals_directory : Text) (fuel tli : ℕ)
    → (forked_after : Option Text) (lsn : Option ℤ) (files : List Histories)
    → parse_forked_after forked_after ≡ ok lsn
    → AreHistories read wals_directory tli files
    → length files < fuel
    → (children : Histories) × (get_children_timelines read wals_directory fuel tli forked_after
        ≡ some (ok children))
      × ((h : HistoryFileData) → HasEntry h children ↔ (Any (HasEntry h) files × IsChild tli lsn h))
unfolding get_children_timelines
get_children_timelines-IsChild read wals_directory fuel tli forked_after lsn files parsed h enough =
    (
      all_children tli lsn files,
      rw
          (
            get_children_timelines,
            parsed,
            search_children-AreHistories read wals_directory tli lsn fuel tli files h enough,
          )
          refl,
      λ x. all_children-HasEntry tli lsn x files,
    )
