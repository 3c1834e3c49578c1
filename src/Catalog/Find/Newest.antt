-- ===== src/Catalog/Find/Newest.antt =====
-- Which backup is found for a target.
use barman.Prelude.{
  ℕ, ◌≡◌, ◌↔◌, refl, Bool, true, false, ◌&&◌, Option, none, some, List, [], ◌∷◌, arith, All, Any,
  All-map, Bool-cases, inl, inr, leb, not,
}
use barman.Prelude.Int.{ℤ, ltb_ℤ, ◌≤ℤ◌}
use barman.Text.{Text, text_le}
use barman.Text.Order.{text_le_refl}
use barman.Text.Sort.{
  sort_desc, descending, IsOrdered, sort_desc-IsOrdered, All-of_sort_by, Any-of_sort_by,
  All-sort_by,
}
use barman.Result.{Result, ok, err, ◌>>=◌}
use barman.Backup.{BackupInfo}
use barman.Xlog.Lsn.{parse_lsn}
use barman.Catalog.{timeline_eq}
use barman.Catalog.Find.{
  backup_id_of, on_timeline, first_candidate, ends_by, lsn_by, get_backup_id_from_target_time,
  get_backup_id_from_target_lsn, first_on_timeline, get_backup_id_from_target_tli,
}

-- The newest of the backups that may be taken, or none where none may
abbrev pub IsNewest : (BackupInfo → Type 0) → List BackupInfo → Option Text → Type 0
IsNewest P l none = All (λ b. P b → ⊥) l
IsNewest P l (some bid) =
    Any (λ b. P b × (b.backup_id ≡ bid)) l × All (λ b. P b → text_le b.backup_id bid ≡ true) l

-- The test gives an answer, and the timeline is the one that is asked for, if one is.
abbrev pub IsCandidate : (BackupInfo → Result Bool) → Option ℕ → BackupInfo → Type 0
IsCandidate test tli b = (test b ≡ ok true) × (on_timeline tli b.timeline ≡ true)

module _ (P : BackupInfo → Type 0) where
  IsNewest-here :
      (b : BackupInfo) (l : List BackupInfo)
      → P b
      → All (λ c. descending backup_id_of b c ≡ true) l
      → IsNewest P (b ∷ l) (some b.backup_id)
  IsNewest-here b l p below =
      (inl (p, refl), (λ _. text_le_refl b.backup_id, All-map (λ c h _. h) l below))

  IsNewest-later :
      (b : BackupInfo) (l : List BackupInfo) (r : Option Text)
      → (P b → ⊥)
      → IsNewest P l r
      → IsNewest P (b ∷ l) r
  IsNewest-later b l none n h = (n, h)
  IsNewest-later b l (some bid) n h = (inr h.0, (λ p. absurd (n p), h.1))

  IsNewest-unsorted :
      (l : List BackupInfo) (r : Option Text)
      → IsNewest P (sort_desc backup_id_of l) r
      → IsNewest P l r
  unfolding sort_desc
  IsNewest-unsorted l none h = All-of_sort_by (descending backup_id_of) _ l h
  IsNewest-unsorted l (some bid) h = (
    Any-of_sort_by (descending backup_id_of) _ l h.0,
    All-of_sort_by (descending backup_id_of) _ l h.1,
  )

taken : (m : Result Bool) (t a : Bool) → m ≡ ok a → (a && t) ≡ true → (m ≡ ok true) × (t ≡ true)
taken m t true h e = (h, e)
taken m t false h e = ground arith

passed : (m : Result Bool) (t a : Bool) → m ≡ ok a → (a && t) ≡ false → m ≡ ok true → t ≡ true → ⊥
passed m t true h e k l = ground arith
passed m t false h e k l = cc

module _ (test : BackupInfo → Result Bool) (tli : Option ℕ) where
  first_candidate-IsNewest :
      (l : List BackupInfo)
      → IsOrdered (descending backup_id_of) l
      → All (λ b. (t : Bool) × (test b ≡ ok t)) l
      → (r : Option Text) × (first_candidate test tli l ≡ ok r)
        × IsNewest (IsCandidate test tli) l r
  unfolding first_candidate
  first_candidate-IsNewest [] o h = (none, refl, tt)
  first_candidate-IsNewest (b ∷ l) o h =
      let (r, e, n) = first_candidate-IsNewest l o.1 h.1 in
      elim (Bool-cases (h.0.0 && on_timeline tli b.timeline)) [
        | inl y ↦ (
          some b.backup_id,
          rw (h.0.1, y),
          IsNewest-here (IsCandidate test tli) b l
              (taken (test b) (on_timeline tli b.timeline) h.0.0 h.0.1 y) o.0,
        )
        | inr f ↦ (
          r,
          rw (h.0.1, f) e,
          IsNewest-later (IsCandidate test tli) b l r
              (λ c. passed (test b) (on_timeline tli b.timeline) h.0.0 h.0.1 f c.0 c.1) n,
        )
      ]

  sorted-IsCandidate :
      (l : List BackupInfo)
      → All (λ b. (t : Bool) × (test b ≡ ok t)) l
      → (r : Option Text) × (first_candidate test tli (sort_desc backup_id_of l) ≡ ok r)
        × IsNewest (IsCandidate test tli) l r
  sorted-IsCandidate l h =
      let sorted : All (λ b. (t : Bool) × (test b ≡ ok t)) (sort_desc backup_id_of l) =
        unfold sort_desc in All-sort_by (descending backup_id_of) _ l h in
      let (r, e, n) =
        first_candidate-IsNewest (sort_desc backup_id_of l) (sort_desc-IsOrdered backup_id_of l)
          sorted in
      (r, e, IsNewest-unsorted (IsCandidate test tli) l r n)

-- For a target time that can be read and backups that have all ended, the backup is the newest of
-- those that ended by then and are on the timeline, if one is asked for; there is none only if
-- none is so.
pub target_time-IsNewest :
    (load_datetime_tz : Text → Option ℕ) (available : List BackupInfo) (target_time : Text)
    (target_tli : Option ℕ) (target : ℕ)
    → load_datetime_tz target_time ≡ some target
    → All (λ b. (t : ℕ) × (b.end_time ≡ some t)) available
    → (r : Option Text) × (get_backup_id_from_target_time load_datetime_tz available target_time
          target_tli
        ≡ ok r)
      × IsNewest
          (λ b. (ends_by target b.end_time ≡ ok true) × (on_timeline target_tli b.timeline ≡ true))
          available
          r
unfolding get_backup_id_from_target_time
target_time-IsNewest load available time tli target e ended =
    rw (e, get_backup_id_from_target_time)
      (sorted-IsCandidate (λ b. ends_by target b.end_time) tli available
        (All-map (λ b h. (leb h.0 target, rw (h.1) refl)) available ended))

target_lsn-IsCandidate :
    (available : List BackupInfo) (target_lsn : Text) (target_tli : Option ℕ) (target : ℤ)
    → parse_lsn target_lsn ≡ ok target
    → All (λ b. (t : Text) × (lsn : ℤ) × (b.end_xlog ≡ some t) × (parse_lsn t ≡ ok lsn)) available
    → (r : Option Text) × (get_backup_id_from_target_lsn available target_lsn target_tli ≡ ok r)
      × IsNewest
          (λ b. (lsn_by target b.end_xlog ≡ ok true) × (on_timeline target_tli b.timeline ≡ true))
          available
          r
unfolding get_backup_id_from_target_lsn
target_lsn-IsCandidate available target_lsn tli target e ended = rw e (
    sorted-IsCandidate (λ b. lsn_by target b.end_xlog) tli available
      (All-map (λ b h. (not (ltb_ℤ target h.1), rw (h.2, h.3) refl)) available ended))

-- The backup has an end LSN up to the target.
abbrev pub EndsBy : ℤ → BackupInfo → Type 0
EndsBy target b =
    (t : Text) × (lsn : ℤ) × (b.end_xlog ≡ some t) × (parse_lsn t ≡ ok lsn) × (lsn ≤ℤ target)

abbrev pub IsOnTimeline : Option ℕ → BackupInfo → Type 0
IsOnTimeline none b = Unit
IsOnTimeline (some tli) b = b.timeline ≡ some tli

timeline_iff :
    (tli : ℕ) (timeline : Option ℕ)
    → (timeline_eq timeline (some tli) ≡ true) ↔ (timeline ≡ some tli)
unfolding timeline_eq
timeline_iff tli none = ground arith
timeline_iff tli (some t) = ground arith

on_timeline_iff :
    (tli : Option ℕ) (b : BackupInfo) → (on_timeline tli b.timeline ≡ true) ↔ IsOnTimeline tli b
on_timeline_iff none b = (λ _. tt, λ _. refl)
on_timeline_iff (some tli) b = timeline_iff tli b.timeline

not_past_iff : (target lsn : ℤ) → (not (ltb_ℤ target lsn) ≡ true) ↔ (lsn ≤ℤ target)
not_past_iff target lsn = ground arith

ok_true : (b : Bool) → (let r : Result Bool = ok b in r) ≡ ok true → b ≡ true
ok_true true h = refl
ok_true false h = cc

read_by :
    (target : ℤ) (r : Result ℤ)
    → (r >>= λ lsn. ok (not (ltb_ℤ target lsn))) ≡ ok true
    → (lsn : ℤ) × (r ≡ ok lsn) × (lsn ≤ℤ target)
read_by target (err e) h = cc
read_by target (ok lsn) h = (lsn, refl, (not_past_iff target lsn).0 (ok_true _ h))

lsn_by_iff :
    (target : ℤ) (end_xlog : Option Text)
    → (lsn_by target end_xlog ≡ ok true)
      ↔ ((t : Text) × (lsn : ℤ) × (end_xlog ≡ some t) × (parse_lsn t ≡ ok lsn) × (lsn ≤ℤ target))
lsn_by_iff target none = (λ h. cc h, λ x. cc (x.2))
lsn_by_iff target (some t) = (
  λ h. let (lsn, e, le) = read_by target (parse_lsn t) h in (t, lsn, refl, e, le),
  λ x.
      let (u, lsn, same, e, le) = x in
      let here : parse_lsn t ≡ ok lsn = cc (same, e) in
      let past : not (ltb_ℤ target lsn) ≡ true = (not_past_iff target lsn).1 le in
      rw (here, past) refl,
)

Any-map :
    {P Q : BackupInfo → Type 0}
    → ((b : BackupInfo) → P b → Q b)
    → (l : List BackupInfo) → Any P l
    → Any Q l
Any-map f [] h = h
Any-map f (x ∷ l) (inl p) = inl (f x p)
Any-map f (x ∷ l) (inr h) = inr (Any-map f l h)

IsNewest-iff :
    (P Q : BackupInfo → Type 0) (l : List BackupInfo) (r : Option Text)
    → ((b : BackupInfo) → P b ↔ Q b)
    → IsNewest P l r
    → IsNewest Q l r
IsNewest-iff P Q l none same h = All-map (λ b n q. n ((same b).1 q)) l h
IsNewest-iff P Q l (some bid) same h =
    (Any-map (λ b x. ((same b).0 x.0, x.1)) l h.0, All-map (λ b n q. n ((same b).1 q)) l h.1)

-- For a target LSN that can be read and backups that have an end LSN that can be read, the backup
-- is the newest of those whose end LSN is at most the target and whose timeline is the one that is
-- asked for, if one is; there is none only if none is so.
pub target_lsn-IsNewest :
    (available : List BackupInfo) (target_lsn : Text) (target_tli : Option ℕ) (target : ℤ)
    → parse_lsn target_lsn ≡ ok target
    → All (λ b. (t : Text) × (lsn : ℤ) × (b.end_xlog ≡ some t) × (parse_lsn t ≡ ok lsn)) available
    → (r : Option Text) × (get_backup_id_from_target_lsn available target_lsn target_tli ≡ ok r)
      × IsNewest (λ b. EndsBy target b × IsOnTimeline target_tli b) available r
target_lsn-IsNewest available target_lsn tli target e ended =
    let (r, found, newest) = target_lsn-IsCandidate available target_lsn tli target e ended in
    (
      r,
      found,
      IsNewest-iff _ _ available r
          (λ b. (
            λ x. ((lsn_by_iff target b.end_xlog).0 x.0, (on_timeline_iff tli b).0 x.1),
            λ x. ((lsn_by_iff target b.end_xlog).1 x.0, (on_timeline_iff tli b).1 x.1),
          ))
          newest,
    )

first_on_timeline-IsNewest :
    (tli : ℕ) (l : List BackupInfo)
    → IsOrdered (descending backup_id_of) l
    → IsNewest (λ b. timeline_eq b.timeline (some tli) ≡ true) l (first_on_timeline tli l)
unfolding first_on_timeline
first_on_timeline-IsNewest tli [] o = tt
first_on_timeline-IsNewest tli (b ∷ l) o =
    let n = first_on_timeline-IsNewest tli l o.1 in
    elim (Bool-cases (timeline_eq b.timeline (some tli))) [
      | inl y ↦ rw y (IsNewest-here _ b l y o.0)
      | inr f ↦ rw f (IsNewest-later _ b l (first_on_timeline tli l) (λ y. ground arith) n)
    ]

-- The backup for a timeline is the newest one on it; there is none only if none is on it.
pub target_tli-IsNewest :
    (available : List BackupInfo) (target_tli : ℕ)
    → IsNewest
        (λ b. timeline_eq b.timeline (some target_tli) ≡ true)
        available
        (get_backup_id_from_target_tli available target_tli)
unfolding get_backup_id_from_target_tli
target_tli-IsNewest available tli =
    IsNewest-unsorted _ available (first_on_timeline tli (sort_desc backup_id_of available)) (
      first_on_timeline-IsNewest tli (sort_desc backup_id_of available)
        (sort_desc-IsOrdered backup_id_of available))
