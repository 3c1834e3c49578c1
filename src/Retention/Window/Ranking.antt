-- ===== src/Retention/Window/Ranking.antt =====
-- The variables of the loop of the recovery window report, by the backups that it has passed.
use barman.Prelude.{
  ℕ, ◌+◌, ◌≤◌, ◌<◌, ◌≡◌, refl, Bool, false, ◌&&◌, ◌||◌, Option, none, some, List, [], ◌∷◌, arith,
  ltb, Bool-cases, inl, inr, if◌then◌else◌,
}
use barman.Text.{Text}
use barman.Dict.{Dict}
use barman.Result.{ok, >>=-eq-ok}
use barman.Backup.{
  BackupInfo, RetentionStatus, obsolete, valid, potentially_obsolete, unclassified, done, status_eq,
  is_incremental, has_children,
}
use barman.Retention.{ServerMetadata, keep_of}
use barman.Retention.Forest.{Item, counts, done_roots, kept_or}
use barman.Retention.Window.{
  WindowReport, keep_or, ends_before, to_children, classify, visit_done, visit, visit_all,
}

-- A done root backup that ended before the point of recoverability
unfoldable pub is_old : (Text → ℕ) → Item → Bool
is_old point (bid, b) = elim b.end_time [ none ↦ false | some t ↦ ltb t (point bid) ]

-- Whether a done root backup of the list is old.
unfoldable pub any_old : (Text → ℕ) → List Item → Bool
any_old point [] = false
any_old point (x ∷ items) = (counts x && is_old point x) || any_old point items

-- The status of a root backup, from the done root backups that precede it.
unfoldable pub window_status : ServerMetadata → ℕ → Bool → Item → RetentionStatus
window_status server newer found (bid, b) =
    if status_eq b.status done
    then kept_or (server.get_keep_target bid) (
        if found
        then (if ltb newer server.minimum_redundancy then potentially_obsolete else obsolete)
        else valid)
    else unclassified

pub keep_or-kept_or :
    (target : Option Text) (status : RetentionStatus)
    → keep_or (keep_of target) status ≡ kept_or target status
unfolding keep_or keep_of kept_or
keep_or-kept_or none status = refl
keep_or-kept_or (some []) status = refl
keep_or-kept_or (some (c ∷ target)) status = ground arith

module _ (walk : BackupInfo → List BackupInfo) (server : ServerMetadata) (point : Text → ℕ) where
  -- The loop's variables, after `n` done root backups, `old` of which ended before the window.
  pub record Tracks (n : ℕ) (old : Bool) (r : WindowReport) : Type 0 where
    pub found : r.found ≡ old
    pub bounded : r.valid_count ≤ n
    pub within : old ≡ false → r.valid_count ≡ n
    pub short : r.valid_count < server.minimum_redundancy → r.valid_count ≡ n

  to_children-Tracks :
      (n : ℕ) (old : Bool) (b : BackupInfo) (s : RetentionStatus) (r : WindowReport)
      → Tracks n old r
      → Tracks n old (to_children walk server point b s r)
  unfolding to_children
  to_children-Tracks n old b s r t = elim (Bool-cases (has_children b)) [
    | inl e ↦
        rw e (record { found = t.found; bounded = t.bounded; within = t.within; short = t.short })
    | inr e ↦ rw e t
  ]

  classify-Tracks :
      (n : ℕ) (old : Bool) (bid : Text) (b : BackupInfo) (r : WindowReport)
      (c : RetentionStatus × WindowReport)
      → Tracks n old r
      → classify walk server point bid b r ≡ ok c
      → Tracks (n + 1) (old || is_old point (bid, b)) c.1
  unfolding classify ends_before is_old
  classify-Tracks n old bid b r c t h = record {
    found = ground (arith, t.found);
    bounded = ground (arith, t.bounded);
    within = λ e. ground (arith, t.within);
    short = λ e. ground (arith, t.short, t.within);
  }

  Tracks-of_eq :
      (n n' : ℕ) (old old' : Bool) (r r' : WindowReport)
      → n ≡ n'
      → old ≡ old'
      → ok r ≡ ok r'
      → Tracks n old r
      → Tracks n' old' r'
  Tracks-of_eq n n' old old' r r' p q e t = record {
    found = ground (arith, t.found);
    bounded = ground (arith, t.bounded);
    within = λ x. ground (arith, t.within);
    short = λ x. ground (arith, t.short);
  }

  put-Tracks :
      (n : ℕ) (old : Bool) (r : WindowReport) (d : Dict RetentionStatus)
      → Tracks n old r
      → Tracks n old (record r { report = d })
  put-Tracks n old r d t = record {
    found = t.found;
    bounded = t.bounded;
    within = t.within;
    short = t.short;
  }

  abbrev after : ℕ → Item → ℕ
  after n x = if counts x then n + 1 else n

  visit-Tracks :
      (n : ℕ) (old : Bool) (x : Item) (r r' : WindowReport)
      → Tracks n old r
      → visit walk server point x r ≡ ok r'
      → Tracks (after n x) (old || (counts x && is_old point x)) r'
  unfolding visit visit_done counts
  visit-Tracks n old (bid, b) r r' t h = elim (Bool-cases (is_incremental b)) [
    | inl e ↦ Tracks-of_eq n _ old _ r r' (ground arith) (ground arith) (rw e at h) t
    | inr e ↦ elim (Bool-cases (status_eq b.status done)) [
      | inl d ↦
          let (c, classified, last) =
            >>=-eq-ok (classify walk server point bid b r) _ (rw (e, d) at h) in
          Tracks-of_eq (n + 1) _ (old || is_old point (bid, b)) _ _ r' (ground arith) (ground arith)
            last (to_children-Tracks _ _ b c.0 c.1 (classify-Tracks n old bid b r c t classified))
      | inr d ↦
          Tracks-of_eq n _ old _ _ r' (ground arith) (ground arith) (rw (e, d) at h)
            (to_children-Tracks n old b unclassified _ (put-Tracks n old r _ t))
    ]
  ]

  pub visit_all-Tracks :
      (n : ℕ) (old : Bool) (l : List Item) (r r' : WindowReport)
      → Tracks n old r
      → visit_all walk server point l r ≡ ok r'
      → Tracks (n + done_roots l) (old || any_old point l) r'
  unfolding visit_all done_roots any_old
  visit_all-Tracks n old [] r r' t h = Tracks-of_eq n _ old _ r r' (omega arith) (ground arith) h t
  visit_all-Tracks n old (x ∷ l) r r' t h =
      let (r'', first, rest) = >>=-eq-ok (visit walk server point x r) _ h in
      Tracks-of_eq (after n x + done_roots l) _
        ((old || (counts x && is_old point x)) || any_old point l) _ r' r' (ground arith)
        (ground arith) refl
        (visit_all-Tracks (after n x) _ l r'' r' (visit-Tracks n old x r r'' t first) rest)
