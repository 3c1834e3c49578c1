-- ===== src/Retention/Window/Statuses.antt =====
-- The statuses of the recovery window report.
use barman.Prelude.{
  ℕ, ◌+◌, ◌≡◌, refl, ap, ◌∙◌, Bool, true, false, some, List, [], ◌∷◌, ◌++◌, arith, All, Bool-cases,
  inl, inr, if◌then◌else◌,
}
use barman.Text.{Text, text_eq}
use barman.Text.Order.{text_eq_refl}
use barman.Text.Sort.{sort_desc, All-sort_by, descending}
use barman.Dict.{get, put}
use barman.Dict.Laws.{get-put}
use barman.Result.{Error, ok, err, ◌>>=◌, >>=-eq-ok, returns}
use barman.Backup.{
  BackupInfo, RetentionStatus, valid, obsolete, potentially_obsolete, unclassified, done, status_eq,
  is_incremental, has_children, is_some,
}
use barman.Retention.{ServerMetadata}
use barman.Retention.Forest.{
  Item, Avoids, IsApart, IsForest, get-propagate, counts, done_roots, here-Avoids, behind-IsApart,
}
use barman.Retention.Window.{
  WindowReport, no_report, ends_before, to_children, classify, visit_done, visit, visit_all,
  backup_report,
}
use barman.Retention.Window.Ranking.{
  keep_or-kept_or, any_old, window_status, Tracks, visit_all-Tracks,
}

module _ (walk : BackupInfo → List BackupInfo) (server : ServerMetadata) (point : Text → ℕ) where
  get-to_children :
      (b : BackupInfo) (s : RetentionStatus) (r : WindowReport) (k : Text)
      → Avoids k (walk b)
      → get (to_children walk server point b s r).report k ≡ get r.report k
  unfolding to_children
  get-to_children b s r k h = elim (Bool-cases (has_children b)) [
    | inl e ↦ rw e (get-propagate (walk b) r.report _ k h)
    | inr e ↦ rw e
  ]

  -- `classify` writes the status that it returns, for its own id alone.
  get-classify :
      (bid k : Text) (b : BackupInfo) (r : WindowReport) (c : RetentionStatus × WindowReport)
      → classify walk server point bid b r ≡ ok c
      → get c.1.report k ≡ (if text_eq bid k then some c.0 else get r.report k)
  unfolding classify ends_before
  get-classify bid k b r c h = ground (arith, get-put r.report bid k c.0)

  classify-status :
      (n : ℕ) (old : Bool) (bid : Text) (b : BackupInfo) (r : WindowReport)
      (c : RetentionStatus × WindowReport)
      → Tracks walk server point n old r
      → status_eq b.status done ≡ true
      → classify walk server point bid b r ≡ ok c
      → c.0 ≡ window_status server n old (bid, b)
  unfolding classify ends_before window_status
  classify-status n old bid b r c t d h =
      let shown = keep_or-kept_or (server.get_keep_target bid) in
      rw d (
        ground (
          arith,
          t.found,
          t.bounded,
          t.within,
          t.short,
          shown valid,
          shown potentially_obsolete,
          shown obsolete,
        ))

  get-visit_self :
      (n : ℕ) (old : Bool) (bid : Text) (b : BackupInfo) (r r' : WindowReport)
      → Tracks walk server point n old r
      → is_incremental b ≡ false
      → Avoids bid (walk b)
      → visit walk server point (bid, b) r ≡ ok r'
      → get r'.report bid ≡ some (window_status server n old (bid, b))
  unfolding visit visit_done
  get-visit_self n old bid b r r' t e a h = elim (Bool-cases (status_eq b.status done)) [
    | inl d ↦
        let (c, classified, last) =
          >>=-eq-ok (classify walk server point bid b r) _ (rw (e, d) at h) in
        let written = get-classify bid bid b r c classified in
        let kept = get-to_children b c.0 c.1 bid a in
        cc (
          last,
          kept,
          rw (text_eq_refl bid) at written,
          classify-status n old bid b r c t d classified,
        )
    | inr d ↦
        let r'' = record r { report = put r.report bid unclassified } in
        let last : ok (to_children walk server point b unclassified r'') ≡ ok r' =
          (rw (e, d) at h) in
        let kept = get-to_children b unclassified r'' bid a in
        let written : get r''.report bid ≡ some unclassified =
          rw (get-put r.report bid bid unclassified, text_eq_refl bid) in
        let status : window_status server n old (bid, b) ≡ unclassified =
          unfold window_status in rw d in
        cc (last, kept, written, status)
  ]

  get-visit_other :
      (x : Item) (r r' : WindowReport) (k : Text)
      → IsApart walk k x
      → visit walk server point x r ≡ ok r'
      → get r'.report k ≡ get r.report k
  unfolding visit visit_done
  get-visit_other (bid, b) r r' k a h = elim (Bool-cases (is_incremental b)) [
    | inl e ↦ let same : ok r ≡ ok r' = (rw e at h) in cc same
    | inr e ↦ elim (Bool-cases (status_eq b.status done)) [
      | inl d ↦
          let (c, classified, last) =
            >>=-eq-ok (classify walk server point bid b r) _ (rw (e, d) at h) in
          let written = get-classify bid k b r c classified in
          cc (last, get-to_children b c.0 c.1 k (a.descendants e), rw a.other at written)
      | inr d ↦
          let r'' = record r { report = put r.report bid unclassified } in
          let last : ok (to_children walk server point b unclassified r'') ≡ ok r' =
            (rw (e, d) at h) in
          let written : get r''.report k ≡ get r.report k =
            rw (get-put r.report bid k unclassified, a.other) in
          cc (last, get-to_children b unclassified r'' k (a.descendants e), written)
    ]
  ]

  get-visit_all_others :
      (l : List Item) (r r' : WindowReport) (k : Text)
      → All (IsApart walk k) l
      → visit_all walk server point l r ≡ ok r'
      → get r'.report k ≡ get r.report k
  unfolding visit_all
  get-visit_all_others [] r r' k a h = cc h
  get-visit_all_others (x ∷ l) r r' k a h =
      let (r'', first, rest) = >>=-eq-ok (visit walk server point x r) _ h in
      get-visit_all_others l r'' r' k a.1 rest ∙ get-visit_other x r r'' k a.0 first

  -- A done root backup has an end time.
  abbrev pub HasEnd : Item → Type 0
  HasEnd x = counts x ≡ true → is_some x.1.end_time ≡ true

  raises-not :
      (bid : Text) (b : BackupInfo) (r : WindowReport) (e : Error)
      → HasEnd (bid, b)
      → visit walk server point (bid, b) r ≡ err e
      → ⊥
  unfolding visit visit_done classify ends_before counts
  raises-not bid b r e h p = ground (arith, h)

  visit-returns :
      (x : Item) (r : WindowReport)
      → HasEnd x
      → (r' : WindowReport) × (visit walk server point x r ≡ ok r')
  visit-returns (bid, b) r h =
      returns (visit walk server point (bid, b) r) (λ e p. raises-not bid b r e h p)

  visit_all-returns :
      (l : List Item) (r : WindowReport)
      → All HasEnd l
      → (r' : WindowReport) × (visit_all walk server point l r ≡ ok r')
  unfolding visit_all
  visit_all-returns [] r h = (r, refl)
  visit_all-returns (x ∷ l) r h =
      let (r'', first) = visit-returns x r h.0 in
      let (r', rest) = visit_all-returns l r'' h.1 in (r', rw first rest)

module _ (walk : BackupInfo → List BackupInfo) (server : ServerMetadata) (point : Text → ℕ)
    (source pre post : List Item) (bid : Text) (b : BackupInfo) (forest : IsForest walk source)
    (ends : All (HasEnd walk server point) source)
    (split : sort_desc (λ item. item.0) source ≡ pre ++ (bid, b) ∷ post)
    (root : is_incremental b ≡ false) where
  visit_all-append :
      (l m : List Item) (r r' : WindowReport)
      → visit_all walk server point (l ++ m) r ≡ ok r'
      → (r'' : WindowReport) × (visit_all walk server point l r ≡ ok r'')
        × (visit_all walk server point m r'' ≡ ok r')
  unfolding visit_all
  visit_all-append [] m r r' h = (r, refl, h)
  visit_all-append (x ∷ l) m r r' h =
      let (r1, first, rest) = >>=-eq-ok (visit walk server point x r) _ h in
      let (r2, front, back) = visit_all-append l m r1 r' rest in (r2, rw first front, back)

  status_here :
      (r : WindowReport)
      → visit_all walk server point (pre ++ (bid, b) ∷ post) no_report ≡ ok r
      → get r.report bid ≡ some (window_status server (done_roots pre) (any_old point pre) (bid, b))
  status_here r h =
      let (before, front, back) = visit_all-append pre ((bid, b) ∷ post) no_report r h in
      let (after, here, behind) =
        >>=-eq-ok (visit walk server point (bid, b) before) _ (unfold_cons before r back) in
      let start : Tracks walk server point 0 false no_report = record {
        found = refl;
        bounded = omega arith;
        within = λ e. refl;
        short = λ e. refl;
      } in
      let track = visit_all-Tracks walk server point 0 false pre no_report before start front in
      get-visit_all_others walk server point post after r bid
        (behind-IsApart walk source pre post bid b forest split root) behind
      ∙ get-visit_self walk server point (0 + done_roots pre) (any_old point pre) bid b before after
          track root (here-Avoids walk source pre post bid b forest split root) here
      ∙ ap (λ n. some (window_status server n (any_old point pre) (bid, b))) (omega arith)
    where
      unfold_cons :
          (before r : WindowReport)
          → visit_all walk server point ((bid, b) ∷ post) before ≡ ok r
          → (visit walk server point (bid, b) before >>= λ r'. visit_all walk server point post r')
            ≡ ok r
      unfold_cons before r h = unfold visit_all in h

  -- The recovery window report of a forest, in which every done root backup has an end time, is
  -- computed without an error, and a root backup has the status that the newer ones give: with
  -- `pre` the newer backups, a done one is `KEEP:…` if it is kept, else `VALID` unless `pre` holds
  -- a done root backup that ended before the point of recoverability, else `OBSOLETE*` or
  -- `OBSOLETE`, as `pre` holds fewer done root backups than the minimum redundancy or not; and it is
  -- `NONE` if it is not done.
  pub report-windowed :
      (r : WindowReport) × (backup_report walk server point source ≡ ok r)
      × (get r.report bid
          ≡ some (window_status server (done_roots pre) (any_old point pre) (bid, b)))
  unfolding backup_report
  report-windowed =
      let sorted_ends : All (HasEnd walk server point) (sort_desc (λ item. item.0) source) =
        unfold sort_desc in
        All-sort_by (descending (λ item. item.0)) (HasEnd walk server point) source ends in
      let (r, done') =
        visit_all-returns walk server point (sort_desc (λ item. item.0) source) no_report
          sorted_ends in
      (r, done', status_here r (rw split at done'))
