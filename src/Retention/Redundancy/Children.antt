-- ===== src/Retention/Redundancy/Children.antt =====
-- The statuses of incremental backups in the redundancy report.
use barman.Prelude.{
  ℕ, ◌+◌, ◌≡◌, refl, ap, ◌∙◌, true, false, some, List, [], ◌∷◌, ◌++◌, arith, All, Any, Bool-cases,
  inl, inr, leb, if◌then◌else◌,
}
use Prim.Native.Nat.{max}
use barman.Text.{Text}
use barman.Text.Order.{text_eq_refl}
use barman.Text.Sort.{sort_desc}
use barman.Dict.{Dict, get, put}
use barman.Dict.Laws.{get-put}
use barman.Backup.{
  BackupInfo, RetentionStatus, obsolete, valid, keep_full, keep_standalone, potentially_obsolete,
  unclassified, done, status_eq, is_incremental, has_children,
}
use barman.Retention.{ServerMetadata, keep_of, propagate}
use barman.Retention.Forest.{Item, IsApart, done_roots}
use barman.Retention.Redundancy.{
  Report, no_report, normalised, done_status, children_status, to_children, visit_root, visit,
  visit_all, backup_report,
}
use barman.Retention.Redundancy.Ranking.{
  ranked_status, get-visit_all_others, visit_all-append, i-visit_all, normalised-max,
  done_status-kept_or,
}

-- Every descendant gets the status.
get-propagate_inside :
    (l : List BackupInfo) (report : Dict RetentionStatus) (s : RetentionStatus) (k : Text)
    → (get report k ≡ some s → get (propagate l report s) k ≡ some s)
      × (Any (λ c. c.backup_id ≡ k) l → get (propagate l report s) k ≡ some s)
unfolding propagate
get-propagate_inside [] report s k = (λ h. h, λ a. absurd a)
get-propagate_inside (c ∷ l) report s k =
    let ih = get-propagate_inside l (put report c.backup_id s) s k in
    let write = get-put report c.backup_id k s in
    (
      λ h. ih.0 (rw write (ground (arith, h))),
      λ a. elim a [ inl e ↦ ih.0 (rw (write, e, text_eq_refl k) refl) | inr b ↦ ih.1 b ],
    )

-- The status of the descendants of a root backup that `newer` done root backups precede
unfoldable pub inherited_status : RetentionStatus → ℕ → ℕ → RetentionStatus
inherited_status keep_standalone redundancy newer = if leb redundancy newer then obsolete else valid
inherited_status keep_full redundancy newer = valid
inherited_status status redundancy newer = status

children_status-inherited :
    (s : RetentionStatus) (i redundancy : ℕ)
    → children_status s (i + 1) redundancy ≡ inherited_status s redundancy i
unfolding children_status inherited_status
children_status-inherited obsolete i redundancy = refl
children_status-inherited valid i redundancy = refl
children_status-inherited potentially_obsolete i redundancy = refl
children_status-inherited keep_full i redundancy = refl
children_status-inherited keep_standalone i redundancy = ground arith
children_status-inherited unclassified i redundancy = refl

children_status-inherited_unclassified :
    (i redundancy : ℕ)
    → children_status unclassified i redundancy ≡ inherited_status unclassified redundancy i
unfolding children_status inherited_status
children_status-inherited_unclassified i redundancy = refl

module _ (walk : BackupInfo → List BackupInfo) (server : ServerMetadata) (redundancy : ℕ) where
  get-visit_inside :
      (bid k : Text) (b : BackupInfo) (r : Report)
      → is_incremental b ≡ false
      → has_children b ≡ true
      → Any (λ c. c.backup_id ≡ k) (walk b)
      → get (visit walk server redundancy (bid, b) r).report k
        ≡ some (inherited_status (ranked_status server redundancy r.i (bid, b)) redundancy r.i)
  unfolding visit visit_root to_children ranked_status
  get-visit_inside bid k b r root parent inside = elim (Bool-cases (status_eq b.status done)) [
    | inl d ↦
        rw (root, d, parent)
          ((get-propagate_inside (walk b) _ _ k).1 inside
            ∙ ap some (
                rw (← (done_status-kept_or (server.get_keep_target bid) r.i redundancy)) (
                  children_status-inherited
                    (done_status (keep_of (server.get_keep_target bid)) r.i redundancy) r.i
                    redundancy)))
    | inr d ↦
        rw (root, d, parent)
          ((get-propagate_inside (walk b) _ _ k).1 inside
            ∙ ap some (children_status-inherited_unclassified r.i redundancy))
  ]

module _ (walk : BackupInfo → List BackupInfo) (server : ServerMetadata) (value : ℕ)
    (source pre post : List Item) (bid k : Text) (b : BackupInfo)
    (split : sort_desc (λ item. item.0) source ≡ pre ++ (bid, b) ∷ post)
    (root : is_incremental b ≡ false) (parent : has_children b ≡ true)
    (inside : Any (λ c. c.backup_id ≡ k) (walk b)) (apart : All (IsApart walk k) post) where
  -- In the redundancy report, a descendant of a root backup, which is no older root backup nor a
  -- descendant of one, has the status of the root, except below a kept one: below KEEP:FULL it is
  -- VALID, and below KEEP:STANDALONE it is VALID while fewer done root backups than the redundancy
  -- are newer than the root, else OBSOLETE.
  pub report-inherited :
      get (backup_report walk server value source).report k
      ≡ some (
          inherited_status
            (ranked_status server (max server.minimum_redundancy value) (done_roots pre) (bid, b))
            (max server.minimum_redundancy value)
            (done_roots pre))
  unfolding backup_report
  report-inherited =
      let red = normalised server value in
      let before = visit_all walk server red pre no_report in
      rw
        (
          ← (normalised-max server value),
          split,
          visit_all-append walk server red pre ((bid, b) ∷ post) no_report,
        )
        (unfold visit_all in
          get-visit_all_others walk server red post (visit walk server red (bid, b) before) k apart
          ∙ get-visit_inside walk server red bid k b before root parent inside
          ∙ ap (λ n. some (inherited_status (ranked_status server red n (bid, b)) red n))
              (omega (arith, i-visit_all walk server red pre no_report)))
