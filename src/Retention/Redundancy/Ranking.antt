-- ===== src/Retention/Redundancy/Ranking.antt =====
-- The statuses of root backups in the redundancy report.
use barman.Prelude.{
  ℕ, ◌+◌, ◌≡◌, refl, ap, ◌∙◌, false, some, List, [], ◌∷◌, ◌++◌, arith, All, Bool-cases, inl, inr,
  if◌then◌else◌, Option, none, leb,
}
use Prim.Native.Nat.{max}
use barman.Text.{Text}
use barman.Text.Order.{text_eq_refl}
use barman.Text.Sort.{sort_desc}
use barman.Dict.{get}
use barman.Dict.Laws.{get-put}
use barman.Backup.{
  BackupInfo, RetentionStatus, obsolete, valid, unclassified, done, status_eq, is_incremental,
  has_children,
}
use barman.Retention.{ServerMetadata, keep_of}
use barman.Retention.Forest.{
  Item, Avoids, IsApart, IsForest, get-propagate, counts, done_roots, here-Avoids, behind-IsApart,
  kept_or,
}
use barman.Retention.Redundancy.{
  Report, no_report, normalised, done_status, to_children, visit_root, visit, visit_all,
  backup_report,
}

-- The status of a root backup that `newer` done root backups precede
unfoldable pub ranked_status : ServerMetadata → ℕ → ℕ → Item → RetentionStatus
ranked_status server redundancy newer (bid, b) =
    if status_eq b.status done
    then kept_or (server.get_keep_target bid) (if leb redundancy newer then obsolete else valid)
    else unclassified

pub done_status-kept_or :
    (target : Option Text) (i redundancy : ℕ)
    → done_status (keep_of target) i redundancy
      ≡ kept_or target (if leb redundancy i then obsolete else valid)
unfolding done_status kept_or keep_of
done_status-kept_or none i redundancy = ground arith
done_status-kept_or (some []) i redundancy = ground arith
done_status-kept_or (some (c ∷ target)) i redundancy = ground arith

pub normalised-max :
    (server : ServerMetadata) (value : ℕ)
    → normalised server value ≡ max server.minimum_redundancy value
unfolding normalised
normalised-max server value = ground arith

module _ (walk : BackupInfo → List BackupInfo) (server : ServerMetadata) (redundancy : ℕ) where
  i-to_children :
      (b : BackupInfo) (s : RetentionStatus) (r : Report)
      → (to_children walk server redundancy b s r).i ≡ r.i
  unfolding to_children
  i-to_children b s r = ground arith

  get-to_children :
      (b : BackupInfo) (s : RetentionStatus) (r : Report) (k : Text)
      → Avoids k (walk b)
      → get (to_children walk server redundancy b s r).report k ≡ get r.report k
  unfolding to_children
  get-to_children b s r k h = elim (Bool-cases (has_children b)) [
    | inl e ↦ rw e (get-propagate (walk b) r.report _ k h)
    | inr e ↦ rw e
  ]

  i-visit :
      (x : Item) (r : Report)
      → (visit walk server redundancy x r).i ≡ (if counts x then r.i + 1 else r.i)
  unfolding visit visit_root counts
  i-visit (bid, b) r = elim (Bool-cases (is_incremental b)) [
    | inl e ↦ rw e
    | inr e ↦ elim (Bool-cases (status_eq b.status done)) [
      | inl d ↦ rw (e, d) (i-to_children b _ _)
      | inr d ↦ rw (e, d) (i-to_children b _ _)
    ]
  ]

  pub i-visit_all :
      (l : List Item) (r : Report) → (visit_all walk server redundancy l r).i ≡ r.i + done_roots l
  unfolding visit_all done_roots
  i-visit_all [] r = omega arith
  i-visit_all (x ∷ l) r =
      ground (arith, i-visit_all l (visit walk server redundancy x r), i-visit x r)

  -- A visit sets the status of its own root, and of no other id but its descendants'.
  get-visit_self :
      (bid : Text) (b : BackupInfo) (r : Report)
      → is_incremental b ≡ false
      → Avoids bid (walk b)
      → get (visit walk server redundancy (bid, b) r).report bid
        ≡ some (ranked_status server redundancy r.i (bid, b))
  unfolding visit visit_root ranked_status
  get-visit_self bid b r e h = elim (Bool-cases (status_eq b.status done)) [
    | inl d ↦
        rw (e, d)
          (get-to_children b _ _ bid h
            ∙ rw (
              get-put r.report bid bid,
              text_eq_refl bid,
              done_status-kept_or (server.get_keep_target bid) r.i redundancy,
            ))
    | inr d ↦
        rw (e, d) (get-to_children b _ _ bid h ∙ rw (get-put r.report bid bid, text_eq_refl bid))
  ]

  get-visit_other :
      (x : Item) (r : Report) (k : Text)
      → IsApart walk k x
      → get (visit walk server redundancy x r).report k ≡ get r.report k
  unfolding visit visit_root
  get-visit_other (bid, b) r k a = elim (Bool-cases (is_incremental b)) [
    | inl e ↦ rw e
    | inr e ↦ elim (Bool-cases (status_eq b.status done)) [
      | inl d ↦
          rw (e, d)
            (get-to_children b _ _ k (a.descendants e) ∙ rw (get-put r.report bid k, a.other))
      | inr d ↦
          rw (e, d)
            (get-to_children b _ _ k (a.descendants e) ∙ rw (get-put r.report bid k, a.other))
    ]
  ]

  pub get-visit_all_others :
      (l : List Item) (r : Report) (k : Text)
      → All (IsApart walk k) l
      → get (visit_all walk server redundancy l r).report k ≡ get r.report k
  unfolding visit_all
  get-visit_all_others [] r k h = refl
  get-visit_all_others (x ∷ l) r k h =
      get-visit_all_others l (visit walk server redundancy x r) k h.1 ∙ get-visit_other x r k h.0

  pub visit_all-append :
      (pre post : List Item) (r : Report)
      → visit_all walk server redundancy (pre ++ post) r
        ≡ visit_all walk server redundancy post (visit_all walk server redundancy pre r)
  unfolding visit_all
  visit_all-append [] post r = refl
  visit_all-append (x ∷ pre) post r = visit_all-append pre post (visit walk server redundancy x r)

module _ (walk : BackupInfo → List BackupInfo) (server : ServerMetadata) (value : ℕ)
    (source pre post : List Item) (bid : Text) (b : BackupInfo) (forest : IsForest walk source)
    (split : sort_desc (λ item. item.0) source ≡ pre ++ (bid, b) ∷ post)
    (root : is_incremental b ≡ false) where
  -- In the redundancy report of a forest, a root backup has the status that its rank gives: with
  -- `pre` the newer backups, it is `KEEP:…` if it is kept, else `VALID` while fewer done root
  -- backups than the redundancy, which is at least the server's minimum, stand in `pre`, else
  -- `OBSOLETE`; and `NONE` if it is not done.
  pub report-ranked :
      get (backup_report walk server value source).report bid
      ≡ some (ranked_status server (max server.minimum_redundancy value) (done_roots pre) (bid, b))
  unfolding backup_report
  report-ranked =
      let red = normalised server value in
      let before = visit_all walk server red pre no_report in
      rw
        (
          ← (normalised-max server value),
          split,
          visit_all-append walk server red pre ((bid, b) ∷ post) no_report,
        )
        (unfold visit_all in
          get-visit_all_others walk server red post (visit walk server red (bid, b) before) bid
            (behind-IsApart walk source pre post bid b forest split root)
          ∙ get-visit_self walk server red bid b before root
              (here-Avoids walk source pre post bid b forest split root)
          ∙ ap (λ n. some (ranked_status server red n (bid, b)))
              (omega (arith, i-visit_all walk server red pre no_report)))
