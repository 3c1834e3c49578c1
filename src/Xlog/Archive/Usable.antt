-- ===== src/Xlog/Archive/Usable.antt =====
-- When a WAL archive is usable for a timeline.
use barman.Prelude.{
  ℕ, ◌<◌, ◌≤◌, ◌≡◌, refl, ◌↔◌, true, false, some, List, [], ◌∷◌, arith, length, All, Bool-cases,
  inl, inr,
}
use barman.Prelude.Int.{pos}
use barman.Text.{Text}
use barman.Result.{ok, err, unexpected_file, ◌>>=◌, >>=-eq-ok}
use barman.Xlog.Name.{Segment, is_any_xlog_file, decode_segment_name}
use barman.Xlog.Archive.{
  validate_timeline, wal_archive_filter_fun, unexpected_wals, raise_if_newer, check_archive_usable,
}

-- A file of the archive that does not stand in the way: a WAL file, of an earlier timeline.
pub record IsEarlier (timeline : ℕ) (wal : Text) : Type 0 where
  pub any : is_any_xlog_file wal ≡ true
  pub segment : Segment
  pub decoded : decode_segment_name wal ≡ ok segment
  pub earlier : segment.0 < timeline

filter-IsEarlier :
    (timeline : ℕ) (wal : Text)
    → wal_archive_filter_fun (pos timeline) wal ≡ ok false
    → IsEarlier timeline wal
unfolding wal_archive_filter_fun
filter-IsEarlier timeline wal h = elim (Bool-cases (is_any_xlog_file wal)) [
  | inl e ↦
      let (s, decoded, last) = >>=-eq-ok (decode_segment_name wal) _ (rw e at h) in
      record { any = e; segment = s; decoded = decoded; earlier = ground arith }
  | inr e ↦ let stopped : err (unexpected_file wal) ≡ ok false = (rw e at h) in cc stopped
]

IsEarlier-filter :
    (timeline : ℕ) (wal : Text)
    → IsEarlier timeline wal
    → wal_archive_filter_fun (pos timeline) wal ≡ ok false
unfolding wal_archive_filter_fun
IsEarlier-filter timeline wal w = let p = w.earlier in rw (w.any, w.decoded) (ground arith)

none_unexpected :
    (timeline : ℕ) (wals : List Text)
    → All (IsEarlier timeline) wals
    → unexpected_wals (pos timeline) wals ≡ ok []
unfolding unexpected_wals
none_unexpected timeline [] h = refl
none_unexpected timeline (wal ∷ wals) h =
    rw (IsEarlier-filter timeline wal h.0, none_unexpected timeline wals h.1)

All-IsEarlier :
    (timeline : ℕ) (wals : List Text)
    → unexpected_wals (pos timeline) wals ≡ ok []
    → All (IsEarlier timeline) wals
unfolding unexpected_wals
All-IsEarlier timeline [] h = tt
All-IsEarlier timeline (wal ∷ wals) h =
    let (keep, kept, h') = >>=-eq-ok (wal_archive_filter_fun (pos timeline) wal) _ h in
    let (rest, found, h'') = >>=-eq-ok (unexpected_wals (pos timeline) wals) _ h' in
    let dropped : (keep ≡ false) × (rest ≡ []) = ground arith in
    let kept' : wal_archive_filter_fun (pos timeline) wal ≡ ok false = cc (kept, dropped.0) in
    let found' : unexpected_wals (pos timeline) wals ≡ ok [] = cc (found, dropped.1) in
    (filter-IsEarlier timeline wal kept', All-IsEarlier timeline wals found')

check-some :
    (wals : List Text) (timeline : ℕ)
    → 1 ≤ timeline
    → check_archive_usable wals (some (pos timeline))
      ≡ (unexpected_wals (pos timeline) wals >>= λ found. raise_if_newer (length found))
unfolding check_archive_usable validate_timeline
check-some [] timeline h = ground arith
check-some (wal ∷ wals) timeline h = ground arith

raise_if_newer-eq-ok : (l : List Text) → raise_if_newer (length l) ≡ ok tt → l ≡ []
unfolding raise_if_newer
raise_if_newer-eq-ok [] h = refl
raise_if_newer-eq-ok (x ∷ l) h = cc

-- For a timeline that is at least 1 the check succeeds exactly if every file of the archive is a
-- WAL, backup, partial or history file whose timeline is earlier.
pub check_archive_usable_iff :
    (wals : List Text) (timeline : ℕ)
    → 1 ≤ timeline
    → (check_archive_usable wals (some (pos timeline)) ≡ ok tt) ↔ All (IsEarlier timeline) wals
check_archive_usable_iff wals timeline h = (only_if, if_all)
  where
    only_if :
        check_archive_usable wals (some (pos timeline)) ≡ ok tt → All (IsEarlier timeline) wals
    only_if p =
        let (found, e, q) =
          >>=-eq-ok (unexpected_wals (pos timeline) wals) _
            (rw (check-some wals timeline h) at p) in
        All-IsEarlier timeline wals (rw (raise_if_newer-eq-ok found q) at e)

    if_all : All (IsEarlier timeline) wals → check_archive_usable wals (some (pos timeline)) ≡ ok tt
    if_all p =
        rw (check-some wals timeline h, none_unexpected timeline wals p)
          (unfold raise_if_newer in refl)
