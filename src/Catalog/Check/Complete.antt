-- ===== src/Catalog/Check/Complete.antt =====
-- When `check_backup` marks a backup as done.
use native.Mathlib.Decide.{dec_lt}
use native.Mathlib.Nat.{mul-le-mul_left, mul-suc, mul_comm, div-add-mod, mod-lt}
use barman.Prelude.{
  ℕ, zero, suc, ◌+◌, ◌-◌, ◌*◌, ◌/◌, ◌%◌, ◌^◌, ◌≤◌, ◌<◌, min, ◌≡◌, refl, sym, ap, ◌∙◌, ◌↔◌, Bool,
  true, false, Option, none, some, List, [], ◌∷◌, ◌++◌, arith, All, Bool-cases, inl, inr, length,
  take, take-length-append, All-map, if◌then◌else◌,
}
use barman.Text.{Text, text_le, text_lt}
use barman.Text.Order.{text_lt-not_le, text_le_trans}
use barman.Text.Hex.{hex8}
use barman.Text.Hex.Laws.{length-hex8}
use barman.Dict.{Dict, get}
use barman.Result.{Result, ok}
use barman.Backup.{BackupInfo, BackupStatus}
use barman.Xlog.Name.{encode_segment_name}
use barman.Xlog.Name.Codec.{text_le-encode, segment_le}
use barman.Xlog.Segments.Sequence.{names_from, name_at}
use barman.Xlog.Segments.Generate.{length-encode-pos, segments_of, generate-eq-names_from}
use barman.Catalog.Check.{
  check_backup, first_missing, Checked, get_required_wal_segments, judge, on_end,
}

-- Up to the last archived segment, none is missing exactly if all are there.
first_missing-none :
    (exists : Text → Bool) (last : Text) (segments : List Text)
    → All (λ w. text_le w last ≡ true) segments
    → (first_missing exists last segments ≡ none) ↔ All (λ w. exists w ≡ true) segments
unfolding first_missing
first_missing-none exists last [] h = (λ _. tt, λ _. refl)
first_missing-none exists last (w ∷ segments) h =
    let ih = first_missing-none exists last segments h.1 in
    rw (text_lt-not_le last w, h.0) (by_exists (exists w) (first_missing exists last segments) ih)
  where
    by_exists :
        (here : Bool) (rest : Option Text)
        → (rest ≡ none) ↔ All (λ w. exists w ≡ true) segments
        → ((if here then rest else some w) ≡ none)
          ↔ ((here ≡ true) × All (λ w. exists w ≡ true) segments)
    by_exists true rest ih = (λ e. (refl, ih.0 e), λ e. ih.1 e.1)
    by_exists false rest ih = (λ e. cc, λ e. ground arith)

-- The segments from one number on are no later than the last of them.
-- A number of the row that is no greater has a log and a segment that are no later.
row_le :
    (t size q r l' s' : ℕ)
    → r < size
    → s' < size
    → size * q + r ≤ l' * size + s'
    → (q ≤ l') × (segment_le (t, q, r) (t, l', s') ≡ true)
unfolding segment_le
row_le t size q r l' s' k k' h =
    let le : q ≤ l' = elim (dec_lt l' q) [
      | yes m ↦
          absurd (omega (arith, mul-le-mul_left size m, mul_comm size l', mul-suc size l', h, k'))
      | no m ↦ omega arith
    ] in
    (
      le,
      elim (dec_lt q l') [
        | yes m ↦ ground arith
        | no m ↦
            let e : q ≡ l' = omega arith in
            let rows : size * q ≡ l' * size = rw e (mul_comm size l') in
            let least : r ≤ s' = omega (arith, rows) in ground arith
      ],
    )

names_from-before :
    (t size l' s' i n : ℕ)
    → t < 2 ^ 32
    → l' < 2 ^ 32
    → s' < 2 ^ 32
    → s' < size
    → size ≤ 2 ^ 32
    → n ≤ l' * size + s' + 1 - i
    → All (λ w. text_le w (encode_segment_name t l' s') ≡ true) (names_from t size i n)
unfolding names_from
names_from-before t size l' s' i zero ht hl hs k m h = tt
names_from-before t size l' s' i (suc n) ht hl hs k m h = (
  unfold name_at in
      let q = i / size in
      let r = i % size in
      let small : r < size = mod-lt i (omega (arith, k)) in
      let (le, ordered) = row_le t size q r l' s' small k (omega (arith, div-add-mod i size)) in
      rw (text_le-encode t q r t l' s' ht (omega (arith, le)) (omega (arith, small)) ht hl hs)
        ordered,
  names_from-before t size l' s' (i + 1) n ht hl hs k m (omega arith),
)

take-encode : (t l s : ℕ) → t < 2 ^ 32 → take 8 (encode_segment_name t l s) ≡ hex8 t
unfolding encode_segment_name
take-encode t l s h =
    ap (λ n. take n (hex8 t ++ (hex8 l ++ hex8 s))) (sym (length-hex8 t h))
    ∙ take-length-append (hex8 t) (hex8 l ++ hex8 s)

on_end-some :
    (name : Text) (k : Text → Result Checked) → 1 ≤ length name → on_end (some name) k ≡ k name
on_end-some [] k h = absurd (omega arith)
on_end-some (c ∷ name) k h = refl

min_enough : (m n : ℕ) → m ≤ n → min n m ≡ m
min_enough m n h = omega arith

-- The status is that of a complete backup only if nothing is missing and the end is archived.
judge-done_iff :
    (end last : Text) (missing : Option Text)
    → (judge end last missing ≡ Checked.saved BackupStatus.done none)
      ↔ ((text_le end last ≡ true) × (missing ≡ none))
judge-done_iff end last none = ground arith
judge-done_iff end last (some w) = ground arith

verdict :
    (first end last : Text) (missing : Option Text) (P : Type 0)
    → (text_le end last ≡ true → (missing ≡ none) ↔ P)
    → ((if text_lt last first
          then ok (Checked.saved BackupStatus.waiting_for_wals none)
          else ok (judge end last missing))
        ≡ ok (Checked.saved BackupStatus.done none))
      ↔ ((text_le first last ≡ true) × (text_le end last ≡ true) × P)
verdict first end last missing P h =
    let j = judge-done_iff end last missing in
    elim (Bool-cases (text_le first last)) [
      | inl y ↦
          rw (text_lt-not_le last first, y)
            (
              λ e. (let r = j.0 (ground (arith, e)) in (refl, r.0, (h r.0).0 r.1)),
              λ e. ap ok (j.1 (e.1, (h e.1).1 e.2)),
            )
      | inr y ↦ rw (text_lt-not_le last first, y) (λ e. ground (arith, e), λ e. ground (arith, e.0))
    ]

module _ (t l s l' s' : ℕ) (ht : t < 2 ^ 32) (hl : l < 2 ^ 32) (hs : s < 2 ^ 32) (hl' : l' < 2 ^ 32)
    (hs' : s' < 2 ^ 32) (b : BackupInfo) where
  abbrev row : ℕ
  row = segments_of b.version (some b.xlog_segment_size)

  -- The segments from the first to the last of the backup
  abbrev needed : List Text
  needed = names_from t row (l * row + s) (l' * row + s' + 1 - (l * row + s))

  check_backup-judge :
      (n : ℕ) (timelines : Dict Text) (exists : Text → Bool) (last : Text)
      → b.begin_wal ≡ some (encode_segment_name t l s)
      → b.end_wal ≡ some (encode_segment_name t l' s')
      → s < row
      → s' < row
      → l' * row + s' + 1 - (l * row + s) ≤ n
      → get timelines (hex8 t) ≡ some last
      → check_backup n timelines exists b ≡ (
          if text_lt last (encode_segment_name t l s)
          then ok (Checked.saved BackupStatus.waiting_for_wals none)
          else ok (judge (encode_segment_name t l' s') last (first_missing exists last needed)))
  unfolding check_backup get_required_wal_segments
  check_backup-judge n timelines exists last begins ends in_log in_log' enough archived = rw (
    begins,
    ends,
    on_end-some (encode_segment_name t l' s') _ (length-encode-pos t l' s' ht),
    take-encode t l s ht,
    archived,
    generate-eq-names_from n t l s l' s' b.version (some b.xlog_segment_size) ht hl hs hl' hs'
        in_log in_log',
    min_enough (l' * row + s' + 1 - (l * row + s)) n enough,
  )

  -- For a backup from one segment of a timeline to another, where WALs of the timeline are
  -- archived, the check marks it as done exactly if the last archived WAL is at or behind both
  -- segments and each segment from the first to the last is in the archive.
  pub check_backup-done_iff :
      (n : ℕ) (timelines : Dict Text) (exists : Text → Bool) (last : Text)
      → b.begin_wal ≡ some (encode_segment_name t l s)
      → b.end_wal ≡ some (encode_segment_name t l' s')
      → s < row
      → s' < row
      → row ≤ 2 ^ 32
      → l' * row + s' + 1 - (l * row + s) ≤ n
      → get timelines (hex8 t) ≡ some last
      → (check_backup n timelines exists b ≡ ok (Checked.saved BackupStatus.done none)) ↔ (
          (text_le (encode_segment_name t l s) last ≡ true)
          × (text_le (encode_segment_name t l' s') last ≡ true)
          × All (λ w. exists w ≡ true) needed)
  check_backup-done_iff n timelines exists last begins ends in_log in_log' small enough archived =
      let first = encode_segment_name t l s in
      let end = encode_segment_name t l' s' in
      let judged = judge end last (first_missing exists last needed) in
      rw (check_backup-judge n timelines exists last begins ends in_log in_log' enough archived) (
        verdict first end last (first_missing exists last needed)
          (All (λ w. exists w ≡ true) needed)
          (λ before. first_missing-none exists last needed (
            All-map (λ w h. text_le_trans w end last h before) needed
              (names_from-before t row l' s' (l * row + s) (l' * row + s' + 1 - (l * row + s)) ht
                hl' hs' in_log' small (omega arith)))))
