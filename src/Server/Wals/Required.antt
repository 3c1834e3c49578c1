-- ===== src/Server/Wals/Required.antt =====
-- Which rows `get_required_xlog_files` gives.
use barman.Prelude.{
  ℕ, ◌≡◌, ◌⊎◌, refl, ◌∙◌, Bool, true, false, ◌&&◌, ◌||◌, not, Option, none, some, List, [], ◌∷◌,
  ltb, if◌then◌else◌, arith, All, All-map, Bool-cases, inl, inr,
}
use barman.Text.{Text, text_le}
use barman.Text.Order.{text_le_trans, text_le_total}
use barman.Text.Sort.{Pairwise}
use barman.Result.{Result, ok, err}
use barman.Xlog.Name.{Segment, decode_segment_name, is_history_file}
use barman.Backup.{BackupInfo}
use barman.Catalog.Removal.{WalFileInfo}
use barman.Server.Wals.{
  gives, passes, stops, choose, is_beyond, next_end, remaining_history, required_loop, TargetTli,
  parse_target_tli, chosen_tli, target_wal_of, get_required_xlog_files, known,
}

unfoldable pub keep_rows : (Text → Bool) → List WalFileInfo → List WalFileInfo
keep_rows p [] = []
keep_rows p (w ∷ lines) = let rest = keep_rows p lines in if p w.name then w ∷ rest else rest

-- A file that is not behind the target, if there is one that goes beyond the backup
unfoldable pub is_wanted_beyond : Bool → Option Text → Text → Bool
is_wanted_beyond target_immediate target_wal name =
    not target_immediate && not (is_beyond name target_wal)

abbrev pub tli_at_most : ℕ → Result Segment → Bool
tli_at_most target (err e) = false
tli_at_most target (ok s) = not (ltb target s.0)

-- A history file, or one from the beginning on that is on a timeline up to the target's, and that
-- stands up to `end` or is wanted beyond it
unfoldable pub is_required : ℕ → Text → Bool → Option Text → Text → Text → Bool
is_required target begin immediate target_wal end name =
    is_history_file name
    || (text_le begin name
        && (tli_at_most target (decode_segment_name name)
            && (text_le name end || is_wanted_beyond immediate target_wal name)))

-- Two rows that stand in the order of their names, history files aside
abbrev pub InOrder : WalFileInfo → WalFileInfo → Type 0
InOrder w v = (is_history_file w.name || (is_history_file v.name || text_le w.name v.name)) ≡ true

-- A row that is read, if at all, without an error
abbrev pub IsReadable : WalFileInfo → Type 0
IsReadable w =
    (is_history_file w.name ≡ true) ⊎ ((s : Segment) × (decode_segment_name w.name ≡ ok s))

is_beyond_later :
    (name later : Text) (target_wal : Option Text)
    → text_le name later ≡ true
    → is_beyond name target_wal ≡ true
    → is_beyond later target_wal ≡ true
is_beyond_later name later none h k = cc
is_beyond_later name later (some t) h k = elim (Bool-cases (text_le later t)) [
  | inl e ↦ let le = text_le_trans name later t h e in cc (k, le)
  | inr e ↦ rw e refl
]

keep_rows-ext :
    (p q : Text → Bool) (lines : List WalFileInfo)
    → All (λ (v : WalFileInfo). p v.name ≡ q v.name) lines
    → keep_rows p lines ≡ keep_rows q lines
unfolding keep_rows
keep_rows-ext p q [] h = refl
keep_rows-ext p q (w ∷ lines) h = rw (h.0, keep_rows-ext p q lines h.1) refl

remaining_history-keep_rows :
    (lines : List WalFileInfo) → remaining_history lines ≡ keep_rows is_history_file lines
unfolding remaining_history keep_rows
remaining_history-keep_rows [] = refl
remaining_history-keep_rows (w ∷ lines) = rw (remaining_history-keep_rows lines) refl

module _ (target : ℕ) (begin : Text) (immediate : Bool) (target_wal : Option Text) where
  -- Where nothing is wanted beyond the end, all that is left is history.
  behind_stop :
      (end : Text) (w : WalFileInfo) (lines : List WalFileInfo)
      → is_history_file w.name ≡ false
      → text_le w.name end ≡ false
      → is_wanted_beyond immediate target_wal w.name ≡ false
      → All (InOrder w) lines
      → remaining_history lines
        ≡ keep_rows (is_required target begin immediate target_wal end) lines
  unfolding is_required is_wanted_beyond
  behind_stop end w lines wal beyond unwanted order =
      remaining_history-keep_rows lines
      ∙ keep_rows-ext is_history_file (is_required target begin immediate target_wal end) lines (
          All-map
            (λ (v : WalFileInfo) ordered. elim (Bool-cases (is_history_file v.name)) [
              | inl e ↦ rw e refl
              | inr e ↦
                  let after : text_le w.name v.name ≡ true = ground arith in
                  let past : text_le v.name end ≡ false = elim (Bool-cases (text_le v.name end)) [
                    | inl d ↦ let le = text_le_trans w.name v.name end after d in cc (beyond, le)
                    | inr d ↦ d
                  ] in
                  let later = is_beyond_later w.name v.name target_wal after in ground arith
            ])
            lines order)

  -- An end that has moved gives the same rows.
  moved_same :
      (end name v : Text)
      → text_le name end ≡ false
      → is_wanted_beyond immediate target_wal name ≡ true
      → is_required target begin immediate target_wal name v
        ≡ is_required target begin immediate target_wal end v
  unfolding is_required is_wanted_beyond
  moved_same end name v beyond wanted =
      ground
        (arith, is_beyond_later v name target_wal, text_le_trans v end name, text_le_total name end)

  moved_end :
      (end name : Text) (lines : List WalFileInfo)
      → text_le name end ≡ false
      → is_wanted_beyond immediate target_wal name ≡ true
      → keep_rows (is_required target begin immediate target_wal name) lines
        ≡ keep_rows (is_required target begin immediate target_wal end) lines
  unfolding keep_rows
  moved_end end name [] beyond wanted = refl
  moved_end end name (v ∷ lines) beyond wanted =
      rw (moved_same end name v.name beyond wanted, moved_end end name lines beyond wanted) refl

  -- What the loop does with a WAL file, and whether it is required
  data Decision (end name : Text) : Type 0 where
    left_out :
        choose (some target) begin immediate target_wal end name ≡ ok passes
        → is_required target begin immediate target_wal end name ≡ false
        → Decision end name
    inside :
        choose (some target) begin immediate target_wal end name ≡ ok gives
        → is_required target begin immediate target_wal end name ≡ true
        → text_le name end ≡ true
        → Decision end name
    outside :
        choose (some target) begin immediate target_wal end name ≡ ok gives
        → is_required target begin immediate target_wal end name ≡ true
        → text_le name end ≡ false
        → is_wanted_beyond immediate target_wal name ≡ true
        → Decision end name
    at_stop :
        choose (some target) begin immediate target_wal end name ≡ ok stops
        → is_required target begin immediate target_wal end name ≡ false
        → text_le name end ≡ false
        → is_wanted_beyond immediate target_wal name ≡ false
        → Decision end name

  decide_beyond :
      (end name : Text) (s : Segment)
      → is_history_file name ≡ false
      → text_le begin name ≡ true
      → decode_segment_name name ≡ ok s
      → ltb target s.0 ≡ false
      → text_le name end ≡ false
      → Decision end name
  unfolding choose is_required is_wanted_beyond
  decide_beyond end name s wal from decoded timely beyond = elim (Bool-cases immediate) [
    | inl i ↦
        at_stop (rw (wal, from, decoded, timely, beyond, i) refl)
          (rw (wal, from, decoded, timely, beyond, i) refl) beyond (rw i refl)
    | inr i ↦ elim (Bool-cases (is_beyond name target_wal)) [
      | inl b ↦
          at_stop (rw (wal, from, decoded, timely, beyond, i, b) refl)
            (rw (wal, from, decoded, timely, beyond, i, b) refl) beyond (rw (i, b) refl)
      | inr b ↦
          outside (rw (wal, from, decoded, timely, beyond, i, b) refl)
            (rw (wal, from, decoded, timely, beyond, i, b) refl) beyond (rw (i, b) refl)
    ]
  ]

  decide :
      (end name : Text) (s : Segment)
      → is_history_file name ≡ false
      → decode_segment_name name ≡ ok s
      → Decision end name
  unfolding choose is_required
  decide end name s wal decoded = elim (Bool-cases (text_le begin name)) [
    | inr b ↦ left_out (rw (wal, b) refl) (rw (wal, b) refl)
    | inl b ↦ elim (Bool-cases (ltb target s.0)) [
      | inl t ↦ left_out (rw (wal, b, decoded, t) refl) (rw (wal, b, decoded, t) refl)
      | inr t ↦ elim (Bool-cases (text_le name end)) [
        | inl l ↦ inside (rw (wal, b, decoded, t, l) refl) (rw (wal, b, decoded, t, l) refl) l
        | inr l ↦ decide_beyond end name s wal b decoded t l
      ]
    ]
  ]

  step_keeps :
      (end : Text) (w : WalFileInfo) (lines : List WalFileInfo)
      → is_history_file w.name ≡ false
      → All (InOrder w) lines
      → ((e : Text)
          → required_loop (some target) begin immediate target_wal e lines
            ≡ ok (keep_rows (is_required target begin immediate target_wal e) lines))
      → Decision end w.name
      → required_loop (some target) begin immediate target_wal end (w ∷ lines)
        ≡ ok (keep_rows (is_required target begin immediate target_wal end) (w ∷ lines))
  unfolding required_loop keep_rows next_end
  step_keeps end w lines wal first rest (left_out c kept) = rw (c, rest end, kept) refl
  step_keeps end w lines wal first rest (inside c kept l) = rw (c, wal, l, rest end, kept) refl
  step_keeps end w lines wal first rest (outside c kept l wanted) =
      rw (c, wal, l, rest w.name, moved_end end w.name lines l wanted, kept) refl
  step_keeps end w lines wal first rest (at_stop c kept l unwanted) =
      rw (c, behind_stop end w lines wal l unwanted first, kept) refl

  loop_keeps :
      (end : Text) (lines : List WalFileInfo)
      → All IsReadable lines
      → Pairwise InOrder lines
      → required_loop (some target) begin immediate target_wal end lines
        ≡ ok (keep_rows (is_required target begin immediate target_wal end) lines)
  unfolding required_loop keep_rows
  loop_keeps end [] readable order = refl
  loop_keeps end (w ∷ lines) (here, readable) (first, order) =
      elim (Bool-cases (is_history_file w.name)) [
        | inl e ↦
            let c : choose (some target) begin immediate target_wal end w.name ≡ ok gives =
              unfold choose in rw e refl in
            let stay : next_end (ok gives) end w.name ≡ end = unfold next_end in rw e refl in
            let kept : is_required target begin immediate target_wal end w.name ≡ true =
              unfold is_required in rw e refl in
            rw (c, stay, loop_keeps end lines readable order, kept) refl
        | inr e ↦
            let rest = λ (next : Text). loop_keeps next lines readable order in
            elim here [
              | inl history ↦ cc (e, history)
              | inr decoded ↦
                  step_keeps end w lines e first rest (decide end w.name decoded.0 e decoded.1)
            ]
      ]

-- For an xlogdb whose rows can be read and stand in the order of their names, history files aside,
-- and for a backup whose first and last WAL are known, and a timeline and a last WAL that the target
-- gives: a recovery gets, in the order of the xlogdb, all history files and the WAL files from the
-- first one on, of no later timeline than the target's, up to the backup's last one or, unless the
-- target is immediate, up to the target's, or up to the end where the target has none.
pub get_required_xlog_files-keep_rows :
    (archived : List Text) (backup : BackupInfo) (target_tli : TargetTli) (target_lsn : Option Text)
    (immediate : Bool) (xlogdb : List WalFileInfo) (begin end : Text) (calculated : Option ℕ)
    (tli : ℕ) (target_wal : Option Text)
    → backup.begin_wal ≡ some begin
    → backup.end_wal ≡ some end
    → parse_target_tli archived target_tli (some backup) ≡ ok calculated
    → chosen_tli target_tli end calculated ≡ ok (some tli)
    → target_wal_of target_lsn (some tli) backup.xlog_segment_size ≡ ok target_wal
    → All IsReadable xlogdb
    → Pairwise InOrder xlogdb
    → get_required_xlog_files archived backup target_tli target_lsn immediate xlogdb
      ≡ ok (keep_rows (is_required tli begin immediate target_wal end) xlogdb)
unfolding get_required_xlog_files
get_required_xlog_files-keep_rows archived backup target_tli target_lsn immediate xlogdb begin end
      calculated tli target_wal b e p c t readable order =
    let known_begin : known backup.begin_wal ≡ ok begin = rw b refl in
    let known_end : known backup.end_wal ≡ ok end = rw e refl in
    rw (known_begin, known_end, p, c, t)
      (loop_keeps tli begin immediate target_wal end xlogdb readable order)
