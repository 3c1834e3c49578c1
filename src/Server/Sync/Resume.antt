-- ===== src/Server/Sync/Resume.antt =====
-- A synchronisation that reads on from where the last one stopped.
use std.Path.{subst}
use mathlib.Core.List.{append_assoc}
use barman.Prelude.{
  ℕ, ◌-◌, ◌≡◌, refl, ap, sym, ◌∙◌, Bool, true, false, ◌&&◌, not, Option, none, some, List, [], ◌∷◌,
  ◌++◌, ◌==◌, length, length-append, take, drop, take-length-append, drop-length-append, All, arith,
}
use barman.Text.{Text, text_le, text_lt}
use barman.Text.Sort.{sort_asc}
use barman.Text.Order.{text_eq_refl, text_le_refl, text_lt-not_le}
use barman.Result.{Result, ok, err, >>=-eq-ok, ◌>>=◌}
use barman.Catalog.{Backups, Entry}
use barman.Catalog.Removal.{WalFileInfo}
use barman.Server.Sync.{
  Row, split_lines, set_sync_starting_point, sync_loop, discards, truthy, sync_status, SyncStatus,
  is_older, cons_line, first_begin, finish_status,
}

-- A text that ends with the only end of a line in it
unfoldable pub is_line : Text → Bool
is_line [] = false
is_line (c ∷ []) = c == 10
is_line (c ∷ d ∷ s) = not (c == 10) && is_line (d ∷ s)

abbrev pub join_lines : List Text → Text
join_lines [] = []
join_lines (l ∷ ls) = l ++ join_lines ls

split_lines-line : (l s : Text) → is_line l ≡ true → split_lines (l ++ s) ≡ l ∷ split_lines s
unfolding split_lines is_line
split_lines-line [] s h = cc
split_lines-line (c ∷ []) s h = rw h refl
split_lines-line (c ∷ d ∷ l) s h =
    let other : (c == 10) ≡ false = ground arith in
    let tail : is_line (d ∷ l) ≡ true = ground arith in
    rw other (ap (cons_line c) (split_lines-line (d ∷ l) s tail))

split_lines-join_lines :
    (ls : List Text) (s : Text)
    → All (λ l. is_line l ≡ true) ls
    → split_lines (join_lines ls ++ s) ≡ ls ++ split_lines s
split_lines-join_lines [] s h = refl
split_lines-join_lines (l ∷ ls) s h =
    ap split_lines (append_assoc l (join_lines ls) s)
    ∙ split_lines-line l (join_lines ls ++ s) h.0
    ∙ ap (λ (r : List Text). l ∷ r) (split_lines-join_lines ls s h.1)

-- A row that can be read, and whose file is not newer than `last_wal`
abbrev pub IsUpTo : (Text → Result WalFileInfo) → Text → Text → Type 0
IsUpTo parse last_wal line =
    (v : WalFileInfo) × (parse line ≡ ok v) × (text_le v.name last_wal ≡ true)

not_older :
    (check : Bool) (last_wal name : Text)
    → text_le name last_wal ≡ true
    → (check && is_older (some last_wal) name) ≡ false
not_older check last_wal name h =
    let lt : text_lt last_wal name ≡ false = text_lt-not_le last_wal name ∙ ap not h in
    ground (arith, lt)

repair : (r : Result (List WalFileInfo × Option Row)) → (r >>= λ rest. ok (rest.0, rest.1)) ≡ r
repair (ok v) = refl
repair (err e) = refl

module _ (parse : Text → Result WalFileInfo) (last_wal : Text) (first_useful : Option Text)
    (given : truthy (some last_wal) ≡ true) where
  discard_step :
      (check : Bool) (seen : Option Row) (line : Text) (v : WalFileInfo) (lines : List Text)
      → parse line ≡ ok v
      → text_le v.name last_wal ≡ true
      → sync_loop parse (some last_wal) first_useful check seen (line ∷ lines)
        ≡ sync_loop parse (some last_wal) first_useful false (some (line, v)) lines
  unfolding sync_loop
  discard_step check seen line v lines e le =
      let drops : discards (some last_wal) first_useful v.name ≡ true =
        unfold discards in rw given le in
      rw (e, not_older check last_wal v.name le, drops)
        (repair (sync_loop parse (some last_wal) first_useful false (some (line, v)) lines))

  skip_old :
      (check check' : Bool) (seen seen' : Option Row) (pre tail : List Text) (line : Text)
      → All (IsUpTo parse last_wal) pre
      → IsUpTo parse last_wal line
      → sync_loop parse (some last_wal) first_useful check seen (pre ++ line ∷ tail)
        ≡ sync_loop parse (some last_wal) first_useful check' seen' (line ∷ tail)
  skip_old check check' seen seen' [] tail line old (w, e, le) =
      discard_step check seen line w tail e le ∙ sym (discard_step check' seen' line w tail e le)
  skip_old check check' seen seen' (l ∷ pre) tail line ((v, e, le), old) here =
      discard_step check seen l v (pre ++ line ∷ tail) e le
      ∙ skip_old false check' (some (l, v)) seen' pre tail line old here

-- Where the position is that of a row with the last WAL's name, the reading starts there.
start_there :
    (before behind name more : Text)
    → length name ≡ 24
    → set_sync_starting_point
        (before ++ ((name ++ more) ++ behind))
        (some name)
        (some (length before))
      ≡ length before
unfolding set_sync_starting_point
start_there before behind name more size =
    let read : take 24 ((name ++ more) ++ behind) ≡ name =
      ap (take 24) (append_assoc name more behind)
      ∙ ap (λ (n : ℕ). take n (name ++ (more ++ behind))) (sym size)
      ∙ take-length-append name (more ++ behind) in
    rw (drop-length-append before ((name ++ more) ++ behind), read, text_eq_refl name) refl

start_anew :
    (xlogdb : Text) (last_wal : Option Text) → set_sync_starting_point xlogdb last_wal none ≡ 0
unfolding set_sync_starting_point
start_anew xlogdb last_wal = ground arith

long_truthy : (t : Text) → length t ≡ 24 → truthy (some t) ≡ true
long_truthy [] h = absurd (omega arith)
long_truthy (c ∷ t) h = refl

sync_status-resume :
    (parse : Text → Result WalFileInfo) (backups : Backups) (pre : List Text)
    (line behind more : Text) (w : WalFileInfo)
    → All (λ l. is_line l ≡ true) pre
    → is_line line ≡ true
    → line ≡ w.name ++ more
    → length w.name ≡ 24
    → parse line ≡ ok w
    → All (IsUpTo parse w.name) pre
    → sync_status parse backups
        (join_lines pre ++ (line ++ behind))
        (some w.name)
        (some (length (join_lines pre)))
      ≡ sync_status parse backups (join_lines pre ++ (line ++ behind)) (some w.name) none
unfolding sync_status
sync_status-resume parse backups pre line behind more w lines last starts size e old =
    let before : Text = join_lines pre in
    let xlogdb : Text = before ++ (line ++ behind) in
    let there : set_sync_starting_point xlogdb (some w.name) (some (length before))
        ≡ length before =
      ap
        (λ (l : Text).
          set_sync_starting_point (before ++ (l ++ behind)) (some w.name) (some (length before)))
        starts
      ∙ start_there before behind w.name more size in
    let anew = start_anew xlogdb (some w.name) in
    let rest : split_lines (drop (length before) xlogdb) ≡ line ∷ split_lines behind =
      ap split_lines (drop-length-append before (line ++ behind))
      ∙ split_lines-line line behind last in
    let whole : split_lines xlogdb ≡ pre ++ line ∷ split_lines behind =
      split_lines-join_lines pre (line ++ behind) lines
      ∙ ap (λ (ls : List Text). pre ++ ls) (split_lines-line line behind last) in
    let first : Option Text = first_begin (sort_asc (λ (x : Entry). x.0) backups) in
    let skipped =
      skip_old parse w.name first (long_truthy w.name size) true ((length before == 0) && true) none
        none pre (split_lines behind) line old (w, e, text_le_refl w.name) in
    rw (there, rest, anew, whole, skipped) refl

ok_second :
    (l : List WalFileInfo) (o : Option Row) (r : List WalFileInfo × Option Row)
    → ok (l, o) ≡ ok r
    → r.1 ≡ o
ok_second l o r h = cc

last_seen :
    (parse : Text → Result WalFileInfo) (first_useful : Option Text) (seen : Option Row)
    (pre : List Text) (line : Text) (w : WalFileInfo) (r : List WalFileInfo × Option Row)
    → parse line ≡ ok w
    → sync_loop parse none first_useful false seen (pre ++ line ∷ []) ≡ ok r
    → r.1 ≡ some (line, w)
unfolding sync_loop
last_seen parse first_useful seen [] line w r e h =
    let (v, read, k) = >>=-eq-ok (parse line) _ h in
    let same : v ≡ w = cc (read, e) in
    ok_second _ (some (line, v)) r k ∙ ap (λ (u : WalFileInfo). some (line, u)) same
last_seen parse first_useful seen (l ∷ pre) line w r e h =
    let (v, read, k) = >>=-eq-ok (parse l) _ h in
    let (q, rest, same) =
      >>=-eq-ok (sync_loop parse none first_useful false (some (l, v)) (pre ++ line ∷ [])) _ k in
    let behind = last_seen parse first_useful (some (l, v)) pre line w q e rest in
    ok_second _ q.1 r same ∙ behind

status_of_row :
    (xlogdb line : Text) (backups : Backups) (w : WalFileInfo) (wals : List WalFileInfo)
    (o : Option Row) (status : SyncStatus)
    → o ≡ some (line, w)
    → finish_status xlogdb none backups wals o ≡ ok status
    → (status.last_position ≡ length xlogdb - length line) × (status.last_name ≡ w.name)
status_of_row xlogdb line backups w wals none status e h = cc
status_of_row xlogdb line backups w wals (some (l, v)) status e h =
    let made : SyncStatus = record {
      last_position = length xlogdb - length l;
      last_name = v.name;
      backups = backups;
      wals = wals;
    } in
    let same : made ≡ status = cc h in
    let row : (l, v) ≡ (line, w) = cc e in
    (
      ap (λ (s : SyncStatus). s.last_position) (sym same)
          ∙ ap (λ (r : Row). length xlogdb - length r.0) row,
      ap (λ (s : SyncStatus). s.last_name) (sym same) ∙ ap (λ (r : Row). r.1.name) row,
    )

sync_status-position :
    (parse : Text → Result WalFileInfo) (backups : Backups) (pre : List Text) (line : Text)
    (w : WalFileInfo) (status : SyncStatus)
    → All (λ l. is_line l ≡ true) pre
    → is_line line ≡ true
    → parse line ≡ ok w
    → sync_status parse backups (join_lines pre ++ (line ++ [])) none none ≡ ok status
    → (status.last_position ≡ length (join_lines pre)) × (status.last_name ≡ w.name)
unfolding sync_status split_lines
sync_status-position parse backups pre line w status lines last e h =
    let xlogdb : Text = join_lines pre ++ (line ++ []) in
    let whole : split_lines xlogdb ≡ pre ++ line ∷ [] =
      split_lines-join_lines pre (line ++ []) lines
      ∙ ap (λ (ls : List Text). pre ++ ls) (split_lines-line line [] last) in
    let anew = start_anew xlogdb none in
    let first : Option Text = first_begin (sort_asc (λ (x : Entry). x.0) backups) in
    let call : (sync_loop parse none first false none (pre ++ line ∷ []) >>= λ read.
    finish_status xlogdb none backups read.0 read.1)
        ≡ ok status =
      rw⁻¹ whole (
        subst
          (λ (p : ℕ).
            (sync_loop parse none first ((p == 0) && false) none (split_lines (drop p xlogdb))
              >>= λ read. finish_status xlogdb none backups read.0 read.1)
            ≡ ok status)
          anew h) in
    let (r, read, finished) =
      >>=-eq-ok (sync_loop parse none first false none (pre ++ line ∷ [])) _ call in
    let told =
      status_of_row xlogdb line backups w r.0 r.1 status
        (last_seen parse first none pre line w r e read) finished in
    (
      omega (arith, told.0, length-append (join_lines pre) (line ++ []), length-append line []),
      told.1,
    )

-- Rows that end with the only end of a line in them, of which the last begins with a name of 24
-- characters and is not older than the others: after a first status, which reads all of them, a
-- later one that reads on from the position which the first has told gives, on the xlogdb with
-- whatever has been appended, the same as one that reads all of it and leaves out what is not newer:
-- the same WAL files, position and name, or the same error.
pub sync_status-twice :
    (parse : Text → Result WalFileInfo) (backups later : Backups) (pre : List Text)
    (line behind more : Text) (w : WalFileInfo) (status : SyncStatus)
    → All (λ l. is_line l ≡ true) pre
    → is_line line ≡ true
    → line ≡ w.name ++ more
    → length w.name ≡ 24
    → parse line ≡ ok w
    → All (IsUpTo parse w.name) pre
    → sync_status parse backups (join_lines pre ++ (line ++ [])) none none ≡ ok status
    → sync_status parse later
        (join_lines pre ++ (line ++ behind))
        (some status.last_name)
        (some status.last_position)
      ≡ sync_status parse later (join_lines pre ++ (line ++ behind)) (some status.last_name) none
sync_status-twice parse backups later pre line behind more w status lines last starts size e old h =
    let told = sync_status-position parse backups pre line w status lines last e h in
    rw (told.0, told.1)
      (sync_status-resume parse later pre line behind more w lines last starts size e old)
