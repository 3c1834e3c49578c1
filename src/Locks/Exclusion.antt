-- ===== src/Locks/Exclusion.antt =====
-- Several lock objects over the same files.
use std.Path.{fun_ext, subst}
use barman.Prelude.{
  ℕ, zero, suc, ◌≤◌, ◌<◌, ◌≡◌, ◌≢◌, refl, ap, sym, ◌∙◌, Bool, true, false, Option, none, some, ◌++◌,
  ◌==◌, ==_iff, ◌⊎◌, if◌then◌else◌, arith, Bool-cases, inl, inr,
}
use barman.Prelude.Int.{ℤ}
use barman.Text.{Text, text, text_eq}
use barman.Text.Number.Decimal.{decimal}
use barman.Text.Order.{text_eq_iff, text_eq_refl}
use barman.Dict.{get, put}
use barman.Dict.Laws.{get-put}
use barman.Result.{Result, ok, err}
use barman.Locks.{
  LockFile, FileState, World, Errno, Opening, Called, get_owner_pid, on_acquired, or_default,
  acquire, release, is_set, file_of, flock, on_open, close, unlock, without,
}

-- Lock objects by number, and the world that they share
pub record System : Type 0 where
  pub locks : ℕ → LockFile
  pub world : World

abbrev pub set_lock : ℕ → LockFile → (ℕ → LockFile) → ℕ → LockFile
set_lock i lock locks j = if i == j then lock else locks j

-- The object `i` calls a method.
pub data Step (opening : Opening) : System → System → Type 0 where
  acquires :
      (s : System) (i pid : ℕ) (raise_if_fail wait : Option Bool) (update_pid : Bool)
      (result : Result Bool) (lock : LockFile) (w : World)
      → acquire opening pid raise_if_fail wait update_pid (s.locks i) s.world
        ≡ some (result, lock, w)
      → Step opening s (record { locks = set_lock i lock s.locks; world = w })
  releases :
      (s : System) (i : ℕ)
      → Step opening s (record {
        locks = set_lock i (release (s.locks i) s.world).0 s.locks;
        world = (release (s.locks i) s.world).1;
      })
  asks :
      (s : System) (i pid : ℕ) (result : Result (Option ℤ)) (lock : LockFile) (w : World)
      → get_owner_pid opening pid (s.locks i) s.world ≡ some (result, lock, w)
      → Step opening s (record { locks = set_lock i lock s.locks; world = w })

pub data Reaches (opening : Opening) (start : System) : System → Type 0 where
  at_start : Reaches opening start start
  then_step : (s t : System) → Reaches opening start s → Step opening s t → Reaches opening start t

unfoldable pub holder_in : World → Text → Option ℕ
holder_in w path = (file_of (get w.files path)).holder

-- The world in which a lock has been taken: what the file holds then, and the next descriptor
abbrev pub taken : LockFile → Text → World → World
taken lock contents w = record {
  files = put w.files lock.filename (record { contents = contents; holder = some w.next_fd });
  next_fd = suc w.next_fd;
}

-- What a call of `acquire` has done: nothing, or it has taken a lock that was free.
abbrev IsAcquired : LockFile → World → LockFile → World → Type 0
IsAcquired lock w lock' w' =
    ((lock' ≡ lock) × (w' ≡ w))
    ⊎ ((holder_in w lock.filename ≡ none)
        × (lock' ≡ record lock { fd = some w.next_fd })
        × ((contents : Text) × (w' ≡ taken lock contents w)))

flock-IsAcquired :
    (raising waiting update_pid : Bool) (pid : ℕ) (holder : Option ℕ) (contents : Text)
    (lock : LockFile) (w : World) (result : Result Bool) (lock' : LockFile) (w' : World)
    → holder ≡ holder_in w lock.filename
    → flock raising waiting update_pid pid holder contents lock w ≡ some (result, lock', w')
    → IsAcquired lock w lock' w'
flock-IsAcquired raising true u pid (some other) contents lock w result lock' w' e h = cc
flock-IsAcquired raising false u pid (some other) contents lock w result lock' w' e h = inl (cc, cc)
flock-IsAcquired raising waiting u pid none contents lock w result lock' w' e h =
    inr (sym e, cc, ((if u then decimal pid ++ text "\n" else contents), cc))

on_open-IsAcquired :
    (raising waiting update_pid : Bool) (pid : ℕ) (errno : Option Errno) (lock : LockFile)
    (w : World) (result : Result Bool) (lock' : LockFile) (w' : World)
    → on_open raising waiting update_pid pid errno lock w ≡ some (result, lock', w')
    → IsAcquired lock w lock' w'
on_open-IsAcquired raising waiting u pid (some errno) lock w result lock' w' h = inl (cc, cc)
on_open-IsAcquired raising waiting u pid none lock w result lock' w' h =
    let file : FileState = file_of (get w.files lock.filename) in
    flock-IsAcquired raising waiting u pid file.holder file.contents lock w result lock' w'
      (unfold holder_in in refl) h

unless_set-IsAcquired :
    (held : Bool) (call : Called Bool) (lock : LockFile) (w : World) (result : Result Bool)
    (lock' : LockFile) (w' : World)
    → (call ≡ some (result, lock', w') → IsAcquired lock w lock' w')
    → (if held then some (ok true, lock, w) else call) ≡ some (result, lock', w')
    → IsAcquired lock w lock' w'
unless_set-IsAcquired true call lock w result lock' w' rest h = inl (cc, cc)
unless_set-IsAcquired false call lock w result lock' w' rest h = rest h

acquire-IsAcquired :
    (opening : Opening) (pid : ℕ) (raise_if_fail wait : Option Bool) (update_pid : Bool)
    (lock : LockFile) (w : World) (result : Result Bool) (lock' : LockFile) (w' : World)
    → acquire opening pid raise_if_fail wait update_pid lock w ≡ some (result, lock', w')
    → IsAcquired lock w lock' w'
unfolding acquire
acquire-IsAcquired opening pid r wait u lock w result lock' w' h =
    unless_set-IsAcquired (is_set lock.fd)
      (on_open (or_default r lock.raise_if_fail) (or_default wait lock.wait) u pid
        (opening lock.filename) lock w)
      lock w result lock' w'
      (on_open-IsAcquired (or_default r lock.raise_if_fail) (or_default wait lock.wait) u pid
        (opening lock.filename) lock w result lock' w')
      h

-- Each descriptor that an object has is in use and holds the lock of the object's file, and no two
-- objects have the same one.
pub record IsSound (s : System) : Type 0 where
  pub next : 1 ≤ s.world.next_fd
  pub used : (i n : ℕ) → (s.locks i).fd ≡ some n → (1 ≤ n) × (n < s.world.next_fd)
  pub holds : (i n : ℕ) → (s.locks i).fd ≡ some n → holder_in s.world (s.locks i).filename ≡ some n
  pub alone : (i j n : ℕ) → (s.locks i).fd ≡ some n → (s.locks j).fd ≡ some n → i ≡ j

pub read_holder :
    (here : Bool) (file : FileState) (o : Option FileState)
    → (file_of (if here then some file else o)).holder
      ≡ (if here then file.holder else (file_of o).holder)
read_holder true file o = refl
read_holder false file o = refl

holder_in-put :
    (w : World) (filename path : Text) (file : FileState) (next_fd : ℕ)
    → holder_in (record { files = put w.files filename file; next_fd = next_fd }) path
      ≡ (if text_eq filename path then file.holder else holder_in w path)
unfolding holder_in
holder_in-put w filename path file next_fd =
    ap (λ (o : Option FileState). (file_of o).holder) (get-put w.files filename path file)
    ∙ read_holder (text_eq filename path) file (get w.files path)

set_lock-cases :
    (i j : ℕ) (lock : LockFile) (locks : ℕ → LockFile)
    → ((i ≡ j) × (set_lock i lock locks j ≡ lock)) ⊎ ((i ≢ j) × (set_lock i lock locks j ≡ locks j))
set_lock-cases i j lock locks = elim (Bool-cases (i == j)) [
  | inl e ↦ inl ((==_iff i j).0 e, rw e refl)
  | inr e ↦ inr ((λ p. ground arith), rw e refl)
]

set_lock-filename :
    (i j : ℕ) (lock : LockFile) (locks : ℕ → LockFile)
    → lock.filename ≡ (locks i).filename
    → (set_lock i lock locks j).filename ≡ (locks j).filename
set_lock-filename i j lock locks h = elim (set_lock-cases i j lock locks) [
  | inl e ↦ ap (λ (l : LockFile). l.filename) e.1 ∙ h ∙ ap (λ (k : ℕ). (locks k).filename) e.0
  | inr e ↦ ap (λ (l : LockFile). l.filename) e.1
]

if-true : (b : Bool) (x y : Option ℕ) → b ≡ true → (if b then x else y) ≡ x
if-true true x y h = refl
if-true false x y h = cc

-- A holder of another file keeps its lock.
kept :
    (w : World) (filename path : Text) (holder : Option ℕ) (n : ℕ)
    → holder_in w path ≡ some n
    → (text_eq filename path ≡ true → holder ≡ some n)
    → (if text_eq filename path then holder else holder_in w path) ≡ some n
kept w filename path holder n h same = elim (Bool-cases (text_eq filename path)) [
  | inl e ↦ rw e (same e)
  | inr e ↦ rw e h
]

taken-IsSound :
    (s : System) (i : ℕ) (contents : Text)
    → IsSound s
    → holder_in s.world (s.locks i).filename ≡ none
    → IsSound (record {
      locks = set_lock i (record (s.locks i) { fd = some s.world.next_fd }) s.locks;
      world = taken (s.locks i) contents s.world;
    })
taken-IsSound s i contents sound free =
    let lock : LockFile = record (s.locks i) { fd = some s.world.next_fd } in
    let file : FileState = record { contents = contents; holder = some s.world.next_fd } in
    let is_fresh : (j n : ℕ) → (s.locks j).fd ≡ some n → n ≢ s.world.next_fd =
      λ j n h e. omega (arith, sound.used j n h) in
    let cases = λ (j : ℕ). set_lock-cases i j lock s.locks in
    record {
      next = omega (arith, sound.next);
      used = λ j n h. elim (cases j) [
        | inl e ↦
            let same : s.world.next_fd ≡ n = cc (h, e.1) in (omega (arith, sound.next), omega arith)
        | inr e ↦
            let old : (s.locks j).fd ≡ some n = cc (h, e.1) in omega (arith, sound.used j n old)
      ];
      holds = λ j n h.
          ap (holder_in (taken (s.locks i) contents s.world))
            (set_lock-filename i j lock s.locks refl)
          ∙ holder_in-put s.world (s.locks i).filename (s.locks j).filename file
              (suc s.world.next_fd)
          ∙ (elim (cases j) [
            | inl e ↦
                let same : s.world.next_fd ≡ n = cc (h, e.1) in
                let here : text_eq (s.locks i).filename (s.locks j).filename ≡ true =
                  ap (λ (k : ℕ). text_eq (s.locks i).filename (s.locks k).filename) (sym e.0)
                  ∙ text_eq_refl (s.locks i).filename in
                if-true (text_eq (s.locks i).filename (s.locks j).filename) (some s.world.next_fd)
                  (holder_in s.world (s.locks j).filename) here
                ∙ ap (λ (m : ℕ). some m) same
            | inr e ↦
                let old : (s.locks j).fd ≡ some n = cc (h, e.1) in
                kept s.world (s.locks i).filename (s.locks j).filename (some s.world.next_fd) n
                  (sound.holds j n old)
                  (λ same.
                    let path : (s.locks i).filename ≡ (s.locks j).filename =
                      (text_eq_iff (s.locks i).filename (s.locks j).filename).0 same in
                    let held : holder_in s.world (s.locks i).filename ≡ some n =
                      ap (holder_in s.world) path ∙ sound.holds j n old in
                    cc (held, free))
          ]);
      alone = λ j k n hj hk. elim (cases j) [
        | inl e ↦ elim (cases k) [
          | inl d ↦ cc (e.0, d.0)
          | inr d ↦
              let old : (s.locks k).fd ≡ some n = cc (hk, d.1) in
              let new : s.world.next_fd ≡ n = cc (hj, e.1) in absurd (is_fresh k n old (sym new))
        ]
        | inr e ↦ elim (cases k) [
          | inl d ↦
              let old : (s.locks j).fd ≡ some n = cc (hj, e.1) in
              let new : s.world.next_fd ≡ n = cc (hk, d.1) in absurd (is_fresh j n old (sym new))
          | inr d ↦ sound.alone j k n (cc (hj, e.1)) (cc (hk, d.1))
        ]
      ];
    }

unchanged-IsSound :
    (s : System) (i : ℕ) (lock : LockFile) (w : World)
    → lock ≡ s.locks i
    → w ≡ s.world
    → IsSound s
    → IsSound (record { locks = set_lock i lock s.locks; world = w })
unchanged-IsSound s i lock w same same_world sound =
    let at : (j : ℕ) → set_lock i lock s.locks j ≡ s.locks j = λ j.
      elim (set_lock-cases i j lock s.locks) [
        | inl e ↦ e.1 ∙ same ∙ ap s.locks e.0
        | inr e ↦ e.1
      ] in
    let next : w.next_fd ≡ s.world.next_fd = ap (λ (v : World). v.next_fd) same_world in
    let had : (j n : ℕ) → (set_lock i lock s.locks j).fd ≡ some n → (s.locks j).fd ≡ some n =
      λ j n h. ap (λ (l : LockFile). l.fd) (sym (at j)) ∙ h in
    record {
      next = omega (arith, sound.next);
      used = λ j n h. omega (arith, sound.used j n (had j n h));
      holds = λ j n h.
          ap (λ (v : World). holder_in v (set_lock i lock s.locks j).filename) same_world
          ∙ ap (λ (l : LockFile). holder_in s.world l.filename) (at j)
          ∙ sound.holds j n (had j n h);
      alone = λ j k n hj hk. sound.alone j k n (had j n hj) (had k n hk);
    }

holder_in-unlock :
    (w : World) (fd : ℕ) (filename path : Text) (o : Option FileState)
    → o ≡ get w.files filename
    → holder_in (unlock fd filename o w) path
      ≡ (if text_eq filename path then without fd (file_of o).holder else holder_in w path)
holder_in-unlock w fd filename path (some file) e =
    holder_in-put w filename path (record file { holder = without fd file.holder }) w.next_fd
holder_in-unlock w fd filename path none e = elim (Bool-cases (text_eq filename path)) [
  | inl h ↦
      let here : get w.files path ≡ none =
        ap (get w.files) (sym ((text_eq_iff filename path).0 h)) ∙ sym e in
      let free : holder_in w path ≡ none =
        unfold holder_in in ap (λ (o : Option FileState). (file_of o).holder) here in
      rw h free
  | inr h ↦ rw h refl
]

next_fd-unlock :
    (w : World) (fd : ℕ) (filename : Text) (o : Option FileState)
    → (unlock fd filename o w).next_fd ≡ w.next_fd
next_fd-unlock w fd filename none = refl
next_fd-unlock w fd filename (some file) = refl

without_other : (fd n : ℕ) (o : Option ℕ) → o ≡ some n → n ≢ fd → without fd o ≡ some n
without_other fd n none h k = cc
without_other fd n (some m) h k =
    let other : (m == fd) ≡ false = elim (Bool-cases (m == fd)) [
      | inl e ↦ absurd (k (cc ((==_iff m fd).0 e, h)))
      | inr e ↦ e
    ] in
    rw other h

unlocked-IsSound :
    (s : System) (i fd : ℕ)
    → IsSound s
    → (s.locks i).fd ≡ some fd
    → IsSound (record {
      locks = set_lock i (record (s.locks i) { fd = none }) s.locks;
      world = unlock fd (s.locks i).filename (get s.world.files (s.locks i).filename) s.world;
    })
unlocked-IsSound s i fd sound own =
    let path : Text = (s.locks i).filename in
    let o : Option FileState = get s.world.files path in
    let lock : LockFile = record (s.locks i) { fd = none } in
    let next = next_fd-unlock s.world fd path o in
    let old : (j n : ℕ)
        → (set_lock i lock s.locks j).fd ≡ some n
        → (i ≢ j) × ((s.locks j).fd ≡ some n) =
      λ j n h. elim (set_lock-cases i j lock s.locks) [
        | inl e ↦ cc (h, e.1)
        | inr e ↦ (e.0, cc (h, e.1))
      ] in
    record {
      next = omega (arith, sound.next, next);
      used = λ j n h. omega (arith, sound.used j n (old j n h).1, next);
      holds = λ j n h.
          let other : n ≢ fd = λ e.
            (old j n h).0
              (sound.alone i j n (own ∙ ap (λ (m : ℕ). some m) (sym e)) (old j n h).1) in
          ap (holder_in (unlock fd path o s.world)) (set_lock-filename i j lock s.locks refl)
          ∙ holder_in-unlock s.world fd path (s.locks j).filename o refl
          ∙ kept s.world path (s.locks j).filename (without fd (file_of o).holder) n
              (sound.holds j n (old j n h).1)
              (λ same.
                without_other fd n (file_of o).holder
                  (unfold holder_in in
                    ap (holder_in s.world) ((text_eq_iff path (s.locks j).filename).0 same)
                    ∙ sound.holds j n (old j n h).1)
                  other);
      alone = λ j k n hj hk. sound.alone j k n (old j n hj).1 (old k n hk).1;
    }

close-IsSound :
    (s : System) (i : ℕ) (fd : Option ℕ)
    → (s.locks i).fd ≡ fd
    → IsSound s
    → IsSound (record {
      locks = set_lock i (close fd (s.locks i) s.world).0 s.locks;
      world = (close fd (s.locks i) s.world).1;
    })
close-IsSound s i none own sound = unchanged-IsSound s i (s.locks i) s.world refl refl sound
close-IsSound s i (some zero) own sound = unchanged-IsSound s i (s.locks i) s.world refl refl sound
close-IsSound s i (some (suc fd)) own sound = unlocked-IsSound s i (suc fd) sound own

acquired-IsSound :
    (s : System) (i : ℕ) (lock : LockFile) (w : World)
    → IsSound s
    → IsAcquired (s.locks i) s.world lock w
    → IsSound (record { locks = set_lock i lock s.locks; world = w })
acquired-IsSound s i lock w sound (inl (same, same_world)) =
    unchanged-IsSound s i lock w same same_world sound
acquired-IsSound s i lock w sound (inr (free, same, (contents, same_world))) =
    rw (same, same_world) (taken-IsSound s i contents sound free)

set_lock-twice :
    (i : ℕ) (lock other : LockFile) (locks : ℕ → LockFile)
    → set_lock i lock (set_lock i other locks) ≡ set_lock i lock locks
set_lock-twice i lock other locks = fun_ext (λ j. ground arith)

asked-IsSound :
    (s : System) (i : ℕ) (call : Called Bool) (result : Result (Option ℤ)) (lock : LockFile)
    (w : World)
    → IsSound s
    → ((r : Result Bool) (l : LockFile) (v : World)
        → call ≡ some (r, l, v)
        → IsAcquired (s.locks i) s.world l v)
    → on_acquired call ≡ some (result, lock, w)
    → IsSound (record { locks = set_lock i lock s.locks; world = w })
asked-IsSound s i none result lock w sound done h = cc
asked-IsSound s i (some (err e, l, v)) result lock w sound done h =
    let same : lock ≡ l = cc in
    let same_world : w ≡ v = cc in
    rw (same, same_world) (acquired-IsSound s i l v sound (done (err e) l v refl))
asked-IsSound s i (some (ok b, l, v)) result lock w sound done h =
    let mid : System = record { locks = set_lock i l s.locks; world = v } in
    let mid_sound : IsSound mid = acquired-IsSound s i l v sound (done (ok b) l v refl) in
    let released : LockFile × World = release l v in
    let same : lock ≡ released.0 = cc in
    let same_world : w ≡ released.1 = cc in
    let own : set_lock i l s.locks i ≡ l = ground arith in
    rw (same, same_world)
      (rw⁻¹ (set_lock-twice i released.0 l s.locks) (
        unfold release in
        subst
          (λ (k : LockFile). IsSound (record {
            locks = set_lock i (close k.fd k v).0 mid.locks;
            world = (close k.fd k v).1;
          }))
          own (close-IsSound mid i (set_lock i l s.locks i).fd refl mid_sound)))

Step-IsSound : {opening : Opening} {s t : System} → Step opening s t → IsSound s → IsSound t
Step-IsSound {opening} (acquires s i pid r wait u result lock w h) sound =
    acquired-IsSound s i lock w sound
      (acquire-IsAcquired opening pid r wait u (s.locks i) s.world result lock w h)
Step-IsSound (releases s i) sound = unfold release in close-IsSound s i (s.locks i).fd refl sound
Step-IsSound {opening} (asks s i pid result lock w h) sound =
    unfold get_owner_pid in
    asked-IsSound s i (acquire opening pid (some true) (some false) false (s.locks i) s.world)
      result lock w sound
      (acquire-IsAcquired opening pid (some true) (some false) false (s.locks i) s.world) h

Reaches-IsSound :
    {opening : Opening} {start s : System} → Reaches opening start s → IsSound start → IsSound s
Reaches-IsSound at_start sound = sound
Reaches-IsSound (then_step s t reached step) sound =
    Step-IsSound step (Reaches-IsSound reached sound)

-- However lock objects are used over the same files, each lock file is held by at most one of them:
-- two objects of the same file that both have a descriptor are the same. No object has one at the
-- start.
pub one_holder :
    (opening : Opening) (start s : System)
    → ((i : ℕ) → (start.locks i).fd ≡ none)
    → 1 ≤ start.world.next_fd
    → Reaches opening start s
    → (i j n m : ℕ) → (s.locks i).fd ≡ some n
    → (s.locks j).fd ≡ some m
    → (s.locks i).filename ≡ (s.locks j).filename
    → i ≡ j
one_holder opening start s fresh next reached i j n m hi hj same =
    let begin : IsSound start = record {
      next = next;
      used = λ k o h. cc (h, fresh k);
      holds = λ k o h. cc (h, fresh k);
      alone = λ k l o hk hl. cc (hk, fresh k);
    } in
    let sound = Reaches-IsSound reached begin in
    let shared : n ≡ m = cc (sound.holds i n hi, sound.holds j m hj, ap (holder_in s.world) same) in
    sound.alone i j m (hi ∙ ap (λ (o : ℕ). some o) shared) hj
