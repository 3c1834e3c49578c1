-- ===== src/Locks/Owner.antt =====
-- Whose process holds a lock.
use barman.Prelude.{
  ℕ, ◌≡◌, refl, ap, ◌∙◌, Bool, true, false, Option, none, some, ◌++◌, if◌then◌else◌,
}
use barman.Prelude.Int.{pos}
use barman.Text.{Text, text, text_eq}
use barman.Text.Order.{text_eq_refl}
use barman.Text.Number.Decimal.{decimal, int_of-decimal}
use barman.Dict.{get}
use barman.Dict.Laws.{get-put}
use barman.Result.{ok}
use barman.Locks.{
  LockFile, FileState, World, Errno, Opening, Called, acquire, get_owner_pid, is_set, file_of,
  flock, on_open, or_default,
}
use barman.Locks.Exclusion.{taken}

flock_writes :
    (raising waiting : Bool) (pid : ℕ) (holder : Option ℕ) (contents : Text) (lock : LockFile)
    (w : World) (lock' : LockFile) (w' : World)
    → flock raising waiting true pid holder contents lock w ≡ some (ok true, lock', w')
    → w' ≡ taken lock (decimal pid ++ text "\n") w
flock_writes raising true pid (some other) contents lock w lock' w' h = cc
flock_writes true false pid (some other) contents lock w lock' w' h = cc
flock_writes false false pid (some other) contents lock w lock' w' h = cc
flock_writes raising waiting pid none contents lock w lock' w' h = cc

on_open_writes :
    (raising waiting : Bool) (pid : ℕ) (errno : Option Errno) (lock : LockFile) (w : World)
    (lock' : LockFile) (w' : World)
    → on_open raising waiting true pid errno lock w ≡ some (ok true, lock', w')
    → (errno ≡ none) × (w' ≡ taken lock (decimal pid ++ text "\n") w)
on_open_writes true waiting pid (some errno) lock w lock' w' h = cc
on_open_writes false waiting pid (some errno) lock w lock' w' h = cc
on_open_writes raising waiting pid none lock w lock' w' h = (
  refl,
  flock_writes raising waiting pid (file_of (get w.files lock.filename)).holder
      (file_of (get w.files lock.filename)).contents lock w lock' w' h,
)

here :
    (path : Text) (file : FileState) (o : Option FileState)
    → (if text_eq path path then some file else o) ≡ some file
here path file o = rw (text_eq_refl path) refl

unless_held :
    (held : Bool) (first call result : Called Bool)
    → held ≡ false
    → (if held then first else call) ≡ result
    → call ≡ result
unless_held true first call result h k = cc
unless_held false first call result h k = k

-- After an object without a descriptor has taken a lock and written its process id, any other
-- object of the same file without a descriptor, of whatever process, is told this id, and neither
-- it nor the world changes.
pub acquire-get_owner_pid :
    (opening : Opening) (pid asking : ℕ) (raise_if_fail wait : Option Bool)
    (lock lock' other : LockFile) (w w' : World)
    → is_set lock.fd ≡ false
    → acquire opening pid raise_if_fail wait true lock w ≡ some (ok true, lock', w')
    → is_set other.fd ≡ false
    → other.filename ≡ lock.filename
    → get_owner_pid opening asking other w' ≡ some (ok (some (pos pid)), other, w')
unfolding acquire get_owner_pid
acquire-get_owner_pid opening pid asking r wait lock lock' other w w' unset call unset' same =
    let raising : Bool = or_default r lock.raise_if_fail in
    let waiting : Bool = or_default wait lock.wait in
    let tried : on_open raising waiting true pid (opening lock.filename) lock w
        ≡ some (ok true, lock', w') =
      unless_held (is_set lock.fd) (some (ok true, lock, w))
        (on_open raising waiting true pid (opening lock.filename) lock w)
        (some (ok true, lock', w')) unset call in
    let written =
      on_open_writes raising waiting pid (opening lock.filename) lock w lock' w' tried in
    let file : FileState = record {
      contents = decimal pid ++ text "\n";
      holder = some w.next_fd;
    } in
    let read : get w'.files lock.filename ≡ some file =
      ap (λ (v : World). get v.files lock.filename) written.1
      ∙ get-put w.files lock.filename lock.filename file
      ∙ here lock.filename file (get w.files lock.filename) in
    rw (unset', same, written.0, read, read, int_of-decimal pid) refl
