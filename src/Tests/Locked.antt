-- ===== src/Tests/Locked.antt =====
-- The theorems on lock files, with two objects for the same file.
use barman.Prelude.{ℕ, ◌≡◌, refl, true, false, none, some, [], ◌++◌, arith}
use barman.Prelude.Int.{pos}
use barman.Text.{text}
use barman.Text.Number.Decimal.{decimal}
use barman.Dict.{get}
use barman.Result.{ok}
use barman.Locks.{
  LockFile, World, Opening, acquire, get_owner_pid, server_cron_lock, lock_file, join,
}
use barman.Locks.Exclusion.{
  System, Reaches, at_start, then_step, acquires, asks, set_lock, one_holder, taken,
}
use barman.Locks.Owner.{acquire-get_owner_pid}

abbrev lock : LockFile
lock = record {
  filename = text "/tmp/.main-cron.lock";
  fd = none;
  raise_if_fail = true;
  wait = false;
}

cron_lock : server_cron_lock (text "/tmp") (text "main") ≡ lock
unfolding server_cron_lock lock_file join
cron_lock = refl

abbrev nothing_open : World
nothing_open = record { files = []; next_fd = 3 }

abbrev can_open : Opening
can_open path = none

abbrev start : System
start = record { locks = λ i. lock; world = nothing_open }

abbrev held : LockFile
held = record lock { fd = some 3 }

abbrev after : World
after = taken lock (decimal 42 ++ text "\n") nothing_open

acquired : acquire can_open 42 none none true lock nothing_open ≡ some (ok true, held, after)
unfolding acquire get
acquired = refl

abbrev later : System
later = record { locks = set_lock 0 held start.locks; world = after }

reached : Reaches can_open start later
reached =
    then_step start later at_start
      (acquires start 0 42 none none true (ok true) held after acquired)

told : get_owner_pid can_open 7 lock after ≡ some (ok (some (pos 42)), lock, after)
told =
    acquire-get_owner_pid can_open 42 7 none none lock held lock nothing_open after refl acquired
      refl refl

abbrev last : System
last = record { locks = set_lock 1 lock later.locks; world = after }

asked : Reaches can_open start last
asked = then_step later last reached (asks later 1 7 (ok (some (pos 42))) lock after told)

one_holder_example : ◌≡◌ {A = ℕ} 0 0
one_holder_example =
    one_holder can_open start last (λ i. refl) (omega arith) asked 0 0 3 3 refl refl refl

acquire-get_owner_pid_example :
    get_owner_pid can_open 7 lock after ≡ some (ok (some (pos 42)), lock, after)
acquire-get_owner_pid_example =
    acquire-get_owner_pid can_open 42 7 none none lock held lock nothing_open after refl acquired
      refl refl
