-- ===== src/Locks.antt =====
-- The lock files (lockfile.py: `LockFile` and the names of its subclasses).
--
-- The world is what stands in the lock files, which open descriptor has the exclusive `flock` of
-- each, and the next descriptor that `os.open` gives. The errors of `os.open` are a parameter; once
-- a file is open, writing to it and closing it do not fail.
pub mod Exclusion
pub mod Owner
use barman.Prelude.{
  ℕ, zero, suc, ◌+◌, Bool, true, false, Option, none, some, List, [], ◌∷◌, ◌++◌, ◌==◌,
  if◌then◌else◌,
}
use barman.Prelude.Int.{ℤ}
use barman.Text.{Text, text}
use barman.Text.Number.{int_of}
use barman.Text.Number.Decimal.{decimal, readline}
use barman.Dict.{Dict, get, put}
use barman.Result.{
  Result, ok, err, Error, lock_file_busy, lock_file_permission_denied, lock_file_parsing_error,
  os_error,
}

pub record LockFile : Type 0 where
  pub filename : Text
  pub fd : Option ℕ
  pub raise_if_fail : Bool
  pub wait : Bool

pub record FileState : Type 0 where
  pub contents : Text
  pub holder : Option ℕ

pub record World : Type 0 where
  pub files : Dict FileState
  pub next_fd : ℕ

pub data Errno : Type 0 where
  eacces other_errno : Errno

-- What `os.open` says of a path: an error, or that the file is open
abbrev pub Opening : Type 0
Opening = Text → Option Errno

-- `if self.fd:`, which takes the descriptor 0 for none
abbrev pub is_set : Option ℕ → Bool
is_set none = false
is_set (some zero) = false
is_set (some (suc n)) = true

-- The file that `O_CREAT` finds or makes
abbrev pub file_of : Option FileState → FileState
file_of none = record { contents = []; holder = none }
file_of (some file) = file

abbrev pub or_default : Option Bool → Bool → Bool
or_default none default = default
or_default (some given) default = given

abbrev pub error_of : Errno → Error
error_of eacces = lock_file_permission_denied
error_of other_errno = os_error

-- The `except` of `acquire`
abbrev pub fail : Bool → Error → Result Bool
fail raising e = if raising then err e else ok false

-- What a call leaves: its result, the object and the world. `none` is a call that waits.
abbrev pub Called : Type 0 → Type 0
Called V = Option (Result V × LockFile × World)

-- `fcntl.flock`, and the file where it succeeds
abbrev pub flock : Bool → Bool → Bool → ℕ → Option ℕ → Text → LockFile → World → Called Bool
flock raising waiting update_pid pid (some other) contents lock w =
    if waiting then none else some (fail raising lock_file_busy, lock, w)
flock raising waiting update_pid pid none contents lock w = some (
  ok true,
  record lock { fd = some w.next_fd },
  record {
    files = put w.files lock.filename (record {
      contents = if update_pid then decimal pid ++ text "\n" else contents;
      holder = some w.next_fd;
    });
    next_fd = suc w.next_fd;
  },
)

abbrev pub on_open : Bool → Bool → Bool → ℕ → Option Errno → LockFile → World → Called Bool
on_open raising waiting update_pid pid (some errno) lock w =
    some (fail raising (error_of errno), lock, w)
on_open raising waiting update_pid pid none lock w =
    let file = file_of (get w.files lock.filename) in
    flock raising waiting update_pid pid file.holder file.contents lock w

unfoldable pub acquire :
    Opening → ℕ → Option Bool → Option Bool → Bool → LockFile → World → Called Bool
acquire opening pid raise_if_fail wait update_pid lock w =
    if is_set lock.fd
    then some (ok true, lock, w)
    else on_open (or_default raise_if_fail lock.raise_if_fail) (or_default wait lock.wait)
        update_pid pid (opening lock.filename) lock w

-- `LOCK_UN` and `close`, which end the lock of this descriptor only
abbrev pub without : ℕ → Option ℕ → Option ℕ
without fd none = none
without fd (some holder) = if holder == fd then none else some holder

abbrev pub unlock : ℕ → Text → Option FileState → World → World
unlock fd filename none w = w
unlock fd filename (some file) w = record w {
  files = put w.files filename (record file { holder = without fd file.holder });
}

abbrev pub close : Option ℕ → LockFile → World → LockFile × World
close none lock w = (lock, w)
close (some zero) lock w = (lock, w)
close (some (suc n)) lock w =
    (record lock { fd = none }, unlock (suc n) lock.filename (get w.files lock.filename) w)

unfoldable pub release : LockFile → World → LockFile × World
release lock w = close lock.fd lock w

abbrev pub parsed : Option ℤ → Result (Option ℤ)
parsed none = err lock_file_parsing_error
parsed (some pid) = ok (some pid)

-- The `except` of `get_owner_pid`: a lock that is held has its owner in the file.
abbrev pub on_error : Error → FileState → Result (Option ℤ)
on_error lock_file_busy file = parsed (int_of 10 (readline file.contents))
on_error e file = err e

-- What `get_owner_pid` makes of its call of `acquire`
abbrev pub on_acquired : Called Bool → Called (Option ℤ)
on_acquired none = none
on_acquired (some (err e, lock, w)) =
    some (on_error e (file_of (get w.files lock.filename)), lock, w)
on_acquired (some (ok b, lock, w)) =
    let released : LockFile × World = release lock w in some (ok none, released.0, released.1)

unfoldable pub get_owner_pid : Opening → ℕ → LockFile → World → Called (Option ℤ)
get_owner_pid opening pid lock w =
    on_acquired (acquire opening pid (some true) (some false) false lock w)

-- `os.path.join` with a name that is no absolute path, in a directory whose path ends without `/`
unfoldable pub join : Text → Text → Text
join directory name = directory ++ text "/" ++ name

-- The constructors of the subclasses; the directory is an absolute path in its normal form.
unfoldable pub lock_file : Text → Text → Bool → LockFile
lock_file lock_directory name wait = record {
  filename = join lock_directory name;
  fd = none;
  raise_if_fail = true;
  wait = wait;
}

unfoldable pub global_cron_lock : Text → LockFile
global_cron_lock lock_directory = lock_file lock_directory (text ".cron.lock") false

unfoldable pub server_backup_lock : Text → Text → LockFile
server_backup_lock lock_directory server_name =
    lock_file lock_directory (text "." ++ server_name ++ text "-backup.lock") false

unfoldable pub server_cron_lock : Text → Text → LockFile
server_cron_lock lock_directory server_name =
    lock_file lock_directory (text "." ++ server_name ++ text "-cron.lock") false

unfoldable pub server_xlogdb_lock : Text → Text → LockFile
server_xlogdb_lock lock_directory server_name =
    lock_file lock_directory (text "." ++ server_name ++ text "-xlogdb.lock") true

unfoldable pub server_wal_archive_lock : Text → Text → LockFile
server_wal_archive_lock lock_directory server_name =
    lock_file lock_directory (text "." ++ server_name ++ text "-archive-wal.lock") false

unfoldable pub server_wal_receive_lock : Text → Text → LockFile
server_wal_receive_lock lock_directory server_name =
    lock_file lock_directory (text "." ++ server_name ++ text "-receive-wal.lock") false

unfoldable pub server_backup_id_lock : Text → Text → Text → LockFile
server_backup_id_lock lock_directory server_name backup_id =
    lock_file lock_directory (text "." ++ server_name ++ text "-" ++ backup_id ++ text ".lock")
      false

unfoldable pub server_backup_sync_lock : Text → Text → Text → LockFile
server_backup_sync_lock lock_directory server_name backup_id =
    lock_file lock_directory
      (text "." ++ server_name ++ text "-" ++ backup_id ++ text "-sync-backup.lock") false

unfoldable pub server_wal_sync_lock : Text → Text → LockFile
server_wal_sync_lock lock_directory server_name =
    lock_file lock_directory (text "." ++ server_name ++ text "-sync-wal.lock") true

unfoldable pub config_update_lock : Text → LockFile
config_update_lock lock_directory = lock_file lock_directory (text ".config-update.lock") false
