-- ===== src/Hooks.antt =====
-- The hook scripts (hooks.py: `HookScriptRunner`, `RetryHookScriptRunner`).
--
-- The script itself is a parameter: what its n-th run does. The loop of a retry hook takes fuel and
-- lists the seconds that it sleeps; `none` says that the fuel ran out.
pub mod Retry
use barman.Prelude.{
  ℕ, zero, suc, ◌+◌, Bool, true, false, ◌||◌, Option, none, some, List, [], ◌∷◌, ◌++◌, ◌==◌, leb,
  if◌then◌else◌,
}
use barman.Prelude.Int.{ℤ, pos, negsuc}
use barman.Text.{Text, text}
use barman.Dict.{Dict, put}
use barman.Result.{Result, ok, err, Error, unknown_backup_id, aborted_retry_hook_script, ◌>>=◌}
use barman.Backup.{
  BackupInfo, BackupStatus, empty, started, failed, waiting_for_wals, done, syncing,
}

pub record HookScriptRunner : Type 0 where
  pub name : Text
  pub environment : Dict Text
  pub exit_status : Option ℤ
  pub raised : Option Error
  pub script : Option Text

-- `self.environment.update(...)`
unfoldable pub update : Dict Text → Dict Text → Dict Text
update environment [] = environment
update environment ((key, value) ∷ values) = update (put environment key value) values

-- What a runner knows of barman: its version, and of the configuration the server's name, the file,
-- and the value of an option, if there is such an option
pub record Setting : Type 0 where
  pub version : Text
  pub server : Text
  pub config_file : Text
  pub option : Text → Option Text

abbrev with_error : Option Text → Dict Text → Dict Text
with_error none environment = environment
with_error (some e) environment = put environment (text "BARMAN_ERROR") e

abbrev with_phase : Option Text → Dict Text → Dict Text
with_phase none environment = environment
with_phase (some phase) environment = put environment (text "BARMAN_PHASE") phase

abbrev script_config_name : Option Text → Text → Text
script_config_name none name = name
script_config_name (some phase) name = phase ++ text "_" ++ name

-- `__init__`, which ends with `reset`
unfoldable pub reset :
    Setting → Text → Option Text → Option Text → Bool → Dict Text → HookScriptRunner
reset setting name phase error retry extra_env = record {
  name = name;
  environment = with_phase phase (
      with_error error (
        update extra_env (
          (text "BARMAN_VERSION", setting.version)
          ∷ (text "BARMAN_SERVER", setting.server)
          ∷ (text "BARMAN_CONFIGURATION", setting.config_file)
          ∷ (text "BARMAN_HOOK", name)
          ∷ (text "BARMAN_RETRY", (if retry then text "1" else text "0"))
          ∷ [])));
  exit_status = none;
  raised = none;
  script = setting.option (script_config_name phase name);
}

unfoldable pub status_text : BackupStatus → Text
status_text empty = text "EMPTY"
status_text started = text "STARTED"
status_text failed = text "FAILED"
status_text waiting_for_wals = text "WAITING_FOR_WALS"
status_text done = text "DONE"
status_text syncing = text "SYNCING"

-- The id of a neighbour: `""` without one, and where the backup is unknown
unfoldable pub neighbour_id : Result (Option BackupInfo) → Result Text
neighbour_id (err (unknown_backup_id b)) = ok []
neighbour_id (err e) = err e
neighbour_id (ok none) = ok []
neighbour_id (ok (some b)) = ok b.backup_id

-- With the neighbours of the backup, its directory and its error (`backup_info.error or ""`)
unfoldable pub env_from_backup_info :
    Result (Option BackupInfo)
    → Result (Option BackupInfo)
    → Text
    → Text
    → BackupInfo
    → HookScriptRunner
    → Result HookScriptRunner
env_from_backup_info previous next directory error backup_info hook = do
  previous_backup_id ← neighbour_id previous
  next_backup_id ← neighbour_id next
  ok (record hook {
    environment = update hook.environment (
        (text "BARMAN_BACKUP_DIR", directory)
        ∷ (text "BARMAN_BACKUP_ID", backup_info.backup_id)
        ∷ (text "BARMAN_PREVIOUS_ID", previous_backup_id)
        ∷ (text "BARMAN_NEXT_ID", next_backup_id)
        ∷ (text "BARMAN_STATUS", status_text backup_info.status)
        ∷ (text "BARMAN_ERROR", error)
        ∷ []);
  })

-- What one run of the command does
pub data Attempt : Type 0 where
  exits : ℤ → Attempt
  raises : Error → Attempt

-- A script that is neither `None` nor empty
abbrev pub is_configured : Option Text → Bool
is_configured none = false
is_configured (some []) = false
is_configured (some (c ∷ s)) = true

abbrev pub on_attempt : Attempt → HookScriptRunner → Option ℤ × HookScriptRunner
on_attempt (exits status) hook = (some status, record hook { exit_status = some status })
on_attempt (raises e) hook = (none, record hook { raised = some e })

-- The value that `run` returns, and the runner afterwards
unfoldable pub run : Attempt → HookScriptRunner → Option ℤ × HookScriptRunner
run attempt hook = if is_configured hook.script then on_attempt attempt hook else (none, hook)

abbrev pub attempts_before_nap : ℕ
attempts_before_nap = 5

abbrev pub break_time : ℕ
break_time = 3

abbrev pub nap_time : ℕ
nap_time = 60

-- `exit_status in (EXIT_ABORT_CONTINUE, EXIT_ABORT_STOP, EXIT_SUCCESS)`
unfoldable pub is_final : Option ℤ → Bool
is_final none = false
is_final (some (negsuc n)) = false
is_final (some (pos n)) = (n == 62) || ((n == 63) || (n == 0))

abbrev pub after : ℕ → Option (HookScriptRunner × List ℕ) → Option (HookScriptRunner × List ℕ)
after seconds none = none
after seconds (some (hook, sleeps)) = some (hook, seconds ∷ sleeps)

-- The loop from its n-th run on
unfoldable pub retry_loop :
    ℕ → (ℕ → Attempt) → ℕ → ℕ → HookScriptRunner → Option (HookScriptRunner × List ℕ)
retry_loop zero cmd n attempts hook = none
retry_loop (suc fuel) cmd n attempts hook =
    let ran : HookScriptRunner = (run (cmd n) hook).1 in
    let short = leb attempts attempts_before_nap in
    let rest = retry_loop fuel cmd (suc n) (if short then attempts + 1 else 1) ran in
    if is_final ran.exit_status
    then some (ran, [])
    else after (if short then break_time else nap_time) rest

-- `exit_status == EXIT_ABORT_STOP`
abbrev pub is_abort_stop : Option ℤ → Bool
is_abort_stop none = false
is_abort_stop (some (negsuc n)) = false
is_abort_stop (some (pos n)) = n == 63

abbrev pub outside : Option (HookScriptRunner × List ℕ) → Option (Result (Option ℤ) × List ℕ)
outside none = none
outside (some (hook, sleeps)) = some (
  (if is_abort_stop hook.exit_status then err aborted_retry_hook_script else ok hook.exit_status),
  sleeps,
)

abbrev pub unless_none :
    Option Text → Option (Result (Option ℤ) × List ℕ) → Option (Result (Option ℤ) × List ℕ)
unless_none none looped = some (ok none, [])
unless_none (some script) looped = looped

-- `RetryHookScriptRunner.run`
unfoldable pub retry_run :
    ℕ → (ℕ → Attempt) → HookScriptRunner → Option (Result (Option ℤ) × List ℕ)
retry_run fuel cmd hook = unless_none hook.script (outside (retry_loop fuel cmd 0 1 hook))
