-- ===== src/Tests/Scripts.antt =====
-- The theorems on hook scripts, at a script that fails before it succeeds.
use barman.Prelude.{ℕ, zero, suc, ◌≡◌, ◌<◌, refl, false, none, some, [], ◌∷◌, arith}
use barman.Prelude.Int.{pos}
use barman.Text.{text}
use barman.Result.{ok, os_error}
use barman.Hooks.{HookScriptRunner, Attempt, exits, raises, retry_run, reset, Setting, is_final}
use barman.Hooks.Retry.{ends, waits, retry_run-first_final, retry_run-never_ends}

abbrev setting : Setting
setting = record {
  version = text "3.14";
  server = text "main";
  config_file = text "/etc/barman.conf";
  option = λ name. some (text "/bin/hook");
}

abbrev hook : HookScriptRunner
hook = record {
  name = text "archive_retry_script";
  environment = [];
  exit_status = none;
  raised = none;
  script = some (text "/bin/hook");
}

abbrev silent : HookScriptRunner
silent = record hook { script = some [] }

-- It cannot be run, then it fails, then it succeeds.
abbrev later : ℕ → Attempt
later zero = raises os_error
later (suc zero) = exits (pos 1)
later (suc (suc n)) = exits (pos 0)

fails_first : (i : ℕ) → i < 2 → ends (later i) ≡ false
unfolding ends is_final
fails_first zero h = refl
fails_first (suc zero) h = refl
fails_first (suc (suc i)) h = absurd (omega arith)

retry_run-first_final_example : retry_run 3 later hook ≡ some (ok (some (pos 0)), 3 ∷ 3 ∷ [])
unfolding waits is_final
retry_run-first_final_example =
    retry_run-first_final later hook 2 3 (pos 0) refl refl fails_first refl refl (omega arith)

retry_run-never_ends_example : retry_run 9 later silent ≡ none
retry_run-never_ends_example = retry_run-never_ends later silent [] 9 refl refl (λ i. refl)

long_nap : waits 0 7 ≡ 3 ∷ 3 ∷ 3 ∷ 3 ∷ 3 ∷ 60 ∷ 3 ∷ []
unfolding waits
long_nap = refl

configured_script :
    (reset setting (text "backup_script") (some (text "pre")) none false []).script
    ≡ some (text "/bin/hook")
unfolding reset
configured_script = refl
