-- ===== src/Hooks/Retry.antt =====
-- When the loop of a retry hook ends, and when it does not.
use barman.Prelude.{
  ℕ, zero, suc, ◌+◌, ◌%◌, ◌<◌, ◌≤◌, ◌≡◌, refl, ap, ◌∙◌, Bool, true, false, ◌&&◌, Option, none, some,
  List, [], ◌∷◌, ◌==◌, leb, if◌then◌else◌, arith, Bool-cases, inl, inr,
}
use barman.Prelude.Int.{ℤ}
use barman.Text.{Text}
use barman.Result.{Result, ok, err, aborted_retry_hook_script}
use barman.Hooks.{
  HookScriptRunner, Attempt, exits, raises, run, is_final, is_configured, retry_loop, retry_run,
  after, outside, is_abort_stop, attempts_before_nap, break_time, nap_time, on_attempt, unless_none,
}

-- A run that ends the loop
unfoldable pub ends : Attempt → Bool
ends (exits status) = is_final (some status)
ends (raises e) = false

-- The seconds between `count` runs and the next ones, the first of them the n-th: a nap after each
-- sixth
unfoldable pub waits : ℕ → ℕ → List ℕ
waits n zero = []
waits n (suc count) = (if (n % 6) == 5 then nap_time else break_time) ∷ waits (suc n) count

-- What the loop leaves of a final exit status
abbrev pub finish : ℤ → Result (Option ℤ)
finish status =
    if is_abort_stop (some status) then err aborted_retry_hook_script else ok (some status)

attempt_goes_on :
    (a : Attempt) (hook : HookScriptRunner)
    → ends a ≡ false
    → is_final hook.exit_status ≡ false
    → is_final (on_attempt a hook).1.exit_status ≡ false
unfolding ends
attempt_goes_on (exits s) hook h f = h
attempt_goes_on (raises e) hook h f = f

on_attempt-script :
    (a : Attempt) (hook : HookScriptRunner) → (on_attempt a hook).1.script ≡ hook.script
on_attempt-script (exits s) hook = refl
on_attempt-script (raises e) hook = refl

run-script : (a : Attempt) (hook : HookScriptRunner) → (run a hook).1.script ≡ hook.script
unfolding run
run-script a hook = elim (Bool-cases (is_configured hook.script)) [
  | inl y ↦ rw y (on_attempt-script a hook)
  | inr n ↦ rw n refl
]

run_goes_on :
    (a : Attempt) (hook : HookScriptRunner)
    → (is_configured hook.script && ends a) ≡ false
    → is_final hook.exit_status ≡ false
    → is_final (run a hook).1.exit_status ≡ false
unfolding run
run_goes_on a hook h f = elim (Bool-cases (is_configured hook.script)) [
  | inl y ↦ rw y (attempt_goes_on a hook (ground arith) f)
  | inr n ↦ rw n f
]

outside-after :
    (seconds : ℕ) (x : Option (HookScriptRunner × List ℕ)) (r : Result (Option ℤ)) (l : List ℕ)
    → outside x ≡ some (r, l)
    → outside (after seconds x) ≡ some (r, seconds ∷ l)
outside-after seconds none r l h = cc
outside-after seconds (some (hook, sleeps)) r l h = cc

next_attempts :
    (n : ℕ) → (if leb (n % 6 + 1) attempts_before_nap then n % 6 + 1 + 1 else 1) ≡ suc n % 6 + 1
next_attempts n = ground arith

first_final :
    (fuel count n last attempts : ℕ) (cmd : ℕ → Attempt) (hook : HookScriptRunner) (status : ℤ)
    → is_configured hook.script ≡ true
    → is_final hook.exit_status ≡ false
    → ((i : ℕ) → n ≤ i → i < last → ends (cmd i) ≡ false)
    → cmd last ≡ exits status
    → is_final (some status) ≡ true
    → last ≡ n + count
    → attempts ≡ n % 6 + 1
    → count < fuel
    → outside (retry_loop fuel cmd n attempts hook) ≡ some (finish status, waits n count)
unfolding retry_loop waits
first_final zero count n last attempts cmd hook status c f before at final d e lt =
    absurd (omega arith)
first_final (suc fuel) zero n last attempts cmd hook status c f before at final d e lt =
    let here : cmd n ≡ exits status = ap cmd (omega arith) ∙ at in
    let stop : (run (cmd n) hook).1 ≡ record hook { exit_status = some status } =
      unfold run in rw (c, here) refl in
    rw (stop, final) refl
first_final (suc fuel) (suc count) n last attempts cmd hook status c f before at final d e lt =
    let goes : ends (cmd n) ≡ false = before n (omega arith) (omega arith) in
    let ran : HookScriptRunner = (run (cmd n) hook).1 in
    let still : is_final ran.exit_status ≡ false = run_goes_on (cmd n) hook (ground arith) f in
    let same : is_configured ran.script ≡ true = ap is_configured (run-script (cmd n) hook) ∙ c in
    let rest =
      first_final fuel count (suc n) last (suc n % 6 + 1) cmd ran status same still
        (λ i low high. before i (omega arith) high) at final (omega arith) refl (omega arith) in
    let counted : (if leb attempts attempts_before_nap then attempts + 1 else 1) ≡ suc n % 6 + 1 =
      ground arith in
    let slept : (if leb attempts attempts_before_nap then break_time else nap_time)
        ≡ (if (n % 6) == 5 then nap_time else break_time) =
      ground arith in
    rw (still, counted, slept)
      (outside-after (if (n % 6) == 5 then nap_time else break_time)
        (retry_loop fuel cmd (suc n) (suc n % 6 + 1) ran) (finish status) (waits (suc n) count)
        rest)

unless_none-configured :
    (script : Option Text) (looped : Option (Result (Option ℤ) × List ℕ))
    → is_configured script ≡ true
    → unless_none script looped ≡ looped
unless_none-configured none looped h = cc
unless_none-configured (some script) looped h = refl

-- A retry hook runs its script until a run exits with 0, 62 or 63, and then ends: 63 raises
-- `AbortedRetryHookScript` and the other two are returned. Before each further run it sleeps for
-- three seconds, or for a minute after every sixth run.
pub retry_run-first_final :
    (cmd : ℕ → Attempt) (hook : HookScriptRunner) (count fuel : ℕ) (status : ℤ)
    → is_configured hook.script ≡ true
    → hook.exit_status ≡ none
    → ((i : ℕ) → i < count → ends (cmd i) ≡ false)
    → cmd count ≡ exits status
    → is_final (some status) ≡ true
    → count < fuel
    → retry_run fuel cmd hook ≡ some (finish status, waits 0 count)
unfolding retry_run is_final
retry_run-first_final cmd hook count fuel status c none_yet before at final lt =
    rw (unless_none-configured hook.script (outside (retry_loop fuel cmd 0 1 hook)) c) (
      first_final fuel count 0 count 1 cmd hook status c (rw none_yet refl)
        (λ i low high. before i high) at final (omega arith) refl lt)

never_ends :
    (fuel n attempts : ℕ) (cmd : ℕ → Attempt) (hook : HookScriptRunner)
    → is_final hook.exit_status ≡ false
    → ((i : ℕ) → (is_configured hook.script && ends (cmd i)) ≡ false)
    → retry_loop fuel cmd n attempts hook ≡ none
unfolding retry_loop
never_ends zero n attempts cmd hook f before = refl
never_ends (suc fuel) n attempts cmd hook f before =
    let ran : HookScriptRunner = (run (cmd n) hook).1 in
    let still : is_final ran.exit_status ≡ false = run_goes_on (cmd n) hook (before n) f in
    let same : ran.script ≡ hook.script = run-script (cmd n) hook in
    let rest =
      never_ends fuel (suc n) (if leb attempts attempts_before_nap then attempts + 1 else 1) cmd ran
        still (λ i. rw same (before i)) in
    rw (still, rest) refl

-- A retry hook whose option is set never ends if no run of its script ends it, and also if the
-- script is the empty text.
pub retry_run-never_ends :
    (cmd : ℕ → Attempt) (hook : HookScriptRunner) (script : Text) (fuel : ℕ)
    → hook.script ≡ some script
    → hook.exit_status ≡ none
    → ((i : ℕ) → (is_configured hook.script && ends (cmd i)) ≡ false)
    → retry_run fuel cmd hook ≡ none
unfolding retry_run is_final
retry_run-never_ends cmd hook script fuel e none_yet before =
    rw (never_ends fuel 0 1 cmd hook (rw none_yet refl) before, e) refl
