-- ===== src/Server/Checks.antt =====
-- The checks of a server (server.py: `CheckStrategy`, `CheckOutputStrategy`).
--
-- What is sent to the output is a list.
use std.Path.{subst}
use barman.Prelude.{
  ◌≡◌, refl, Bool, true, false, ◌&&◌, ◌||◌, not, Option, none, some, List, [], ◌∷◌, ◌++◌,
  if◌then◌else◌, arith,
}
use barman.Text.{Text, text, text_in}
use barman.Result.{Result, ok, err, assertion_error, ◌>>=◌, >>=-eq-ok}

pub record CheckResult : Type 0 where
  pub server_name : Text
  pub check : Text
  pub status : Bool

pub record CheckStrategy : Type 0 where
  pub ignore_list : List Text
  pub check_result : List CheckResult
  pub has_error : Bool
  pub running_check : Option Text

abbrev pub non_critical_checks : List Text
non_critical_checks =
    text "minimum redundancy requirements"
    ∷ text "backup maximum age"
    ∷ text "backup minimum size"
    ∷ text "failed backups"
    ∷ text "archiver errors"
    ∷ text "empty incoming directory"
    ∷ text "empty streaming directory"
    ∷ text "incoming WALs directory"
    ∷ text "streaming WALs directory"
    ∷ text "wal maximum age"
    ∷ text "PostgreSQL server is standby"
    ∷ []

unfoldable pub new_strategy : List Text → CheckStrategy
new_strategy ignore_checks = record {
  ignore_list = ignore_checks;
  check_result = [];
  has_error = false;
  running_check = none;
}

unfoldable pub init_check : Text → CheckStrategy → CheckStrategy
init_check check_name strategy = record strategy { running_check = some check_name }

abbrev non_empty : Option Text → Result Text
non_empty none = err assertion_error
non_empty (some []) = err assertion_error
non_empty (some (c ∷ s)) = ok (c ∷ s)

-- `_check_name`: the running check where no name is given
unfoldable pub check_name_of : Option Text → CheckStrategy → Result Text
check_name_of none strategy = non_empty strategy.running_check
check_name_of (some []) strategy = non_empty strategy.running_check
check_name_of (some (c ∷ s)) strategy = ok (c ∷ s)

unfoldable pub result : Text → Bool → Option Text → CheckStrategy → Result CheckStrategy
result server_name status check strategy = do
  name ← check_name_of check strategy
  ok (record strategy {
    has_error =
        if status
        then strategy.has_error
        else if text_in name strategy.ignore_list
        then strategy.has_error
        else true;
    check_result =
        strategy.check_result
        ++ record { server_name = server_name; check = name; status = status } ∷ [];
    running_check = none;
  })

-- `CheckOutputStrategy`, which ignores no check, and what it has sent
unfoldable pub output_strategy : CheckStrategy
output_strategy = new_strategy []

unfoldable pub output_result :
    Text
    → Bool
    → Option Text
    → CheckStrategy × List CheckResult
    → Result (CheckStrategy × List CheckResult)
output_result server_name status check (strategy, sent) = do
  name ← check_name_of check strategy
  after ← result server_name status (some name) strategy
  ok (after, sent ++ record { server_name = server_name; check = name; status = status } ∷ [])

-- The calls of one run of the checks
pub data Call : Type 0 where
  starts : Text → Call
  reports : Text → Bool → Option Text → Call

unfoldable pub run_checks : List Call → CheckStrategy → Result CheckStrategy
run_checks [] strategy = ok strategy
run_checks (starts name ∷ calls) strategy = run_checks calls (init_check name strategy)
run_checks (reports server_name status check ∷ calls) strategy =
    result server_name status check strategy >>= λ after. run_checks calls after

-- A failed check that is not to be ignored
unfoldable pub is_critical : List Text → CheckResult → Bool
is_critical ignore r = not r.status && not (text_in r.check ignore)

unfoldable pub any_critical : List Text → List CheckResult → Bool
any_critical ignore [] = false
any_critical ignore (r ∷ l) = is_critical ignore r || any_critical ignore l

any_critical-snoc :
    (ignore : List Text) (l : List CheckResult) (r : CheckResult)
    → any_critical ignore (l ++ r ∷ []) ≡ (any_critical ignore l || is_critical ignore r)
unfolding any_critical
any_critical-snoc ignore [] r = ground arith
any_critical-snoc ignore (x ∷ l) r = ground (arith, any_critical-snoc ignore l r)

-- The flag tells what the results tell, and the list of ignored checks is `ignore`.
abbrev IsTrue : List Text → CheckStrategy → Type 0
IsTrue ignore s = (s.ignore_list ≡ ignore) × (s.has_error ≡ any_critical ignore s.check_result)

result-IsTrue :
    (ignore : List Text) (server_name : Text) (status : Bool) (check : Option Text)
    (s after : CheckStrategy)
    → IsTrue ignore s
    → result server_name status check s ≡ ok after
    → IsTrue ignore after
unfolding result is_critical
result-IsTrue ignore server_name status check s after (same, flag) h =
    let (name, named, e) = >>=-eq-ok (check_name_of check s) _ h in
    let r : CheckResult = record { server_name = server_name; check = name; status = status } in
    let made : CheckStrategy = record s {
      has_error =
          if status then s.has_error else if text_in name s.ignore_list then s.has_error else true;
      check_result = s.check_result ++ r ∷ [];
      running_check = none;
    } in
    let is_made : made ≡ after = cc e in
    let told : made.has_error ≡ any_critical ignore made.check_result =
      rw (any_critical-snoc ignore s.check_result r, same, flag) (ground arith) in
    subst (IsTrue ignore) is_made (same, told)

run_checks-IsTrue :
    (ignore : List Text) (calls : List Call) (s after : CheckStrategy)
    → IsTrue ignore s
    → run_checks calls s ≡ ok after
    → IsTrue ignore after
unfolding run_checks init_check
run_checks-IsTrue ignore [] s after t h =
    let same : s ≡ after = cc h in subst (IsTrue ignore) same t
run_checks-IsTrue ignore (starts name ∷ calls) s after t h =
    run_checks-IsTrue ignore calls (init_check name s) after t h
run_checks-IsTrue ignore (reports server_name status check ∷ calls) s after t h =
    let (mid, first, rest) = >>=-eq-ok (result server_name status check s) _ h in
    run_checks-IsTrue ignore calls mid after
      (result-IsTrue ignore server_name status check s mid t first) rest

-- Whatever checks are run, the strategy has an error exactly if one of the results that it has
-- collected is that of a failed check which is not to be ignored.
pub run_checks-any_critical :
    (ignore : List Text) (calls : List Call) (after : CheckStrategy)
    → run_checks calls (new_strategy ignore) ≡ ok after
    → after.has_error ≡ any_critical ignore after.check_result
unfolding new_strategy any_critical
run_checks-any_critical ignore calls after h =
    (run_checks-IsTrue ignore calls (new_strategy ignore) after (refl, refl) h).1
