-- ===== src/Result.antt =====
-- exceptions.py, and the built-in exceptions that the modelled code raises. A function that may
-- raise returns a `Result`.
use barman.Prelude.{ℕ, ◌≡◌, refl, Bool, true, false}
use barman.Text.{Text}

pub data Error : Type 0 where
  bad_xlog_segment_name bad_xlog_prefix bad_history_file_contents unexpected_file : Text → Error
  archive_not_empty : Error
  newer_wals : ℕ → Error
  unknown_backup_id : Text → Error
  value_error type_error assertion_error index_error key_error attribute_error command_exception :
      Error
  unbound_local_error overflow_error archival_backup invalid_retention_policy argument_type
        os_error :
      Error
  lock_file_busy lock_file_permission_denied lock_file_parsing_error : Error
  matching_duplicate_wal_file duplicate_wal_file aborted_retry_hook_script sync_error
        sync_nothing_to_do sync_to_be_deleted :
      Error

pub data Result {ℓ} (V : Type ℓ) : Type ℓ where
  err : Error → Result V
  ok : V → Result V

-- What follows a call: an exception skips it. These compute wherever they stand.
infixl 5 ◌>>=◌
abbrev pub ◌>>=◌ {ℓ κ} : {V : Type ℓ} {W : Type κ} → Result V → (V → Result W) → Result W
err raised >>= rest = err raised
ok value >>= rest = rest value

infixl 5 ◌>>◌
abbrev pub ◌>>◌ {ℓ} : {W : Type ℓ} → Result (Unit {0}) → Result W → Result W
err raised >> rest = err raised
ok tt >> rest = rest

-- `if not test: raise e`
abbrev pub require : Bool → Error → Result (Unit {0})
require true e = ok tt
require false e = err e

-- Where a chain returns, its first call has returned.
pub >>=-eq-ok {ℓ κ} :
    {V : Type ℓ} {W : Type κ} {w : W} (call : Result V) (rest : V → Result W)
    → (call >>= rest) ≡ ok w
    → (v : V) × (call ≡ ok v) × (rest v ≡ ok w)
>>=-eq-ok (err raised) rest h = cc
>>=-eq-ok (ok v) rest h = (v, refl, h)

-- What never raises returns.
pub returns {ℓ} : {A : Type ℓ} (m : Result A) → ((e : Error) → m ≡ err e → ⊥) → (a : A) × (m ≡ ok a)
returns (ok a) h = (a, refl)
returns (err e) h = absurd (h e refl)
