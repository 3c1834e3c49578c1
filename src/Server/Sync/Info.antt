-- ===== src/Server/Sync/Info.antt =====
-- What the passive node keeps of the last synchronisation.
use barman.Prelude.{ℕ, ◌≡◌, refl, ap, ◌∙◌, true, false, some, List, [], ◌∷◌, ◌++◌, ◌==◌, arith}
use barman.Prelude.Int.{pos}
use barman.Text.{Text, split_on}
use barman.Text.Number.{int_of}
use barman.Text.Number.Decimal.{
  decimal, is_free, is_free-decimal, readline-free, int_of-plain_decimal,
}
use barman.Result.{ok}
use barman.Server.Sync.{SyncStatus, load_sync_wals_info, write_sync_wals_info_file}

is_free-append :
    (c : ℕ) (s t : Text) → is_free c s ≡ true → is_free c t ≡ true → is_free c (s ++ t) ≡ true
unfolding is_free
is_free-append c [] t h k = k
is_free-append c (d ∷ s) t h k = ground (arith, is_free-append c s t)

split_on-free : (sep : ℕ) (s : Text) → is_free sep s ≡ true → split_on sep s ≡ s ∷ []
unfolding split_on is_free
split_on-free sep [] h = refl
split_on-free sep (c ∷ s) h =
    let other : (c == sep) ≡ false = ground arith in
    let tail : is_free sep s ≡ true = ground arith in rw (other, split_on-free sep s tail) refl

split_on-append :
    (sep : ℕ) (s t : Text) → is_free sep s ≡ true → split_on sep (s ++ sep ∷ t) ≡ s ∷ split_on sep t
unfolding split_on is_free
split_on-append sep [] t h = ground arith
split_on-append sep (c ∷ s) t h =
    let other : (c == sep) ≡ false = ground arith in
    let tail : is_free sep s ≡ true = ground arith in rw (other, split_on-append sep s t tail) refl

-- What is written of a status, whose last name has no tab and no end of a line, is read back: the
-- name, and a text that `int` reads as the position.
pub load-write_sync_wals_info :
    (status : SyncStatus)
    → is_free 9 status.last_name ≡ true
    → is_free 10 status.last_name ≡ true
    → (load_sync_wals_info (write_sync_wals_info_file status)
        ≡ ok (some status.last_name, some (decimal status.last_position)))
      × (int_of 10 (decimal status.last_position) ≡ some (pos status.last_position))
unfolding load_sync_wals_info write_sync_wals_info_file
load-write_sync_wals_info status no_tab no_newline =
    let name : Text = status.last_name in
    let position : Text = decimal status.last_position in
    let after : is_free 10 (9 ∷ position) ≡ true =
      unfold is_free in is_free-decimal 10 status.last_position (omega arith) in
    let read =
      readline-free (name ++ 9 ∷ position)
        (is_free-append 10 name (9 ∷ position) no_newline after) in
    let split =
      split_on-append 9 name position no_tab
      ∙ ap (λ (l : List Text). name ∷ l)
          (split_on-free 9 position (is_free-decimal 9 status.last_position (omega arith))) in
    (rw (read, split) refl, int_of-plain_decimal status.last_position)
