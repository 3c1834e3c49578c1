-- ===== src/Xlog/Lsn/RoundTrip.antt =====
-- Round trips of LSNs: through text, and through a file name and an offset.
use Prim.Native.Nat.{bit_and}
use barman.Prelude.{ℕ, ◌/◌, ◌%◌, ◌^◌, ◌≡◌, refl, ap, ◌∙◌, true, false, some, [], ◌∷◌, ◌++◌, arith}
use barman.Prelude.Int.{pos, ◌+ℤ◌, ◌-ℤ◌, ◌*ℤ◌}
use barman.Bits.{bit_and_low}
use barman.Text.{Text, split_on}
use barman.Text.Hex.{is_hex, all_hex, upper_hex}
use barman.Text.Hex.Laws.{all_hex-upper_hex, hex_number-upper_hex, length-upper_hex}
use barman.Text.Number.Laws.{int_of-all_hex}
use barman.Result.{ok}
use barman.Xlog.Name.Match.{split_on-all_hex, is_hex_ne, all_hex_head, all_hex_tail}
use barman.Xlog.Lsn.{or_raise, int_or_raise, parse_parts, parse_lsn, diff_lsn, format_lsn}

-- Splitting at the one separator.
split_on-two :
    (sep : ℕ) (s t : Text)
    → is_hex sep ≡ false
    → all_hex s ≡ true
    → all_hex t ≡ true
    → split_on sep (s ++ sep ∷ t) ≡ s ∷ t ∷ []
unfolding split_on
split_on-two sep [] t k h h' = rw (split_on-all_hex sep t k h') (ground arith)
split_on-two sep (c ∷ s) t k h h' =
    rw (is_hex_ne c sep (all_hex_head c s h) k, split_on-two sep s t k (all_hex_tail c s h) h')

int-upper_hex : (n : ℕ) → int_or_raise 16 (upper_hex n) ≡ ok (pos n)
unfolding int_or_raise
int-upper_hex n =
    ap or_raise (int_of-all_hex (upper_hex n) (all_hex-upper_hex n) (length-upper_hex n))
    ∙ ap (λ v. ok (pos v)) (hex_number-upper_hex n)

low_half : (n : ℕ) → bit_and n 0xFFFFFFFF ≡ n % 2 ^ 32
low_half n = bit_and_low 32 n

split_on-format :
    (n : ℕ)
    → split_on b'/' (format_lsn n) ≡ upper_hex (n / 2 ^ 32) ∷ upper_hex (bit_and n 0xFFFFFFFF) ∷ []
split_on-format n =
    unfold format_lsn in
    split_on-two b'/' (upper_hex (n / 2 ^ 32)) (upper_hex (bit_and n 0xFFFFFFFF))
      (unfold is_hex in refl) (all_hex-upper_hex (n / 2 ^ 32))
      (all_hex-upper_hex (bit_and n 0xFFFFFFFF))

join_halves : (n : ℕ) → pos (n / 2 ^ 32) *ℤ pos (2 ^ 32) +ℤ pos (n % 2 ^ 32) ≡ pos n
unfolding ◌+ℤ◌ ◌*ℤ◌
join_halves n = ground arith

parse_parts-halves :
    (h l : ℕ) → parse_parts (upper_hex h ∷ upper_hex l ∷ []) ≡ ok (pos h *ℤ pos (2 ^ 32) +ℤ pos l)
unfolding parse_parts
parse_parts-halves h l = rw (int-upper_hex h, int-upper_hex l)

-- Reading a formatted LSN gives the number back, for every natural number.
pub parse-format : (n : ℕ) → parse_lsn (format_lsn n) ≡ ok (pos n)
unfolding parse_lsn
parse-format n =
    let joined : pos (n / 2 ^ 32) *ℤ pos (2 ^ 32) +ℤ pos (bit_and n 0xFFFFFFFF) ≡ pos n =
      rw (low_half n) (join_halves n) in
    rw (split_on-format n, parse_parts-halves (n / 2 ^ 32) (bit_and n 0xFFFFFFFF), joined)

-- The difference of two formatted LSNs is the difference of their numbers.
pub diff-format :
    (m n : ℕ) → diff_lsn (some (format_lsn m)) (some (format_lsn n)) ≡ ok (some (pos m -ℤ pos n))
unfolding diff_lsn
diff-format m n = rw (parse-format m, parse-format n)
