-- ===== src/Text/Number.antt =====
-- Python's `int(s, 10)` and `int(s, 16)`, and `s.strip()`, over ASCII: surrounding white space, a
-- sign, the prefix `0x` in base 16, and single underscores between digits.
pub mod Laws
pub mod Decimal
use barman.Prelude.{
  ℕ, zero, suc, ◌+◌, ◌*◌, Bool, true, false, ◌&&◌, ◌||◌, Option, none, some, List, [], ◌∷◌, ◌==◌,
  leb, ltb, if◌then◌else◌,
}
use barman.Prelude.Int.{ℤ, pos, negsuc, sub_ℕ}
use barman.Text.{Text}
use barman.Text.Hex.{is_hex, hex_value}

-- The ASCII characters for which `str.isspace` holds.
unfoldable pub is_space : ℕ → Bool
is_space c = (leb 9 c && leb c 13) || (leb 28 c && leb c 32)

lstrip : Text → Text
unfolding is_space
lstrip [] = []
lstrip (c ∷ s) = if is_space c then lstrip s else c ∷ s

drop_space : ℕ → Text → Text
unfolding is_space
drop_space c [] = if is_space c then [] else c ∷ []
drop_space c (d ∷ s) = c ∷ d ∷ s

rstrip : Text → Text
unfolding drop_space
rstrip [] = []
rstrip (c ∷ s) = drop_space c (rstrip s)

unfoldable pub strip : Text → Text
unfolding lstrip rstrip
strip s = rstrip (lstrip s)

is_digit : ℕ → ℕ → Bool
unfolding is_hex hex_value
is_digit base c = is_hex c && ltb (hex_value c) base

-- `after` says that a digit stands before, so the text may end here or go on behind `_`.
scan : ℕ → Bool → ℕ → Text → Option ℕ
unfolding is_digit hex_value
scan base after acc [] = if after then some acc else none
scan base after acc (c ∷ s) =
    let digit = scan base true (acc * base + hex_value c) s in
    let underscore = scan base false acc s in
    if is_digit base c then digit else if after && (c == b'_') then underscore else none

scan_prefixed : Text → Option ℕ
unfolding scan
scan_prefixed [] = none
scan_prefixed (c ∷ s) = if c == b'_' then scan 16 false 0 s else scan 16 false 0 (c ∷ s)

-- The digits, behind the sign
unsigned : ℕ → Text → Option ℕ
unfolding scan scan_prefixed
unsigned base (c ∷ d ∷ s) =
    if (base == 16) && ((c == b'0') && ((d == b'x') || (d == b'X')))
    then scan_prefixed s
    else scan base false 0 (c ∷ d ∷ s)
unsigned base s = scan base false 0 s

negated : Option ℕ → Option ℤ
negated none = none
negated (some n) = some (sub_ℕ 0 n)

positive : Option ℕ → Option ℤ
positive none = none
positive (some n) = some (pos n)

signed : ℕ → Text → Option ℤ
unfolding unsigned negated positive
signed base [] = none
signed base (c ∷ s) =
    if c == b'-'
    then negated (unsigned base s)
    else if c == b'+'
    then positive (unsigned base s)
    else positive (unsigned base (c ∷ s))

-- `int(s, base)`, for base 10 or 16; `none` is a `ValueError`.
unfoldable pub int_of : ℕ → Text → Option ℤ
unfolding strip signed
int_of base s = signed base (strip s)
