-- ===== src/Text/Hex.antt =====
-- Hexadecimal text: the digits of `[\dA-Fa-f]` (over ASCII), `int(x, 16)` on such digits, and the
-- formats `%X` and `%08X`.
pub mod Laws
use barman.Prelude.{
  ℕ, zero, suc, ◌+◌, ◌-◌, ◌*◌, ◌/◌, ◌%◌, Bool, true, ◌&&◌, ◌||◌, List, [], ◌∷◌, ◌++◌, leb, ltb,
  length, if◌then◌else◌,
}
use barman.Text.{Text}

-- `[\dA-Fa-f]`
unfoldable pub is_hex : ℕ → Bool
is_hex c = (leb 48 c && leb c 57) || (leb 65 c && leb c 70) || (leb 97 c && leb c 102)

-- The value of a hexadecimal digit.
unfoldable pub hex_value : ℕ → ℕ
hex_value c = if leb c 57 then c - 48 else if leb c 70 then c - 55 else c - 87

-- The upper-case digit of a value below 16.
unfoldable pub hex_digit : ℕ → ℕ
hex_digit v = if ltb v 10 then 48 + v else 55 + v

unfoldable pub hex_number_from : ℕ → Text → ℕ
unfolding hex_value
hex_number_from acc [] = acc
hex_number_from acc (c ∷ s) = hex_number_from (acc * 16 + hex_value c) s

-- `int(s, 16)` for a text of hexadecimal digits
unfoldable pub hex_number : Text → ℕ
unfolding hex_number_from
hex_number s = hex_number_from 0 s

unfoldable pub all_hex : Text → Bool
unfolding is_hex
all_hex [] = true
all_hex (c ∷ s) = is_hex c && all_hex s

-- The digits of `n`, for fuel above `n`.
unfoldable pub to_hex : ℕ → ℕ → Text
unfolding hex_digit
to_hex zero n = []
to_hex (suc f) n =
    let rest = to_hex f (n / 16) ++ hex_digit (n % 16) ∷ [] in
    if ltb n 16 then hex_digit n ∷ [] else rest

-- `"%X" % n`
unfoldable pub upper_hex : ℕ → Text
unfolding to_hex
upper_hex n = to_hex (suc n) n

unfoldable pub zeros : ℕ → Text
zeros zero = []
zeros (suc k) = 48 ∷ zeros k

-- `"%08X" % n`
unfoldable pub hex8 : ℕ → Text
unfolding upper_hex zeros
hex8 n = let t = upper_hex n in zeros (8 - length t) ++ t
