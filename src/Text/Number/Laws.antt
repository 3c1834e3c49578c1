-- ===== src/Text/Number/Laws.antt =====
-- `int(s, 16)` of a plain text of upper-case hexadecimal digits.
use barman.Prelude.{
  ℕ, ◌+◌, ◌*◌, ◌≤◌, ◌≡◌, refl, Bool, true, false, some, [], ◌∷◌, ◌==◌, arith, length, Bool-cases,
  inl, inr,
}
use barman.Prelude.Int.{pos}
use barman.Text.{Text}
use barman.Text.Hex.{is_hex, hex_value, hex_number_from, hex_number, all_hex}
use barman.Text.Number.{
  is_space, lstrip, rstrip, drop_space, strip, is_digit, scan, unsigned, positive, signed, int_of,
}

all_hex_cons : (c : ℕ) (s : Text) → all_hex (c ∷ s) ≡ true → (is_hex c ≡ true) × (all_hex s ≡ true)
unfolding all_hex
all_hex_cons c s h = ground arith

is_hex-not_space : (c : ℕ) → is_hex c ≡ true → is_space c ≡ false
unfolding is_hex is_space
is_hex-not_space c h = ground arith

rstrip-all_hex : (s : Text) → all_hex s ≡ true → rstrip s ≡ s
unfolding rstrip drop_space
rstrip-all_hex [] h = refl
rstrip-all_hex (c ∷ []) h = rw (is_hex-not_space c (all_hex_cons c [] h).0)
rstrip-all_hex (c ∷ d ∷ s) h = rw (rstrip-all_hex (d ∷ s) (all_hex_cons c (d ∷ s) h).1)

pub strip-all_hex : (s : Text) → all_hex s ≡ true → strip s ≡ s
unfolding strip lstrip
strip-all_hex [] h = unfold rstrip in refl
strip-all_hex (c ∷ s) h = rw (is_hex-not_space c (all_hex_cons c s h).0) (rstrip-all_hex (c ∷ s) h)

is_digit-hex : (c : ℕ) → is_hex c ≡ true → is_digit 16 c ≡ true
unfolding is_hex is_digit hex_value
is_digit-hex c h = ground arith

scan-all_hex :
    (after : Bool) (acc : ℕ) (s : Text)
    → all_hex s ≡ true
    → 1 ≤ length s
    → scan 16 after acc s ≡ some (hex_number_from acc s)
unfolding scan hex_number_from
scan-all_hex after acc [] h k = absurd (omega arith)
scan-all_hex after acc (c ∷ []) h k = rw (is_digit-hex c (all_hex_cons c [] h).0)
scan-all_hex after acc (c ∷ d ∷ s) h k =
    let (head, tail) = all_hex_cons c (d ∷ s) h in
    rw (is_digit-hex c head) (scan-all_hex true (acc * 16 + hex_value c) (d ∷ s) tail (omega arith))

-- `x` and the signs are no hexadecimal digits.
not_hex : (c d : ℕ) → is_hex c ≡ true → is_hex d ≡ false → (c == d) ≡ false
not_hex c d h k = elim (Bool-cases (c == d)) [
  | inl e ↦ let p : c ≡ d = ground arith in cc (h, k, p)
  | inr e ↦ e
]

unsigned-all_hex :
    (s : Text) → all_hex s ≡ true → 1 ≤ length s → unsigned 16 s ≡ some (hex_number s)
unfolding unsigned hex_number
unsigned-all_hex [] h k = absurd (omega arith)
unsigned-all_hex (c ∷ []) h k = scan-all_hex false 0 (c ∷ []) h k
unsigned-all_hex (c ∷ d ∷ s) h k =
    let tail = (all_hex_cons c (d ∷ s) h).1 in
    let head = (all_hex_cons d s tail).0 in
    ground (
      arith,
      not_hex d b'x' head (unfold is_hex in refl),
      not_hex d b'X' head (unfold is_hex in refl),
      scan-all_hex false 0 (c ∷ d ∷ s) h k,
    )

-- `int(s, 16)` of hexadecimal digits is their number.
pub int_of-all_hex :
    (s : Text) → all_hex s ≡ true → 1 ≤ length s → int_of 16 s ≡ some (pos (hex_number s))
unfolding int_of signed positive
int_of-all_hex [] h k = absurd (omega arith)
int_of-all_hex (c ∷ s) h k =
    let head = (all_hex_cons c s h).0 in
    rw (
      strip-all_hex (c ∷ s) h,
      not_hex c b'-' head (unfold is_hex in refl),
      not_hex c b'+' head (unfold is_hex in refl),
      unsigned-all_hex (c ∷ s) h k,
    )
