-- ===== src/Text/Number/Decimal.antt =====
-- The format `%d` of natural numbers, the line that `file.readline` reads, and `int` of a line with
-- a number.
use barman.Prelude.{
  ℕ, zero, suc, ◌+◌, ◌-◌, ◌*◌, ◌/◌, ◌%◌, ◌≤◌, ◌<◌, ◌≡◌, refl, Bool, true, false, ◌&&◌, some, [],
  ◌∷◌, ◌++◌, ◌==◌, leb, ltb, length, length-append, not, if◌then◌else◌, arith, ap, ◌∙◌, Bool-cases,
  inl, inr,
}
use barman.Prelude.Int.{pos}
use barman.Text.{Text}
use barman.Text.Hex.{is_hex, hex_value, all_hex}
use barman.Text.Number.Laws.{strip-all_hex}
use barman.Text.Number.{
  is_space, lstrip, rstrip, drop_space, strip, is_digit, scan, unsigned, positive, signed, int_of,
}

-- The digits of `n`, for fuel above `n`.
unfoldable pub to_decimal : ℕ → ℕ → Text
to_decimal zero n = []
to_decimal (suc f) n =
    let rest = to_decimal f (n / 10) ++ (48 + n % 10) ∷ [] in
    if ltb n 10 then (48 + n) ∷ [] else rest

-- `"%d" % n`
unfoldable pub decimal : ℕ → Text
decimal n = to_decimal (suc n) n

-- `readline`, with the end of the line
unfoldable pub readline : Text → Text
readline [] = []
readline (c ∷ s) = let rest = readline s in if c == 10 then c ∷ [] else c ∷ rest

unfoldable all_decimal : Text → Bool
all_decimal [] = true
all_decimal (c ∷ s) = (leb 48 c && leb c 57) && all_decimal s

unfoldable value_from : ℕ → Text → ℕ
value_from acc [] = acc
value_from acc (c ∷ s) = value_from (acc * 10 + (c - 48)) s

all_decimal-cons :
    (c : ℕ) (s : Text) → all_decimal (c ∷ s) ≡ true → (48 ≤ c) × (c ≤ 57) × (all_decimal s ≡ true)
unfolding all_decimal
all_decimal-cons c s h = ground arith

all_decimal-append :
    (s t : Text) → all_decimal s ≡ true → all_decimal t ≡ true → all_decimal (s ++ t) ≡ true
unfolding all_decimal
all_decimal-append [] t h k = k
all_decimal-append (c ∷ s) t h k = ground (arith, all_decimal-append s t)

value_from-append :
    (acc : ℕ) (s t : Text) → value_from acc (s ++ t) ≡ value_from (value_from acc s) t
unfolding value_from
value_from-append acc [] t = refl
value_from-append acc (c ∷ s) t = value_from-append (acc * 10 + (c - 48)) s t

all_decimal-to_decimal : (f n : ℕ) → all_decimal (to_decimal f n) ≡ true
unfolding all_decimal to_decimal
all_decimal-to_decimal zero n = refl
all_decimal-to_decimal (suc f) n =
    let digit : all_decimal ((48 + n % 10) ∷ []) ≡ true = ground arith in
    let more =
      all_decimal-append (to_decimal f (n / 10)) ((48 + n % 10) ∷ [])
        (all_decimal-to_decimal f (n / 10)) digit in
    elim (Bool-cases (ltb n 10)) [ inl e ↦ rw e (ground arith) | inr e ↦ rw e more ]

value_from-to_decimal : (f n : ℕ) → n < f → value_from 0 (to_decimal f n) ≡ n
unfolding value_from to_decimal
value_from-to_decimal zero n h = absurd (omega arith)
value_from-to_decimal (suc f) n h = elim (Bool-cases (ltb n 10)) [
  | inl e ↦ rw e (omega arith)
  | inr e ↦
      let large : 10 ≤ n = ground arith in
      rw
        (
          e,
          value_from-append 0 (to_decimal f (n / 10)) ((48 + n % 10) ∷ []),
          value_from-to_decimal f (n / 10) (omega arith),
        )
        (omega arith)
]

length-to_decimal : (f n : ℕ) → 1 ≤ length (to_decimal (suc f) n)
unfolding to_decimal
length-to_decimal f n = elim (Bool-cases (ltb n 10)) [
  | inl e ↦ rw e (omega arith)
  | inr e ↦ rw e (omega (arith, length-append (to_decimal f (n / 10)) ((48 + n % 10) ∷ [])))
]

digit-not_space : (c : ℕ) → 48 ≤ c → c ≤ 57 → is_space c ≡ false
unfolding is_space
digit-not_space c low high = ground arith

-- White space behind the digits is dropped.
rstrip-line : (s : Text) → all_decimal s ≡ true → rstrip (s ++ 10 ∷ []) ≡ s
unfolding rstrip drop_space is_space
rstrip-line [] h = refl
rstrip-line (c ∷ s) h =
    let (low, high, tail) = all_decimal-cons c s h in rw (rstrip-line s tail) (kept c s low high)
  where
    kept : (c : ℕ) (s : Text) → 48 ≤ c → c ≤ 57 → drop_space c s ≡ c ∷ s
    kept c [] low high = rw (digit-not_space c low high) refl
    kept c (d ∷ s) low high = refl

strip-line : (s : Text) → all_decimal s ≡ true → 1 ≤ length s → strip (s ++ 10 ∷ []) ≡ s
unfolding strip lstrip
strip-line [] h k = absurd (omega arith)
strip-line (c ∷ s) h k =
    let (low, high, tail) = all_decimal-cons c s h in
    rw (digit-not_space c low high) (rstrip-line (c ∷ s) h)

scan-decimal :
    (after : Bool) (acc : ℕ) (s : Text)
    → all_decimal s ≡ true
    → 1 ≤ length s
    → scan 10 after acc s ≡ some (value_from acc s)
unfolding scan value_from is_digit is_hex hex_value
scan-decimal after acc [] h k = absurd (omega arith)
scan-decimal after acc (c ∷ []) h k = ground (arith, all_decimal-cons c [] h)
scan-decimal after acc (c ∷ d ∷ s) h k =
    let (low, high, tail) = all_decimal-cons c (d ∷ s) h in
    ground (arith, scan-decimal true (acc * 10 + (c - 48)) (d ∷ s) tail (omega arith))

unsigned-decimal :
    (s : Text) → all_decimal s ≡ true → 1 ≤ length s → unsigned 10 s ≡ some (value_from 0 s)
unfolding unsigned
unsigned-decimal [] h k = absurd (omega arith)
unsigned-decimal (c ∷ []) h k = scan-decimal false 0 (c ∷ []) h k
unsigned-decimal (c ∷ d ∷ s) h k = scan-decimal false 0 (c ∷ d ∷ s) h k

int_of-line :
    (s : Text)
    → all_decimal s ≡ true
    → 1 ≤ length s
    → int_of 10 (s ++ 10 ∷ []) ≡ some (pos (value_from 0 s))
unfolding int_of signed positive
int_of-line [] h k = absurd (omega arith)
int_of-line (c ∷ s) h k =
    let (low, high, tail) = all_decimal-cons c s h in
    let minus : (c == b'-') ≡ false = ground arith in
    let plus : (c == b'+') ≡ false = ground arith in
    rw (strip-line (c ∷ s) h k, minus, plus, unsigned-decimal (c ∷ s) h k) refl

readline-digits : (s : Text) → all_decimal s ≡ true → readline (s ++ 10 ∷ []) ≡ s ++ 10 ∷ []
unfolding readline
readline-digits [] h = refl
readline-digits (c ∷ s) h =
    let (low, high, tail) = all_decimal-cons c s h in
    let other : (c == 10) ≡ false = ground arith in rw (other, readline-digits s tail) refl

-- A line with a number in decimal reads back to it.
pub int_of-decimal : (n : ℕ) → int_of 10 (readline (decimal n ++ 10 ∷ [])) ≡ some (pos n)
unfolding decimal
int_of-decimal n =
    let digits = all_decimal-to_decimal (suc n) n in
    rw
      (
        readline-digits (to_decimal (suc n) n) digits,
        int_of-line (to_decimal (suc n) n) digits (length-to_decimal n n),
        value_from-to_decimal (suc n) n (omega arith),
      )
      refl

decimal-hex : (s : Text) → all_decimal s ≡ true → all_hex s ≡ true
unfolding all_hex is_hex
decimal-hex [] h = refl
decimal-hex (c ∷ s) h =
    let (low, high, tail) = all_decimal-cons c s h in
    let rest : all_hex s ≡ true = decimal-hex s tail in ground arith

int_of-digits :
    (s : Text) → all_decimal s ≡ true → 1 ≤ length s → int_of 10 s ≡ some (pos (value_from 0 s))
unfolding int_of signed positive
int_of-digits [] h k = absurd (omega arith)
int_of-digits (c ∷ s) h k =
    let (low, high, tail) = all_decimal-cons c s h in
    let minus : (c == b'-') ≡ false = ground arith in
    let plus : (c == b'+') ≡ false = ground arith in
    rw (strip-all_hex (c ∷ s) (decimal-hex (c ∷ s) h), minus, plus, unsigned-decimal (c ∷ s) h k)
      refl

-- The text of a number reads back to it.
pub int_of-plain_decimal : (n : ℕ) → int_of 10 (decimal n) ≡ some (pos n)
unfolding decimal
int_of-plain_decimal n =
    let digits = all_decimal-to_decimal (suc n) n in
    int_of-digits (to_decimal (suc n) n) digits (length-to_decimal n n)
    ∙ ap (λ (m : ℕ). some (pos m)) (value_from-to_decimal (suc n) n (omega arith))

-- A text without a character
unfoldable pub is_free : ℕ → Text → Bool
is_free c [] = true
is_free c (d ∷ s) = not (d == c) && is_free c s

digits_free : (c : ℕ) (s : Text) → c < 48 → all_decimal s ≡ true → is_free c s ≡ true
unfolding is_free
digits_free c [] small h = refl
digits_free c (d ∷ s) small h =
    let (low, high, tail) = all_decimal-cons d s h in
    let rest : is_free c s ≡ true = digits_free c s small tail in ground arith

pub is_free-decimal : (c n : ℕ) → c < 48 → is_free c (decimal n) ≡ true
unfolding decimal
is_free-decimal c n small =
    digits_free c (to_decimal (suc n) n) small (all_decimal-to_decimal (suc n) n)

pub readline-free : (s : Text) → is_free 10 s ≡ true → readline s ≡ s
unfolding readline is_free
readline-free [] h = refl
readline-free (c ∷ s) h =
    let other : (c == 10) ≡ false = ground arith in
    let tail : is_free 10 s ≡ true = ground arith in rw (other, readline-free s tail) refl

-- A text without white space
unfoldable pub is_solid : Text → Bool
is_solid [] = true
is_solid (c ∷ s) = not (is_space c) && is_solid s

solid_digits : (s : Text) → all_decimal s ≡ true → is_solid s ≡ true
unfolding is_solid
solid_digits [] h = refl
solid_digits (c ∷ s) h =
    let (low, high, tail) = all_decimal-cons c s h in
    rw (digit-not_space c low high) (solid_digits s tail)

-- The text of a number is a word.
pub is_solid-decimal : (n : ℕ) → (is_solid (decimal n) ≡ true) × (1 ≤ length (decimal n))
unfolding decimal
is_solid-decimal n =
    (solid_digits (to_decimal (suc n) n) (all_decimal-to_decimal (suc n) n), length-to_decimal n n)
