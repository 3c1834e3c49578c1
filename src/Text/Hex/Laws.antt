-- ===== src/Text/Hex/Laws.antt =====
-- The laws of hexadecimal text, for `int` in base 16 and the formats `%X` and `%08X`.
use barman.Prelude.{
  ℕ, zero, suc, ◌+◌, ◌-◌, ◌*◌, ◌/◌, ◌%◌, ◌^◌, ◌≤◌, ◌<◌, ◌≡◌, refl, sym, ap, ◌∙◌, true, false, ◌&&◌,
  ◌||◌, [], ◌∷◌, ◌++◌, arith, leb, ltb, lt→ltb, ◌==◌, length, length-append, inl, inr, Bool-cases,
}
use mathlib.Core.List.{append_assoc}
use native.Mathlib.Decide.{dec_lt}
use barman.Text.{Text, text_eq, text_le, text_lt}
use barman.Text.Order.{text_eq→eq, text_eq_refl, text_lt-not_le}
use barman.Text.Hex.{
  is_hex, hex_value, hex_digit, hex_number_from, hex_number, all_hex, to_hex, upper_hex, zeros,
  hex8,
}

abbrev pub pow16 : ℕ → ℕ
pow16 zero = 1
pow16 (suc w) = 16 * pow16 w

-- The last `w` hexadecimal digits of `n`.
fixed : ℕ → ℕ → Text
fixed zero n = []
fixed (suc w) n = fixed w (n / 16) ++ hex_digit (n % 16) ∷ []

pub is_hex-hex_digit : (v : ℕ) → v < 16 → is_hex (hex_digit v) ≡ true
unfolding is_hex hex_digit
is_hex-hex_digit v h = ground arith

pub hex_value-hex_digit : (v : ℕ) → v < 16 → hex_value (hex_digit v) ≡ v
unfolding hex_value hex_digit
hex_value-hex_digit v h = ground arith

leb-hex_digit : (v w : ℕ) → v < 16 → w < 16 → leb (hex_digit v) (hex_digit w) ≡ leb v w
unfolding hex_digit
leb-hex_digit v w h k = ground arith

pub all_hex-append : (s t : Text) → all_hex (s ++ t) ≡ (all_hex s && all_hex t)
unfolding all_hex
all_hex-append [] t = refl
all_hex-append (c ∷ s) t = ground (arith, all_hex-append s t)

pub hex_number_from-append :
    (s : Text) (acc c : ℕ)
    → hex_number_from acc (s ++ c ∷ []) ≡ hex_number_from acc s * 16 + hex_value c
unfolding hex_number_from
hex_number_from-append [] acc c = refl
hex_number_from-append (d ∷ s) acc c = hex_number_from-append s (acc * 16 + hex_value d) c

all_hex-fixed : (w n : ℕ) → all_hex (fixed w n) ≡ true
unfolding all_hex fixed
all_hex-fixed zero n = refl
all_hex-fixed (suc w) n =
    rw all_hex-append
      (ground (arith, all_hex-fixed w (n / 16), is_hex-hex_digit (n % 16) (omega arith)))

length-fixed : (w n : ℕ) → length (fixed w n) ≡ w
unfolding fixed
length-fixed zero n = refl
length-fixed (suc w) n =
    omega
      (arith, length-append (fixed w (n / 16)) (hex_digit (n % 16) ∷ []), length-fixed w (n / 16))

hex_number_from-fixed :
    (w n acc : ℕ) → n < pow16 w → hex_number_from acc (fixed w n) ≡ acc * pow16 w + n
unfolding hex_number_from fixed
hex_number_from-fixed zero n acc h = omega arith
hex_number_from-fixed (suc w) n acc h = rw hex_number_from-append (
    omega (
      arith,
      hex_number_from-fixed w (n / 16) acc (omega arith),
      hex_value-hex_digit (n % 16) (omega arith),
    ))

fixed_zero : (w : ℕ) → fixed (suc w) 0 ≡ 48 ∷ fixed w 0
unfolding fixed hex_digit
fixed_zero zero = refl
fixed_zero (suc w) = ap (λ t. t ++ 48 ∷ []) (fixed_zero w)

zeros-append-digit : (w n : ℕ) → n < 16 → zeros w ++ hex_digit n ∷ [] ≡ fixed (suc w) n
unfolding zeros
zeros-append-digit zero n h = unfold fixed in ap (λ v. hex_digit v ∷ []) (omega arith)
zeros-append-digit (suc w) n h = rw (zeros-append-digit w n h) (
    let e : n / 16 ≡ 0 = omega arith in
    let e' : n % 16 ≡ n = omega arith in
    unfold fixed in rw (e, e') (ap (λ t. t ++ hex_digit n ∷ []) (sym (fixed_zero w))))

length-to_hex : (f n : ℕ) → 1 ≤ length (to_hex (suc f) n)
unfolding to_hex
length-to_hex f n = elim (Bool-cases (ltb n 16)) [
  | inl e ↦ rw e (omega arith)
  | inr e ↦ rw (e, length-append) (omega arith)
]

to_hex_small : (f n : ℕ) → n < 16 → to_hex (suc f) n ≡ hex_digit n ∷ []
unfolding to_hex
to_hex_small f n h = rw (lt→ltb n 16 h)

to_hex_large : (f n : ℕ) → 16 ≤ n → to_hex (suc f) n ≡ to_hex f (n / 16) ++ hex_digit (n % 16) ∷ []
unfolding to_hex
to_hex_large f n h = ground arith

length-to_hex-le : (w f n : ℕ) → n < pow16 (suc w) → length (to_hex f n) ≤ suc w
length-to_hex-le w zero n h = unfold to_hex in omega arith
length-to_hex-le zero (suc f) n h = rw (to_hex_small f n (omega arith)) (omega arith)
length-to_hex-le (suc w) (suc f) n h = elim (dec_lt n 16) [
  | yes small ↦ rw (to_hex_small f n small) (omega arith)
  | no large ↦
      rw (to_hex_large f n (omega arith), length-append)
        (omega (arith, length-to_hex-le w f (n / 16) (omega arith)))
]

fixed-suc : (w n : ℕ) → fixed w (n / 16) ++ hex_digit (n % 16) ∷ [] ≡ fixed (suc w) n
unfolding fixed
fixed-suc w n = refl

-- With fuel above `n`, padding `%X` to `w + 1` places gives the last `w + 1` digits.
pad-to_hex :
    (w k f n : ℕ)
    → n < pow16 (suc w)
    → n < f
    → k + length (to_hex f n) ≡ suc w
    → zeros k ++ to_hex f n ≡ fixed (suc w) n
pad-to_hex w k zero n h lt e = absurd (omega arith)
pad-to_hex zero k (suc f) n h lt e =
    let small : n < 16 = omega arith in
    let none : k ≡ 0 = omega (arith, ap length (to_hex_small f n small)) in
    rw (to_hex_small f n small, none) (zeros-append-digit 0 n small)
pad-to_hex (suc w) k (suc f) n h lt e = elim (dec_lt n 16) [
  | yes small ↦
      let places : k ≡ suc w = omega (arith, ap length (to_hex_small f n small)) in
      rw (to_hex_small f n small, places) (zeros-append-digit (suc w) n small)
  | no large ↦
      let step = to_hex_large f n (omega arith) in
      let last = hex_digit (n % 16) ∷ [] in
      let places : k + length (to_hex f (n / 16)) ≡ suc w =
        omega (arith, ap length step, length-append (to_hex f (n / 16)) last) in
      rw (step, ← append_assoc)
        (ap (λ t. t ++ last) (pad-to_hex w k f (n / 16) (omega arith) (omega arith) places)
          ∙ fixed-suc (suc w) n)
]

hex8-eq-fixed : (n : ℕ) → n < 2 ^ 32 → hex8 n ≡ fixed 8 n
unfolding hex8 upper_hex
hex8-eq-fixed n h =
    pad-to_hex 7 (8 - length (to_hex (suc n) n)) (suc n) n h (omega arith)
      (omega (arith, length-to_hex-le 7 (suc n) n h))

pub length-hex8 : (n : ℕ) → n < 2 ^ 32 → length (hex8 n) ≡ 8
length-hex8 n h = rw (hex8-eq-fixed n h) (length-fixed 8 n)

pub all_hex-hex8 : (n : ℕ) → n < 2 ^ 32 → all_hex (hex8 n) ≡ true
all_hex-hex8 n h = rw (hex8-eq-fixed n h) (all_hex-fixed 8 n)

-- `int("%08X" % n, 16) == n`
pub hex_number-hex8 : (n : ℕ) → n < 2 ^ 32 → hex_number (hex8 n) ≡ n
unfolding hex_number
hex_number-hex8 n h = rw (hex8-eq-fixed n h) (omega (arith, hex_number_from-fixed 8 n 0 h))

all_hex_digit : (v : ℕ) → v < 16 → all_hex (hex_digit v ∷ []) ≡ true
unfolding all_hex
all_hex_digit v h = ground (arith, is_hex-hex_digit v h)

all_hex-to_hex : (f n : ℕ) → all_hex (to_hex f n) ≡ true
all_hex-to_hex zero n = unfold to_hex all_hex in refl
all_hex-to_hex (suc f) n = elim (dec_lt n 16) [
  | yes small ↦ rw (to_hex_small f n small) (all_hex_digit n small)
  | no large ↦
      rw (to_hex_large f n (omega arith), all_hex-append, all_hex-to_hex f (n / 16))
        (all_hex_digit (n % 16) (omega arith))
]

hex_number_from-to_hex : (f n : ℕ) → n < f → hex_number_from 0 (to_hex f n) ≡ n
hex_number_from-to_hex zero n h = absurd (omega arith)
hex_number_from-to_hex (suc f) n h = elim (dec_lt n 16) [
  | yes small ↦
      rw (to_hex_small f n small)
        (unfold hex_number_from in omega (arith, hex_value-hex_digit n small))
  | no large ↦
      rw (to_hex_large f n (omega arith), hex_number_from-append)
        (omega (
          arith,
          hex_number_from-to_hex f (n / 16) (omega arith),
          hex_value-hex_digit (n % 16) (omega arith),
        ))
]

pub all_hex-upper_hex : (n : ℕ) → all_hex (upper_hex n) ≡ true
unfolding upper_hex
all_hex-upper_hex n = all_hex-to_hex (suc n) n

-- `int("%X" % n, 16) == n`
pub hex_number-upper_hex : (n : ℕ) → hex_number (upper_hex n) ≡ n
unfolding hex_number upper_hex
hex_number-upper_hex n = hex_number_from-to_hex (suc n) n (omega arith)

pub length-upper_hex : (n : ℕ) → 1 ≤ length (upper_hex n)
unfolding upper_hex
length-upper_hex n = length-to_hex n n

-- Texts of equal length compare block by block.
pub text_le-append :
    (s s' t t' : Text)
    → length s ≡ length s'
    → text_le (s ++ t) (s' ++ t') ≡ (text_lt s s' || (text_eq s s' && text_le t t'))
unfolding text_le text_lt text_eq
text_le-append [] [] t t' e = refl
text_le-append [] (d ∷ s') t t' e = absurd (omega arith)
text_le-append (c ∷ s) [] t t' e = absurd (omega arith)
text_le-append (c ∷ s) (d ∷ s') t t' e = ground (arith, text_le-append s s' t t' (omega arith))

text_le_digit :
    (v w : ℕ) → v < 16 → w < 16 → text_le (hex_digit v ∷ []) (hex_digit w ∷ []) ≡ leb v w
unfolding text_le
text_le_digit v w h k = ground (arith, leb-hex_digit v w h k)

fixed_injective : (w m n : ℕ) → m < pow16 w → n < pow16 w → fixed w m ≡ fixed w n → m ≡ n
fixed_injective w m n h k e =
    omega (
      arith,
      hex_number_from-fixed w m 0 h,
      hex_number_from-fixed w n 0 k,
      ap (hex_number_from 0) e,
    )

text_eq-fixed : (w m n : ℕ) → m < pow16 w → n < pow16 w → text_eq (fixed w m) (fixed w n) ≡ (m == n)
text_eq-fixed w m n h k = elim (Bool-cases (text_eq (fixed w m) (fixed w n))) [
  | inl e ↦ rw (e, fixed_injective w m n h k (text_eq→eq _ _ e)) (ground arith)
  | inr e ↦ rw e (ground (arith, λ (p : m ≡ n). differ p e))
]
  where
    differ : m ≡ n → text_eq (fixed w m) (fixed w n) ≡ false → ⊥
    differ p e = cc (text_eq_refl (fixed w m), ap (fixed w) p)

-- Fixed-width digits compare as texts the way the numbers compare.
text_le-fixed : (w m n : ℕ) → m < pow16 w → n < pow16 w → text_le (fixed w m) (fixed w n) ≡ leb m n
text_le-fixed zero m n h k = unfold fixed text_le in ground arith
text_le-fixed (suc w) m n h k =
    rw
      (
        ← fixed-suc w m,
        ← fixed-suc w n,
        text_le-append _ _ (hex_digit (m % 16) ∷ []) (hex_digit (n % 16) ∷ [])
            (length-fixed w (m / 16) ∙ sym (length-fixed w (n / 16))),
        text_lt-not_le (fixed w (m / 16)) (fixed w (n / 16)),
      )
      (ground (
        arith,
        text_le-fixed w (n / 16) (m / 16) (omega arith) (omega arith),
        text_eq-fixed w (m / 16) (n / 16) (omega arith) (omega arith),
        text_le_digit (m % 16) (n % 16) (omega arith) (omega arith),
      ))

pub text_le-hex8 : (m n : ℕ) → m < 2 ^ 32 → n < 2 ^ 32 → text_le (hex8 m) (hex8 n) ≡ leb m n
text_le-hex8 m n h k = rw (hex8-eq-fixed m h, hex8-eq-fixed n k) (text_le-fixed 8 m n h k)

pub text_eq-hex8 : (m n : ℕ) → m < 2 ^ 32 → n < 2 ^ 32 → text_eq (hex8 m) (hex8 n) ≡ (m == n)
text_eq-hex8 m n h k = rw (hex8-eq-fixed m h, hex8-eq-fixed n k) (text_eq-fixed 8 m n h k)
