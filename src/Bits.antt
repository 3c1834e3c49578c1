-- ===== src/Bits.antt =====
-- Masks of ones: `a & (2**k - 1)` and `a & (2**k * (2**j - 1))`, at every width.
use Prim.Native.Nat.{bit_and, digits, bit_and-bitwise}
use native.Mathlib.Nat.{div-add-mod, mod-lt, div-eq_of_lt-le}
use native.Mathlib.Decide.{dec_lt}
use barman.Prelude.{
  ℕ, zero, suc, ◌+◌, ◌-◌, ◌*◌, ◌/◌, ◌%◌, ◌≤◌, ◌<◌, min, ◌≡◌, refl, sym, ◌∙◌, arith, ap,
}

abbrev pub pow2 : ℕ → ℕ
pow2 zero = 1
pow2 (suc k) = 2 * pow2 k

-- What the native operation stands for, by the digits that it still reads.
abbrev within : ℕ → ℕ → ℕ → ℕ
within n a b = digits (λ m. zero) min n a b

-- With a digit for each unit of `a` there is enough: one more changes nothing.
one_more : (n a b : ℕ) → a ≤ n → within (suc n) a b ≡ within n a b
one_more n zero b h = by_digits n
  where
    by_digits : (n : ℕ) → within (suc n) 0 b ≡ within n 0 b
    by_digits zero = refl
    by_digits (suc n) = refl
one_more zero (suc a) b h = absurd (omega (arith, h))
one_more (suc n) (suc a) b h = omega (arith, one_more n (suc a / 2) (b / 2) (omega (arith, h)))

enough_digits : (n a b : ℕ) → a ≤ n → within n a b ≡ bit_and a b
enough_digits zero a b h = let e : a ≡ 0 = omega (arith, h) in rw e (sym (bit_and-bitwise 0 b))
enough_digits (suc n) a b h = elim (dec_lt n a) [
  | yes l ↦ let e : a ≡ suc n = omega (arith, h, l) in rw e (sym (bit_and-bitwise (suc n) b))
  | no l ↦ let h' : a ≤ n = omega (arith, l) in one_more n a b h' ∙ enough_digits n a b h'
]

-- The lowest digit stands for itself.
bit_and_step : (a b : ℕ) → bit_and a b ≡ bit_and (a / 2) (b / 2) * 2 + min (a % 2) (b % 2)
bit_and_step zero b =
    omega (arith, enough_digits 0 0 b (omega arith), enough_digits 0 0 (b / 2) (omega arith))
bit_and_step (suc a) b =
    let rest = enough_digits a (suc a / 2) (b / 2) (omega arith) in
    omega (arith, bit_and-bitwise (suc a) b, rest)

nothing_within : (n a : ℕ) → within n a 0 ≡ 0
nothing_within zero zero = refl
nothing_within zero (suc a) = refl
nothing_within (suc n) zero = refl
nothing_within (suc n) (suc a) = omega (arith, nothing_within n (suc a / 2))

pub pow2-pos : (k : ℕ) → 0 < pow2 k
pow2-pos zero = omega arith
pow2-pos (suc k) = omega (arith, pow2-pos k)

-- Quotient and remainder are determined by the equation between them.
pub div_unique : (p q r : ℕ) → r < p → (p * q + r) / p ≡ q
div_unique p q r h = div-eq_of_lt-le p (grind arith) (grind arith)

pub mod_unique : (p q r : ℕ) → r < p → (p * q + r) % p ≡ r
mod_unique p q r h = omega (arith, div-add-mod (p * q + r) p, ap (λ t. p * t) (div_unique p q r h))

mod_double : (a p : ℕ) → 0 < p → a % (2 * p) ≡ a / 2 % p * 2 + a % 2
mod_double a p h =
    let q = a / 2 / p in
    let r = a / 2 % p * 2 + a % 2 in
    let small : r < 2 * p = omega (arith, mod-lt (a / 2) h) in
    let shape : a ≡ 2 * p * q + r = omega (arith, ap (λ t. 2 * t) (div-add-mod (a / 2) p)) in
    let e : a % (2 * p) ≡ (2 * p * q + r) % (2 * p) = ap (λ t. t % (2 * p)) shape in
    omega (arith, e, mod_unique (2 * p) q r small)

pub bit_and_low : (k a : ℕ) → bit_and a (pow2 k - 1) ≡ a % pow2 k
bit_and_low zero a = omega (arith, bit_and-bitwise a 0, nothing_within a a)
bit_and_low (suc k) a =
    let p = pow2-pos k in
    let half : (2 * pow2 k - 1) / 2 ≡ pow2 k - 1 = omega arith in
    omega (
      arith,
      bit_and_step a (2 * pow2 k - 1),
      ap (λ t. bit_and (a / 2) t) half,
      bit_and_low k (a / 2),
      mod_double a (pow2 k) p,
    )

double_div : (r b p : ℕ) → 0 < p → b < 2 → (r * 2 + b) / (2 * p) ≡ r / p
double_div r b p h k =
    let rest = r % p * 2 + b in
    let small : rest < 2 * p = omega (arith, mod-lt r h) in
    let shape : r * 2 + b ≡ 2 * p * (r / p) + rest =
      omega (arith, ap (λ t. 2 * t) (div-add-mod r p)) in
    rw shape (div_unique (2 * p) (r / p) rest small)

bit_and_double : (a m : ℕ) → bit_and a (2 * m) ≡ bit_and (a / 2) m * 2
bit_and_double a m =
    let half : 2 * m / 2 ≡ m = omega arith in
    omega (arith, bit_and_step a (2 * m), ap (λ t. bit_and (a / 2) t) half)

mul_pos : (a b : ℕ) → 0 < a → 0 < b → 0 < a * b
mul_pos a b h k = grind arith

pub bit_and_high :
    (k j a : ℕ) → bit_and a (pow2 k * (pow2 j - 1)) ≡ a % (pow2 k * pow2 j) / pow2 k * pow2 k
bit_and_high zero j a =
    let mask : 1 * (pow2 j - 1) ≡ pow2 j - 1 = omega arith in
    let whole : 1 * pow2 j ≡ pow2 j = omega arith in
    rw (mask, whole) (omega (arith, bit_and_low j a))
bit_and_high (suc k) j a =
    let P = pow2 k in
    let R = a / 2 % (P * pow2 j) in
    let mask : 2 * P * (pow2 j - 1) ≡ 2 * (P * (pow2 j - 1)) = grind arith in
    let whole : 2 * P * pow2 j ≡ 2 * (P * pow2 j) = grind arith in
    let full : 0 < P * pow2 j = mul_pos P (pow2 j) (pow2-pos k) (pow2-pos j) in
    rw
      (
        mask,
        whole,
        bit_and_double a (P * (pow2 j - 1)),
        mod_double a (P * pow2 j) full,
        double_div R (a % 2) P (pow2-pos k) (omega arith),
      )
      (omega (arith, bit_and_high k j (a / 2)))
