-- ===== src/Xlog/Name/Match.antt =====
-- How the expressions of xlog.py read names that are made of hexadecimal digits.
use barman.Prelude.{
  ℕ, ◌^◌, ◌≤◌, ◌<◌, ◌≡◌, refl, ap, true, false, some, [], ◌∷◌, ◌++◌, ◌==◌, arith, length,
  Bool-cases, inl, inr,
}
use mathlib.Core.List.{append-nil, append_assoc}
use barman.Text.{Text, text, text_eq, split_on}
use barman.Text.Hex.{is_hex, all_hex, hex8}
use barman.Text.Hex.Laws.{all_hex-append, all_hex-hex8, length-hex8}
use barman.Xlog.Name.{
  basename, chop_newline, take_hex, is_segment_suffix, XlogMatch, match_segment, match_tli,
  xlog_match, encode_segment_name,
}

-- A hexadecimal digit is none of the characters that the expressions treat apart.
pub is_hex_ne : (c d : ℕ) → is_hex c ≡ true → is_hex d ≡ false → (c == d) ≡ false
is_hex_ne c d h k = elim (Bool-cases (c == d)) [
  | inl e ↦ let p : c ≡ d = ground arith in cc (h, k, p)
  | inr e ↦ e
]

pub all_hex_head : (c : ℕ) (s : Text) → all_hex (c ∷ s) ≡ true → is_hex c ≡ true
unfolding all_hex
all_hex_head c s h = ground arith

pub all_hex_tail : (c : ℕ) (s : Text) → all_hex (c ∷ s) ≡ true → all_hex s ≡ true
unfolding all_hex
all_hex_tail c s h = ground arith

-- A text without a separator is its only part.
pub split_on-all_hex :
    (sep : ℕ) (s : Text) → is_hex sep ≡ false → all_hex s ≡ true → split_on sep s ≡ s ∷ []
unfolding split_on
split_on-all_hex sep [] k h = refl
split_on-all_hex sep (c ∷ s) k h =
    rw (is_hex_ne c sep (all_hex_head c s h) k, split_on-all_hex sep s k (all_hex_tail c s h))

pub basename-all_hex : (s : Text) → all_hex s ≡ true → basename s ≡ s
unfolding basename
basename-all_hex s h = rw (split_on-all_hex b'/' s (unfold is_hex in refl) h)

pub chop_newline-all_hex : (s : Text) → all_hex s ≡ true → chop_newline s ≡ s
unfolding chop_newline
chop_newline-all_hex [] h = refl
chop_newline-all_hex (c ∷ []) h = rw (is_hex_ne c 10 (all_hex_head c [] h) (unfold is_hex in refl))
chop_newline-all_hex (c ∷ d ∷ s) h =
    ap (λ t. c ∷ t) (chop_newline-all_hex (d ∷ s) (all_hex_tail c (d ∷ s) h))

pub take_hex-append : (s t : Text) → all_hex s ≡ true → take_hex (length s) (s ++ t) ≡ some (s, t)
unfolding take_hex
take_hex-append [] t h = refl
take_hex-append (c ∷ s) t h = rw (all_hex_head c s h, take_hex-append s t (all_hex_tail c s h))

pub take_hex8 : (n : ℕ) (t : Text) → n < 2 ^ 32 → take_hex 8 (hex8 n ++ t) ≡ some (hex8 n, t)
take_hex8 n t h = let e = take_hex-append (hex8 n) t (all_hex-hex8 n h) in rw (length-hex8 n h) at e

pub all_hex-encode :
    (tli log seg : ℕ)
    → tli < 2 ^ 32
    → log < 2 ^ 32
    → seg < 2 ^ 32
    → all_hex (encode_segment_name tli log seg) ≡ true
unfolding encode_segment_name
all_hex-encode tli log seg h k l =
    rw (all_hex-append, all_hex-hex8 tli h)
      (rw (all_hex-append, all_hex-hex8 log k) (all_hex-hex8 seg l))

-- A text that goes on with a hexadecimal digit is no suffix `.…`.
hex-not_dot : (s t p : Text) → 1 ≤ length s → all_hex s ≡ true → text_eq (s ++ t) (b'.' ∷ p) ≡ false
unfolding text_eq
hex-not_dot [] t p n h = absurd (omega arith)
hex-not_dot (c ∷ s) t p n h = rw (is_hex_ne c b'.' (all_hex_head c s h) (unfold is_hex in refl))

module _ (tli log seg : ℕ) (h : tli < 2 ^ 32) (k : log < 2 ^ 32) (l : seg < 2 ^ 32) where
  abbrev suffix_groups : Text → XlogMatch
  suffix_groups suffix = record {
    group0 = encode_segment_name tli log seg ++ suffix;
    tli = hex8 tli;
    segment = some (hex8 log, hex8 seg);
  }

  match_tli-suffix :
      (suffix : Text)
      → is_segment_suffix suffix ≡ true
      → (let name = encode_segment_name tli log seg ++ suffix in match_tli name (take_hex 8 name))
        ≡ some (suffix_groups suffix)
  unfolding match_tli match_segment
  match_tli-suffix suffix good = rw (
    shape,
    take_hex8 tli (hex8 log ++ (hex8 seg ++ suffix)) h,
    hex-not_dot (hex8 log) (hex8 seg ++ suffix) (text "history") (omega (arith, length-hex8 log k))
        (all_hex-hex8 log k),
    take_hex8 log (hex8 seg ++ suffix) k,
    take_hex8 seg suffix l,
    good,
  )
    where
      shape :
          encode_segment_name tli log seg ++ suffix ≡ hex8 tli ++ (hex8 log ++ (hex8 seg ++ suffix))
      shape = unfold encode_segment_name in simp append_assoc

  -- The name of a segment matches, with its three groups.
  pub xlog_match-encode :
      xlog_match (encode_segment_name tli log seg)
      ≡ some (record {
        group0 = encode_segment_name tli log seg;
        tli = hex8 tli;
        segment = some (hex8 log, hex8 seg);
      })
  unfolding xlog_match
  xlog_match-encode =
      rw (chop_newline-all_hex _ (all_hex-encode tli log seg h k l))
        (rw append-nil at (match_tli-suffix [] (unfold is_segment_suffix in refl)))
