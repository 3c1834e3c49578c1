-- ===== src/Xlog/Name/Kinds.antt =====
-- The kinds of the names that the expressions accept.
use barman.Prelude.{
  ℕ, ◌+◌, ◌≡◌, refl, ap, Bool, true, false, Option, none, some, [], ◌∷◌, ◌==◌, arith, Bool-cases,
  Option-cases, inl, inr,
}
use barman.Text.{Text, text, text_eq}
use barman.Text.Order.{text_eq→eq}
use barman.Result.{ok}
use barman.Xlog.Name.{
  XlogMatch, ends_with, xlog_match, basename, is_any_xlog_file, is_wal_file, is_backup_file,
  is_partial_file, is_history_file, is_plain, is_matched, matched_ends_with, Segment,
  decode_segment_name, decode_match, numbers,
}

last_char : ℕ → Text → ℕ
last_char d [] = d
last_char d (c ∷ s) = last_char c s

-- Where a text ends in a suffix, the two have one last character.
last_char-ends_with :
    (d e c : ℕ) (s p : Text) → ends_with s (c ∷ p) ≡ true → last_char d s ≡ last_char e (c ∷ p)
unfolding ends_with last_char
last_char-ends_with d e c [] p h = let x = text_eq→eq [] (c ∷ p) h in cc x
last_char-ends_with d e c (b ∷ s) p h = elim (Bool-cases (text_eq (b ∷ s) (c ∷ p))) [
  | inl y ↦ ap (last_char d) (text_eq→eq (b ∷ s) (c ∷ p) y)
  | inr y ↦ last_char-ends_with b e c s p (rw y at h)
]

-- Two suffixes with different last characters exclude each other.
exclusive :
    (s p q : Text) (c d : ℕ)
    → (last_char 0 (c ∷ p) == last_char 0 (d ∷ q)) ≡ false
    → ends_with s (c ∷ p) ≡ true
    → ends_with s (d ∷ q) ≡ false
exclusive s p q c d ne h = elim (Bool-cases (ends_with s (d ∷ q))) [
  | inl k ↦
      let x = last_char-ends_with 0 0 c s p h in
      let y = last_char-ends_with 0 0 d s q k in
      let z : last_char 0 (c ∷ p) ≡ last_char 0 (d ∷ q) = cc (x, y) in ground arith
  | inr k ↦ k
]

abbrev pub count_true : Bool → ℕ
count_true true = 1
count_true false = 0

-- A path is accepted exactly if it is one of the four kinds, and it is never two of them.
pub kinds_partition :
    (path : Text)
    → count_true (is_wal_file path)
        + count_true (is_history_file path)
        + count_true (is_backup_file path)
        + count_true (is_partial_file path)
      ≡ count_true (is_any_xlog_file path)
unfolding is_wal_file is_history_file is_backup_file is_partial_file is_any_xlog_file
kinds_partition path = by_match (xlog_match (basename path))
  where
    by_match :
        (o : Option XlogMatch)
        → count_true (is_plain o)
            + count_true (matched_ends_with (text ".history") o)
            + count_true (matched_ends_with (text ".backup") o)
            + count_true (matched_ends_with (text ".partial") o)
          ≡ count_true (is_matched o)
    by_match none = unfold is_plain in refl
    by_match (some m) =
        unfold is_plain in
        let s = m.group0 in
        ground (
          arith,
          exclusive s (text "history") (text "backup") b'.' b'.' (unfold last_char in refl),
          exclusive s (text "history") (text "partial") b'.' b'.' (unfold last_char in refl),
          exclusive s (text "backup") (text "partial") b'.' b'.' (unfold last_char in refl),
        )

-- A name that is accepted has numbers.
pub decode-accepted :
    (name : Text) → is_any_xlog_file name ≡ true → (s : Segment) × (decode_segment_name name ≡ ok s)
unfolding is_any_xlog_file decode_segment_name decode_match
decode-accepted name h = elim (Option-cases (xlog_match (basename name))) [
  | inl e ↦ ground (arith, e)
  | inr (m, e) ↦ (numbers m, rw e refl)
]
