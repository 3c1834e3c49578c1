-- ===== src/Xlog/Name/Ranges.antt =====
-- The ranges of the numbers that `decode_segment_name` reads.
use barman.Prelude.{
  ℕ, zero, suc, ◌+◌, ◌^◌, ◌*◌, ◌<◌, ◌≡◌, refl, ◌↔◌, true, Option, none, some, [], ◌∷◌, arith,
  Bool-cases, inl, inr,
}
use barman.Text.{Text, text_eq, text}
use barman.Text.Hex.{is_hex, hex_value, hex_number, hex_number_from}
use barman.Text.Hex.Laws.{pow16}
use barman.Result.{ok}
use barman.Xlog.Name.{
  Segment, XlogMatch, take_hex, prepend, rest_of, decode_segment_name, decode_match, numbers,
  is_segment_suffix, xlog_match, match_tli, match_segment, basename, chop_newline,
}

hex_value-lt : (c : ℕ) → is_hex c ≡ true → hex_value c < 16
unfolding is_hex hex_value
hex_value-lt c h = ground arith

prepend-eq-some :
    (c : ℕ) (o : Option (Text × Text)) (g r : Text)
    → prepend c o ≡ some (g, r)
    → (g' : Text) × (o ≡ some (g', r)) × (g ≡ c ∷ g')
prepend-eq-some c none g r h = cc
prepend-eq-some c (some (g', r')) g r h = (g', cc, cc)

-- A group of `n` digits is a number below 16 to the `n`.
take_hex-lt :
    (n acc : ℕ) (s g r : Text)
    → take_hex n s ≡ some (g, r)
    → hex_number_from acc g < (acc + 1) * pow16 n
unfolding take_hex hex_number_from
take_hex-lt zero acc s [] r h = omega arith
take_hex-lt zero acc s (c ∷ g) r h = cc
take_hex-lt (suc n) acc [] g r h = cc
take_hex-lt (suc n) acc (c ∷ s) g r h = elim (Bool-cases (is_hex c)) [
  | inl e ↦
      let (g', found, shape) = prepend-eq-some c (take_hex n s) g r (rw e at h) in
      let ih = take_hex-lt n (acc * 16 + hex_value c) s g' r found in
      let v = hex_value-lt c e in rw shape (grind arith)
  | inr e ↦ let p : none ≡ some (g, r) = (rw e at h) in cc p
]

-- The three groups of a match are numbers below 2^32.
record IsInRange (m : XlogMatch) : Type 0 where
  tli : hex_number m.tli < 2 ^ 32
  segment :
      (log seg : Text)
      → m.segment ≡ some (log, seg)
      → (hex_number log < 2 ^ 32) × (hex_number seg < 2 ^ 32)

group-lt : (s g r : Text) → take_hex 8 s ≡ some (g, r) → hex_number g < 2 ^ 32
unfolding hex_number
group-lt s g r h = take_hex-lt 8 0 s g r h

match_segment-IsInRange :
    (name tli s : Text) (o : Option (Text × Text)) (m : XlogMatch)
    → hex_number tli < 2 ^ 32
    → take_hex 8 s ≡ o
    → match_segment name tli o (take_hex 8 (rest_of o)) ≡ some m
    → IsInRange m
unfolding match_segment
match_segment-IsInRange name tli s none m h e k = cc
match_segment-IsInRange name tli s (some (log, r)) m h e k = second (take_hex 8 r) refl k
  where
    second :
        (o : Option (Text × Text))
        → take_hex 8 r ≡ o
        → match_segment name tli (some (log, r)) o ≡ some m
        → IsInRange m
    second none p q = cc
    second (some (seg, suffix)) p q = elim (Bool-cases (is_segment_suffix suffix)) [
      | inl y ↦
          let groups : some (record { group0 = name; tli = tli; segment = some (log, seg) })
              ≡ some m =
            (rw y at q) in
          record {
            tli = ground arith;
            segment = λ log' seg' z. (
              ground (arith, group-lt s log r e, group-lt r seg suffix p),
              ground (arith, group-lt s log r e, group-lt r seg suffix p),
            );
          }
      | inr y ↦ let none_some : none ≡ some m = (rw y at q) in cc none_some
    ]

match_tli-IsInRange :
    (name s : Text) (o : Option (Text × Text)) (m : XlogMatch)
    → take_hex 8 s ≡ o
    → match_tli name o ≡ some m
    → IsInRange m
unfolding match_tli
match_tli-IsInRange name s none m e h = cc
match_tli-IsInRange name s (some (tli, rest)) m e h =
    elim (Bool-cases (text_eq rest (text ".history"))) [
      | inl y ↦
          let alone : some (record { group0 = name; tli = tli; segment = none }) ≡ some m =
            (rw y at h) in
          record { tli = ground (arith, group-lt s tli rest e); segment = λ log seg z. cc alone }
      | inr y ↦
          match_segment-IsInRange name tli rest (take_hex 8 rest) m (group-lt s tli rest e) refl
            (rw y at h)
    ]

-- A number that is there is below 2^32.
abbrev pub Below32 : Option ℕ → Type 0
Below32 none = Unit {0}
Below32 (some n) = n < 2 ^ 32

-- What `decode_segment_name` reads: a 32-bit timeline, and a 32-bit log and segment, of which
-- either both are there or neither.
pub record IsSegment (s : Segment) : Type 0 where
  pub tli : s.0 < 2 ^ 32
  pub log : Below32 s.1
  pub seg : Below32 s.2
  pub both : (s.1 ≡ none) ↔ (s.2 ≡ none)

numbers-IsSegment : (m : XlogMatch) → IsInRange m → IsSegment (numbers m)
numbers-IsSegment m h = by_segment m.segment refl
  where
    by_segment : (o : Option (Text × Text)) → m.segment ≡ o → IsSegment (numbers m)
    by_segment none e =
        unfold numbers in
        rw (e, numbers) (record { tli = h.tli; log = tt; seg = tt; both = (λ p. refl, λ p. refl) })
    by_segment (some (log, seg)) e =
        let (l, s) = h.segment log seg e in
        unfold numbers in
        rw (e, numbers) (record { tli = h.tli; log = l; seg = s; both = (λ p. cc p, λ p. cc p) })

-- Whatever path is decoded, the numbers are 32-bit, and the log and the segment come together.
pub decode-IsSegment : (path : Text) (s : Segment) → decode_segment_name path ≡ ok s → IsSegment s
unfolding decode_segment_name
decode-IsSegment path s h = by_match (xlog_match (basename path)) refl h
  where
    by_match :
        (o : Option XlogMatch)
        → xlog_match (basename path) ≡ o
        → decode_match (basename path) o ≡ ok s
        → IsSegment s
    by_match none e k = unfold decode_match in cc k
    by_match (some m) e k =
        let same : numbers m ≡ s = unfold decode_match in cc k in
        let range : IsInRange m =
          match_tli-IsInRange (chop_newline (basename path)) (chop_newline (basename path)) _ m refl
            (unfold xlog_match in e) in
        rw same at (numbers-IsSegment m range)
