-- ===== src/Xlog/Segments/Sequence.antt =====
-- The segments that a generator yields, with the segments of all logs numbered in one row.
use native.Mathlib.Decide.{dec_lt}
use native.Mathlib.Nat.{div-eq_of_lt-le, div-add-mod}
use barman.Prelude.{
  ℕ, zero, suc, ◌+◌, ◌-◌, ◌*◌, ◌/◌, ◌%◌, ◌≤◌, ◌<◌, min, ◌≡◌, refl, ap, true, false, Option, none,
  some, List, [], ◌∷◌, arith, Bool-cases, inl, inr, if◌then◌else◌,
}
use barman.Text.{Text}
use barman.Xlog.Name.{encode_segment_name}
use barman.Xlog.Segments.{Generator, before_end, in_range, advance, yields}

-- How many segments a log has.
unfoldable pub log_size : Generator → ℕ
log_size g = if g.skip_last_segment then g.xlog_seg_per_file else g.xlog_seg_per_file + 1

-- The number of the current segment, in a row of all segments
unfoldable pub position : Generator → ℕ
unfolding log_size
position g = g.cur_log * log_size g + g.cur_seg

-- The current segment is one of its log's, and so is the last one.
pub record IsStarted (g : Generator) : Type 0 where
  pub current : g.cur_seg < log_size g
  pub last : (log seg : ℕ) → g.end ≡ some (log, seg) → seg < log_size g

-- The name of the segment at a number of the row
unfoldable pub name_at : ℕ → ℕ → ℕ → Text
name_at tli size i = encode_segment_name tli (i / size) (i % size)

unfoldable pub names_from : ℕ → ℕ → ℕ → ℕ → List Text
unfolding name_at
names_from tli size i zero = []
names_from tli size i (suc n) = name_at tli size i ∷ names_from tli size (i + 1) n

-- How many of the first `n` segments, from number `i` on, come before the end.
unfoldable pub count_to : Option (ℕ × ℕ) → ℕ → ℕ → ℕ → ℕ
count_to none size i n = n
count_to (some (log, seg)) size i n = min n (log * size + seg + 1 - i)

abbrev pub yield_count : ℕ → Generator → ℕ
yield_count n g = count_to g.end (log_size g) (position g) n

abbrev EndsIn : Option (ℕ × ℕ) → ℕ → Type 0
EndsIn o size = (log seg : ℕ) → o ≡ some (log, seg) → seg < size

row_lt : (a b r size : ℕ) → a < b → r < size → a * size + r < b * size
row_lt a b r size h k = grind arith

count_to_goes_on :
    (o : Option (ℕ × ℕ)) (size log seg n : ℕ)
    → seg < size
    → before_end o log seg ≡ true
    → count_to o size (log * size + seg) (suc n) ≡ suc (count_to o size (log * size + seg + 1) n)
unfolding before_end count_to
count_to_goes_on none size log seg n h e = refl
count_to_goes_on (some (l, s)) size log seg n h e = elim (dec_lt log l) [
  | yes lt ↦ omega (arith, row_lt log l seg size lt h)
  | no ge ↦
      let same : log ≡ l = ground arith in
      let before : seg ≤ s = ground arith in rw same (omega arith)
]

count_to_ends :
    (o : Option (ℕ × ℕ)) (size log seg n : ℕ)
    → seg < size
    → EndsIn o size
    → before_end o log seg ≡ false
    → count_to o size (log * size + seg) n ≡ 0
unfolding before_end count_to
count_to_ends none size log seg n h k e = cc
count_to_ends (some (l, s)) size log seg n h k e = elim (dec_lt l log) [
  | yes lt ↦ omega (arith, row_lt l log s size lt (k l s refl))
  | no ge ↦
      let same : log ≡ l = ground arith in
      let before : s < seg = ground arith in rw same (omega arith)
]

name_at-pair :
    (tli size log seg : ℕ)
    → seg < size
    → name_at tli size (log * size + seg) ≡ encode_segment_name tli log seg
unfolding name_at
name_at-pair tli size log seg h =
    let quotient : (log * size + seg) / size ≡ log =
      div-eq_of_lt-le size (omega arith) (grind arith) in
    let rest : (log * size + seg) % size ≡ seg =
      omega (arith, div-add-mod (log * size + seg) size, ap (λ q. size * q) quotient) in
    rw (quotient, rest)

-- The generator with another current segment
abbrev at_segment : Generator → ℕ → ℕ → Generator
at_segment g log seg = record g { cur_log = log; cur_seg = seg }

position-at_segment :
    (g : Generator) (log seg : ℕ) → position (at_segment g log seg) ≡ log * log_size g + seg
unfolding position log_size
position-at_segment g log seg = refl

advance_within :
    (g : Generator)
    → g.cur_seg + 1 < log_size g
    → advance g ≡ at_segment g g.cur_log (g.cur_seg + 1)
unfolding advance log_size
advance_within g h = ground arith

advance_wraps :
    (g : Generator) → g.cur_seg + 1 ≡ log_size g → advance g ≡ at_segment g (g.cur_log + 1) 0
unfolding advance log_size
advance_wraps g h = ground arith

at_segment-IsStarted :
    (g : Generator) (log seg : ℕ)
    → seg < log_size g
    → ((l s : ℕ) → g.end ≡ some (l, s) → s < log_size g)
    → IsStarted (at_segment g log seg)
at_segment-IsStarted g log seg h k = unfold log_size in record { current = h; last = k }

-- One step of the loop moves to the next number of the row.
pub position-advance : (g : Generator) → IsStarted g → position (advance g) ≡ position g + 1
position-advance g s = elim (dec_lt (g.cur_seg + 1) (log_size g)) [
  | yes within ↦ rw (advance_within g within, position-at_segment) (unfold position in omega arith)
  | no wraps ↦
      let e : g.cur_seg + 1 ≡ log_size g = omega (arith, s.current) in
      rw (advance_wraps g e, position-at_segment) (unfold position in grind arith)
]

advance-IsStarted : (g : Generator) → IsStarted g → IsStarted (advance g)
advance-IsStarted g s = elim (dec_lt (g.cur_seg + 1) (log_size g)) [
  | yes within ↦
      rw (advance_within g within) (at_segment-IsStarted g g.cur_log (g.cur_seg + 1) within s.last)
  | no wraps ↦
      rw (advance_wraps g (omega (arith, s.current)))
        (at_segment-IsStarted g (g.cur_log + 1) 0 (omega (arith, s.current)) s.last)
]

log_size-advance : (g : Generator) → log_size (advance g) ≡ log_size g
unfolding advance log_size
log_size-advance g = ground arith

end-advance : (g : Generator) → (advance g).end ≡ g.end
unfolding advance
end-advance g = ground arith

tli-advance : (g : Generator) → (advance g).tli ≡ g.tli
unfolding advance
tli-advance g = ground arith

count_to_zero : (o : Option (ℕ × ℕ)) (size i : ℕ) → count_to o size i 0 ≡ 0
unfolding count_to
count_to_zero none size i = refl
count_to_zero (some (log, seg)) size i = omega arith

yields_step :
    (n : ℕ) (g : Generator)
    → in_range g ≡ true
    → yields (suc n) g ≡ encode_segment_name g.tli g.cur_log g.cur_seg ∷ yields n (advance g)
unfolding yields
yields_step n g e = rw e

yields_end : (n : ℕ) (g : Generator) → in_range g ≡ false → yields (suc n) g ≡ []
unfolding yields
yields_end n g e = rw e

module _ (n : ℕ) (g : Generator) (s : IsStarted g) where
  yield_count_goes_on :
      in_range g ≡ true
      → yield_count (suc n) g ≡ suc (count_to g.end (log_size g) (position g + 1) n)
  unfolding in_range position
  yield_count_goes_on e = count_to_goes_on g.end (log_size g) g.cur_log g.cur_seg n s.current e

  yield_count_ends : in_range g ≡ false → yield_count (suc n) g ≡ 0
  unfolding in_range position
  yield_count_ends e =
      count_to_ends g.end (log_size g) g.cur_log g.cur_seg (suc n) s.current s.last e

  name_at-position :
      name_at g.tli (log_size g) (position g) ≡ encode_segment_name g.tli g.cur_log g.cur_seg
  unfolding position
  name_at-position = name_at-pair g.tli (log_size g) g.cur_log g.cur_seg s.current

-- From a started generator, the first `n` names that `generate_segment_names` yields are those of
-- consecutive numbers in the row of all segments, from the current one on: `n` of them, or up to
-- the end where that comes first.
pub yields-eq-names_from :
    (n : ℕ) (g : Generator)
    → IsStarted g
    → yields n g ≡ names_from g.tli (log_size g) (position g) (yield_count n g)
unfolding yields names_from
yields-eq-names_from zero g s =
    rw (count_to_zero g.end (log_size g) (position g)) (unfold yields names_from in refl)
yields-eq-names_from (suc n) g s = elim (Bool-cases (in_range g)) [
  | inl e ↦
      let rest = yields-eq-names_from n (advance g) (advance-IsStarted g s) in
      rw (yields_step n g e, yield_count_goes_on n g s e)
        (cons_name
          (rw (tli-advance g, log_size-advance g, end-advance g, position-advance g s) at rest))
  | inr e ↦ rw (yields_end n g e, yield_count_ends n g s e) nothing
]
  where
    nothing : [] ≡ names_from g.tli (log_size g) (position g) 0
    nothing = unfold names_from in refl

    cons_name :
        {l : List Text}
        → l
          ≡ names_from g.tli
              (log_size g)
              (position g + 1)
              (count_to g.end (log_size g) (position g + 1) n)
        → encode_segment_name g.tli g.cur_log g.cur_seg ∷ l
          ≡ names_from g.tli
              (log_size g)
              (position g)
              (suc (count_to g.end (log_size g) (position g + 1) n))
    cons_name p = unfold names_from in cc (p, name_at-position n g s)
