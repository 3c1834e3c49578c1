-- ===== src/Xlog/Segments.antt =====
-- The sequence of WAL segments (xlog.py: `xlog_segments_per_file`, `xlog_segment_mask` and
-- `generate_segment_names`).
--
-- A generator is its state and the function that gives its first `n` names. A size is positive: at
-- size 0 the source's division raises, and `generate_segment_names` takes 0 for "unknown".
pub mod Sequence
pub mod Generate
use barman.Prelude.{
  ℕ, zero, suc, ◌+◌, ◌-◌, ◌*◌, ◌/◌, Bool, true, false, ◌&&◌, ◌||◌, Option, none, some, List, [],
  ◌∷◌, ◌==◌, leb, ltb, if◌then◌else◌,
}
use barman.Text.{Text}
use barman.Result.{Result, ok, err, type_error, assertion_error, ◌>>=◌, ◌>>◌, require}
use barman.Xlog.Name.{Segment, decode_segment_name, encode_segment_name}

unfoldable pub xlog_segments_per_file : ℕ → ℕ
xlog_segments_per_file xlog_segment_size = 0xFFFFFFFF / xlog_segment_size

unfoldable pub xlog_segment_mask : ℕ → ℕ
unfolding xlog_segments_per_file
xlog_segment_mask xlog_segment_size = xlog_segment_size * xlog_segments_per_file xlog_segment_size

-- The local variables of `generate_segment_names` that its loop uses.
pub record Generator : Type 0 where
  pub tli : ℕ
  pub cur_log : ℕ
  pub cur_seg : ℕ
  pub end : Option (ℕ × ℕ)
  pub xlog_seg_per_file : ℕ
  pub skip_last_segment : Bool

-- The test of the `while` loop
before_end : Option (ℕ × ℕ) → ℕ → ℕ → Bool
before_end none cur_log cur_seg = true
before_end (some (end_log, end_seg)) cur_log cur_seg =
    ltb cur_log end_log || ((cur_log == end_log) && leb cur_seg end_seg)

unfoldable pub in_range : Generator → Bool
unfolding before_end
in_range g = before_end g.end g.cur_log g.cur_seg

-- The assignments at the end of the loop
unfoldable pub advance : Generator → Generator
advance g =
    if ltb g.xlog_seg_per_file (g.cur_seg + 1)
      || (g.skip_last_segment && (g.cur_seg + 1 == g.xlog_seg_per_file))
    then record g { cur_log = g.cur_log + 1; cur_seg = 0 }
    else record g { cur_seg = g.cur_seg + 1 }

-- The first `n` names that the loop yields: fewer, if it ends before.
unfoldable pub yields : ℕ → Generator → List Text
unfolding in_range advance encode_segment_name
yields zero g = []
yields (suc n) g =
    let rest = encode_segment_name g.tli g.cur_log g.cur_seg ∷ yields n (advance g) in
    if in_range g then rest else []

-- `version is not None and version < 90300`
unfoldable pub skips_last : Option ℕ → Bool
skips_last none = false
skips_last (some v) = ltb v 90300

unfoldable pub segments_for : Option ℕ → ℕ
unfolding xlog_segments_per_file
segments_for none = 0x7FFFF
segments_for (some size) = if size == 0 then 0x7FFFF else xlog_segments_per_file size

-- The numbers of a segment; a history file has none, and the loop then fails on `None`.
segment_numbers : Segment → Result (ℕ × ℕ)
segment_numbers (tli, some log, some seg) = ok (log, seg)
segment_numbers _ = err type_error

-- `if end: …`, with the assertion on the timelines; an empty `end` fails in the loop.
decode_end : ℕ → Option Text → Result (Option (ℕ × ℕ))
unfolding decode_segment_name segment_numbers
decode_end begin_tli none = ok none
decode_end begin_tli (some []) = err type_error
decode_end begin_tli (some (c ∷ name)) = do
  end ← decode_segment_name (c ∷ name)
  require (begin_tli == end.0) assertion_error
  bounds ← segment_numbers end
  ok (some bounds)

-- `generate_segment_names` up to its loop
unfoldable pub start_generator : Text → Option Text → Option ℕ → Option ℕ → Result Generator
unfolding decode_segment_name segment_numbers decode_end skips_last segments_for
start_generator begin end version xlog_segment_size = do
  first ← decode_segment_name begin
  bounds ← decode_end first.0 end
  start ← segment_numbers first
  ok (record {
    tli = first.0;
    cur_log = start.0;
    cur_seg = start.1;
    end = bounds;
    xlog_seg_per_file = segments_for xlog_segment_size;
    skip_last_segment = skips_last version;
  })

-- The first `n` names of `generate_segment_names(begin, end, version, xlog_segment_size)`
unfoldable pub generate_segment_names :
    ℕ → Text → Option Text → Option ℕ → Option ℕ → Result (List Text)
unfolding start_generator yields
generate_segment_names n begin end version xlog_segment_size = do
  g ← start_generator begin end version xlog_segment_size
  ok (yields n g)
