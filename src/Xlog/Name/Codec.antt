-- ===== src/Xlog/Name/Codec.antt =====
-- The codec of segment names (xlog.py): reading back what is written, the ranges of what is read,
-- and the order of names as texts.
use barman.Prelude.{
  ℕ, ◌^◌, ◌<◌, ◌≡◌, sym, ◌∙◌, Bool, true, ◌&&◌, ◌||◌, some, [], ◌++◌, ◌==◌, leb, ltb, arith,
}
use mathlib.Core.List.{append-nil}
use barman.Text.{text_le}
use barman.Text.Order.{text_lt-not_le}
use barman.Text.Hex.{all_hex, hex8}
use barman.Text.Hex.Laws.{
  all_hex-append, all_hex-hex8, length-hex8, hex_number-hex8, text_le-append, text_le-hex8,
  text_eq-hex8,
}
use barman.Result.{ok, ◌>>=◌}
use barman.Xlog.Name.{take_hex, decode_segment_name, encode_segment_name, hash_dir, decode_hash_dir}
use barman.Xlog.Name.Match.{
  xlog_match-encode, basename-all_hex, all_hex-encode, take_hex8, chop_newline-all_hex,
}

module _ (tli log seg : ℕ) (h : tli < 2 ^ 32) (k : log < 2 ^ 32) (l : seg < 2 ^ 32) where
  -- Decoding the name of a segment with 32-bit numbers gives the three numbers back.
  pub decode-encode :
      decode_segment_name (encode_segment_name tli log seg) ≡ ok (tli, some log, some seg)
  unfolding decode_segment_name
  decode-encode = rw (
    basename-all_hex _ (all_hex-encode tli log seg h k l),
    xlog_match-encode tli log seg h k l,
    hex_number-hex8 tli h,
    hex_number-hex8 log k,
    hex_number-hex8 seg l,
  )

  -- The directory of a segment is named for its timeline and log, and reads back to them.
  pub hash_dir-encode :
      (hash_dir (encode_segment_name tli log seg) >>= decode_hash_dir) ≡ ok (tli, log)
  unfolding hash_dir decode_hash_dir
  hash_dir-encode = rw (
    decode-encode,
    chop_newline-all_hex (hex8 tli ++ hex8 log) hex,
    take_hex8 tli (hex8 log) h,
    last_group,
    hex_number-hex8 tli h,
    hex_number-hex8 log k,
  )
    where
      hex : all_hex (hex8 tli ++ hex8 log) ≡ true
      hex = rw (all_hex-append, all_hex-hex8 tli h) (all_hex-hex8 log k)

      last_group : take_hex 8 (hex8 log) ≡ some (hex8 log, [])
      last_group = rw append-nil at (take_hex8 log [] k)

-- Segments in the order of their numbers
unfoldable pub segment_le : ℕ × ℕ × ℕ → ℕ × ℕ × ℕ → Bool
segment_le (t, l, s) (t', l', s') = ltb t t' || ((t == t') && (ltb l l' || ((l == l') && leb s s')))

-- Segment names compare as texts exactly as their timeline, log and segment numbers compare.
pub text_le-encode :
    (t l s t' l' s' : ℕ)
    → t < 2 ^ 32
    → l < 2 ^ 32
    → s < 2 ^ 32
    → t' < 2 ^ 32
    → l' < 2 ^ 32
    → s' < 2 ^ 32
    → text_le (encode_segment_name t l s) (encode_segment_name t' l' s')
      ≡ segment_le (t, l, s) (t', l', s')
unfolding encode_segment_name segment_le
text_le-encode t l s t' l' s' h k m h' k' m' =
    rw
      (
        text_le-append (hex8 t) (hex8 t') (hex8 l ++ hex8 s) (hex8 l' ++ hex8 s')
            (length-hex8 t h ∙ sym (length-hex8 t' h')),
        text_le-append (hex8 l) (hex8 l') (hex8 s) (hex8 s')
            (length-hex8 l k ∙ sym (length-hex8 l' k')),
        text_lt-not_le (hex8 t) (hex8 t'),
        text_lt-not_le (hex8 l) (hex8 l'),
        text_le-hex8 t' t h' h,
        text_le-hex8 l' l k' k,
        text_le-hex8 s s' m m',
        text_eq-hex8 t t' h h',
        text_eq-hex8 l l' k k',
      )
      (ground arith)
