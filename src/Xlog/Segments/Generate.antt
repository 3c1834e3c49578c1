-- ===== src/Xlog/Segments/Generate.antt =====
-- `generate_segment_names` from one segment to another.
use barman.Prelude.{
  ℕ, ◌+◌, ◌-◌, ◌*◌, ◌^◌, ◌≤◌, ◌<◌, min, ◌≡◌, refl, true, Option, some, [], ◌∷◌, ◌==◌, arith, length,
  length-append, if◌then◌else◌,
}
use barman.Text.{Text}
use barman.Text.Hex.Laws.{length-hex8}
use barman.Result.{ok, ◌>>=◌, ◌>>◌, require, assertion_error}
use barman.Xlog.Name.{encode_segment_name, decode_segment_name}
use barman.Xlog.Name.Codec.{decode-encode}
use barman.Xlog.Segments.{
  Generator, decode_end, segment_numbers, generate_segment_names, skips_last, segments_for,
}
use barman.Xlog.Segments.Sequence.{
  IsStarted, log_size, position, count_to, names_from, yields-eq-names_from,
}

-- The segments of one log, for a server version and a segment size
abbrev pub segments_of : Option ℕ → Option ℕ → ℕ
segments_of version size = if skips_last version then segments_for size else segments_for size + 1

decode_end-some :
    (tli : ℕ) (end : Text)
    → 1 ≤ length end
    → decode_end tli (some end) ≡ (do
      e ← decode_segment_name end
      require (tli == e.0) assertion_error
      bounds ← segment_numbers e
      ok (some bounds))
unfolding decode_end
decode_end-some tli [] h = absurd (omega arith)
decode_end-some tli (c ∷ end) h = refl

pub length-encode-pos : (t l s : ℕ) → t < 2 ^ 32 → 1 ≤ length (encode_segment_name t l s)
unfolding encode_segment_name
length-encode-pos t l s h = rw length-append (omega (arith, length-hex8 t h))

-- From one segment to another of the same timeline the generator gives every segment between
-- them, both included, in the order of their numbers, each once; asked for fewer, it gives the
-- first ones. This holds with and without the last segment of each log, and for each size.
pub generate-eq-names_from :
    (n t l s l' s' : ℕ) (version size : Option ℕ)
    → t < 2 ^ 32
    → l < 2 ^ 32
    → s < 2 ^ 32
    → l' < 2 ^ 32
    → s' < 2 ^ 32
    → s < segments_of version size
    → s' < segments_of version size
    → generate_segment_names n
        (encode_segment_name t l s)
        (some (encode_segment_name t l' s'))
        version
        size
      ≡ ok (
          names_from t
            (segments_of version size)
            (l * segments_of version size + s)
            (min n (l' * segments_of version size + s' + 1 - (l * segments_of version size + s))))
unfolding generate_segment_names
generate-eq-names_from n t l s l' s' version size ht hl hs hl' hs' in_log in_log' =
    rw
      (
        decode-encode t l s ht hl hs,
        decode_end-some t (encode_segment_name t l' s') (length-encode-pos t l' s' ht),
        decode-encode t l' s' ht hl' hs',
      )
      (rw same (unfold log_size position count_to in rw (yields-eq-names_from n g started)))
  where
    same : (t == t) ≡ true
    same = ground arith

    g : Generator
    g = record {
      tli = t;
      cur_log = l;
      cur_seg = s;
      end = some (l', s');
      xlog_seg_per_file = segments_for size;
      skip_last_segment = skips_last version;
    }

    started : IsStarted g
    started = unfold log_size in record { current = in_log; last = λ a b e. ground arith }
