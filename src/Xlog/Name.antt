-- ===== src/Xlog/Name.antt =====
-- The names of WAL files (xlog.py): the regular expressions, the tests on a path, and the codec
-- between a segment's numbers and its name.
--
-- A path is a text. `\d` is read over ASCII. `$` also matches before a final newline, as in Python.
pub mod Match
pub mod Codec
pub mod Kinds
pub mod Ranges
use barman.Prelude.{
  ℕ, zero, suc, ◌≡◌, Bool, true, false, ◌&&◌, ◌||◌, not, Option, none, some, List, [], ◌∷◌, ◌++◌,
  ◌==◌, if◌then◌else◌,
}
use barman.Text.{Text, text, text_eq, starts_with, split_on}
use barman.Text.Hex.{is_hex, hex_number, hex8}
use barman.Result.{Result, ok, err, bad_xlog_segment_name, bad_xlog_prefix, ◌>>=◌}

-- The last part of a path: `os.path.basename`.
last_part : Text → List Text → Text
last_part p [] = p
last_part p (q ∷ ps) = last_part q ps

unfoldable pub basename : Text → Text
unfolding last_part split_on
basename path = last_part [] (split_on b'/' path)

-- What `$` sees: the text less one final newline.
unfoldable pub chop_newline : Text → Text
chop_newline [] = []
chop_newline (c ∷ []) = if c == 10 then [] else c ∷ []
chop_newline (c ∷ d ∷ s) = c ∷ chop_newline (d ∷ s)

abbrev prepend : ℕ → Option (Text × Text) → Option (Text × Text)
prepend c none = none
prepend c (some (s, rest)) = some (c ∷ s, rest)

-- `([\dA-Fa-f]{n})`: the group, and the rest of the text.
unfoldable pub take_hex : ℕ → Text → Option (Text × Text)
unfolding is_hex
take_hex zero s = some ([], s)
take_hex (suc n) [] = none
take_hex (suc n) (c ∷ s) = if is_hex c then prepend c (take_hex n s) else none

-- `s.endswith(p)`, for the suffixes of WAL names
unfoldable pub ends_with : Text → Text → Bool
unfolding text_eq
ends_with [] p = text_eq [] p
ends_with (c ∷ s) p = text_eq (c ∷ s) p || ends_with s p

-- The match of `_xlog_re`: `match.group(0)` and `match.groups()`.
pub record XlogMatch : Type 0 where
  pub group0 : Text
  pub tli : Text
  pub segment : Option (Text × Text)

-- `\.[\dA-Fa-f]{8}\.backup`, behind its first dot
offset_backup : Option (Text × Text) → Bool
offset_backup none = false
offset_backup (some (offset, rest)) = text_eq rest (text ".backup")

-- What may follow the three groups: nothing, a dot with an offset and `.backup`, or `.partial`.
unfoldable pub is_segment_suffix : Text → Bool
unfolding text_eq take_hex offset_backup
is_segment_suffix [] = true
is_segment_suffix (c ∷ s) =
    (c == b'.') && (offset_backup (take_hex 8 s) || text_eq s (text "partial"))

-- The alternatives behind the timeline: two groups and a suffix, or `.history`.
match_segment : Text → Text → Option (Text × Text) → Option (Text × Text) → Option XlogMatch
match_segment name tli (some (log, r)) (some (seg, suffix)) =
    if is_segment_suffix suffix
    then some (record { group0 = name; tli = tli; segment = some (log, seg) })
    else none
match_segment name tli _ _ = none

abbrev rest_of : Option (Text × Text) → Text
rest_of none = []
rest_of (some (group, rest)) = rest

match_tli : Text → Option (Text × Text) → Option XlogMatch
unfolding match_segment text_eq take_hex is_segment_suffix
match_tli name none = none
match_tli name (some (tli, rest)) =
    if text_eq rest (text ".history")
    then some (record { group0 = name; tli = tli; segment = none })
    else match_segment name tli (take_hex 8 rest) (take_hex 8 (rest_of (take_hex 8 rest)))

-- `_xlog_re.match(name)`, which `search` does as well: the expression begins with `^`.
unfoldable pub xlog_match : Text → Option XlogMatch
unfolding match_tli take_hex chop_newline
xlog_match name = match_tli (chop_newline name) (take_hex 8 (chop_newline name))

abbrev is_matched : Option XlogMatch → Bool
is_matched none = false
is_matched (some m) = true

abbrev matched_ends_with : Text → Option XlogMatch → Bool
matched_ends_with suffix none = false
matched_ends_with suffix (some m) = ends_with m.group0 suffix

unfoldable pub is_any_xlog_file : Text → Bool
unfolding xlog_match basename
is_any_xlog_file path = is_matched (xlog_match (basename path))

unfoldable pub is_history_file : Text → Bool
unfolding xlog_match basename ends_with
is_history_file path = matched_ends_with (text ".history") (xlog_match (basename path))

unfoldable pub is_backup_file : Text → Bool
unfolding xlog_match basename ends_with
is_backup_file path = matched_ends_with (text ".backup") (xlog_match (basename path))

unfoldable pub is_partial_file : Text → Bool
unfolding xlog_match basename ends_with
is_partial_file path = matched_ends_with (text ".partial") (xlog_match (basename path))

-- A match that ends in none of the three suffixes.
is_plain : Option XlogMatch → Bool
is_plain none = false
is_plain (some m) =
    if ends_with m.group0 (text ".backup")
    then false
    else if ends_with m.group0 (text ".history")
    then false
    else if ends_with m.group0 (text ".partial")
    then false
    else true

unfoldable pub is_wal_file : Text → Bool
unfolding xlog_match basename is_plain ends_with
is_wal_file path = is_plain (xlog_match (basename path))

-- `[int(x, 16) if x else None for x in match.groups()]`: timeline, log and segment
abbrev pub Segment : Type 0
Segment = ℕ × Option ℕ × Option ℕ

numbers : XlogMatch → Segment
numbers m = elim m.segment [
  | none ↦ (hex_number m.tli, none, none)
  | some (log, seg) ↦ (hex_number m.tli, some (hex_number log), some (hex_number seg))
]

decode_match : Text → Option XlogMatch → Result Segment
unfolding numbers hex_number
decode_match name none = err (bad_xlog_segment_name name)
decode_match name (some m) = ok (numbers m)

unfoldable pub decode_segment_name : Text → Result Segment
unfolding decode_match xlog_match basename
decode_segment_name path = decode_match (basename path) (xlog_match (basename path))

-- `"%08X%08X%08X" % (tli, log, seg)`
unfoldable pub encode_segment_name : ℕ → ℕ → ℕ → Text
unfolding hex8
encode_segment_name tli log seg = hex8 tli ++ (hex8 log ++ hex8 seg)

unfoldable pub encode_history_file_name : ℕ → Text
unfolding hex8
encode_history_file_name tli = hex8 tli ++ text ".history"

-- The directory of a segment, `""` for a history file
pub hash_prefix : Segment → Text
hash_prefix (tli, log, seg) = elim log [ none ↦ [] | some l ↦ hex8 tli ++ hex8 l ]

unfoldable pub hash_dir : Text → Result Text
unfolding hash_prefix decode_segment_name hex8
hash_dir path = do s ← decode_segment_name path; ok (hash_prefix s)

-- `_xlog_prefix_re`: two groups of eight digits
match_prefix : Text → Option (Text × Text) → Option (Text × Text) → Result (ℕ × ℕ)
match_prefix prefix (some (tli, r)) (some (log, [])) = ok (hex_number tli, hex_number log)
match_prefix prefix _ _ = err (bad_xlog_prefix prefix)

unfoldable pub decode_hash_dir : Text → Result (ℕ × ℕ)
unfolding match_prefix take_hex chop_newline hex_number
decode_hash_dir prefix =
    let tli = take_hex 8 (chop_newline prefix) in match_prefix prefix tli (take_hex 8 (rest_of tli))
