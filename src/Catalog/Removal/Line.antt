-- ===== src/Catalog/Removal/Line.antt =====
-- The lines of the xlogdb (infofile.py: `WalFileInfo.to_xlogdb_line`, `from_xlogdb_line`).
--
-- How a time, a float in the source, is printed and read is a parameter.
pub mod RoundTrip
use barman.Prelude.{
  ℕ, Bool, true, false, not, Option, none, some, List, [], ◌∷◌, ◌++◌, if◌then◌else◌,
}
use barman.Prelude.Int.{ℤ, pos, negsuc}
use barman.Text.{Text, text, text_eq}
use barman.Text.Number.{is_space, int_of}
use barman.Text.Number.Decimal.{decimal}
use barman.Result.{Result, ok, err, value_error, ◌>>=◌}
use barman.Catalog.Removal.{WalFileInfo}

-- `s.split()`: the words of a text
abbrev pub begins_word : Text → Bool
begins_word [] = false
begins_word (c ∷ s) = not (is_space c)

abbrev pub extend : ℕ → List Text → List Text
extend c [] = (c ∷ []) ∷ []
extend c (w ∷ ws) = (c ∷ w) ∷ ws

unfoldable pub words : Text → List Text
words [] = []
words (c ∷ s) =
    let rest = words s in
    if is_space c then rest else if begins_word s then extend c rest else (c ∷ []) ∷ rest

-- `str` and `float` of a time
pub record Times : Type 0 where
  pub show_time : ℕ → Text
  pub float_of : Text → Option ℕ

abbrev pub compression_text : Option Text → Text
compression_text none = text "None"
compression_text (some name) = name

unfoldable pub to_xlogdb_line : Times → WalFileInfo → Text
to_xlogdb_line times w =
    w.name
    ++ (text "\t"
        ++ (decimal w.size
            ++ (text "\t"
                ++ (times.show_time w.time
                    ++ (text "\t" ++ (compression_text w.compression ++ text "\n"))))))

-- `if compression == "None": compression = None`
abbrev pub compression_of : Text → Option Text
compression_of t = if text_eq t (text "None") then none else some t

-- `int(size)`, of which no file has a negative one
abbrev pub size_of : Option ℤ → Result ℕ
size_of (some (pos n)) = ok n
size_of _ = err value_error

abbrev pub time_of : Option ℕ → Result ℕ
time_of none = err value_error
time_of (some t) = ok t

unfoldable pub from_fields : Times → Text → Text → Text → Option Text → Result WalFileInfo
from_fields times name size time compression = do
  bytes ← size_of (int_of 10 size)
  seconds ← time_of (times.float_of time)
  ok (record { name = name; size = bytes; time = seconds; compression = compression })

-- A line with three fields has no compression.
abbrev pub from_words : Times → List Text → Result WalFileInfo
from_words times (name ∷ size ∷ time ∷ compression ∷ []) =
    from_fields times name size time (compression_of compression)
from_words times (name ∷ size ∷ time ∷ []) = from_fields times name size time none
from_words times _ = err value_error

unfoldable pub from_xlogdb_line : Times → Text → Result WalFileInfo
from_xlogdb_line times line = from_words times (words line)
