-- ===== src/Xlog/History/Readable.antt =====
-- Which history files can be read.
use barman.Prelude.{
  ℕ, ◌≡◌, refl, ◌↔◌, true, false, List, [], ◌∷◌, arith, All, Any, Bool-cases, inl, inr,
}
use barman.Prelude.Int.{ℤ}
use barman.Text.{Text, split_on}
use barman.Text.Number.{strip}
use barman.Result.{ok, ◌>>=◌, >>=-eq-ok}
use barman.Xlog.Name.{Segment, decode_segment_name}
use barman.Xlog.Lsn.{int_or_raise, parse_lsn}
use barman.Xlog.History.{
  HistoryFileData, is_skipped, history_line, history_lines, unless_none, decode_history_file,
}

-- Three fields, of which the first is a number and the second an LSN
abbrev pub IsReadable : Text → Type 0
IsReadable line =
    (parent switchpoint reason : Text) × (tli lsn : ℤ) × (split_on b'\t' (strip line)
      ≡ parent ∷ switchpoint ∷ reason ∷ [])
    × (int_or_raise 10 parent ≡ ok tli)
    × (parse_lsn switchpoint ≡ ok lsn)

-- The line has content.
abbrev pub HasContent : Text → Type 0
HasContent line = is_skipped (strip line) ≡ false

read-IsReadable :
    (path : Text) (tli : ℕ) (fields : List Text) (h : HistoryFileData)
    → history_line path tli fields ≡ ok h
    → (parent switchpoint reason : Text) × (n lsn : ℤ) × (fields
        ≡ parent ∷ switchpoint ∷ reason ∷ [])
      × (int_or_raise 10 parent ≡ ok n)
      × (parse_lsn switchpoint ≡ ok lsn)
unfolding history_line
read-IsReadable path tli [] h e = cc
read-IsReadable path tli (a ∷ []) h e = cc
read-IsReadable path tli (a ∷ b ∷ []) h e = cc
read-IsReadable path tli (a ∷ b ∷ c ∷ []) h e =
    let (n, first, rest) = >>=-eq-ok (int_or_raise 10 a) _ e in
    let (lsn, second, last) = >>=-eq-ok (parse_lsn b) _ rest in
    (a, b, c, n, lsn, refl, first, second)
read-IsReadable path tli (a ∷ b ∷ c ∷ d ∷ l) h e = cc

readable_lines :
    (path : Text) (tli : ℕ) (lines : List Text)
    → All (λ line. HasContent line → IsReadable line) lines
    → (l : List HistoryFileData) × (history_lines path tli lines ≡ ok l)
unfolding history_lines history_line
readable_lines path tli [] h = ([], refl)
readable_lines path tli (line ∷ lines) h =
    let (l, e) = readable_lines path tli lines h.1 in
    elim (Bool-cases (is_skipped (strip line))) [
      | inl s ↦ (l, rw (s, e) refl)
      | inr c ↦
          let (a, b, r, n, lsn, fields, first, second) = h.0 c in
          (
            record { tli = tli; parent_tli = n; switchpoint = lsn; reason = r } ∷ l,
            rw (c, fields, first, second, e) refl,
          )
    ]

-- Nothing is read exactly where no line has content.
abbrev Fits : List HistoryFileData → List Text → Type 0
Fits [] lines = Any HasContent lines → ⊥
Fits (h ∷ l) lines = Any HasContent lines

Fits-skipped :
    (line : Text) (lines : List Text) (l : List HistoryFileData)
    → is_skipped (strip line) ≡ true
    → Fits l lines
    → Fits l (line ∷ lines)
Fits-skipped line lines [] s f = λ a. elim a [ inl c ↦ ground arith | inr b ↦ f b ]
Fits-skipped line lines (h ∷ l) s f = inr f

lines-IsReadable :
    (path : Text) (tli : ℕ) (lines : List Text) (l : List HistoryFileData)
    → history_lines path tli lines ≡ ok l
    → Fits l lines × All (λ line. HasContent line → IsReadable line) lines
unfolding history_lines
lines-IsReadable path tli [] l e = let nil : l ≡ [] = cc in rw nil (λ a. a, tt)
lines-IsReadable path tli (line ∷ lines) l e = elim (Bool-cases (is_skipped (strip line))) [
  | inl s ↦
      let (f, r) = lines-IsReadable path tli lines l (rw s at e) in
      (Fits-skipped line lines l s f, (λ c. ground arith, r))
  | inr c ↦
      let (h, here, next) =
        >>=-eq-ok (history_line path tli (split_on b'\t' (strip line))) _ (rw c at e) in
      let (l', rest, last) = >>=-eq-ok (history_lines path tli lines) _ next in
      let (f, r) = lines-IsReadable path tli lines l' rest in
      let whole : l ≡ h ∷ l' = cc in
      (rw whole (inl c), (λ c'. read-IsReadable path tli (split_on b'\t' (strip line)) h here, r))
]

content_of :
    (path : Text) (fp : List Text) (lines l : List HistoryFileData)
    → unless_none path lines ≡ ok l
    → Fits lines fp
    → Any HasContent fp
content_of path fp [] l e f = cc
content_of path fp (h ∷ lines) l e f = f

unless_none-content :
    (path : Text) (fp : List Text) (lines : List HistoryFileData)
    → Fits lines fp
    → Any HasContent fp
    → unless_none path lines ≡ ok lines
unless_none-content path fp [] f a = absurd (f a)
unless_none-content path fp (h ∷ lines) f a = refl

-- For a file name that can be decoded, a history file can be read exactly if it has a line that
-- is neither empty nor a comment, and each such line has three fields, of which the first is a
-- decimal number and the second an LSN.
pub decode_history_iff :
    (path name : Text) (fp : List Text) (s : Segment)
    → decode_segment_name name ≡ ok s
    → ((l : List HistoryFileData) × (decode_history_file path name fp ≡ ok l))
      ↔ (Any HasContent fp × All (λ line. HasContent line → IsReadable line) fp)
unfolding decode_history_file
decode_history_iff path name fp s e = (
  λ (l, p).
      let chain : (history_lines path s.0 fp >>= λ lines. unless_none path lines) ≡ ok l =
        rw e at p in
      let (lines, read, some_lines) = >>=-eq-ok (history_lines path s.0 fp) _ chain in
      let (f, r) = lines-IsReadable path s.0 fp lines read in
      (content_of path fp lines l some_lines f, r),
  λ (a, r).
      let (lines, read) = readable_lines path s.0 fp r in
      let (f, r') = lines-IsReadable path s.0 fp lines read in
      (lines, rw (e, read) (unless_none-content path fp lines f a)),
)
