-- ===== src/Catalog/Removal/Line/RoundTrip.antt =====
-- A line of the xlogdb that is read again.
use barman.Prelude.{
  ℕ, ◌≤◌, ◌≡◌, refl, ap, ◌∙◌, true, false, Option, none, some, List, [], ◌∷◌, ◌++◌, length, arith,
}
use barman.Text.{Text, text, text_eq}
use barman.Text.Number.{is_space}
use barman.Text.Number.Decimal.{decimal, is_solid, is_solid-decimal, int_of-plain_decimal}
use barman.Result.{ok}
use barman.Catalog.Removal.{WalFileInfo}
use barman.Catalog.Removal.Line.{
  Times, words, begins_word, extend, to_xlogdb_line, from_xlogdb_line, from_fields,
  compression_text, compression_of,
}

-- A text that is not empty and has no white space
abbrev pub IsWord : Text → Type 0
IsWord t = (is_solid t ≡ true) × (1 ≤ length t)

words_cons :
    (d : ℕ) (t : Text)
    → is_space d ≡ false
    → begins_word t ≡ true
    → words (d ∷ t) ≡ extend d (words t)
unfolding words
words_cons d t solid begins = rw (solid, begins) refl

last_letter :
    (d c : ℕ) (s : Text)
    → is_space d ≡ false
    → is_space c ≡ true
    → words (d ∷ c ∷ s) ≡ (d ∷ []) ∷ words s
unfolding words
last_letter d c s solid space = rw (solid, space) refl

words-word : (w s : Text) (c : ℕ) → IsWord w → is_space c ≡ true → words (w ++ c ∷ s) ≡ w ∷ words s
unfolding is_solid
words-word [] s c (h, k) space = absurd (omega arith)
words-word (d ∷ []) s c (h, k) space = last_letter d c s (ground arith) space
words-word (d ∷ e ∷ w) s c (h, k) space =
    let next : begins_word (e ∷ (w ++ c ∷ s)) ≡ true = ground arith in
    let tail : is_solid (e ∷ w) ≡ true = ground arith in
    words_cons d (e ∷ (w ++ c ∷ s)) (ground arith) next
    ∙ ap (extend d) (words-word (e ∷ w) s c (tail, omega arith) space)

-- A compression whose name is not that of `None`
abbrev pub IsName : Option Text → Type 0
IsName none = Unit
IsName (some name) = IsWord name × (text_eq name (text "None") ≡ false)

compression_text-IsWord : (o : Option Text) → IsName o → IsWord (compression_text o)
compression_text-IsWord none h = unfold is_solid is_space in (refl, omega arith)
compression_text-IsWord (some name) h = h.0

compression_of-text : (o : Option Text) → IsName o → compression_of (compression_text o) ≡ o
compression_of-text none h = unfold text_eq in refl
compression_of-text (some name) h = rw h.1 refl

-- The row of a file is read back from its line, if the name and the compression are words, the
-- compression is not the text `None`, and the time is printed as a word that reads back to it.
pub from_xlogdb_line-to_xlogdb_line :
    (times : Times) (w : WalFileInfo)
    → IsWord w.name
    → IsName w.compression
    → IsWord (times.show_time w.time)
    → times.float_of (times.show_time w.time) ≡ some w.time
    → from_xlogdb_line times (to_xlogdb_line times w) ≡ ok w
unfolding from_xlogdb_line to_xlogdb_line from_fields
from_xlogdb_line-to_xlogdb_line times w name compression time read =
    let tab : is_space 9 ≡ true = unfold is_space in refl in
    let newline : is_space 10 ≡ true = unfold is_space in refl in
    let size : Text = decimal w.size in
    let shown : Text = times.show_time w.time in
    let method : Text = compression_text w.compression in
    let split : words (to_xlogdb_line times w) ≡ w.name ∷ size ∷ shown ∷ method ∷ [] =
      words-word w.name (size ++ 9 ∷ (shown ++ 9 ∷ (method ++ 10 ∷ []))) 9 name tab
      ∙ ap (λ (l : List Text). w.name ∷ l)
          (words-word size (shown ++ 9 ∷ (method ++ 10 ∷ [])) 9 (is_solid-decimal w.size) tab
            ∙ ap (λ (l : List Text). size ∷ l)
                (words-word shown (method ++ 10 ∷ []) 9 time tab
                  ∙ ap (λ (l : List Text). shown ∷ l)
                      (words-word method [] 10 (compression_text-IsWord w.compression compression)
                          newline
                        ∙ no_more method))) in
    rw (split, int_of-plain_decimal w.size, read, compression_of-text w.compression compression)
      refl
  where
    no_more : (t : Text) → t ∷ words [] ≡ t ∷ []
    no_more t = unfold words in refl
