-- ===== src/Dict/Laws.antt =====
-- The laws of dictionaries.
use barman.Prelude.{◌≡◌, refl, false, none, some, List, [], ◌∷◌, arith, All, if◌then◌else◌}
use barman.Text.{Text, text_eq}
use barman.Text.Order.{text_eq_iff}
use barman.Dict.{Dict, get, put, remove, keys}

-- No key stands twice.
abbrev pub IsDistinct : List Text → Type 0
IsDistinct [] = Unit
IsDistinct (k ∷ l) = All (λ j. text_eq k j ≡ false) l × IsDistinct l

module _ {ℓ} {V : Type ℓ} where
  pub get-put :
      (d : Dict V) (k j : Text) (v : V)
      → get (put d k v) j ≡ (if text_eq k j then some v else get d j)
  unfolding get put
  get-put [] k j v = refl
  get-put ((i, w) ∷ d) k j v =
      ground (arith, text_eq_iff i k, text_eq_iff i j, text_eq_iff k j, get-put d k j v)

  pub get_absent :
      (d : Dict V) (k : Text) → All (λ j. text_eq k j ≡ false) (keys d) → get d k ≡ none
  unfolding get
  get_absent [] k h = refl
  get_absent ((j, v) ∷ d) k h = ground (arith, text_eq_iff j k, text_eq_iff k j, get_absent d k h.1)

  pub get-remove :
      (d : Dict V) (k j : Text)
      → IsDistinct (keys d)
      → get (remove d k) j ≡ (if text_eq k j then none else get d j)
  unfolding get remove
  get-remove [] k j h = ground arith
  get-remove ((i, w) ∷ d) k j h = ground (
    arith,
    text_eq_iff i k,
    text_eq_iff i j,
    text_eq_iff k j,
    get-remove d k j h.1,
    get_absent d i h.0,
  )
