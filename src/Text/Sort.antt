-- ===== src/Text/Sort.antt =====
-- Python's `sorted`, with a key and with `reverse=True`: a stable sort by insertion.
use mathlib.Core.List.{Perm}
use mathlib.Core.List.Perm
use barman.Prelude.{
  ◌≡◌, ◌++◌, refl, ◌⊎◌, inl, inr, Bool, true, false, List, [], ◌∷◌, arith, All, Bool-cases,
  if◌then◌else◌, length, suc, Any, ap, ◌∙◌,
}
use barman.Text.{Text, text_le}
use barman.Text.Order.{text_le_total, text_le_trans}

module _ {ℓ} {A : Type ℓ} (before : A → A → Bool) where
  unfoldable pub insert_by : A → List A → List A
  insert_by x [] = x ∷ []
  insert_by x (y ∷ l) = if before x y then x ∷ y ∷ l else y ∷ insert_by x l

  unfoldable pub sort_by : List A → List A
  unfolding insert_by
  sort_by [] = []
  sort_by (x ∷ l) = insert_by x (sort_by l)

  -- Each item stands before all that follow it.
  abbrev pub IsOrdered : List A → Type ℓ
  IsOrdered [] = Unit
  IsOrdered (x ∷ l) = All (λ y. before x y ≡ true) l × IsOrdered l

module _ {ℓ κ} {A : Type ℓ} (before : A → A → Bool) (P : A → Type κ) where
  All-insert_by : (x : A) (l : List A) → P x → All P l → All P (insert_by before x l)
  unfolding insert_by
  All-insert_by x [] px h = (px, tt)
  All-insert_by x (y ∷ l) px h = elim (Bool-cases (before x y)) [
    | inl e ↦ rw e (px, h)
    | inr e ↦ rw e (h.0, All-insert_by x l px h.1)
  ]

  -- What holds of all items holds of all sorted items.
  pub All-sort_by : (l : List A) → All P l → All P (sort_by before l)
  unfolding sort_by
  All-sort_by [] h = tt
  All-sort_by (x ∷ l) h = All-insert_by x (sort_by before l) h.0 (All-sort_by l h.1)

  All-of_insert_by : (x : A) (l : List A) → All P (insert_by before x l) → P x × All P l
  unfolding insert_by
  All-of_insert_by x [] h = (h.0, tt)
  All-of_insert_by x (y ∷ l) h = elim (Bool-cases (before x y)) [
    | inl e ↦ let k : P x × (P y × All P l) = (rw (e, insert_by) at h) in (k.0, k.1)
    | inr e ↦
        let k : P y × All P (insert_by before x l) = (rw (e, insert_by) at h) in
        let r = All-of_insert_by x l k.1 in (r.0, (k.0, r.1))
  ]

  pub All-of_sort_by : (l : List A) → All P (sort_by before l) → All P l
  unfolding sort_by
  All-of_sort_by [] h = tt
  All-of_sort_by (x ∷ l) h =
      let r = All-of_insert_by x (sort_by before l) h in (r.0, All-of_sort_by l r.1)

module _ {ℓ} {A : Type ℓ} (before : A → A → Bool) (P : A → Type 0) where
  Any-of_insert_by : (x : A) (l : List A) → Any P (insert_by before x l) → P x ⊎ Any P l
  unfolding insert_by
  Any-of_insert_by x [] h = h
  Any-of_insert_by x (y ∷ l) h = elim (Bool-cases (before x y)) [
    | inl e ↦ let k : P x ⊎ (P y ⊎ Any P l) = (rw (e, insert_by) at h) in k
    | inr e ↦
        let k : P y ⊎ Any P (insert_by before x l) = (rw (e, insert_by) at h) in
        elim k [
          | inl p ↦ inr (inl p)
          | inr q ↦ elim (Any-of_insert_by x l q) [ inl r ↦ inl r | inr r ↦ inr (inr r) ]
        ]
  ]

  -- What holds of some sorted item holds of some item.
  pub Any-of_sort_by : (l : List A) → Any P (sort_by before l) → Any P l
  unfolding sort_by
  Any-of_sort_by [] h = h
  Any-of_sort_by (x ∷ l) h = elim (Any-of_insert_by x (sort_by before l) h) [
    | inl p ↦ inl p
    | inr q ↦ inr (Any-of_sort_by l q)
  ]

module _ {ℓ} {A : Type ℓ} (before : A → A → Bool) where
  insert_by-perm : (x : A) (l : List A) → Perm (insert_by before x l) (x ∷ l)
  unfolding insert_by
  insert_by-perm x [] = Perm.refl (x ∷ [])
  insert_by-perm x (y ∷ l) = elim (Bool-cases (before x y)) [
    | inl e ↦ rw e (Perm.refl (x ∷ y ∷ l))
    | inr e ↦ rw e (Perm.trans (Perm.cons y (insert_by-perm x l)) (Perm.swap x y l))
  ]

  length-insert_by : (x : A) (l : List A) → length (insert_by before x l) ≡ suc (length l)
  unfolding insert_by
  length-insert_by x [] = refl
  length-insert_by x (y ∷ l) = ground (arith, length-insert_by x l)

  pub length-sort_by : (l : List A) → length (sort_by before l) ≡ length l
  unfolding sort_by
  length-sort_by [] = refl
  length-sort_by (x ∷ l) = length-insert_by x (sort_by before l) ∙ (ap suc (length-sort_by l))

  -- Sorting permutes.
  pub sort_by-perm : (l : List A) → Perm (sort_by before l) l
  unfolding sort_by
  sort_by-perm [] = Perm.refl []
  sort_by-perm (x ∷ l) =
      Perm.trans (insert_by-perm x (sort_by before l)) (Perm.cons x (sort_by-perm l))

module _ {ℓ} {A : Type ℓ} (before : A → A → Bool)
    (total : (x y : A) → before x y ≡ false → before y x ≡ true)
    (trans : (x y z : A) → before x y ≡ true → before y z ≡ true → before x z ≡ true) where
  All-before :
      (x y : A) (l : List A)
      → before x y ≡ true
      → All (λ z. before y z ≡ true) l
      → All (λ z. before x z ≡ true) l
  All-before x y [] e h = tt
  All-before x y (z ∷ l) e h = (trans x y z e h.0, All-before x y l e h.1)

  insert_by-IsOrdered :
      (x : A) (l : List A) → IsOrdered before l → IsOrdered before (insert_by before x l)
  unfolding insert_by
  insert_by-IsOrdered x [] h = (tt, tt)
  insert_by-IsOrdered x (y ∷ l) h = elim (Bool-cases (before x y)) [
    | inl e ↦ rw e ((e, All-before x y l e h.0), h)
    | inr e ↦ rw e (
      All-insert_by before (λ z. before y z ≡ true) x l (total x y e) h.0,
      insert_by-IsOrdered x l h.1,
    )
  ]

  pub sort_by-IsOrdered : (l : List A) → IsOrdered before (sort_by before l)
  unfolding sort_by
  sort_by-IsOrdered [] = tt
  sort_by-IsOrdered (x ∷ l) = insert_by-IsOrdered x (sort_by before l) (sort_by-IsOrdered l)

-- `sorted(l, key=key)` and `sorted(l, key=key, reverse=True)`
module _ {ℓ} {A : Type ℓ} (key : A → Text) where
  abbrev pub ascending : A → A → Bool
  ascending x y = text_le (key x) (key y)

  abbrev pub descending : A → A → Bool
  descending x y = text_le (key y) (key x)

  unfoldable pub sort_asc : List A → List A
  unfolding sort_by
  sort_asc = sort_by ascending

  unfoldable pub sort_desc : List A → List A
  unfolding sort_by
  sort_desc = sort_by descending

  pub sort_asc-IsOrdered : (l : List A) → IsOrdered ascending (sort_asc l)
  unfolding sort_asc
  sort_asc-IsOrdered =
      sort_by-IsOrdered ascending (λ x y. text_le_total (key x) (key y))
        (λ x y z. text_le_trans (key x) (key y) (key z))

  pub sort_desc-IsOrdered : (l : List A) → IsOrdered descending (sort_desc l)
  unfolding sort_desc
  sort_desc-IsOrdered =
      sort_by-IsOrdered descending (λ x y. text_le_total (key y) (key x))
        (λ x y z p q. text_le_trans (key z) (key y) (key x) q p)

-- Every two items of a list are related.
abbrev pub Pairwise {ℓ} : {A : Type ℓ} → (A → A → Type 0) → List A → Type ℓ
Pairwise R [] = Unit
Pairwise R (x ∷ l) = All (R x) l × Pairwise R l

module _ {ℓ} {A : Type ℓ} (before : A → A → Bool) (R : A → A → Type 0)
    (symmetric : (x y : A) → R x y → R y x) where
  insert_by-Pairwise :
      (x : A) (l : List A) → All (R x) l → Pairwise R l → Pairwise R (insert_by before x l)
  unfolding insert_by
  insert_by-Pairwise x [] a p = (tt, tt)
  insert_by-Pairwise x (y ∷ l) a p = elim (Bool-cases (before x y)) [
    | inl e ↦ rw e (a, p)
    | inr e ↦
        rw e
          (All-insert_by before (R y) x l (symmetric x y a.0) p.0, insert_by-Pairwise x l a.1 p.1)
  ]

  -- Sorting keeps a symmetric relation between every two items.
  pub sort_by-Pairwise : (l : List A) → Pairwise R l → Pairwise R (sort_by before l)
  unfolding sort_by
  sort_by-Pairwise [] p = tt
  sort_by-Pairwise (x ∷ l) p =
      insert_by-Pairwise x (sort_by before l) (All-sort_by before (R x) l p.0)
        (sort_by-Pairwise l p.1)

pub Pairwise-drop {ℓ} :
    {A : Type ℓ} (R : A → A → Type 0) (xs ys : List A) → Pairwise R (xs ++ ys) → Pairwise R ys
Pairwise-drop R [] ys h = h
Pairwise-drop R (x ∷ xs) ys h = Pairwise-drop R xs ys h.1
