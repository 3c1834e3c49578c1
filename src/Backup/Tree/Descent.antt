-- ===== src/Backup/Tree/Descent.antt =====
-- Descendants, and what `walk_backups_tree` gives of them.
use barman.Prelude.{
  ℕ, zero, suc, ◌+◌, ◌≡◌, ◌↔◌, refl, sym, ap, ◌∙◌, ◌⊎◌, inl, inr, Bool, true, false, List, [], ◌∷◌,
  ◌++◌, arith, All, if◌then◌else◌,
}
use barman.Text.{Text}
use barman.Backup.{BackupInfo}
use barman.Backup.Tree.{Disk, children, walk_children, walk_backups_tree}

-- Every chain of children from the backup ends within `n` steps.
abbrev pub IsShallow : ℕ → Disk → BackupInfo → Type 0
IsShallow zero disk b = ⊥
IsShallow (suc n) disk b = All (λ id. IsShallow n disk (disk id)) (children b)

-- A backup stands in a list.
pub data In {ℓ} {A : Type ℓ} (x : A) : List A → Type ℓ where
  here : {l : List A} → In x (x ∷ l)
  there : {y : A} {l : List A} → In x l → In x (y ∷ l)

-- A child, or a descendant of a child
pub data Descends (disk : Disk) : BackupInfo → BackupInfo → Type 0 where
  child : {b c : BackupInfo} (id : Text) → In id (children b) → c ≡ disk id → Descends disk b c
  below :
      {b c : BackupInfo} (id : Text)
      → In id (children b)
      → Descends disk (disk id) c
      → Descends disk b c

module _ {ℓ} {A : Type ℓ} where
  In-append_left : {x : A} {l : List A} (m : List A) → In x l → In x (l ++ m)
  In-append_left m here = here
  In-append_left m (there i) = there (In-append_left m i)

  In-append_right : {x : A} (l : List A) {m : List A} → In x m → In x (l ++ m)
  In-append_right [] i = i
  In-append_right (y ∷ l) i = there (In-append_right l i)

  In-append : {x : A} (l : List A) {m : List A} → In x (l ++ m) → In x l ⊎ In x m
  In-append [] i = inr i
  In-append (y ∷ l) here = inl here
  In-append (y ∷ l) (there i) = elim (In-append l i) [ inl j ↦ inl (there j) | inr j ↦ inr j ]

In-one {ℓ} : {A : Type ℓ} (x y : A) → In x (y ∷ []) → x ≡ y
In-one x y here = refl
In-one x y (there i) = elim i [ ]

module _ (disk : Disk) where
  abbrev walk : ℕ → BackupInfo → List BackupInfo
  walk n = walk_backups_tree n disk true

  -- More fuel than the depth changes nothing.
  mutual_stable :
      (n k : ℕ) (ids : List Text)
      → ((id : Text) → IsShallow n disk (disk id) → walk (n + k) (disk id) ≡ walk n (disk id))
      → All (λ id. IsShallow n disk (disk id)) ids
      → walk_children (walk (n + k)) disk ids ≡ walk_children (walk n) disk ids
  unfolding walk_children
  mutual_stable n k [] ih h = refl
  mutual_stable n k (id ∷ ids) ih h = cc (ih id h.0, mutual_stable n k ids ih h.1)

  pub walk-stable :
      (n k : ℕ) (self : Bool) (b : BackupInfo)
      → IsShallow n disk b
      → walk_backups_tree (n + k) disk self b ≡ walk_backups_tree n disk self b
  walk-stable zero k self b h = absurd h
  walk-stable (suc n) k self b h =
      let more : suc n + k ≡ suc (n + k) = omega arith in
      let same = mutual_stable n k (children b) (λ id. walk-stable n k true (disk id)) h in
      rw more (step (n + k) ∙ ap (λ l. l ++ (if self then b ∷ [] else [])) same ∙ sym (step n))
    where
      step :
          (m : ℕ)
          → walk_backups_tree (suc m) disk self b
            ≡ walk_children (walk m) disk (children b) ++ (if self then b ∷ [] else [])
      step m = unfold walk_backups_tree in refl

  In-walk_children :
      (n : ℕ) (ids : List Text) (id : Text) {c : BackupInfo}
      → In id ids
      → In c (walk n (disk id))
      → In c (walk_children (walk n) disk ids)
  unfolding walk_children
  In-walk_children n [] id i j = elim i [ ]
  In-walk_children n (id ∷ ids) _ here i = In-append_left _ i
  In-walk_children n (j ∷ ids) id (there p) i =
      In-append_right (walk n (disk j)) (In-walk_children n ids id p i)

  In-walk_self : (n : ℕ) (b : BackupInfo) → In b (walk (suc n) b)
  unfolding walk_backups_tree
  In-walk_self n b = In-append_right (walk_children (walk n) disk (children b)) here

  All-In : (P : Text → Type 0) (ids : List Text) (id : Text) → All P ids → In id ids → P id
  All-In P [] id h i = elim i [ ]
  All-In P (_ ∷ ids) id h here = h.0
  All-In P (_ ∷ ids) id h (there i) = All-In P ids id h.1 i

  self-In-walk : (n : ℕ) (b : BackupInfo) → IsShallow n disk b → In b (walk n b)
  self-In-walk zero b h = absurd h
  self-In-walk (suc n) b h = In-walk_self n b

  walk-step :
      (n : ℕ) (self : Bool) (b : BackupInfo) {c : BackupInfo}
      → In c (walk_children (walk n) disk (children b))
      → In c (walk_backups_tree (suc n) disk self b)
  unfolding walk_backups_tree
  walk-step n self b i = In-append_left _ i

  walk_complete :
      (n : ℕ) (self : Bool) {b c : BackupInfo}
      → IsShallow n disk b
      → Descends disk b c
      → In c (walk_backups_tree n disk self b)
  walk_complete zero self h d = absurd h
  walk_complete (suc n) self {b} h (child id i e) =
      let shallow = All-In _ (children b) id h i in
      walk-step n self b
        (In-walk_children n (children b) id i (rw e (self-In-walk n (disk id) shallow)))
  walk_complete (suc n) self {b} h (below id i d) =
      let shallow = All-In _ (children b) id h i in
      walk-step n self b (In-walk_children n (children b) id i (walk_complete n true shallow d))

  abbrev OfChildren : (n : ℕ) (ids : List Text) (c : BackupInfo) → Type 0
  OfChildren n ids c = (id : Text) × In id ids × In c (walk n (disk id))

  walk_children-In :
      (n : ℕ) (ids : List Text) (c : BackupInfo)
      → In c (walk_children (walk n) disk ids)
      → OfChildren n ids c
  unfolding walk_children
  walk_children-In n [] c i = elim i [ ]
  walk_children-In n (id ∷ ids) c i = elim (In-append (walk n (disk id)) i) [
    | inl j ↦ (id, here, j)
    | inr j ↦ let (id', at, in_walk) = walk_children-In n ids c j in (id', there at, in_walk)
  ]

  below_child :
      (b c : BackupInfo) (id : Text)
      → In id (children b)
      → (c ≡ disk id) ⊎ Descends disk (disk id) c
      → Descends disk b c
  below_child b c id i (inl e) = child id i e
  below_child b c id i (inr d) = below id i d

  -- A backup of the walk from `b` is `b` or a descendant of it.
  walk_sound : (n : ℕ) (b c : BackupInfo) → In c (walk n b) → (c ≡ b) ⊎ Descends disk b c
  unfolding walk_backups_tree
  walk_sound zero b c i = elim i [ ]
  walk_sound (suc n) b c i = elim (In-append (walk_children (walk n) disk (children b)) i) [
    | inl j ↦
        let (id, at, in_walk) = walk_children-In n (children b) c j in
        inr (below_child b c id at (walk_sound n (disk id) c in_walk))
    | inr j ↦ inl (In-one c b j)
  ]

  descendants_sound :
      (n : ℕ) (b c : BackupInfo) → In c (walk_backups_tree n disk false b) → Descends disk b c
  unfolding walk_backups_tree
  descendants_sound zero b c i = elim i [ ]
  descendants_sound (suc n) b c i = elim (In-append (walk_children (walk n) disk (children b)) i) [
    | inl j ↦
        let (id, at, in_walk) = walk_children-In n (children b) c j in
        below_child b c id at (walk_sound n (disk id) c in_walk)
    | inr j ↦ elim j [ ]
  ]

  -- With fuel above the depth of the tree, the walk without `b` gives exactly the descendants of
  -- `b`, and more fuel gives the same list.
  pub walk-iff-Descends :
      (n : ℕ) (b c : BackupInfo)
      → IsShallow n disk b
      → (In c (walk_backups_tree n disk false b) ↔ Descends disk b c)
        × ((k : ℕ) → walk_backups_tree (n + k) disk false b ≡ walk_backups_tree n disk false b)
  walk-iff-Descends n b c h =
      ((descendants_sound n b c, walk_complete n false h), λ k. walk-stable n k false b h)
