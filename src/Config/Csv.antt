-- ===== src/Config/Csv.antt =====
-- What an option that lists values can hold.
use std.Path.{subst}
use barman.Prelude.{
  ◌≡◌, ◌⊎◌, refl, ap, sym, ◌∙◌, Bool, true, false, ◌||◌, not, Option, none, some, List, [], ◌∷◌,
  All, if◌then◌else◌, arith, Bool-cases, inl, inr,
}
use barman.Text.{Text, text_eq, text_in, split_on}
use barman.Text.Order.{text_eq_iff, text_eq_refl}
use barman.Text.Sort.{sort_asc}
use barman.Text.Number.{strip}
use barman.Dict.{Dict, get}
use barman.Result.{ok, require, value_error, ◌>>◌, >>=-eq-ok}
use barman.Config.{CsvClass, is_conflict, add_value, add_values, parse_csv, lower}

-- A value and the one that it conflicts with are two, and conflict both ways.
abbrev pub IsSymmetric : CsvClass → Type 0
IsSymmetric class =
    (a b : Text)
    → get class.conflicts a ≡ some b
    → (text_eq a b ≡ false) × (get class.conflicts b ≡ some a)

abbrev pub IsAllowed : CsvClass → List Text → Type 0
IsAllowed class values =
    All (λ v. text_in v class.value_list ≡ true) values
    × ((a b : Text)
        → get class.conflicts a ≡ some b
        → text_in a values ≡ true
        → text_in b values ≡ false)

guards_hold :
    (allowed conflict : Bool) (result values : List Text)
    → (require allowed value_error >> require (not conflict) value_error >> ok result) ≡ ok values
    → (allowed ≡ true) × ((conflict ≡ false) × (result ≡ values))
guards_hold true true result values h = cc h
guards_hold true false result values h = (refl, (refl, cc h))
guards_hold false true result values h = cc h
guards_hold false false result values h = cc h

no_conflict :
    (class : CsvClass) (val other : Text) (values : List Text)
    → is_conflict (get class.conflicts val) values ≡ false
    → get class.conflicts val ≡ some other
    → text_in other values ≡ false
no_conflict class val other values free e =
    ap (λ (o : Option Text). is_conflict o values) (sym e) ∙ free

-- What an added value does not conflict with
added_apart :
    (class : CsvClass) (val a b : Text) (values : List Text)
    → is_conflict (get class.conflicts val) values ≡ false
    → (text_in a values ≡ true → text_in b values ≡ false)
    → get class.conflicts a ≡ some b
    → (text_eq a val || text_in a values) ≡ true
    → text_in b values ≡ false
added_apart class val a b values free apart c h = elim (Bool-cases (text_eq a val)) [
  | inl e ↦
      let same : a ≡ val = (text_eq_iff a val).0 e in
      no_conflict class val b values free (ap (get class.conflicts) (sym same) ∙ c)
  | inr e ↦ apart (ground arith)
]

added_other :
    (class : CsvClass) (val a b : Text) (values : List Text)
    → is_conflict (get class.conflicts val) values ≡ false
    → text_eq a b ≡ false
    → get class.conflicts b ≡ some a
    → (text_eq a val || text_in a values) ≡ true
    → text_eq b val ≡ false
added_other class val a b values free two c h = elim (Bool-cases (text_eq b val)) [
  | inr e ↦ e
  | inl e ↦
      let same : b ≡ val = (text_eq_iff b val).0 e in
      let absent : text_in a values ≡ false =
        no_conflict class val a values free (ap (get class.conflicts) (sym same) ∙ c) in
      let here : text_eq a val ≡ true = ground arith in
      let equal : text_eq a b ≡ true =
        (text_eq_iff a b).1 ((text_eq_iff a val).0 here ∙ sym same) in
      cc (two, equal)
]

cons-IsAllowed :
    (class : CsvClass) (val : Text) (values : List Text)
    → IsSymmetric class
    → text_in val class.value_list ≡ true
    → is_conflict (get class.conflicts val) values ≡ false
    → IsAllowed class values
    → IsAllowed class (val ∷ values)
unfolding text_in
cons-IsAllowed class val values symmetric listed free (all, apart) = (
  (listed, all),
  λ a b c h.
      let both = symmetric a b c in
      let b_not_in_tail : text_in b values ≡ false =
        added_apart class val a b values free (apart a b c) c h in
      let b_not_val : text_eq b val ≡ false =
        added_other class val a b values free both.0 both.1 h in
      rw (b_not_val, b_not_in_tail) refl,
)

add_value-IsAllowed :
    (class : CsvClass) (val : Text) (values more : List Text)
    → IsSymmetric class
    → IsAllowed class values
    → add_value class val values ≡ ok more
    → IsAllowed class more
unfolding add_value
add_value-IsAllowed class val values more symmetric allowed h =
    let told =
      guards_hold (text_in val class.value_list) (is_conflict (get class.conflicts val) values)
        (if text_in val values then values else val ∷ values) more h in
    subst (IsAllowed class) told.1.1 (
      by_presence (text_in val values)
        (cons-IsAllowed class val values symmetric told.0 told.1.0 allowed))
  where
    by_presence :
        (present : Bool)
        → IsAllowed class (val ∷ values)
        → IsAllowed class (if present then values else val ∷ values)
    by_presence true added = allowed
    by_presence false added = added

add_values-IsAllowed :
    (class : CsvClass) (l values more : List Text)
    → IsSymmetric class
    → IsAllowed class values
    → add_values class l values ≡ ok more
    → IsAllowed class more
unfolding add_values
add_values-IsAllowed class [] values more symmetric allowed h =
    let same : values ≡ more = cc h in subst (IsAllowed class) same allowed
add_values-IsAllowed class (val ∷ l) values more symmetric allowed h =
    let (mid, added, rest) = >>=-eq-ok (add_value class (lower (strip val)) values) _ h in
    add_values-IsAllowed class l mid more symmetric
      (add_value-IsAllowed class (lower (strip val)) values mid symmetric allowed added) rest

none-IsAllowed : (class : CsvClass) → IsAllowed class []
none-IsAllowed class = (tt, λ a b c h. unfold text_in in refl)

-- For a class of options whose conflicts go both ways and are between different values: whatever a
-- text is parsed to holds allowed values only, and never a value with one that it conflicts with.
pub parse_csv-IsAllowed :
    (class : CsvClass) (value : Option Text) (values : List Text)
    → IsSymmetric class
    → parse_csv class value ≡ ok values
    → IsAllowed class values
unfolding parse_csv
parse_csv-IsAllowed class none values symmetric h =
    let same : [] ≡ values = cc h in subst (IsAllowed class) same (none-IsAllowed class)
parse_csv-IsAllowed class (some []) values symmetric h =
    let same : [] ≡ values = cc h in subst (IsAllowed class) same (none-IsAllowed class)
parse_csv-IsAllowed class (some (c ∷ s)) values symmetric h =
    add_values-IsAllowed class (sort_asc (λ (t : Text). t) (split_on 44 (c ∷ s))) [] values
      symmetric (none-IsAllowed class) h

-- Two values that conflict with each other
module _ (x y : Text) (two : text_eq x y ≡ false) where
  abbrev swap : Dict Text
  swap = (x, y) ∷ (y, x) ∷ []

  one_of_two :
      (p q : Bool) (b : Text)
      → (if p then some y else if q then some x else none) ≡ some b
      → ((p ≡ true) × (y ≡ b)) ⊎ ((q ≡ true) × (x ≡ b))
  one_of_two true q b h = inl (refl, cc h)
  one_of_two false true b h = inr (refl, cc h)
  one_of_two false false b h = cc h

  get-swap : (get swap x ≡ some y) × (get swap y ≡ some x)
  unfolding get
  get-swap = (rw (text_eq_refl x) refl, rw (two, text_eq_refl y) refl)

  two_apart : text_eq y x ≡ false
  two_apart = elim (Bool-cases (text_eq y x)) [
    | inr e ↦ e
    | inl e ↦
        let same : text_eq x y ≡ true = (text_eq_iff x y).1 (sym ((text_eq_iff y x).0 e)) in
        cc (two, same)
  ]

  pub swap_symmetric :
      (a b : Text) → get swap a ≡ some b → (text_eq a b ≡ false) × (get swap b ≡ some a)
  unfolding get
  swap_symmetric a b h = elim (one_of_two (text_eq x a) (text_eq y a) b h) [
    | inl told ↦
        let same : x ≡ a = (text_eq_iff x a).0 told.0 in
        (cc (same, told.1, two), cc (same, told.1, get-swap.1))
    | inr told ↦
        let same : y ≡ a = (text_eq_iff y a).0 told.0 in
        (cc (same, told.1, two_apart), cc (same, told.1, get-swap.0))
  ]
