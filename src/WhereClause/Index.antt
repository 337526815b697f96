-- ===== src/WhereClause/Index.antt =====
-- The index that `BuildWithIndexCheck` names.
use ag_core.Prelude.{
  ℕ, zero, suc, ◌+◌, ◌<◌, ◌≡◌, refl, sym, ap, ap₂, ◌∙◌, Bool, true, false, not, ◌&&◌, ◌||◌, Option,
  some, List, [], ◌∷◌, ◌++◌, inl, inr, ◌==◌, ==_iff, arith, Bool-cases, codes, get_elem?,
}
use mathlib.Core.Path.{subst}
use ag_core.Placeholder.{Text, is_empty, text_eq}
use ag_core.WhereClause.{
  WhereCondition, WhereConditions, nil_condition, condition, nil, cons, built, contains_part,
  build_where_condition,
}
use ag_core.WhereClause.Columns.{
  insert_field, insert_fields, collect_condition_fields, collect_children, is_leading_used,
  IndexName, no_index, primary, index, find_matching_index, Checked, checked, not_built,
  no_index_used, check_index, build_with_index_check,
}

-- Whether a condition of the tree has the field.
abbrev mutual
  pub occurs : {V : Type 0} → Text → WhereCondition V → Bool
  occurs f nil_condition = false
  occurs f (condition field op value logic children) =
      (not (is_empty field) && text_eq field f) || occurs_in f children

  pub occurs_in : {V : Type 0} → Text → WhereConditions V → Bool
  occurs_in f nil = false
  occurs_in f (cons c cs) = occurs f c || occurs_in f cs

-- Whether the first of the columns occurs.
abbrev pub leads : {V : Type 0} → List Text → WhereCondition V → Bool
leads [] c = false
leads (leading ∷ columns) c = occurs leading c

pub text_eq-eq : (s t : Text) → text_eq s t ≡ true → s ≡ t
text_eq-eq [] [] e = refl
text_eq-eq [] (d ∷ ds) e = absurd (cc e)
text_eq-eq (c ∷ cs) [] e = absurd (cc e)
text_eq-eq (c ∷ cs) (d ∷ ds) e = elim (Bool-cases (c == d)) [
  | inl f ↦ ap₂ ◌∷◌ ((==_iff c d).0 f) (text_eq-eq cs ds (sym (ap (λ b. b && text_eq cs ds) f) ∙ e))
  | inr f ↦ absurd (cc (sym (ap (λ b. b && text_eq cs ds) f) ∙ e))
]

or_swap : (a b c : Bool) → (a || (b || c)) ≡ ((b || a) || c)
or_swap true true c = refl
or_swap true false c = refl
or_swap false true c = refl
or_swap false false c = refl

contains_part-insert_field :
    (p f : Text) (fs : List Text)
    → contains_part p (insert_field f fs) ≡ (text_eq f p || contains_part p fs)
contains_part-insert_field p f fs = elim (Bool-cases (contains_part f fs)) [
  | inr e ↦ rw e refl
  | inl e ↦ elim (Bool-cases (text_eq f p)) [
    | inr g ↦ rw (e, g) refl
    | inl g ↦ rw (e, g) (subst (λ q. contains_part q fs ≡ true) (text_eq-eq f p g) e)
  ]
]

contains_part-insert_fields :
    (p : Text) (gs fs : List Text)
    → contains_part p (insert_fields gs fs) ≡ (contains_part p gs || contains_part p fs)
contains_part-insert_fields p [] fs = refl
contains_part-insert_fields p (g ∷ gs) fs =
    contains_part-insert_fields p gs (insert_field g fs)
    ∙ ap (λ b. contains_part p gs || b) (contains_part-insert_field p g fs)
    ∙ or_swap (contains_part p gs) (text_eq g p) (contains_part p fs)

or_false : (a : Bool) → a ≡ (a || false)
or_false true = refl
or_false false = refl

or_assoc : (a b c : Bool) → ((a || b) || c) ≡ (b || (a || c))
or_assoc true true c = refl
or_assoc true false c = refl
or_assoc false true c = refl
or_assoc false false c = refl

mutual
  unfolding collect_condition_fields

  contains_part-collect_condition_fields :
      {V : Type 0} (p : Text) (c : WhereCondition V)
      → contains_part p (collect_condition_fields c) ≡ occurs p c
  contains_part-collect_condition_fields p nil_condition = refl
  contains_part-collect_condition_fields p (condition [] op value logic children) =
      contains_part-collect_children p children []
  contains_part-collect_condition_fields p (condition (f ∷ fs) op value logic children) =
      contains_part-collect_children p children ((f ∷ fs) ∷ [])
      ∙ ap (λ b. b || occurs_in p children) (sym (or_false (text_eq (f ∷ fs) p)))

  contains_part-collect_children :
      {V : Type 0} (p : Text) (cs : WhereConditions V) (fs : List Text)
      → contains_part p (collect_children cs fs) ≡ (contains_part p fs || occurs_in p cs)
  contains_part-collect_children p nil fs = or_false (contains_part p fs)
  contains_part-collect_children p (cons c cs) fs =
      contains_part-collect_children p cs (insert_fields (collect_condition_fields c) fs)
      ∙ ap (λ b. b || occurs_in p cs)
          (contains_part-insert_fields p (collect_condition_fields c) fs
            ∙ ap (λ b. b || contains_part p fs) (contains_part-collect_condition_fields p c))
      ∙ or_assoc (occurs p c) (contains_part p fs) (occurs_in p cs)

is_leading_used-leads :
    {V : Type 0} (c : WhereCondition V) (columns : List Text)
    → is_leading_used (collect_condition_fields c) columns ≡ leads columns c
unfolding is_leading_used
is_leading_used-leads c [] = refl
is_leading_used-leads c (leading ∷ columns) = contains_part-collect_condition_fields leading c

-- What a name says of the indexes: it has the number of the first whose leading column passes the
-- test, counted from `i`.
abbrev Names : (List Text → Bool) → List (List Text) → ℕ → IndexName → Type 0
Names test columns i no_index =
    (k : ℕ) (cols : List Text) → get_elem? columns k ≡ some cols → test cols ≡ false
Names test columns i primary = ⊥
Names test columns i (index j) =
    (k : ℕ) × (cols : List Text) × (j ≡ i + k)
    × (get_elem? columns k ≡ some cols)
    × (test cols ≡ true)
    × ((m : ℕ) (others : List Text)
        → m < k
        → get_elem? columns m ≡ some others
        → test others ≡ false)

some_eq : {A : Type 0} {a b : A} → some a ≡ some b → a ≡ b
some_eq e = cc e

Names-suc :
    (test : List Text → Bool) (cols : List Text) (columns : List (List Text)) (i : ℕ)
    (n : IndexName)
    → test cols ≡ false
    → Names test columns (suc i) n
    → Names test (cols ∷ columns) i n
Names-suc test cols columns i no_index e h = none_names
  where
    none_names :
        (k : ℕ) (cols' : List Text) → get_elem? (cols ∷ columns) k ≡ some cols' → test cols' ≡ false
    none_names zero cols' f = ap test (sym (some_eq f)) ∙ e
    none_names (suc k) cols' f = h k cols' f
Names-suc test cols columns i primary e h = h
Names-suc test cols columns i (index j) e (k, cols', f, g, t, before) =
    (suc k, cols', omega arith, g, t, earlier)
  where
    earlier :
        (m : ℕ) (others : List Text)
        → m < suc k
        → get_elem? (cols ∷ columns) m ≡ some others
        → test others ≡ false
    earlier zero others l q = ap test (sym (some_eq q)) ∙ e
    earlier (suc m) others l q = before m others (omega arith) q

find_matching_index-Names :
    (used : List Text) (test : List Text → Bool)
    → ((cols : List Text) → is_leading_used used cols ≡ test cols)
    → (columns : List (List Text)) (i : ℕ)
    → Names test columns i (find_matching_index used columns i)
unfolding find_matching_index
find_matching_index-Names used test agree [] i = λ k cols e. absurd (cc e)
find_matching_index-Names used test agree (cols ∷ columns) i =
    elim (Bool-cases (is_leading_used used cols)) [
      | inl e ↦
          rw e
            (0, cols, omega arith, refl, sym (agree cols) ∙ e, λ m others l q. absurd (omega arith))
      | inr e ↦ rw e (
          Names-suc test cols columns i (find_matching_index used columns (suc i))
            (sym (agree cols) ∙ e) (find_matching_index-Names used test agree columns (suc i)))
    ]

-- What the result says of the columns: `PRIMARY` and the number of an index stand for a leading
-- column that occurs, of the primary key before the indexes, and of the first such index.
abbrev pub Verdict :
    {V : Type 0}
    → WhereCondition V
    → Text
    → List V
    → List Text
    → List (List Text)
    → Checked V
    → Type 0
Verdict c sql args keys columns (checked text xs primary) =
    (text ≡ codes "WHERE " ++ sql) × (xs ≡ args) × (leads keys c ≡ true)
Verdict c sql args keys columns (checked text xs no_index) = ⊥
Verdict c sql args keys columns (checked text xs (index j)) =
    (text ≡ codes "WHERE " ++ sql)
    × (xs ≡ args)
    × (leads keys c ≡ false)
    × Names (λ cols. leads cols c) columns 0 (index j)
Verdict c sql args keys columns (not_built e) = ⊥
Verdict c sql args keys columns (no_index_used fields) =
    (leads keys c ≡ false) × Names (λ cols. leads cols c) columns 0 no_index

check_index-Verdict :
    {V : Type 0} (c : WhereCondition V) (sql : Text) (args : List V) (keys : List Text)
    (columns : List (List Text))
    → Verdict c sql args keys columns
        (check_index sql args (collect_condition_fields c) keys columns)
unfolding check_index
check_index-Verdict c sql args keys columns =
    elim (Bool-cases (is_leading_used (collect_condition_fields c) keys)) [
      | inl e ↦ rw e (refl, refl, sym (is_leading_used-leads c keys) ∙ e)
      | inr e ↦ rw e (
          of_name (find_matching_index (collect_condition_fields c) columns 0)
            (sym (is_leading_used-leads c keys) ∙ e)
            (find_matching_index-Names (collect_condition_fields c) (λ cols. leads cols c)
              (is_leading_used-leads c) columns 0))
    ]
  where
    of_name :
        (n : IndexName)
        → leads keys c ≡ false
        → Names (λ cols. leads cols c) columns 0 n
        → Verdict c sql args keys columns (elim n [
          | no_index ↦ no_index_used (collect_condition_fields c)
          | primary ↦ checked (codes "WHERE " ++ sql) args primary
          | index i ↦ checked (codes "WHERE " ++ sql) args (index i)
        ])
    of_name no_index e h = (e, h)
    of_name primary e h = absurd h
    of_name (index j) e h = (refl, refl, e, h)

text_of : {V : Type 0} {s t : Text} {xs ys : List V} → built s xs ≡ built t ys → s ≡ t
text_of e = cc e

nil_text :
    {V : Type 0} (as_list : V → Option (List V)) (sql : Text) (args : List V)
    → build_where_condition as_list nil_condition ≡ built sql args
    → is_empty sql ≡ false
    → ⊥
unfolding build_where_condition
nil_text as_list sql args e f = absurd (cc (ap is_empty (text_of e) ∙ f))

-- For a tree whose text is built and not empty, `BuildWithIndexCheck` gives `WHERE ` with the text,
-- the arguments and `PRIMARY` where the first column of the key occurs in the tree; else the number
-- of the first index whose first column occurs in it; and the error exactly where neither does.
pub build_with_index_check-Verdict :
    {V : Type 0} (as_list : V → Option (List V)) (c : WhereCondition V) (sql : Text) (args : List V)
    (keys : List Text) (columns : List (List Text))
    → build_where_condition as_list c ≡ built sql args
    → is_empty sql ≡ false
    → Verdict c sql args keys columns (build_with_index_check as_list c keys columns)
unfolding build_with_index_check
build_with_index_check-Verdict as_list nil_condition sql args keys columns e f =
    absurd (nil_text as_list sql args e f)
build_with_index_check-Verdict as_list (condition field op value logic children) sql args keys
      columns e f =
    rw (build_with_index_check, e, f)
      (check_index-Verdict (condition field op value logic children) sql args keys columns)
