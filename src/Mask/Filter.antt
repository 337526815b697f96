-- ===== src/Mask/Filter.antt =====
-- What a mask leaves of a tree of conditions.
use ag_core.Prelude.{
  ◌≡◌, ◌≢◌, refl, sym, ap, ◌∙◌, true, false, Option, none, some, List, [], ◌∷◌, ◌++◌, inl, inr,
  if◌then◌else◌, Bool-cases,
}
use mathlib.Core.Path.{subst}
use ag_core.Placeholder.{Text}
use ag_core.Mask.{
  FieldMask, MaskWhereCondition, MaskWhereConditions, mask_condition, nil, cons, keeps, unless_nil,
  add_kept, filter_mask_where_condition, filter_conditions,
}

-- The expressions of a tree, from left to right.
abbrev mutual
  pub exprs : MaskWhereCondition → List Text
  exprs (mask_condition operator conditions (c ∷ cs)) = (c ∷ cs) ∷ []
  exprs (mask_condition operator conditions []) = exprs_of_all conditions

  pub exprs_of_all : MaskWhereConditions → List Text
  exprs_of_all nil = []
  exprs_of_all (cons d ds) = exprs d ++ exprs_of_all ds

-- The texts that the mask keeps.
abbrev pub kept : FieldMask → List Text → List Text
kept m [] = []
kept m (t ∷ ts) = if keeps m t then t ∷ kept m ts else kept m ts

-- Each condition has conditions or an expression, never both, and the mask keeps its expression.
abbrev mutual
  pub IsFiltered : FieldMask → MaskWhereCondition → Type 0
  IsFiltered m (mask_condition operator nil (c ∷ cs)) = keeps m (c ∷ cs) ≡ true
  IsFiltered m (mask_condition operator (cons d ds) (c ∷ cs)) = ⊥
  IsFiltered m (mask_condition operator nil []) = ⊥
  IsFiltered m (mask_condition operator (cons d ds) []) = IsFiltered m d × AreFiltered m ds

  pub AreFiltered : FieldMask → MaskWhereConditions → Type 0
  AreFiltered m nil = Unit {0}
  AreFiltered m (cons d ds) = IsFiltered m d × AreFiltered m ds

-- What the result of the filter says of the expressions.
abbrev pub Keeps : FieldMask → List Text → Option MaskWhereCondition → Type 0
Keeps m ts none = kept m ts ≡ []
Keeps m ts (some d) = (exprs d ≡ kept m ts) × (exprs d ≢ []) × IsFiltered m d

kept-append : (m : FieldMask) (xs ys : List Text) → kept m (xs ++ ys) ≡ kept m xs ++ kept m ys
kept-append m [] ys = refl
kept-append m (x ∷ xs) ys = elim (Bool-cases (keeps m x)) [
  | inl e ↦ rw e (ap (λ l. x ∷ l) (kept-append m xs ys))
  | inr e ↦ rw e (kept-append m xs ys)
]

kept_one : (m : FieldMask) (t : Text) → keeps m t ≡ true → t ∷ [] ≡ kept m (t ∷ [])
kept_one m t e = rw e refl

kept_none : (m : FieldMask) (t : Text) → keeps m t ≡ false → kept m (t ∷ []) ≡ []
kept_none m t e = rw e refl

append-nonempty : (xs ys : List Text) → xs ≢ [] → xs ++ ys ≢ []
append-nonempty [] ys h e = h refl
append-nonempty (x ∷ xs) ys h e = absurd (cc e)

IsFiltered-nonempty : (m : FieldMask) (d : MaskWhereCondition) → IsFiltered m d → exprs d ≢ []
IsFiltered-nonempty m (mask_condition operator conditions (c ∷ cs)) h e = absurd (cc e)
IsFiltered-nonempty m (mask_condition operator nil []) h e = absurd h
IsFiltered-nonempty m (mask_condition operator (cons d ds) []) (h, g) e =
    append-nonempty (exprs d) (exprs_of_all ds) (IsFiltered-nonempty m d h) e

-- The same of a list of conditions.
abbrev KeepsAll : FieldMask → List Text → MaskWhereConditions → Type 0
KeepsAll m ts ds = (exprs_of_all ds ≡ kept m ts) × AreFiltered m ds

unless_nil-Keeps :
    (m : FieldMask) (operator : Text) (ts : List Text) (ds : MaskWhereConditions)
    → KeepsAll m ts ds
    → Keeps m ts (unless_nil operator ds)
unless_nil-Keeps m operator ts nil (e, f) = sym e
unless_nil-Keeps m operator ts (cons d ds) (e, f) =
    (e, IsFiltered-nonempty m (mask_condition operator (cons d ds) []) f, f)

add_kept-KeepsAll :
    (m : FieldMask) (ts us : List Text) (o : Option MaskWhereCondition) (ds : MaskWhereConditions)
    → Keeps m ts o
    → KeepsAll m us ds
    → KeepsAll m (ts ++ us) (add_kept o ds)
add_kept-KeepsAll m ts us none ds e (f, g) =
    (f ∙ ap (λ l. l ++ kept m us) (sym e) ∙ sym (kept-append m ts us), g)
add_kept-KeepsAll m ts us (some d) ds (e, n, h) (f, g) = (
  ap (λ l. l ++ exprs_of_all ds) e ∙ ap (λ l. kept m ts ++ l) f ∙ sym (kept-append m ts us),
  (h, g),
)

mutual
  unfolding filter_mask_where_condition

  tree_filtered :
      (m : FieldMask) (d : MaskWhereCondition) → Keeps m (exprs d) (filter_mask_where_condition m d)
  tree_filtered m (mask_condition operator conditions (c ∷ cs)) =
      elim (Bool-cases (keeps m (c ∷ cs))) [
        | inl e ↦ rw e (kept_one m (c ∷ cs) e, λ f. absurd (cc f), e)
        | inr e ↦ rw e (kept_none m (c ∷ cs) e)
      ]
  tree_filtered m (mask_condition operator conditions []) =
      unless_nil-Keeps m operator (exprs_of_all conditions) (filter_conditions m conditions)
        (filter_conditions-KeepsAll m conditions)

  filter_conditions-KeepsAll :
      (m : FieldMask) (ds : MaskWhereConditions)
      → KeepsAll m (exprs_of_all ds) (filter_conditions m ds)
  filter_conditions-KeepsAll m nil = (refl, tt)
  filter_conditions-KeepsAll m (cons d ds) =
      add_kept-KeepsAll m (exprs d) (exprs_of_all ds) (filter_mask_where_condition m d)
        (filter_conditions m ds) (tree_filtered m d) (filter_conditions-KeepsAll m ds)

-- The filter by a mask gives none where the mask keeps no expression of the tree; else its result
-- has the expressions that the mask keeps, at least one and in their order, and each of its
-- conditions has either conditions or an expression that the mask keeps.
pub filter_mask_where_condition-Keeps :
    (m : FieldMask) (d : MaskWhereCondition) → Keeps m (exprs d) (filter_mask_where_condition m d)
filter_mask_where_condition-Keeps m d = tree_filtered m d

mutual
  unfolding filter_mask_where_condition

  filter_filtered :
      (m : FieldMask) (d : MaskWhereCondition)
      → IsFiltered m d
      → filter_mask_where_condition m d ≡ some d
  filter_filtered m (mask_condition operator nil (c ∷ cs)) h = rw h refl
  filter_filtered m (mask_condition operator (cons d ds) (c ∷ cs)) h = absurd h
  filter_filtered m (mask_condition operator nil []) h = absurd h
  filter_filtered m (mask_condition operator (cons d ds) []) h =
      ap (unless_nil operator) (filter_all_filtered m (cons d ds) h)

  filter_all_filtered :
      (m : FieldMask) (ds : MaskWhereConditions) → AreFiltered m ds → filter_conditions m ds ≡ ds
  filter_all_filtered m nil h = refl
  filter_all_filtered m (cons d ds) (h, g) =
      rw (filter_filtered m d h, filter_all_filtered m ds g) refl

pub filter_mask_where_condition-IsFiltered :
    (m : FieldMask) (d e : MaskWhereCondition)
    → filter_mask_where_condition m d ≡ some e
    → IsFiltered m e
filter_mask_where_condition-IsFiltered m d e h =
    (subst (Keeps m (exprs d)) h (filter_mask_where_condition-Keeps m d)).2

-- The filter leaves its own result as it is.
pub filter_mask_where_condition-twice :
    (m : FieldMask) (d e : MaskWhereCondition)
    → filter_mask_where_condition m d ≡ some e
    → filter_mask_where_condition m e ≡ some e
filter_mask_where_condition-twice m d e h =
    filter_filtered m e (filter_mask_where_condition-IsFiltered m d e h)
