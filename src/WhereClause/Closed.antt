-- ===== src/WhereClause/Closed.antt =====
-- Relations of the text and the arguments that hold of what is built, for conditions whose fields
-- and logics have no `?`, `(` and `)`.
use ag_core.Prelude.{
  suc, arith, ==_ne, join-snoc_two, ◌≡◌, refl, Bool, true, not, ◌&&◌, Option, none, some, List, [],
  ◌∷◌, ◌++◌, inl, inr, ◌==◌, if◌then◌else◌, Bool-cases, length, replicate, codes, join,
}
use mathlib.Core.Path.{subst}
use ag_core.Placeholder.{Text, is_empty}
use ag_core.WhereClause.{
  WhereCondition, WhereConditions, nil_condition, condition, nil, cons, Built, built, failed, Parts,
  parts, parts_failed, in_requires_list, not_in_requires_list, SqlOperator, sql_op_eq, sql_op_neq,
  sql_op_gt, sql_op_lt, sql_op_gte, sql_op_lte, sql_op_in, sql_op_not_in, sql_op_between,
  sql_op_other, sql_logic_and, BuildError, need_parentheses, parenthesize, in_text, build_in,
  build_between, build_single_condition, own_part, has_children, logic_of, link_logic,
  close_condition, close_group, add_child, build_where_condition, build_children, build,
}

-- No `?`, `(` and `)`.
abbrev pub is_plain : Text → Bool
is_plain [] = true
is_plain (c ∷ cs) = not (c == 63) && (not (c == 40) && (not (c == 41) && is_plain cs))

abbrev mutual
  pub IsPlainCondition : {V : Type 0} → WhereCondition V → Type 0
  IsPlainCondition nil_condition = Unit {0}
  IsPlainCondition (condition field op value logic children) =
      (is_plain field ≡ true) × (is_plain logic ≡ true) × ArePlain children

  pub ArePlain : {V : Type 0} → WhereConditions V → Type 0
  ArePlain nil = Unit {0}
  ArePlain (cons c cs) = IsPlainCondition c × ArePlain cs

pub record Closed {V : Type 0} (P : Text → List V → Type 0) : Type 0 where
  pub closed_plain : (t : Text) → is_plain t ≡ true → P t []
  pub closed_placeholder : (v : V) → P (codes "?") (v ∷ [])
  pub closed_append : {a b : Text} {xs ys : List V} → P a xs → P b ys → P (a ++ b) (xs ++ ys)
  pub closed_parens : {a : Text} {xs : List V} → P a xs → P (parenthesize a) xs

module _ {V : Type 0} (as_list : V → Option (List V)) {P : Text → List V → Type 0}
    (h : Closed P) where
  abbrev IsBuilt : Built V → Type 0
  IsBuilt (failed e) = Unit {0}
  IsBuilt (built sql args) = P sql args

  abbrev AreParts : Parts V → Type 0
  AreParts (parts_failed e) = Unit {0}
  AreParts (parts ps args) = P (join (codes " ") ps) args

  closed_nil : P [] []
  closed_nil = h.closed_plain [] refl

  closed_marks :
      (v : V) (vs : List V)
      → P (join (codes ", ") (replicate (length (v ∷ vs)) (codes "?"))) (v ∷ vs)
  closed_marks v [] = h.closed_placeholder v
  closed_marks v (w ∷ vs) =
      h.closed_append (h.closed_placeholder v)
        (h.closed_append (h.closed_plain (codes ", ") refl) (closed_marks w vs))

  build_in-closed :
      (field name : Text) (e : BuildError) (values : Option (List V))
      → is_plain field ≡ true
      → is_plain name ≡ true
      → IsBuilt (build_in field name e values)
  unfolding build_in in_text
  build_in-closed field name e none p q = tt
  build_in-closed field name e (some []) p q = closed_nil
  build_in-closed field name e (some (v ∷ vs)) p q =
      h.closed_append (h.closed_plain field p)
        (h.closed_append (h.closed_plain name q) (h.closed_parens (closed_marks v vs)))

  build_between-closed :
      (field : Text) (values : Option (List V))
      → is_plain field ≡ true
      → IsBuilt (build_between field values)
  unfolding build_between
  build_between-closed field none p = tt
  build_between-closed field (some []) p = tt
  build_between-closed field (some (u ∷ [])) p = tt
  build_between-closed field (some (u ∷ v ∷ [])) p = h.closed_append (h.closed_plain field p) (
      h.closed_append (h.closed_plain (codes " BETWEEN ") refl) (
        h.closed_append (h.closed_placeholder u)
          (h.closed_append (h.closed_plain (codes " AND ") refl) (h.closed_placeholder v))))
  build_between-closed field (some (u ∷ v ∷ w ∷ ws)) p =
      rw (==_ne {a = suc (suc (suc (length ws)))} {b = 2} (omega arith)) tt

  with_mark :
      (field sign : Text) (value : V)
      → is_plain field ≡ true
      → is_plain sign ≡ true
      → P (field ++ (sign ++ codes "?")) (value ∷ [])
  with_mark field sign value p q =
      h.closed_append (h.closed_plain field p)
        (h.closed_append (h.closed_plain sign q) (h.closed_placeholder value))

  build_single_condition-closed :
      (field : Text) (op : SqlOperator) (value : V)
      → is_plain field ≡ true
      → IsBuilt (build_single_condition as_list field op value)
  unfolding build_single_condition
  build_single_condition-closed [] op value p = closed_nil
  build_single_condition-closed (c ∷ cs) sql_op_eq value p =
      with_mark (c ∷ cs) (codes " = ") value p refl
  build_single_condition-closed (c ∷ cs) sql_op_neq value p =
      with_mark (c ∷ cs) (codes " != ") value p refl
  build_single_condition-closed (c ∷ cs) sql_op_gt value p =
      with_mark (c ∷ cs) (codes " > ") value p refl
  build_single_condition-closed (c ∷ cs) sql_op_lt value p =
      with_mark (c ∷ cs) (codes " < ") value p refl
  build_single_condition-closed (c ∷ cs) sql_op_gte value p =
      with_mark (c ∷ cs) (codes " >= ") value p refl
  build_single_condition-closed (c ∷ cs) sql_op_lte value p =
      with_mark (c ∷ cs) (codes " <= ") value p refl
  build_single_condition-closed (c ∷ cs) sql_op_in value p =
      build_in-closed (c ∷ cs) (codes " IN ") in_requires_list (as_list value) p refl
  build_single_condition-closed (c ∷ cs) sql_op_not_in value p =
      build_in-closed (c ∷ cs) (codes " NOT IN ") not_in_requires_list (as_list value) p refl
  build_single_condition-closed (c ∷ cs) sql_op_between value p =
      build_between-closed (c ∷ cs) (as_list value) p
  build_single_condition-closed (c ∷ cs) (sql_op_other t) value p = tt

  own_part-closed :
      (field : Text) (op : SqlOperator) (value : V)
      → is_plain field ≡ true
      → AreParts (own_part as_list field op value)
  unfolding own_part
  own_part-closed field op value p =
      of_built (build_single_condition as_list field op value)
        (build_single_condition-closed field op value p)
    where
      of_built :
          (b : Built V)
          → IsBuilt b
          → AreParts (elim b [
            | failed e ↦ parts_failed e
            | built sql args ↦ if is_empty sql then parts [] [] else parts (sql ∷ []) args
          ])
      of_built (failed e) q = tt
      of_built (built [] args) q = closed_nil
      of_built (built (c ∷ cs) args) q = q

  add_child-closed :
      (ps : List Text) (args : List V) (logic sql : Text) (child_args : List V)
      → is_plain logic ≡ true
      → P (join (codes " ") ps) args
      → P sql child_args
      → AreParts (add_child ps args logic sql child_args)
  unfolding add_child link_logic
  add_child-closed ps args logic [] child_args p q r = q
  add_child-closed [] args logic (c ∷ cs) child_args p q r = h.closed_append q r
  add_child-closed (s ∷ ps) args logic (c ∷ cs) child_args p q r =
      rw (join-snoc_two (codes " ") s ps (if is_empty logic then sql_logic_and else logic) (c ∷ cs))
        (h.closed_append q (
          h.closed_append (h.closed_plain (codes " ") refl) (
            h.closed_append (linked logic p)
              (h.closed_append (h.closed_plain (codes " ") refl) r))))
    where
      linked : (l : Text) → is_plain l ≡ true → P (if is_empty l then sql_logic_and else l) []
      linked [] e = h.closed_plain sql_logic_and refl
      linked (d ∷ ds) e = h.closed_plain (d ∷ ds) e

  close_condition-closed : (ps : Parts V) → AreParts ps → IsBuilt (close_condition ps)
  unfolding close_condition
  close_condition-closed (parts_failed e) q = tt
  close_condition-closed (parts [] args) q = closed_nil
  close_condition-closed (parts (p ∷ ps) args) q = elim (Bool-cases (need_parentheses (p ∷ ps))) [
    | inl e ↦ rw e (h.closed_parens q)
    | inr e ↦ rw e q
  ]

  close_group-closed : (ps : Parts V) → AreParts ps → IsBuilt (close_group ps)
  unfolding close_group
  close_group-closed (parts_failed e) q = tt
  close_group-closed (parts [] args) q = closed_nil
  close_group-closed (parts (p ∷ ps) args) q = h.closed_parens q

  is_plain-logic_of : (c : WhereCondition V) → IsPlainCondition c → is_plain (logic_of c) ≡ true
  is_plain-logic_of nil_condition p = refl
  is_plain-logic_of (condition field op value logic children) (p, q, r) = q

  after_child :
      (b : Built V) (ps : List Text) (args : List V) (logic : Text) (rest : Parts V → Parts V)
      → is_plain logic ≡ true
      → P (join (codes " ") ps) args
      → IsBuilt b
      → ((ps' : Parts V) → AreParts ps' → AreParts (rest ps'))
      → AreParts (elim b [
        | failed e ↦ parts_failed e
        | built sql child_args ↦ rest (add_child ps args logic sql child_args)
      ])
  after_child (failed e) ps args logic rest l q r k = tt
  after_child (built sql child_args) ps args logic rest l q r k =
      k _ (add_child-closed ps args logic sql child_args l q r)

  mutual
    unfolding build_where_condition

    build_where_condition-closed :
        (c : WhereCondition V) → IsPlainCondition c → IsBuilt (build_where_condition as_list c)
    build_where_condition-closed nil_condition p = closed_nil
    build_where_condition-closed (condition field op value logic children) (p, q, r) =
        elim (Bool-cases (is_empty field && has_children children)) [
          | inl e ↦
              rw e
                (close_group-closed _ (build_children-closed children (parts [] []) r closed_nil))
          | inr e ↦ rw e (
              close_condition-closed _ (
                build_children-closed children (own_part as_list field op value) r
                  (own_part-closed field op value p)))
        ]

    build_children-closed :
        (cs : WhereConditions V) (ps : Parts V)
        → ArePlain cs
        → AreParts ps
        → AreParts (build_children as_list cs ps)
    build_children-closed nil ps p q = q
    build_children-closed (cons c cs) (parts_failed e) p q = tt
    build_children-closed (cons c cs) (parts ps args) (p, r) q =
        after_child (build_where_condition as_list c) ps args (logic_of c)
          (build_children as_list cs) (is_plain-logic_of c p) q (build_where_condition-closed c p)
          (λ ps'. build_children-closed cs ps' r)

  pub build-closed :
      (c : WhereCondition V) (sql : Text) (args : List V)
      → IsPlainCondition c
      → build as_list c ≡ built sql args
      → P sql args
  unfolding build
  build-closed c sql args p e = subst IsBuilt e (of_tree c p)
    where
      of_built :
          (b : Built V)
          → IsBuilt b
          → IsBuilt (elim b [
            | failed e ↦ failed e
            | built sql args ↦ if is_empty sql then built [] [] else built sql args
          ])
      of_built (failed f) q = tt
      of_built (built [] ys) q = closed_nil
      of_built (built (d ∷ ds) ys) q = q

      of_tree : (d : WhereCondition V) → IsPlainCondition d → IsBuilt (build as_list d)
      of_tree nil_condition q = closed_nil
      of_tree (condition field op value logic children) q =
          of_built (build_where_condition as_list (condition field op value logic children))
            (build_where_condition-closed (condition field op value logic children) q)
