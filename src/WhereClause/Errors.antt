-- ===== src/WhereClause/Errors.antt =====
-- The error that the construction of the text gives.
use ag_core.Prelude.{
  ◌≡◌, refl, sym, ap, ◌∙◌, Option, none, some, List, [], ◌∷◌, ◌++◌, inl, inr, ◌==◌, if◌then◌else◌,
  Bool-cases, length,
}
use ag_core.Placeholder.{Text, is_empty}
use ag_core.WhereClause.{
  WhereCondition, WhereConditions, nil_condition, condition, nil, cons, Built, built, failed, Parts,
  parts, parts_failed, SqlOperator, sql_op_eq, sql_op_neq, sql_op_gt, sql_op_lt, sql_op_gte,
  sql_op_lte, sql_op_in, sql_op_not_in, sql_op_between, sql_op_other, in_requires_list,
  not_in_requires_list, between_requires_two, unsupported_operator, BuildError, build_in,
  build_between, build_single_condition, own_part, logic_of, close_condition, close_group,
  add_child, build_where_condition, build_children, build,
}

abbrev pub first : List BuildError → Option BuildError
first [] = none
first (e ∷ es) = some e

abbrev pub unless_list : {V : Type 0} → BuildError → Option (List V) → List BuildError
unless_list e none = e ∷ []
unless_list e (some values) = []

abbrev pub unless_two : {V : Type 0} → Option (List V) → List BuildError
unless_two none = between_requires_two ∷ []
unless_two (some values) = if length values == 2 then [] else between_requires_two ∷ []

-- What is wrong with a condition that has a field.
abbrev pub own_faults :
    {V : Type 0} (as_list : V → Option (List V)) → Text → SqlOperator → V → List BuildError
own_faults as_list [] op value = []
own_faults as_list (c ∷ cs) sql_op_in value = unless_list in_requires_list (as_list value)
own_faults as_list (c ∷ cs) sql_op_not_in value = unless_list not_in_requires_list (as_list value)
own_faults as_list (c ∷ cs) sql_op_between value = unless_two (as_list value)
own_faults as_list (c ∷ cs) (sql_op_other t) value = unsupported_operator t ∷ []
own_faults as_list (c ∷ cs) _ value = []

-- The faults of a tree, a condition before its children.
abbrev mutual
  pub faults : {V : Type 0} (as_list : V → Option (List V)) → WhereCondition V → List BuildError
  faults as_list nil_condition = []
  faults as_list (condition field op value logic children) =
      own_faults as_list field op value ++ faults_of_all as_list children

  pub faults_of_all :
      {V : Type 0} (as_list : V → Option (List V)) → WhereConditions V → List BuildError
  faults_of_all as_list nil = []
  faults_of_all as_list (cons c cs) = faults as_list c ++ faults_of_all as_list cs

abbrev pub error_of : {V : Type 0} → Built V → Option BuildError
error_of (failed e) = some e
error_of (built sql args) = none

abbrev parts_error : {V : Type 0} → Parts V → Option BuildError
parts_error (parts_failed e) = some e
parts_error (parts ps args) = none

abbrev or_else : Option BuildError → Option BuildError → Option BuildError
or_else none o = o
or_else (some e) o = some e

first-append : (xs ys : List BuildError) → first (xs ++ ys) ≡ or_else (first xs) (first ys)
first-append [] ys = refl
first-append (x ∷ xs) ys = refl

module _ {V : Type 0} (as_list : V → Option (List V)) where
  build_in-error :
      (field name : Text) (e : BuildError) (values : Option (List V))
      → error_of (build_in field name e values) ≡ first (unless_list e values)
  unfolding build_in
  build_in-error field name e none = refl
  build_in-error field name e (some []) = refl
  build_in-error field name e (some (v ∷ vs)) = refl

  build_between-error :
      (field : Text) (values : Option (List V))
      → error_of (build_between field values) ≡ first (unless_two values)
  unfolding build_between
  build_between-error field none = refl
  build_between-error field (some values) = elim (Bool-cases (length values == 2)) [
    | inl e ↦ rw e refl
    | inr e ↦ rw e refl
  ]

  build_single_condition-error :
      (field : Text) (op : SqlOperator) (value : V)
      → error_of (build_single_condition as_list field op value)
        ≡ first (own_faults as_list field op value)
  unfolding build_single_condition
  build_single_condition-error [] op value = refl
  build_single_condition-error (c ∷ cs) sql_op_eq value = refl
  build_single_condition-error (c ∷ cs) sql_op_neq value = refl
  build_single_condition-error (c ∷ cs) sql_op_gt value = refl
  build_single_condition-error (c ∷ cs) sql_op_lt value = refl
  build_single_condition-error (c ∷ cs) sql_op_gte value = refl
  build_single_condition-error (c ∷ cs) sql_op_lte value = refl
  build_single_condition-error (c ∷ cs) sql_op_in value =
      build_in-error (c ∷ cs) _ in_requires_list (as_list value)
  build_single_condition-error (c ∷ cs) sql_op_not_in value =
      build_in-error (c ∷ cs) _ not_in_requires_list (as_list value)
  build_single_condition-error (c ∷ cs) sql_op_between value =
      build_between-error (c ∷ cs) (as_list value)
  build_single_condition-error (c ∷ cs) (sql_op_other t) value = refl

  own_part-error :
      (field : Text) (op : SqlOperator) (value : V)
      → parts_error (own_part as_list field op value) ≡ first (own_faults as_list field op value)
  unfolding own_part
  own_part-error field op value =
      of_built (build_single_condition as_list field op value)
      ∙ build_single_condition-error field op value
    where
      of_built :
          (b : Built V)
          → parts_error (elim b [
            | failed e ↦ parts_failed e
            | built sql args ↦ if is_empty sql then parts [] [] else parts (sql ∷ []) args
          ])
            ≡ error_of b
      of_built (failed e) = refl
      of_built (built [] args) = refl
      of_built (built (c ∷ cs) args) = refl

  close_condition-error : (ps : Parts V) → error_of (close_condition ps) ≡ parts_error ps
  unfolding close_condition
  close_condition-error (parts_failed e) = refl
  close_condition-error (parts [] args) = refl
  close_condition-error (parts (p ∷ ps) args) = refl

  close_group-error : (ps : Parts V) → error_of (close_group ps) ≡ parts_error ps
  unfolding close_group
  close_group-error (parts_failed e) = refl
  close_group-error (parts [] args) = refl
  close_group-error (parts (p ∷ ps) args) = refl

  add_child-error :
      (ps : List Text) (args : List V) (logic sql : Text) (child_args : List V)
      → parts_error (add_child ps args logic sql child_args) ≡ none
  unfolding add_child
  add_child-error ps args logic [] child_args = refl
  add_child-error ps args logic (c ∷ cs) child_args = refl

  after_child :
      (b : Built V) (ps : List Text) (args : List V) (logic : Text) (rest : Parts V → Parts V)
      (o : Option BuildError)
      → ((ps' : Parts V) → parts_error (rest ps') ≡ or_else (parts_error ps') o)
      → parts_error (elim b [
        | failed e ↦ parts_failed e
        | built sql child_args ↦ rest (add_child ps args logic sql child_args)
      ])
        ≡ or_else (error_of b) o
  after_child (failed e) ps args logic rest o k = refl
  after_child (built sql child_args) ps args logic rest o k =
      k (add_child ps args logic sql child_args)
      ∙ ap (λ p. or_else p o) (add_child-error ps args logic sql child_args)

  mutual
    unfolding build_where_condition

    build_where_condition-error :
        (c : WhereCondition V)
        → error_of (build_where_condition as_list c) ≡ first (faults as_list c)
    build_where_condition-error nil_condition = refl
    build_where_condition-error (condition [] op value logic nil) =
        close_condition-error (own_part as_list [] op value) ∙ own_part-error [] op value
    build_where_condition-error (condition [] op value logic (cons c cs)) =
        close_group-error (build_children as_list (cons c cs) (parts [] []))
        ∙ build_children-error (cons c cs) (parts [] [])
    build_where_condition-error (condition (f ∷ fs) op value logic children) =
        close_condition-error (build_children as_list children (own_part as_list (f ∷ fs) op value))
        ∙ build_children-error children (own_part as_list (f ∷ fs) op value)
        ∙ ap (λ o. or_else o (first (faults_of_all as_list children)))
            (own_part-error (f ∷ fs) op value)
        ∙ sym (first-append (own_faults as_list (f ∷ fs) op value) (faults_of_all as_list children))

    build_children-error :
        (cs : WhereConditions V) (ps : Parts V)
        → parts_error (build_children as_list cs ps)
          ≡ or_else (parts_error ps) (first (faults_of_all as_list cs))
    build_children-error nil (parts_failed e) = refl
    build_children-error nil (parts ps args) = refl
    build_children-error (cons c cs) (parts_failed e) = refl
    build_children-error (cons c cs) (parts ps args) =
        after_child (build_where_condition as_list c) ps args (logic_of c)
          (build_children as_list cs) (first (faults_of_all as_list cs)) (build_children-error cs)
        ∙ ap (λ o. or_else o (first (faults_of_all as_list cs))) (build_where_condition-error c)
        ∙ sym (first-append (faults as_list c) (faults_of_all as_list cs))

  -- `Build` gives the error of the first faulty condition of the tree, a condition before its
  -- children, and no error where none is faulty; faulty are the conditions with a field and an
  -- unknown operator, a value that is no list for `IN` and `NOT IN`, and a value that is no list of
  -- two for `BETWEEN`.
  pub build-error : (c : WhereCondition V) → error_of (build as_list c) ≡ first (faults as_list c)
  unfolding build
  build-error nil_condition = refl
  build-error (condition field op value logic children) =
      of_built (build_where_condition as_list (condition field op value logic children))
      ∙ build_where_condition-error (condition field op value logic children)
    where
      of_built :
          (b : Built V)
          → error_of (elim b [
            | failed e ↦ failed e
            | built sql args ↦ if is_empty sql then built [] [] else built sql args
          ])
            ≡ error_of b
      of_built (failed e) = refl
      of_built (built [] args) = refl
      of_built (built (c ∷ cs) args) = refl
