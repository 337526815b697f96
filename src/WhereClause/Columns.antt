-- ===== src/WhereClause/Columns.antt =====
-- contribute/agdb/conditonwhere/where_clause_builder.go: the columns that a tree of conditions uses,
-- and `BuildWithIndexCheck`.
use ag_core.Prelude.{ℕ, suc, Bool, false, Option, List, [], ◌∷◌, ◌++◌, if◌then◌else◌, codes}
use ag_core.Placeholder.{Text, is_empty}
use ag_core.WhereClause.{
  WhereCondition, WhereConditions, nil_condition, condition, nil, cons, built, failed, BuildError,
  contains_part, build_where_condition,
}

-- `collectConditionFields`. The map is the list of its keys; the order of a map is not specified.
abbrev pub insert_field : Text → List Text → List Text
insert_field f fs = if contains_part f fs then fs else f ∷ fs

abbrev pub insert_fields : List Text → List Text → List Text
insert_fields [] fs = fs
insert_fields (g ∷ gs) fs = insert_fields gs (insert_field g fs)

unfoldable mutual
  pub collect_condition_fields : {V : Type 0} → WhereCondition V → List Text
  collect_condition_fields nil_condition = []
  collect_condition_fields (condition field op value logic children) =
      collect_children children (if is_empty field then [] else insert_field field [])

  pub collect_children : {V : Type 0} → WhereConditions V → List Text → List Text
  collect_children nil fs = fs
  collect_children (cons c cs) fs =
      collect_children cs (insert_fields (collect_condition_fields c) fs)

-- `isPrimaryKeyUsed`, and the test of one index.
unfoldable pub is_leading_used : List Text → List Text → Bool
is_leading_used used [] = false
is_leading_used used (leading_column ∷ columns) = contains_part leading_column used

-- The empty name, `PRIMARY`, or `INDEX_` with a number.
pub data IndexName : Type 0 where
  no_index primary : IndexName
  index : ℕ → IndexName

-- `findMatchingIndex`, from the index with a number on.
unfoldable pub find_matching_index : List Text → List (List Text) → ℕ → IndexName
find_matching_index used [] i = no_index
find_matching_index used (columns ∷ rest) i =
    let later = find_matching_index used rest (suc i) in
    if is_leading_used used columns then index i else later

pub data Checked (V : Type 0) : Type 0 where
  checked : Text → List V → IndexName → Checked V
  not_built : BuildError → Checked V
  no_index_used : List Text → Checked V

-- `BuildWithIndexCheck` of `WhereClauseBuilder`, on its root: what follows the construction.
unfoldable pub check_index :
    {V : Type 0} → Text → List V → List Text → List Text → List (List Text) → Checked V
check_index sql args used primary_key_columns index_columns =
    if is_leading_used used primary_key_columns
    then checked (codes "WHERE " ++ sql) args primary
    else elim (find_matching_index used index_columns 0) [
      | no_index ↦ no_index_used used
      | primary ↦ checked (codes "WHERE " ++ sql) args primary
      | index i ↦ checked (codes "WHERE " ++ sql) args (index i)
    ]

unfoldable pub build_with_index_check :
    {V : Type 0} (as_list : V → Option (List V))
    → WhereCondition V
    → List Text
    → List (List Text)
    → Checked V
build_with_index_check as_list nil_condition primary_key_columns index_columns =
    checked [] [] no_index
build_with_index_check as_list (condition field op value logic children) primary_key_columns
      index_columns =
    elim (build_where_condition as_list (condition field op value logic children)) [
      | failed e ↦ not_built e
      | built sql args ↦
          if is_empty sql
          then checked [] [] no_index
          else check_index sql args
              (collect_condition_fields (condition field op value logic children))
              primary_key_columns index_columns
    ]
