-- ===== src/WhereClause.antt =====
-- contribute/agdb/conditonwhere/where_clause_builder.go: a tree of conditions and the SQL text with
-- its arguments that is built from it. A value is an `interface{}`: its type and the test whether it
-- is a `[]interface{}` are parameters.
pub mod Closed
pub mod Chain
pub mod Reads
pub mod Grown
pub mod Adds
pub mod Refine
pub mod Marks
pub mod Errors
pub mod Columns
pub mod Index
mod Tests
use ag_core.Prelude.{
  ℕ, suc, Bool, true, false, ◌&&◌, ◌||◌, Option, none, some, List, [], ◌∷◌, ◌++◌, ◌==◌,
  if◌then◌else◌, length, replicate, codes, join,
}
use ag_core.Placeholder.{Text, is_empty, text_eq}

-- `SQLOperator`
pub data SqlOperator : Type 0 where
  sql_op_eq sql_op_neq sql_op_gt sql_op_lt sql_op_gte sql_op_lte sql_op_in sql_op_not_in
        sql_op_between :
      SqlOperator
  sql_op_other : Text → SqlOperator

abbrev pub sql_logic_and : Text
sql_logic_and = codes "AND"

abbrev pub sql_logic_or : Text
sql_logic_or = codes "OR"

pub data BuildError : Type 0 where
  in_requires_list not_in_requires_list between_requires_two : BuildError
  unsupported_operator : Text → BuildError

module _ (V : Type 0) where
  -- `WhereCondition`: a nil pointer, or the field, the operator, the value, the logic and the
  -- children.
  mutual
    pub data WhereCondition : Type 0 where
      nil_condition : WhereCondition
      condition : Text → SqlOperator → V → Text → WhereConditions → WhereCondition

    pub data WhereConditions : Type 0 where
      nil : WhereConditions
      cons : WhereCondition → WhereConditions → WhereConditions

  -- The text and the arguments, or the error.
  pub data Built : Type 0 where
    built : Text → List V → Built
    failed : BuildError → Built

  -- The local `sqlParts` and `args`, or the error.
  pub data Parts : Type 0 where
    parts : List Text → List V → Parts
    parts_failed : BuildError → Parts

-- `needParentheses`
abbrev pub contains_part : Text → List Text → Bool
contains_part p [] = false
contains_part p (q ∷ qs) = text_eq q p || contains_part p qs

unfoldable pub need_parentheses : List Text → Bool
need_parentheses ps = contains_part sql_logic_or ps && contains_part sql_logic_and ps

unfoldable pub parenthesize : Text → Text
parenthesize sql = codes "(" ++ (sql ++ codes ")")

-- The logic in front of a part that is not the first.
unfoldable pub link_logic : List Text → Text → List Text
link_logic [] logic = []
link_logic (p ∷ ps) logic = p ∷ ps ++ (if is_empty logic then sql_logic_and else logic) ∷ []

module _ {V : Type 0} where
  -- The text of `IN` and `NOT IN`.
  unfoldable pub in_text : Text → Text → List V → Text
  in_text field name values =
      field ++ (name ++ parenthesize (join (codes ", ") (replicate (length values) (codes "?"))))

  -- `IN` and `NOT IN`, on the values if the value is a list.
  unfoldable pub build_in : Text → Text → BuildError → Option (List V) → Built V
  build_in field name e none = failed e
  build_in field name e (some []) = built [] []
  build_in field name e (some (v ∷ vs)) = built (in_text field name (v ∷ vs)) (v ∷ vs)

  -- `BETWEEN`, on the values if the value is a list.
  unfoldable pub build_between : Text → Option (List V) → Built V
  build_between field none = failed between_requires_two
  build_between field (some values) =
      if length values == 2
      then built (field ++ codes " BETWEEN ? AND ?") values
      else failed between_requires_two

  abbrev pub has_children : WhereConditions V → Bool
  has_children nil = false
  has_children (cons c cs) = true

  abbrev pub logic_of : WhereCondition V → Text
  logic_of nil_condition = []
  logic_of (condition field op value logic children) = logic

  -- The end of `buildWhereCondition`.
  unfoldable pub close_condition : Parts V → Built V
  close_condition (parts_failed e) = failed e
  close_condition (parts [] args) = built [] []
  close_condition (parts (p ∷ ps) args) =
      let sql = join (codes " ") (p ∷ ps) in
      built (if need_parentheses (p ∷ ps) then parenthesize sql else sql) args

  -- The end of `buildNestedGroup`.
  unfoldable pub close_group : Parts V → Built V
  close_group (parts_failed e) = failed e
  close_group (parts [] args) = built [] []
  close_group (parts (p ∷ ps) args) = built (parenthesize (join (codes " ") (p ∷ ps))) args

  -- One round of the loops over the children.
  unfoldable pub add_child : List Text → List V → Text → Text → List V → Parts V
  add_child ps args logic [] child_args = parts ps args
  add_child ps args logic (c ∷ cs) child_args =
      parts (link_logic ps logic ++ (c ∷ cs) ∷ []) (args ++ child_args)

module _ {V : Type 0} (as_list : V → Option (List V)) where
  -- `buildSingleCondition`
  unfoldable pub build_single_condition : Text → SqlOperator → V → Built V
  build_single_condition [] op value = built [] []
  build_single_condition (c ∷ cs) sql_op_eq value = built (c ∷ cs ++ codes " = ?") (value ∷ [])
  build_single_condition (c ∷ cs) sql_op_neq value = built (c ∷ cs ++ codes " != ?") (value ∷ [])
  build_single_condition (c ∷ cs) sql_op_gt value = built (c ∷ cs ++ codes " > ?") (value ∷ [])
  build_single_condition (c ∷ cs) sql_op_lt value = built (c ∷ cs ++ codes " < ?") (value ∷ [])
  build_single_condition (c ∷ cs) sql_op_gte value = built (c ∷ cs ++ codes " >= ?") (value ∷ [])
  build_single_condition (c ∷ cs) sql_op_lte value = built (c ∷ cs ++ codes " <= ?") (value ∷ [])
  build_single_condition (c ∷ cs) sql_op_in value =
      build_in (c ∷ cs) (codes " IN ") in_requires_list (as_list value)
  build_single_condition (c ∷ cs) sql_op_not_in value =
      build_in (c ∷ cs) (codes " NOT IN ") not_in_requires_list (as_list value)
  build_single_condition (c ∷ cs) sql_op_between value = build_between (c ∷ cs) (as_list value)
  build_single_condition (c ∷ cs) (sql_op_other t) value = failed (unsupported_operator t)

  -- `buildWhereCondition` before its loop: the part of the condition itself.
  unfoldable pub own_part : Text → SqlOperator → V → Parts V
  own_part field op value = elim (build_single_condition field op value) [
    | failed e ↦ parts_failed e
    | built sql args ↦ if is_empty sql then parts [] [] else parts (sql ∷ []) args
  ]

  -- `buildWhereCondition` with `buildNestedGroup`, and the loop over the children that both have.
  unfoldable mutual
    pub build_where_condition : WhereCondition V → Built V
    build_where_condition nil_condition = built [] []
    build_where_condition (condition field op value logic children) =
        if is_empty field && has_children children
        then close_group (build_children children (parts [] []))
        else close_condition (build_children children (own_part field op value))

    pub build_children : WhereConditions V → Parts V → Parts V
    build_children nil ps = ps
    build_children (cons c cs) (parts_failed e) = parts_failed e
    build_children (cons c cs) (parts ps args) = elim (build_where_condition c) [
      | failed e ↦ parts_failed e
      | built sql child_args ↦ build_children cs (add_child ps args (logic_of c) sql child_args)
    ]

  -- `Build` of `WhereClauseBuilder`, on its root.
  unfoldable pub build : WhereCondition V → Built V
  build nil_condition = built [] []
  build (condition field op value logic children) =
      elim (build_where_condition (condition field op value logic children)) [
        | failed e ↦ failed e
        | built sql args ↦ if is_empty sql then built [] [] else built sql args
      ]
