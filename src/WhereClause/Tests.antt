-- ===== src/WhereClause/Tests.antt =====
-- The theorems on the construction of where clauses at concrete conditions.
use ag_core.Prelude.{
  ℕ, ◌≡◌, refl, true, false, Option, none, some, List, [], ◌∷◌, ◌==◌, if◌then◌else◌, arith, codes,
}
use ag_core.WhereClause.{
  WhereCondition, condition, nil, cons, built, sql_op_eq, sql_op_in, sql_op_between, sql_op_other,
  between_requires_two, sql_logic_and, sql_logic_or, build, in_text, build_in, build_between,
  parenthesize, build_single_condition, own_part, link_logic, close_condition, close_group,
  add_child, build_where_condition, need_parentheses,
}
use ag_core.WhereClause.Columns.{
  build_with_index_check, checked, primary, collect_condition_fields, is_leading_used, check_index,
}
use ag_core.WhereClause.Chain.{
  Node, new_where_clause_builder, add_condition, add_operator, next_or, begin_group, end_group,
  condition_at, build_from,
}
use ag_core.WhereClause.Refine.{
  Items, leaf, nested, no_items, item, chain, chain_tree, chain-Builds,
}
use ag_core.WhereClause.Marks.{marks, IsBalanced, build-AreMarked}
use ag_core.WhereClause.Errors.{error_of, build-error}
use ag_core.WhereClause.Index.{Verdict, build_with_index_check-Verdict}

-- The values 10 and 11 are lists.
abbrev as_list : ℕ → Option (List ℕ)
as_list n = if n == 10 then some (1 ∷ 2 ∷ []) else if n == 11 then some [] else none

abbrev leaf_b : WhereCondition ℕ
leaf_b = condition (codes "b") sql_op_in 10 sql_logic_or nil

abbrev leaf_c : WhereCondition ℕ
leaf_c = condition (codes "c") sql_op_between 10 sql_logic_and nil

-- `a` with the children `b` and a group of `c`.
abbrev sample : WhereCondition ℕ
sample =
    condition (codes "a") sql_op_eq 7 sql_logic_and
      (cons leaf_b (cons (condition [] sql_op_eq 0 [] (cons leaf_c nil)) nil))

abbrev sample_text : List ℕ
sample_text = codes "(a = ? OR b IN (?, ?) AND (c BETWEEN ? AND ?))"

sample_built : build as_list sample ≡ built sample_text (7 ∷ 1 ∷ 2 ∷ 1 ∷ 2 ∷ [])
unfolding build in_text build_in build_between parenthesize build_single_condition own_part
    link_logic close_condition close_group add_child build_where_condition need_parentheses
sample_built = refl

build-AreMarked_example : (marks sample_text ≡ 5) × IsBalanced sample_text
build-AreMarked_example =
    build-AreMarked as_list sample sample_text (7 ∷ 1 ∷ 2 ∷ 1 ∷ 2 ∷ [])
      (refl, refl, ((refl, refl, tt), ((refl, refl, ((refl, refl, tt), tt)), tt))) sample_built

-- The list of `IN` is missing below `a`, and the operator behind it is not known.
abbrev faulty : WhereCondition ℕ
faulty = condition (codes "a") sql_op_eq 7 sql_logic_and (
    cons (condition (codes "c") sql_op_between 11 sql_logic_and nil)
      (cons (condition (codes "d") (sql_op_other (codes "like")) 3 sql_logic_and nil) nil))

build-error_example : error_of (build as_list faulty) ≡ some between_requires_two
build-error_example = build-error as_list faulty

sample_runs : build_where_condition as_list sample ≡ built sample_text (7 ∷ 1 ∷ 2 ∷ 1 ∷ 2 ∷ [])
unfolding in_text build_in build_between parenthesize build_single_condition own_part link_logic
    close_condition close_group add_child build_where_condition need_parentheses
sample_runs = refl

build_with_index_check-Verdict_example :
    Verdict sample sample_text
      (7 ∷ 1 ∷ 2 ∷ 1 ∷ 2 ∷ [])
      (codes "id" ∷ [])
      ((codes "x" ∷ []) ∷ (codes "c" ∷ codes "x" ∷ []) ∷ [])
      (build_with_index_check as_list sample
        (codes "id" ∷ [])
        ((codes "x" ∷ []) ∷ (codes "c" ∷ codes "x" ∷ []) ∷ []))
build_with_index_check-Verdict_example =
    build_with_index_check-Verdict as_list sample sample_text (7 ∷ 1 ∷ 2 ∷ 1 ∷ 2 ∷ [])
      (codes "id" ∷ []) ((codes "x" ∷ []) ∷ (codes "c" ∷ codes "x" ∷ []) ∷ []) sample_runs refl

-- The key counts as used where the text does not name it, since its list is empty.
unused_key :
    build_with_index_check as_list
      (condition
        (codes "name")
        sql_op_eq
        7
        sql_logic_and
        (cons (condition (codes "id") sql_op_in 11 sql_logic_and nil) nil))
      (codes "id" ∷ [])
      []
    ≡ checked (codes "WHERE name = ?") (7 ∷ []) primary
unfolding in_text build_in build_between parenthesize build_single_condition own_part link_logic
    close_condition close_group add_child build_where_condition need_parentheses
    build_with_index_check check_index is_leading_used collect_condition_fields
unused_key = refl

-- `b` or `c`, below `a`, has no parentheses.
unparenthesized :
    build as_list (
      condition (codes "a") sql_op_eq 7 sql_logic_and (
        cons
          (condition
            (codes "b")
            sql_op_eq
            8
            sql_logic_and
            (cons (condition (codes "c") sql_op_eq 9 sql_logic_or nil) nil))
          nil))
    ≡ built (codes "a = ? AND b = ? OR c = ?") (7 ∷ 8 ∷ 9 ∷ [])
unfolding build in_text build_in build_between parenthesize build_single_condition own_part
    link_logic close_condition close_group add_child build_where_condition need_parentheses
unparenthesized = refl

-- `Eq("a", 7).Or().BeginGroup().In("b", …).Or().Eq("c", 9).EndGroup().Eq("d", 3)`, in a store that
-- holds a condition of someone else.
abbrev others : List (Node ℕ)
others =
    record { field = codes "z"; operator = sql_op_eq; value = 1; logic = []; children = [] } ∷ []

abbrev calls : Items ℕ
calls =
    item
      (nested true (
        item (leaf false (codes "b") sql_op_in 10)
          (item (leaf true (codes "c") sql_op_eq 9) no_items)))
      (item (leaf false (codes "d") sql_op_eq 3) no_items)

chain-Builds_example :
    (condition_at 3
        (chain 0 others (codes "a") sql_op_eq 7 calls).nodes
        (chain 0 others (codes "a") sql_op_eq 7 calls).root
      ≡ chain_tree 0 others (codes "a") sql_op_eq 7 calls)
    × ((chain 0 others (codes "a") sql_op_eq 7 calls).group_stack ≡ [])
chain-Builds_example = chain-Builds 0 others (codes "a") sql_op_eq 7 calls 3 (omega arith)

chain_text :
    build as_list (chain_tree 0 others (codes "a") sql_op_eq 7 calls)
    ≡ built (codes "(a = ? OR (b IN (?, ?) OR c = ?) AND d = ?)") (7 ∷ 1 ∷ 2 ∷ 9 ∷ 3 ∷ [])
unfolding build in_text build_in build_between parenthesize build_single_condition own_part
    link_logic close_condition close_group add_child build_where_condition need_parentheses
chain_text = refl

-- A group that begins the chain is the root, and what follows its end is added inside it.
first_group_text :
    build_from as_list 3 (
      add_operator
        (end_group (
          add_operator
            (next_or
              (add_operator (begin_group 0 (new_where_clause_builder [])) (codes "a") sql_op_eq 7))
            (codes "b")
            sql_op_eq
            8))
        (codes "c")
        sql_op_eq
        9)
    ≡ built (codes "(a = ? OR b = ? AND c = ?)") (7 ∷ 8 ∷ 9 ∷ [])
unfolding build in_text build_in build_between parenthesize build_single_condition own_part
    link_logic close_condition close_group add_child build_where_condition need_parentheses
    add_operator add_condition begin_group condition_at
first_group_text = refl
