-- ===== src/WhereClause/Chain.antt =====
-- contribute/agdb/conditonwhere/where_clause_builder.go: the methods of `WhereClauseBuilder` that add
-- conditions. The conditions that pointers lead to are a store: an address is an index of its list,
-- and `none` is nil. A method with an address outside the store does not occur.
use ag_core.Prelude.{
  ℕ, zero, suc, Option, none, some, List, [], ◌∷◌, ◌++◌, if◌then◌else◌, length, get_elem?, set,
}
use ag_core.Placeholder.{Text, is_empty}
use ag_core.WhereClause.{
  SqlOperator, sql_op_in, sql_op_not_in, sql_op_between, sql_op_other, sql_logic_and, sql_logic_or,
  WhereCondition, WhereConditions, nil_condition, condition, nil, cons, build, Built,
}

-- `WhereCondition` behind a pointer.
pub record Node (V : Type 0) : Type 0 where
  pub field : Text
  pub operator : SqlOperator
  pub value : V
  pub logic : Text
  pub children : List (Option ℕ)

-- `WhereClauseBuilder` with the store; the group that is begun last is the first of the stack.
pub record Builder (V : Type 0) : Type 0 where
  pub nodes : List (Node V)
  pub root : Option ℕ
  pub pending_logic : Text
  pub group_stack : List ℕ

-- The logic for the next condition where none is pending.
abbrev pub or_and : Text → Text
or_and logic = if is_empty logic then sql_logic_and else logic

module _ {V : Type 0} where
  -- `NewWhereClauseBuilder`
  abbrev pub new_where_clause_builder : List (Node V) → Builder V
  new_where_clause_builder nodes = record {
    nodes = nodes;
    root = none;
    pending_logic = [];
    group_stack = [];
  }

  abbrev pub update_node : (Node V → Node V) → ℕ → List (Node V) → List (Node V)
  update_node f a nodes = elim (get_elem? nodes a) [ none ↦ nodes | some n ↦ set nodes a (f n) ]

  abbrev pub append_child : Option ℕ → Node V → Node V
  append_child c n = record n { children = n.children ++ c ∷ [] }

  abbrev pub set_logic : Text → Node V → Node V
  set_logic logic n = record n { logic = logic }

  abbrev pub logic_at : List (Node V) → ℕ → Text
  logic_at nodes a = elim (get_elem? nodes a) [ none ↦ [] | some n ↦ n.logic ]

  -- The local `target`.
  abbrev pub target : Builder V → Option ℕ
  target b = elim b.group_stack [ [] ↦ b.root | g ∷ gs ↦ some g ]

  -- The end of `AddCondition` and the middle of `BeginGroup`.
  abbrev pub attach : Builder V → Option ℕ → Builder V
  attach b cond = elim (target b) [
    | none ↦ record b { root = cond }
    | some t ↦ record b { nodes = update_node (append_child cond) t b.nodes }
  ]

  -- The logic of the innermost group that is open.
  abbrev pub group_logic : Builder V → Text
  group_logic b = elim b.group_stack [ [] ↦ [] | g ∷ gs ↦ logic_at b.nodes g ]

  -- `AddCondition`
  unfoldable pub add_condition : Builder V → Option ℕ → Builder V
  add_condition b none = attach (record b { pending_logic = [] }) none
  add_condition b (some a) =
      let logic = or_and (if is_empty b.pending_logic then group_logic b else b.pending_logic) in
      let nodes =
        if is_empty (logic_at b.nodes a)
        then update_node (set_logic logic) a b.nodes
        else b.nodes in
      attach (record b { nodes = nodes; pending_logic = [] }) (some a)

  -- `AddConditions`
  abbrev pub add_conditions : Builder V → List (Option ℕ) → Builder V
  add_conditions b [] = b
  add_conditions b (c ∷ cs) = add_conditions (add_condition b c) cs

  -- `SetRoot`
  abbrev pub set_root : Builder V → Option ℕ → Builder V
  set_root b cond = record b { root = cond }

  -- A new condition at the end of the store.
  abbrev pub alloc : Builder V → Node V → Builder V
  alloc b n = record b { nodes = b.nodes ++ n ∷ []; pending_logic = [] }

  -- `Eq`, `Neq`, `Gt`, `Lt`, `Gte` and `Lte`, and the end of `In`, `NotIn` and `Between`.
  unfoldable pub add_operator : Builder V → Text → SqlOperator → V → Builder V
  add_operator b field op value =
      add_condition
        (alloc b (record {
          field = field;
          operator = op;
          value = value;
          logic = or_and b.pending_logic;
          children = [];
        }))
        (some (length b.nodes))

  -- `Or` and `And`
  abbrev pub next_or : Builder V → Builder V
  next_or b = record b { pending_logic = sql_logic_or }

  abbrev pub next_and : Builder V → Builder V
  next_and b = record b { pending_logic = sql_logic_and }

  -- `EndGroup`
  abbrev pub end_group : Builder V → Builder V
  end_group b = elim b.group_stack [ [] ↦ b | g ∷ gs ↦ record b { group_stack = gs } ]

  -- The values of a condition that sets none: the nil interface.
  module _ (nil_value : V) where
    abbrev pub group_node : Text → List (Option ℕ) → Node V
    group_node logic conditions = record {
      field = [];
      operator = sql_op_other [];
      value = nil_value;
      logic = logic;
      children = conditions;
    }

    -- `Group`
    unfoldable pub group : Builder V → List (Option ℕ) → Builder V
    group b [] = b
    group b (c ∷ cs) =
        add_condition (alloc b (group_node (or_and b.pending_logic) (c ∷ cs)))
          (some (length b.nodes))

    -- `BeginGroup`
    unfoldable pub begin_group : Builder V → Builder V
    begin_group b =
        let b' =
          attach (alloc b (group_node (or_and b.pending_logic) [])) (some (length b.nodes)) in
        record b' { group_stack = length b.nodes ∷ b'.group_stack }

    abbrev pub set_logics : Text → List ℕ → List (Node V) → List (Node V)
    set_logics logic [] nodes = nodes
    set_logics logic (a ∷ as') nodes = set_logics logic as' (update_node (set_logic logic) a nodes)

    abbrev pub pointers : List ℕ → List (Option ℕ)
    pointers [] = []
    pointers (a ∷ as') = some a ∷ pointers as'

    -- `AndGroup` and `OrGroup`, of conditions that are not nil.
    unfoldable pub and_group : Builder V → List ℕ → Builder V
    and_group b conditions =
        group (record b { nodes = set_logics sql_logic_and conditions b.nodes })
          (pointers conditions)

    unfoldable pub or_group : Builder V → List ℕ → Builder V
    or_group b [] = b
    or_group b (a ∷ as') =
        group
          (record b {
            nodes = set_logics sql_logic_or (a ∷ as') b.nodes;
            pending_logic = sql_logic_or;
          })
          (pointers (a ∷ as'))

  -- The conditions that the addresses lead to. The first argument bounds the depth.
  abbrev pub map_conditions : (Option ℕ → WhereCondition V) → List (Option ℕ) → WhereConditions V
  map_conditions f [] = nil
  map_conditions f (c ∷ cs) = cons (f c) (map_conditions f cs)

  unfoldable pub condition_at : ℕ → List (Node V) → Option ℕ → WhereCondition V
  condition_at zero nodes o = nil_condition
  condition_at (suc k) nodes none = nil_condition
  condition_at (suc k) nodes (some a) = elim (get_elem? nodes a) [
    | none ↦ nil_condition
    | some n ↦
        condition n.field n.operator n.value n.logic
          (map_conditions (condition_at k nodes) n.children)
  ]

-- `In`, `NotIn` and `Between`; `of_list` makes a value of a `[]interface{}`.
module _ {V : Type 0} (of_list : List V → V) where
  abbrev pub add_in : Builder V → Text → List V → Builder V
  add_in b field values = add_operator b field sql_op_in (of_list values)

  abbrev pub add_not_in : Builder V → Text → List V → Builder V
  add_not_in b field values = add_operator b field sql_op_not_in (of_list values)

  abbrev pub add_between : Builder V → Text → V → V → Builder V
  add_between b field low high = add_operator b field sql_op_between (of_list (low ∷ high ∷ []))

-- `Build` of `WhereClauseBuilder`, on the store.
abbrev pub build_from : {V : Type 0} (as_list : V → Option (List V)) → ℕ → Builder V → Built V
build_from as_list k b = build as_list (condition_at k b.nodes b.root)
