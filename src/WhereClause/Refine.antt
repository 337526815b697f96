-- ===== src/WhereClause/Refine.antt =====
-- A chain of calls on `WhereClauseBuilder` and the tree that it builds.
use ag_core.Prelude.{
  ℕ, ◌≤◌, ◌≡◌, refl, sym, ap, ◌∙◌, Bool, true, false, some, List, [], ◌∷◌, ◌++◌, if◌then◌else◌,
  arith, length, length-append, get_elem?-snoc,
}
use mathlib.Core.Path.{subst}
use ag_core.Placeholder.{Text}
use ag_core.WhereClause.{
  SqlOperator, sql_op_other, sql_logic_and, sql_logic_or, WhereCondition, WhereConditions,
  condition, nil, cons,
}
use ag_core.WhereClause.Chain.{
  Node, Builder, new_where_clause_builder, or_and, add_operator, next_or, end_group, group_node,
  begin_group, condition_at,
}
use ag_core.WhereClause.Reads.{Reads, AllRead-Keeps, height, condition_at-Reads}
use ag_core.WhereClause.Grown.{Grown-nil, pushed_new}
use ag_core.WhereClause.Adds.{
  At, Adds, operator_node, add_operator_eq, add_operator-Adds, begun, begin_group_eq,
  end_group-Adds, Adds-append,
}

module _ (V : Type 0) where
  -- What a chain asks for behind its first condition: a condition or a group, each with the answer
  -- whether `Or` is called before it.
  mutual
    pub data Item : Type 0 where
      leaf : Bool → Text → SqlOperator → V → Item
      nested : Bool → Items → Item

    pub data Items : Type 0 where
      no_items : Items
      item : Item → Items → Items

module _ {V : Type 0} (nil_value : V) where
  -- The chain of calls.
  abbrev pub with_logic : Bool → Builder V → Builder V
  with_logic or b = if or then next_or b else b

  abbrev mutual
    pub call_item : Item V → Builder V → Builder V
    call_item (leaf or field op value) b = add_operator (with_logic or b) field op value
    call_item (nested or items) b =
        end_group (call_items items (begin_group nil_value (with_logic or b)))

    pub call_items : Items V → Builder V → Builder V
    call_items no_items b = b
    call_items (item i is) b = call_items is (call_item i b)

  -- The tree.
  abbrev pub logic_for : Bool → Text
  logic_for or = if or then sql_logic_or else sql_logic_and

  abbrev mutual
    pub item_condition : Item V → WhereCondition V
    item_condition (leaf or field op value) = condition field op value (logic_for or) nil
    item_condition (nested or items) =
        condition [] (sql_op_other []) nil_value (logic_for or) (item_conditions items)

    pub item_conditions : Items V → WhereConditions V
    item_conditions no_items = nil
    item_conditions (item i is) = cons (item_condition i) (item_conditions is)

module _ {V : Type 0} (nil_value : V) where
  with_logic-At :
      (or : Bool) (b : Builder V) (p : ℕ) (n : Node V)
      → At b p n
      → At (with_logic nil_value or b) p n
  with_logic-At true b p n h = record { here = h.here; found = h.found }
  with_logic-At false b p n h = h

  with_logic-Adds :
      (or : Bool) (b b' : Builder V) (p : ℕ) (n : Node V) (cs : WhereConditions V)
      → Adds (with_logic nil_value or b) b' p n cs
      → Adds b b' p n cs
  with_logic-Adds true b b' p n cs g = record {
    grown = g.grown;
    same_root = g.same_root;
    same_stack = g.same_stack;
    idle = g.idle;
  }
  with_logic-Adds false b b' p n cs g = g

  with_logic_eq :
      (or : Bool) (b : Builder V)
      → b.pending_logic ≡ []
      → or_and (with_logic nil_value or b).pending_logic ≡ logic_for nil_value or
  with_logic_eq true b h = refl
  with_logic_eq false b h = ap or_and h

  mutual
    item-Adds :
        (i : Item V) (b : Builder V) (p : ℕ) (n : Node V)
        → At b p n
        → b.pending_logic ≡ []
        → Adds b (call_item nil_value i b) p n (cons (item_condition nil_value i) nil)
    item-Adds (leaf or field op value) b p n h e = with_logic-Adds or b _ p n _ (
        subst
          (λ l.
            Adds (with_logic nil_value or b)
              (add_operator (with_logic nil_value or b) field op value) p n
              (cons (condition field op value l nil) nil))
          (with_logic_eq or b e)
          (add_operator-Adds (with_logic nil_value or b) p n field op value
            (with_logic-At or b p n h)))
    item-Adds (nested or items) b p n h e =
        let b' = with_logic nil_value or b in
        let h' = with_logic-At or b p n h in
        with_logic-Adds or b _ p n _ (
          subst
            (λ l. Adds b' (end_group (call_items nil_value items (begin_group nil_value b'))) p n (
              cons (condition [] (sql_op_other []) nil_value l (item_conditions nil_value items))
                nil))
            (with_logic_eq or b e)
            (subst
              (λ x. Adds b' (end_group (call_items nil_value items x)) p n (
                cons
                  (condition [] (sql_op_other []) nil_value (or_and b'.pending_logic)
                    (item_conditions nil_value items))
                  nil))
              (sym (begin_group_eq nil_value b' p h'.here))
              (end_group-Adds nil_value b' (call_items nil_value items (begun nil_value b' p)) p n
                (item_conditions nil_value items) h'
                (items-Adds items (begun nil_value b' p) (length b'.nodes)
                  (group_node nil_value (or_and b'.pending_logic) [])
                  (record {
                    here = refl;
                    found =
                        pushed_new b'.nodes (group_node nil_value (or_and b'.pending_logic) []) p n
                          h'.found;
                  })
                  refl))))

    items-Adds :
        (is : Items V) (b : Builder V) (p : ℕ) (n : Node V)
        → At b p n
        → b.pending_logic ≡ []
        → Adds b (call_items nil_value is b) p n (item_conditions nil_value is)
    items-Adds no_items b p n h e = record {
      grown = Grown-nil b.nodes p n h.found;
      same_root = refl;
      same_stack = refl;
      idle = e;
    }
    items-Adds (item i is) b p n h e =
        let g = item-Adds i b p n h e in
        Adds-append b (call_item nil_value i b) (call_items nil_value is (call_item nil_value i b))
          p n (item_condition nil_value i) (item_conditions nil_value is) h g
          (λ m k. items-Adds is (call_item nil_value i b) p m k g.idle)

module _ {V : Type 0} (nil_value : V) (nodes : List (Node V)) (field : Text) (op : SqlOperator)
    (value : V) (items : Items V) where
  abbrev pub chain_tree : WhereCondition V
  chain_tree = condition field op value sql_logic_and (item_conditions nil_value items)

  abbrev pub chain : Builder V
  chain = call_items nil_value items (add_operator (new_where_clause_builder nodes) field op value)

  abbrev first_node : Node V
  first_node = operator_node field op value sql_logic_and

  abbrev first : Builder V
  first = record {
    nodes = nodes ++ first_node ∷ [];
    root = some (length nodes);
    pending_logic = [];
    group_stack = [];
  }

  chain_eq : chain ≡ call_items nil_value items first
  chain_eq =
      ap (call_items nil_value items)
        (add_operator_eq (new_where_clause_builder nodes) field op value)

  chain-Adds :
      Adds first
        (call_items nil_value items first)
        (length nodes)
        first_node
        (item_conditions nil_value items)
  chain-Adds =
      items-Adds nil_value items first (length nodes) first_node
        (record { here = refl; found = get_elem?-snoc nodes first_node }) refl

  chain-Reads :
      Reads
        (call_items nil_value items first).nodes
        (length nodes)
        (length (call_items nil_value items first).nodes)
        (some (length nodes))
        chain_tree
  chain-Reads =
      let g = chain-Adds.grown in
      (
        g.fresh,
        omega arith,
        omega (arith, g.longer, length-append nodes (first_node ∷ [])),
        g.parent,
        AllRead-Keeps _ _ (length first.nodes) (length nodes) _ _
            (omega (arith, length-append nodes (first_node ∷ []))) (omega arith) (λ a q f. refl)
            g.fresh (item_conditions nil_value items) g.reads,
      )

  -- For a chain of calls on a new builder that begins with a condition and whose groups are ended,
  -- and for any store before it: with a bound on the depth that is at least the height of the tree,
  -- what the root leads to in the store is the tree of the chain, the first condition with the
  -- conditions and groups behind it as its children in their order, each with the logic that is
  -- called before it; no group is open at the end.
  pub chain-Builds :
      (k : ℕ)
      → height chain_tree ≤ k
      → (condition_at k chain.nodes chain.root ≡ chain_tree) × (chain.group_stack ≡ [])
  chain-Builds k h = (
    ap (λ b. condition_at k b.nodes b.root) chain_eq
        ∙ ap (condition_at k (call_items nil_value items first).nodes) (chain-Adds.same_root)
        ∙ condition_at-Reads k (call_items nil_value items first).nodes (length nodes)
            (length (call_items nil_value items first).nodes) (some (length nodes)) chain_tree
            chain-Reads h,
    ap (λ b. b.group_stack) chain_eq ∙ chain-Adds.same_stack,
  )
