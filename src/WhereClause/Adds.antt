-- ===== src/WhereClause/Adds.antt =====
-- What each call of a chain adds to the store, and what calls in turn add.
use ag_core.Prelude.{
  ℕ, ◌≡◌, refl, sym, ap, ap₂, ◌∙◌, false, Option, none, some, List, [], ◌∷◌, ◌++◌, if◌then◌else◌,
  length, get_elem?, get_elem?-snoc,
}
use mathlib.Core.Path.{subst}
use ag_core.Placeholder.{Text, is_empty}
use ag_core.WhereClause.{
  SqlOperator, sql_op_other, WhereCondition, WhereConditions, condition, nil, cons,
}
use ag_core.WhereClause.Chain.{
  Node, Builder, or_and, update_node, append_child, logic_at, target, attach, add_condition, alloc,
  add_operator, end_group, group_node, begin_group,
}
use ag_core.WhereClause.Grown.{
  with_children, Grown, Grown-append, get_elem?-lt, pushed, Grown-nested, Grown-leaf,
}

-- Where the chain stands: at the condition `p`.
pub record At {V : Type 0} (b : Builder V) (p : ℕ) (n : Node V) : Type 0 where
  pub here : target b ≡ some p
  pub found : get_elem? b.nodes p ≡ some n

-- What calls that start at `p` do.
pub record Adds {V : Type 0} (b b' : Builder V) (p : ℕ) (n : Node V) (cs : WhereConditions V)
    : Type 0 where
  pub grown : Grown b.nodes b'.nodes p n cs
  pub same_root : b'.root ≡ b.root
  pub same_stack : b'.group_stack ≡ b.group_stack
  pub idle : b'.pending_logic ≡ []

or_and_nonempty : (logic : Text) → is_empty (or_and logic) ≡ false
or_and_nonempty [] = refl
or_and_nonempty (c ∷ cs) = refl

module _ {V : Type 0} where
  attach_at :
      (b : Builder V) (c : Option ℕ) (p : ℕ)
      → target b ≡ some p
      → attach b c ≡ record b { nodes = update_node (append_child c) p b.nodes }
  attach_at b c p e =
      ap
        (λ o. elim o [
          | none ↦ record b { root = c }
          | some t ↦ record b { nodes = update_node (append_child c) t b.nodes }
        ])
        e

  -- `AddCondition` does not touch the logic that the condition has.
  logic_kept :
      (nodes nodes' : List (Node V)) (m : Node V)
      → is_empty m.logic ≡ false
      → (if is_empty (logic_at (nodes ++ m ∷ []) (length nodes)) then nodes' else nodes ++ m ∷ [])
        ≡ nodes ++ m ∷ []
  logic_kept nodes nodes' m h =
      ap (λ t. if t then nodes' else nodes ++ m ∷ [])
        (ap (λ o. is_empty (elim o [ none ↦ [] | some n ↦ n.logic ])) (get_elem?-snoc nodes m) ∙ h)

  abbrev pub operator_node : Text → SqlOperator → V → Text → Node V
  operator_node field op value logic = record {
    field = field;
    operator = op;
    value = value;
    logic = logic;
    children = [];
  }

  pub add_operator_eq :
      (b : Builder V) (field : Text) (op : SqlOperator) (value : V)
      → add_operator b field op value
        ≡ attach
            (record b {
              nodes = b.nodes ++ operator_node field op value (or_and b.pending_logic) ∷ [];
              pending_logic = [];
            })
            (some (length b.nodes))
  unfolding add_operator add_condition
  add_operator_eq b field op value =
      ap (λ l. attach (record b { nodes = l; pending_logic = [] }) (some (length b.nodes)))
        (logic_kept b.nodes _ (operator_node field op value (or_and b.pending_logic))
          (or_and_nonempty b.pending_logic))

  pub add_operator-Adds :
      (b : Builder V) (p : ℕ) (n : Node V) (field : Text) (op : SqlOperator) (value : V)
      → At b p n
      → Adds b
          (add_operator b field op value)
          p
          n
          (cons (condition field op value (or_and b.pending_logic) nil) nil)
  add_operator-Adds b p n field op value h =
      subst (λ x. Adds b x p n (cons (condition field op value (or_and b.pending_logic) nil) nil))
        (sym (add_operator_eq b field op value ∙ attach_at _ (some (length b.nodes)) p h.here))
        (record {
          grown =
              Grown-leaf b.nodes (operator_node field op value (or_and b.pending_logic)) p n h.found
                refl;
          same_root = refl;
          same_stack = refl;
          idle = refl;
        })

  -- Behind `BeginGroup`.
  abbrev pub begun : V → Builder V → ℕ → Builder V
  begun nil_value b p = record b {
    nodes = pushed b.nodes (group_node nil_value (or_and b.pending_logic) []) p;
    pending_logic = [];
    group_stack = length b.nodes ∷ b.group_stack;
  }

  pub begin_group_eq :
      (nil_value : V) (b : Builder V) (p : ℕ)
      → target b ≡ some p
      → begin_group nil_value b ≡ begun nil_value b p
  unfolding begin_group
  begin_group_eq nil_value b p e =
      ap {A = Builder V} {B = Builder V}
        (λ x. record x { group_stack = length b.nodes ∷ x.group_stack })
        (attach_at (alloc b (group_node nil_value (or_and b.pending_logic) []))
          (some (length b.nodes)) p e)

  end_group_eq :
      (b : Builder V) (g : ℕ) (gs : List ℕ)
      → b.group_stack ≡ g ∷ gs
      → end_group b ≡ record b { group_stack = gs }
  end_group_eq b g gs e = ap (λ l. elim l [ [] ↦ b | g ∷ gs ↦ record b { group_stack = gs } ]) e

  pub end_group-Adds :
      (nil_value : V) (b b' : Builder V) (p : ℕ) (n : Node V) (cs : WhereConditions V)
      → At b p n
      → Adds
          (begun nil_value b p)
          b'
          (length b.nodes)
          (group_node nil_value (or_and b.pending_logic) [])
          cs
      → Adds b
          (end_group b')
          p
          n
          (cons (condition [] (sql_op_other []) nil_value (or_and b.pending_logic) cs) nil)
  end_group-Adds nil_value b b' p n cs h g =
      subst
        (λ x.
          Adds b x p n
            (cons (condition [] (sql_op_other []) nil_value (or_and b.pending_logic) cs) nil))
        (sym (end_group_eq b' (length b.nodes) b.group_stack g.same_stack))
        (record {
          grown =
              Grown-nested b.nodes (group_node nil_value (or_and b.pending_logic) []) p n h.found
                b'.nodes cs refl g.grown;
          same_root = g.same_root;
          same_stack = refl;
          idle = g.idle;
        })

  target_eq :
      (b b' : Builder V) → b'.root ≡ b.root → b'.group_stack ≡ b.group_stack → target b' ≡ target b
  target_eq b b' e f = ap₂ (λ r l. elim l [ [] ↦ r | g ∷ gs ↦ some g ]) e f

  pub Adds-append :
      (b₁ b₂ b₃ : Builder V) (p : ℕ) (n : Node V) (c : WhereCondition V) (ds : WhereConditions V)
      → At b₁ p n
      → Adds b₁ b₂ p n (cons c nil)
      → ((m : Node V) → At b₂ p m → Adds b₂ b₃ p m ds)
      → Adds b₁ b₃ p n (cons c ds)
  Adds-append b₁ b₂ b₃ p n c ds h g k =
      let m = with_children n g.grown.fresh in
      let g' = k m (record {
        here = target_eq b₁ b₂ g.same_root g.same_stack ∙ h.here;
        found = g.grown.parent;
      }) in
      record {
        grown =
            Grown-append b₁.nodes b₂.nodes b₃.nodes p n (cons c nil) ds
              (get_elem?-lt b₁.nodes p n h.found) g.grown g'.grown;
        same_root = g'.same_root ∙ g.same_root;
        same_stack = g'.same_stack ∙ g.same_stack;
        idle = g'.idle;
      }
