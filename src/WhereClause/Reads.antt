-- ===== src/WhereClause/Reads.antt =====
-- The tree that an address of the store leads to, and how the store grows below one condition.
use Prim.Native.Nat.{max}
use ag_core.Prelude.{
  ℕ, zero, suc, ◌≤◌, ◌<◌, ◌≡◌, refl, ap, ap₂, ◌∙◌, Option, none, some, List, [], ◌∷◌, arith,
  get_elem?,
}
use ag_core.WhereClause.{WhereCondition, WhereConditions, nil_condition, condition, nil, cons}
use ag_core.WhereClause.Chain.{Node, map_conditions, condition_at}

module _ {V : Type 0} where
  -- The address leads to the tree, through addresses from `lo` up to and without `hi`.
  abbrev mutual
    pub Reads : List (Node V) → ℕ → ℕ → Option ℕ → WhereCondition V → Type 0
    Reads nodes lo hi none nil_condition = Unit {0}
    Reads nodes lo hi (some a) nil_condition = ⊥
    Reads nodes lo hi none (condition field op value logic children) = ⊥
    Reads nodes lo hi (some a) (condition field op value logic children) =
        (addresses : List (Option ℕ)) × (lo ≤ a)
        × (a < hi)
        × (get_elem? nodes a
            ≡ some (record {
              field = field;
              operator = op;
              value = value;
              logic = logic;
              children = addresses;
            }))
        × AllRead nodes lo hi addresses children

    pub AllRead : List (Node V) → ℕ → ℕ → List (Option ℕ) → WhereConditions V → Type 0
    AllRead nodes lo hi [] nil = Unit {0}
    AllRead nodes lo hi (a ∷ addresses) nil = ⊥
    AllRead nodes lo hi [] (cons c cs) = ⊥
    AllRead nodes lo hi (a ∷ addresses) (cons c cs) =
        Reads nodes lo hi a c × AllRead nodes lo hi addresses cs

  -- The store changes nothing from `lo` up to `hi`.
  abbrev pub Keeps : List (Node V) → List (Node V) → ℕ → ℕ → Type 0
  Keeps nodes nodes' lo hi = (a : ℕ) → lo ≤ a → a < hi → get_elem? nodes' a ≡ get_elem? nodes a

  mutual
    Reads-kept :
        (nodes nodes' : List (Node V)) (lo lo' hi hi' : ℕ)
        → lo' ≤ lo
        → hi ≤ hi'
        → Keeps nodes nodes' lo hi
        → (o : Option ℕ) (c : WhereCondition V) → Reads nodes lo hi o c
        → Reads nodes' lo' hi' o c
    Reads-kept nodes nodes' lo lo' hi hi' l h k none nil_condition r = tt
    Reads-kept nodes nodes' lo lo' hi hi' l h k (some a) nil_condition r = absurd r
    Reads-kept nodes nodes' lo lo' hi hi' l h k none (condition field op value logic children) r =
        absurd r
    Reads-kept nodes nodes' lo lo' hi hi' l h k (some a) (condition field op value logic children)
          (addresses, p, q, e, r) =
        (
          addresses,
          omega arith,
          omega arith,
          k a p q ∙ e,
          AllRead-kept nodes nodes' lo lo' hi hi' l h k addresses children r,
        )

    AllRead-kept :
        (nodes nodes' : List (Node V)) (lo lo' hi hi' : ℕ)
        → lo' ≤ lo
        → hi ≤ hi'
        → Keeps nodes nodes' lo hi
        → (addresses : List (Option ℕ)) (cs : WhereConditions V) → AllRead nodes lo hi addresses cs
        → AllRead nodes' lo' hi' addresses cs
    AllRead-kept nodes nodes' lo lo' hi hi' l h k [] nil r = tt
    AllRead-kept nodes nodes' lo lo' hi hi' l h k (a ∷ addresses) nil r = absurd r
    AllRead-kept nodes nodes' lo lo' hi hi' l h k [] (cons c cs) r = absurd r
    AllRead-kept nodes nodes' lo lo' hi hi' l h k (a ∷ addresses) (cons c cs) (r, s) = (
      Reads-kept nodes nodes' lo lo' hi hi' l h k a c r,
      AllRead-kept nodes nodes' lo lo' hi hi' l h k addresses cs s,
    )

  pub AllRead-Keeps :
      (nodes nodes' : List (Node V)) (lo lo' hi hi' : ℕ)
      → lo' ≤ lo
      → hi ≤ hi'
      → Keeps nodes nodes' lo hi
      → (addresses : List (Option ℕ)) (cs : WhereConditions V) → AllRead nodes lo hi addresses cs
      → AllRead nodes' lo' hi' addresses cs
  AllRead-Keeps = AllRead-kept

  abbrev mutual
    pub height : WhereCondition V → ℕ
    height nil_condition = 0
    height (condition field op value logic children) = suc (height_of_all children)

    pub height_of_all : WhereConditions V → ℕ
    height_of_all nil = 0
    height_of_all (cons c cs) = max (height c) (height_of_all cs)

  mutual
    unfolding condition_at

    at_Reads :
        (k : ℕ) (nodes : List (Node V)) (lo hi : ℕ) (o : Option ℕ) (c : WhereCondition V)
        → Reads nodes lo hi o c
        → height c ≤ k
        → condition_at k nodes o ≡ c
    at_Reads zero nodes lo hi o nil_condition r h = refl
    at_Reads (suc k) nodes lo hi none nil_condition r h = refl
    at_Reads (suc k) nodes lo hi (some a) nil_condition r h = absurd r
    at_Reads zero nodes lo hi o (condition field op value logic children) r h = absurd (omega arith)
    at_Reads (suc k) nodes lo hi none (condition field op value logic children) r h = absurd r
    at_Reads (suc k) nodes lo hi (some a) (condition field op value logic children)
          (addresses, p, q, e, r) h =
        rw (condition_at, e)
          (ap (condition field op value logic)
            (at_AllRead k nodes lo hi addresses children r (omega arith)))

    at_AllRead :
        (k : ℕ) (nodes : List (Node V)) (lo hi : ℕ) (addresses : List (Option ℕ))
        (cs : WhereConditions V)
        → AllRead nodes lo hi addresses cs
        → height_of_all cs ≤ k
        → map_conditions (condition_at k nodes) addresses ≡ cs
    at_AllRead k nodes lo hi [] nil r h = refl
    at_AllRead k nodes lo hi (a ∷ addresses) nil r h = absurd r
    at_AllRead k nodes lo hi [] (cons c cs) r h = absurd r
    at_AllRead k nodes lo hi (a ∷ addresses) (cons c cs) (r, s) h =
        ap₂ cons (at_Reads k nodes lo hi a c r (omega arith))
          (at_AllRead k nodes lo hi addresses cs s (omega arith))

  pub condition_at-Reads :
      (k : ℕ) (nodes : List (Node V)) (lo hi : ℕ) (o : Option ℕ) (c : WhereCondition V)
      → Reads nodes lo hi o c
      → height c ≤ k
      → condition_at k nodes o ≡ c
  condition_at-Reads = at_Reads
