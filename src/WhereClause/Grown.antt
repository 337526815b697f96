-- ===== src/WhereClause/Grown.antt =====
-- The store before and behind conditions that are added below one condition.
use ag_core.Prelude.{
  ℕ, zero, suc, ◌≤◌, ◌<◌, ◌≡◌, ◌≢◌, refl, sym, ap, ◌∙◌, Option, none, some, List, [], ◌∷◌, ◌++◌,
  arith, length, length-append, length-set, get_elem?, set, get_elem?-append_lt, get_elem?-snoc,
  get_elem?-set_same, get_elem?-set_other, append-nil, append_assoc,
}
use ag_core.WhereClause.{WhereConditions, condition, nil, cons}
use ag_core.WhereClause.Chain.{Node, update_node, append_child}
use ag_core.WhereClause.Reads.{AllRead, AllRead-Keeps}

module _ {V : Type 0} where
  abbrev pub with_children : Node V → List (Option ℕ) → Node V
  with_children n fresh = record n { children = n.children ++ fresh }

  -- The store grows by the conditions below `p`, and nothing else of it changes.
  pub record Grown (nodes nodes' : List (Node V)) (p : ℕ) (n : Node V) (cs : WhereConditions V)
      : Type 0 where
    pub fresh : List (Option ℕ)
    pub longer : length nodes ≤ length nodes'
    pub others : (a : ℕ) → a < length nodes → a ≢ p → get_elem? nodes' a ≡ get_elem? nodes a
    pub parent : get_elem? nodes' p ≡ some (with_children n fresh)
    pub reads : AllRead nodes' (length nodes) (length nodes') fresh cs

  abbrev followed_by : WhereConditions V → WhereConditions V → WhereConditions V
  followed_by nil ds = ds
  followed_by (cons c cs) ds = cons c (followed_by cs ds)

  AllRead-append :
      (nodes : List (Node V)) (lo hi : ℕ) (xs ys : List (Option ℕ)) (cs ds : WhereConditions V)
      → AllRead nodes lo hi xs cs
      → AllRead nodes lo hi ys ds
      → AllRead nodes lo hi (xs ++ ys) (followed_by cs ds)
  AllRead-append nodes lo hi [] ys nil ds r s = s
  AllRead-append nodes lo hi (x ∷ xs) ys nil ds r s = absurd r
  AllRead-append nodes lo hi [] ys (cons c cs) ds r s = absurd r
  AllRead-append nodes lo hi (x ∷ xs) ys (cons c cs) ds (r, t) s =
      (r, AllRead-append nodes lo hi xs ys cs ds t s)

  pub Grown-nil :
      (nodes : List (Node V)) (p : ℕ) (n : Node V)
      → get_elem? nodes p ≡ some n
      → Grown nodes nodes p n nil
  Grown-nil nodes p n e = record {
    fresh = [];
    longer = omega arith;
    others = λ a h g. refl;
    parent = e ∙ ap (λ l. some (record n { children = l })) (sym (append-nil n.children));
    reads = tt;
  }

  -- First the one growth, then the other.
  pub Grown-append :
      (ns ms ks : List (Node V)) (p : ℕ) (n : Node V) (cs ds : WhereConditions V)
      → p < length ns
      → (g : Grown ns ms p n cs) → Grown ms ks p (with_children n g.fresh) ds
      → Grown ns ks p n (followed_by cs ds)
  Grown-append ns ms ks p n cs ds l g h = record {
    fresh = g.fresh ++ h.fresh;
    longer = omega (arith, g.longer, h.longer);
    others = λ a q f. h.others a (omega (arith, g.longer)) f ∙ g.others a q f;
    parent =
        h.parent
        ∙ ap (λ l. some (record n { children = l })) (append_assoc n.children g.fresh h.fresh);
    reads =
        AllRead-append ks (length ns) (length ks) g.fresh h.fresh cs ds
          (AllRead-Keeps ms ks (length ns) (length ns) (length ms) (length ks) (omega arith)
            (h.longer) (λ a q f. h.others a f (λ e. absurd (omega (arith, e)))) g.fresh cs g.reads)
          (AllRead-Keeps ks ks (length ms) (length ns) (length ks) (length ks) (g.longer)
            (omega arith) (λ a q f. refl) h.fresh ds h.reads);
  }

  pub get_elem?-lt :
      (nodes : List (Node V)) (p : ℕ) (n : Node V) → get_elem? nodes p ≡ some n → p < length nodes
  get_elem?-lt [] p n e = absurd (cc e)
  get_elem?-lt (m ∷ ms) zero n e = omega arith
  get_elem?-lt (m ∷ ms) (suc p) n e = omega (arith, get_elem?-lt ms p n e)

  -- The store behind `attach` of a new condition.
  abbrev pub pushed : List (Node V) → Node V → ℕ → List (Node V)
  pushed nodes m p = update_node (append_child (some (length nodes))) p (nodes ++ m ∷ [])

  module _ (nodes : List (Node V)) (m : Node V) (p : ℕ) (n : Node V)
      (e : get_elem? nodes p ≡ some n) where
    abbrev grown_parent : Node V
    grown_parent = append_child (some (length nodes)) n

    pushed_eq : pushed nodes m p ≡ set (nodes ++ m ∷ []) p grown_parent
    pushed_eq =
        ap
          (λ o. elim o [
            | none ↦ nodes ++ m ∷ []
            | some k ↦ set (nodes ++ m ∷ []) p (append_child (some (length nodes)) k)
          ])
          (get_elem?-append_lt nodes (m ∷ []) p (get_elem?-lt nodes p n e) ∙ e)

    length-pushed : length (pushed nodes m p) ≡ suc (length nodes)
    length-pushed =
        ap length pushed_eq
        ∙ length-set (nodes ++ m ∷ []) p grown_parent
        ∙ length-append nodes (m ∷ [])
        ∙ omega arith

    pushed_parent : get_elem? (pushed nodes m p) p ≡ some grown_parent
    pushed_parent =
        ap (λ l. get_elem? l p) pushed_eq
        ∙ get_elem?-set_same (nodes ++ m ∷ []) p grown_parent
            (omega (arith, length-append nodes (m ∷ []), get_elem?-lt nodes p n e))

    pub pushed_new : get_elem? (pushed nodes m p) (length nodes) ≡ some m
    pushed_new =
        ap (λ l. get_elem? l (length nodes)) pushed_eq
        ∙ get_elem?-set_other (nodes ++ m ∷ []) p (length nodes) grown_parent
            (λ f. absurd (omega (arith, f, get_elem?-lt nodes p n e)))
        ∙ get_elem?-snoc nodes m

    pushed_others :
        (a : ℕ) → a < length nodes → a ≢ p → get_elem? (pushed nodes m p) a ≡ get_elem? nodes a
    pushed_others a l f =
        ap (λ k. get_elem? k a) pushed_eq
        ∙ get_elem?-set_other (nodes ++ m ∷ []) p a grown_parent (λ g. f (sym g))
        ∙ get_elem?-append_lt nodes (m ∷ []) a l

    -- A new condition whose children are then added, in the store `ks`.
    pub Grown-nested :
        (ks : List (Node V)) (cs : WhereConditions V)
        → m.children ≡ []
        → Grown (pushed nodes m p) ks (length nodes) m cs
        → Grown nodes ks p n (cons (condition m.field m.operator m.value m.logic cs) nil)
    Grown-nested ks cs f g = record {
      fresh = some (length nodes) ∷ [];
      longer = omega (arith, g.longer, length-pushed);
      others = λ a l h.
          g.others a (omega (arith, length-pushed)) (λ k. absurd (omega (arith, k)))
          ∙ pushed_others a l h;
      parent =
          g.others p (omega (arith, length-pushed, get_elem?-lt nodes p n e))
            (λ k. absurd (omega (arith, k, get_elem?-lt nodes p n e)))
          ∙ pushed_parent;
      reads = (
        (
          g.fresh,
          omega arith,
          omega (arith, g.longer, length-pushed),
          g.parent ∙ ap (λ l. some (record m { children = l ++ g.fresh })) f,
          AllRead-Keeps ks ks (length (pushed nodes m p)) (length nodes) (length ks) (length ks)
              (omega (arith, length-pushed)) (omega arith) (λ a q h. refl) g.fresh cs g.reads,
        ),
        tt,
      );
    }

    pub Grown-leaf :
        m.children ≡ []
        → Grown nodes
            (pushed nodes m p)
            p
            n
            (cons (condition m.field m.operator m.value m.logic nil) nil)
    Grown-leaf f =
        Grown-nested (pushed nodes m p) nil f
          (Grown-nil (pushed nodes m p) (length nodes) m pushed_new)
