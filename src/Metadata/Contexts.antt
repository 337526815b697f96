-- ===== src/Metadata/Contexts.antt =====
-- What metadata the contexts show after one of them was appended to.
use ag_core.Prelude.{
  ℕ, ◌≡◌, ◌<◌, ◌⊎◌, refl, ◌∙◌, sym, ap, Bool, true, false, Option, none, some, List, arith, ◌==◌,
  ==_eq, ==_ne, ==_iff, if◌then◌else◌, Bool-cases, inl, inr,
}
use ag_core.Metadata.{
  Md, append_md, Wrappers, Ctx, append_md_to_context, get_md_from_context, get_value_from_context,
  parse_md_to_context,
}
use ag_core.Metadata.Laws.{
  last_value, last_value_default, any_odd, all_pairs, parse_md_to_context-cases,
}

-- The context has a wrapper that is allocated, or none.
abbrev pub InStore : Wrappers → Ctx → Type 0
InStore s none = Unit {0}
InStore s (some w) = w < s.fresh

-- Two contexts that have the same wrapper.
abbrev pub shares : Ctx → Ctx → Bool
shares none d = false
shares (some w) none = false
shares (some w) (some v) = v == w

-- What the new context shows, and what another one does.
pub append_md_to_context-shares :
    (s : Wrappers) (ctx : Ctx) (newmd : Md) (c : Ctx)
    → InStore s ctx
    → InStore s c
    → ((k : ℕ)
        → get_md_from_context
            (append_md_to_context s ctx newmd).1
            (append_md_to_context s ctx newmd).0
            k
          ≡ append_md (get_md_from_context s ctx) newmd k)
      × (get_md_from_context (append_md_to_context s ctx newmd).1 c ≡ (
          if shares ctx c
          then append_md (get_md_from_context s ctx) newmd
          else get_md_from_context s c))
      × InStore (append_md_to_context s ctx newmd).1 (append_md_to_context s ctx newmd).0
unfolding append_md_to_context get_md_from_context
append_md_to_context-shares s none newmd none i j =
    (λ k. rw (==_eq {a = s.fresh} refl) refl, refl, omega arith)
append_md_to_context-shares s none newmd (some v) i j = (
  λ k. rw (==_eq {a = s.fresh} refl) refl,
  rw (==_ne {a = v} {b = s.fresh} (omega arith)) refl,
  omega arith,
)
append_md_to_context-shares s (some w) newmd none i j = (λ k. rw (==_eq {a = w} refl) refl, refl, i)
append_md_to_context-shares s (some w) newmd (some v) i j =
    (λ k. rw (==_eq {a = w} refl) refl, refl, i)

-- `GetMdFromContext` and `GetValueFromContext` give the same value of a key.
abbrev pub Shows : Wrappers → Ctx → ℕ → Option ℕ → Type 0
Shows s ctx k v = (get_md_from_context s ctx k ≡ v) × (get_value_from_context s ctx k ≡ v)

get_value-eq-get_md :
    (s : Wrappers) (ctx : Ctx) (k : ℕ)
    → get_value_from_context s ctx k ≡ get_md_from_context s ctx k
unfolding get_value_from_context get_md_from_context
get_value-eq-get_md s none k = refl
get_value-eq-get_md s (some w) k = refl

shown :
    (s : Wrappers) (ctx : Ctx) (k : ℕ) {v : Option ℕ}
    → get_md_from_context s ctx k ≡ v
    → Shows s ctx k v
shown s ctx k e = (e, get_value-eq-get_md s ctx k ∙ e)

-- What `ParseMdToContext` gives for the pairs that the registered keys stand for, and what another
-- context shows behind it.
pub record Parsed (ps : List (ℕ × ℕ)) (s : Wrappers) (ctx c ctx' : Ctx) (s' : Wrappers)
    : Type 0 where
  pub own : (k : ℕ) → Shows s' ctx' k (last_value ps k (get_md_from_context s ctx k))
  pub other :
      (k : ℕ)
      → Shows s' c k (
          if shares ctx c
          then last_value ps k (get_md_from_context s c k)
          else get_md_from_context s c k)
  pub allocated : InStore s' ctx'

-- Appending metadata that are the last values of some pairs.
append_md-last :
    (ps : List (ℕ × ℕ)) (old md : Md) (k : ℕ)
    → md k ≡ last_value ps k none
    → append_md old md k ≡ last_value ps k (old k)
append_md-last ps old md k e =
    ap (λ o. elim o as (λ x. Option ℕ) [ none ↦ old k | some w ↦ some w ]) e
    ∙ sym (last_value_default ps k (old k))

shares_same :
    (s : Wrappers) (ctx c : Ctx)
    → shares ctx c ≡ true
    → get_md_from_context s ctx ≡ get_md_from_context s c
shares_same s none c e = absurd (cc e)
shares_same s (some w) none e = absurd (cc e)
shares_same s (some w) (some v) e =
    ap (λ a. get_md_from_context s (some a)) (sym ((==_iff v w).0 e))

append_md_to_context-Parsed :
    (ps : List (ℕ × ℕ)) (md : Md) (s : Wrappers) (ctx c : Ctx)
    → ((k : ℕ) → md k ≡ last_value ps k none)
    → InStore s ctx
    → InStore s c
    → Parsed ps s ctx c (append_md_to_context s ctx md).0 (append_md_to_context s ctx md).1
append_md_to_context-Parsed ps md s ctx c t i j =
    let (own, other, inside) = append_md_to_context-shares s ctx md c i j in
    let old = get_md_from_context s ctx in
    let (ctx', s') = append_md_to_context s ctx md in
    record {
      own = λ k. shown s' ctx' k (own k ∙ append_md-last ps old md k (t k));
      other = λ k. shown s' c k (
          ap (λ f. f k) other ∙ elim (Bool-cases (shares ctx c)) [
            | inl e ↦ rw e (
                append_md-last ps old md k (t k)
                ∙ ap (λ f. last_value ps k (f k)) (shares_same s ctx c e))
            | inr e ↦ rw e refl
          ]);
      allocated = inside;
    }

-- Where two contexts have allocated wrappers or none, `parse_md_to_context` on the first fails
-- exactly where some registered key is parsed to an odd number of values above one; otherwise it
-- gives a context, with an allocated wrapper, that shows for each key the last value of the pairs
-- that the registered keys stand for, in their order, and the old value where they have none; the
-- second context shows the same where it shares the wrapper of the first, and otherwise what it
-- showed.
pub parse_md_to_context-Parsed :
    (keys : List ℕ) (parse : ℕ → Option (List ℕ)) (s : Wrappers) (ctx c : Ctx)
    → InStore s ctx
    → InStore s c
    → ((any_odd parse keys ≡ true) × (parse_md_to_context keys parse s ctx ≡ none))
      ⊎ ((any_odd parse keys ≡ false)
          × ((ctx' : Ctx) × (s' : Wrappers) × (parse_md_to_context keys parse s ctx
                ≡ some (ctx', s'))
              × Parsed (all_pairs parse keys) s ctx c ctx' s'))
parse_md_to_context-Parsed keys parse s ctx c i j =
    elim (parse_md_to_context-cases keys parse s ctx) [
      | inl r ↦ inl r
      | inr (o, (md, e, t)) ↦ inr (
        o,
        (
          (append_md_to_context s ctx md).0,
          (append_md_to_context s ctx md).1,
          e,
          append_md_to_context-Parsed (all_pairs parse keys) md s ctx c t i j,
        ),
      )
    ]
