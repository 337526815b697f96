-- ===== src/Metadata/Laws.antt =====
-- What metadata `Pairs` and `ParseMdToContext` collect.
use ag_core.Prelude.{
  ℕ, suc, ◌%◌, ◌≡◌, ◌⊎◌, refl, ◌∙◌, sym, ap, Bool, true, false, Option, none, some, List, [], ◌∷◌,
  ◌++◌, arith, ◌==◌, ==_eq, if◌then◌else◌, length, Bool-cases, Option-cases, inl, inr,
}
use ag_core.Metadata.{
  Md, new_md, assign, append_md, pairs_from, pairs, Wrappers, Ctx, append_md_to_context, add_parsed,
  parse_keys, parse_md_to_context,
}

-- The last value that a list of pairs has for a key.
abbrev pub last_value : List (ℕ × ℕ) → ℕ → Option ℕ → Option ℕ
last_value [] j d = d
last_value ((k, v) ∷ ps) j d = last_value ps j (if j == k then some v else d)

abbrev pub flatten : List (ℕ × ℕ) → List ℕ
flatten [] = []
flatten ((k, v) ∷ ps) = k ∷ v ∷ flatten ps

flatten-even : (ps : List (ℕ × ℕ)) → length (flatten ps) % 2 ≡ 0
flatten-even [] = refl
flatten-even (p ∷ ps) = omega (arith, flatten-even ps)

pairs_from-flatten :
    (ps : List (ℕ × ℕ)) (md : Md) (j : ℕ) → pairs_from md (flatten ps) j ≡ last_value ps j (md j)
unfolding pairs_from
pairs_from-flatten [] md j = refl
pairs_from-flatten ((k, v) ∷ ps) md j = pairs_from-flatten ps (assign md k v) j

-- `pairs` of the keys and values of some pairs gives metadata with the last value of each key, and
-- fails with one string more.
pub pairs-flatten :
    (ps : List (ℕ × ℕ)) (k : ℕ)
    → ((md : Md) × (pairs (flatten ps) ≡ some md) × ((j : ℕ) → md j ≡ last_value ps j none))
      × (pairs (k ∷ flatten ps) ≡ none)
unfolding pairs
pairs-flatten ps k = (
  (pairs_from new_md (flatten ps), rw (flatten-even ps) refl, λ j. pairs_from-flatten ps new_md j),
  rw (==_eq {a = suc (length (flatten ps)) % 2} {b = 1} (omega (arith, flatten-even ps))) refl,
)

-- More than one value, and not in pairs.
abbrev pub is_odd : Option (List ℕ) → Bool
is_odd none = false
is_odd (some []) = false
is_odd (some (v ∷ [])) = false
is_odd (some (u ∷ v ∷ vv)) = length (u ∷ v ∷ vv) % 2 == 1

abbrev pub any_odd : (ℕ → Option (List ℕ)) → List ℕ → Bool
any_odd parse [] = false
any_odd parse (k ∷ ks) = if is_odd (parse k) then true else any_odd parse ks

-- The pairs that the values of a key stand for.
abbrev pub pairs_of : List ℕ → List (ℕ × ℕ)
pairs_of [] = []
pairs_of (u ∷ []) = []
pairs_of (u ∷ v ∷ vv) = (u, v) ∷ pairs_of vv

abbrev pub parsed_pairs : ℕ → Option (List ℕ) → List (ℕ × ℕ)
parsed_pairs k none = []
parsed_pairs k (some []) = []
parsed_pairs k (some (v ∷ [])) = (k, v) ∷ []
parsed_pairs k (some (u ∷ v ∷ vv)) = pairs_of (u ∷ v ∷ vv)

abbrev pub all_pairs : (ℕ → Option (List ℕ)) → List ℕ → List (ℕ × ℕ)
all_pairs parse [] = []
all_pairs parse (k ∷ ks) = parsed_pairs k (parse k) ++ all_pairs parse ks

last_value-append :
    (ps qs : List (ℕ × ℕ)) (j : ℕ) (d : Option ℕ)
    → last_value (ps ++ qs) j d ≡ last_value qs j (last_value ps j d)
last_value-append [] qs j d = refl
last_value-append ((k, v) ∷ ps) qs j d = last_value-append ps qs j (if j == k then some v else d)

last_value-some : (ps : List (ℕ × ℕ)) (j v : ℕ) → (w : ℕ) × (last_value ps j (some v) ≡ some w)
last_value-some [] j v = (v, refl)
last_value-some ((k, u) ∷ ps) j v = elim (Bool-cases (j == k)) [
  | inl e ↦ rw e (last_value-some ps j u)
  | inr e ↦ rw e (last_value-some ps j v)
]

-- A default is used where the pairs do not have the key.
pub last_value_default :
    (ps : List (ℕ × ℕ)) (j : ℕ) (d : Option ℕ)
    → last_value ps j d
      ≡ elim (last_value ps j none) as (λ o. Option ℕ) [ none ↦ d | some v ↦ some v ]
last_value_default [] j d = refl
last_value_default ((k, v) ∷ ps) j d = elim (Bool-cases (j == k)) [
  | inl e ↦ rw (e, (last_value-some ps j v).1) refl
  | inr e ↦ rw e (last_value_default ps j d)
]

pairs_from-pairs_of :
    (vv : List ℕ) (md : Md) (j : ℕ) → pairs_from md vv j ≡ last_value (pairs_of vv) j (md j)
unfolding pairs_from
pairs_from-pairs_of [] md j = refl
pairs_from-pairs_of (u ∷ []) md j = refl
pairs_from-pairs_of (u ∷ v ∷ vv) md j = pairs_from-pairs_of vv (assign md u v) j

add_parsed-pairs :
    (newmd : Md) (k : ℕ) (vv : List ℕ)
    → is_odd (some vv) ≡ false
    → (md : Md) × (add_parsed newmd k vv ≡ some md)
      × ((j : ℕ) → md j ≡ last_value (parsed_pairs k (some vv)) j (newmd j))
unfolding add_parsed pairs
add_parsed-pairs newmd k [] e = (newmd, refl, λ j. refl)
add_parsed-pairs newmd k (v ∷ []) e = (assign newmd k v, refl, λ j. refl)
add_parsed-pairs newmd k (u ∷ v ∷ vv) e = (
  append_md newmd (pairs_from new_md (u ∷ v ∷ vv)),
  rw (add_parsed, pairs, e) refl,
  λ j.
      ap (λ o. elim o as (λ x. Option ℕ) [ none ↦ newmd j | some w ↦ some w ])
        (pairs_from-pairs_of (u ∷ v ∷ vv) new_md j)
      ∙ sym (last_value_default (pairs_of (u ∷ v ∷ vv)) j (newmd j)),
)

add_parsed_odd :
    (newmd : Md) (k : ℕ) (vv : List ℕ) → is_odd (some vv) ≡ true → add_parsed newmd k vv ≡ none
unfolding add_parsed pairs
add_parsed_odd newmd k [] e = cc e
add_parsed_odd newmd k (v ∷ []) e = cc e
add_parsed_odd newmd k (u ∷ v ∷ vv) e = rw (add_parsed, pairs, e) refl

-- The metadata that the keys give, on top of what there is.
abbrev pub Collects : (ℕ → Option (List ℕ)) → List ℕ → Md → Option Md → Type 0
Collects parse keys newmd res =
    (md : Md) × (res ≡ some md) × ((j : ℕ) → md j ≡ last_value (all_pairs parse keys) j (newmd j))

parse_keys-cases :
    (parse : ℕ → Option (List ℕ)) (keys : List ℕ) (newmd : Md)
    → ((any_odd parse keys ≡ true) × (parse_keys parse newmd keys ≡ none))
      ⊎ ((any_odd parse keys ≡ false) × Collects parse keys newmd (parse_keys parse newmd keys))
unfolding parse_keys
parse_keys-cases parse [] newmd = inr (refl, (newmd, refl, λ j. refl))
parse_keys-cases parse (k ∷ ks) newmd = elim (Option-cases (parse k)) [
  | inl e ↦ rw (parse_keys, e) (parse_keys-cases parse ks newmd)
  | inr (vv, e) ↦ elim (Bool-cases (is_odd (some vv))) [
    | inl o ↦ rw (parse_keys, e, o, add_parsed_odd newmd k vv o) (inl (refl, refl))
    | inr o ↦
        let (md, f, t) = add_parsed-pairs newmd k vv o in
        rw (parse_keys, e, o, f)
          (elim (parse_keys-cases parse ks md) [
            | inl r ↦ inl r
            | inr (q, (md', g, u)) ↦ inr (
              q,
              (
                md',
                g,
                λ j.
                    u j
                    ∙ ap (last_value (all_pairs parse ks) j) (t j)
                    ∙ sym (
                        last_value-append (parsed_pairs k (some vv)) (all_pairs parse ks) j
                          (newmd j)),
              ),
            )
          ])
  ]
]

-- `parse_md_to_context` fails exactly where some registered key is parsed to an odd number of
-- values above one; otherwise it appends to the context metadata that has, for each key, the last
-- value of the pairs that the registered keys stand for, in their order.
pub parse_md_to_context-cases :
    (keys : List ℕ) (parse : ℕ → Option (List ℕ)) (s : Wrappers) (ctx : Ctx)
    → ((any_odd parse keys ≡ true) × (parse_md_to_context keys parse s ctx ≡ none))
      ⊎ ((any_odd parse keys ≡ false)
          × ((md : Md) × (parse_md_to_context keys parse s ctx
                ≡ some (append_md_to_context s ctx md))
              × ((j : ℕ) → md j ≡ last_value (all_pairs parse keys) j none)))
unfolding parse_md_to_context
parse_md_to_context-cases keys parse s ctx = elim (parse_keys-cases parse keys new_md) [
  | inl (o, e) ↦ inl (o, rw (parse_md_to_context, e) refl)
  | inr (o, (md, e, u)) ↦ inr (o, (md, rw (parse_md_to_context, e) refl, u))
]
