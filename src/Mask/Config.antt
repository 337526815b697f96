-- ===== src/Mask/Config.antt =====
-- contribute/agdb/conditonwhere/fieldmask.go: `BuildWhereFromConfig`, the composition of the
-- configured trees, the filter and the SQL text. The configured conditions are a function of the
-- method's name; a nil pointer is `none`.
use ag_core.Prelude.{
  suc, ◌≡◌, ◌≢◌, refl, ap, ◌∙◌, Option, none, some, List, [], ◌∷◌, ◌++◌, arith, codes, length,
}
use ag_core.Placeholder.{Text}
use ag_core.Mask.{
  FieldMask, MaskWhereCondition, MaskWhereConditions, mask_condition, nil, cons, Converted,
  converted, slice_panics, out_of_rounds, convert_like_wildcards, Generated, generated,
  invalid_condition, not_converted, Collected, collected, stopped, of_converted, join_conditions,
  generate_where_sql, generate_conditions, filter_mask_where_condition,
}
use ag_core.Mask.Filter.{
  exprs, kept, IsFiltered, AreFiltered, Keeps, filter_mask_where_condition-Keeps,
}
use ag_core.Mask.Wildcards.{convert_rounds-ends}

-- `FilterMaskWhereCondition`, with its tests for nil.
abbrev pub filter_of : Option FieldMask → Option MaskWhereCondition → Option MaskWhereCondition
filter_of none condition = none
filter_of (some m) none = none
filter_of (some m) (some d) = filter_mask_where_condition m d

-- The text, the error of a missing configuration or of missing values, or the failure of
-- `GenerateWhereSQL`.
pub data FromConfig : Type 0 where
  where_text : Text → FromConfig
  no_config : Text → FromConfig
  no_values : Text → FromConfig
  generate_failed : Generated → FromConfig

abbrev pub of_generated : Generated → FromConfig
of_generated (generated sql) = where_text (codes "WHERE " ++ sql)
of_generated invalid_condition = generate_failed invalid_condition
of_generated (not_converted n) = generate_failed (not_converted n)

abbrev pub of_filtered : Text → Option MaskWhereCondition → FromConfig
of_filtered method_name none = no_values method_name
of_filtered method_name (some d) = of_generated (generate_where_sql d)

abbrev pub of_config : Option FieldMask → Text → Option (Option MaskWhereCondition) → FromConfig
of_config m method_name none = no_config method_name
of_config m method_name (some where_data) = of_filtered method_name (filter_of m where_data)

-- `BuildWhereFromConfig`
unfoldable pub build_where_from_config :
    Option FieldMask → (Text → Option (Option MaskWhereCondition)) → Text → FromConfig
build_where_from_config m condition_map method_name =
    of_config m method_name (condition_map method_name)

-- A text, or the panic of `convertLikeWildcards`.
abbrev pub Runs : Generated → Type 0
Runs (generated t) = Unit {0}
Runs invalid_condition = ⊥
Runs (not_converted n) = n ≡ slice_panics

abbrev CollectedRuns : Collected → Type 0
CollectedRuns (collected ts) = Unit {0}
CollectedRuns (stopped g) = Runs g

of_converted-Runs : (n : Converted) → n ≢ out_of_rounds → Runs (of_converted n)
of_converted-Runs (converted t) h = tt
of_converted-Runs slice_panics h = refl
of_converted-Runs out_of_rounds h = absurd (h refl)

join_conditions-Runs :
    (operator : Text) (c : Collected) → CollectedRuns c → Runs (join_conditions operator c)
join_conditions-Runs operator (collected ts) h = tt
join_conditions-Runs operator (stopped g) h = h

mutual
  unfolding generate_where_sql convert_like_wildcards

  tree_generates :
      (m : FieldMask) (d : MaskWhereCondition) → IsFiltered m d → Runs (generate_where_sql d)
  tree_generates m (mask_condition operator nil (c ∷ cs)) h =
      of_converted-Runs (convert_like_wildcards (c ∷ cs))
        (convert_rounds-ends (suc (length (c ∷ cs))) (c ∷ cs) [] 0 (omega arith))
  tree_generates m (mask_condition operator (cons d ds) (c ∷ cs)) h = absurd h
  tree_generates m (mask_condition operator nil []) h = absurd h
  tree_generates m (mask_condition operator (cons d ds) []) h =
      join_conditions-Runs operator (generate_conditions (cons d ds) [])
        (all_run m (cons d ds) [] h)

  all_run :
      (m : FieldMask) (ds : MaskWhereConditions) (ts : List Text)
      → AreFiltered m ds
      → CollectedRuns (generate_conditions ds ts)
  all_run m nil ts h = tt
  all_run m (cons d ds) ts (h, g) =
      after_one (generate_where_sql d) (tree_generates m d h) (λ t. all_run m ds (ts ++ t ∷ []) g)
    where
      after_one :
          (r : Generated)
          → Runs r
          → ((t : Text) → CollectedRuns (generate_conditions ds (ts ++ t ∷ [])))
          → CollectedRuns (elim r [
            | generated t ↦ generate_conditions ds (ts ++ t ∷ [])
            | invalid_condition ↦ stopped invalid_condition
            | not_converted n ↦ stopped (not_converted n)
          ])
      after_one (generated t) p k = k t
      after_one invalid_condition p k = absurd p
      after_one (not_converted n) p k = p

-- The configured expressions that the mask keeps; a nil mask keeps none.
abbrev pub kept_of : Option FieldMask → Option MaskWhereCondition → List Text
kept_of none condition = []
kept_of (some m) none = []
kept_of (some m) (some d) = kept m (exprs d)

-- What a result says of the configuration.
abbrev pub Tells :
    Option FieldMask → Text → Option (Option MaskWhereCondition) → FromConfig → Type 0
Tells m method_name none r = r ≡ no_config method_name
Tells m method_name (some where_data) (no_config n) = ⊥
Tells m method_name (some where_data) (no_values n) =
    (n ≡ method_name) × (kept_of m where_data ≡ [])
Tells m method_name (some where_data) (where_text t) = kept_of m where_data ≢ []
Tells m method_name (some where_data) (generate_failed g) =
    (kept_of m where_data ≢ []) × (g ≡ not_converted slice_panics)

of_generated-Tells :
    (m : Option FieldMask) (method_name : Text) (where_data : Option MaskWhereCondition)
    (g : Generated)
    → kept_of m where_data ≢ []
    → Runs g
    → Tells m method_name (some where_data) (of_generated g)
of_generated-Tells m method_name where_data (generated t) h r = h
of_generated-Tells m method_name where_data invalid_condition h r = absurd r
of_generated-Tells m method_name where_data (not_converted n) h r = (h, ap not_converted r)

of_filtered-Tells :
    (m : FieldMask) (method_name : Text) (d : MaskWhereCondition) (o : Option MaskWhereCondition)
    → Keeps m (exprs d) o
    → Tells (some m) method_name (some (some d)) (of_filtered method_name o)
of_filtered-Tells m method_name d none h = (refl, h)
of_filtered-Tells m method_name d (some e) (f, n, g) =
    of_generated-Tells (some m) method_name (some d) (generate_where_sql e) (λ k. n (f ∙ k))
      (tree_generates m e g)

-- `BuildWhereFromConfig` gives the error of a missing configuration where the method has none, the
-- error of missing values exactly where there is one of which the mask keeps no expression, and
-- else a text or the panic of `convertLikeWildcards`; never the error of an empty condition, and
-- the loop of `convertLikeWildcards` never runs out of its rounds.
pub build_where_from_config-Tells :
    (m : Option FieldMask) (condition_map : Text → Option (Option MaskWhereCondition))
    (method_name : Text)
    → Tells m method_name
        (condition_map method_name)
        (build_where_from_config m condition_map method_name)
unfolding build_where_from_config
build_where_from_config-Tells m condition_map method_name = of_map m (condition_map method_name)
  where
    of_map :
        (m' : Option FieldMask) (o : Option (Option MaskWhereCondition))
        → Tells m' method_name o (of_config m' method_name o)
    of_map m' none = refl
    of_map none (some where_data) = (refl, refl)
    of_map (some m') (some none) = (refl, refl)
    of_map (some m') (some (some d)) =
        of_filtered-Tells m' method_name d (filter_mask_where_condition m' d)
          (filter_mask_where_condition-Keeps m' d)
