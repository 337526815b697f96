-- ===== src/Mask/Tests.antt =====
-- The theorems on masks at concrete conditions.
use ag_core.Prelude.{
  ◌≡◌, ◌≢◌, refl, false, Option, none, some, [], ◌∷◌, if◌then◌else◌, codes, ◌++◌, arith,
}
use ag_core.Placeholder.{Text, text_eq}
use ag_core.Mask.{
  FieldMask, MaskWhereCondition, mask_condition, nil, cons, is_set, ends_param, extract_param_name,
  is_wildcard, is_name_byte, converted, slice_panics, out_of_rounds, concat_text, convert_rounds,
  convert_like_wildcards, generate_where_sql, keeps, filter_mask_where_condition,
}
use ag_core.Mask.Filter.{Keeps, filter_mask_where_condition-Keeps}
use ag_core.Mask.Concat.{expression, convert_like_wildcards-one}
use ag_core.Mask.Wildcards.{convert_like_wildcards-ends}
use ag_core.Mask.Config.{Tells, where_text, build_where_from_config, build_where_from_config-Tells}

abbrev leaf : Text → MaskWhereCondition
leaf expr = mask_condition [] nil expr

abbrev sample : MaskWhereCondition
sample =
    mask_condition (codes "OR")
      (cons (leaf (codes "a = @A")) (
        cons (mask_condition [] (cons (leaf (codes "b = @B")) (cons (leaf (codes "c = 1")) nil)) [])
          nil))
      []

abbrev mask_of : Text → FieldMask
mask_of field = record { fields = field ∷ [] }

filter_mask_where_condition-Keeps_example :
    Keeps
      (mask_of (codes "A"))
      (codes "a = @A" ∷ codes "b = @B" ∷ codes "c = 1" ∷ [])
      (filter_mask_where_condition (mask_of (codes "A")) sample)
filter_mask_where_condition-Keeps_example =
    filter_mask_where_condition-Keeps (mask_of (codes "A")) sample

convert_like_wildcards-ends_example : convert_like_wildcards (codes "a LIKE %@A%") ≢ out_of_rounds
convert_like_wildcards-ends_example = convert_like_wildcards-ends (codes "a LIKE %@A%")

abbrev configured : Text → Option (Option MaskWhereCondition)
configured name = if text_eq name (codes "Find") then some (some sample) else none

build_where_from_config-Tells_example :
    Tells
      (some (mask_of (codes "A")))
      (codes "Find")
      (some (some sample))
      (build_where_from_config (some (mask_of (codes "A"))) configured (codes "Find"))
build_where_from_config-Tells_example =
    build_where_from_config-Tells (some (mask_of (codes "A"))) configured (codes "Find")

find_runs :
    build_where_from_config (some (mask_of (codes "A"))) configured (codes "Find")
    ≡ where_text (codes "WHERE (a = @A OR (c = 1))")
unfolding build_where_from_config filter_mask_where_condition keeps is_set extract_param_name
    ends_param generate_where_sql convert_like_wildcards convert_rounds is_wildcard is_name_byte
    concat_text ag_core.WhereClause.parenthesize
find_runs = refl

like_runs :
    convert_like_wildcards (codes "a LIKE %@A% OR b LIKE @B%")
    ≡ converted (codes "a LIKE CONCAT('%', @A, '%') OR b LIKE CONCAT(@B, '%')")
unfolding convert_like_wildcards convert_rounds is_wildcard is_name_byte concat_text
like_runs = refl

-- A parameter right behind the wildcard of another one.
adjacent_panics : convert_like_wildcards (codes "@a%@b") ≡ slice_panics
unfolding convert_like_wildcards convert_rounds is_wildcard is_name_byte concat_text
adjacent_panics = refl

-- The filter cuts the name at `_`, so a mask with `user_id` does not keep its condition.
cut_name : keeps (mask_of (codes "user_id")) (codes "id = @user_id") ≡ false
unfolding keeps is_set extract_param_name ends_param
cut_name = refl

-- `name LIKE %@Name%) OR 1`
convert_like_wildcards-one_example :
    convert_like_wildcards
      (expression (codes "name LIKE ") (codes "%") (codes "Name") (codes "%") (codes ") OR 1"))
    ≡ converted (
        (codes "name LIKE " ++ concat_text (codes "%") (codes "Name") (codes "%"))
        ++ codes ") OR 1")
unfolding is_wildcard is_name_byte
convert_like_wildcards-one_example =
    convert_like_wildcards-one (codes "name LIKE ") (codes "%") (codes "Name") (codes "%")
      (codes ") OR 1")
      (
        omega arith,
        (
          omega arith,
          (
            omega arith,
            (
              omega arith,
              (
                omega arith,
                (
                  omega arith,
                  (omega arith, (omega arith, (omega arith, (omega arith, (omega arith, tt))))),
                ),
              ),
            ),
          ),
        ),
      )
      (omega arith, (omega arith, (omega arith, (omega arith, (omega arith, (omega arith, tt))))))
      (refl, tt) (refl, (refl, (refl, (refl, tt)))) (refl, tt) refl refl refl refl
