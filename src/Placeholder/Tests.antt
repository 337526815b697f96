-- ===== src/Placeholder/Tests.antt =====
-- The theorems on placeholders at concrete texts.
use ag_core.Prelude.{◌≡◌, refl, true, false, [], ◌∷◌, arith, if◌then◌else◌}
use ag_core.Placeholder.{
  Text, text_eq, find_end, find_placeholder_end_index, end_round, value_of, circular, unresolved,
  parsed, failed, replace_placeholders, run, next_start,
}
use ag_core.Placeholder.Search.{standard, hole}
use ag_core.Placeholder.Flat.{replace_placeholders-flat}
use ag_core.Placeholder.Circular.{replace_placeholders-circular}

-- `a` is `x`, `b` is `${c}` and `c` is `${b}`.
abbrev properties : Text → Text
properties key =
    if text_eq key (97 ∷ [])
    then 120 ∷ []
    else if text_eq key (98 ∷ [])
    then hole (99 ∷ []) []
    else if text_eq key (99 ∷ [])
    then hole (98 ∷ []) []
    else []

-- `-${a}${d:z}.`
replace_placeholders-flat_example :
    replace_placeholders
      (standard false)
      properties
      2
      (45 ∷ hole (97 ∷ []) (hole (100 ∷ 58 ∷ 122 ∷ []) (46 ∷ [])))
    ≡ parsed (45 ∷ 120 ∷ 122 ∷ 46 ∷ []) []
unfolding value_of
replace_placeholders-flat_example =
    replace_placeholders-flat false properties ((45 ∷ [], 97 ∷ []) ∷ ([], 100 ∷ 58 ∷ 122 ∷ []) ∷ [])
      2 (46 ∷ []) (omega arith)
      (omega arith, omega arith, refl, refl, (tt, omega arith, refl, refl, tt)) (omega arith)

-- `${b}`
replace_placeholders-circular_example :
    replace_placeholders (standard true) properties 3 (hole (98 ∷ []) [])
    ≡ failed (circular (98 ∷ []))
replace_placeholders-circular_example =
    replace_placeholders-circular true properties ((99 ∷ []) ∷ (98 ∷ []) ∷ []) 3 [] (98 ∷ []) []
      (omega arith) tt (omega arith, refl, refl, (omega arith, refl, refl, (omega arith, refl)))

-- A placeholder inside a key: `${${a}}` asks for `x`, which is unknown.
nested_unresolved :
    replace_placeholders (standard false) properties 5 (hole (hole (97 ∷ []) []) [])
    ≡ failed (unresolved (120 ∷ []))
unfolding replace_placeholders run find_placeholder_end_index find_end end_round value_of next_start
nested_unresolved = refl

-- `${d:}`: an empty default counts as no value.
empty_default :
    replace_placeholders (standard false) properties 5 (hole (100 ∷ 58 ∷ []) [])
    ≡ failed (unresolved (100 ∷ 58 ∷ []))
unfolding replace_placeholders run find_placeholder_end_index find_end end_round value_of next_start
empty_default = refl
