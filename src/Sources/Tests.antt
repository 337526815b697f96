-- ===== src/Sources/Tests.antt =====
-- The theorems on property sources at three sources, whose names are their tens.
use ag_core.Prelude.{ℕ, ◌/◌, ◌≡◌, none, List, [], ◌∷◌, arith, refl}
use ag_core.Sources.{add_before, remove}
use ag_core.Sources.Unique.{IsUnique}
use ag_core.Sources.Insert.{AddsNextTo, add_before-cases}
use ag_core.Sources.Place.{add_before-place, add_before-behind}
use ag_core.Sources.Remove.{remove-others}

abbrev tens : ℕ → ℕ
tens n = n / 10

abbrev three : List ℕ
three = 10 ∷ 20 ∷ 30 ∷ []

three-IsUnique : IsUnique tens three
three-IsUnique = ((omega arith, (omega arith, tt)), ((omega arith, tt), (tt, tt)))

add_before-cases_example : AddsNextTo tens three 2 41 (add_before tens three 2 41)
add_before-cases_example = add_before-cases tens three 2 41 three-IsUnique

add_before-place_example : add_before tens three 2 31 ≡ (none, 10 ∷ 31 ∷ 20 ∷ [])
add_before-place_example =
    add_before-place tens (10 ∷ []) (30 ∷ []) 20 31 three-IsUnique (omega arith) (omega arith, tt)

add_before-behind_example : add_before tens three 2 11 ≡ (none, 20 ∷ 11 ∷ 30 ∷ [])
add_before-behind_example =
    add_before-behind tens [] [] (30 ∷ []) 10 20 11 three-IsUnique refl (omega arith)

remove-others_example : remove tens three 2 ≡ 10 ∷ 30 ∷ []
remove-others_example = remove-others tens three 2 three-IsUnique
