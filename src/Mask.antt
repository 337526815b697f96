-- ===== src/Mask.antt =====
-- contribute/agdb/conditonwhere/fieldmask.go: the tree of conditions with named parameters, the mask
-- of the parameters that are set, and the SQL text of the conditions that the mask keeps.
pub mod Filter
pub mod Wildcards
pub mod Concat
pub mod Config
mod Tests
use ag_core.Prelude.{
  ℕ, zero, suc, ◌+◌, ◌-◌, Bool, true, false, ◌&&◌, ◌||◌, Option, none, some, List, [], ◌∷◌, ◌++◌,
  ◌==◌, leb, ltb, if◌then◌else◌, length, take, drop, slice, get_elem?, codes, join,
}
use ag_core.Placeholder.{Text, is_empty, text_eq, index_of}
use ag_core.WhereClause.{contains_part, parenthesize}
use ag_core.WhereClause.Columns.{insert_field, insert_fields}

-- `FieldMask`: the keys of its map, each once.
pub record FieldMask : Type 0 where
  pub fields : List Text

abbrev pub new_field_mask : FieldMask
new_field_mask = record { fields = [] }

-- `Set`
unfoldable pub set_field : FieldMask → Text → FieldMask
set_field m field = record { fields = insert_field field m.fields }

-- `IsSet`
unfoldable pub is_set : FieldMask → Text → Bool
is_set m field = contains_part field m.fields

-- `Merge`; `none` is nil.
unfoldable pub merge : FieldMask → Option FieldMask → FieldMask
merge m none = m
merge m (some other) = record { fields = insert_fields other.fields m.fields }

-- `Reset`
unfoldable pub reset : FieldMask → FieldMask
reset m = new_field_mask

-- `Size`
unfoldable pub size : FieldMask → ℕ
size m = length m.fields

-- `MaskWhereCondition`: the operator, the conditions and the expression.
mutual
  pub data MaskWhereCondition : Type 0 where
    mask_condition : Text → MaskWhereConditions → Text → MaskWhereCondition

  pub data MaskWhereConditions : Type 0 where
    nil : MaskWhereConditions
    cons : MaskWhereCondition → MaskWhereConditions → MaskWhereConditions

-- The test that ends a name in `extractParamName`.
unfoldable pub ends_param : ℕ → Bool
ends_param c = c == 32 || (c == 41 || (c == 37 || c == 95))

-- The loop of `extractParamName`.
abbrev pub cut_param : Text → Text
cut_param [] = []
cut_param (c ∷ cs) = if ends_param c then [] else c ∷ cut_param cs

-- `extractParamName`
unfoldable pub extract_param_name : Text → Text
extract_param_name expr = elim (index_of expr (64 ∷ [])) [
  | none ↦ []
  | some i ↦ cut_param (drop (i + 1) expr)
]

-- The tests of the bytes in `convertLikeWildcards`: `%` and `_`, and those of a name.
unfoldable pub is_wildcard : ℕ → Bool
is_wildcard c = c == 37 || c == 95

unfoldable pub is_name_byte : ℕ → Bool
is_name_byte c =
    (leb 97 c && leb c 122) || ((leb 65 c && leb c 90) || ((leb 48 c && leb c 57) || c == 95))

abbrev pub is_wildcard_at : Option ℕ → Bool
is_wildcard_at none = false
is_wildcard_at (some c) = is_wildcard c

-- The loop that finds `preStart`.
abbrev pub pre_start : Text → ℕ → ℕ
pre_start expr zero = zero
pre_start expr (suc i) =
    let before = pre_start expr i in if is_wildcard_at (get_elem? expr i) then before else suc i

-- The loops that find `nameEnd` and, behind it, `wcEnd`: how many bytes pass a test.
abbrev pub run_length : (ℕ → Bool) → Text → ℕ
run_length test [] = 0
run_length test (c ∷ cs) = if test c then suc (run_length test cs) else 0

-- A text, the panic of a slice whose end is before its start, or no rounds left.
pub data Converted : Type 0 where
  converted : Text → Converted
  slice_panics : Converted
  out_of_rounds : Converted

-- The parts of `CONCAT(` up to `)`.
unfoldable pub concat_text : Text → Text → Text → Text
concat_text prefix_wild param_name suffix_wild =
    codes "CONCAT("
    ++ ((if is_empty prefix_wild then [] else 39 ∷ (prefix_wild ++ codes "', "))
        ++ (64
            ∷ (param_name
                ++ ((if is_empty suffix_wild then [] else codes ", '" ++ (suffix_wild ++ 39 ∷ []))
                    ++ codes ")"))))

-- The loop of `convertLikeWildcards`, on the builder's text and `lastEnd`. The first argument bounds
-- the rounds.
unfoldable pub convert_rounds : ℕ → Text → Text → ℕ → Converted
convert_rounds zero expr buf last_end = out_of_rounds
convert_rounds (suc k) expr buf last_end = elim (index_of (drop last_end expr) (64 ∷ [])) [
  | none ↦ converted (if last_end == 0 then expr else buf ++ drop last_end expr)
  | some i ↦
      let at_idx = i + last_end in
      let start = pre_start expr at_idx in
      let prefix_wild = slice start at_idx expr in
      let rest = drop (at_idx + 1) expr in
      let name_end = run_length is_name_byte rest in
      let suffix_wild = take (run_length is_wildcard (drop name_end rest)) (drop name_end rest) in
      let plain = convert_rounds k expr (buf ++ slice last_end (at_idx + 1) expr) (at_idx + 1) in
      elim (name_end == 0 || (is_empty prefix_wild && is_empty suffix_wild)) [
        | true ↦ plain
        | false ↦ elim (ltb start last_end) [
          | true ↦ slice_panics
          | false ↦
              convert_rounds k expr
                (buf
                  ++ (slice last_end start expr
                      ++ concat_text prefix_wild (take name_end rest) suffix_wild))
                (at_idx + 1 + name_end + length suffix_wild)
        ]
      ]
]

-- `convertLikeWildcards`
unfoldable pub convert_like_wildcards : Text → Converted
convert_like_wildcards expr = convert_rounds (suc (length expr)) expr [] 0

-- The text of `GenerateWhereSQL`, its error, or the failure of `convertLikeWildcards`.
pub data Generated : Type 0 where
  generated : Text → Generated
  invalid_condition : Generated
  not_converted : Converted → Generated

-- The local `conditions`, or how the loop ends early.
pub data Collected : Type 0 where
  collected : List Text → Collected
  stopped : Generated → Collected

abbrev pub of_converted : Converted → Generated
of_converted (converted t) = generated t
of_converted slice_panics = not_converted slice_panics
of_converted out_of_rounds = not_converted out_of_rounds

-- The end of `GenerateWhereSQL`.
abbrev pub join_conditions : Text → Collected → Generated
join_conditions operator (stopped g) = g
join_conditions operator (collected ts) = generated (
    parenthesize
      (join (32 ∷ ((if is_empty operator then codes "AND" else operator) ++ 32 ∷ [])) ts))

-- `GenerateWhereSQL`
unfoldable mutual
  pub generate_where_sql : MaskWhereCondition → Generated
  generate_where_sql (mask_condition operator conditions (c ∷ cs)) =
      of_converted (convert_like_wildcards (c ∷ cs))
  generate_where_sql (mask_condition operator nil []) = invalid_condition
  generate_where_sql (mask_condition operator (cons d ds) []) =
      join_conditions operator (generate_conditions (cons d ds) [])

  pub generate_conditions : MaskWhereConditions → List Text → Collected
  generate_conditions nil ts = collected ts
  generate_conditions (cons d ds) ts = elim (generate_where_sql d) [
    | generated t ↦ generate_conditions ds (ts ++ t ∷ [])
    | invalid_condition ↦ stopped invalid_condition
    | not_converted n ↦ stopped (not_converted n)
  ]

-- Whether an expression stays: it has no parameter or one that is set.
unfoldable pub keeps : FieldMask → Text → Bool
keeps m expr =
    let param_name = extract_param_name expr in
    if is_empty param_name then true else is_set m param_name

abbrev pub unless_nil : Text → MaskWhereConditions → Option MaskWhereCondition
unless_nil operator nil = none
unless_nil operator (cons d ds) = some (mask_condition operator (cons d ds) [])

abbrev pub add_kept : Option MaskWhereCondition → MaskWhereConditions → MaskWhereConditions
add_kept none ds = ds
add_kept (some d) ds = cons d ds

-- `FilterMaskWhereCondition`, of a mask and a condition that are not nil.
unfoldable mutual
  pub filter_mask_where_condition : FieldMask → MaskWhereCondition → Option MaskWhereCondition
  filter_mask_where_condition m (mask_condition operator conditions (c ∷ cs)) =
      if keeps m (c ∷ cs) then some (mask_condition operator nil (c ∷ cs)) else none
  filter_mask_where_condition m (mask_condition operator conditions []) =
      unless_nil operator (filter_conditions m conditions)

  pub filter_conditions : FieldMask → MaskWhereConditions → MaskWhereConditions
  filter_conditions m nil = nil
  filter_conditions m (cons d ds) =
      add_kept (filter_mask_where_condition m d) (filter_conditions m ds)
