-- ===== src/Placeholder.antt =====
-- ag/ag_conf/property_placeholder_helper.go: the replacement of `${key}` and `${key:default}` in the
-- values of properties. A text is the list of its bytes. The resolver is a parameter, a function of
-- the key that gives the empty text for an unknown one.
pub mod Search
pub mod Scan
pub mod Flat
pub mod Circular
mod Tests
use ag_core.Prelude.{
  ℕ, zero, suc, ◌+◌, ◌-◌, Bool, true, false, not, ◌&&◌, Option, none, some, List, [], ◌∷◌, ◌++◌,
  ◌==◌, ltb, if◌then◌else◌, length, take, drop, slice,
}

abbrev pub Text : Type 0
Text = List ℕ

-- `PropertyPlaceholderHelper`
pub record Helper : Type 0 where
  pub placeholder_prefix : Text
  pub placeholder_suffix : Text
  pub value_separator : Text
  pub ignore_unresolvable_placeholders : Bool

abbrev pub is_empty : Text → Bool
is_empty [] = true
is_empty (c ∷ cs) = false

abbrev pub text_eq : Text → Text → Bool
text_eq [] [] = true
text_eq [] (d ∷ ds) = false
text_eq (c ∷ cs) [] = false
text_eq (c ∷ cs) (d ∷ ds) = c == d && text_eq cs ds

-- `strings.HasPrefix`
abbrev pub has_prefix : Text → Text → Bool
has_prefix cs [] = true
has_prefix [] (p ∷ ps) = false
has_prefix (c ∷ cs) (p ∷ ps) = c == p && has_prefix cs ps

-- `strings.Index`; `none` is -1.
abbrev pub index_of : Text → Text → Option ℕ
index_of [] sub = if has_prefix [] sub then some 0 else none
index_of (c ∷ cs) sub =
    let rest = index_of cs sub in
    if has_prefix (c ∷ cs) sub then some 0 else elim rest [ none ↦ none | some i ↦ some (suc i) ]

-- `startIndex`, for a search from a position on.
unfoldable pub next_start : Text → Text → ℕ → Option ℕ
next_start sub buf pos = elim (index_of (drop pos buf) sub) [
  | none ↦ none
  | some i ↦ some (pos + i)
]

-- One round of `findPlaceholderEndIndex`: the end, or how far the index moves and how deep it is then.
pub data Round : Type 0 where
  found : Round
  move : ℕ → ℕ → Round

unfoldable pub end_round : Helper → Text → ℕ → Round
end_round h rest nested =
    if has_prefix rest h.placeholder_suffix
    then (if ltb 0 nested then move (length h.placeholder_suffix) (nested - 1) else found)
    else if has_prefix rest h.placeholder_prefix
    then move (length h.placeholder_prefix) (nested + 1)
    else move 1 nested

-- The loop; `rest` is `buf[index:]`. The first argument bounds the rounds.
unfoldable pub find_end : ℕ → Helper → Text → ℕ → ℕ → Option ℕ
find_end zero h rest index nested = none
find_end (suc k) h [] index nested = none
find_end (suc k) h (c ∷ cs) index nested = elim (end_round h (c ∷ cs) nested) [
  | found ↦ some index
  | move n nested' ↦ find_end k h (drop n (c ∷ cs)) (index + n) nested'
]

-- `findPlaceholderEndIndex`
unfoldable pub find_placeholder_end_index : Helper → Text → ℕ → Option ℕ
find_placeholder_end_index h buf start_index =
    let index = start_index + length h.placeholder_prefix in
    find_end (suc (length buf)) h (drop index buf) index 0

-- The map of visited placeholders, as the list of those that it holds.
abbrev pub visits : List Text → Text → Bool
visits [] p = false
visits (v ∷ vs) p = if text_eq v p then true else visits vs p

abbrev pub delete : Text → List Text → List Text
delete p [] = []
delete p (v ∷ vs) = if text_eq v p then delete p vs else v ∷ delete p vs

pub data ParseError : Type 0 where
  circular : Text → ParseError
  unresolved : Text → ParseError
  out_of_fuel : ParseError

-- The text and the visited placeholders, or an error.
pub data Parsed : Type 0 where
  parsed : Text → List Text → Parsed
  failed : ParseError → Parsed

module _ (h : Helper) (resolver : Text → Text) where
  -- The value of a resolved placeholder, with the default behind the separator.
  unfoldable pub value_of : Text → Text
  value_of key =
      let value = resolver key in
      if is_empty value && not (is_empty h.value_separator)
      then elim (index_of key h.value_separator) [
        | none ↦ value
        | some i ↦
            let actual = resolver (take i key) in
            if is_empty actual then drop (i + length h.value_separator) key else actual
      ]
      else value

  -- The loop of `parseStringValueWithVisited`, on the builder's text and the start index. The first
  -- argument bounds the rounds, those of the nested calls included.
  unfoldable pub run : ℕ → Text → Option ℕ → List Text → Parsed
  run k buf none visited = parsed buf visited
  run zero buf (some start) visited = failed out_of_fuel
  run (suc k) buf (some start) visited = elim (find_placeholder_end_index h buf start) [
    | none ↦ parsed buf visited
    | some stop ↦
        let p = slice (start + length h.placeholder_prefix) stop buf in
        elim (visits visited p) [
          | true ↦ failed (circular p)
          | false ↦ elim (run k p (index_of p h.placeholder_prefix) (p ∷ visited)) [
            | failed e ↦ failed e
            | parsed key visited₁ ↦
                let value = value_of key in
                elim (is_empty value) [
                  | true ↦ elim h.ignore_unresolvable_placeholders [
                    | false ↦ failed (unresolved key)
                    | true ↦
                        run k buf
                          (next_start h.placeholder_prefix buf (stop + length h.placeholder_suffix))
                          (delete p visited₁)
                  ]
                  | false ↦ elim (run k value (index_of value h.placeholder_prefix) visited₁) [
                    | failed e ↦ failed e
                    | parsed resolved visited₂ ↦
                        let buf' =
                          take start buf
                          ++ resolved
                          ++ drop (stop + length h.placeholder_suffix) buf in
                        run k buf' (next_start h.placeholder_prefix buf' (start + length resolved))
                          (delete p visited₂)
                  ]
                ]
          ]
        ]
  ]

  -- `ReplacePlaceholders`, with `parseStringValue`.
  unfoldable pub replace_placeholders : ℕ → Text → Parsed
  replace_placeholders k value =
      if is_empty value then parsed [] [] else run k value (index_of value h.placeholder_prefix) []
