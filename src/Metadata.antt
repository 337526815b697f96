-- ===== src/Metadata.antt =====
-- ag/ag_common/agmetadata/metadata.go: the metadata of a call in its context. A string is a number, and
-- 0 is the empty string, since the code only compares strings and tests whether they are empty. A map
-- is a function. The wrappers that contexts share are addresses of a store; an address at `fresh` or
-- above is not allocated yet. The registered keys are a list in any order.
pub mod Laws
pub mod Contexts
mod Tests
use ag_core.Prelude.{
  ℕ, zero, suc, ◌+◌, ◌%◌, Bool, true, false, Option, none, some, List, [], ◌∷◌, ◌==◌, if◌then◌else◌,
  length,
}

-- `MD`
abbrev pub Md : Type 0
Md = ℕ → Option ℕ

abbrev pub new_md : Md
new_md k = none

abbrev pub assign : Md → ℕ → ℕ → Md
assign md k v j = if j == k then some v else md j

-- `for k, v := range other { md[k] = v }`, as in `New`, `Copy`, `AppendMD` and `AppendMdToContext`.
abbrev pub append_md : Md → Md → Md
append_md md other k = elim (other k) [ none ↦ md k | some v ↦ some v ]

-- The loop of `Pairs`, by its rounds of a key and a value.
unfoldable pub pairs_from : Md → List ℕ → Md
pairs_from md [] = md
pairs_from md (k ∷ []) = md
pairs_from md (k ∷ v ∷ kv) = pairs_from (assign md k v) kv

-- `Pairs`; `none` is its error.
unfoldable pub pairs : List ℕ → Option Md
pairs kv = if length kv % 2 == 1 then none else some (pairs_from new_md kv)

-- `MD.Get`, of a missing key the empty string, and `MD.Set`.
unfoldable pub get : Md → ℕ → ℕ
get md k = elim (md k) [ none ↦ 0 | some v ↦ v ]

unfoldable pub set_value : Md → ℕ → ℕ → Md
set_value md k val = if val == 0 then md else assign md k val

-- The wrappers, and the address that a context has.
pub record Wrappers : Type 0 where
  pub md : ℕ → Md
  pub fresh : ℕ

abbrev pub Ctx : Type 0
Ctx = Option ℕ

-- `AppendMdToContext`
unfoldable pub append_md_to_context : Wrappers → Ctx → Md → Ctx × Wrappers
append_md_to_context s none newmd = (
  some s.fresh,
  record { md = λ a. if a == s.fresh then append_md new_md newmd else s.md a; fresh = s.fresh + 1 },
)
append_md_to_context s (some w) newmd =
    (some w, record s { md = λ a. if a == w then append_md (s.md w) newmd else s.md a })

-- `GetMdFromContext`
unfoldable pub get_md_from_context : Wrappers → Ctx → Md
get_md_from_context s none = new_md
get_md_from_context s (some w) = s.md w

-- `GetValueFromContext`
unfoldable pub get_value_from_context : Wrappers → Ctx → ℕ → Option ℕ
get_value_from_context s none k = none
get_value_from_context s (some w) k = s.md w k

-- What `ParseMdToContext` adds for a key that is parsed to some values.
unfoldable pub add_parsed : Md → ℕ → List ℕ → Option Md
add_parsed newmd k [] = some newmd
add_parsed newmd k (v ∷ []) = some (assign newmd k v)
add_parsed newmd k (u ∷ v ∷ vv) = elim (pairs (u ∷ v ∷ vv)) [
  | none ↦ none
  | some tmd ↦ some (append_md newmd tmd)
]

-- The loop of `ParseMdToContext` over the registered keys.
unfoldable pub parse_keys : (ℕ → Option (List ℕ)) → Md → List ℕ → Option Md
parse_keys parse newmd [] = some newmd
parse_keys parse newmd (k ∷ ks) = elim (parse k) [
  | none ↦ parse_keys parse newmd ks
  | some vv ↦ elim (add_parsed newmd k vv) [
    | none ↦ none
    | some newmd' ↦ parse_keys parse newmd' ks
  ]
]

-- `ParseMdToContext`
unfoldable pub parse_md_to_context :
    List ℕ → (ℕ → Option (List ℕ)) → Wrappers → Ctx → Option (Ctx × Wrappers)
parse_md_to_context keys parse s ctx = elim (parse_keys parse new_md keys) [
  | none ↦ none
  | some newmd ↦ some (append_md_to_context s ctx newmd)
]

-- `RegMdKey`, on the keys that the cache holds; `arrange` is the order in which a map is walked.
unfoldable pub registered : List ℕ → ℕ → Bool
registered [] k = false
registered (j ∷ js) k = if j == k then true else registered js k

pub reg_md_key : (List ℕ → List ℕ) → List ℕ → ℕ → List ℕ
reg_md_key arrange keys k = if registered keys k then keys else arrange (k ∷ keys)
