-- ===== src/Sources.antt =====
-- ag/ag_conf/sources_mutable_property_sources.go: the ordered list of named property sources. A source
-- is a reference, which is compared as a number; `get_name` is what its `GetName` returns, and a name
-- is only compared. The lock is held for the whole of each operation.
pub mod Unique
pub mod Insert
pub mod Place
pub mod Remove
mod Tests
use mathlib.Core.List.{reverse}
use ag_core.Prelude.{
  ℕ, zero, suc, ◌+◌, Bool, true, false, ◌||◌, Option, none, some, List, [], ◌∷◌, ltb, ◌==◌,
  if◌then◌else◌,
}
use ag_core.Prelude.Int.{ℤ, pos, negsuc, ◌+ℤ◌}
use ag_core.Cow.{add, add_index, delete, delete_index, set_index}

-- The two errors that are returned.
pub data SourcesError : Type 0 where
  relative_to_itself not_found : SourcesError

module _ {ℓ} {E S : Type ℓ} where
  -- The loop of `RangePropertySourceHandler` over a list, for a handler that returns whether to end, and
  -- an error, and changes a state.
  unfoldable pub range_list : (ℕ → S → Bool × Option E × S) → List ℕ → S → Option E × S
  range_list handler [] s = (none, s)
  range_list handler (x ∷ xs) s =
      let (end, err, s') = handler x s in
      elim err [
        | none ↦ if end then (none, s') else range_list handler xs s'
        | some e ↦ (some e, s')
      ]

  -- `RangePropertySourceHandlerReverse`
  pub range_reverse : (ℕ → S → Bool × Option E × S) → List ℕ → S → Option E × S
  range_reverse handler xs s = range_list handler (reverse xs) s

module _ (get_name : ℕ → ℕ) where
  -- `Get`
  unfoldable pub get : List ℕ → ℕ → Option ℕ
  get [] name = none
  get (x ∷ xs) name = if get_name x == name then some x else get xs name

  -- `Contains`
  unfoldable pub contains : List ℕ → ℕ → Bool
  contains [] name = false
  contains (x ∷ xs) name = if get_name x == name then true else contains xs name

  -- `ContainsSource`
  contains_source : List ℕ → ℕ → Bool
  contains_source xs ps = contains xs (get_name ps)

  -- The loop of `indexOfName`, from the index `i` on.
  unfoldable pub index_of_name_from : ℕ → List ℕ → ℕ → ℤ
  index_of_name_from i [] name = negsuc 0
  index_of_name_from i (x ∷ xs) name =
      let rest = index_of_name_from (suc i) xs name in if get_name x == name then pos i else rest

  -- `indexOfName`
  unfoldable pub index_of_name : List ℕ → ℕ → ℤ
  index_of_name xs name = index_of_name_from 0 xs name

  -- `removeIfPresent`: the loop looks for the first source of the name.
  unfoldable pub remove_if_present : List ℕ → ℕ → List ℕ
  remove_if_present xs name = elim (get xs name) [ none ↦ xs | some ps ↦ delete xs ps ]

  -- `AddFirst`
  unfoldable pub add_first : List ℕ → ℕ → List ℕ
  add_first xs ps = add_index (remove_if_present xs (get_name ps)) (pos 0) ps

  -- `AddLast`
  unfoldable pub add_last : List ℕ → ℕ → List ℕ
  add_last xs ps = add (remove_if_present xs (get_name ps)) ps

  -- `AddBefore` and `AddAfter` behind the check of the names, for the index that was found, and the
  -- distance from it.
  unfoldable pub add_at : ℕ → List ℕ → ℕ → ℤ → Option SourcesError × List ℕ
  add_at k xs ps (negsuc n) = (some not_found, xs)
  add_at k xs ps (pos i) = (none, add_index (remove_if_present xs (get_name ps)) (pos (i + k)) ps)

  -- `AddBefore`
  unfoldable pub add_before : List ℕ → ℕ → ℕ → Option SourcesError × List ℕ
  add_before xs name ps =
      if name == get_name ps
      then (some relative_to_itself, xs)
      else add_at 0 xs ps (index_of_name xs name)

  -- `AddAfter`
  unfoldable pub add_after : List ℕ → ℕ → ℕ → Option SourcesError × List ℕ
  add_after xs name ps =
      if name == get_name ps
      then (some relative_to_itself, xs)
      else add_at 1 xs ps (index_of_name xs name)

  -- `Remove`
  unfoldable pub remove : List ℕ → ℕ → List ℕ
  remove xs name = delete_index xs (index_of_name xs name)

  -- `Replace`, for the index that was found.
  unfoldable pub replace_at : List ℕ → ℕ → ℤ → Option SourcesError × List ℕ
  replace_at xs ps (negsuc n) = (some not_found, xs)
  replace_at xs ps (pos i) = (none, set_index xs (pos i) ps)

  -- `Replace`
  unfoldable pub replace : List ℕ → ℕ → ℕ → Option SourcesError × List ℕ
  replace xs name ps = replace_at xs ps (index_of_name xs name)

  -- `ReplaceSource`
  replace_source : List ℕ → ℕ → Option SourcesError × List ℕ
  replace_source xs ps = replace xs (get_name ps) ps
