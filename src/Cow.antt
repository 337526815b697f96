-- ===== src/Cow.antt =====
-- ag/ag_ext/copy_on_write.go: the slice that is replaced as a whole at each write, under its lock. The
-- stored slice is a list; one that was never stored is the empty list. Indices are integers.
use ag_core.Prelude.{
  ℕ, suc, ◌+◌, Bool, not, ◌||◌, List, [], ◌∷◌, ◌++◌, ltb, ◌==◌, if◌then◌else◌, length, set, take,
  drop,
}
use ag_core.Prelude.Int.{ℤ, pos, negsuc, pos_part, ltb_ℤ}

-- `Add`
unfoldable pub add : List ℕ → ℕ → List ℕ
add xs a = xs ++ (a ∷ [])

-- An index below 0 is taken as 0, one behind the end as the end.
unfoldable pub clamp : List ℕ → ℤ → ℕ
clamp xs i = if ltb (length xs) (pos_part i) then length xs else pos_part i

-- `AddIndex`
unfoldable pub add_index : List ℕ → ℤ → ℕ → List ℕ
add_index xs i a = take (clamp xs i) xs ++ (a ∷ drop (clamp xs i) xs)

-- The loop of `IndexOf`, from the index `i` on.
unfoldable pub index_from : ℕ → List ℕ → ℕ → ℤ
index_from i [] target = negsuc 0
index_from i (x ∷ xs) target = if x == target then pos i else index_from (suc i) xs target

-- `IndexOf`
pub index_of : List ℕ → ℕ → ℤ
index_of xs target = index_from 0 xs target

-- `Delete`
unfoldable pub delete : List ℕ → ℕ → List ℕ
delete [] a = []
delete (x ∷ xs) a = let rest = delete xs a in if x == a then rest else x ∷ rest

-- Whether `DeleteIndex` and `Set` do nothing at an index.
unfoldable pub is_outside : List ℕ → ℤ → Bool
is_outside xs i = ltb_ℤ i (pos 0) || not (ltb_ℤ i (pos (length xs)))

-- `DeleteIndex`
unfoldable pub delete_index : List ℕ → ℤ → List ℕ
delete_index xs i = if is_outside xs i then xs else take (pos_part i) xs ++ drop (pos_part i + 1) xs

-- `Set`
unfoldable pub set_index : List ℕ → ℤ → ℕ → List ℕ
set_index xs i a = if is_outside xs i then xs else set xs (pos_part i) a
