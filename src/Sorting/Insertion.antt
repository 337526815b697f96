-- ===== src/Sorting/Insertion.antt =====
-- A sort by insertion, which has the laws of `Sorts`: the chains of the tests use it.
use mathlib.Core.List.{Perm}
use mathlib.Core.List.Perm
use ag_core.Prelude.{
  ◌≡◌, true, false, List, [], ◌∷◌, ◌+◌, if◌then◌else◌, Bool-cases, inl, inr, ltb→lt, ltb→le, le→ltb,
  arith,
}
use ag_core.Prelude.Int.{ℤ, ltb_ℤ, pos_part, neg_part}
use ag_core.Sorting.{NotBelow, IsSorted, Sorts}

module _ {ℓ} {A : Type ℓ} (order : A → ℤ) where
  abbrev pub insert : A → List A → List A
  insert x [] = x ∷ []
  insert x (y ∷ ys) = if ltb_ℤ (order y) (order x) then y ∷ insert x ys else x ∷ y ∷ ys

  abbrev pub insertion_sort : List A → List A
  insertion_sort [] = []
  insertion_sort (x ∷ xs) = insert x (insertion_sort xs)

  insert-Perm : (x : A) (ys : List A) → Perm (insert x ys) (x ∷ ys)
  insert-Perm x [] = Perm.rfl
  insert-Perm x (y ∷ ys) = elim (Bool-cases (ltb_ℤ (order y) (order x))) [
    | inl p ↦ rw p (Perm.trans (Perm.cons y (insert-Perm x ys)) (Perm.swap x y ys))
    | inr p ↦ rw p Perm.rfl
  ]

  insert-NotBelow :
      (z x : A) (ys : List A)
      → ltb_ℤ (order x) (order z) ≡ false
      → NotBelow order z ys
      → NotBelow order z (insert x ys)
  insert-NotBelow z x [] h n = (h, tt)
  insert-NotBelow z x (y ∷ ys) h (k, n) = elim (Bool-cases (ltb_ℤ (order y) (order x))) [
    | inl p ↦ rw p (k, insert-NotBelow z x ys h n)
    | inr p ↦ rw p (h, (k, n))
  ]

  not_below_trans : (x y z : ℤ) → ltb_ℤ y x ≡ false → ltb_ℤ z y ≡ false → ltb_ℤ z x ≡ false
  not_below_trans x y z h k = le→ltb (pos_part z + neg_part x) (pos_part x + neg_part z) (
      omega (
        arith,
        ltb→le (pos_part y + neg_part x) (pos_part x + neg_part y) h,
        ltb→le (pos_part z + neg_part y) (pos_part y + neg_part z) k,
      ))

  NotBelow-trans :
      (x y : A) (zs : List A)
      → ltb_ℤ (order y) (order x) ≡ false
      → NotBelow order y zs
      → NotBelow order x zs
  NotBelow-trans x y [] h n = tt
  NotBelow-trans x y (z ∷ zs) h (k, n) =
      (not_below_trans (order x) (order y) (order z) h k, NotBelow-trans x y zs h n)

  insert-IsSorted : (x : A) (ys : List A) → IsSorted order ys → IsSorted order (insert x ys)
  insert-IsSorted x [] s = (tt, tt)
  insert-IsSorted x (y ∷ ys) (n, s) = elim (Bool-cases (ltb_ℤ (order y) (order x))) [
    | inl p ↦ rw p (insert-NotBelow y x ys (asym (order y) (order x) p) n, insert-IsSorted x ys s)
    | inr p ↦ rw p ((p, NotBelow-trans x y ys p n), (n, s))
  ]
    where
      asym : (a b : ℤ) → ltb_ℤ a b ≡ true → ltb_ℤ b a ≡ false
      asym a b h =
          le→ltb (pos_part b + neg_part a) (pos_part a + neg_part b)
            (omega (arith, ltb→lt (pos_part a + neg_part b) (pos_part b + neg_part a) h))

  pub insertion_sort-Sorts : Sorts order insertion_sort
  insertion_sort-Sorts [] = (Perm.rfl, tt)
  insertion_sort-Sorts (x ∷ xs) =
      let (p, s) = insertion_sort-Sorts xs in
      (
        Perm.trans (insert-Perm x (insertion_sort xs)) (Perm.cons x p),
        insert-IsSorted x (insertion_sort xs) s,
      )
