-- ===== src/Sorting.antt =====
-- What the code relies on of sort.Sort, which is Go's: the result has the elements of the
-- slice, and none is less than one before it. Elements of the same order come in any order.
pub mod Insertion
use mathlib.Core.Bool.{Bool-set}
use mathlib.Core.Logic.Or
use mathlib.Core.Logic.{∥∥₁_elim, ∥∥₁_prop, ◌∨₁◌}
use mathlib.Core.Path.{subst}
use mathlib.Core.HLevel.{⊥_prop}
use mathlib.Core.List.{not-mem-nil, Mem, Perm, Memᴰ, mem-cons_self, eq-or-mem_of_mem-cons}
use mathlib.Core.List.Perm
use mathlib.Core.List.Memᴰ
use ag_core.Prelude.{
  ◌≡◌, ◌≢◌, refl, sym, ap, ◌∙◌, Bool, true, false, List, [], ◌∷◌, ◌+◌, le→ltb, arith,
}
use ag_core.Prelude.Int.{ℤ, ltb_ℤ, pos_part, neg_part}

abbrev pub Every {ℓ} : {A : Type ℓ} → (A → Bool) → List A → Type 0
Every p [] = Unit {0}
Every p (x ∷ xs) = (p x ≡ true) × Every p xs

pub Every-Mem {ℓ} :
    {A : Type ℓ} (p : A → Bool) (x : A) (xs : List A) → Every p xs → Mem x xs → p x ≡ true
Every-Mem p x [] e m = ∥∥₁_elim m (Bool-set (p x) true) (λ d. absurd (Memᴰ.not-nil d))
Every-Mem p x (y ∷ ys) (h, e) m =
    Or.elim (Bool-set (p x) true) (eq-or-mem_of_mem-cons m) (λ q. ap p q ∙ h)
      (λ n. Every-Mem p x ys e n)

ltb_ℤ_irrefl : (x : ℤ) → ltb_ℤ x x ≡ false
ltb_ℤ_irrefl x = le→ltb (pos_part x + neg_part x) (pos_part x + neg_part x) (omega arith)

module _ {ℓ} {A : Type ℓ} (order : A → ℤ) where
  -- None is less than `x`.
  abbrev pub NotBelow : A → List A → Type 0
  NotBelow x [] = Unit {0}
  NotBelow x (y ∷ ys) = (ltb_ℤ (order y) (order x) ≡ false) × NotBelow x ys

  abbrev pub IsSorted : List A → Type 0
  IsSorted [] = Unit {0}
  IsSorted (x ∷ xs) = NotBelow x xs × IsSorted xs

  abbrev pub Sorts : (List A → List A) → Type ℓ
  Sorts sort = (l : List A) → Perm (sort l) l × IsSorted (sort l)

  NotBelow-Mem :
      (x y : A) (xs : List A) → NotBelow x xs → Mem y xs → ltb_ℤ (order y) (order x) ≡ false
  NotBelow-Mem x y [] n m =
      ∥∥₁_elim m (Bool-set (ltb_ℤ (order y) (order x)) false) (λ d. absurd (Memᴰ.not-nil d))
  NotBelow-Mem x y (z ∷ zs) (h, n) m =
      Or.elim (Bool-set (ltb_ℤ (order y) (order x)) false) (eq-or-mem_of_mem-cons m)
        (λ q. ap (λ w. ltb_ℤ (order w) (order x)) q ∙ h) (λ k. NotBelow-Mem x y zs n k)

  -- A sorted list with `m` first and the elements of `l` behind it.
  abbrev pub StartsWith : List A → A → List A → Type ℓ
  StartsWith s m l = (rest : List A) × (s ≡ m ∷ rest) × Perm rest l × IsSorted rest

  -- An element that is less than all others comes first.
  pub sort-least :
      (sort : List A → List A) (m : A) (l l' : List A)
      → Sorts sort
      → Perm l' (m ∷ l)
      → Every (λ x. ltb_ℤ (order m) (order x)) l
      → ∥ StartsWith (sort l') m l ∥₁
  sort-least sort m l l' sorts same least =
      go (sort l') refl (Perm.trans (sorts l').0 same) (sorts l').1
    where
      go : (s : List A) → sort l' ≡ s → Perm s (m ∷ l) → IsSorted s → ∥ StartsWith (sort l') m l ∥₁
      go [] e p s = absurd (not-mem-nil ((Perm.mem_iff p).1 mem-cons_self))
      go (h ∷ rest) e p (n, s) =
          Or.elim ∥∥₁_prop (eq-or-mem_of_mem-cons ((Perm.mem_iff p).0 mem-cons_self)) (λ q. here q)
            (λ k. absurd (elsewhere k))
        where
          here : h ≡ m → ∥ StartsWith (sort l') m l ∥₁
          here q = ∣ (
            rest,
            e ∙ ap (λ x. x ∷ rest) q,
            Perm.cons_inv (subst (λ x. Perm (x ∷ rest) (m ∷ l)) q p),
            s,
          ) ∣₁

          elsewhere : Mem h l → ⊥
          elsewhere k =
              let less = Every-Mem (λ x. ltb_ℤ (order m) (order x)) h l least k in
              Or.elim ⊥_prop (eq-or-mem_of_mem-cons ((Perm.mem_iff p).1 mem-cons_self))
                (λ q.
                  let same_order = ap (λ x. ltb_ℤ (order x) (order h)) q in
                  let no = ltb_ℤ_irrefl (order h) in cc (less, same_order, no))
                (λ b. let no = NotBelow-Mem h m rest n b in cc (less, no))
