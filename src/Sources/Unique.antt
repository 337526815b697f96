-- ===== src/Sources/Unique.antt =====
-- The invariant of the property sources: no two have the same name; and what removing a name leaves.
use native.Mathlib.Decide.{ℕ_discrete as dec_eq}
use mathlib.Core.Path.{subst}
use ag_core.Prelude.{
  ℕ, ◌≡◌, ◌≢◌, refl, ◌∙◌, sym, ap, none, some, List, [], ◌∷◌, arith, ◌==◌, ==_eq, ==_ne,
  if◌then◌else◌, inl, inr, Option-cases,
}
use ag_core.Cow.{delete}
use ag_core.Sources.{get, remove_if_present}

module _ (get_name : ℕ → ℕ) where
  -- No source has the name.
  abbrev pub Absent : ℕ → List ℕ → Type 0
  Absent n [] = Unit {0}
  Absent n (x ∷ xs) = (get_name x ≢ n) × Absent n xs

  abbrev pub IsUnique : List ℕ → Type 0
  IsUnique [] = Unit {0}
  IsUnique (x ∷ xs) = Absent (get_name x) xs × IsUnique xs

  -- The sources that have another name.
  abbrev pub others : ℕ → List ℕ → List ℕ
  others n [] = []
  others n (x ∷ xs) = if get_name x == n then others n xs else x ∷ others n xs

  pub others-Absent : (n : ℕ) (xs : List ℕ) → Absent n xs → others n xs ≡ xs
  others-Absent n [] a = refl
  others-Absent n (x ∷ xs) (h, a) = rw (==_ne h) (ap (◌∷◌ x) (others-Absent n xs a))

  pub Absent-others : (n : ℕ) (xs : List ℕ) → Absent n (others n xs)
  Absent-others n [] = tt
  Absent-others n (x ∷ xs) = elim (dec_eq (get_name x) n) [
    | yes h ↦ rw (==_eq h) (Absent-others n xs)
    | no h ↦ rw (==_ne h) (h, Absent-others n xs)
  ]

  Absent-still : (m n : ℕ) (xs : List ℕ) → Absent m xs → Absent m (others n xs)
  Absent-still m n [] a = tt
  Absent-still m n (x ∷ xs) (h, a) = elim (dec_eq (get_name x) n) [
    | yes e ↦ rw (==_eq e) (Absent-still m n xs a)
    | no e ↦ rw (==_ne e) (h, Absent-still m n xs a)
  ]

  pub others-IsUnique : (n : ℕ) (xs : List ℕ) → IsUnique xs → IsUnique (others n xs)
  others-IsUnique n [] u = tt
  others-IsUnique n (x ∷ xs) (a, u) = elim (dec_eq (get_name x) n) [
    | yes e ↦ rw (==_eq e) (others-IsUnique n xs u)
    | no e ↦ rw (==_ne e) (Absent-still (get_name x) n xs a, others-IsUnique n xs u)
  ]

  get-name : (xs : List ℕ) (n p : ℕ) → get get_name xs n ≡ some p → get_name p ≡ n
  unfolding get
  get-name [] n p e = ground arith
  get-name (x ∷ xs) n p e = elim (dec_eq (get_name x) n) [
    | yes h ↦ ground (arith, ==_eq h)
    | no h ↦ get-name xs n p (ground (arith, ==_ne h))
  ]

  get_none : (xs : List ℕ) (n : ℕ) → get get_name xs n ≡ none → others n xs ≡ xs
  unfolding get
  get_none [] n e = refl
  get_none (x ∷ xs) n e = elim (dec_eq (get_name x) n) [
    | yes h ↦ ground (arith, ==_eq h)
    | no h ↦ rw (==_ne h) (ap (◌∷◌ x) (get_none xs n (ground (arith, ==_ne h))))
  ]

  -- Deleting a reference leaves the sources of other names.
  delete-Absent : (xs : List ℕ) (p : ℕ) → Absent (get_name p) xs → delete xs p ≡ xs
  unfolding delete
  delete-Absent [] p a = refl
  delete-Absent (x ∷ xs) p (h, a) =
      rw (==_ne {a = x} {b = p} (λ e. h (ap get_name e))) (ap (◌∷◌ x) (delete-Absent xs p a))

  delete-others :
      (xs : List ℕ) (n p : ℕ) → IsUnique xs → get get_name xs n ≡ some p → delete xs p ≡ others n xs
  unfolding get delete
  delete-others [] n p u e = refl
  delete-others (x ∷ xs) n p (a, u) e = elim (dec_eq (get_name x) n) [
    | yes h ↦
        let q : x ≡ p = found h in
        rw (==_eq h, ==_eq q)
          (delete-Absent xs p (subst (λ k. Absent (get_name k) xs) q a)
            ∙ sym (others-Absent n xs (subst (λ k. Absent k xs) h a)))
    | no h ↦
        rw (==_ne h, ==_ne {a = x} {b = p} (λ q. h (ap get_name q ∙ get-name xs n p (further h))))
          (ap (◌∷◌ x) (delete-others xs n p u (further h)))
  ]
    where
      found : get_name x ≡ n → x ≡ p
      found h = ground (arith, ==_eq h)

      further : get_name x ≢ n → get get_name xs n ≡ some p
      further h = ground (arith, ==_ne h)

  -- Removing a name leaves the sources of other names.
  pub remove_if_present-others :
      (xs : List ℕ) (n : ℕ) → IsUnique xs → remove_if_present get_name xs n ≡ others n xs
  unfolding remove_if_present
  remove_if_present-others xs n u = elim (Option-cases (get get_name xs n)) [
    | inl e ↦ rw (e, remove_if_present) (sym (get_none xs n e))
    | inr (p, e) ↦ rw (e, remove_if_present) (delete-others xs n p u e)
  ]
