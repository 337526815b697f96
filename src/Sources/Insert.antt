-- ===== src/Sources/Insert.antt =====
-- What every addition of a property source does: names stay unique, the sources of other names keep
-- their order, and the new one is found under its name.
use native.Mathlib.Decide.{ℕ_discrete as dec_eq}
use mathlib.Core.Path.{subst}
use ag_core.Prelude.{
  ℕ, zero, suc, ◌+◌, ◌≤◌, ◌≡◌, ◌≢◌, ◌⊎◌, refl, ◌∙◌, sym, ap, Option, none, some, List, [], ◌∷◌,
  ◌++◌, arith, ==_eq, ==_ne, inl, inr, length, take, drop, take_all, drop_all,
}
use ag_core.Prelude.Int.{pos, negsuc}
use ag_core.Cow.{add, add_index, clamp}
use ag_core.Sources.{
  SourcesError, relative_to_itself, not_found, get, index_of_name, index_of_name_from, add_at,
  add_first, add_last, add_before, add_after,
}
use ag_core.Sources.Unique.{
  Absent, IsUnique, others, others-Absent, Absent-others, others-IsUnique, remove_if_present-others,
}

-- `ps` in front of the element at `k`.
abbrev pub insert : ℕ → ℕ → List ℕ → List ℕ
insert k ps xs = take k xs ++ (ps ∷ drop k xs)

module _ (get_name : ℕ → ℕ) where
  Absent-insert :
      (n k ps : ℕ) (xs : List ℕ)
      → get_name ps ≢ n
      → Absent get_name n xs
      → Absent get_name n (insert k ps xs)
  Absent-insert n zero ps xs h a = (h, a)
  Absent-insert n (suc k) ps [] h a = (h, a)
  Absent-insert n (suc k) ps (x ∷ xs) h (b, a) = (b, Absent-insert n k ps xs h a)

  insert-IsUnique :
      (k ps : ℕ) (xs : List ℕ)
      → IsUnique get_name xs
      → Absent get_name (get_name ps) xs
      → IsUnique get_name (insert k ps xs)
  insert-IsUnique zero ps xs u a = (a, u)
  insert-IsUnique (suc k) ps [] u a = (a, u)
  insert-IsUnique (suc k) ps (x ∷ xs) (b, u) (h, a) =
      (Absent-insert (get_name x) k ps xs (λ e. h (sym e)) b, insert-IsUnique k ps xs u a)

  others-insert :
      (k ps : ℕ) (xs : List ℕ)
      → Absent get_name (get_name ps) xs
      → others get_name (get_name ps) (insert k ps xs) ≡ xs
  others-insert zero ps xs a =
      rw (==_eq {a = get_name ps} refl) (others-Absent get_name (get_name ps) xs a)
  others-insert (suc k) ps [] a = rw (==_eq {a = get_name ps} refl) refl
  others-insert (suc k) ps (x ∷ xs) (h, a) = rw (==_ne h) (ap (◌∷◌ x) (others-insert k ps xs a))

  get-insert :
      (k ps : ℕ) (xs : List ℕ)
      → Absent get_name (get_name ps) xs
      → get get_name (insert k ps xs) (get_name ps) ≡ some ps
  unfolding get
  get-insert zero ps xs a = rw (==_eq {a = get_name ps} refl) refl
  get-insert (suc k) ps [] a = rw (==_eq {a = get_name ps} refl) refl
  get-insert (suc k) ps (x ∷ xs) (h, a) = rw (==_ne h) (get-insert k ps xs a)

  -- What adding `ps` to `xs` gives.
  pub record Added (xs : List ℕ) (ps : ℕ) (res : List ℕ) : Type 0 where
    pub unique : IsUnique get_name res
    pub rest : others get_name (get_name ps) res ≡ others get_name (get_name ps) xs
    pub found : get get_name res (get_name ps) ≡ some ps

  insert-Added :
      (k : ℕ) (xs : List ℕ) (ps : ℕ)
      → IsUnique get_name xs
      → Added xs ps (insert k ps (others get_name (get_name ps) xs))
  insert-Added k xs ps u = record {
    unique =
        insert-IsUnique k ps (others get_name (get_name ps) xs)
          (others-IsUnique get_name (get_name ps) xs u) (Absent-others get_name (get_name ps) xs);
    rest =
        others-insert k ps (others get_name (get_name ps) xs)
          (Absent-others get_name (get_name ps) xs);
    found =
        get-insert k ps (others get_name (get_name ps) xs)
          (Absent-others get_name (get_name ps) xs);
  }

  -- On sources of which no two have the same name `add_first` puts the source in front of those of
  -- other names; names stay unique, and the source is found under its name.
  pub add_first-Added :
      (xs : List ℕ) (ps : ℕ)
      → IsUnique get_name xs
      → (add_first get_name xs ps ≡ ps ∷ others get_name (get_name ps) xs)
        × Added xs ps (add_first get_name xs ps)
  unfolding add_first add_index clamp
  add_first-Added xs ps u = rw whole (refl, insert-Added 0 xs ps u)
    where
      whole : add_first get_name xs ps ≡ ps ∷ others get_name (get_name ps) xs
      whole =
          ap (λ l. add_index l (pos 0) ps) (remove_if_present-others get_name xs (get_name ps) u)
          ∙ ap (λ k. insert k ps (others get_name (get_name ps) xs))
              {x = clamp (others get_name (get_name ps) xs) (pos 0)} {y = 0} (ground arith)

  -- On sources of which no two have the same name `add_last` puts the source behind those of other
  -- names; names stay unique, and the source is found under its name.
  pub add_last-Added :
      (xs : List ℕ) (ps : ℕ)
      → IsUnique get_name xs
      → (add_last get_name xs ps ≡ others get_name (get_name ps) xs ++ (ps ∷ []))
        × Added xs ps (add_last get_name xs ps)
  unfolding add_last add
  add_last-Added xs ps u =
      (whole, subst (Added xs ps) (sym at_end ∙ sym whole) (insert-Added (length rest) xs ps u))
    where
      rest : List ℕ
      rest = others get_name (get_name ps) xs

      whole : add_last get_name xs ps ≡ rest ++ (ps ∷ [])
      whole = ap (λ l. l ++ (ps ∷ [])) (remove_if_present-others get_name xs (get_name ps) u)

      at_end : rest ++ (ps ∷ []) ≡ insert (length rest) ps rest
      at_end = sym (
          ap (λ l. l ++ (ps ∷ drop (length rest) rest)) (take_all (length rest) rest (omega arith))
          ∙ ap (λ l. rest ++ (ps ∷ l)) (drop_all (length rest) rest (omega arith)))

  -- The index of a name: there is none, or it lies in the list.
  index_of_name-cases :
      (i : ℕ) (xs : List ℕ) (n : ℕ)
      → (Absent get_name n xs × (index_of_name_from get_name i xs n ≡ negsuc 0))
        ⊎ ((Absent get_name n xs → ⊥)
            × (k : ℕ) × (k ≤ length xs)
            × (index_of_name_from get_name i xs n ≡ pos (i + k)))
  unfolding index_of_name_from
  index_of_name-cases i [] n = inl (tt, refl)
  index_of_name-cases i (x ∷ xs) n = elim (dec_eq (get_name x) n) [
    | yes h ↦ inr (λ a. a.0 h, 0, omega arith, rw (==_eq h) (ap pos (omega arith)))
    | no h ↦ elim (index_of_name-cases (suc i) xs n) [
      | inl (a, e) ↦ inl ((h, a), rw (==_ne h) e)
      | inr (there, k, le, e) ↦
          inr (λ a. there a.1, suc k, omega arith, rw (==_ne h) (e ∙ ap pos (omega arith)))
    ]
  ]

  -- The outcomes of an addition next to the source of a name.
  abbrev pub AddsNextTo : List ℕ → ℕ → ℕ → Option SourcesError × List ℕ → Type 0
  AddsNextTo xs name ps res =
      ((name ≡ get_name ps) × (res ≡ (some relative_to_itself, xs)))
      ⊎ ((name ≢ get_name ps) × Absent get_name name xs × (res ≡ (some not_found, xs)))
      ⊎ ((name ≢ get_name ps) × (Absent get_name name xs → ⊥) × (res.0 ≡ none) × Added xs ps res.1)

  add_at-cases :
      (d : ℕ) (xs : List ℕ) (name ps : ℕ)
      → IsUnique get_name xs
      → name ≢ get_name ps
      → AddsNextTo xs name ps (add_at get_name d xs ps (index_of_name get_name xs name))
  unfolding add_at index_of_name add_index
  add_at-cases d xs name ps u h = elim (index_of_name-cases 0 xs name) [
    | inl (a, e) ↦ inr (inl (h, a, rw e refl))
    | inr (there, k, le, e) ↦ inr (
        inr (
          rw e (
            h,
            there,
            refl,
            subst (λ l. Added xs ps (add_index l (pos (0 + k + d)) ps))
                (sym (remove_if_present-others get_name xs (get_name ps) u))
                (insert-Added (clamp (others get_name (get_name ps) xs) (pos (0 + k + d))) xs ps u),
          )))
  ]

  -- On sources of which no two have the same name `add_before` refuses an addition relative to the
  -- source's own name, and one relative to a name that is not there, and changes nothing then;
  -- otherwise, where the name is there, it succeeds, names stay unique, the sources of other names
  -- keep their order, and the source is found under its name.
  pub add_before-cases :
      (xs : List ℕ) (name ps : ℕ)
      → IsUnique get_name xs
      → AddsNextTo xs name ps (add_before get_name xs name ps)
  unfolding add_before
  add_before-cases xs name ps u = elim (dec_eq name (get_name ps)) [
    | yes h ↦ rw (==_eq h) (inl (h, refl))
    | no h ↦ rw (==_ne h) (add_at-cases 0 xs name ps u h)
  ]

  -- On sources of which no two have the same name `add_after` refuses an addition relative to the
  -- source's own name, and one relative to a name that is not there, and changes nothing then;
  -- otherwise it succeeds, names stay unique, the sources of other names keep their order, and the
  -- source is found under its name.
  pub add_after-cases :
      (xs : List ℕ) (name ps : ℕ)
      → IsUnique get_name xs
      → AddsNextTo xs name ps (add_after get_name xs name ps)
  unfolding add_after
  add_after-cases xs name ps u = elim (dec_eq name (get_name ps)) [
    | yes h ↦ rw (==_eq h) (inl (h, refl))
    | no h ↦ rw (==_ne h) (add_at-cases 1 xs name ps u h)
  ]
