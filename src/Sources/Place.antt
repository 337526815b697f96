-- ===== src/Sources/Place.antt =====
-- Where `AddBefore` puts its source.
use native.Mathlib.Decide.{ℕ_discrete as dec_eq}
use mathlib.Core.Path.{subst}
use ag_core.Prelude.{
  ℕ, suc, ◌+◌, ◌≡◌, ◌≢◌, refl, ◌∙◌, sym, ap, ap₂, none, List, [], ◌∷◌, ◌++◌, arith, ==_eq, ==_ne,
  length, take-append_add, drop-append_add, length-append, append-nil, append_assoc, le→ltb,
}
use ag_core.Prelude.Int.{pos}
use ag_core.Cow.{add_index, clamp}
use ag_core.Sources.{index_of_name, index_of_name_from, add_at, add_before, remove_if_present}
use ag_core.Sources.Unique.{Absent, IsUnique, others, others-Absent, remove_if_present-others}
use ag_core.Sources.Insert.{insert}

module _ (get_name : ℕ → ℕ) where
  pub others-append :
      (n : ℕ) (xs ys : List ℕ)
      → others get_name n (xs ++ ys) ≡ others get_name n xs ++ others get_name n ys
  others-append n [] ys = refl
  others-append n (x ∷ xs) ys = elim (dec_eq (get_name x) n) [
    | yes h ↦ rw (==_eq h) (others-append n xs ys)
    | no h ↦ rw (==_ne h) (ap (◌∷◌ x) (others-append n xs ys))
  ]

  Absent-append :
      (n : ℕ) (xs ys : List ℕ)
      → Absent get_name n (xs ++ ys)
      → Absent get_name n xs × Absent get_name n ys
  Absent-append n [] ys a = (tt, a)
  Absent-append n (x ∷ xs) ys (h, a) = let (b, c) = Absent-append n xs ys a in ((h, b), c)

  -- The name of a source stands nowhere else.
  pub IsUnique-append :
      (t : ℕ) (xs ys : List ℕ)
      → IsUnique get_name (xs ++ t ∷ ys)
      → Absent get_name (get_name t) xs × Absent get_name (get_name t) ys
  IsUnique-append t [] ys (a, u) = (tt, a)
  IsUnique-append t (x ∷ xs) ys (a, u) =
      let (b, c) = IsUnique-append t xs ys u in
      let (d, (h, e)) = Absent-append (get_name x) xs (t ∷ ys) a in (((λ q. h (sym q)), b), c)

  pub index_at :
      (i t : ℕ) (xs ys : List ℕ)
      → Absent get_name (get_name t) xs
      → index_of_name_from get_name i (xs ++ t ∷ ys) (get_name t) ≡ pos (i + length xs)
  unfolding index_of_name_from
  index_at i t [] ys a = rw (==_eq {a = get_name t} refl) (ap pos (omega arith))
  index_at i t (x ∷ xs) ys (h, a) = rw (==_ne h) (index_at (suc i) t xs ys a ∙ ap pos (omega arith))

  insert-append : (ps : ℕ) (xs ys : List ℕ) → insert (length xs + 0) ps (xs ++ ys) ≡ xs ++ ps ∷ ys
  insert-append ps xs ys =
      ap₂ (λ a b. a ++ (ps ∷ b)) (take-append_add 0 xs ys ∙ append-nil xs) (drop-append_add 0 xs ys)

  clamp-append : (xs ys : List ℕ) (k : ℕ) → k ≡ length xs → clamp (xs ++ ys) (pos k) ≡ length xs + 0
  unfolding clamp
  clamp-append xs ys k e =
      rw (le→ltb (length (xs ++ ys)) k (omega (arith, length-append xs ys))) (omega arith)

  -- What is left of the list is known, and so is the index.
  add_before-at :
      (front back : List ℕ) (t ps : ℕ) (left right : List ℕ)
      → IsUnique get_name (front ++ t ∷ back)
      → get_name t ≢ get_name ps
      → others get_name (get_name ps) (front ++ t ∷ back) ≡ left ++ right
      → length front ≡ length left
      → add_before get_name (front ++ t ∷ back) (get_name t) ps ≡ (none, left ++ ps ∷ right)
  unfolding add_before add_at index_of_name add_index
  add_before-at front back t ps left right u h e l =
      rw (==_ne h, index_at 0 t front back (IsUnique-append t front back u).0)
        (ap (λ r. (none, r)) placed)
    where
      placed :
          add_index
            (remove_if_present get_name (front ++ t ∷ back) (get_name ps))
            (pos (0 + length front + 0))
            ps
          ≡ left ++ ps ∷ right
      placed =
          ap (λ xs. add_index xs (pos (0 + length front + 0)) ps)
            (remove_if_present-others get_name (front ++ t ∷ back) (get_name ps) u ∙ e)
          ∙ ap (λ k. insert k ps (left ++ right))
              (clamp-append left right (0 + length front + 0) (omega (arith, l)))
          ∙ insert-append ps left right

  -- On sources of which no two have the same name `add_before` puts the source directly before the
  -- named one, and takes off an older source of its name, where that older source does not stand
  -- before the named one.
  pub add_before-place :
      (front back : List ℕ) (t ps : ℕ)
      → IsUnique get_name (front ++ t ∷ back)
      → get_name t ≢ get_name ps
      → Absent get_name (get_name ps) front
      → add_before get_name (front ++ t ∷ back) (get_name t) ps
        ≡ (none, front ++ ps ∷ t ∷ others get_name (get_name ps) back)
  add_before-place front back t ps u h a =
      add_before-at front back t ps front (t ∷ others get_name (get_name ps) back) u h
        (others-append (get_name ps) front (t ∷ back)
          ∙ ap₂ ◌++◌ (others-Absent get_name (get_name ps) front a) (rw (==_ne h) refl))
        refl

  -- On sources of which no two have the same name, and where an older source of the added one's
  -- name stands before the named one, `add_before` takes the older one off and puts the new one
  -- directly behind the named source.
  pub add_before-behind :
      (front mid back : List ℕ) (old t ps : ℕ)
      → IsUnique get_name ((front ++ old ∷ mid) ++ t ∷ back)
      → get_name old ≡ get_name ps
      → get_name t ≢ get_name ps
      → add_before get_name ((front ++ old ∷ mid) ++ t ∷ back) (get_name t) ps
        ≡ (none, ((front ++ mid) ++ t ∷ []) ++ ps ∷ back)
  add_before-behind front mid back old t ps u same h =
      add_before-at (front ++ old ∷ mid) back t ps ((front ++ mid) ++ t ∷ []) back u h gone (
        omega (
          arith,
          length-append front (old ∷ mid),
          length-append (front ++ mid) (t ∷ []),
          length-append front mid,
        ))
    where
      tail : List ℕ
      tail = mid ++ t ∷ back

      shape : (front ++ old ∷ mid) ++ t ∷ back ≡ front ++ old ∷ tail
      shape = append_assoc front (old ∷ mid) (t ∷ back)

      alone : Absent get_name (get_name ps) front × Absent get_name (get_name ps) tail
      alone =
          subst (λ n. Absent get_name n front × Absent get_name n tail) same
            (IsUnique-append old front tail (subst (IsUnique get_name) shape u))

      regroup : front ++ tail ≡ ((front ++ mid) ++ t ∷ []) ++ back
      regroup = sym (append_assoc (front ++ mid) (t ∷ []) back ∙ append_assoc front mid (t ∷ back))

      gone :
          others get_name (get_name ps) ((front ++ old ∷ mid) ++ t ∷ back)
          ≡ ((front ++ mid) ++ t ∷ []) ++ back
      gone =
          ap (others get_name (get_name ps)) shape
          ∙ others-append (get_name ps) front (old ∷ tail)
          ∙ ap₂ ◌++◌ (others-Absent get_name (get_name ps) front alone.0)
              (rw (==_eq same) (others-Absent get_name (get_name ps) tail alone.1))
          ∙ regroup
