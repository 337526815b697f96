-- ===== src/Sources/Remove.antt =====
-- `Remove` and `Replace`, which go by the index of a name.
use native.Mathlib.Decide.{ℕ_discrete as dec_eq}
use mathlib.Core.Path.{subst}
use ag_core.Prelude.{
  ℕ, suc, ◌+◌, ◌≡◌, ◌⊎◌, refl, ◌∙◌, sym, ap, ap₂, false, none, List, [], ◌∷◌, ◌++◌, arith, ==_eq,
  ==_ne, inl, inr, length, set, take, drop, take-append_add, drop-append_add, length-append,
  append-nil,
}
use ag_core.Prelude.Int.{pos, negsuc}
use ag_core.Cow.{delete_index, set_index, is_outside}
use ag_core.Sources.{index_of_name, index_of_name_from, remove, replace, replace_at}
use ag_core.Sources.Unique.{Absent, IsUnique, others, others-Absent}
use ag_core.Sources.Place.{index_at, others-append, IsUnique-append}

set-append : (xs ys : List ℕ) (t v : ℕ) → set (xs ++ t ∷ ys) (length xs) v ≡ xs ++ v ∷ ys
set-append [] ys t v = refl
set-append (x ∷ xs) ys t v = ap (◌∷◌ x) (set-append xs ys t v)

inside : (xs ys : List ℕ) (t : ℕ) → is_outside (xs ++ t ∷ ys) (pos (length xs)) ≡ false
unfolding is_outside
inside xs ys t = ground (arith, length-append xs (t ∷ ys))

module _ (get_name : ℕ → ℕ) where
  -- A name is absent, or its first source splits the list.
  split_at :
      (xs : List ℕ) (n : ℕ)
      → Absent get_name n xs
        ⊎ ((front : List ℕ) × (t : ℕ) × (back : List ℕ) × (xs ≡ front ++ t ∷ back)
            × (get_name t ≡ n)
            × Absent get_name n front)
  split_at [] n = inl tt
  split_at (x ∷ xs) n = elim (dec_eq (get_name x) n) [
    | yes h ↦ inr ([], x, xs, refl, h, tt)
    | no h ↦ elim (split_at xs n) [
      | inl a ↦ inl (h, a)
      | inr (front, t, back, e, k, a) ↦ inr (x ∷ front, t, back, ap (◌∷◌ x) e, k, (h, a))
    ]
  ]

  index-Absent :
      (i : ℕ) (xs : List ℕ) (n : ℕ)
      → Absent get_name n xs
      → index_of_name_from get_name i xs n ≡ negsuc 0
  unfolding index_of_name_from
  index-Absent i [] n a = refl
  index-Absent i (x ∷ xs) n (h, a) = rw (==_ne h) (index-Absent (suc i) xs n a)

  removed_at :
      (front back : List ℕ) (t : ℕ)
      → IsUnique get_name (front ++ t ∷ back)
      → remove get_name (front ++ t ∷ back) (get_name t)
        ≡ others get_name (get_name t) (front ++ t ∷ back)
  unfolding remove index_of_name delete_index
  removed_at front back t u =
      let (a, b) = IsUnique-append get_name t front back u in
      ap (delete_index (front ++ t ∷ back)) (
        index_at get_name 0 t front back a
        ∙ ap pos {x = 0 + length front} {y = length front} (omega arith))
      ∙ rw (inside front back t) cut
      ∙ sym (
          others-append get_name (get_name t) front (t ∷ back)
          ∙ ap₂ ◌++◌ (others-Absent get_name (get_name t) front a) (head_gone b))
    where
      head_gone : Absent get_name (get_name t) back → others get_name (get_name t) (t ∷ back) ≡ back
      head_gone b = rw (==_eq {a = get_name t} refl) (others-Absent get_name (get_name t) back b)

      cut :
          take (length front) (front ++ t ∷ back) ++ drop (length front + 1) (front ++ t ∷ back)
          ≡ front ++ back
      cut =
          ap₂ ◌++◌
            (ap (λ k. take k (front ++ t ∷ back)) {x = length front} {y = length front + 0}
                (omega arith)
              ∙ take-append_add 0 front (t ∷ back)
              ∙ append-nil front)
            (drop-append_add 1 front (t ∷ back))

  -- On sources of which no two have the same name `remove` leaves exactly the sources of other
  -- names, in their order, whether the name is there or not.
  pub remove-others :
      (xs : List ℕ) (n : ℕ) → IsUnique get_name xs → remove get_name xs n ≡ others get_name n xs
  unfolding remove index_of_name delete_index is_outside
  remove-others xs n u = elim (split_at xs n) [
    | inl a ↦ missing a ∙ sym (others-Absent get_name n xs a)
    | inr (front, t, back, e, h, a) ↦
        ap₂ (remove get_name) e (sym h)
        ∙ removed_at front back t (subst (IsUnique get_name) e u)
        ∙ ap₂ (others get_name) h (sym e)
  ]
    where
      missing : Absent get_name n xs → remove get_name xs n ≡ xs
      missing a = ap (delete_index xs) (index-Absent 0 xs n a)

  -- On sources of which no two have the same name `replace` of a name that is there succeeds and
  -- puts the source at the place of the named one, and moves no other.
  pub replace-place :
      (front back : List ℕ) (t ps : ℕ)
      → IsUnique get_name (front ++ t ∷ back)
      → replace get_name (front ++ t ∷ back) (get_name t) ps ≡ (none, front ++ ps ∷ back)
  unfolding replace replace_at index_of_name set_index
  replace-place front back t ps u =
      rw (index_at get_name 0 t front back (IsUnique-append get_name t front back u).0)
        (ap (λ l. (none, l)) put)
    where
      put : set_index (front ++ t ∷ back) (pos (0 + length front)) ps ≡ front ++ ps ∷ back
      put =
          ap (λ k. set_index (front ++ t ∷ back) (pos k) ps) {x = 0 + length front}
            {y = length front} (omega arith)
          ∙ rw (inside front back t) (set-append front back t ps)
