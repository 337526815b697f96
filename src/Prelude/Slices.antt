-- ===== src/Prelude/Slices.antt =====
-- Go's slice expressions over lists: `s[lo:hi]` is `slice lo hi s`, `copy(dst, src)` is
-- `copy dst src`, and `copy(dst[k:], src)` is `copy_at k dst src`.
use Prim.Native.Nat.{ℕ, ◌+◌, ◌-◌, ◌≤◌}
use mathlib.Core.Path.{◌≡◌, ap, ap₂, sym, ◌∙◌}
use mathlib.Core.List.{List, ◌++◌, append_assoc}
use mathlib.Core.Logic.{inl, inr}
use native.Mathlib.Decide.{dec_lt}
use native.Mathlib.Omega.{arith}
use ag_core.Prelude.Tests.{ltb, if◌then◌else◌, tests, Bool-cases}
use ag_core.Prelude.Lists.{
  length, take, drop, length-append, length-take, length-drop, take_all, drop_all, take-append_le,
  take-append_add, drop-append_le, drop-append_add, take-take_le, drop-drop, drop-take,
}

module _ {ℓ} {A : Type ℓ} where
  -- `s[lo:hi]`.
  abbrev pub slice : ℕ → ℕ → List A → List A
  slice lo hi xs = take (hi - lo) (drop lo xs)

  -- `copy(dst, src)`: as many elements as both hold; the rest of `dst` stays.
  abbrev pub copy : List A → List A → List A
  copy dst src = take (length dst) src ++ drop (length src) dst

  -- `copy(dst[at:], src)`.
  abbrev pub copy_at : ℕ → List A → List A → List A
  copy_at k dst src = take k dst ++ copy (drop k dst) src

module _ {ℓ} {A : Type ℓ} where
  pub slice_add : (k m : ℕ) (xs : List A) → slice k (k + m) xs ≡ take m (drop k xs)
  slice_add k m xs = ap (λ n. take n (drop k xs)) (omega arith)

  -- A count that is cut to what there is.
  pub take_cut : (n k : ℕ) (xs : List A) → take (if ltb n k then n else k) xs ≡ take n (take k xs)
  take_cut n k xs = elim (Bool-cases (ltb n k)) [
    | inl p ↦ rw p (sym (take-take_le n k xs (omega tests)))
    | inr p ↦ rw p (sym (take_all n (take k xs) (omega (tests, length-take k xs))))
  ]

  pub drop_cut :
      (n k : ℕ) (xs : List A) → drop (if ltb n k then n else k) (take k xs) ≡ drop n (take k xs)
  drop_cut n k xs = elim (Bool-cases (ltb n k)) [
    | inl p ↦ rw p
    | inr p ↦ rw p (
        drop_all k (take k xs) (omega (arith, length-take k xs))
        ∙ sym (drop_all n (take k xs) (omega (tests, length-take k xs))))
  ]

  pub take-append_ge :
      (n : ℕ) (xs ys : List A) → length xs ≤ n → take n (xs ++ ys) ≡ xs ++ take (n - length xs) ys
  take-append_ge n xs ys h = ap (λ k. take k (xs ++ ys)) e ∙ take-append_add (n - length xs) xs ys
    where
      e : n ≡ length xs + (n - length xs)
      e = omega arith

  pub drop-append_ge :
      (n : ℕ) (xs ys : List A) → length xs ≤ n → drop n (xs ++ ys) ≡ drop (n - length xs) ys
  drop-append_ge n xs ys h = ap (λ k. drop k (xs ++ ys)) e ∙ drop-append_add (n - length xs) xs ys
    where
      e : n ≡ length xs + (n - length xs)
      e = omega arith

  pub length-copy : (dst src : List A) → length (copy dst src) ≡ length dst
  length-copy dst src = omega (
    arith,
    length-append (take (length dst) src) (drop (length src) dst),
    length-take (length dst) src,
    length-drop (length src) dst,
  )

  pub length-copy_at : (k : ℕ) (dst src : List A) → length (copy_at k dst src) ≡ length dst
  length-copy_at k dst src = omega (
    arith,
    length-append (take k dst) (copy (drop k dst) src),
    length-take k dst,
    length-copy (drop k dst) src,
    length-drop k dst,
  )

  -- A copy of a source that fits is the source and the rest.
  pub copy_fits :
      (dst src : List A) → length src ≤ length dst → copy dst src ≡ src ++ drop (length src) dst
  copy_fits dst src h = ap (λ s. s ++ drop (length src) dst) (take_all (length dst) src h)

  pub take_cut_all :
      (n k : ℕ) (xs : List A) → length xs ≤ k → take (if ltb n k then n else k) xs ≡ take n xs
  take_cut_all n k xs h = take_cut n k xs ∙ ap (take n) (take_all k xs h)

  pub drop_cut_all :
      (n k : ℕ) (xs : List A) → length xs ≤ k → drop (if ltb n k then n else k) xs ≡ drop n xs
  drop_cut_all n k xs h = elim (Bool-cases (ltb n k)) [
    | inl p ↦ rw p
    | inr p ↦ rw p (drop_all k xs h ∙ sym (drop_all n xs (omega tests)))
  ]

  -- Fewer elements from the front of a slice.
  pub drop-slice :
      (n lo hi : ℕ) (xs : List A) → n ≤ hi - lo → drop n (slice lo hi xs) ≡ slice (lo + n) hi xs
  drop-slice n lo hi xs h =
      ap (λ k. drop n (take k (drop lo xs))) e
      ∙ drop-take n (hi - lo - n) (drop lo xs)
      ∙ ap (take (hi - lo - n)) (drop-drop n lo xs)
      ∙ ap (λ k. take k (drop (lo + n) xs)) f
    where
      e : hi - lo ≡ n + (hi - lo - n)
      e = omega arith

      f : hi - lo - n ≡ hi - (lo + n)
      f = omega arith

  -- What is left of a prefix is a slice.
  pub drop-take-slice : (lo hi : ℕ) (xs : List A) → lo ≤ hi → drop lo (take hi xs) ≡ slice lo hi xs
  drop-take-slice lo hi xs h = ap (λ k. drop lo (take k xs)) e ∙ drop-take lo (hi - lo) xs
    where
      e : hi ≡ lo + (hi - lo)
      e = omega arith

module _ {ℓ} {A : Type ℓ} where
  -- A copy reads no more of the source than the destination holds.
  pub copy-take : (dst xs : List A) → copy dst (take (length dst) xs) ≡ copy dst xs
  copy-take dst xs = elim (dec_lt (length dst) (length xs)) [
    | yes h ↦ ap₂ ◌++◌ (take-take_le (length dst) (length dst) xs (omega arith)) (
        drop_all _ dst (omega (arith, length-take (length dst) xs))
        ∙ sym (drop_all _ dst (omega arith)))
    | no h ↦ ap (copy dst) (take_all (length dst) xs (omega arith))
  ]

  pub copy_cut :
      (dst xs : List A) (k : ℕ)
      → length xs ≤ k
      → copy dst (take (if ltb (length dst) k then length dst else k) xs) ≡ copy dst xs
  copy_cut dst xs k h = ap (copy dst) (take_cut_all (length dst) k xs h) ∙ copy-take dst xs

  -- A source in two parts, of which the first fits.
  pub copy-append :
      (dst xs ys : List A)
      → length xs ≤ length dst
      → copy dst (xs ++ ys) ≡ xs ++ copy (drop (length xs) dst) ys
  copy-append dst xs ys h =
      ap₂ ◌++◌ (take-append_ge (length dst) xs ys h) (ap (λ k. drop k dst) (length-append xs ys))
      ∙ append_assoc xs (take (length dst - length xs) ys) (drop (length xs + length ys) dst)
      ∙ ap (λ l. xs ++ l)
          (ap₂ ◌++◌ (ap (λ k. take k ys) (sym (length-drop (length xs) dst)))
            (sym (drop-drop (length ys) (length xs) dst)))

  -- The second copy of two goes behind the first.
  pub copy_at-copy :
      (dst xs ys : List A) (k : ℕ)
      → length xs ≡ k
      → k ≤ length dst
      → copy_at k (copy dst xs) ys ≡ copy dst (xs ++ ys)
  copy_at-copy dst xs ys k e h =
      ap (λ d. copy_at k d ys) (copy_fits dst xs (omega arith))
      ∙ ap₂ (λ a c. a ++ copy c ys)
          (take-append_le k xs _ (omega arith) ∙ take_all k xs (omega arith))
          (drop-append_ge k xs (drop (length xs) dst) (omega arith)
            ∙ ap (λ j. drop j (drop (length xs) dst)) {x = k - length xs} {y = 0} (omega arith))
      ∙ sym (copy-append dst xs ys (omega arith))

module _ {ℓ} {A : Type ℓ} where
  pub copy_at_fits :
      (k : ℕ) (dst src : List A)
      → k + length src ≤ length dst
      → copy_at k dst src ≡ take k dst ++ (src ++ drop (k + length src) dst)
  copy_at_fits k dst src h =
      ap (λ l. take k dst ++ l)
        (copy_fits (drop k dst) src (omega (arith, length-drop k dst))
          ∙ ap (λ l. src ++ l) (drop-drop (length src) k dst))

  -- After a copy, the front up to its end.
  pub take-copy_at :
      (k : ℕ) (dst src : List A)
      → k + length src ≤ length dst
      → take (k + length src) (copy_at k dst src) ≡ take k dst ++ src
  take-copy_at k dst src h =
      ap (take (k + length src)) (copy_at_fits k dst src h)
      ∙ ap (take (k + length src)) (sym (append_assoc (take k dst) src _))
      ∙ take-append_le (k + length src) (take k dst ++ src) _ (omega (arith, len))
      ∙ take_all (k + length src) (take k dst ++ src) (omega (arith, len))
    where
      len : length (take k dst ++ src) ≡ k + length src
      len = omega (arith, length-append (take k dst) src, length-take k dst)

  -- What lies behind a copy is as it was.
  pub drop-copy_at :
      (k hi : ℕ) (dst src : List A)
      → k + length src ≤ hi
      → k + length src ≤ length dst
      → drop hi (copy_at k dst src) ≡ drop hi dst
  drop-copy_at k hi dst src h f =
      ap (drop hi) (copy_at_fits k dst src f ∙ sym (append_assoc (take k dst) src _))
      ∙ drop-append_ge hi (take k dst ++ src) (drop (k + length src) dst) (omega (arith, len))
      ∙ drop-drop (hi - length (take k dst ++ src)) (k + length src) dst
      ∙ ap (λ j. drop j dst) {x = k + length src + (hi - length (take k dst ++ src))} {y = hi}
          (omega (arith, len))
    where
      len : length (take k dst ++ src) ≡ k + length src
      len = omega (arith, length-append (take k dst) src, length-take k dst)

  -- The slice that ends with the copy.
  pub slice-copy_at :
      (lo k : ℕ) (dst src : List A)
      → lo ≤ k
      → k + length src ≤ length dst
      → slice lo (k + length src) (copy_at k dst src) ≡ slice lo k dst ++ src
  slice-copy_at lo k dst src h f =
      sym (drop-take-slice lo (k + length src) (copy_at k dst src) (omega arith))
      ∙ ap (drop lo) (take-copy_at k dst src f)
      ∙ drop-append_le lo (take k dst) src (omega (arith, length-take k dst))
      ∙ ap (λ l. l ++ src) (drop-take-slice lo k dst h)

  pub slice_to_end : (lo : ℕ) (xs : List A) → drop lo xs ≡ slice lo (length xs) xs
  slice_to_end lo xs =
      sym (take_all (length xs - lo) (drop lo xs) (omega (arith, length-drop lo xs)))

  pub take-copy :
      (dst src : List A) → length src ≤ length dst → take (length src) (copy dst src) ≡ src
  take-copy dst src h =
      ap (take (length src)) (copy_fits dst src h)
      ∙ take-append_le (length src) src _ (omega arith)
      ∙ take_all (length src) src (omega arith)

  pub drop-copy :
      (hi : ℕ) (dst src : List A)
      → length src ≤ hi
      → length src ≤ length dst
      → drop hi (copy dst src) ≡ drop hi dst
  drop-copy hi dst src h f =
      ap (drop hi) (copy_fits dst src f)
      ∙ drop-append_ge hi src (drop (length src) dst) h
      ∙ drop-drop (hi - length src) (length src) dst
      ∙ ap (λ j. drop j dst) {x = length src + (hi - length src)} {y = hi} (omega arith)

  -- A source whose first part is as long as the destination.
  pub copy-append_ge :
      (dst xs ys : List A) → length dst ≤ length xs → copy dst (xs ++ ys) ≡ copy dst xs
  copy-append_ge dst xs ys h =
      ap₂ ◌++◌ (take-append_le (length dst) xs ys h)
        (drop_all _ dst (omega (arith, length-append xs ys)) ∙ sym (drop_all _ dst h))
