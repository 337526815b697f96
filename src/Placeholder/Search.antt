-- ===== src/Placeholder/Search.antt =====
-- Searches in texts with the prefix `${`, the suffix `}` and the separator `:`.
use ag_core.Prelude.{
  ℕ, zero, suc, ◌+◌, ◌≡◌, ◌≢◌, ◌<◌, refl, ◌∙◌, sym, ap, Bool, true, none, some, List, [], ◌∷◌, ◌++◌,
  arith, ==_eq, ==_ne, length, take, drop, slice, slice_add, drop-append_add, drop-drop,
  length-append,
}
use ag_core.Placeholder.{
  Text, Helper, text_eq, index_of, next_start, end_round, find_end, find_placeholder_end_index,
}

abbrev pub standard : Bool → Helper
standard ignore = record {
  placeholder_prefix = 36 ∷ 123 ∷ [];
  placeholder_suffix = 125 ∷ [];
  value_separator = 58 ∷ [];
  ignore_unresolvable_placeholders = ignore;
}

-- No `$` and no `}`.
abbrev pub IsPlain : Text → Type 0
IsPlain [] = Unit {0}
IsPlain (c ∷ cs) = (c ≢ 36) × (c ≢ 125) × IsPlain cs

-- `${key}` and what follows.
abbrev pub hole : Text → Text → Text
hole key rest = 36 ∷ 123 ∷ (key ++ 125 ∷ rest)

pub index_of-hole :
    (l rest : Text) → IsPlain l → index_of (l ++ 36 ∷ 123 ∷ rest) (36 ∷ 123 ∷ []) ≡ some (length l)
index_of-hole [] rest p = refl
index_of-hole (c ∷ cs) rest (d, b, p) = rw (==_ne d, index_of-hole cs rest p) refl

pub index_of-plain : (l : Text) → IsPlain l → index_of l (36 ∷ 123 ∷ []) ≡ none
index_of-plain [] p = refl
index_of-plain (c ∷ cs) (d, b, p) = rw (==_ne d, index_of-plain cs p) refl

find_end-plain :
    (k : ℕ) (i : Bool) (key rest : Text) (index : ℕ)
    → IsPlain key
    → length key < k
    → find_end k (standard i) (key ++ 125 ∷ rest) index 0 ≡ some (index + length key)
unfolding find_end end_round
find_end-plain zero i key rest index p h = absurd (omega arith)
find_end-plain (suc k) i [] rest index p h = ap some {x = index} {y = index + 0} (omega arith)
find_end-plain (suc k) i (c ∷ cs) rest index (d, b, p) h =
    rw (find_end, end_round, ==_ne b, ==_ne d)
      (find_end-plain k i cs rest (index + 1) p (omega arith))
    ∙ ap some {x = index + 1 + length cs} {y = index + suc (length cs)} (omega arith)

pub drop-length {ℓ} : {A : Type ℓ} (xs ys : List A) → drop (length xs) (xs ++ ys) ≡ ys
drop-length [] ys = refl
drop-length (x ∷ xs) ys = drop-length xs ys

pub take-length {ℓ} : {A : Type ℓ} (xs ys : List A) → take (length xs) (xs ++ ys) ≡ xs
take-length [] ys = refl
take-length (x ∷ xs) ys = ap (λ l. x ∷ l) (take-length xs ys)

-- A hole behind the text `b`.
module _ (b key rest : Text) where
  pub drop-hole : drop (length b + 2) (b ++ hole key rest) ≡ key ++ 125 ∷ rest
  drop-hole = drop-append_add 2 b (hole key rest)

  pub find_placeholder_end_index-hole :
      (i : Bool)
      → IsPlain key
      → find_placeholder_end_index (standard i) (b ++ hole key rest) (length b)
        ≡ some (length b + 2 + length key)
  unfolding find_placeholder_end_index
  find_placeholder_end_index-hole i p =
      ap (λ l. find_end (suc (length (b ++ hole key rest))) (standard i) l (length b + 2) 0)
        drop-hole
      ∙ find_end-plain (suc (length (b ++ hole key rest))) i key rest (length b + 2) p
          (omega (arith, length-append b (hole key rest), length-append key (125 ∷ rest)))

  pub slice-hole : slice (length b + 2) (length b + 2 + length key) (b ++ hole key rest) ≡ key
  slice-hole =
      slice_add (length b + 2) (length key) (b ++ hole key rest)
      ∙ ap (take (length key)) drop-hole
      ∙ take-length key (125 ∷ rest)

  pub drop-behind_hole : drop (length b + 2 + length key + 1) (b ++ hole key rest) ≡ rest
  drop-behind_hole =
      ap (λ n. drop n (b ++ hole key rest)) {x = length b + 2 + length key + 1}
        {y = length b + 2 + (length key + 1)} (omega arith)
      ∙ sym (drop-drop (length key + 1) (length b + 2) (b ++ hole key rest))
      ∙ ap (drop (length key + 1)) drop-hole
      ∙ drop-append_add 1 key (125 ∷ rest)

pub next_start-hole :
    (a l key rest : Text)
    → IsPlain l
    → next_start (36 ∷ 123 ∷ []) (a ++ (l ++ hole key rest)) (length a) ≡ some (length a + length l)
unfolding next_start
next_start-hole a l key rest p =
    rw (next_start, drop-length a (l ++ hole key rest), index_of-hole l (key ++ 125 ∷ rest) p) refl

pub next_start-plain :
    (a t : Text) → IsPlain t → next_start (36 ∷ 123 ∷ []) (a ++ t) (length a) ≡ none
unfolding next_start
next_start-plain a t p = rw (next_start, drop-length a t, index_of-plain t p) refl

pub text_eq_refl : (t : Text) → text_eq t t ≡ true
text_eq_refl [] = refl
text_eq_refl (c ∷ cs) = rw (==_eq {a = c} refl) (text_eq_refl cs)
