-- ===== src/Mask/Wildcards.antt =====
-- The loop of `convertLikeWildcards`.
use ag_core.Prelude.{
  ℕ, zero, suc, ◌+◌, ◌-◌, ◌<◌, ◌≡◌, ◌≢◌, refl, sym, ◌∙◌, Bool, true, false, none, some, [], ◌∷◌,
  inl, inr, arith, Bool-cases, Option-cases, length, drop, length-drop,
}
use ag_core.Placeholder.{Text, has_prefix, index_of}
use ag_core.Mask.{Converted, slice_panics, out_of_rounds, convert_rounds, convert_like_wildcards}

index_of-lt : (t : Text) (i : ℕ) → index_of t (64 ∷ []) ≡ some i → i < length t
index_of-lt [] i e = absurd (cc e)
index_of-lt (c ∷ cs) i e = elim (Bool-cases (has_prefix (c ∷ cs) (64 ∷ []))) [
  | inl f ↦ omega (arith, first_index f)
  | inr f ↦ elim (Option-cases (index_of cs (64 ∷ []))) [
    | inl g ↦ absurd (cc (sym (none_index f g) ∙ e))
    | inr (j, g) ↦ omega (arith, index_of-lt cs j g, later_index f g)
  ]
]
  where
    index_eq : (j : ℕ) → index_of (c ∷ cs) (64 ∷ []) ≡ some j → i ≡ j
    index_eq j f = cc (sym e ∙ f)

    first_index : has_prefix (c ∷ cs) (64 ∷ []) ≡ true → i ≡ 0
    first_index f = index_eq 0 (rw f refl)

    none_index :
        has_prefix (c ∷ cs) (64 ∷ []) ≡ false
        → index_of cs (64 ∷ []) ≡ none
        → index_of (c ∷ cs) (64 ∷ []) ≡ none
    none_index f g = rw (f, g) refl

    later_index :
        {j : ℕ} → has_prefix (c ∷ cs) (64 ∷ []) ≡ false → index_of cs (64 ∷ []) ≡ some j → i ≡ suc j
    later_index {j} f g = index_eq (suc j) (rw (f, g) refl)

branches :
    (b d : Bool) (x y : Converted)
    → x ≢ out_of_rounds
    → y ≢ out_of_rounds
    → elim b [ true ↦ x | false ↦ elim d [ true ↦ slice_panics | false ↦ y ] ] ≢ out_of_rounds
branches true d x y f g = f
branches false true x y f g = λ e. absurd (cc e)
branches false false x y f g = g

-- With more rounds than there are bytes left, the loop ends.
pub convert_rounds-ends :
    (k : ℕ) (expr buf : Text) (last_end : ℕ)
    → length expr - last_end < k
    → convert_rounds k expr buf last_end ≢ out_of_rounds
unfolding convert_rounds
convert_rounds-ends zero expr buf last_end h = absurd (omega arith)
convert_rounds-ends (suc k) expr buf last_end h =
    elim (Option-cases (index_of (drop last_end expr) (64 ∷ []))) [
      | inl e ↦ rw (convert_rounds, e) (λ f. absurd (cc f))
      | inr (i, e) ↦
          rw (convert_rounds, e)
            (branches _ _ _ _ (convert_rounds-ends k expr _ _ (fewer i _ e (omega arith)))
              (convert_rounds-ends k expr _ _ (fewer i _ e (omega arith))))
    ]
  where
    fewer :
        (i next : ℕ)
        → index_of (drop last_end expr) (64 ∷ []) ≡ some i
        → i + last_end < next
        → length expr - next < k
    fewer i next e l =
        omega (arith, index_of-lt (drop last_end expr) i e, length-drop last_end expr)

-- The loop of `convertLikeWildcards` ends.
pub convert_like_wildcards-ends : (expr : Text) → convert_like_wildcards expr ≢ out_of_rounds
unfolding convert_like_wildcards
convert_like_wildcards-ends expr = convert_rounds-ends (suc (length expr)) expr [] 0 (omega arith)
