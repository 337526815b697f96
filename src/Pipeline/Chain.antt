-- ===== src/Pipeline/Chain.antt =====
-- Chains of links in a store, from one end to the other.
use mathlib.Core.List.{reverse, reverse-cons, reverse-reverse}
use ag_core.Prelude.{
  ℕ, ◌+◌, ◌≡◌, ◌≢◌, ◌<◌, refl, ◌∙◌, sym, ap, Option, none, some, List, [], ◌∷◌, ◌++◌, map, arith,
}

-- `f` leads from `x` through `xs`, and no further.
abbrev pub Leads : (ℕ → Option ℕ) → ℕ → List ℕ → Type 0
Leads f x [] = f x ≡ none
Leads f x (y ∷ ys) = (f x ≡ some y) × Leads f y ys

abbrev pub Apart : ℕ → List ℕ → Type 0
Apart a [] = Unit {0}
Apart a (x ∷ xs) = (a ≢ x) × Apart a xs

abbrev pub IsDistinct : List ℕ → Type 0
IsDistinct [] = Unit {0}
IsDistinct (x ∷ xs) = Apart x xs × IsDistinct xs

abbrev pub Below : ℕ → List ℕ → Type 0
Below n [] = Unit {0}
Below n (x ∷ xs) = (x < n) × Below n xs

abbrev pub first : ℕ → List ℕ → ℕ
first d [] = d
first d (x ∷ xs) = x

abbrev pub last : ℕ → List ℕ → ℕ
last d [] = d
last d (x ∷ xs) = last x xs

first-append : (d : ℕ) (xs : List ℕ) (y : ℕ) → first d (xs ++ y ∷ []) ≡ first y xs
first-append d [] y = refl
first-append d (x ∷ xs) y = refl

pub first-reverse : (d : ℕ) (xs : List ℕ) → first d (reverse xs) ≡ last d xs
first-reverse d [] = refl
first-reverse d (x ∷ xs) =
    ap (first d) (reverse-cons x xs) ∙ first-append d (reverse xs) x ∙ first-reverse x xs

pub last-reverse : (d : ℕ) (xs : List ℕ) → last d (reverse xs) ≡ first d xs
last-reverse d xs = sym (first-reverse d (reverse xs)) ∙ ap (first d) (reverse-reverse xs)

pub Below-Apart : (n : ℕ) (xs : List ℕ) → Below n xs → Apart n xs
Below-Apart n [] b = tt
Below-Apart n (x ∷ xs) (h, b) = (omega arith, Below-Apart n xs b)

pub Below-suc : (n : ℕ) (xs : List ℕ) → Below n xs → Below (n + 1) xs
Below-suc n [] b = tt
Below-suc n (x ∷ xs) (h, b) = (omega arith, Below-suc n xs b)

pub Below-insert : (n c : ℕ) (xs ys : List ℕ) → c < n → Below n (xs ++ ys) → Below n (xs ++ c ∷ ys)
Below-insert n c [] ys h b = (h, b)
Below-insert n c (x ∷ xs) ys h (k, b) = (k, Below-insert n c xs ys h b)

Apart-insert : (a c : ℕ) (xs ys : List ℕ) → a ≢ c → Apart a (xs ++ ys) → Apart a (xs ++ c ∷ ys)
Apart-insert a c [] ys h p = (h, p)
Apart-insert a c (x ∷ xs) ys h (k, p) = (k, Apart-insert a c xs ys h p)

pub IsDistinct-insert :
    (c : ℕ) (xs ys : List ℕ)
    → Apart c (xs ++ ys)
    → IsDistinct (xs ++ ys)
    → IsDistinct (xs ++ c ∷ ys)
IsDistinct-insert c [] ys p d = (p, d)
IsDistinct-insert c (x ∷ xs) ys (h, p) (a, d) =
    (Apart-insert x c xs ys (λ e. h (sym e)) a, IsDistinct-insert c xs ys p d)

Apart-last : (a x : ℕ) (xs zs : List ℕ) → Apart a (x ∷ (xs ++ zs)) → a ≢ last x xs
Apart-last a x [] zs (h, p) = h
Apart-last a x (y ∷ xs) zs (h, p) = Apart-last a y xs zs p

-- A chain does not see changes elsewhere.
Leads-agree :
    (f g : ℕ → Option ℕ) (p c : ℕ)
    → ((a : ℕ) → p ≢ a → c ≢ a → g a ≡ f a)
    → (x : ℕ) (xs : List ℕ) → Apart p (x ∷ xs)
    → Apart c (x ∷ xs)
    → Leads f x xs
    → Leads g x xs
Leads-agree f g p c same x [] (h, a) (k, b) l = same x h k ∙ l
Leads-agree f g p c same x (y ∷ ys) (h, a) (k, b) (e, l) =
    (same x h k ∙ e, Leads-agree f g p c same y ys a b l)

-- A new address `c` between the last of `x ∷ xs` and `z`.
pub Leads-insert :
    (f g : ℕ → Option ℕ) (c x : ℕ) (xs : List ℕ) (z : ℕ) (zs : List ℕ)
    → g (last x xs) ≡ some c
    → g c ≡ some z
    → ((a : ℕ) → last x xs ≢ a → c ≢ a → g a ≡ f a)
    → IsDistinct (x ∷ (xs ++ z ∷ zs))
    → Apart c (x ∷ (xs ++ z ∷ zs))
    → Leads f x (xs ++ z ∷ zs)
    → Leads g x (xs ++ c ∷ z ∷ zs)
Leads-insert f g c x [] z zs here there same (d, ds) (h, a) (e, l) =
    (here, (there, Leads-agree f g x c same z zs d a l))
Leads-insert f g c x (y ∷ ys) z zs here there same (d, ds) (h, a) (e, l) = (
  same x (λ q. Apart-last x y ys (z ∷ zs) d (sym q)) h ∙ e,
  Leads-insert f g c y ys z zs here there same ds a l,
)

pub Leads-first :
    (f : ℕ → Option ℕ) (x : ℕ) (xs : List ℕ) (z : ℕ) (zs : List ℕ)
    → Leads f x (xs ++ z ∷ zs)
    → f x ≡ some (first z xs)
Leads-first f x [] z zs (e, l) = e
Leads-first f x (y ∷ ys) z zs (e, l) = e

pub map-agree {ℓ} :
    {A : Type ℓ} (f g : ℕ → A) (n : ℕ)
    → ((a : ℕ) → a < n → g a ≡ f a)
    → (xs : List ℕ) → Below n xs
    → map g xs ≡ map f xs
map-agree f g n same [] b = refl
map-agree f g n same (x ∷ xs) (h, b) =
    ap (λ a. a ∷ map g xs) (same x h) ∙ ap (λ l. f x ∷ l) (map-agree f g n same xs b)
