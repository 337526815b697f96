-- ===== src/Prelude/Texts.antt =====
-- Texts as the lists of their bytes, and what the strings package does with them.
use Prim.Native.Nat.{ℕ}
use Prim.Native.Char.{code}
use Prim.Native.String.{String}
use mathlib.Core.List.{List, [], ◌∷◌, ◌++◌, append_assoc}
use mathlib.Core.Path.{◌≡◌, refl, ap, sym, ◌∙◌}

-- The bytes of an ASCII text.
abbrev pub codes : String → List ℕ
codes String.[] = []
codes (String.◌∷◌ c s) = code c ∷ codes s

-- `strings.Join`
abbrev pub join : List ℕ → List (List ℕ) → List ℕ
join sep [] = []
join sep (p ∷ []) = p
join sep (p ∷ q ∷ ps) = p ++ (sep ++ join sep (q ∷ ps))

pub join-snoc :
    (sep p : List ℕ) (ps : List (List ℕ)) (q : List ℕ)
    → join sep (p ∷ ps ++ q ∷ []) ≡ join sep (p ∷ ps) ++ (sep ++ q)
join-snoc sep p [] q = refl
join-snoc sep p (r ∷ ps) q =
    ap (λ t. p ++ (sep ++ t)) (join-snoc sep r ps q)
    ∙ ap (λ t. p ++ t) (sym (append_assoc sep (join sep (r ∷ ps)) (sep ++ q)))
    ∙ sym (append_assoc p (sep ++ join sep (r ∷ ps)) (sep ++ q))

pub join-snoc_two :
    (sep p : List ℕ) (ps : List (List ℕ)) (q r : List ℕ)
    → join sep (p ∷ (ps ++ q ∷ []) ++ r ∷ []) ≡ join sep (p ∷ ps) ++ ((sep ++ q) ++ (sep ++ r))
join-snoc_two sep p ps q r =
    join-snoc sep p (ps ++ q ∷ []) r
    ∙ ap (λ t. t ++ (sep ++ r)) (join-snoc sep p ps q)
    ∙ append_assoc (join sep (p ∷ ps)) (sep ++ q) (sep ++ r)
