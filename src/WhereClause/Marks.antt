-- ===== src/WhereClause/Marks.antt =====
-- The marks of the arguments and the parentheses in the text that is built.
use ag_core.Prelude.{
  ℕ, zero, suc, ◌+◌, ◌≡◌, refl, ap, ◌∙◌, Bool, true, false, not, ◌&&◌, Option, none, some, List, [],
  ◌∷◌, ◌++◌, inl, inr, arith, ◌==◌, if◌then◌else◌, Bool-cases, length, length-append, codes,
}
use ag_core.Placeholder.{Text}
use ag_core.WhereClause.{WhereCondition, built, parenthesize, build}
use ag_core.WhereClause.Closed.{is_plain, IsPlainCondition, Closed, build-closed}

-- The number of the bytes `?`.
abbrev pub marks : Text → ℕ
marks [] = 0
marks (c ∷ cs) = if c == 63 then suc (marks cs) else marks cs

-- How deep in parentheses the end of a text is, if none closes that is not open.
abbrev pub depth_after : Text → ℕ → Option ℕ
depth_after [] d = some d
depth_after (c ∷ cs) d =
    if c == 40
    then depth_after cs (suc d)
    else if c == 41
    then elim d [ zero ↦ none | suc d' ↦ depth_after cs d' ]
    else depth_after cs d

abbrev pub IsBalanced : Text → Type 0
IsBalanced t = (d : ℕ) → depth_after t d ≡ some d

abbrev pub AreMarked : {V : Type 0} → Text → List V → Type 0
AreMarked t args = (marks t ≡ length args) × IsBalanced t

and_true : (a b : Bool) → (a && b) ≡ true → (a ≡ true) × (b ≡ true)
and_true true b e = (refl, e)
and_true false b e = absurd (cc e)

negated : (a : Bool) → not a ≡ true → a ≡ false
negated true e = absurd (cc e)
negated false e = refl

marks-append : (a b : Text) → marks (a ++ b) ≡ marks a + marks b
marks-append [] b = omega arith
marks-append (c ∷ cs) b = elim (Bool-cases (c == 63)) [
  | inl e ↦ rw e (omega (arith, marks-append cs b))
  | inr e ↦ rw e (marks-append cs b)
]

abbrev then_from : Option ℕ → Text → Option ℕ
then_from none b = none
then_from (some d) b = depth_after b d

depth_after-append : (a b : Text) (d : ℕ) → depth_after (a ++ b) d ≡ then_from (depth_after a d) b
depth_after-append [] b d = refl
depth_after-append (c ∷ cs) b d = elim (Bool-cases (c == 40)) [
  | inl e ↦ rw e (depth_after-append cs b (suc d))
  | inr e ↦ elim (Bool-cases (c == 41)) [
    | inl f ↦ closing e f d (depth_after-append cs b)
    | inr f ↦ rw (e, f) (depth_after-append cs b d)
  ]
]
  where
    closing :
        (c == 40) ≡ false
        → (c == 41) ≡ true
        → (n : ℕ) → ((m : ℕ) → depth_after (cs ++ b) m ≡ then_from (depth_after cs m) b)
        → depth_after (c ∷ cs ++ b) n ≡ then_from (depth_after (c ∷ cs) n) b
    closing e f zero k = rw (e, f) refl
    closing e f (suc n) k = rw (e, f) (k n)

IsBalanced-append : (a b : Text) → IsBalanced a → IsBalanced b → IsBalanced (a ++ b)
IsBalanced-append a b f g d = depth_after-append a b d ∙ ap (λ o. then_from o b) (f d) ∙ g d

module _ (V : Type 0) where
  AreMarked-plain : (t : Text) → is_plain t ≡ true → AreMarked {V = V} t []
  AreMarked-plain [] e = (refl, λ d. refl)
  AreMarked-plain (c ∷ cs) e =
      let (f, g) = and_true (not (c == 63)) _ e in
      let (h, i) = and_true (not (c == 40)) _ g in
      let (j, k) = and_true (not (c == 41)) _ i in
      let (m, n) = AreMarked-plain cs k in
      (rw (negated (c == 63) f) m, λ d. rw (negated (c == 40) h, negated (c == 41) j) (n d))

  AreMarked-append :
      (a b : Text) (xs ys : List V)
      → AreMarked a xs
      → AreMarked b ys
      → AreMarked (a ++ b) (xs ++ ys)
  AreMarked-append a b xs ys (m, f) (n, g) =
      (omega (arith, marks-append a b, length-append xs ys, m, n), IsBalanced-append a b f g)

  AreMarked-parens : (a : Text) (xs : List V) → AreMarked a xs → AreMarked (parenthesize a) xs
  unfolding parenthesize
  AreMarked-parens a xs (m, f) = (
    omega (arith, marks-append a (codes ")"), m),
    λ d. depth_after-append a (codes ")") (suc d) ∙ ap (λ o. then_from o (codes ")")) (f (suc d)),
  )

  AreMarked-Closed : Closed {V = V} AreMarked
  AreMarked-Closed = record {
    closed_plain = AreMarked-plain;
    closed_placeholder = λ v. (refl, λ d. refl);
    closed_append = λ {a} {b} {xs} {ys} p q. AreMarked-append a b xs ys p q;
    closed_parens = λ {a} {xs} p. AreMarked-parens a xs p;
  }

-- For a tree of conditions whose fields and logics have no `?`, `(` and `)`: where `Build` gives a
-- text with arguments, the text has as many `?` as there are arguments, and its parentheses are
-- balanced.
pub build-AreMarked :
    {V : Type 0} (as_list : V → Option (List V)) (c : WhereCondition V) (sql : Text) (args : List V)
    → IsPlainCondition c
    → build as_list c ≡ built sql args
    → (marks sql ≡ length args) × IsBalanced sql
build-AreMarked as_list c sql args p e = build-closed as_list (AreMarked-Closed _) c sql args p e
