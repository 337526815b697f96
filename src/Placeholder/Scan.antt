-- ===== src/Placeholder/Scan.antt =====
-- The search for the end of a placeholder, for any prefix and suffix.
use mathlib.Core.Option.{some-injective}
use ag_core.Prelude.{
  ℕ, zero, suc, ◌+◌, ◌-◌, ◌≡◌, ◌≤◌, ◌<◌, ◌⊎◌, refl, ◌∙◌, sym, ap, Bool, true, ◌&&◌, some, [], ◌∷◌,
  arith, ltb, ◌==◌, length, drop, drop-drop, length-drop, Bool-cases, inl, inr,
}
use ag_core.Placeholder.{
  Text, Helper, has_prefix, found, move, end_round, find_end, find_placeholder_end_index,
}

has_prefix-length : (cs p : Text) → has_prefix cs p ≡ true → length p ≤ length cs
has_prefix-length cs [] e = omega arith
has_prefix-length [] (q ∷ ps) e = cc e
has_prefix-length (c ∷ cs) (q ∷ ps) e =
    omega (arith, has_prefix-length cs ps (right (c == q) (has_prefix cs ps) e))
  where
    right : (a b : Bool) → (a && b) ≡ true → b ≡ true
    right a b e = ground (arith, e)

module _ (h : Helper) where
  -- A round finds the suffix, or moves by at least one byte and no further than the text goes.
  Moves : Text → ℕ → Type 0
  Moves rest nested =
      (n : ℕ) × (nested' : ℕ) × (end_round h rest nested ≡ move n nested')
      × (n ≤ length rest)
      × (0 < length h.placeholder_prefix → 0 < length h.placeholder_suffix → 0 < n)

  end_round-cases :
      (c : ℕ) (cs : Text) (nested : ℕ)
      → ((end_round h (c ∷ cs) nested ≡ found) × (has_prefix (c ∷ cs) h.placeholder_suffix ≡ true))
        ⊎ Moves (c ∷ cs) nested
  unfolding end_round Moves
  end_round-cases c cs nested = elim (Bool-cases (has_prefix (c ∷ cs) h.placeholder_suffix)) [
    | inl e ↦ elim (Bool-cases (ltb 0 nested)) [
      | inl n ↦ inr (
        length h.placeholder_suffix,
        nested - 1,
        rw (e, n) refl,
        has_prefix-length (c ∷ cs) h.placeholder_suffix e,
        λ p s. s,
      )
      | inr n ↦ inl (rw (e, n) refl, e)
    ]
    | inr e ↦ elim (Bool-cases (has_prefix (c ∷ cs) h.placeholder_prefix)) [
      | inl p ↦ inr (
        length h.placeholder_prefix,
        nested + 1,
        rw (e, p) refl,
        has_prefix-length (c ∷ cs) h.placeholder_prefix p,
        λ p s. p,
      )
      | inr p ↦ inr (1, nested, rw (e, p) refl, omega arith, λ p s. omega arith)
    ]
  ]

  -- An end lies behind the start, and the suffix stands there.
  EndsAt : Text → ℕ → ℕ → Type 0
  EndsAt rest index stop =
      (index ≤ stop)
      × (stop + length h.placeholder_suffix ≤ index + length rest)
      × (has_prefix (drop (stop - index) rest) h.placeholder_suffix ≡ true)

  find_end-found :
      (k c : ℕ) (cs : Text) (index nested : ℕ)
      → end_round h (c ∷ cs) nested ≡ found
      → find_end (suc k) h (c ∷ cs) index nested ≡ some index
  unfolding find_end
  find_end-found k c cs index nested f = rw (find_end, f) refl

  find_end-move :
      (k c : ℕ) (cs : Text) (index nested n nested' : ℕ)
      → end_round h (c ∷ cs) nested ≡ move n nested'
      → find_end (suc k) h (c ∷ cs) index nested
        ≡ find_end k h (drop n (c ∷ cs)) (index + n) nested'
  unfolding find_end
  find_end-move k c cs index nested n nested' f = rw (find_end, f) refl

  EndsAt-here :
      (rest : Text) (index stop : ℕ)
      → index ≡ stop
      → has_prefix rest h.placeholder_suffix ≡ true
      → EndsAt rest index stop
  unfolding EndsAt
  EndsAt-here rest index stop e s = (
    omega arith,
    omega (arith, has_prefix-length rest h.placeholder_suffix s),
    ap (λ i. has_prefix (drop i rest) h.placeholder_suffix) {x = stop - index} {y = 0} (omega arith)
        ∙ s,
  )

  EndsAt-move :
      (rest : Text) (index n stop : ℕ)
      → n ≤ length rest
      → EndsAt (drop n rest) (index + n) stop
      → EndsAt rest index stop
  unfolding EndsAt
  EndsAt-move rest index n stop l (a, b, d) = (
    omega arith,
    omega (arith, length-drop n rest),
    ap (λ xs. has_prefix xs h.placeholder_suffix)
          (ap (λ i. drop i rest) {x = stop - index} {y = n + (stop - (index + n))} (omega arith)
            ∙ sym (drop-drop (stop - (index + n)) n rest))
        ∙ d,
  )

  find_end-EndsAt :
      (k : ℕ) (rest : Text) (index nested stop : ℕ)
      → find_end k h rest index nested ≡ some stop
      → EndsAt rest index stop
  unfolding find_end EndsAt Moves
  find_end-EndsAt zero rest index nested stop e = cc e
  find_end-EndsAt (suc k) [] index nested stop e = cc e
  find_end-EndsAt (suc k) (c ∷ cs) index nested stop e = elim (end_round-cases c cs nested) [
    | inl (f, s) ↦
        EndsAt-here (c ∷ cs) index stop
          (some-injective index stop (sym (find_end-found k c cs index nested f) ∙ e)) s
    | inr (n, nested', f, l, m) ↦ EndsAt-move (c ∷ cs) index n stop l (
        find_end-EndsAt k (drop n (c ∷ cs)) (index + n) nested' stop
          (sym (find_end-move k c cs index nested n nested' f) ∙ e))
  ]

  -- With a prefix and a suffix that are not empty, the loop of `findPlaceholderEndIndex` has the
  -- same result for any two bounds on its rounds that are above the length of the text that is
  -- left.
  pub find_end-enough :
      (k j : ℕ) (rest : Text) (index nested : ℕ)
      → 0 < length h.placeholder_prefix
      → 0 < length h.placeholder_suffix
      → length rest < k
      → length rest < j
      → find_end k h rest index nested ≡ find_end j h rest index nested
  unfolding find_end Moves
  find_end-enough zero j rest index nested p s a b = absurd (omega arith)
  find_end-enough (suc k) zero rest index nested p s a b = absurd (omega arith)
  find_end-enough (suc k) (suc j) [] index nested p s a b = refl
  find_end-enough (suc k) (suc j) (c ∷ cs) index nested p s a b =
      elim (end_round-cases c cs nested) [
        | inl (f, q) ↦ rw (find_end, f) refl
        | inr (n, nested', f, l, m) ↦
            rw (find_end, f)
              (find_end-enough k j (drop n (c ∷ cs)) (index + n) nested' p s
                (omega (arith, length-drop n (c ∷ cs), m p s))
                (omega (arith, length-drop n (c ∷ cs), m p s)))
      ]

  -- For any prefix and suffix, and a start with room for the prefix, the end that
  -- `find_placeholder_end_index` finds lies behind the prefix, and the suffix stands there inside
  -- the text, so that the text can be cut at these places.
  pub find_placeholder_end_index-inside :
      (buf : Text) (start stop : ℕ)
      → start + length h.placeholder_prefix ≤ length buf
      → find_placeholder_end_index h buf start ≡ some stop
      → (start + length h.placeholder_prefix ≤ stop)
        × (stop + length h.placeholder_suffix ≤ length buf)
        × (has_prefix (drop stop buf) h.placeholder_suffix ≡ true)
  unfolding find_placeholder_end_index EndsAt
  find_placeholder_end_index-inside buf start stop l e =
      let (a, b, d) =
        find_end-EndsAt (suc (length buf)) (drop (start + length h.placeholder_prefix) buf)
          (start + length h.placeholder_prefix) 0 stop e in
      (
        a,
        omega (arith, length-drop (start + length h.placeholder_prefix) buf),
        ap (λ xs. has_prefix xs h.placeholder_suffix)
              (ap (λ i. drop i buf) {x = stop}
                  {y = start
                    + length h.placeholder_prefix
                    + (stop - (start + length h.placeholder_prefix))}
                  (omega arith)
                ∙ sym (
                    drop-drop (stop - (start + length h.placeholder_prefix))
                      (start + length h.placeholder_prefix) buf))
            ∙ d,
      )
