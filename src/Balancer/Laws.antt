-- ===== src/Balancer/Laws.antt =====
-- Registration and lookup by index, and the choice of the event loop with the fewest connections.
use ag_core.Prelude.{
  get_elem?-snoc, get_elem?-append_lt, ℕ, ◌+◌, ◌≡◌, ◌≤◌, ◌<◌, refl, sym, ap, none, some, List, [],
  ◌∷◌, ◌++◌, arith, ==_eq, ==_ne, ltb, ltb→lt, ltb→le, le→leb, lt→leb, length, length-append,
  get_elem?, Bool-cases, inl, inr, ◌⊎◌,
}
use ag_core.Prelude.Int.{pos}
use ag_core.Balancer.{
  LoadBalancer, register, nothing, loop, panicked, loop_at, index, least, next_least_connections,
}

abbrev pub IsValid : LoadBalancer → Type 0
IsValid lb = lb.size ≡ length lb.event_loops

pub loop_at-some :
    (lb : LoadBalancer) (i x : ℕ) → get_elem? lb.event_loops i ≡ some x → loop_at lb i ≡ loop x
unfolding loop_at
loop_at-some lb i x e = rw (loop_at, e) refl

module _ (lb : LoadBalancer) (el : ℕ) (v : IsValid lb) where
  new_index : index (register lb el) (pos ((register lb el).idx el)) ≡ loop el
  unfolding register index
  new_index =
      rw (==_eq {a = el} refl, lt→leb (lb.size + 1) lb.size (omega arith))
        (loop_at-some (register lb el) lb.size el (rw v (get_elem?-snoc lb.event_loops el)))

  old_index : (i : ℕ) → i < lb.size → index (register lb el) (pos i) ≡ index lb (pos i)
  unfolding register index loop_at
  old_index i h =
      rw (lt→leb (lb.size + 1) i (omega arith), lt→leb lb.size i h)
        (ap (λ o. elim o [ none ↦ panicked | some x ↦ loop x ])
          (get_elem?-append_lt lb.event_loops (el ∷ []) i (omega (arith, v))))

  no_index : (i : ℕ) → lb.size < i → index (register lb el) (pos i) ≡ nothing
  unfolding register index
  no_index i h = rw (le→leb (lb.size + 1) i (omega arith)) refl

  -- Registering an event loop at a valid load balancer leaves it valid; `index` finds the event
  -- loop at its new `idx`, finds what it found at the indices below, and gives `nil` at those
  -- above.
  pub register-index :
      IsValid (register lb el)
      × (index (register lb el) (pos ((register lb el).idx el)) ≡ loop el)
      × ((i : ℕ) → i < lb.size → index (register lb el) (pos i) ≡ index lb (pos i))
      × ((i : ℕ) → lb.size < i → index (register lb el) (pos i) ≡ nothing)
  register-index = (
    unfold register in omega (arith, v, length-append lb.event_loops (el ∷ [])),
    new_index,
    old_index,
    no_index,
  )

abbrev pub Every : (ℕ → Type 0) → List ℕ → Type 0
Every p [] = Unit {0}
Every p (x ∷ xs) = p x × Every p xs

-- `m` stands in the list, with a smaller count than those before it and no larger than those behind.
abbrev pub IsFirstLeast : (ℕ → ℕ) → List ℕ → ℕ → Type 0
IsFirstLeast count xs m =
    (before : List ℕ) × (after : List ℕ) × (xs ≡ before ++ m ∷ after)
    × Every (λ x. count m < count x) before
    × Every (λ x. count m ≤ count x) after

module _ (count : ℕ → ℕ) where
  -- The loop keeps the candidate, or finds a better one later.
  least-cases :
      (vs : List ℕ) (el : ℕ)
      → ((least count el (count el) vs ≡ el) × Every (λ x. count el ≤ count x) vs)
        ⊎ (IsFirstLeast count vs (least count el (count el) vs)
            × (count (least count el (count el) vs) < count el))
  unfolding least
  least-cases [] el = inl (refl, tt)
  least-cases (v ∷ vs) el = elim (Bool-cases (ltb (count v) (count el))) [
    | inl p ↦ rw p (
        inr (elim (least-cases vs v) [
          | inl (e, all) ↦ (
            ([], vs, ap (λ m. m ∷ vs) (sym e), tt, rw e all),
            rw e (ltb→lt (count v) (count el) p),
          )
          | inr ((before, after, e, b, a), h) ↦ (
            (v ∷ before, after, ap (λ l. v ∷ l) e, (h, b), a),
            omega (arith, h, ltb→lt (count v) (count el) p),
          )
        ]))
    | inr p ↦ rw p (elim (least-cases vs el) [
      | inl (e, all) ↦ inl (e, (ltb→le (count v) (count el) p, all))
      | inr ((before, after, e, b, a), h) ↦ inr (
        (
          v ∷ before,
          after,
          ap (λ l. v ∷ l) e,
          (omega (arith, h, ltb→le (count v) (count el) p), b),
          a,
        ),
        h,
      )
    ])
  ]

  least-IsFirstLeast :
      (x : ℕ) (xs : List ℕ) → IsFirstLeast count (x ∷ xs) (least count x (count x) xs)
  least-IsFirstLeast x xs = elim (least-cases xs x) [
    | inl (e, all) ↦ rw e ([], xs, refl, tt, all)
    | inr ((before, after, e, b, a), h) ↦ (x ∷ before, after, ap (λ l. x ∷ l) e, (h, b), a)
  ]

  first_of : (xs : List ℕ) → 0 < length xs → (x : ℕ) × (rest : List ℕ) × (xs ≡ x ∷ rest)
  first_of [] h = absurd (omega arith)
  first_of (x ∷ xs) h = (x, xs, refl)

  -- On a valid load balancer with event loops, the least-connections `next` chooses an event loop
  -- of the list, with fewer connections than each before it and no more than each behind it.
  pub next_least_connections-first :
      (lb : LoadBalancer)
      → IsValid lb
      → 0 < lb.size
      → (m : ℕ) × (next_least_connections count lb ≡ loop m) × IsFirstLeast count lb.event_loops m
  unfolding next_least_connections
  next_least_connections-first lb v h =
      let (x, xs, e) = first_of lb.event_loops (omega (arith, v)) in
      (
        least count x (count x) xs,
        rw (==_ne {a = lb.size} {b = 0} (omega arith), e) refl,
        rw e (least-IsFirstLeast x xs),
      )
