-- ===== src/Pool/Kept.antt =====
-- The buffers that a pool keeps, and what it hands out.
use mathlib.Core.Option.{some-injective}
use mathlib.Core.Path.{subst}
use ag_core.Prelude.{
  ℕ, zero, suc, ◌+◌, ◌-◌, ◌*◌, ◌^◌, ◌≡◌, ◌≤◌, refl, true, Option, some, List, [], ◌∷◌, ◌++◌, arith,
  ==_ne, length, get_elem?, take, drop, Option-cases, inl, inr,
}
use ag_core.Pow.Laws.{ceil_to_power_of_two-IsCeil}
use ag_core.Ring.{Buffer, Fresh, new}
use ag_core.Ring.Valid.{IsValid, contents}
use ag_core.Pool.{Pool, steps, min_size, get_new, get}

-- The buffers that are kept are valid and empty.
abbrev pub Kept : List Buffer → Type 0
Kept [] = Unit {0}
Kept (b ∷ bs) = IsValid b × (contents b ≡ []) × Kept bs

-- The largest class.
abbrev pub max_class : ℕ
max_class = min_size * 2 ^ (steps - 1)

pub record IsGood (p : Pool) : Type 0 where
  pub calls_length : length p.calls ≡ steps
  pub default_in : p.default_size ≤ max_class
  pub kept : Kept p.pool

Kept-append : (xs ys : List Buffer) → Kept xs → Kept ys → Kept (xs ++ ys)
Kept-append [] ys k l = l
Kept-append (x ∷ xs) ys (v, e, k) l = (v, e, Kept-append xs ys k l)

Kept-take : (n : ℕ) (xs : List Buffer) → Kept xs → Kept (take n xs)
Kept-take zero xs k = tt
Kept-take (suc n) [] k = tt
Kept-take (suc n) (x ∷ xs) (v, e, k) = (v, e, Kept-take n xs k)

Kept-drop : (n : ℕ) (xs : List Buffer) → Kept xs → Kept (drop n xs)
Kept-drop zero xs k = k
Kept-drop (suc n) [] k = tt
Kept-drop (suc n) (x ∷ xs) (v, e, k) = Kept-drop n xs k

Kept-elem :
    (xs : List Buffer) (i : ℕ) (b : Buffer)
    → Kept xs
    → get_elem? xs i ≡ some b
    → IsValid b × (contents b ≡ [])
Kept-elem [] i b k e = cc e
Kept-elem (x ∷ xs) zero b (v, c, k) e =
    subst (λ y. IsValid y × (contents y ≡ [])) (some-injective x b e) (v, c)
Kept-elem (x ∷ xs) (suc i) b (v, c, k) e = Kept-elem xs i b k e

module _ (fresh : Fresh) (fresh_length : (n : ℕ) → length (fresh n) ≡ n) where
  none-IsValid : IsValid (record { buf = []; size = 0; r = 0; w = 0; is_empty = true })
  none-IsValid = record {
    length_buf = refl;
    r_in = omega arith;
    w_in = omega arith;
    met = λ e. refl;
    stored = λ e. cc e;
  }

  fresh-IsValid :
      (c : ℕ) → IsValid (record { buf = fresh c; size = c; r = 0; w = 0; is_empty = true })
  fresh-IsValid c = record {
    length_buf = fresh_length c;
    r_in = omega arith;
    w_in = omega arith;
    met = λ e. refl;
    stored = λ e. cc e;
  }

  pub new-IsValid :
      (size : ℕ)
      → size ≤ max_class
      → (b : Buffer) × (new fresh size ≡ some b) × IsValid b × (contents b ≡ [])
  unfolding new
  new-IsValid zero h = (_, refl, none-IsValid, refl)
  new-IsValid (suc n) h =
      let (c, e, k) = ceil_to_power_of_two-IsCeil (suc n) (omega arith) in
      (
        record { buf = fresh c; size = c; r = 0; w = 0; is_empty = true },
        rw (==_ne {a = suc n} {b = 0} (omega arith), e) refl,
        fresh-IsValid c,
        refl,
      )

  module _ (choose : List Buffer → Option ℕ) where
    get_new-IsGood :
        (p : Pool)
        → IsGood p
        → (b : Buffer) × (p' : Pool) × (get_new fresh choose p ≡ some (b, p'))
          × IsValid b
          × (contents b ≡ [])
          × IsGood p'
    unfolding get_new
    get_new-IsGood p g =
        let (b, e, v, c) = new-IsValid p.default_size g.default_in in
        (b, p, rw (get_new, e) refl, v, c, g)

    -- On a pool as for `put`, where a fresh slice has the length that was asked for, `get`
    -- succeeds, whatever kept buffer it takes or none, hands out a valid empty buffer, and the pool
    -- is again such a one.
    pub get-IsGood :
        (p : Pool)
        → IsGood p
        → (b : Buffer) × (p' : Pool) × (get fresh choose p ≡ some (b, p'))
          × IsValid b
          × (contents b ≡ [])
          × IsGood p'
    unfolding get
    get-IsGood p g = elim (Option-cases (choose p.pool)) [
      | inl e ↦ rw (get, e) (get_new-IsGood p g)
      | inr (i, e) ↦ elim (Option-cases (get_elem? p.pool i)) [
        | inl f ↦ rw (get, e, f) (get_new-IsGood p g)
        | inr (b, f) ↦
            let (v, c) = Kept-elem p.pool i b g.kept f in
            (
              b,
              record p { pool = take i p.pool ++ drop (i + 1) p.pool },
              rw (get, e, f) refl,
              v,
              c,
              record {
                calls_length = g.calls_length;
                default_in = g.default_in;
                kept =
                    Kept-append (take i p.pool) (drop (i + 1) p.pool) (Kept-take i p.pool g.kept)
                      (Kept-drop (i + 1) p.pool g.kept);
              },
            )
      ]
    ]
