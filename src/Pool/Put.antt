-- ===== src/Pool/Put.antt =====
-- What `Put` and its statistics do to a pool.
use mathlib.Core.List.{Perm, mem-cons_self, not-mem-nil}
use mathlib.Core.List.Perm
use mathlib.Core.Path.{subst}
use ag_core.Prelude.{
  ℕ, suc, ◌+◌, ◌*◌, ◌%◌, ◌^◌, ◌≡◌, ◌≤◌, ◌<◌, ◌⊎◌, refl, ◌∙◌, ap, true, ◌||◌, some, List, [], ◌∷◌,
  arith, ◌==◌, ltb, leb, leb→le, le→leb, length, length-set, length-replicate, get_elem?-drop, set,
  replicate, Bool-cases, inl, inr,
}
use ag_core.Pow.Laws.{pow_mono}
use ag_core.Ring.{Buffer, reset, len, cap}
use ag_core.Ring.Valid.{IsValid}
use ag_core.Ring.Advance.{reset-IsValid, contents-reset}
use ag_core.Pool.{
  Pool, CallSize, calibrate_calls_threshold, steps, min_size, index, call_sizes, calls_sum, largest,
  calibrate, keep, put,
}
use ag_core.Sorting.{Every, Every-Mem}
use ag_core.Pool.Index.{index-fits}
use ag_core.Pool.Kept.{max_class, IsGood}

-- No class is above the largest.
call_sizes-Every :
    (i : ℕ) (cs : List ℕ)
    → length cs + i ≤ steps
    → Every (λ c. leb c.size max_class) (call_sizes i cs)
unfolding call_sizes
call_sizes-Every i [] h = tt
call_sizes-Every i (c ∷ cs) h = (
  le→leb (min_size * 2 ^ i) max_class (omega (arith, pow_mono i 19 (omega arith))),
  call_sizes-Every (i + 1) cs (omega arith),
)

length-call_sizes : (i : ℕ) (cs : List ℕ) → length (call_sizes i cs) ≡ length cs
unfolding call_sizes
length-call_sizes i [] = refl
length-call_sizes i (c ∷ cs) = ap suc (length-call_sizes (i + 1) cs)

-- What `Put` may do with the buffers that the pool keeps.
abbrev pub MayKeep : List Buffer → Pool → Buffer → Type 0
MayKeep kept p' b =
    (p'.pool ≡ kept) ⊎ ((p'.pool ≡ reset b ∷ kept) × ((p'.max_size ≡ 0) ⊎ (cap b ≤ p'.max_size)))

module _ (sort : List CallSize → List CallSize) (part : ℕ → ℕ)
    (sorts : (l : List CallSize) → Perm (sort l) l) where
  -- The first of the sorted classes.
  sorted_first :
      (l : List CallSize)
      → 0 < length l
      → Every (λ c. leb c.size max_class) l
      → (x : CallSize) × (s : List CallSize) × (sort l ≡ x ∷ s) × (x.size ≤ max_class)
  sorted_first [] h e = absurd (omega arith)
  sorted_first (c ∷ cs) h e = go (sort (c ∷ cs)) refl (sorts (c ∷ cs))
    where
      go :
          (s' : List CallSize)
          → sort (c ∷ cs) ≡ s'
          → Perm s' (c ∷ cs)
          → (x : CallSize) × (s : List CallSize) × (sort (c ∷ cs) ≡ x ∷ s) × (x.size ≤ max_class)
      go [] q r = absurd (not-mem-nil ((Perm.mem_iff r).1 mem-cons_self))
      go (x ∷ s) q r = (
        x,
        s,
        q,
        leb→le x.size max_class
            (Every-Mem (λ d. leb d.size max_class) x (c ∷ cs) e ((Perm.mem_iff r).0 mem-cons_self)),
      )

  calibrate-IsGood :
      (p : Pool)
      → IsGood p
      → (p' : Pool) × (calibrate sort part p ≡ some p') × IsGood p' × (p'.pool ≡ p.pool)
  unfolding calibrate
  calibrate-IsGood p g = elim (Bool-cases (p.calibrating == 0)) [
    | inr e ↦ (p, rw (calibrate, e) refl, g, refl)
    | inl e ↦
        let (x, s, q, h) =
          sorted_first (call_sizes 0 p.calls)
            (omega (arith, length-call_sizes 0 p.calls, g.calls_length))
            (call_sizes-Every 0 p.calls (omega (arith, g.calls_length))) in
        (
          record p {
            calls = replicate steps 0;
            default_size = x.size;
            max_size = largest (part (calls_sum 0 p.calls)) 0 x.size (x ∷ s);
          },
          rw (calibrate, e, q) refl,
          record { calls_length = length-replicate {A = ℕ} steps 0; default_in = h; kept = g.kept },
          refl,
        )
  ]

  keep-IsGood :
      (p : Pool) (b : Buffer)
      → IsGood p
      → IsValid b
      → IsGood (keep sort part b p) × MayKeep p.pool (keep sort part b p) b
  unfolding keep
  keep-IsGood p b g v = elim (Bool-cases (p.max_size == 0 || leb (cap b) p.max_size)) [
    | inr e ↦ rw e (g, inl refl)
    | inl e ↦ rw e (
      record {
        calls_length = g.calls_length;
        default_in = g.default_in;
        kept = (reset-IsValid b v.length_buf, contents-reset b, g.kept);
      },
      inr (refl, within e),
    )
  ]
    where
      within :
          (p.max_size == 0 || leb (cap b) p.max_size) ≡ true
          → (p.max_size ≡ 0) ⊎ (cap b ≤ p.max_size)
      within e = ground (arith, e)

  -- The pool with a call counted.
  abbrev counted : Pool → Buffer → ℕ → Pool
  counted p b n = record p { calls = set p.calls (index (len b)) ((n + 1) % 2 ^ 64) }

  counted-IsGood : (p : Pool) (b : Buffer) (n : ℕ) → IsGood p → IsGood (counted p b n)
  counted-IsGood p b n g = record {
    calls_length = length-set p.calls (index (len b)) ((n + 1) % 2 ^ 64) ∙ g.calls_length;
    default_in = g.default_in;
    kept = g.kept;
  }

  -- On a pool with a counter for each class, a default size of at most the largest class, and valid
  -- empty buffers, `put` of a valid buffer succeeds, also where it calibrates with any sort that
  -- permutes; the pool is again such a one, and keeps what it kept, or also the reset buffer, then
  -- without a limit or with one that the capacity does not pass.
  pub put-IsGood :
      (p : Pool) (b : Buffer)
      → IsGood p
      → IsValid b
      → (p' : Pool) × (put sort part p b ≡ some p') × IsGood p' × MayKeep p.pool p' b
  unfolding put
  put-IsGood p b g v =
      let (n, e, q) =
        get_elem?-drop p.calls (index (len b))
          (omega (arith, (index-fits (len b)).0, g.calls_length)) in
      elim (Bool-cases (ltb calibrate_calls_threshold ((n + 1) % 2 ^ 64))) [
        | inr h ↦
            let (good, may) = keep-IsGood (counted p b n) b (counted-IsGood p b n g) v in
            (keep sort part b (counted p b n), rw (put, e, h) refl, good, may)
        | inl h ↦
            let (p', f, good, same) = calibrate-IsGood (counted p b n) (counted-IsGood p b n g) in
            let (good', may) = keep-IsGood p' b good v in
            (
              keep sort part b p',
              rw (put, e, h, f) refl,
              good',
              subst (λ l. MayKeep l (keep sort part b p') b) same may,
            )
      ]
