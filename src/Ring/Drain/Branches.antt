-- ===== src/Ring/Drain/Branches.antt =====
-- Each branch of `WriteTo` takes from the queue exactly what the writer has taken.
use native.Mathlib.Decide.{dec_lt}
use mathlib.Core.Path.{subst}
use ag_core.Prelude.{
  length-take, length-drop, ℕ, zero, suc, ◌+◌, ◌-◌, ◌%◌, ◌≤◌, ◌<◌, ◌≡◌, ◌≢◌, ◌⊎◌, refl, ◌∙◌, sym,
  ap, ap₂, ◌++◌, Bool, true, false, some, List, arith, ==_ne, Bool-cases, inl, inr, length, take,
  drop, slice, lt→ltb, le→ltb,
}
use ag_core.Ring.{Buffer, reset_if_met, buffered}
use ag_core.Ring.Valid.{IsValid, contents}
use ag_core.Ring.Advance.{
  shift, mod_within, mod_round, shift-IsValid, contents-shift, advance-IsValid, contents-advance,
  buffered_straight, buffered_wrapped,
}
use ag_core.Ring.Drain.{
  Writer, Drained, DrainError, close_drain, drain_ahead, drain_end, drain_second, drain_round,
  short_write, writer_failed,
}
use ag_core.Ring.Drain.Given.{given_ahead, given_end, given_first, given_both}

-- The step by any count, for indices that are apart.
advance_apart :
    {b : Buffer}
    → IsValid b
    → b.is_empty ≡ false
    → (n : ℕ) → n ≤ buffered b
    → (0 < n) ⊎ (b.r ≢ b.w)
    → contents (reset_if_met (shift b n)) ≡ drop n (contents b)
advance_apart {b} v e (suc n) le h = contents-advance v e (suc n) (omega arith) le
advance_apart {b} v e zero le (inl h) = absurd (omega arith)
advance_apart {b} v e zero le (inr h) = rw still (contents-shift v e 0 stored)
  where
    stored : 0 < buffered b
    stored = elim (dec_lt b.r b.w) [
      | yes k ↦ omega (arith, buffered_straight v e k)
      | no k ↦ omega (arith, buffered_wrapped v e (omega arith), v.stored e, v.r_in)
    ]

    same : (b.r + 0) % b.size ≡ b.r
    same = mod_within (b.r + 0) b.size (omega (arith, v.r_in, v.stored e)) ∙ omega arith

    still : reset_if_met (shift b 0) ≡ shift b 0
    still =
        unfold reset_if_met in rw (==_ne {a = (b.r + 0) % b.size} {b = b.w} (omega (arith, same)))

-- `taken` is what a writer has taken, oldest first.
module _ {ℓ} (S : Type ℓ) (taken : S → List ℕ) where
  -- The writer has got the first bytes of the queue, as many as are reported, and what is left is
  -- the queue behind them.
  pub record Drains (b : Buffer) (s : S) (res : Drained S) : Type ℓ where
    pub given : taken res.state ≡ taken s ++ take res.n (contents b)
    pub rest : contents res.after ≡ drop res.n (contents b)
    pub valid : IsValid res.after

  -- A writer that takes, from the front of what it is given, as many bytes as it reports, and
  -- reports no more than it was given.
  abbrev pub IsHonest : Writer S → Type ℓ
  IsHonest write =
      (p : List ℕ) (s : S)
      → ((write p s).0 ≤ length p) × (taken (write p s).2 ≡ taken s ++ take (write p s).0 p)

  module _ (write : Writer S) (honest : IsHonest write) {b : Buffer} (v : IsValid b)
      (e : b.is_empty ≡ false) where
    pub drain_ahead-Drains :
        (s : S)
        → b.r < b.w
        → (res : Drained S) × (drain_ahead S write b s ≡ some res) × Drains b s res
    unfolding drain_ahead close_drain
    drain_ahead-Drains s h = (
      close_drain S out.0 out.1 (reset_if_met (record b { r = b.r + m })) out.2,
      rw (le→ltb (b.w - b.r) m fits) refl,
      record {
        given =
            (honest (slice b.r (b.r + (b.w - b.r)) b.buf) s).1
            ∙ ap (λ l. taken s ++ take m l) (given_ahead b e h);
        rest =
            ap contents same
            ∙ advance_apart v e m (omega (arith, fits, buffered_straight v e h))
                (inr (omega arith));
        valid = subst IsValid (sym same) (advance-IsValid v e m);
      },
    )
      where
        out : ℕ × Bool × S
        out = write (slice b.r (b.r + (b.w - b.r)) b.buf) s

        m : ℕ
        m = out.0

        fits : m ≤ b.w - b.r
        fits = omega (
          arith,
          (honest (slice b.r (b.r + (b.w - b.r)) b.buf) s).0,
          length-take (b.r + (b.w - b.r) - b.r) (drop b.r b.buf),
        )

        same : reset_if_met (record b { r = b.r + m }) ≡ reset_if_met (shift b m)
        same =
            ap (λ k. reset_if_met (record b { r = k }))
              (sym (mod_within (b.r + m) b.size (omega (arith, fits, v.w_in, v.stored e))))

    pub drain_end-Drains :
        (s : S)
        → b.w ≡ 0
        → (0 < b.r)
        → (res : Drained S) × (drain_end S write b (b.size - b.r + b.w) s ≡ some res)
          × Drains b s res
    unfolding drain_end close_drain
    drain_end-Drains s h apart = (
      close_drain S out.0 out.1 (reset_if_met (shift b m)) out.2,
      rw (le→ltb (b.size - b.r + b.w) m fits) refl,
      record {
        given =
            (honest (slice b.r (b.r + n) b.buf) s).1
            ∙ ap (λ l. taken s ++ take m l) (given_end v e h);
        rest =
            advance_apart v e m (omega (arith, fits, buffered_wrapped v e (omega arith)))
              (inr (omega arith));
        valid = advance-IsValid v e m;
      },
    )
      where
        n : ℕ
        n = b.size - b.r + b.w

        out : ℕ × Bool × S
        out = write (slice b.r (b.r + n) b.buf) s

        m : ℕ
        m = out.0

        fits : m ≤ n
        fits = omega (
          arith,
          (honest (slice b.r (b.r + n) b.buf) s).0,
          length-take (b.r + n - b.r) (drop b.r b.buf),
        )

    -- The second write, behind a first one that took all it was given.
    drain_second-Drains :
        (s t : S)
        → taken t ≡ taken s ++ take (b.size - b.r) (drop b.r b.buf)
        → 0 < b.w
        → b.w ≤ b.r
        → (res : Drained S) × (drain_second S write (shift b (b.size - b.r)) (b.size - b.r) b.w t
            ≡ some res)
          × Drains b s res
    unfolding drain_second close_drain
    drain_second-Drains s t before p h = (
      close_drain S (b.size - b.r + out.0) out.1 (reset_if_met (record b { r = m })) out.2,
      rw (le→ltb b.w m fits) refl,
      record {
        given =
            (honest (take b.w b.buf) t).1
            ∙ ap (λ l. l ++ take m (take b.w b.buf)) before
            ∙ given_both v e h (taken s) m;
        rest =
            ap contents same
            ∙ contents-advance v e (b.size - b.r + m) (omega (arith, v.r_in, v.stored e))
                (omega (arith, fits, buffered_wrapped v e h));
        valid = subst IsValid (sym same) (advance-IsValid v e (b.size - b.r + m));
      },
    )
      where
        out : ℕ × Bool × S
        out = write (take b.w b.buf) t

        m : ℕ
        m = out.0

        fits : m ≤ b.w
        fits = omega (arith, (honest (take b.w b.buf) t).0, length-take b.w b.buf)

        index : (b.r + (b.size - b.r + m)) % b.size ≡ m
        index =
            mod_round (b.r + (b.size - b.r + m)) b.size (omega (arith, v.r_in))
              (omega (arith, v.r_in, v.w_in, fits, v.stored e))
            ∙ omega (arith, v.r_in, v.stored e)

        same : reset_if_met (record b { r = m }) ≡ reset_if_met (shift b (b.size - b.r + m))
        same = ap (λ k. reset_if_met (record b { r = k })) (sym index)

    -- The first write of the two, for any count.
    part-Drains :
        (m : ℕ) (err : DrainError) (s t : S)
        → taken t ≡ taken s ++ take m (drop b.r b.buf)
        → m ≤ b.size - b.r
        → 0 < b.w
        → b.w ≤ b.r
        → Drains b s (record { n = m; err = err; after = shift b m; state = t })
    part-Drains m err s t before le p h = record {
      given = before ∙ ap (λ l. taken s ++ l) (given_first v e h m le);
      rest = contents-shift v e m (omega (arith, buffered_wrapped v e h));
      valid = shift-IsValid v e m;
    }

    pub drain_round-Drains :
        (s : S)
        → 0 < b.w
        → b.w ≤ b.r
        → (res : Drained S) × (drain_round S write b (b.size - b.r + b.w) s ≡ some res)
          × Drains b s res
    drain_round-Drains s p h = elim (Bool-cases out.1) [
      | inl f ↦ (
        record { n = out.0; err = writer_failed; after = shift b out.0; state = out.2 },
        failing f,
        part-Drains out.0 writer_failed s out.2 (honest (drop b.r b.buf) s).1 fits p h,
      )
      | inr f ↦ elim (dec_lt out.0 (b.size - b.r)) [
        | yes l ↦ (
          record { n = out.0; err = short_write; after = shift b out.0; state = out.2 },
          short f l,
          part-Drains out.0 short_write s out.2 (honest (drop b.r b.buf) s).1 fits p h,
        )
        | no l ↦
            let (res, q, d) =
              drain_second-Drains s out.2
                ((honest (drop b.r b.buf) s).1
                  ∙ ap (λ k. taken s ++ take k (drop b.r b.buf)) {x = out.0} {y = b.size - b.r}
                      (omega (arith, fits)))
                p h in
            (res, second f (omega (arith, fits)) ∙ q, d)
      ]
    ]
      where
        out : ℕ × Bool × S
        out = write (drop b.r b.buf) s

        fits : out.0 ≤ b.size - b.r
        fits = omega (arith, (honest (drop b.r b.buf) s).0, length-drop b.r b.buf, v.length_buf)

        failing :
            out.1 ≡ true
            → drain_round S write b (b.size - b.r + b.w) s
              ≡ some
                  (record { n = out.0; err = writer_failed; after = shift b out.0; state = out.2 })
        failing f = unfold drain_round in rw (le→ltb (b.size - b.r) out.0 fits, f) refl

        short :
            out.1 ≡ false
            → out.0 < b.size - b.r
            → drain_round S write b (b.size - b.r + b.w) s
              ≡ some (record { n = out.0; err = short_write; after = shift b out.0; state = out.2 })
        short f l =
            unfold drain_round in
            rw (le→ltb (b.size - b.r) out.0 fits, f, lt→ltb out.0 (b.size - b.r) l) refl

        left : b.size - b.r + b.w - (b.size - b.r) ≡ b.w
        left = omega arith

        second :
            out.1 ≡ false
            → out.0 ≡ b.size - b.r
            → drain_round S write b (b.size - b.r + b.w) s
              ≡ drain_second S write (shift b (b.size - b.r)) (b.size - b.r) b.w out.2
        second f l =
            unfold drain_round in
            rw (le→ltb (b.size - b.r) out.0 fits, f, le→ltb out.0 (b.size - b.r) (omega (arith, l)))
              (ap₂ (λ k n. drain_second S write (shift b k) k n out.2) l left)
