-- ===== src/Ring/Drain/Laws.antt =====
-- `WriteTo` takes from the queue exactly what the writer has taken.
use ag_core.Prelude.{
  ℕ, ◌+◌, ◌-◌, ◌%◌, ◌≡◌, refl, ◌∙◌, ap, Bool, false, some, List, [], arith, ==_eq, slice, le→ltb,
  le→leb,
}
use ag_core.Ring.{Buffer, reset, reset_if_met}
use ag_core.Ring.Valid.{IsValid, contents}
use ag_core.Ring.Advance.{shift, mod_within, contents-reset}
use ag_core.Ring.Drain.{Writer, Drained, close_drain, drain_end, write_to}

module _ {ℓ} (S : Type ℓ) where
  write_to_end :
      (write : Writer S) {b : Buffer} (s : S)
      → IsValid b
      → b.is_empty ≡ false
      → b.w ≡ 0
      → write_to S write b s ≡ drain_end S write b (b.size - b.r + b.w) s
  unfolding write_to
  write_to_end write {b} s v e h =
      rw
        (
          e,
          le→ltb b.r b.w (omega arith),
          le→leb (b.r + (b.size - b.r + b.w)) b.size (omega (arith, v.r_in)),
        )
        refl

  -- With a writer that takes no bytes, on a valid buffer that is full with both indices at 0,
  -- `write_to` reports that no bytes were written, and leaves an empty queue.
  pub write_to_lost :
      (write : Writer S) {b : Buffer} (s : S)
      → ((p : List ℕ) (s : S) → (write p s).0 ≡ 0)
      → IsValid b
      → b.is_empty ≡ false
      → b.r ≡ 0
      → b.w ≡ 0
      → (res : Drained S) × (write_to S write b s ≡ some res)
        × (res.n ≡ 0)
        × (contents res.after ≡ [])
  unfolding drain_end close_drain
  write_to_lost write {b} s none_taken v e hr hw = (
    close_drain S out.0 out.1 (reset_if_met (shift b out.0)) out.2,
    write_to_end write s v e hw
        ∙ rw (le→ltb (b.size - b.r + b.w) out.0 (omega (arith, taken))) refl,
    taken,
    ap contents met ∙ contents-reset (shift b out.0),
  )
    where
      out : ℕ × Bool × S
      out = write (slice b.r (b.r + (b.size - b.r + b.w)) b.buf) s

      taken : out.0 ≡ 0
      taken = none_taken (slice b.r (b.r + (b.size - b.r + b.w)) b.buf) s

      index : (b.r + out.0) % b.size ≡ b.w
      index =
          mod_within (b.r + out.0) b.size (omega (arith, taken, v.stored e)) ∙ omega (arith, taken)

      met : reset_if_met (shift b out.0) ≡ reset (shift b out.0)
      met = unfold reset_if_met in rw (==_eq {a = (b.r + out.0) % b.size} {b = b.w} index)
