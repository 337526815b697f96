-- ===== src/Ring/Advance.antt =====
-- The step that every reader of the ring makes: the read index goes round by `n`, and the queue
-- loses its first `n` bytes.
use native.Mathlib.Decide.{dec_lt}
use native.Mathlib.Nat.{mod-eq_of_lt, mod-eq-sub-mod}
use ag_core.Prelude.{
  ℕ, ◌+◌, ◌-◌, ◌%◌, ◌≤◌, ◌<◌, ◌≡◌, ◌≢◌, refl, ◌∙◌, sym, ap, false, [], ◌++◌, arith, ◌==◌, ==_ne,
  ==_eq, Bool-cases, inl, inr, length, take, drop, slice, drop-slice, drop-take-slice,
  drop-append_le, drop-append_ge, drop_all, drop-drop, length-drop,
}
use ag_core.Ring.{Buffer, reset, reset_if_met, buffered}
use ag_core.Ring.Valid.{IsValid, contents, contents_straight, contents_wrapped, length-contents}

abbrev pub shift : Buffer → ℕ → Buffer
shift b n = record b { r = (b.r + n) % b.size }

pub mod_within : (a s : ℕ) → a < s → a % s ≡ a
mod_within a s h = mod-eq_of_lt h

pub mod_round : (a s : ℕ) → s ≤ a → a < s + s → a % s ≡ a - s
mod_round a s h k =
    mod-eq-sub-mod {n = a} {m = s} h ∙ mod-eq_of_lt {n = a - s} {m = s} (omega arith)

module _ {b : Buffer} (v : IsValid b) (e : b.is_empty ≡ false) where
  pub buffered_straight : b.r < b.w → buffered b ≡ b.w - b.r
  unfolding buffered
  buffered_straight h = ground arith

  pub buffered_wrapped : b.w ≤ b.r → buffered b ≡ b.size - b.r + b.w
  unfolding buffered
  buffered_wrapped h = ground (arith, v.stored e)

  -- After a step inside the queue the indices have not met.
  pub shift-ne : (n : ℕ) → 0 < n → n < buffered b → (b.r + n) % b.size ≢ b.w
  shift-ne n p q = elim (dec_lt b.r b.w) [
    | yes s ↦ omega (arith, v.stored e, buffered_straight s, mod_within (b.r + n) b.size (below s))
    | no s ↦ elim (dec_lt (b.r + n) b.size) [
      | yes t ↦ omega (arith, v.stored e, mod_within (b.r + n) b.size t)
      | no t ↦ omega (
        arith,
        buffered_wrapped (omega arith),
        mod_round (b.r + n) b.size (omega arith) (round (omega arith)),
      )
    ]
  ]
    where
      below : b.r < b.w → b.r + n < b.size
      below s = omega (arith, v.stored e, buffered_straight s)

      round : b.w ≤ b.r → b.r + n < b.size + b.size
      round s = omega (arith, v.stored e, buffered_wrapped s)

  -- A step over the whole queue makes them meet.
  pub shift-eq : (b.r + buffered b) % b.size ≡ b.w
  shift-eq = elim (dec_lt b.r b.w) [
    | yes s ↦
        omega
          (arith, v.stored e, buffered_straight s, mod_within (b.r + buffered b) b.size (below s))
    | no s ↦ omega (
      arith,
      v.stored e,
      buffered_wrapped (omega arith),
      mod_round (b.r + buffered b) b.size
          (omega (arith, v.stored e, buffered_wrapped (omega arith)))
          (omega (arith, v.stored e, buffered_wrapped (omega arith))),
    )
  ]
    where
      below : b.r < b.w → b.r + buffered b < b.size
      below s = omega (arith, v.stored e, buffered_straight s)

  shift_straight : (n : ℕ) → b.r < b.w → n < b.w - b.r → contents (shift b n) ≡ drop n (contents b)
  shift_straight n h p =
      contents_straight (shift b n) e (omega (arith, m))
      ∙ ap (λ k. slice k b.w b.buf) m
      ∙ sym (drop-slice n b.r b.w b.buf (omega arith))
      ∙ sym (ap (drop n) (contents_straight b e h))
    where
      m : (b.r + n) % b.size ≡ b.r + n
      m = mod_within (b.r + n) b.size (omega (arith, v.stored e))

  shift_before_end :
      (n : ℕ) → b.w ≤ b.r → b.r + n < b.size → contents (shift b n) ≡ drop n (contents b)
  shift_before_end n h p =
      contents_wrapped (shift b n) e (omega (arith, m))
      ∙ ap (λ k. drop k b.buf ++ take b.w b.buf) m
      ∙ ap (λ l. l ++ take b.w b.buf) (sym (drop-drop n b.r b.buf))
      ∙ sym (
          drop-append_le n (drop b.r b.buf) (take b.w b.buf)
            (omega (arith, v, length-drop b.r b.buf)))
      ∙ sym (ap (drop n) (contents_wrapped b e h))
    where
      m : (b.r + n) % b.size ≡ b.r + n
      m = mod_within (b.r + n) b.size p

  shift_past_end :
      (n : ℕ)
      → b.w ≤ b.r
      → b.size ≤ b.r + n
      → n < b.size - b.r + b.w
      → contents (shift b n) ≡ drop n (contents b)
  shift_past_end n h p q =
      contents_straight (shift b n) e (omega (arith, m, v.stored e))
      ∙ ap (λ k. slice k b.w b.buf) m
      ∙ sym (drop-take-slice (b.r + n - b.size) b.w b.buf (omega (arith, v.stored e)))
      ∙ ap (λ k. drop k (take b.w b.buf)) k_eq
      ∙ sym (
          drop-append_ge n (drop b.r b.buf) (take b.w b.buf)
            (omega (arith, v, length-drop b.r b.buf)))
      ∙ sym (ap (drop n) (contents_wrapped b e h))
    where
      m : (b.r + n) % b.size ≡ b.r + n - b.size
      m = mod_round (b.r + n) b.size p (omega (arith, v.stored e))

      k_eq : b.r + n - b.size ≡ n - length (drop b.r b.buf)
      k_eq = omega (arith, v.length_buf, v.r_in, v.stored e, length-drop b.r b.buf)

  pub contents-shift : (n : ℕ) → n < buffered b → contents (shift b n) ≡ drop n (contents b)
  contents-shift n q = elim (dec_lt b.r b.w) [
    | yes s ↦ shift_straight n s (omega (arith, buffered_straight s))
    | no s ↦ elim (dec_lt (b.r + n) b.size) [
      | yes t ↦ shift_before_end n (omega arith) t
      | no t ↦
          shift_past_end n (omega arith) (omega arith)
            (omega (arith, buffered_wrapped (omega arith)))
    ]
  ]

  pub shift-IsValid : (n : ℕ) → IsValid (shift b n)
  shift-IsValid n = record {
    length_buf = v.length_buf;
    r_in = omega (arith, v.stored e);
    w_in = v.w_in;
    met = λ h. cc;
    stored = v.stored;
  }

pub reset-IsValid : (b : Buffer) → length b.buf ≡ b.size → IsValid (reset b)
unfolding reset
reset-IsValid b h = record {
  length_buf = h;
  r_in = omega arith;
  w_in = omega arith;
  met = λ _. refl;
  stored = λ k. cc;
}

pub contents-reset : (b : Buffer) → contents (reset b) ≡ []
unfolding reset
contents-reset b = refl

-- The step, with the reset where the indices meet.
module _ {b : Buffer} (v : IsValid b) (e : b.is_empty ≡ false) where
  pub advance-IsValid : (n : ℕ) → IsValid (reset_if_met (shift b n))
  unfolding reset_if_met
  advance-IsValid n = elim (Bool-cases ((b.r + n) % b.size == b.w)) [
    | inl m ↦ rw m (reset-IsValid (shift b n) v.length_buf)
    | inr m ↦ rw m (shift-IsValid v e n)
  ]

  pub contents-advance :
      (n : ℕ) → 0 < n → n ≤ buffered b → contents (reset_if_met (shift b n)) ≡ drop n (contents b)
  unfolding reset_if_met
  contents-advance n p q = elim (dec_lt n (buffered b)) [
    | yes s ↦ rw (==_ne (shift-ne v e n p s)) (contents-shift v e n s)
    | no s ↦
        let k : n ≡ buffered b = omega arith in
        rw (==_eq (ap (λ j. (b.r + j) % b.size) k ∙ shift-eq v e)) (
          contents-reset (shift b n)
          ∙ sym (drop_all n (contents b) (omega (arith, length-contents v))))
  ]
