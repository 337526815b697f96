-- ===== src/Ring/ReadByte.antt =====
-- `ReadByte` is the `pop` of the queue.
use native.Mathlib.Decide.{dec_lt}
use ag_core.Prelude.{
  ℕ, zero, suc, ◌+◌, ◌-◌, ◌%◌, ◌<◌, ◌≡◌, refl, ◌∙◌, ap, false, Option, none, some, List, [], ◌∷◌,
  arith, ◌==◌, if◌then◌else◌, Bool-cases, inl, inr, length, get_elem?, take, drop,
}
use ag_core.Ring.{Buffer, reset_if_met, buffered, read_byte}
use ag_core.Ring.Valid.{IsValid, contents, contents_straight, contents_wrapped}
use ag_core.Ring.Advance.{
  shift, mod_within, mod_round, buffered_straight, buffered_wrapped, advance-IsValid,
  contents-advance,
}

-- What `ReadByte` does to a queue.
abbrev pub pop : List ℕ → Option ℕ × List ℕ
pop [] = (none, [])
pop (x ∷ q) = (some x, q)

drop-pop : (q : List ℕ) → drop 1 q ≡ (pop q).1
drop-pop [] = refl
drop-pop (x ∷ q) = refl

drop_cons :
    (xs : List ℕ) (i : ℕ)
    → i < length xs
    → (x : ℕ) × (get_elem? xs i ≡ some x) × (drop i xs ≡ x ∷ drop (suc i) xs)
drop_cons [] i h = absurd (omega arith)
drop_cons (x ∷ xs) zero h = (x, refl, refl)
drop_cons (x ∷ xs) (suc i) h = drop_cons xs i (omega arith)

take_cons : (n x : ℕ) (xs : List ℕ) → 0 < n → take n (x ∷ xs) ≡ x ∷ drop 1 (take n (x ∷ xs))
take_cons zero x xs h = absurd (omega arith)
take_cons (suc n) x xs h = refl

module _ {b : Buffer} (v : IsValid b) (e : b.is_empty ≡ false) where
  -- The byte at the read index is the head of the queue.
  contents_head :
      (x : ℕ) (xs : List ℕ) → drop b.r b.buf ≡ x ∷ xs → contents b ≡ x ∷ drop 1 (contents b)
  contents_head x xs d = elim (dec_lt b.r b.w) [
    | yes h ↦ rw (contents_straight b e h, d) (take_cons (b.w - b.r) x xs (omega arith))
    | no h ↦ rw (contents_wrapped b e (omega arith), d) refl
  ]

  buffered_pos : 0 < buffered b
  buffered_pos = elim (dec_lt b.r b.w) [
    | yes h ↦ omega (arith, buffered_straight v e h)
    | no h ↦ omega (arith, buffered_wrapped v e (omega arith), v.stored e)
  ]

  next_index : (if b.r + 1 == b.size then 0 else b.r + 1) ≡ (b.r + 1) % b.size
  next_index = elim (dec_lt (b.r + 1) b.size) [
    | yes h ↦ rw (mod_within (b.r + 1) b.size h) (ground arith)
    | no h ↦
        rw (mod_round (b.r + 1) b.size (omega arith) (omega (arith, v.stored e)))
          (ground (arith, v.stored e))
  ]

-- On a valid buffer `read_byte` does not index out of range; it returns the first byte of the
-- queue, or none for an empty one, and leaves a valid buffer with the rest of the queue.
pub read_byte-pop :
    {b : Buffer}
    → IsValid b
    → (b' : Buffer) × (read_byte b ≡ some ((pop (contents b)).0, b'))
      × (contents b' ≡ (pop (contents b)).1)
      × IsValid b'
unfolding read_byte
read_byte-pop {b} v = elim (Bool-cases b.is_empty) [
  | inl e ↦ (b, ground arith, ground arith, v)
  | inr e ↦
      let (x, g, d) = drop_cons b.buf b.r (omega (arith, v, v.stored e)) in
      let c = contents_head v e x (drop (suc b.r) b.buf) d in
      (
        reset_if_met (shift b 1),
        rw c (ground (arith, g, ap (λ k. reset_if_met (record b { r = k })) (next_index v e))),
        contents-advance v e 1 (omega arith) (buffered_pos v e) ∙ drop-pop (contents b),
        advance-IsValid v e 1,
      )
]
