-- ===== src/Ring/Grow.antt =====
-- `grow` keeps the queue, and reaches the capacity that it is asked for.
use native.Mathlib.Decide.{dec_lt, dec_le}
use ag_core.Prelude.{
  ℕ, zero, suc, ◌+◌, ◌-◌, ◌/◌, ◌≤◌, ◌<◌, ◌≡◌, ◌∙◌, sym, ap, true, false, some, List, ◌++◌, arith,
  length, take, drop, slice, length-copy, take_all, take-append_le, copy_fits, lt→ltb, le→ltb,
}
use ag_core.Pow.{maxint_head_bit}
use ag_core.Pow.Laws.{ceil_to_power_of_two-IsCeil}
use ag_core.Ring.{Buffer, Fresh, buffered, read, default_buffer_size, buffer_grow_threshold}
use ag_core.Ring.Write.{grow_loop, grown_cap, move_to, grow}
use ag_core.Ring.Valid.{
  IsValid, contents, contents_empty, contents_straight, length-contents, buffered-add-available,
}
use ag_core.Ring.Consume.{read-Reads}

-- The rounds suffice: from 4 on, each adds at least one.
grow_loop-ge : (k n new_cap : ℕ) → 4 ≤ n → new_cap ≤ n + k → new_cap ≤ grow_loop k n new_cap
unfolding grow_loop
grow_loop-ge zero n c p h = omega arith
grow_loop-ge (suc k) n c p h =
    ground (arith, grow_loop-ge k (n + n / 4) c (omega arith) (omega arith))

-- A larger capacity than the size is reached.
pub grown_cap-ge :
    (n new_cap : ℕ)
    → n < new_cap
    → new_cap ≤ maxint_head_bit
    → (c : ℕ) × (grown_cap n new_cap ≡ some c) × (new_cap ≤ c)
unfolding grown_cap
grown_cap-ge n m h small =
    let (c, e, i) = ceil_to_power_of_two-IsCeil m small in
    elim (dec_lt 0 n) [
      | yes p ↦ elim (dec_le m (n + n)) [
        | yes q ↦ elim (dec_lt n buffer_grow_threshold) [
          | yes s ↦ (n + n, ground arith, q)
          | no s ↦ (grow_loop m n m, ground arith, grow_loop-ge m n m (omega arith) (omega arith))
        ]
        | no q ↦ (m, ground arith, omega arith)
      ]
      | no p ↦ elim (dec_le m default_buffer_size) [
        | yes q ↦ (default_buffer_size, ground arith, q)
        | no q ↦ (c, ground (arith, e), i.above)
      ]
    ]

-- An empty count on a valid buffer is an empty buffer.
pub empty_of_buffered : {b : Buffer} → IsValid b → buffered b ≡ 0 → b.is_empty ≡ true
unfolding buffered
empty_of_buffered v h = ground (arith, v.stored)

pub buffered_of_empty : {b : Buffer} → IsValid b → b.is_empty ≡ true → buffered b ≡ 0
unfolding buffered
buffered_of_empty v h = ground (arith, v.met h)

after_empty : (b : Buffer) (p : List ℕ) → b.is_empty ≡ true → (read b p).after.is_empty ≡ true
unfolding read
after_empty b p e = ground arith

-- The part of the new storage that `Read` fills.
prefix_taken : (q d : List ℕ) → slice 0 (length q) (q ++ d) ≡ q
prefix_taken q d =
    ap (λ k. take k (q ++ d)) {x = length q - 0} {y = length q} (omega arith)
    ∙ take-append_le (length q) q d (omega arith)
    ∙ take_all (length q) q (omega arith)

module _ (fresh : Fresh) (fresh_length : (n : ℕ) → length (fresh n) ≡ n) where
  module _ {b : Buffer} (v : IsValid b) (c : ℕ) (fits : buffered b < c) where
    moved_buf : (move_to fresh b c).buf ≡ contents b ++ drop (length (contents b)) (fresh c)
    unfolding move_to
    moved_buf =
        (read-Reads (fresh c) v).bytes
        ∙ copy_fits (fresh c) (contents b) (omega (arith, fresh_length c, length-contents v))

    moved_full : 0 < buffered b → (move_to fresh b c).is_empty ≡ false
    unfolding move_to
    moved_full h = rw (lt→ltb _ _ h)

    moved_empty : buffered b ≡ 0 → (move_to fresh b c).is_empty ≡ true
    unfolding move_to
    moved_empty h =
        rw (le→ltb 0 (buffered b) (omega arith)) (after_empty b (fresh c) (empty_of_buffered v h))

    pub move_to-IsValid : IsValid (move_to fresh b c)
    unfolding move_to
    move_to-IsValid = record {
      length_buf =
          ap length (read-Reads (fresh c) v).bytes
          ∙ length-copy (fresh c) (contents b)
          ∙ fresh_length c;
      r_in = omega arith;
      w_in = omega arith;
      met = λ h. elim (dec_lt 0 (buffered b)) [ yes p ↦ cc (moved_full p) | no p ↦ omega arith ];
      stored = λ h. omega arith;
    }

    pub contents-move_to : contents (move_to fresh b c) ≡ contents b
    unfolding move_to buffered
    contents-move_to = elim (dec_lt 0 (buffered b)) [
      | yes p ↦
          contents_straight (move_to fresh b c) (moved_full p) (unfold move_to in p)
          ∙ ap (slice (move_to fresh b c).r (move_to fresh b c).w) moved_buf
          ∙ ap (λ k. slice 0 k (contents b ++ drop (length (contents b)) (fresh c)))
              (sym (length-contents v))
          ∙ prefix_taken (contents b) (drop (length (contents b)) (fresh c))
      | no p ↦
          contents_empty (move_to fresh b c) (moved_empty (omega arith))
          ∙ sym (contents_empty b (empty_of_buffered v (omega arith)))
    ]

  -- On a valid buffer `grow` to a capacity above the size and of at most 2 ^ 62 returns a valid
  -- buffer with the same queue and at least that capacity, where a fresh slice has the length that
  -- was asked for.
  pub grow-contents :
      {b : Buffer} (n : ℕ)
      → IsValid b
      → b.size < n
      → n ≤ maxint_head_bit
      → (b' : Buffer) × (grow fresh b n ≡ some b')
        × (contents b' ≡ contents b)
        × IsValid b'
        × (n ≤ b'.size)
  unfolding grow
  grow-contents {b} n v h small =
      let (c, e, le) = grown_cap-ge b.size n h small in
      let fits : buffered b < c = omega (arith, buffered-add-available v) in
      (
        move_to fresh b c,
        rw (e, grow),
        contents-move_to v c fits,
        move_to-IsValid v c fits,
        unfold move_to in le,
      )
