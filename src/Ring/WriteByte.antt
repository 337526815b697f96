-- ===== src/Ring/WriteByte.antt =====
-- `WriteByte` appends one byte where there is room or the buffer is small, and panics on a full buffer of
-- 4096 bytes or more, for which `grow(1)` keeps the capacity.
use native.Mathlib.Decide.{dec_lt, dec_le}
use ag_core.Prelude.{
  ℕ, zero, suc, ◌+◌, ◌≤◌, ◌<◌, ◌≡◌, refl, ◌∙◌, sym, ap, true, none, some, List, [], ◌∷◌, ◌++◌,
  arith, inl, inr, ◌⊎◌, length, set, take, drop, length-copy, copy_at, copy_at_fits, lt→ltb, le→ltb,
}
use ag_core.Ring.{
  Buffer, Fresh, buffered, available, read, is_full, default_buffer_size, buffer_grow_threshold,
}
use ag_core.Ring.Write.{
  close_write, write_straight, write_byte, put_byte, grow, grown_cap, grow_loop, move_to,
}
use ag_core.Ring.Valid.{IsValid, contents, length-contents, buffered-add-available}
use ag_core.Ring.Consume.{read-Reads}
use ag_core.Ring.Grow.{move_to-IsValid, contents-move_to}
use ag_core.Ring.Append.{Appends, write_ahead, write_behind}

set-eq-append :
    (xs : List ℕ) (i v : ℕ) → i < length xs → set xs i v ≡ take i xs ++ (v ∷ [] ++ drop (i + 1) xs)
set-eq-append [] i v h = absurd (omega arith)
set-eq-append (x ∷ xs) zero v h = refl
set-eq-append (x ∷ xs) (suc i) v h =
    ap (◌∷◌ x) (set-eq-append xs i v (omega arith) ∙ ap (λ k. take i xs ++ (v ∷ drop k (x ∷ xs))) e)
  where
    e : suc (i + 1) ≡ suc i + 1
    e = omega arith

put_byte-Appends :
    {b : Buffer} (c : ℕ)
    → IsValid b
    → 0 < available b
    → (b' : Buffer) × (put_byte b c ≡ some b') × Appends b (c ∷ []) b'
unfolding put_byte write_straight
put_byte-Appends {b} c v a = (
  close_write (write_straight b (c ∷ [])),
  rw (lt→ltb b.w (length b.buf) inside)
      (ap (λ l. some (close_write (record b { buf = l; w = b.w + 1 }))) same),
  elim (dec_le b.r b.w) [
    | yes h ↦
        write_ahead v (c ∷ []) (omega arith) a h (omega (arith, v.w_in, buffered-add-available v))
    | no h ↦ write_behind v (c ∷ []) (omega arith) a (omega arith)
  ],
)
  where
    inside : b.w < length b.buf
    inside = omega (arith, v.w_in, v.length_buf, buffered-add-available v)

    same : set b.buf b.w c ≡ copy_at b.w b.buf (c ∷ [])
    same =
        set-eq-append b.buf b.w c inside
        ∙ sym (copy_at_fits b.w b.buf (c ∷ []) (omega (arith, inside)))

module _ (fresh : Fresh) (fresh_length : (n : ℕ) → length (fresh n) ≡ n) where
  grown_small :
      (b : Buffer)
      → b.size < buffer_grow_threshold
      → (c : ℕ) × (grow fresh b 1 ≡ some (move_to fresh b c)) × (b.size < c)
  unfolding grow grown_cap
  grown_small b h = elim (dec_lt 0 b.size) [
    | yes p ↦ (b.size + b.size, ground arith, omega arith)
    | no p ↦ (default_buffer_size, ground arith, omega arith)
  ]

  small :
      (b : Buffer)
      → (0 < available b) ⊎ (b.size < buffer_grow_threshold)
      → ¬ (0 < available b)
      → b.size < buffer_grow_threshold
  small b (inl h) a = absurd (a h)
  small b (inr h) a = h

  room :
      {b : Buffer}
      → IsValid b
      → (n : ℕ) → b.size < n
      → contents (move_to fresh b n) ≡ contents b
      → IsValid (move_to fresh b n)
      → 0 < available (move_to fresh b n)
  room {b} v n lt q v' = omega (
    arith,
    buffered-add-available v',
    length-contents v',
    ap length q,
    length-contents v,
    buffered-add-available v,
    size,
  )
    where
      size : (move_to fresh b n).size ≡ n
      size = unfold move_to in refl

  full_of : (b : Buffer) → is_full b ≡ true → (buffered b ≡ b.size) × (available b ≡ 0)
  unfolding is_full buffered available
  full_of b f = ground arith

  full_grow :
      (b : Buffer) → buffer_grow_threshold ≤ b.size → grow fresh b 1 ≡ some (move_to fresh b b.size)
  unfolding grow grown_cap grow_loop
  full_grow b h = ground arith

  full_put :
      {b : Buffer} (c : ℕ)
      → IsValid b
      → buffered b ≡ b.size
      → put_byte (move_to fresh b b.size) c ≡ none
  unfolding put_byte move_to
  full_put {b} c v e = rw (
      le→ltb (buffered b) (length (read b (fresh b.size)).p) (
        omega (
          arith,
          e,
          ap length (read-Reads (fresh b.size) v).bytes,
          length-copy (fresh b.size) (contents b),
          fresh_length b.size,
        )))

  -- On a valid buffer with room, or of fewer than 4096 bytes, `write_byte` returns a valid buffer
  -- whose queue is the old one followed by the byte, where a fresh slice has the length that was
  -- asked for.
  pub write_byte-Appends :
      {b : Buffer} (c : ℕ)
      → IsValid b
      → (0 < available b) ⊎ (b.size < buffer_grow_threshold)
      → (b' : Buffer) × (write_byte fresh b c ≡ some b') × Appends b (c ∷ []) b'
  unfolding write_byte
  write_byte-Appends {b} c v h = elim (dec_lt 0 (available b)) [
    | yes a ↦ let (b', e, q) = put_byte-Appends c v a in (b', ground (arith, e), q)
    | no a ↦
        let (n, e, lt) = grown_small b (small b h a) in
        let fits : buffered b < n = omega (arith, buffered-add-available v) in
        let v' = move_to-IsValid fresh fresh_length v n fits in
        let q = contents-move_to fresh fresh_length v n fits in
        let (b', e', r) = put_byte-Appends c v' (room v n lt q v') in
        (
          b',
          ground (arith, e, e'),
          record { queue = r.queue ∙ ap (λ l. l ++ c ∷ []) q; valid = r.valid },
        )
  ]

  -- On a valid full buffer of 4096 bytes or more `write_byte` panics: `grow` to one byte keeps the
  -- capacity, and the write of the byte is out of range; where a fresh slice has the length that
  -- was asked for.
  pub write_byte_full :
      {b : Buffer} (c : ℕ)
      → IsValid b
      → is_full b ≡ true
      → buffer_grow_threshold ≤ b.size
      → write_byte fresh b c ≡ none
  unfolding write_byte
  write_byte_full {b} c v f h =
      ground (arith, full_of b f, full_grow b h, full_put c v (full_of b f).0)
