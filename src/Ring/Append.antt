-- ===== src/Ring/Append.antt =====
-- `Write` and `WriteByte` append to the queue, and grow the buffer where there is no room.
use native.Mathlib.Decide.{dec_lt, dec_le}
use ag_core.Prelude.{
  ℕ, ◌+◌, ◌-◌, ◌≤◌, ◌<◌, ◌≡◌, refl, ◌∙◌, sym, ap, ap₂, false, some, List, [], ◌∷◌, ◌++◌, arith,
  length, take, drop, slice, copy, copy_at, length-copy, length-copy_at, take-copy_at, drop-copy_at,
  slice-copy_at, slice_to_end, take-copy, drop-copy, append-nil, append_assoc, length-drop,
  length-take, take-append-drop, le→leb, lt→leb,
}
use ag_core.Pow.{maxint_head_bit}
use ag_core.Ring.{Buffer, Fresh, buffered, available}
use ag_core.Ring.Write.{close_write, write_wrapped, write_straight, write_into, make_room, write}
use ag_core.Ring.Valid.{
  IsValid, contents, contents_wrapped, length-contents, buffered-add-available,
}
use ag_core.Ring.Grow.{grow-contents}

-- Where the write index is not behind the read index, the queue is the slice between them.
contents_ahead :
    {b : Buffer} → IsValid b → b.r ≤ b.w → 0 < available b → contents b ≡ slice b.r b.w b.buf
unfolding available
contents_ahead {b} v h a =
    ground (arith, v.met, ap (λ k. take k (drop b.r b.buf)) {x = b.w - b.r} {y = 0})

pub available_ahead : {b : Buffer} → IsValid b → b.r ≤ b.w → available b ≤ b.size - b.w + b.r
unfolding available
available_ahead v h = ground arith

available_behind : (b : Buffer) → b.w < b.r → available b ≡ b.r - b.w
unfolding available
available_behind b h = ground arith

behind_full : {b : Buffer} → IsValid b → b.w < b.r → b.is_empty ≡ false
behind_full {b} v h = ground (arith, v.met)

-- What closing a write shows, where the write index is ahead of the read index.
contents-close_ahead :
    (b : Buffer)
    → length b.buf ≡ b.size
    → b.r < b.w
    → b.w ≤ b.size
    → contents (close_write b) ≡ slice b.r b.w b.buf
unfolding close_write
contents-close_ahead b e h le = elim (dec_lt b.w b.size) [
  | yes p ↦ ground arith
  | no p ↦
      let q : b.w ≡ length b.buf = omega arith in
      ground
        (arith, append-nil (drop b.r b.buf), slice_to_end b.r b.buf, ap (λ k. slice b.r k b.buf) q)
]

contents-close_behind :
    (b : Buffer)
    → b.w ≤ b.r
    → b.r < b.size
    → contents (close_write b) ≡ drop b.r b.buf ++ take b.w b.buf
unfolding close_write
contents-close_behind b h le = ground arith

-- What `Write` leaves: a valid buffer with the bytes behind the queue.
pub record Appends (b : Buffer) (p : List ℕ) (b' : Buffer) : Type 0 where
  pub queue : contents b' ≡ contents b ++ p
  pub valid : IsValid b'

module _ {b : Buffer} (v : IsValid b) (p : List ℕ) (some_p : 0 < length p)
    (fits : length p ≤ available b) where
  room : buffered b + length p ≤ b.size
  room = omega (arith, buffered-add-available v)

  pub write_ahead :
      b.r ≤ b.w → length p ≤ b.size - b.w → Appends b p (close_write (write_straight b p))
  unfolding write_straight
  write_ahead h c = record {
    queue =
        contents-close_ahead _ (length-copy_at b.w b.buf p ∙ v.length_buf) (omega arith)
          (omega (arith, room))
        ∙ slice-copy_at b.r b.w b.buf p h (omega (arith, v.length_buf, room))
        ∙ ap (λ l. l ++ p) (sym (contents_ahead v h (omega arith)));
    valid =
        unfold close_write in
        record {
          length_buf = length-copy_at b.w b.buf p ∙ v.length_buf;
          r_in = v.r_in;
          w_in = ground (arith, room);
          met = λ q. cc;
          stored = λ q. omega (arith, room);
        };
  }

  pub write_behind : b.w < b.r → Appends b p (close_write (write_straight b p))
  unfolding write_straight
  write_behind h = record {
    queue =
        contents-close_behind _ (omega (arith, available_behind b h)) (omega (arith, v.r_in, room))
        ∙ ap₂ ◌++◌
            (drop-copy_at b.w b.r b.buf p (omega (arith, available_behind b h))
              (omega (arith, v.length_buf, v.r_in, available_behind b h)))
            (take-copy_at b.w b.buf p (omega (arith, v.length_buf, v.r_in, available_behind b h)))
        ∙ sym (append_assoc (drop b.r b.buf) (take b.w b.buf) p)
        ∙ ap (λ l. l ++ p) (sym (contents_wrapped b (behind_full v h) (omega arith)));
    valid =
        unfold close_write in
        record {
          length_buf = length-copy_at b.w b.buf p ∙ v.length_buf;
          r_in = v.r_in;
          w_in = ground (arith, available_behind b h);
          met = λ q. cc;
          stored = λ q. omega (arith, room);
        };
  }

  write_round : b.r ≤ b.w → b.size - b.w < length p → Appends b p (close_write (write_wrapped b p))
  unfolding write_wrapped
  write_round h c = record {
    queue =
        contents-close_behind _ (omega (arith, available_ahead v h)) (omega (arith, v.r_in, room))
        ∙ ap₂ ◌++◌
            (drop-copy b.r base s2 (omega (arith, len_s2, available_ahead v h))
                (omega (arith, len_s2, len_base, room))
              ∙ slice_to_end b.r base
              ∙ ap (λ k. slice b.r k base) {x = length base} {y = b.w + length s1}
                  (omega (arith, len_base, len_s1, v.w_in))
              ∙ slice-copy_at b.r b.w b.buf s1 h (omega (arith, len_s1, v.length_buf, v.w_in)))
            (ap (λ k. take k (copy base s2)) (sym len_s2)
              ∙ take-copy base s2 (omega (arith, len_s2, len_base, room)))
        ∙ append_assoc (slice b.r b.w b.buf) s1 s2
        ∙ ap₂ ◌++◌ (sym (contents_ahead v h (omega arith))) (take-append-drop (b.size - b.w) p);
    valid =
        unfold close_write in
        record {
          length_buf = length-copy base s2 ∙ len_base;
          r_in = v.r_in;
          w_in = ground (arith, available_ahead v h, v.r_in);
          met = λ q. cc;
          stored = λ q. omega (arith, room);
        };
  }
    where
      s1 : List ℕ
      s1 = take (b.size - b.w) p

      s2 : List ℕ
      s2 = drop (b.size - b.w) p

      base : List ℕ
      base = copy_at b.w b.buf s1

      len_s1 : length s1 ≡ b.size - b.w
      len_s1 = omega (arith, length-take (b.size - b.w) p)

      len_s2 : length s2 ≡ length p - (b.size - b.w)
      len_s2 = length-drop (b.size - b.w) p

      len_base : length base ≡ b.size
      len_base = length-copy_at b.w b.buf s1 ∙ v.length_buf

  write_into-Appends : Appends b p (close_write (write_into b p))
  unfolding write_into
  write_into-Appends = elim (dec_le b.r b.w) [
    | yes h ↦ rw (le→leb _ _ h) (elim (dec_le (length p) (b.size - b.w)) [
      | yes c ↦ rw (le→leb _ _ c) (write_ahead h c)
      | no c ↦ rw (lt→leb (length p) (b.size - b.w) (omega arith)) (write_round h (omega arith))
    ])
    | no h ↦ rw (lt→leb b.r b.w (omega arith)) (write_behind (omega arith))
  ]

module _ (fresh : Fresh) (fresh_length : (n : ℕ) → length (fresh n) ≡ n) where
  make_room-available :
      {b : Buffer} (n : ℕ)
      → IsValid b
      → b.size + n ≤ maxint_head_bit
      → (b' : Buffer) × (make_room fresh b n ≡ some b')
        × (contents b' ≡ contents b)
        × IsValid b'
        × (n ≤ available b')
  unfolding make_room
  make_room-available {b} n v small = elim (dec_lt (available b) n) [
    | yes h ↦
        let (b', e, q, v', le) =
          grow-contents fresh fresh_length (b.size + n - available b) v (omega arith)
            (omega arith) in
        (
          b',
          ground (arith, e),
          q,
          v',
          omega (
            arith,
            le,
            buffered-add-available v,
            buffered-add-available v',
            length-contents v,
            length-contents v',
            ap length q,
          ),
        )
    | no h ↦ (b, ground arith, refl, v, omega arith)
  ]

  -- On a valid buffer `write p` returns the length of `p` and a valid buffer whose queue is the old
  -- one followed by `p`, with or without growing, where a fresh slice has the length that was asked
  -- for and the size and the length of `p` together are at most 2 ^ 62.
  pub write-Appends :
      {b : Buffer} (p : List ℕ)
      → IsValid b
      → b.size + length p ≤ maxint_head_bit
      → (b' : Buffer) × (write fresh b p ≡ some (length p, b')) × Appends b p b'
  unfolding write
  write-Appends {b} [] v small =
      (b, ground arith, record { queue = sym (append-nil (contents b)); valid = v })
  write-Appends {b} (x ∷ p) v small =
      let (b', e, q, v', a) = make_room-available (length (x ∷ p)) v small in
      let w = write_into-Appends v' (x ∷ p) (omega arith) a in
      (
        close_write (write_into b' (x ∷ p)),
        ground (arith, e),
        record { queue = w.queue ∙ ap (λ l. l ++ x ∷ p) q; valid = w.valid },
      )
