-- ===== src/Conn/Take.antt =====
-- `Next`, `Peek`, `Discard` and the end of an event, on the stream of an open connection.
use native.Mathlib.Decide.{dec_le, ℕ_discrete as dec_eq}
use ag_core.Prelude.{
  ℕ, zero, suc, ◌-◌, ◌≤◌, ◌<◌, ◌≡◌, refl, ◌∙◌, sym, ap, ap₂, true, false, List, [], ◌++◌, arith,
  ==_eq, ==_ne, Bool-cases, inl, inr, length, take, drop, copy, replicate, append-nil,
  length-append, length-replicate, length-take, take-append_le, take-take_le, take-append_ge,
  drop_all, take_all, le→leb, lt→leb,
}
use ag_core.Prelude.Int.{pos}
use ag_core.Elastic
use ag_core.Elastic.{RingPool, Elastic, instance_of}
use ag_core.Elastic.Refine.{queue, IsOpen, peek-queue}
use ag_core.Conn.{
  Conn, ConnError, ok, short_buffer, inbound_buffered, read, read_both, next, peek, peek_some,
  peek_both,
}
use ag_core.Conn.Stream.{
  stream, length-queue, queue_empty, inbound_buffered-eq-length, read-ReadsStream,
}

-- A copy over zeroes of the wanted length.
copy_zeroes : (n : ℕ) (xs : List ℕ) → n ≤ length xs → copy (replicate n 0) xs ≡ take n xs
copy_zeroes n xs h =
    ap₂ ◌++◌ (ap (λ k. take k xs) (length-replicate {A = ℕ} n 0))
      (drop_all (length xs) (replicate n 0) (omega (arith, length-replicate {A = ℕ} n 0)))
    ∙ append-nil (take n xs)

module _ (P : RingPool) (c : Conn P) (h : c.is_open ≡ true) (o : IsOpen P c.inbound) where
  -- What taking `n` bytes off the stream returns and leaves.
  pub record Takes (n : ℕ) (res : List ℕ × ConnError × Conn P) : Type 0 where
    pub bytes : res.0 ≡ take n (stream P c)
    pub err : res.1 ≡ ok
    pub rest : stream P res.2 ≡ drop n (stream P c)
    pub opened : IsOpen P res.2.inbound

  ahead : (n : ℕ) → n ≤ length (stream P c) → n ≤ inbound_buffered P c
  ahead n le = omega (arith, inbound_buffered-eq-length P c o)

  next_event :
      (n : ℕ)
      → 0 < n
      → n ≤ length (stream P c)
      → Elastic.is_empty P c.inbound ≡ true
      → next P c (pos n)
        ≡ (copy (replicate n 0) (take n c.buffer), ok, record c { buffer = drop n c.buffer })
  unfolding next
  next_event n p le e = ground (arith, ahead n le)

  next_both :
      (n : ℕ)
      → 0 < n
      → n ≤ length (stream P c)
      → Elastic.is_empty P c.inbound ≡ false
      → let res = read P c (replicate n 0) in next P c (pos n) ≡ (res.p, res.err, res.after)
  unfolding next
  next_both n p le e = ground (arith, ahead n le)

  err_both : (p : List ℕ) → Elastic.is_empty P c.inbound ≡ false → (read P c p).err ≡ ok
  unfolding read read_both
  err_both p e = ground arith

  -- The stream where `inboundBuffer` is empty.
  stream_event : Elastic.is_empty P c.inbound ≡ true → stream P c ≡ c.buffer
  stream_event e = ap (λ q. q ++ c.buffer) (queue_empty P c.inbound e)

  -- On an open connection with a valid inbound buffer `next n`, for as many bytes as the stream
  -- has, succeeds with the first `n` bytes and takes them off the stream.
  pub next-Takes : (n : ℕ) → n ≤ length (stream P c) → Takes n (next P c (pos n))
  next-Takes zero le = rw next_zero (record { bytes = refl; err = refl; rest = refl; opened = o })
    where
      next_zero : next P c (pos 0) ≡ ([], ok, c)
      next_zero = unfold next in ground arith
  next-Takes (suc n) le = elim (Bool-cases (Elastic.is_empty P c.inbound)) [
    | inl e ↦ rw (next_event (suc n) (omega arith) le e) (record {
      bytes =
          copy_zeroes (suc n) (take (suc n) c.buffer)
            (omega (arith, length-take (suc n) c.buffer, ap length (stream_event e)))
          ∙ take_all (suc n) (take (suc n) c.buffer) (omega (arith, length-take (suc n) c.buffer))
          ∙ sym (ap (take (suc n)) (stream_event e));
      err = refl;
      rest =
          ap (λ q. q ++ drop (suc n) c.buffer) (queue_empty P c.inbound e)
          ∙ sym (ap (drop (suc n)) (stream_event e));
      opened = o;
    })
    | inr e ↦
        let r = read-ReadsStream P c (replicate (suc n) 0) h o in
        rw (next_both (suc n) (omega arith) le e) (record {
          bytes = r.bytes ∙ copy_zeroes (suc n) (stream P c) le;
          err = err_both (replicate (suc n) 0) e;
          rest = r.rest ∙ ap (λ k. drop k (stream P c)) (length-replicate {A = ℕ} (suc n) 0);
          opened = r.opened;
        })
  ]

  -- `Next(n)` of more than there is fails, and takes nothing.
  pub next_short : (n : ℕ) → length (stream P c) < n → next P c (pos n) ≡ ([], short_buffer, c)
  unfolding next
  next_short n lt = ground (arith, inbound_buffered-eq-length P c o)

  -- What showing `n` bytes of the stream returns and leaves.
  pub record Shows (n : ℕ) (res : List ℕ × ConnError × Conn P) : Type 0 where
    pub bytes : res.0 ≡ take n (stream P c)
    pub err : res.1 ≡ ok
    pub rest : stream P res.2 ≡ stream P c
    pub opened : IsOpen P res.2.inbound

  peek_both-Shows :
      (n : ℕ) (head tail : List ℕ)
      → n ≤ length (stream P c)
      → head ++ tail ≡ take n (queue P c.inbound)
      → Shows n (peek_both P c n head tail)
  unfolding peek_both
  peek_both-Shows n head tail le e = elim (dec_eq (length head) n) [
    | yes k ↦ rw (==_eq k) (record {
      bytes =
          copy_zeroes n head (omega arith)
          ∙ sym (take-append_le n head tail (omega arith))
          ∙ ap (take n) e
          ∙ take-take_le n n (queue P c.inbound) (omega arith)
          ∙ sym (
              take-append_le n (queue P c.inbound) c.buffer (
                omega (
                  arith,
                  ap length e,
                  length-append head tail,
                  length-take n (queue P c.inbound),
                )));
      err = refl;
      rest = refl;
      opened = o;
    })
    | no k ↦ rw (==_ne k) (elim (dec_le n (Elastic.buffered P c.inbound)) [
      | yes l ↦ rw (le→leb _ _ l) (record {
        bytes =
            e
            ∙ sym (
                take-append_le n (queue P c.inbound) c.buffer
                  (omega (arith, length-queue P c.inbound o)));
        err = refl;
        rest = refl;
        opened = o;
      })
      | no l ↦ rw (lt→leb n (Elastic.buffered P c.inbound) (omega arith)) (record {
        bytes =
            ap₂ (λ a k. a ++ take (n - k) c.buffer)
              (e ∙ take_all n (queue P c.inbound) (omega (arith, length-queue P c.inbound o)))
              (sym (length-queue P c.inbound o))
            ∙ sym (
                take-append_ge n (queue P c.inbound) c.buffer
                  (omega (arith, length-queue P c.inbound o)));
        err = refl;
        rest = refl;
        opened = o;
      })
    ])
  ]

  peek_some-Shows : (n : ℕ) → n < length (stream P c) → Shows (suc n) (peek_some P c (suc n))
  peek_some-Shows n le = elim (Bool-cases (Elastic.is_empty P c.inbound)) [
    | inl e ↦ rw (event e) (record {
      bytes =
          copy_zeroes (suc n) (take (suc n) c.buffer)
            (omega (arith, length-take (suc n) c.buffer, ap length (stream_event e)))
          ∙ take_all (suc n) (take (suc n) c.buffer) (omega (arith, length-take (suc n) c.buffer))
          ∙ sym (ap (take (suc n)) (stream_event e));
      err = refl;
      rest = refl;
      opened = o;
    })
    | inr e ↦ rw (both e) (peek_both-Shows (suc n) _ _ le (peek-queue P c.inbound n o))
  ]
    where
      event :
          Elastic.is_empty P c.inbound ≡ true
          → peek_some P c (suc n) ≡ (copy (replicate (suc n) 0) (take (suc n) c.buffer), ok, c)
      event e = unfold peek_some in rw e

      both :
          Elastic.is_empty P c.inbound ≡ false
          → peek_some P c (suc n)
            ≡ peek_both P c
                (suc n)
                (Elastic.peek P c.inbound (pos (suc n))).0
                (Elastic.peek P c.inbound (pos (suc n))).1
      both e = unfold peek_some in rw e

  -- On an open connection with a valid inbound buffer `peek n`, for a positive count of at most
  -- what the stream has, succeeds with the first `n` bytes and leaves the stream.
  pub peek-Shows : (n : ℕ) → 0 < n → n ≤ length (stream P c) → Shows n (peek P c (pos n))
  peek-Shows zero p le = absurd (omega arith)
  peek-Shows (suc n) p le = rw given (peek_some-Shows n le)
    where
      given : peek P c (pos (suc n)) ≡ peek_some P c (suc n)
      given = unfold peek in ground (arith, ahead (suc n) le)

  pub peek_short : (n : ℕ) → length (stream P c) < n → peek P c (pos n) ≡ ([], short_buffer, c)
  unfolding peek
  peek_short n lt = ground (arith, inbound_buffered-eq-length P c o)
