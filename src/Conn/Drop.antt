-- ===== src/Conn/Drop.antt =====
-- `Discard` and the end of an event, on the stream of an open connection.
use native.Mathlib.Decide.{dec_lt}
use ag_core.Prelude.{
  ℕ, ◌+◌, ◌⊎◌, ◌-◌, ◌≤◌, ◌<◌, min, ◌≡◌, refl, ◌∙◌, sym, ap, ap₂, true, some, [], ◌++◌, arith,
  if◌then◌else◌, Bool-cases, inl, inr, length, drop, append-nil, drop-append_le, drop-append_ge,
  drop_all, lt→ltb, le→ltb,
}
use ag_core.Prelude.Int.{pos}
use ag_core.Pow.{maxint_head_bit}
use ag_core.Ring.{Fresh}
use ag_core.Elastic
use ag_core.Elastic.{RingPool, Elastic, instance_of}
use ag_core.Elastic.Refine.{queue, IsOpen, reset-queue, discard-DiscardsQueue, write-appends}
use ag_core.Conn.{
  overflow, kept, end_event, Conn, ConnError, ok, inbound_buffered, reset_buffer, discard,
  discard_open, discard_both, keep_rest,
}
use ag_core.Conn.Stream.{stream, length-queue, queue_empty, inbound_buffered-eq-length}

module _ (P : RingPool) (c : Conn P) (h : c.is_open ≡ true) (o : IsOpen P c.inbound) where
  -- What discarding returns and leaves.
  pub record Drops (n : ℕ) (res : ℕ × ConnError × Conn P) : Type 0 where
    pub count : res.0 ≡ min n (length (stream P c))
    pub err : res.1 ≡ ok
    pub rest : stream P res.2 ≡ drop n (stream P c)
    pub opened : IsOpen P res.2.inbound

  -- Without the cache the connection has the same stream.
  uncached : Conn P
  uncached = record c { cache = [] }

  same_total : inbound_buffered P uncached ≡ inbound_buffered P c
  unfolding inbound_buffered uncached
  same_total = refl

  discard_both-Drops : (n : ℕ) → n < length (stream P c) → Drops n (discard_both P uncached n)
  unfolding discard_both uncached
  discard_both-Drops n le =
      let d = discard-DiscardsQueue P c.inbound n o in
      elim (dec_lt n (Elastic.buffered P c.inbound)) [
        | yes k ↦
            rw
              (lt→ltb (Elastic.discard P c.inbound (pos n)).0 (Elastic.buffered P c.inbound)
                (omega (arith, d.count, length-queue P c.inbound o)))
              (record {
                count = omega (arith, d.count, length-queue P c.inbound o);
                err = refl;
                rest =
                    ap (λ q. q ++ c.buffer) d.rest
                    ∙ sym (
                        drop-append_le n (queue P c.inbound) c.buffer
                          (omega (arith, length-queue P c.inbound o)));
                opened = d.opened;
              })
        | no k ↦
            rw
              (le→ltb (Elastic.discard P c.inbound (pos n)).0 (Elastic.buffered P c.inbound)
                (omega (arith, d.count, length-queue P c.inbound o)))
              (record {
                count = omega arith;
                err = refl;
                rest =
                    ap₂ (λ q k. q ++ drop (n - k) c.buffer)
                      (d.rest
                        ∙ drop_all n (queue P c.inbound)
                            (omega (arith, length-queue P c.inbound o)))
                      (sym (length-queue P c.inbound o))
                    ∙ sym (
                        drop-append_ge n (queue P c.inbound) c.buffer
                          (omega (arith, length-queue P c.inbound o)));
                opened = d.opened;
              })
      ]

  discard_all-Drops :
      (n : ℕ)
      → length (stream P c) ≤ n
      → Drops n (inbound_buffered P c, ok, reset_buffer P uncached)
  unfolding reset_buffer uncached
  discard_all-Drops n le =
      let r = reset-queue P c.inbound o in
      record {
        count = omega (arith, inbound_buffered-eq-length P c o);
        err = refl;
        rest = ap (λ q. q ++ []) r.0 ∙ sym (drop_all n (stream P c) le);
        opened = r.1;
      }

  discard_event-Drops :
      (n : ℕ)
      → n < length (stream P c)
      → Elastic.is_empty P c.inbound ≡ true
      → Drops n (n, ok, record uncached { buffer = drop n c.buffer })
  unfolding uncached
  discard_event-Drops n le e = record {
    count = omega arith;
    err = refl;
    rest =
        ap (λ q. q ++ drop n c.buffer) (queue_empty P c.inbound e)
        ∙ ap (λ q. drop n (q ++ c.buffer)) (sym (queue_empty P c.inbound e));
    opened = o;
  }

  given_all :
      (n : ℕ)
      → length (stream P c) ≤ n
      → discard P c (pos n) ≡ (inbound_buffered P c, ok, reset_buffer P uncached)
  unfolding discard discard_open uncached
  given_all n le = ground (arith, same_total, inbound_buffered-eq-length P c o)

  given_some :
      (n : ℕ)
      → 0 < n
      → n < length (stream P c)
      → discard P c (pos n) ≡ (
          if Elastic.is_empty P c.inbound
          then (n, ok, record uncached { buffer = drop n c.buffer })
          else discard_both P uncached n)
  unfolding discard discard_open uncached
  given_some n p le = ground (arith, same_total, inbound_buffered-eq-length P c o)

  -- On an open connection with a valid inbound buffer `discard n`, for a positive count, succeeds,
  -- drops the first `n` bytes of the stream or all there are, and returns how many those were.
  pub discard-Drops : (n : ℕ) → 0 < n → Drops n (discard P c (pos n))
  discard-Drops n p = elim (dec_lt n (length (stream P c))) [
    | yes k ↦ rw (given_some n p k) (elim (Bool-cases (Elastic.is_empty P c.inbound)) [
      | inl e ↦ rw e (discard_event-Drops n k e)
      | inr e ↦ rw e (discard_both-Drops n k)
    ])
    | no k ↦ rw (given_all n (omega arith)) (discard_all-Drops n (omega arith))
  ]

  -- The end of an event keeps the stream: what the handler left waits in `inboundBuffer`.
  module _ (fresh : Fresh) (fresh_length : (n : ℕ) → length (fresh n) ≡ n) where
    pub keep_rest-stream :
        (instance_of P c.inbound).0.size + length c.buffer ≤ maxint_head_bit
        → (c' : Conn P) × (keep_rest P fresh c ≡ some c')
          × (stream P c' ≡ stream P c)
          × (c'.buffer ≡ [])
          × (c'.is_open ≡ true)
          × IsOpen P c'.inbound
    unfolding keep_rest
    keep_rest-stream small =
        let (e, w, q, o') = write-appends P fresh fresh_length c.inbound c.buffer o small in
        (
          record c { inbound = e; buffer = [] },
          rw (w, keep_rest),
          append-nil (queue P e) ∙ q,
          refl,
          h,
          o',
        )

    -- On an open connection with a valid inbound buffer, that stays within 2 ^ 62 bytes together
    -- with the event, the end of an event closes the connection where more than `limit` bytes wait;
    -- otherwise it succeeds and keeps the stream, of at most `limit` bytes then, all of them in the
    -- inbound buffer, which stays valid.
    pub end_event-cases :
        (limit : ℕ)
        → (instance_of P c.inbound).0.size + length c.buffer ≤ maxint_head_bit
        → ((limit < length (stream P c)) × (end_event P fresh limit c ≡ overflow))
          ⊎ ((c' : Conn P) × (end_event P fresh limit c ≡ kept c')
              × (stream P c' ≡ stream P c)
              × (length (stream P c') ≤ limit)
              × (c'.buffer ≡ [])
              × (c'.is_open ≡ true)
              × IsOpen P c'.inbound)
    unfolding end_event
    end_event-cases limit small = elim (dec_lt limit (length (stream P c))) [
      | yes l ↦ inl (
        l,
        rw (lt→ltb limit (inbound_buffered P c) (omega (arith, inbound_buffered-eq-length P c o)))
            refl,
      )
      | no l ↦
          let (c', w, q, e, h', o') = keep_rest-stream small in
          inr (
            c',
            rw
                (
                  le→ltb limit (inbound_buffered P c)
                      (omega (arith, inbound_buffered-eq-length P c o)),
                  w,
                )
                refl,
            q,
            omega (arith, ap length q),
            e,
            h',
            o',
          )
    ]
