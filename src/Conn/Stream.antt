-- ===== src/Conn/Stream.antt =====
-- A connection's readers against one stream of bytes: what waits in `inboundBuffer`, then the bytes
-- of the current event.
use native.Mathlib.Decide.{dec_le}
use ag_core.Prelude.{
  ℕ, ◌-◌, min, ◌≡◌, refl, ◌∙◌, sym, ap, true, false, Option, none, some, List, [], ◌++◌, arith,
  ==_eq, ==_ne, Bool-cases, inl, inr, length, drop, copy, copy_at, length-append, length-copy,
  copy_at-copy, copy-append_ge, drop-append_le, drop-append_ge, drop_all,
}
use ag_core.Ring.{Buffer}
use ag_core.Ring.Valid.{contents_empty, length-contents}
use ag_core.Elastic
use ag_core.Elastic.{RingPool, Elastic}
use ag_core.Elastic.Refine.{queue, IsValidOr, IsOpen, read-ReadsQueue}
use ag_core.Conn.{Conn, ConnRead, inbound_buffered, read_event, read_both, read}

module _ (P : RingPool) where
  -- The bytes that have arrived and were not taken.
  abbrev pub stream : Conn P → List ℕ
  stream c = queue P c.inbound ++ c.buffer

  pub length-queue : (e : Elastic P) → IsOpen P e → length (queue P e) ≡ Elastic.buffered P e
  unfolding Elastic.buffered
  length-queue e o = go e.rb o.ring
    where
      go :
          (rb : Option Buffer)
          → IsValidOr P rb
          → length (queue P (record e { rb = rb })) ≡ Elastic.buffered P (record e { rb = rb })
      go none v = refl
      go (some b) v = length-contents v

  pub queue_empty : (e : Elastic P) → Elastic.is_empty P e ≡ true → queue P e ≡ []
  unfolding Elastic.is_empty
  queue_empty e = go e.rb
    where
      go :
          (rb : Option Buffer)
          → Elastic.is_empty P (record e { rb = rb }) ≡ true
          → queue P (record e { rb = rb }) ≡ []
      go none h = refl
      go (some b) h = contents_empty b h

  -- With a valid inbound buffer `inbound_buffered` is the length of the stream.
  pub inbound_buffered-eq-length :
      (c : Conn P) → IsOpen P c.inbound → inbound_buffered P c ≡ length (stream c)
  unfolding inbound_buffered
  inbound_buffered-eq-length c o =
      omega (arith, length-append (queue P c.inbound) c.buffer, length-queue c.inbound o)

  -- What `Read(p)` makes of the stream `s`.
  pub record ReadsStream (s p : List ℕ) (res : ConnRead P) : Type 0 where
    pub count : res.n ≡ min (length p) (length s)
    pub bytes : res.p ≡ copy p s
    pub rest : stream res.after ≡ drop (length p) s
    pub opened : IsOpen P res.after.inbound

  drop-min : (n : ℕ) (xs : List ℕ) → drop (min n (length xs)) xs ≡ drop n xs
  drop-min n xs = elim (dec_le n (length xs)) [
    | yes h ↦ ap (λ k. drop k xs) {x = min n (length xs)} {y = n} (omega arith)
    | no h ↦ drop_all _ xs (omega arith) ∙ sym (drop_all n xs (omega arith))
  ]

  read_event-ReadsStream :
      (c : Conn P) (p : List ℕ)
      → IsOpen P c.inbound
      → queue P c.inbound ≡ []
      → ReadsStream c.buffer p (read_event P c p)
  unfolding read_event
  read_event-ReadsStream c p o e = record {
    count = refl;
    bytes = refl;
    rest =
        ap (λ q. q ++ drop (min (length p) (length c.buffer)) c.buffer) e
        ∙ drop-min (length p) c.buffer;
    opened = o;
  }

  read_both-ReadsStream :
      (c : Conn P) (p : List ℕ) (n : ℕ) (p' : List ℕ) (e : Elastic P) (q : List ℕ)
      → n ≡ min (length p) (length q)
      → p' ≡ copy p q
      → queue P e ≡ drop (length p) q
      → IsOpen P e
      → ReadsStream (q ++ c.buffer) p (read_both P c n p' e)
  unfolding read_both
  read_both-ReadsStream c p n p' e q hn hp hq o = elim (dec_le (length p) (length q)) [
    | yes h ↦
        rw (==_eq {a = n} {b = length p'} (omega (arith, ap length hp, length-copy p q))) (record {
          count = omega (arith, length-append q c.buffer);
          bytes = hp ∙ sym (copy-append_ge p q c.buffer h);
          rest = ap (λ l. l ++ c.buffer) hq ∙ sym (drop-append_le (length p) q c.buffer h);
          opened = o;
        })
    | no h ↦
        rw (==_ne {a = n} {b = length p'} (omega (arith, ap length hp, length-copy p q))) (record {
          count = omega (arith, length-append q c.buffer, ap length hp, length-copy p q);
          bytes =
              ap (λ l. copy_at n l c.buffer) hp
              ∙ copy_at-copy p q c.buffer n (omega arith) (omega arith);
          rest =
              ap (λ l. l ++ drop (min (length p' - n) (length c.buffer)) c.buffer)
                (hq ∙ drop_all (length p) q (omega arith))
              ∙ drop-min (length p' - n) c.buffer
              ∙ ap (λ k. drop k c.buffer) {x = length p' - n} {y = length p - length q}
                  (omega (arith, ap length hp, length-copy p q))
              ∙ sym (drop-append_ge (length p) q c.buffer (omega arith));
          opened = o;
        })
  ]

  -- On an open connection with a valid inbound buffer `read p` moves the first bytes of the stream
  -- to the front of `p`, as many as `p` has room for or the stream has, across both buffers,
  -- returns that count, and leaves the rest of the stream.
  pub read-ReadsStream :
      (c : Conn P) (p : List ℕ)
      → c.is_open ≡ true
      → IsOpen P c.inbound
      → ReadsStream (stream c) p (read P c p)
  unfolding read
  read-ReadsStream c p h o = elim (Bool-cases (Elastic.is_empty P c.inbound)) [
    | inl e ↦
        rw (eq_event e, queue_empty c.inbound e)
          (read_event-ReadsStream c p o (queue_empty c.inbound e))
    | inr e ↦
        let r = read-ReadsQueue P c.inbound p o in
        rw (eq_both e) (
          read_both-ReadsStream c p (Elastic.read P c.inbound p).0 (Elastic.read P c.inbound p).2
            (Elastic.read P c.inbound p).3 (queue P c.inbound) r.count r.bytes r.rest r.opened)
  ]
    where
      eq_event : Elastic.is_empty P c.inbound ≡ true → read P c p ≡ read_event P c p
      eq_event e = rw (h, e)

      eq_both :
          Elastic.is_empty P c.inbound ≡ false
          → read P c p
            ≡ read_both P c
                (Elastic.read P c.inbound p).0
                (Elastic.read P c.inbound p).2
                (Elastic.read P c.inbound p).3
      eq_both e = rw (h, e)
