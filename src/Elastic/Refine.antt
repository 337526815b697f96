-- ===== src/Elastic/Refine.antt =====
-- An elastic buffer is the queue of its ring buffer, and the empty queue without one.
use ag_core.Prelude.{
  ℕ, suc, ◌+◌, ◌≤◌, min, ◌≡◌, refl, ◌∙◌, sym, ap, true, false, Option, none, some, List, [], ◌∷◌,
  ◌++◌, arith, if◌then◌else◌, Bool-cases, inl, inr, length, take, drop, copy, take-nil, drop-nil,
  append-nil,
}
use ag_core.Prelude.Int.{pos}
use ag_core.Pow.{maxint_head_bit}
use ag_core.Ring.{Buffer, Fresh, ReadError}
use ag_core.Ring.Valid.{IsValid, contents, contents_empty}
use ag_core.Ring.Peek.{bytes-contents, peek-contents}
use ag_core.Ring.Advance.{contents-reset, reset-IsValid}
use ag_core.Ring.Consume.{discard-Discards, read-Reads}
use ag_core.Ring.ReadByte.{pop, read_byte-pop}
use ag_core.Ring.Append.{write-Appends}
use ag_core.Elastic.{
  Elastic, RingPool, bytes, discard, instance_of, peek, read, read_byte, release, reset, write,
}

module _ (P : RingPool) where
  -- The bytes that can be read.
  abbrev pub queue : Elastic P → List ℕ
  queue e = elim e.rb [ none ↦ [] | some b ↦ contents b ]

  abbrev pub IsValidOr : Option Buffer → Type 0
  IsValidOr none = Unit {0}
  IsValidOr (some b) = IsValid b

  pub record IsOpen (e : Elastic P) : Type 0 where
    pub ring : IsValidOr e.rb
    pub pool : P.IsGood e.pool

  -- What `done` makes of a buffer: it goes back to the pool exactly if it is empty.
  pub record Released (b : Buffer) (e : Elastic P) : Type 0 where
    pub opened : IsOpen e
    pub rest : queue e ≡ contents b
    pub held : e.rb ≡ (if b.is_empty then none else some b)

  release-Released :
      {b : Buffer} (s : P.State) → IsValid b → P.IsGood s → Released b (release P b s)
  unfolding release
  release-Released {b} s v g = elim (Bool-cases b.is_empty) [
    | inl e ↦ rw (released e) (record {
      opened = record { ring = tt; pool = P.put-IsGood b s v g };
      rest = sym (contents_empty b e);
      held = rw e;
    })
    | inr e ↦
        rw (kept e) (record { opened = record { ring = v; pool = g }; rest = refl; held = rw e })
  ]
    where
      released : b.is_empty ≡ true → release P b s ≡ record { rb = none; pool = P.put b s }
      released e = rw e

      kept : b.is_empty ≡ false → release P b s ≡ record { rb = some b; pool = s }
      kept e = rw e

  -- What `Read(p)` makes of the queue `q`.
  pub record ReadsQueue (q p : List ℕ) (res : ℕ × ReadError × List ℕ × Elastic P) : Type 0 where
    pub count : res.0 ≡ min (length p) (length q)
    pub bytes : res.2 ≡ copy p q
    pub rest : queue res.3 ≡ drop (length p) q
    pub opened : IsOpen res.3

  -- On an elastic buffer that is valid over its pool `read p` moves the first bytes of the queue to
  -- the front of `p`, as many as there is room for or the queue has, returns that count, keeps the
  -- rest of the queue, and stays valid, with or without a ring buffer.
  pub read-ReadsQueue :
      (e : Elastic P) (p : List ℕ) → IsOpen e → ReadsQueue (queue e) p (read P e p)
  unfolding read
  read-ReadsQueue e p o = go e.rb o.ring
    where
      go :
          (rb : Option Buffer)
          → IsValidOr rb
          → ReadsQueue (queue (record e { rb = rb })) p (read P (record e { rb = rb }) p)
      go none v = record {
        count = omega arith;
        bytes = sym (ap (λ l. l ++ p) (take-nil {A = ℕ} (length p)));
        rest = sym (drop-nil (length p));
        opened = record { ring = tt; pool = o.pool };
      }
      go (some b) v =
          let r = read-Reads p v in
          let l = release-Released e.pool r.valid o.pool in
          record { count = r.count; bytes = r.bytes; rest = l.rest ∙ r.rest; opened = l.opened }

  pub record DiscardsQueue (q : List ℕ) (n : ℕ) (res : ℕ × ReadError × Elastic P) : Type 0 where
    pub count : res.0 ≡ min n (length q)
    pub rest : queue res.2 ≡ drop n q
    pub opened : IsOpen res.2

  -- On an elastic buffer that is valid over its pool `discard n` drops the first `n` bytes of the
  -- queue or all there are, returns how many those were, and stays valid.
  pub discard-DiscardsQueue :
      (e : Elastic P) (n : ℕ) → IsOpen e → DiscardsQueue (queue e) n (discard P e (pos n))
  unfolding discard
  discard-DiscardsQueue e n o = go e.rb o.ring
    where
      go :
          (rb : Option Buffer)
          → IsValidOr rb
          → DiscardsQueue
              (queue (record e { rb = rb }))
              n
              (discard P (record e { rb = rb }) (pos n))
      go none v = record {
        count = omega arith;
        rest = sym (drop-nil n);
        opened = record { ring = tt; pool = o.pool };
      }
      go (some b) v =
          let d = discard-Discards n v in
          let l = release-Released e.pool d.valid o.pool in
          record { count = d.count; rest = l.rest ∙ d.rest; opened = l.opened }

  -- On an elastic buffer that is valid over its pool `read_byte` does not panic; it returns the
  -- first byte of the queue, or none for an empty one, keeps the rest, and stays valid.
  pub read_byte-pops :
      (e : Elastic P)
      → IsOpen e
      → (e' : Elastic P) × (read_byte P e ≡ some ((pop (queue e)).0, e'))
        × (queue e' ≡ (pop (queue e)).1)
        × IsOpen e'
  unfolding read_byte
  read_byte-pops e o = go e.rb o.ring
    where
      go :
          (rb : Option Buffer)
          → IsValidOr rb
          → (e' : Elastic P) × (read_byte P (record e { rb = rb })
              ≡ some ((pop (queue (record e { rb = rb }))).0, e'))
            × (queue e' ≡ (pop (queue (record e { rb = rb }))).1)
            × IsOpen e'
      go none v = (record e { rb = none }, refl, refl, record { ring = tt; pool = o.pool })
      go (some b) v =
          let (b', r, q, v') = read_byte-pop v in
          let l = release-Released e.pool v' o.pool in
          (release P b' e.pool, rw r, l.rest ∙ q, l.opened)

  -- `Peek(n)` shows the first `n` bytes of the queue in two parts.
  pub peek-queue :
      (e : Elastic P) (n : ℕ)
      → IsOpen e
      → (peek P e (pos (suc n))).0 ++ (peek P e (pos (suc n))).1 ≡ take (suc n) (queue e)
  unfolding peek
  peek-queue e n o = go e.rb o.ring
    where
      go :
          (rb : Option Buffer)
          → IsValidOr rb
          → (peek P (record e { rb = rb }) (pos (suc n))).0
              ++ (peek P (record e { rb = rb }) (pos (suc n))).1
            ≡ take (suc n) (queue (record e { rb = rb }))
      go none v = refl
      go (some b) v = peek-contents n v

  -- `Reset` empties the queue.
  pub reset-queue : (e : Elastic P) → IsOpen e → (queue (reset P e) ≡ []) × IsOpen (reset P e)
  unfolding reset
  reset-queue e o = go e.rb o.ring
    where
      go :
          (rb : Option Buffer)
          → IsValidOr rb
          → (queue (reset P (record e { rb = rb })) ≡ []) × IsOpen (reset P (record e { rb = rb }))
      go none v = (refl, record { ring = tt; pool = o.pool })
      go (some b) v =
          (contents-reset b, record { ring = reset-IsValid b v.length_buf; pool = o.pool })

  -- `Bytes` is the queue, and changes nothing.
  pub bytes-queue : (e : Elastic P) → bytes P e ≡ queue e
  unfolding bytes
  bytes-queue e = go e.rb
    where
      go : (rb : Option Buffer) → bytes P (record e { rb = rb }) ≡ queue (record e { rb = rb })
      go none = refl
      go (some b) = bytes-contents b

  -- The ring buffer that a write goes to.
  instance_size : Elastic P → ℕ
  instance_size e = (instance_of P e).0.size

  instance-queue :
      (e : Elastic P)
      → IsOpen e
      → IsValid (instance_of P e).0
        × (contents (instance_of P e).0 ≡ queue e)
        × P.IsGood (instance_of P e).1
  unfolding instance_of
  instance-queue e o = go e.rb o.ring
    where
      go :
          (rb : Option Buffer)
          → IsValidOr rb
          → IsValid (instance_of P (record e { rb = rb })).0
            × (contents (instance_of P (record e { rb = rb })).0 ≡ queue (record e { rb = rb }))
            × P.IsGood (instance_of P (record e { rb = rb })).1
      go none v =
          (P.get-IsValid e.pool o.pool, P.get-empty e.pool o.pool, P.get-IsGood e.pool o.pool)
      go (some b) v = (v, refl, o.pool)

  module _ (fresh : Fresh) (fresh_length : (n : ℕ) → length (fresh n) ≡ n) where
    -- On an elastic buffer that is valid over its pool `write p` returns the length of `p` and
    -- appends `p` to the queue, with the buffer at hand or one from the pool, where the buffer's
    -- size and the length of `p` together are at most 2 ^ 62 and a fresh slice has the length that
    -- was asked for.
    pub write-appends :
        (e : Elastic P) (p : List ℕ)
        → IsOpen e
        → (instance_of P e).0.size + length p ≤ maxint_head_bit
        → (e' : Elastic P) × (write P fresh e p ≡ some (length p, e'))
          × (queue e' ≡ queue e ++ p)
          × IsOpen e'
    unfolding write
    write-appends e [] o h = (e, ground arith, sym (append-nil (queue e)), o)
    write-appends e (x ∷ p) o h =
        let (v, q, g) = instance-queue e o in
        let (b', w, a) = write-Appends fresh fresh_length (x ∷ p) v h in
        (
          record { rb = some b'; pool = (instance_of P e).1 },
          ground (arith, w),
          a.queue ∙ ap (λ l. l ++ x ∷ p) q,
          record { ring = a.valid; pool = g },
        )
