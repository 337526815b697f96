-- ===== src/Conn.antt =====
-- contribute/agonet/connection.go: the reader side of a connection. What has arrived and was not
-- taken is the elastic ring buffer `inboundBuffer`, then `buffer.B`, the bytes of the current event.
-- `buffer` is a third-party `ByteBuffer`; the code reads and writes its field `B`, a byte slice, and
-- uses `Len` (its length) and `Reset` (which empties it). A slice made by `make` is zeroed.
pub mod Stream
pub mod Drop
pub mod Take
mod Tests
use ag_core.Prelude.{
  ℕ, ◌+◌, ◌-◌, Bool, true, false, not, ◌&&◌, ◌||◌, Option, none, some, List, [], ◌++◌, ltb, leb,
  ◌==◌, if◌then◌else◌, length, take, drop, copy, copy_at, replicate, min,
}
use ag_core.Prelude.Int.{ℤ, pos, pos_part}
use ag_core.Ring.{Fresh}
use ag_core.Elastic
use ag_core.Elastic.{RingPool, Elastic}

-- `net.ErrClosed`, `io.ErrShortBuffer`, or no error.
pub data ConnError : Type 0 where
  ok closed short_buffer : ConnError

module _ (P : RingPool) where
  -- The fields of `conn` that its readers use; `is_open` is `rawConn != nil && buffer != nil`.
  pub record Conn : Type 0 where
    pub is_open : Bool
    pub inbound : Elastic P
    pub buffer : List ℕ
    pub cache : List ℕ

  -- How an event ends: `errInboundOverflow` closes the connection, or it waits for the next event.
  pub data EventEnd : Type 0 where
    overflow panicked : EventEnd
    kept : Conn → EventEnd

  -- `InboundBuffered`, of a connection that has its `buffer`.
  unfoldable pub inbound_buffered : Conn → ℕ
  inbound_buffered c = Elastic.buffered P c.inbound + length c.buffer

  -- `resetBuffer`
  unfoldable pub reset_buffer : Conn → Conn
  reset_buffer c = record c { inbound = Elastic.reset P c.inbound; buffer = [] }

  -- What a `Read(p)` returns, and `p` and the connection after it.
  pub record ConnRead : Type 0 where
    pub n : ℕ
    pub err : ConnError
    pub p : List ℕ
    pub after : Conn

  -- `Read` with an empty `inboundBuffer`.
  unfoldable pub read_event : Conn → List ℕ → ConnRead
  read_event c p =
      let n = min (length p) (length c.buffer) in
      record {
        n = n;
        err = if n == 0 && ltb 0 (length p) then short_buffer else ok;
        p = copy p c.buffer;
        after = record c { buffer = drop n c.buffer };
      }

  -- `Read` behind what `inboundBuffer.Read(p)` returned.
  unfoldable pub read_both : Conn → ℕ → List ℕ → Elastic P → ConnRead
  read_both c n p e =
      if n == length p
      then record { n = n; err = ok; p = p; after = record c { inbound = e } }
      else let m = min (length p - n) (length c.buffer) in
        record {
          n = n + m;
          err = ok;
          p = copy_at n p c.buffer;
          after = record c { inbound = e; buffer = drop m c.buffer };
        }

  -- `Read`
  unfoldable pub read : Conn → List ℕ → ConnRead
  read c p =
      if not c.is_open
      then record { n = 0; err = closed; p = p; after = c }
      else if Elastic.is_empty P c.inbound
      then read_event c p
      else (let (n, err, p', e) = Elastic.read P c.inbound p in read_both c n p' e)

  -- `Next`: the bytes, the error and the connection.
  unfoldable pub next : Conn → ℤ → List ℕ × ConnError × Conn
  next c n =
      if not c.is_open
      then ([], closed, c)
      else if pos_part n == 0
      then ([], ok, c)
      else if ltb (inbound_buffered c) (pos_part n)
      then ([], short_buffer, c)
      else if Elastic.is_empty P c.inbound
      then (
        copy (replicate (pos_part n) 0) (take (pos_part n) c.buffer),
        ok,
        record c { buffer = drop (pos_part n) c.buffer },
      )
      else (let res = read c (replicate (pos_part n) 0) in (res.p, res.err, res.after))

  -- `Peek` of `n` bytes, where `inboundBuffer` holds some: `head` and `tail` are what its `Peek` shows.
  unfoldable pub peek_both : Conn → ℕ → List ℕ → List ℕ → List ℕ × ConnError × Conn
  peek_both c n head tail =
      if length head == n
      then (copy (replicate n 0) head, ok, c)
      else if leb n (Elastic.buffered P c.inbound)
      then (head ++ tail, ok, c)
      else let buf = (head ++ tail) ++ take (n - Elastic.buffered P c.inbound) c.buffer in
        (buf, ok, record c { cache = buf })

  -- `Peek` of a count that is at most `InboundBuffered`.
  unfoldable pub peek_some : Conn → ℕ → List ℕ × ConnError × Conn
  peek_some c n =
      if Elastic.is_empty P c.inbound
      then (copy (replicate n 0) (take n c.buffer), ok, c)
      else (let (head, tail) = Elastic.peek P c.inbound (pos n) in peek_both c n head tail)

  -- `Peek`
  unfoldable pub peek : Conn → ℤ → List ℕ × ConnError × Conn
  peek c n =
      if not c.is_open
      then ([], closed, c)
      else if ltb (inbound_buffered c) (pos_part n)
      then ([], short_buffer, c)
      else if pos_part n == 0
      then peek_some c (inbound_buffered c)
      else peek_some c (pos_part n)

  -- `Discard` of fewer bytes than there are, where `inboundBuffer` holds some.
  unfoldable pub discard_both : Conn → ℕ → ℕ × ConnError × Conn
  discard_both c n =
      let (discarded, err, e) = Elastic.discard P c.inbound (pos n) in
      if ltb discarded (Elastic.buffered P c.inbound)
      then (discarded, ok, record c { inbound = e })
      else (
        n,
        ok,
        record c { inbound = e; buffer = drop (n - Elastic.buffered P c.inbound) c.buffer },
      )

  -- `Discard`, once the cache is dropped.
  unfoldable pub discard_open : Conn → ℤ → ℕ × ConnError × Conn
  discard_open c n =
      if leb (inbound_buffered c) (pos_part n) || pos_part n == 0
      then (inbound_buffered c, ok, reset_buffer c)
      else if Elastic.is_empty P c.inbound
      then (pos_part n, ok, record c { buffer = drop (pos_part n) c.buffer })
      else discard_both c (pos_part n)

  -- `Discard`
  unfoldable pub discard : Conn → ℤ → ℕ × ConnError × Conn
  discard c n = if not c.is_open then (0, closed, c) else discard_open (record c { cache = [] }) n

  -- What the handler left of the event goes behind `inboundBuffer`. `none` is a panic of the ring
  -- buffer.
  unfoldable pub keep_rest : Fresh → Conn → Option Conn
  keep_rest fresh c = elim (Elastic.write P fresh c.inbound c.buffer) [
    | none ↦ none
    | some (n, e) ↦ some (record c { inbound = e; buffer = [] })
  ]

  -- `eventloop.read` behind the handler, for an action that keeps the connection and the limit that
  -- `resolveInboundLimit` gives.
  unfoldable pub end_event : Fresh → ℕ → Conn → EventEnd
  end_event fresh limit c =
      if ltb limit (inbound_buffered c)
      then overflow
      else elim (keep_rest fresh c) [ none ↦ panicked | some c' ↦ kept c' ]
