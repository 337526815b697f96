-- ===== src/Reader/OfConn.antt =====
-- An open connection is such a reader.
use ag_core.Prelude.{ℕ, ◌≡◌, ◌∙◌, arith, true}
use ag_core.Prelude.Int.{pos}
use ag_core.Conn
use ag_core.Conn.{
  Conn, peek_both, peek_some, discard_open, discard_both, read, read_event, read_both, reset_buffer,
}
use ag_core.Conn.Stream
use ag_core.Conn.Take.{next-Takes, peek-Shows, peek_short}
use ag_core.Conn.Drop.{discard-Drops}
use ag_core.Elastic.{RingPool}
use ag_core.Elastic.Refine.{IsOpen}
use ag_core.Reader.{Reader}

module _ (P : RingPool) (c : Conn P) where
  -- No reader of a connection closes it.
  pub is_open-next : (n : ℕ) → (Conn.next P c (pos n)).2.is_open ≡ c.is_open
  unfolding Conn.next read read_event read_both
  is_open-next n = ground arith

  pub is_open-peek : (n : ℕ) → (Conn.peek P c (pos n)).2.is_open ≡ c.is_open
  unfolding Conn.peek peek_some peek_both
  is_open-peek n = ground arith

  pub is_open-discard : (n : ℕ) → (Conn.discard P c (pos n)).2.is_open ≡ c.is_open
  unfolding Conn.discard discard_open discard_both reset_buffer
  is_open-discard n = ground arith

abbrev pub conn_reader : RingPool → Reader
conn_reader P = record {
  State = Conn P;
  IsReady = λ c. (c.is_open ≡ true) × IsOpen P c.inbound;
  stream = Stream.stream P;
  inbound_buffered = Conn.inbound_buffered P;
  peek = λ c n. Conn.peek P c (pos n);
  next = λ c n. Conn.next P c (pos n);
  discard = λ c n. Conn.discard P c (pos n);
  buffered-eq = λ c r. Stream.inbound_buffered-eq-length P c r.1;
  peek_lem = λ c n r p le.
      let s = peek-Shows P c r.0 r.1 n p le in
      (s.bytes, s.err, s.rest, (is_open-peek P c n ∙ r.0, s.opened));
  peek_short = λ c n r lt. peek_short P c r.0 r.1 n lt;
  next_lem = λ c n r le.
      let t = next-Takes P c r.0 r.1 n le in
      (t.bytes, t.err, t.rest, (is_open-next P c n ∙ r.0, t.opened));
  discard_lem = λ c n r p le.
      let d = discard-Drops P c r.0 r.1 n p in
      (d.err, d.rest, (is_open-discard P c n ∙ r.0, d.opened));
}
