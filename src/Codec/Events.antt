-- ===== src/Codec/Events.antt =====
-- A frame that arrives in two events of a connection: the decoder of the simple package on
-- connection.go's readers, with what the end of `eventloop.read` does between the events.
use ag_core.Prelude.{
  ℕ, ◌+◌, ◌≤◌, ◌<◌, ◌≡◌, ◌⊎◌, inl, inr, ◌∙◌, arith, length-take, sym, ap, true, some, List, ◌++◌,
  length, take, drop, append-nil, append_assoc, take-append-drop,
}
use ag_core.Pow.{maxint_head_bit}
use ag_core.Ring.{Fresh}
use ag_core.Elastic.{RingPool, instance_of}
use ag_core.Elastic.Refine.{queue, IsOpen}
use ag_core.Conn.{Conn, overflow, kept, end_event}
use ag_core.Conn.Stream.{stream}
use ag_core.Conn.Drop.{end_event-cases}
use ag_core.Reader.OfConn.{conn_reader}
use ag_core.Codec.{Encoder, Decoder, Decoded, need_more, frame, handle_write, do_decode}
use ag_core.Codec.Sound.{Same}
use ag_core.Codec.RoundTrip.{Fits, decoder_for, do_decode-handle_write, do_decode-waits}

module _ (P : RingPool) where
  -- Decoding on a connection.
  abbrev pub decode_conn : Decoder → Conn P → Decoded × Conn P
  decode_conn d c = do_decode (conn_reader P) d c

  -- The connection at its next event, with the bytes that have come.
  abbrev pub arrive : Conn P → List ℕ → Conn P
  arrive c xs = record c { buffer = xs }

  module _ (fresh : Fresh) (fresh_length : (n : ℕ) → length (fresh n) ≡ n) where
    -- On an open connection whose stream is the first `m` bytes of such a frame, decoding gives
    -- nothing yet; the end of the event closes the connection where `m` is above the limit of what
    -- may wait, and else keeps it, and when the other bytes come in the next event, decoding gives
    -- the body and leaves what stands behind the frame. The ring buffer and the event must stay
    -- within 2 ^ 62 bytes together.
    pub decode-split :
        (limit : ℕ) (e : Encoder) (max_frame n : ℕ) (body bytes rest : List ℕ) (m : ℕ) (c : Conn P)
        → Fits e max_frame n body
        → handle_write e body ≡ some bytes
        → c.is_open ≡ true
        → IsOpen P c.inbound
        → m < length bytes
        → stream P c ≡ take m bytes
        → (let after = (decode_conn (decoder_for e max_frame) c).1 in
            (instance_of P after.inbound).0.size + length after.buffer ≤ maxint_head_bit)
        → ((decode_conn (decoder_for e max_frame) c).0 ≡ need_more)
          × (((limit < m)
                × (end_event P fresh limit (decode_conn (decoder_for e max_frame) c).1 ≡ overflow))
              ⊎ ((m ≤ limit)
                  × (after : Conn P) × (end_event P fresh limit
                        (decode_conn (decoder_for e max_frame) c).1
                      ≡ kept after)
                  × Same
                      (conn_reader P)
                      (decode_conn (decoder_for e max_frame) (arrive after (drop m bytes ++ rest)))
                      (frame body, rest)))
    decode-split limit e max_frame n body bytes rest m c f w h o lt q small =
        let first = do_decode-waits (conn_reader P) e max_frame n body bytes m c f w (h, o) lt q in
        let d = (decode_conn (decoder_for e max_frame) c).1 in
        let waiting = ap length first.rest ∙ length-take m bytes in
        (
          first.outcome,
          elim (end_event-cases P d first.ready.0 first.ready.1 fresh fresh_length limit small) [
            | inl (l, k) ↦ inl (omega (arith, waiting), k)
            | inr (after, k, s, le, empty, h', o') ↦ inr (
              omega (arith, ap length s, waiting),
              after,
              k,
              do_decode-handle_write (conn_reader P) e max_frame n body bytes rest
                  (arrive after (drop m bytes ++ rest)) f w (h', o')
                  (ap (λ l. l ++ (drop m bytes ++ rest))
                      (sym (append-nil (queue P after.inbound))
                        ∙ ap (λ l. queue P after.inbound ++ l) (sym empty)
                        ∙ s
                        ∙ first.rest)
                    ∙ sym (append_assoc (take m bytes) (drop m bytes) rest)
                    ∙ ap (λ l. l ++ rest) (take-append-drop m bytes)),
            )
          ],
        )
