-- ===== src/Codec/Tests.antt =====
-- The codec's theorems at a frame with a little-endian field of two bytes.
use ag_core.Prelude.{
  ℕ, ◌≡◌, List, [], ◌∷◌, ◌++◌, true, some, none, ◌≤◌, ◌<◌, ◌⊎◌, ◌+◌, arith, refl, length, drop,
  take,
}
use ag_core.Prelude.Int.{pos, ◌+ℤ◌, ◌-ℤ◌}
use ag_core.Pow.{maxint_head_bit}
use ag_core.Samples.{zeroes, length-zeroes, bare_pool}
use ag_core.Elastic
use ag_core.Elastic.{Elastic, instance_of}
use ag_core.Elastic.Refine.{IsOpen}
use ag_core.Conn
use ag_core.Conn.{Conn, overflow, kept, end_event}
use ag_core.Reader.OfConn.{conn_reader}
use ag_core.Codec.{
  Encoder, little, need_more, frame, field_value, handle_write, pack_field_length,
  unpack_field_length, put_uint, le_bytes, do_decode, adjust, check_length, take_frame, uint,
  le_value,
}
use ag_core.Codec.Sound.{Same, decode_spec, do_decode-Same}
use ag_core.Codec.RoundTrip.{Fits, decoder_for, do_decode-handle_write, do_decode-waits}
use ag_core.Codec.Traffic.{rounds}
use ag_core.Codec.Traffic.Laws.{rounds-Sends}
use ag_core.Codec.Events.{decode_conn, arrive, decode-split}

abbrev short_encoder : Encoder
short_encoder = record {
  order = little;
  field_length = 2;
  adjustment = pos 0;
  includes_field = true;
}

abbrev sent : List ℕ
sent = 5 ∷ 0 ∷ 7 ∷ 8 ∷ 9 ∷ []

abbrev seven : List ℕ
seven = 7 ∷ 8 ∷ 9 ∷ []

short-Fits : Fits short_encoder 100 5 seven
short-Fits = (refl, unfold field_value ◌+ℤ◌ in refl, omega arith, omega arith, omega arith)

short-sent : handle_write short_encoder seven ≡ some sent
short-sent = unfold handle_write pack_field_length put_uint le_bytes field_value ◌+ℤ◌ in refl

-- A connection without bytes from before, in whose event `xs` has come.
abbrev conn_of : List ℕ → Conn bare_pool
conn_of xs = record {
  is_open = true;
  inbound = record { rb = none; pool = tt };
  buffer = xs;
  cache = [];
}

conn_of-IsOpen : IsOpen bare_pool (record { rb = none; pool = tt })
conn_of-IsOpen = record { ring = tt; pool = tt }

do_decode-Same_example :
    Same
      (conn_reader bare_pool)
      (do_decode (conn_reader bare_pool) (decoder_for short_encoder 100) (conn_of sent))
      (decode_spec (decoder_for short_encoder 100) sent)
do_decode-Same_example =
    do_decode-Same (conn_reader bare_pool) (decoder_for short_encoder 100) (conn_of sent)
      (refl, conn_of-IsOpen) (omega arith)

do_decode-handle_write_example :
    Same
      (conn_reader bare_pool)
      (do_decode (conn_reader bare_pool) (decoder_for short_encoder 100) (conn_of (sent ++ 1 ∷ [])))
      (frame seven, 1 ∷ [])
do_decode-handle_write_example =
    do_decode-handle_write (conn_reader bare_pool) short_encoder 100 5 seven sent (1 ∷ [])
      (conn_of (sent ++ 1 ∷ [])) short-Fits short-sent (refl, conn_of-IsOpen) refl

do_decode-waits_example :
    Same
      (conn_reader bare_pool)
      (do_decode (conn_reader bare_pool) (decoder_for short_encoder 100) (conn_of (take 3 sent)))
      (need_more, take 3 sent)
do_decode-waits_example =
    do_decode-waits (conn_reader bare_pool) short_encoder 100 5 seven sent 3 (conn_of (take 3 sent))
      short-Fits short-sent (refl, conn_of-IsOpen) (omega arith) refl

small :
    (let after =
        (decode_conn bare_pool (decoder_for short_encoder 100) (conn_of (take 3 sent))).1 in
      (instance_of bare_pool after.inbound).0.size + length after.buffer ≤ maxint_head_bit)
unfolding do_decode adjust check_length take_frame unpack_field_length uint le_value Conn.peek
    Conn.peek_some Conn.inbound_buffered Elastic.buffered Elastic.is_empty instance_of ◌+ℤ◌ ◌-ℤ◌
small = omega arith

-- A limit of 64 bytes.
decode-split_example :
    ((decode_conn bare_pool (decoder_for short_encoder 100) (conn_of (take 3 sent))).0 ≡ need_more)
    × (((64 < 3)
          × (end_event bare_pool zeroes 64
                (decode_conn bare_pool (decoder_for short_encoder 100) (conn_of (take 3 sent))).1
              ≡ overflow))
        ⊎ ((3 ≤ 64)
            × (after : Conn bare_pool) × (end_event bare_pool zeroes 64
                  (decode_conn bare_pool (decoder_for short_encoder 100) (conn_of (take 3 sent))).1
                ≡ kept after)
            × Same
                (conn_reader bare_pool)
                (decode_conn bare_pool
                  (decoder_for short_encoder 100)
                  (arrive bare_pool after (drop 3 sent ++ 1 ∷ [])))
                (frame seven, 1 ∷ [])))
decode-split_example =
    decode-split bare_pool zeroes length-zeroes 64 short_encoder 100 5 seven sent (1 ∷ []) 3
      (conn_of (take 3 sent)) short-Fits short-sent refl conn_of-IsOpen (omega arith) refl small

one-Fits : Fits short_encoder 100 3 (1 ∷ [])
one-Fits = (refl, unfold field_value ◌+ℤ◌ in refl, omega arith, omega arith, omega arith)

one-sent : handle_write short_encoder (1 ∷ []) ≡ some (3 ∷ 0 ∷ 1 ∷ [])
one-sent = unfold handle_write pack_field_length put_uint le_bytes field_value ◌+ℤ◌ in refl

abbrev both : List ℕ
both = sent ++ 3 ∷ 0 ∷ 1 ∷ []

rounds-Sends_example :
    ((rounds (conn_reader bare_pool) 2 (decoder_for short_encoder 100) (conn_of both)).0
      ≡ seven ∷ (1 ∷ []) ∷ [])
    × ((conn_reader bare_pool).stream
          (rounds (conn_reader bare_pool) 2 (decoder_for short_encoder 100) (conn_of both)).1
        ≡ [])
    × (conn_reader bare_pool).IsReady
        (rounds (conn_reader bare_pool) 2 (decoder_for short_encoder 100) (conn_of both)).1
rounds-Sends_example =
    rounds-Sends (conn_reader bare_pool) short_encoder 100 (seven ∷ (1 ∷ []) ∷ []) both
      (conn_of both)
      (
        5,
        sent,
        3 ∷ 0 ∷ 1 ∷ [],
        short-Fits,
        short-sent,
        refl,
        (3, 3 ∷ 0 ∷ 1 ∷ [], [], one-Fits, one-sent, refl, refl),
      )
      (refl, conn_of-IsOpen) refl
