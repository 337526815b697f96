-- ===== src/Codec/RoundTrip.antt =====
-- What codec_length_field_encoder.go puts on the wire against codec_length_field_decoder.go: the
-- decoder that stands on the other side of an encoder reads its frames back.
use native.Mathlib.Decide.{dec_lt}
use mathlib.Core.Path.{subst}
use ag_core.Prelude.{
  ℕ, ◌+◌, ◌-◌, ◌^◌, ◌≤◌, ◌<◌, ◌≡◌, refl, ◌∙◌, sym, ap, ap₂, Bool, true, false, none, some, List, [],
  ◌++◌, arith, if◌then◌else◌, length, take, drop, slice, length-append, take-append_le, take_all,
  take-take_le, drop-append_add, take-append_add, take-append_ge, length-take, lt→ltb, le→ltb,
  append_assoc, append-nil,
}
use ag_core.Prelude.Int.{pos, pos_part, neg_part, ◌+ℤ◌, ◌-ℤ◌, int_laws}
use ag_core.Codec.{
  put_uint, is_field_length, max_field, pack_field_length, unpack_field_length, Encoder,
  field_value, handle_write, Decoder, Decoded, need_more, frame, wrap64, do_decode,
}
use ag_core.Codec.Bytes.{length-put_uint, unpack_field_length-pack}
use ag_core.Codec.Sound.{frame_spec, bounds_spec, decode_spec, Same, do_decode-Same}
use ag_core.Reader.{Reader}

-- The decoder for what an encoder writes: the field comes first, and its value is undone.
abbrev pub decoder_for : Encoder → ℕ → Decoder
decoder_for e max_frame = record {
  order = e.order;
  max_frame = max_frame;
  offset = 0;
  field_length = e.field_length;
  adjustment =
      pos 0 -ℤ (if e.includes_field then e.adjustment +ℤ pos e.field_length else e.adjustment);
  strip = e.field_length;
}

-- The bytes of a frame.
abbrev pub wire : Encoder → ℕ → List ℕ → List ℕ
wire e n body = put_uint e.order e.field_length n ++ body

-- The adjustments of the two sides cancel.
adjusted :
    (e : Encoder) (max_frame n : ℕ) (body : List ℕ)
    → field_value e body ≡ pos n
    → pos n +ℤ ((decoder_for e max_frame).adjustment +ℤ pos (0 + e.field_length))
      ≡ pos (length body + e.field_length)
unfolding field_value
adjusted e max_frame n body h = go e.includes_field h
  where
    go :
        (b : Bool)
        → (let length = pos (length body) +ℤ e.adjustment in
            if b then length +ℤ pos e.field_length else length)
          ≡ pos n
        → pos n
            +ℤ (pos 0
                -ℤ (if b then e.adjustment +ℤ pos e.field_length else e.adjustment)
                +ℤ pos (0 + e.field_length))
          ≡ pos (length body + e.field_length)
    go true h = omega (int_laws, ap pos_part h, ap neg_part h)
    go false h = omega (int_laws, ap pos_part h, ap neg_part h)

-- The encoder puts its field in front.
pub handle_write-wire :
    (e : Encoder) (n : ℕ) (body : List ℕ)
    → is_field_length e.field_length ≡ true
    → field_value e body ≡ pos n
    → n ≤ max_field e.field_length
    → handle_write e body ≡ some (wire e n body)
unfolding handle_write
handle_write-wire e n body k h le = rw (packed, handle_write) refl
  where
    packed :
        pack_field_length e.order e.field_length (field_value e body)
        ≡ some (put_uint e.order e.field_length n)
    packed =
        ap (pack_field_length e.order e.field_length) h
        ∙ (unpack_field_length-pack e.order e.field_length n [] k le).0

-- What the two sides agree on: a length that the field holds, and a frame that the decoder allows.
abbrev pub Fits : Encoder → ℕ → ℕ → List ℕ → Type 0
Fits e max_frame n body =
    (is_field_length e.field_length ≡ true)
    × (field_value e body ≡ pos n)
    × (n ≤ max_field e.field_length)
    × (length body + e.field_length ≤ max_frame)
    × (max_frame < 2 ^ 63)

-- A legal length passes the checks.
bounds_spec-legal :
    (d : Decoder) (xs : List ℕ) (n : ℕ)
    → d.offset + d.field_length ≤ n
    → n ≤ d.max_frame
    → d.max_frame < 2 ^ 63
    → bounds_spec d xs (wrap64 (pos n)) ≡ frame_spec d xs n
bounds_spec-legal d xs n low high int =
    ap (bounds_spec d xs) same
    ∙ rw
        (
          le→ltb (n + 0) (d.offset + d.field_length + 0) (omega arith),
          le→ltb (d.max_frame + 0) (n + 0) (omega arith),
        )
        refl
  where
    same : wrap64 (pos n) ≡ pos n
    same = ground arith

-- Once the field is there, only the frame's length counts.
decode_spec-field :
    (e : Encoder) (max_frame n : ℕ) (body ys : List ℕ)
    → Fits e max_frame n body
    → decode_spec (decoder_for e max_frame) (put_uint e.order e.field_length n ++ ys)
      ≡ frame_spec
          (decoder_for e max_frame)
          (put_uint e.order e.field_length n ++ ys)
          (length body + e.field_length)
unfolding decode_spec
decode_spec-field e max_frame n body ys (k, v, le, small, int) =
    rw
      (
        le→ltb (length (field ++ ys)) (0 + e.field_length)
            (omega (arith, size, length-append field ys)),
        sliced,
        unpacked,
      )
      (ap (λ z. bounds_spec (decoder_for e max_frame) (field ++ ys) (wrap64 z))
          (adjusted e max_frame n body v)
        ∙ bounds_spec-legal (decoder_for e max_frame) (field ++ ys) (length body + e.field_length)
            (omega arith) small int)
  where
    field : List ℕ
    field = put_uint e.order e.field_length n

    size : length field ≡ e.field_length
    size = length-put_uint e.order e.field_length n

    sliced : slice 0 (0 + e.field_length) (take (0 + e.field_length) (field ++ ys)) ≡ field
    sliced =
        take-take_le (0 + e.field_length - 0) (0 + e.field_length) (field ++ ys) (omega arith)
        ∙ take-append_le (0 + e.field_length - 0) field ys (omega (arith, size))
        ∙ take_all (0 + e.field_length - 0) field (omega (arith, size))

    unpacked : unpack_field_length e.order e.field_length field ≡ some (pos n)
    unpacked =
        ap (unpack_field_length e.order e.field_length) (sym (append-nil field))
        ∙ (unpack_field_length-pack e.order e.field_length n [] k le).1

-- A whole frame is decoded to its body, and what follows it is left.
decode_spec-wire :
    (e : Encoder) (max_frame n : ℕ) (body rest : List ℕ)
    → Fits e max_frame n body
    → decode_spec (decoder_for e max_frame) (wire e n body ++ rest) ≡ (frame body, rest)
decode_spec-wire e max_frame n body rest f =
    ap (decode_spec (decoder_for e max_frame)) (append_assoc field body rest)
    ∙ decode_spec-field e max_frame n body (body ++ rest) f
    ∙ rw
        (
          le→ltb (length (field ++ (body ++ rest))) (length body + e.field_length)
              (omega (arith, total)),
          le→ltb (length body + e.field_length) e.field_length (omega arith),
        )
        (ap₂ (λ b l. (frame b, l)) taken left)
  where
    field : List ℕ
    field = put_uint e.order e.field_length n

    size : length field ≡ e.field_length
    size = length-put_uint e.order e.field_length n

    total : length (field ++ (body ++ rest)) ≡ e.field_length + (length body + length rest)
    total = length-append field (body ++ rest) ∙ ap₂ (◌+◌) size (length-append body rest)

    dropped : drop e.field_length (field ++ (body ++ rest)) ≡ body ++ rest
    dropped =
        ap (λ k. drop k (field ++ (body ++ rest))) {x = e.field_length} {y = length field + 0}
          (omega (arith, size))
        ∙ drop-append_add 0 field (body ++ rest)

    taken : slice e.field_length (length body + e.field_length) (field ++ (body ++ rest)) ≡ body
    taken =
        ap₂ take {x = length body + e.field_length - e.field_length} {y = length body + 0}
          (omega arith) dropped
        ∙ take-append_add 0 body rest
        ∙ append-nil body

    left : drop (length body + e.field_length) (field ++ (body ++ rest)) ≡ rest
    left =
        ap (λ k. drop k (field ++ (body ++ rest))) {x = length body + e.field_length}
          {y = length field + (length body + 0)} (omega (arith, size))
        ∙ drop-append_add (length body + 0) field (body ++ rest)
        ∙ drop-append_add 0 body rest

-- A part of a frame is not enough, and stays.
decode_spec-part :
    (e : Encoder) (max_frame n : ℕ) (body : List ℕ) (m : ℕ)
    → Fits e max_frame n body
    → m < length (wire e n body)
    → decode_spec (decoder_for e max_frame) (take m (wire e n body))
      ≡ (need_more, take m (wire e n body))
unfolding decode_spec
decode_spec-part e max_frame n body m f h = elim (dec_lt m e.field_length) [
  | yes l ↦
      rw
        (lt→ltb (length (take m (wire e n body))) (0 + e.field_length)
          (omega (arith, length-take m (wire e n body))))
        refl
  | no l ↦
      ap (decode_spec (decoder_for e max_frame)) (cut l)
      ∙ decode_spec-field e max_frame n body (take (m - length field) body) f
      ∙ rw
          (lt→ltb (length (field ++ take (m - length field) body)) (length body + e.field_length)
            (few l))
          (ap (λ xs. (need_more, xs)) (sym (cut l)))
]
  where
    field : List ℕ
    field = put_uint e.order e.field_length n

    size : length field ≡ e.field_length
    size = length-put_uint e.order e.field_length n

    cut : ¬ (m < e.field_length) → take m (wire e n body) ≡ field ++ take (m - length field) body
    cut l = take-append_ge m field body (omega (arith, size))

    few :
        ¬ (m < e.field_length)
        → length (field ++ take (m - length field) body) < length body + e.field_length
    few l = omega (
      arith,
      size,
      length-append field body,
      length-append field (take (m - length field) body),
      length-take (m - length field) body,
    )

handle_write-eq :
    (e : Encoder) (max_frame n : ℕ) (body bytes : List ℕ)
    → Fits e max_frame n body
    → handle_write e body ≡ some bytes
    → bytes ≡ wire e n body
handle_write-eq e max_frame n body bytes (k, v, le, small, int) w =
    ap (λ o. elim o [ none ↦ [] | some l ↦ l ]) (sym w ∙ handle_write-wire e n body k v le)

positive :
    (e : Encoder) (max_frame n : ℕ) (body : List ℕ)
    → Fits e max_frame n body
    → 0 < 0 + e.field_length
positive e max_frame n body (k, v, le, small, int) = go e.field_length k
  where
    go : (l : ℕ) → is_field_length l ≡ true → 0 < 0 + l
    go l h = ground arith

module _ (R : Reader) where
  decodes_to :
      (e : Encoder) (max_frame n : ℕ) (body xs : List ℕ) (s : R.State) (out : Decoded × List ℕ)
      → Fits e max_frame n body
      → R.IsReady s
      → R.stream s ≡ xs
      → decode_spec (decoder_for e max_frame) xs ≡ out
      → Same R (do_decode R (decoder_for e max_frame) s) out
  decodes_to e max_frame n body xs s out f r q d =
      subst (Same R (do_decode R (decoder_for e max_frame) s))
        (ap (decode_spec (decoder_for e max_frame)) q ∙ d)
        (do_decode-Same R (decoder_for e max_frame) s r (positive e max_frame n body f))

  -- On a ready reader whose stream starts with the bytes that `handle_write` gives for a body,
  -- `do_decode` with the matching decoder returns exactly that body, and leaves what stands behind
  -- the frame: for a length that the field holds, a frame of at most `max_frame` bytes, and a
  -- `max_frame` below 2 ^ 63.
  pub do_decode-handle_write :
      (e : Encoder) (max_frame n : ℕ) (body bytes rest : List ℕ) (s : R.State)
      → Fits e max_frame n body
      → handle_write e body ≡ some bytes
      → R.IsReady s
      → R.stream s ≡ bytes ++ rest
      → Same R (do_decode R (decoder_for e max_frame) s) (frame body, rest)
  do_decode-handle_write e max_frame n body bytes rest s f w r q =
      decodes_to e max_frame n body (bytes ++ rest) s (frame body, rest) f r q
        (ap (λ l. decode_spec (decoder_for e max_frame) (l ++ rest))
            (handle_write-eq e max_frame n body bytes f w)
          ∙ decode_spec-wire e max_frame n body rest f)

  -- On a ready reader whose stream is a proper front of the bytes that `handle_write` gives, for
  -- lengths that fit as for a whole frame, `do_decode` asks for more bytes and leaves the stream as
  -- it is.
  pub do_decode-waits :
      (e : Encoder) (max_frame n : ℕ) (body bytes : List ℕ) (m : ℕ) (s : R.State)
      → Fits e max_frame n body
      → handle_write e body ≡ some bytes
      → R.IsReady s
      → m < length bytes
      → R.stream s ≡ take m bytes
      → Same R (do_decode R (decoder_for e max_frame) s) (need_more, take m bytes)
  do_decode-waits e max_frame n body bytes m s f w r h q =
      decodes_to e max_frame n body (take m bytes) s (need_more, take m bytes) f r q
        (ap (λ l. decode_spec (decoder_for e max_frame) (take m l)) same
          ∙ decode_spec-part e max_frame n body m f (omega (arith, ap length same))
          ∙ ap (λ l. (need_more, take m l)) (sym same))
    where
      same : bytes ≡ wire e n body
      same = handle_write-eq e max_frame n body bytes f w

-- A frame is not empty.
pub length-handle_write :
    (e : Encoder) (max_frame n : ℕ) (body bytes : List ℕ)
    → Fits e max_frame n body
    → handle_write e body ≡ some bytes
    → 0 < length bytes
length-handle_write e max_frame n body bytes f w = omega (
  arith,
  ap length (handle_write-eq e max_frame n body bytes f w),
  length-append (put_uint e.order e.field_length n) body,
  length-put_uint e.order e.field_length n,
  positive e max_frame n body f,
)
