-- ===== src/Codec/Sound.antt =====
-- A decoder on any reader against its description on the plain list of the bytes that wait there.
use native.Mathlib.Decide.{dec_lt, ℕ_discrete as dec_eq}
use ag_core.Prelude.{
  ℕ, ◌+◌, ◌-◌, ◌≤◌, ◌<◌, ◌≡◌, ◌≢◌, refl, ◌∙◌, ap, Option, none, some, List, arith, ltb,
  if◌then◌else◌, Bool-cases, inl, inr, length, take, drop, slice, length-drop, lt→ltb, le→ltb,
  drop-drop,
}
use ag_core.Prelude.Int.{ℤ, pos, negsuc, pos_part, ltb_ℤ, ◌+ℤ◌}
use ag_core.Conn.{ok}
use ag_core.Reader.{Reader}
use ag_core.Codec.{
  Decoder, Decoded, need_more, panicked, frame, failed, below_strip, below_header, exceeded,
  negative_length, next_frame, strip_frame, take_frame, check_length, adjust, do_decode,
  unpack_field_length, wrap64,
}

-- A frame of `n` bytes at the front of `xs`.
abbrev pub frame_spec : Decoder → List ℕ → ℕ → Decoded × List ℕ
frame_spec d xs n =
    if ltb (length xs) n
    then (need_more, xs)
    else if ltb n d.strip
    then (failed below_strip, xs)
    else (frame (slice d.strip n xs), drop n xs)

-- The checks on the length of the frame, once it is adjusted.
abbrev pub bounds_spec : Decoder → List ℕ → ℤ → Decoded × List ℕ
bounds_spec d xs z =
    if ltb_ℤ z (pos (d.offset + d.field_length))
    then (failed below_header, xs)
    else if ltb_ℤ (pos d.max_frame) z
    then (failed exceeded, xs)
    else frame_spec d xs (pos_part z)

-- The length of the frame, from the value of its field.
abbrev pub length_spec : Decoder → List ℕ → Option ℤ → Decoded × List ℕ
length_spec d xs none = (panicked, xs)
length_spec d xs (some (negsuc n)) = (failed negative_length, xs)
length_spec d xs (some (pos n)) =
    bounds_spec d xs (wrap64 (pos n +ℤ (d.adjustment +ℤ pos (d.offset + d.field_length))))

-- What decoding makes of the bytes that wait: an outcome, and the bytes that are left.
unfoldable pub decode_spec : Decoder → List ℕ → Decoded × List ℕ
decode_spec d xs =
    if ltb (length xs) (d.offset + d.field_length)
    then (need_more, xs)
    else length_spec d xs (
        unpack_field_length d.order d.field_length
          (slice d.offset (d.offset + d.field_length) (take (d.offset + d.field_length) xs)))

module _ (R : Reader) where
  -- The same outcome, and the same bytes left.
  pub record Same (a : Decoded × R.State) (b : Decoded × List ℕ) : Type 0 where
    pub outcome : a.0 ≡ b.0
    pub rest : R.stream a.1 ≡ b.1
    pub ready : R.IsReady a.1

  stays :
      (s : R.State) (o : Decoded) (xs : List ℕ)
      → R.IsReady s
      → R.stream s ≡ xs
      → Same (o, s) (o, xs)
  stays s o xs r e = record { outcome = refl; rest = e; ready = r }

  next_frame-Same :
      (s : R.State) (n : ℕ)
      → R.IsReady s
      → n ≤ length (R.stream s)
      → Same (next_frame R s n) (frame (take n (R.stream s)), drop n (R.stream s))
  unfolding next_frame
  next_frame-Same s n r le =
      let (b, e, q, r') = R.next_lem s n r le in
      rw (value e) (record { outcome = ap frame b; rest = q; ready = r' })
    where
      value : (R.next s n).1 ≡ ok → next_frame R s n ≡ (frame (R.next s n).0, (R.next s n).2)
      value e = rw (e, next_frame)

  strip_frame-Same :
      (d : Decoder) (s : R.State) (n : ℕ)
      → R.IsReady s
      → n ≤ length (R.stream s)
      → Same (strip_frame R d s n) (
          if ltb n d.strip
          then (failed below_strip, R.stream s)
          else (frame (slice d.strip n (R.stream s)), drop n (R.stream s)))
  unfolding strip_frame
  strip_frame-Same d s n r le = elim (dec_eq d.strip 0) [
    | yes z ↦
        let nf = next_frame-Same s n r le in
        rw (whole z, le→ltb n d.strip (omega arith))
          (record { outcome = nf.outcome ∙ ap frame (sliced z); rest = nf.rest; ready = nf.ready })
    | no z ↦ elim (dec_lt n d.strip) [
      | yes l ↦ rw (short z l, lt→ltb _ _ l) (stays s _ (R.stream s) r refl)
      | no l ↦
          let (e, q, r') = R.discard_lem s d.strip r (omega arith) (omega arith) in
          let nf =
            next_frame-Same (R.discard s d.strip).2 (n - d.strip) r'
              (omega (arith, ap length q, length-drop d.strip (R.stream s))) in
          rw (cut z l e, le→ltb n d.strip (omega arith))
            (record {
              outcome = nf.outcome ∙ ap (λ l. frame (take (n - d.strip) l)) q;
              rest =
                  nf.rest
                  ∙ ap (drop (n - d.strip)) q
                  ∙ drop-drop (n - d.strip) d.strip (R.stream s)
                  ∙ ap (λ k. drop k (R.stream s)) {x = d.strip + (n - d.strip)} {y = n}
                      (omega arith);
              ready = nf.ready;
            })
    ]
  ]
    where
      same_length : n ≡ n - 0
      same_length = omega arith

      sliced : d.strip ≡ 0 → take n (R.stream s) ≡ slice d.strip n (R.stream s)
      sliced z = rw z (ap (λ k. take k (R.stream s)) same_length)

      whole : d.strip ≡ 0 → strip_frame R d s n ≡ next_frame R s n
      whole z = ground arith

      short : d.strip ≢ 0 → n < d.strip → strip_frame R d s n ≡ (failed below_strip, s)
      short z l = ground arith

      cut :
          d.strip ≢ 0
          → ¬ (n < d.strip)
          → (R.discard s d.strip).1 ≡ ok
          → strip_frame R d s n ≡ next_frame R (R.discard s d.strip).2 (n - d.strip)
      cut z l e = ground (arith, e)

  take_frame-Same :
      (d : Decoder) (s : R.State) (n : ℕ)
      → R.IsReady s
      → Same (take_frame R d s n) (frame_spec d (R.stream s) n)
  unfolding take_frame
  take_frame-Same d s n r = elim (dec_lt (length (R.stream s)) n) [
    | yes h ↦ rw (R.buffered-eq s r, lt→ltb _ _ h) (stays s need_more (R.stream s) r refl)
    | no h ↦
        rw (R.buffered-eq s r, le→ltb (length (R.stream s)) n (omega arith))
          (strip_frame-Same d s n r (omega arith))
  ]

  check_length-Same :
      (d : Decoder) (s : R.State) (z : ℤ)
      → R.IsReady s
      → Same (check_length R d s z) (bounds_spec d (R.stream s) z)
  unfolding check_length
  check_length-Same d s z r = elim (Bool-cases (ltb_ℤ z (pos (d.offset + d.field_length)))) [
    | inl e ↦ rw e (stays s _ (R.stream s) r refl)
    | inr e ↦ rw e (elim (Bool-cases (ltb_ℤ (pos d.max_frame) z)) [
      | inl f ↦ rw f (stays s _ (R.stream s) r refl)
      | inr f ↦ rw f (take_frame-Same d s (pos_part z) r)
    ])
  ]

  adjust-Same :
      (d : Decoder) (s : R.State) (z : Option ℤ)
      → R.IsReady s
      → Same (adjust R d s z) (length_spec d (R.stream s) z)
  unfolding adjust
  adjust-Same d s none r = stays s _ _ r refl
  adjust-Same d s (some (negsuc n)) r = stays s _ _ r refl
  adjust-Same d s (some (pos n)) r = check_length-Same d s _ r

  -- On a ready reader and with a header of at least one byte, `do_decode` has the outcome that
  -- `decode_spec` has on the list of the bytes that wait, on every branch, leaves the same bytes,
  -- and leaves the reader ready.
  pub do_decode-Same :
      (d : Decoder) (s : R.State)
      → R.IsReady s
      → 0 < d.offset + d.field_length
      → Same (do_decode R d s) (decode_spec d (R.stream s))
  unfolding decode_spec do_decode
  do_decode-Same d s r p = elim (dec_lt (length (R.stream s)) (d.offset + d.field_length)) [
    | yes h ↦ rw (short h, lt→ltb _ _ h) (stays s need_more (R.stream s) r refl)
    | no h ↦
        let (b, e, q, r') = R.peek_lem s (d.offset + d.field_length) r p (omega arith) in
        rw (enough b e, le→ltb (length (R.stream s)) (d.offset + d.field_length) (omega arith), ← q)
          (adjust-Same d (R.peek s (d.offset + d.field_length)).2 _ r')
  ]
    where
      header : ℕ
      header = d.offset + d.field_length

      short : length (R.stream s) < header → do_decode R d s ≡ (need_more, s)
      short h =
          let e = R.peek_short s header r h in
          rw (ap (λ t. t.1) e, do_decode) (ap (λ t. (need_more, t.2)) e)

      enough :
          (R.peek s header).0 ≡ take header (R.stream s)
          → (R.peek s header).1 ≡ ok
          → do_decode R d s
            ≡ adjust R d (R.peek s header).2 (
                unpack_field_length d.order d.field_length
                  (slice d.offset header (take header (R.stream s))))
      enough b e = rw (e, b, do_decode)
