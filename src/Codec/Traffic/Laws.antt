-- ===== src/Codec/Traffic/Laws.antt =====
-- Frames that come together are fired one by one, in their order.
use ag_core.Prelude.{
  ℕ, suc, ◌<◌, ◌≡◌, refl, ◌∙◌, ap, true, false, ◌&&◌, not, some, List, [], ◌∷◌, ◌++◌, arith, ltb,
  ◌==◌, length, length-append, lt→ltb,
}
use ag_core.Reader.{Reader}
use ag_core.Codec.{Encoder, Decoder, frame, handle_write, do_decode}
use ag_core.Codec.Sound.{Same}
use ag_core.Codec.RoundTrip.{Fits, decoder_for, do_decode-handle_write, length-handle_write}
use ag_core.Codec.Traffic.{fired, handle_read, on_traffic, rounds}

-- `xs` is what the encoder writes for the bodies, one behind the other.
abbrev pub Sends : Encoder → ℕ → List (List ℕ) → List ℕ → Type 0
Sends e max_frame [] xs = xs ≡ []
Sends e max_frame (body ∷ bodies) xs =
    (n : ℕ) × (bytes : List ℕ) × (rest : List ℕ) × Fits e max_frame n body
    × (handle_write e body ≡ some bytes)
    × (xs ≡ bytes ++ rest)
    × Sends e max_frame bodies rest

module _ (R : Reader) where
  on_traffic-frame :
      (d : Decoder) (s : R.State) (body rest : List ℕ)
      → R.IsReady s
      → Same R (do_decode R d s) (frame body, rest)
      → on_traffic R d s ≡ (
        some (body ∷ []),
        ltb 0 (length rest) && not (length rest == length (R.stream s)),
        (do_decode R d s).1,
      )
  unfolding on_traffic handle_read fired
  on_traffic-frame d s body rest r q =
      rw
        (
          q.outcome,
          on_traffic,
          handle_read,
          fired,
          R.buffered-eq s r,
          R.buffered-eq (do_decode R d s).1 q.ready,
          q.rest,
        )
        refl

  -- The last round, and one that wakes the next.
  rounds_last :
      (k : ℕ) (d : Decoder) (s s' : R.State) (frames : List (List ℕ))
      → on_traffic R d s ≡ (some frames, false, s')
      → rounds R (suc k) d s ≡ (frames, s')
  unfolding rounds
  rounds_last k d s s' frames e =
      rw (ap (λ t. t.0) e, rounds, ap (λ t. t.1) e, ap (λ t. t.2) e) refl

  rounds_more :
      (k : ℕ) (d : Decoder) (s s' : R.State) (frames : List (List ℕ))
      → on_traffic R d s ≡ (some frames, true, s')
      → rounds R (suc k) d s ≡ (frames ++ (rounds R k d s').0, (rounds R k d s').1)
  unfolding rounds
  rounds_more k d s s' frames e =
      rw (ap (λ t. t.0) e, rounds, ap (λ t. t.1) e, ap (λ t. t.2) e) refl

  -- On a ready reader whose stream is the bytes that the encoder writes for some bodies, one behind
  -- the other, with lengths that fit as for one frame, as many calls of `on_traffic` as there are
  -- bodies, each of which the one before it wakes, fire exactly the bodies in their order, and
  -- leave an empty stream.
  pub rounds-Sends :
      (e : Encoder) (max_frame : ℕ) (bodies : List (List ℕ)) (xs : List ℕ) (s : R.State)
      → Sends e max_frame bodies xs
      → R.IsReady s
      → R.stream s ≡ xs
      → ((rounds R (length bodies) (decoder_for e max_frame) s).0 ≡ bodies)
        × (R.stream (rounds R (length bodies) (decoder_for e max_frame) s).1 ≡ [])
        × R.IsReady (rounds R (length bodies) (decoder_for e max_frame) s).1
  rounds-Sends e max_frame [] xs s p r q = unfold rounds in (refl, q ∙ p, r)
  rounds-Sends e max_frame (body ∷ []) xs s (n, bytes, rest, f, w, t, p) r q =
      let a = do_decode-handle_write R e max_frame n body bytes rest s f w r (q ∙ t) in
      rw
        (rounds_last 0 (decoder_for e max_frame) s _ (body ∷ []) (
          on_traffic-frame (decoder_for e max_frame) s body rest r a
          ∙ ap (λ b. (some (body ∷ []), b, (do_decode R (decoder_for e max_frame) s).1))
              (stops rest p)))
        (refl, a.rest ∙ p, a.ready)
    where
      stops :
          (rest : List ℕ)
          → rest ≡ []
          → (ltb 0 (length rest) && not (length rest == length (R.stream s))) ≡ false
      stops rest p = rw p refl
  rounds-Sends e max_frame (body ∷ body' ∷ bodies) xs s (n, bytes, rest, f, w, t, p) r q =
      let a = do_decode-handle_write R e max_frame n body bytes rest s f w r (q ∙ t) in
      let (g, h, i) =
        rounds-Sends e max_frame (body' ∷ bodies) rest (do_decode R (decoder_for e max_frame) s).1 p
          a.ready a.rest in
      rw
        (rounds_more (suc (length bodies)) (decoder_for e max_frame) s _ (body ∷ []) (
          on_traffic-frame (decoder_for e max_frame) s body rest r a
          ∙ ap (λ b. (some (body ∷ []), b, (do_decode R (decoder_for e max_frame) s).1)) wakes))
        (ap (◌∷◌ body) g, h, i)
    where
      filled : 0 < length rest
      filled = omega (
        arith,
        ap length p.5,
        length-append p.1 p.2,
        length-handle_write e max_frame p.0 body' p.1 p.3 p.4,
      )

      wakes : (ltb 0 (length rest) && not (length rest == length (R.stream s))) ≡ true
      wakes = ground (
        arith,
        lt→ltb 0 (length rest) filled,
        ap length (q ∙ t),
        length-append bytes rest,
        length-handle_write e max_frame n body bytes f w,
      )
