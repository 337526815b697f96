-- ===== src/Ring/Consume.antt =====
-- `Read`, `ReadByte` and `Discard` take bytes from the front of the queue.
use native.Mathlib.Decide.{dec_lt}
use ag_core.Prelude.{
  ℕ, zero, suc, ◌+◌, ◌-◌, ◌≤◌, ◌<◌, ◌≡◌, refl, ◌∙◌, sym, ap, true, false, List, [], ◌∷◌, ◌++◌, min,
  arith, ltb, leb, leb→le, leb→lt, if◌then◌else◌, Bool-cases, inl, inr, length, take, drop, slice,
  copy, slice_add, length-drop, copy_cut, copy_at-copy, copy-take, take_cut, drop-nil, lt→ltb,
  le→ltb, take-nil, drop_cut_all, drop_all,
}
use ag_core.Prelude.Int.{pos}
use ag_core.Ring.{
  Buffer, ReadError, ReadResult, ok, is_empty_error, read, read_straight, read_wrapped,
  copy_wrapped, reset_if_met, reset, buffered, discard,
}
use ag_core.Ring.Valid.{
  IsValid, contents, contents_straight, contents_wrapped, contents_empty, length-contents,
}
use ag_core.Ring.Advance.{
  shift, mod_within, buffered_straight, buffered_wrapped, advance-IsValid, contents-advance,
  reset-IsValid, contents-reset, contents-shift, shift-IsValid,
}
use ag_core.Ring.Peek.{within, across, length-wrapped}

-- The bytes that `Read` copies round the end.
copy_wrapped-eq :
    {b : Buffer} (p : List ℕ) (n : ℕ)
    → IsValid b
    → n ≤ length p
    → n ≤ b.size - b.r + b.w
    → copy_wrapped b p n ≡ copy p (take n (drop b.r b.buf ++ take b.w b.buf))
unfolding copy_wrapped
copy_wrapped-eq {b} p n v h k = elim (Bool-cases (leb (b.r + n) b.size)) [
  | inl q ↦ rw q (ap (copy p) (sym (within b n v.length_buf (leb→le _ _ q))))
  | inr q ↦ rw q (
      copy_at-copy p (drop b.r b.buf) (take (n - (b.size - b.r)) b.buf) (b.size - b.r)
        (omega (arith, v.length_buf, length-drop b.r b.buf)) (omega (arith, leb→lt _ _ q))
      ∙ ap (copy p) (sym (across b n v.length_buf (omega (arith, leb→lt _ _ q)) k)))
]

-- What a `Read(p)` of the queue `q` returns and leaves.
pub record Reads (b : Buffer) (p : List ℕ) (res : ReadResult) : Type 0 where
  pub count : res.n ≡ min (length p) (length (contents b))
  pub bytes : res.p ≡ copy p (contents b)
  pub rest : contents res.after ≡ drop (length p) (contents b)
  pub valid : IsValid res.after

abbrev cut : List ℕ → ℕ → ℕ
cut p k = if ltb (length p) k then length p else k

read_straight-Reads :
    {b : Buffer} (p : List ℕ)
    → IsValid b
    → b.is_empty ≡ false
    → b.r < b.w
    → 0 < length p
    → Reads b p (read_straight b p (cut p (b.w - b.r)))
unfolding read_straight
read_straight-Reads {b} p v e h l = record {
  count = ground (arith, length-contents v, buffered_straight v e h);
  bytes =
      ap (copy p) (slice_add b.r n b.buf)
      ∙ ap (copy p) (take_cut (length p) (b.w - b.r) (drop b.r b.buf))
      ∙ copy-take p (slice b.r b.w b.buf)
      ∙ sym (ap (copy p) (contents_straight b e h));
  rest =
      ap contents same
      ∙ contents-advance v e n pos_n fits
      ∙ drop_cut_all (length p) (b.w - b.r) (contents b)
          (omega (arith, length-contents v, buffered_straight v e h));
  valid = rw same (advance-IsValid v e n);
}
  where
    n : ℕ
    n = cut p (b.w - b.r)

    pos_n : 0 < n
    pos_n = ground arith

    fits : n ≤ buffered b
    fits = ground (arith, buffered_straight v e h)

    same : reset_if_met (record b { r = b.r + n }) ≡ reset_if_met (shift b n)
    same =
        ap (λ k. reset_if_met (record b { r = k }))
          (sym (
            mod_within (b.r + n) b.size (omega (arith, v.stored e, fits, buffered_straight v e h))))

read_wrapped-Reads :
    {b : Buffer} (p : List ℕ)
    → IsValid b
    → b.is_empty ≡ false
    → b.w ≤ b.r
    → 0 < length p
    → Reads b p (read_wrapped b p (cut p (b.size - b.r + b.w)))
unfolding read_wrapped
read_wrapped-Reads {b} p v e h l = record {
  count = ground (arith, length-contents v, buffered_wrapped v e h);
  bytes =
      copy_wrapped-eq p n v (ground arith) (ground arith)
      ∙ copy_cut p (drop b.r b.buf ++ take b.w b.buf) (b.size - b.r + b.w)
          (omega (arith, length-wrapped v))
      ∙ sym (ap (copy p) (contents_wrapped b e h));
  rest =
      contents-advance v e n (ground (arith, v.stored e)) (ground (arith, buffered_wrapped v e h))
      ∙ drop_cut_all (length p) (b.size - b.r + b.w) (contents b)
          (omega (arith, length-contents v, buffered_wrapped v e h));
  valid = advance-IsValid v e n;
}
  where
    n : ℕ
    n = cut p (b.size - b.r + b.w)

nothing-Reads :
    (b : Buffer) (p : List ℕ) (err : ReadError)
    → IsValid b
    → contents b ≡ []
    → Reads b p (record { n = 0; err = err; p = p; after = b })
nothing-Reads b p err v e = record {
  count = rw e (omega arith);
  bytes = rw e (sym (ap (λ l. l ++ p) (take-nil {A = ℕ} (length p))));
  rest = rw e (sym (drop-nil (length p)));
  valid = v;
}

module _ (b : Buffer) (x : ℕ) (p : List ℕ) where
  read_empty :
      b.is_empty ≡ true
      → read b (x ∷ p) ≡ record { n = 0; err = is_empty_error; p = x ∷ p; after = b }
  unfolding read
  read_empty e = ground arith

  read_ahead :
      b.is_empty ≡ false
      → b.r < b.w
      → read b (x ∷ p) ≡ read_straight b (x ∷ p) (cut (x ∷ p) (b.w - b.r))
  unfolding read
  read_ahead e h = ground arith

  read_round :
      b.is_empty ≡ false
      → b.w ≤ b.r
      → read b (x ∷ p) ≡ read_wrapped b (x ∷ p) (cut (x ∷ p) (b.size - b.r + b.w))
  unfolding read
  read_round e h = ground arith

-- On a valid buffer `read p` moves the first bytes of the queue to the front of `p`, as many as `p`
-- has room for or the queue has, returns that count, and leaves a valid buffer with the rest of the
-- queue.
pub read-Reads : {b : Buffer} (p : List ℕ) → IsValid b → Reads b p (read b p)
read-Reads {b} [] v =
    unfold read in
    record {
      count = omega arith;
      bytes = sym (drop-nil (length (contents b)));
      rest = refl;
      valid = v;
    }
read-Reads {b} (x ∷ p) v = elim (Bool-cases b.is_empty) [
  | inl e ↦ rw (read_empty b x p e) (nothing-Reads b (x ∷ p) is_empty_error v (contents_empty b e))
  | inr e ↦ elim (dec_lt b.r b.w) [
    | yes h ↦ rw (read_ahead b x p e h) (read_straight-Reads (x ∷ p) v e h (omega arith))
    | no h ↦
        rw (read_round b x p e (omega arith))
          (read_wrapped-Reads (x ∷ p) v e (omega arith) (omega arith))
  ]
]

-- `Read` fails exactly on an empty buffer, and only if it is asked for something.
pub err-read :
    (b : Buffer) (x : ℕ) (p : List ℕ)
    → (read b (x ∷ p)).err ≡ (if b.is_empty then is_empty_error else ok)
unfolding read read_straight read_wrapped
err-read b x p = ground arith

pub record Discards (b : Buffer) (n : ℕ) (res : ℕ × Buffer) : Type 0 where
  pub count : res.0 ≡ min n (length (contents b))
  pub rest : contents res.1 ≡ drop n (contents b)
  pub valid : IsValid res.1

discard_all-Discards :
    {b : Buffer} (n : ℕ) → IsValid b → buffered b ≤ n → Discards b n (buffered b, reset b)
discard_all-Discards {b} n v h = record {
  count = omega (arith, length-contents v);
  rest = contents-reset b ∙ sym (drop_all n (contents b) (omega (arith, length-contents v)));
  valid = reset-IsValid b v.length_buf;
}

discard_some-Discards :
    {b : Buffer} (n : ℕ) → IsValid b → 0 < n → n < buffered b → Discards b n (n, shift b n)
discard_some-Discards {b} n v p h = record {
  count = omega (arith, length-contents v);
  rest = contents-shift v e n h;
  valid = shift-IsValid v e n;
}
  where
    e : b.is_empty ≡ false
    e = unfold buffered in ground (arith, v.met)

discard_lem :
    (b : Buffer) (n : ℕ)
    → 0 < n
    → discard b (pos n) ≡ (if ltb n (buffered b) then (n, shift b n) else (buffered b, reset b))
unfolding discard
discard_lem b n h = ground arith

-- On a valid buffer `discard n` drops the first `n` bytes of the queue or all there are, returns
-- how many those were, and leaves a valid buffer.
pub discard-Discards : {b : Buffer} (n : ℕ) → IsValid b → Discards b n (discard b (pos n))
discard-Discards {b} zero v =
    unfold discard in record { count = omega arith; rest = refl; valid = v }
discard-Discards {b} (suc n) v =
    rw (discard_lem b (suc n) (omega arith)) (elim (dec_lt (suc n) (buffered b)) [
      | yes h ↦ rw (lt→ltb _ _ h) (discard_some-Discards (suc n) v (omega arith) h)
      | no h ↦
          rw (le→ltb (suc n) (buffered b) (omega arith))
            (discard_all-Discards (suc n) v (omega arith))
    ])
