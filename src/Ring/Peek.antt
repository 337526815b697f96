-- ===== src/Ring/Peek.antt =====
-- What `Peek`, `peekAll` and `Bytes` show of the queue that a valid buffer stands for.
use ag_core.Prelude.{
  ℕ, suc, ◌+◌, ◌-◌, ◌≤◌, ◌≡◌, ◌∙◌, sym, ap, List, ◌++◌, arith, ltb, leb→le, tests, leb,
  if◌then◌else◌, Bool-cases, inl, inr, length, take, drop, slice, slice_add, take_cut,
  take-append_le, take-append_ge, take-nil, length-append, take_cut_all, take-take_le, length-drop,
  length-take, append-nil,
}
use ag_core.Prelude.Int.{pos}
use ag_core.Ring.{Buffer, peek, peek_all, peek_wrapped}
use ag_core.Ring.Write.{bytes}
use ag_core.Ring.Valid.{IsValid, contents}

pub peek_all-contents : (b : Buffer) → (peek_all b).0 ++ (peek_all b).1 ≡ contents b
unfolding peek_all
peek_all-contents b = ground (arith, append-nil (slice b.r b.w b.buf), append-nil (drop b.r b.buf))

pub bytes-contents : (b : Buffer) → bytes b ≡ contents b
unfolding bytes
bytes-contents b = ground (arith, append-nil (drop b.r b.buf))

-- A count that ends before the storage does.
pub within :
    (b : Buffer) (m : ℕ)
    → length b.buf ≡ b.size
    → b.r + m ≤ b.size
    → take m (drop b.r b.buf ++ take b.w b.buf) ≡ slice b.r (b.r + m) b.buf
within b m e h =
    take-append_le m (drop b.r b.buf) (take b.w b.buf) (omega (arith, length-drop b.r b.buf))
    ∙ sym (slice_add b.r m b.buf)

-- A count that goes round the end of the storage.
pub across :
    (b : Buffer) (m : ℕ)
    → length b.buf ≡ b.size
    → b.size - b.r ≤ m
    → m ≤ b.size - b.r + b.w
    → take m (drop b.r b.buf ++ take b.w b.buf) ≡ drop b.r b.buf ++ take (m - (b.size - b.r)) b.buf
across b m e h k =
    take-append_ge m lo (take b.w b.buf) (omega (arith, length_lo))
    ∙ ap (λ j. lo ++ take j (take b.w b.buf)) (ap (λ j. m - j) length_lo)
    ∙ ap (λ l. lo ++ l) (take-take_le (m - (b.size - b.r)) b.w b.buf (omega arith))
  where
    lo : List ℕ
    lo = drop b.r b.buf

    length_lo : length lo ≡ b.size - b.r
    length_lo = omega (arith, length-drop b.r b.buf)

pub length-wrapped :
    {b : Buffer} → IsValid b → length (drop b.r b.buf ++ take b.w b.buf) ≡ b.size - b.r + b.w
length-wrapped {b} v = omega (
  arith,
  length-append (drop b.r b.buf) (take b.w b.buf),
  length-drop b.r b.buf,
  length-take b.w b.buf,
)

peek_wrapped-take :
    {b : Buffer} (n : ℕ)
    → IsValid b
    → (peek_wrapped b n).0 ++ (peek_wrapped b n).1 ≡ take n (drop b.r b.buf ++ take b.w b.buf)
unfolding peek_wrapped
peek_wrapped-take {b} n v =
    elim (Bool-cases (leb (b.r + m) b.size)) [
      | inl p ↦
          rw p
            (append-nil (slice b.r (b.r + m) b.buf) ∙ sym (within b m v.length_buf (leb→le _ _ p)))
      | inr p ↦ rw p (sym (across b m v.length_buf (omega (tests, p)) (ground arith)))
    ]
    ∙ take_cut_all n (b.size - b.r + b.w) (drop b.r b.buf ++ take b.w b.buf)
        (omega (arith, length-wrapped v))
  where
    m : ℕ
    m = if ltb n (b.size - b.r + b.w) then n else b.size - b.r + b.w

-- On a valid buffer the two parts that `peek` shows for a positive count are together the first
-- bytes of the queue, as many as asked for or all there are.
pub peek-contents :
    {b : Buffer} (n : ℕ)
    → IsValid b
    → (peek b (pos (suc n))).0 ++ (peek b (pos (suc n))).1 ≡ take (suc n) (contents b)
unfolding peek
peek-contents {b} n v = ground (
  arith,
  peek_wrapped-take (suc n) v,
  take-nil {A = ℕ} (suc n),
  append-nil (slice b.r (b.r + (if ltb (suc n) (b.w - b.r) then suc n else b.w - b.r)) b.buf),
  slice_add b.r (if ltb (suc n) (b.w - b.r) then suc n else b.w - b.r) b.buf,
  take_cut (suc n) (b.w - b.r) (drop b.r b.buf),
)
