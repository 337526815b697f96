-- ===== src/Ring/Drain/Given.antt =====
-- What `WriteTo` hands to the writer are the bytes of the queue.
use ag_core.Prelude.{
  ℕ, ◌+◌, ◌-◌, ◌≤◌, ◌<◌, ◌≡◌, ◌∙◌, sym, ap, ap₂, false, List, ◌++◌, arith, length, take, drop,
  slice, length-drop, take_all, take-append_le, take-append_add, append-nil, append_assoc,
}
use ag_core.Ring.{Buffer}
use ag_core.Ring.Valid.{IsValid, contents, contents_straight, contents_wrapped}

-- The one write where the queue does not go round the end.
pub given_ahead :
    (b : Buffer) → b.is_empty ≡ false → b.r < b.w → slice b.r (b.r + (b.w - b.r)) b.buf ≡ contents b
given_ahead b e h =
    ap (λ k. slice b.r k b.buf) {x = b.r + (b.w - b.r)} {y = b.w} (omega arith)
    ∙ sym (contents_straight b e h)

-- The one write where it ends with the storage.
pub given_end :
    {b : Buffer}
    → IsValid b
    → b.is_empty ≡ false
    → b.w ≡ 0
    → slice b.r (b.r + (b.size - b.r + b.w)) b.buf ≡ contents b
given_end {b} v e h =
    take_all (b.r + (b.size - b.r + b.w) - b.r) (drop b.r b.buf)
      (omega (arith, length-drop b.r b.buf, v.length_buf))
    ∙ sym (append-nil (drop b.r b.buf))
    ∙ ap (λ k. drop b.r b.buf ++ take k b.buf) (sym h)
    ∙ sym (contents_wrapped b e (omega arith))

length_first : {b : Buffer} → IsValid b → length (drop b.r b.buf) ≡ b.size - b.r
length_first {b} v = omega (arith, length-drop b.r b.buf, v.length_buf)

-- The first write of the two.
pub given_first :
    {b : Buffer}
    → IsValid b
    → b.is_empty ≡ false
    → b.w ≤ b.r
    → (m : ℕ) → m ≤ b.size - b.r
    → take m (drop b.r b.buf) ≡ take m (contents b)
given_first {b} v e h m le =
    sym (take-append_le m (drop b.r b.buf) (take b.w b.buf) (omega (arith, length_first v)))
    ∙ ap (take m) (sym (contents_wrapped b e h))

-- Both writes.
pub given_both :
    {b : Buffer}
    → IsValid b
    → b.is_empty ≡ false
    → b.w ≤ b.r
    → (before : List ℕ) (m : ℕ)
    → (before ++ take (b.size - b.r) (drop b.r b.buf)) ++ take m (take b.w b.buf)
      ≡ before ++ take (b.size - b.r + m) (contents b)
given_both {b} v e h before m =
    append_assoc before (take (b.size - b.r) (drop b.r b.buf)) (take m (take b.w b.buf))
    ∙ ap (λ l. before ++ l)
        (ap (λ l. l ++ take m (take b.w b.buf))
            (take_all (b.size - b.r) (drop b.r b.buf) (omega (arith, length_first v)))
          ∙ sym (take-append_add m (drop b.r b.buf) (take b.w b.buf))
          ∙ ap₂ (λ k l. take (k + m) l) (length_first v) (sym (contents_wrapped b e h)))
