-- ===== src/Placeholder/Flat.antt =====
-- Texts with placeholders whose values hold none.
use ag_core.Prelude.{
  ℕ, zero, suc, ◌+◌, ◌≡◌, ◌≤◌, refl, ◌∙◌, sym, ap, ap₂, Bool, false, none, some, List, [], ◌∷◌,
  ◌++◌, arith, length, take, drop, slice, append_assoc, length-append, Option-cases, inl, inr,
}
use ag_core.Placeholder.{
  Text, is_empty, index_of, next_start, find_placeholder_end_index, parsed, value_of, run,
  replace_placeholders,
}
use ag_core.Placeholder.Search.{
  standard, IsPlain, hole, index_of-plain, take-length, find_placeholder_end_index-hole, slice-hole,
  drop-behind_hole, next_start-hole, next_start-plain, text_eq_refl,
}

-- Literal text and a key, as often as there are placeholders, and the text at the end.
abbrev pub render : List (Text × Text) → Text → Text
render [] end = end
render ((l, key) ∷ is) end = l ++ hole key (render is end)

module _ (ignore : Bool) (resolver : Text → Text) where
  abbrev pub value : Text → Text
  value key = value_of (standard ignore) resolver key

  abbrev pub eval : List (Text × Text) → Text → Text
  eval [] end = end
  eval ((l, key) ∷ is) end = (l ++ value key) ++ eval is end

  -- Plain literals and keys; a value that is not empty and has no prefix in it.
  abbrev pub IsFlat : List (Text × Text) → Type 0
  IsFlat [] = Unit {0}
  IsFlat ((l, key) ∷ is) =
      IsPlain l
      × IsPlain key
      × (is_empty (value key) ≡ false)
      × (index_of (value key) (36 ∷ 123 ∷ []) ≡ none)
      × IsFlat is

  -- What a round leaves of the text, for the placeholder `p` from `start` to `stop`.
  abbrev replaced : Text → ℕ → ℕ → Text → Text
  replaced buf start stop p = (take start buf ++ value p) ++ drop (stop + 1) buf

  run-round :
      (k : ℕ) (buf : Text) (start stop : ℕ)
      → find_placeholder_end_index (standard ignore) buf start ≡ some stop
      → index_of (slice (start + 2) stop buf) (36 ∷ 123 ∷ []) ≡ none
      → is_empty (value (slice (start + 2) stop buf)) ≡ false
      → index_of (value (slice (start + 2) stop buf)) (36 ∷ 123 ∷ []) ≡ none
      → run (standard ignore) resolver (suc k) buf (some start) []
        ≡ run
            (standard ignore)
            resolver
            k
            (replaced buf start stop (slice (start + 2) stop buf))
            (next_start
              (36 ∷ 123 ∷ [])
              (replaced buf start stop (slice (start + 2) stop buf))
              (start + length (value (slice (start + 2) stop buf))))
            []
  unfolding run
  run-round k buf start stop e p n f =
      rw (run, e, p, n, f, text_eq_refl (slice (start + 2) stop buf)) refl

  -- One round, on a hole behind the text `b`.
  run-hole :
      (k : ℕ) (b key rest : Text)
      → IsPlain key
      → is_empty (value key) ≡ false
      → index_of (value key) (36 ∷ 123 ∷ []) ≡ none
      → run (standard ignore) resolver (suc k) (b ++ hole key rest) (some (length b)) []
        ≡ run
            (standard ignore)
            resolver
            k
            ((b ++ value key) ++ rest)
            (next_start (36 ∷ 123 ∷ []) ((b ++ value key) ++ rest) (length b + length (value key)))
            []
  run-hole k b key rest p n f =
      run-round k (b ++ hole key rest) (length b) (length b + 2 + length key)
        (find_placeholder_end_index-hole b key rest ignore p)
        (rw (slice-hole b key rest) (index_of-plain key p)) (rw (slice-hole b key rest) n)
        (rw (slice-hole b key rest) f)
      ∙ ap
          (λ q.
            run (standard ignore) resolver k (replaced buf (length b) stop q)
              (next_start (36 ∷ 123 ∷ []) (replaced buf (length b) stop q)
                (length b + length (value q)))
              [])
          (slice-hole b key rest)
      ∙ ap
          (λ x.
            run (standard ignore) resolver k x
              (next_start (36 ∷ 123 ∷ []) x (length b + length (value key))) [])
          new_text
    where
      buf : Text
      buf = b ++ hole key rest

      stop : ℕ
      stop = length b + 2 + length key

      new_text : replaced buf (length b) stop key ≡ (b ++ value key) ++ rest
      new_text =
          ap₂ (λ x y. (x ++ value key) ++ y) (take-length b (hole key rest))
            (drop-behind_hole b key rest)

  run-flat :
      (items : List (Text × Text)) (k : ℕ) (a end : Text)
      → length items ≤ k
      → IsFlat items
      → IsPlain end
      → run
          (standard ignore)
          resolver
          k
          (a ++ render items end)
          (next_start (36 ∷ 123 ∷ []) (a ++ render items end) (length a))
          []
        ≡ parsed (a ++ eval items end) []
  unfolding run
  run-flat [] k a end h f e = rw (next_start-plain a end e) refl
  run-flat ((l, key) ∷ is) zero a end h f e = absurd (omega arith)
  run-flat ((l, key) ∷ is) (suc k) a end h (p, q, n, i, f) e =
      ap (λ s. run (standard ignore) resolver (suc k) (a ++ (l ++ hole key rest)) s [])
        (next_start-hole a l key rest p ∙ ap some (sym (length-append a l)))
      ∙ ap (λ x. run (standard ignore) resolver (suc k) x (some (length (a ++ l))) [])
          (sym (append_assoc a l (hole key rest)))
      ∙ run-hole k (a ++ l) key rest q n i
      ∙ ap
          (λ m.
            run (standard ignore) resolver k (((a ++ l) ++ value key) ++ rest)
              (next_start (36 ∷ 123 ∷ []) (((a ++ l) ++ value key) ++ rest) m) [])
          (sym (length-append (a ++ l) (value key)))
      ∙ run-flat is k ((a ++ l) ++ value key) end (omega arith) f e
      ∙ ap (λ x. parsed x []) regroup
    where
      rest : Text
      rest = render is end

      regroup : ((a ++ l) ++ value key) ++ eval is end ≡ a ++ ((l ++ value key) ++ eval is end)
      regroup =
          ap (λ x. x ++ eval is end) (append_assoc a l (value key))
          ∙ append_assoc a (l ++ value key) (eval is end)

  next_start-zero : (buf : Text) → next_start (36 ∷ 123 ∷ []) buf 0 ≡ index_of buf (36 ∷ 123 ∷ [])
  unfolding next_start
  next_start-zero buf = elim (Option-cases (index_of buf (36 ∷ 123 ∷ []))) [
    | inl e ↦ rw (next_start, e) refl
    | inr (i, e) ↦ rw (next_start, e) (ap some {x = 0 + i} {y = i} (omega arith))
  ]

  from_start :
      (items : List (Text × Text)) (k : ℕ) (end : Text)
      → length items ≤ k
      → IsFlat items
      → IsPlain end
      → run
          (standard ignore)
          resolver
          k
          (render items end)
          (index_of (render items end) (36 ∷ 123 ∷ []))
          []
        ≡ parsed (eval items end) []
  from_start items k end h f e =
      ap (λ s. run (standard ignore) resolver k (render items end) s [])
        (sym (next_start-zero (render items end)))
      ∙ run-flat items k [] end h f e

  -- With `${`, `}` and `:`, on a text of plain literals and placeholders with plain keys, whose
  -- values, the defaults behind a `:` included, are not empty and hold no `${`, and with as many
  -- rounds as there are placeholders, `replace_placeholders` succeeds with the values in the places
  -- of their placeholders, and no placeholder stays visited. Plain text has no `$` and no `}`.
  pub replace_placeholders-flat :
      (items : List (Text × Text)) (k : ℕ) (end : Text)
      → length items ≤ k
      → IsFlat items
      → IsPlain end
      → replace_placeholders (standard ignore) resolver k (render items end)
        ≡ parsed (eval items end) []
  unfolding replace_placeholders
  replace_placeholders-flat [] k [] h f e = refl
  replace_placeholders-flat [] k (c ∷ cs) h f e = from_start [] k (c ∷ cs) h f e
  replace_placeholders-flat (([], key) ∷ is) k end h f e = from_start (([], key) ∷ is) k end h f e
  replace_placeholders-flat ((c ∷ cs, key) ∷ is) k end h f e =
      from_start ((c ∷ cs, key) ∷ is) k end h f e
