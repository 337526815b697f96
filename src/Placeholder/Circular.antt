-- ===== src/Placeholder/Circular.antt =====
-- Keys whose values lead back to a key on the way.
use ag_core.Prelude.{
  ℕ, zero, suc, ◌+◌, ◌≡◌, ◌<◌, refl, ◌∙◌, ap, Bool, true, false, none, some, List, [], ◌∷◌, ◌++◌,
  arith, length, slice,
}
use ag_core.Placeholder.{
  Text, is_empty, index_of, find_placeholder_end_index, visits, ParseError, circular, failed,
  value_of, run, replace_placeholders,
}
use ag_core.Placeholder.Search.{
  standard, IsPlain, hole, index_of-hole, index_of-plain, find_placeholder_end_index-hole,
  slice-hole,
}

-- The last key of a way that begins with `key`.
abbrev pub last_key : Text → List Text → Text
last_key key [] = key
last_key key (next ∷ way) = last_key next way

module _ (ignore : Bool) (resolver : Text → Text) where
  -- The value of each key is the placeholder of the next one, and the last key was visited, but none
  -- before it.
  abbrev pub Returns : List Text → Text → List Text → Type 0
  Returns visited key [] = IsPlain key × (visits visited key ≡ true)
  Returns visited key (next ∷ way) =
      IsPlain key
      × (visits visited key ≡ false)
      × (resolver key ≡ hole next [])
      × Returns (key ∷ visited) next way

  run-visited :
      (k : ℕ) (buf : Text) (start stop : ℕ) (vs : List Text)
      → find_placeholder_end_index (standard ignore) buf start ≡ some stop
      → visits vs (slice (start + 2) stop buf) ≡ true
      → run (standard ignore) resolver (suc k) buf (some start) vs
        ≡ failed (circular (slice (start + 2) stop buf))
  unfolding run
  run-visited k buf start stop vs e v = rw (run, e, v) refl

  run-fails :
      (k : ℕ) (buf : Text) (start stop : ℕ) (vs : List Text) (err : ParseError)
      → find_placeholder_end_index (standard ignore) buf start ≡ some stop
      → visits vs (slice (start + 2) stop buf) ≡ false
      → index_of (slice (start + 2) stop buf) (36 ∷ 123 ∷ []) ≡ none
      → is_empty (value_of (standard ignore) resolver (slice (start + 2) stop buf)) ≡ false
      → run
          (standard ignore)
          resolver
          k
          (value_of (standard ignore) resolver (slice (start + 2) stop buf))
          (index_of
            (value_of (standard ignore) resolver (slice (start + 2) stop buf))
            (36 ∷ 123 ∷ []))
          (slice (start + 2) stop buf ∷ vs)
        ≡ failed err
      → run (standard ignore) resolver (suc k) buf (some start) vs ≡ failed err
  unfolding run
  run-fails k buf start stop vs err e v i n f = rw (run, e, v, i, n, f) refl

  value_of-hole :
      (key next : Text)
      → resolver key ≡ hole next []
      → value_of (standard ignore) resolver key ≡ hole next []
  unfolding value_of
  value_of-hole key next e = rw (value_of, e) refl

  run-Returns :
      (way : List Text) (k : ℕ) (b key rest : Text) (vs : List Text)
      → length way < k
      → Returns vs key way
      → run (standard ignore) resolver k (b ++ hole key rest) (some (length b)) vs
        ≡ failed (circular (last_key key way))
  run-Returns way zero b key rest vs h r = absurd (omega arith)
  run-Returns [] (suc k) b key rest vs h (p, v) =
      run-visited k (b ++ hole key rest) (length b) (length b + 2 + length key) vs
        (find_placeholder_end_index-hole b key rest ignore p) (rw (slice-hole b key rest) v)
      ∙ ap (λ q. failed (circular q)) (slice-hole b key rest)
  run-Returns (next ∷ way) (suc k) b key rest vs h (p, v, e, r) =
      run-fails k (b ++ hole key rest) (length b) (length b + 2 + length key) vs
        (circular (last_key next way)) (find_placeholder_end_index-hole b key rest ignore p)
        (rw (slice-hole b key rest) v) (rw (slice-hole b key rest) (index_of-plain key p))
        (rw (slice-hole b key rest, value_of-hole key next e) refl)
        (rw (slice-hole b key rest, value_of-hole key next e)
          (run-Returns way k [] next [] (key ∷ vs) (omega arith) r))

  nonempty-hole : (l key rest : Text) → is_empty (l ++ hole key rest) ≡ false
  nonempty-hole [] key rest = refl
  nonempty-hole (c ∷ cs) key rest = refl

  -- With `${`, `}` and `:`, where the value of each of some plain keys is the placeholder of the
  -- next one, and only the last of these keys was met before, `replace_placeholders` of a text that
  -- holds the first one behind a plain literal fails with the circular reference to that last key,
  -- with one round more than there are steps.
  pub replace_placeholders-circular :
      (way : List Text) (k : ℕ) (l key rest : Text)
      → length way < k
      → IsPlain l
      → Returns [] key way
      → replace_placeholders (standard ignore) resolver k (l ++ hole key rest)
        ≡ failed (circular (last_key key way))
  unfolding replace_placeholders
  replace_placeholders-circular way k l key rest h p r =
      rw (replace_placeholders, nonempty-hole l key rest, index_of-hole l (key ++ 125 ∷ rest) p)
        (run-Returns way k l key rest [] h r)
