-- ===== src/Mask/Concat.antt =====
-- What `convertLikeWildcards` makes of an expression with one parameter.
use ag_core.Prelude.{
  ℕ, zero, suc, ◌+◌, ◌-◌, ◌≤◌, ◌<◌, ◌≡◌, ◌≢◌, refl, sym, ap, ap₂, ◌∙◌, Bool, true, false, ◌&&◌,
  ◌||◌, none, some, [], ◌∷◌, ◌++◌, arith, ◌==◌, ==_ne, le→ltb, length, take, drop, slice, slice_add,
  get_elem?, length-append, drop-append_add, append_assoc,
}
use ag_core.Placeholder.{Text, is_empty, index_of}
use ag_core.Placeholder.Search.{take-length, drop-length}
use ag_core.Mask.{
  is_wildcard, is_wildcard_at, is_name_byte, pre_start, run_length, converted, concat_text,
  convert_rounds, convert_like_wildcards,
}

-- No `@`.
abbrev pub IsFree : Text → Type 0
IsFree [] = Unit {0}
IsFree (c ∷ cs) = (c ≢ 64) × IsFree cs

abbrev pub AllPass : (ℕ → Bool) → Text → Type 0
AllPass test [] = Unit {0}
AllPass test (c ∷ cs) = (test c ≡ true) × AllPass test cs

abbrev pub starts : (ℕ → Bool) → Text → Bool
starts test [] = false
starts test (c ∷ cs) = test c

abbrev pub ends : (ℕ → Bool) → Text → Bool
ends test [] = false
ends test (c ∷ []) = test c
ends test (c ∷ d ∷ cs) = ends test (d ∷ cs)

index_of-at : (x r : Text) → IsFree x → index_of (x ++ 64 ∷ r) (64 ∷ []) ≡ some (length x)
index_of-at [] r p = refl
index_of-at (c ∷ cs) r (d, p) = rw (==_ne d, index_of-at cs r p) refl

index_of-free : (x : Text) → IsFree x → index_of x (64 ∷ []) ≡ none
index_of-free [] p = refl
index_of-free (c ∷ cs) (d, p) = rw (==_ne d, index_of-free cs p) refl

run_length-append :
    (test : ℕ → Bool) (x y : Text)
    → AllPass test x
    → starts test y ≡ false
    → run_length test (x ++ y) ≡ length x
run_length-append test [] [] p e = refl
run_length-append test [] (c ∷ cs) p e = rw e refl
run_length-append test (c ∷ cs) y (t, p) e = rw t (ap suc (run_length-append test cs y p e))

get_elem?-last :
    (c : ℕ) (cs r : Text)
    → is_wildcard_at (get_elem? (c ∷ cs ++ r) (length cs)) ≡ ends is_wildcard (c ∷ cs)
get_elem?-last c [] r = refl
get_elem?-last c (d ∷ ds) r = get_elem?-last d ds r

pre_start-end : (a r : Text) → ends is_wildcard a ≡ false → pre_start (a ++ r) (length a) ≡ length a
pre_start-end [] r e = refl
pre_start-end (c ∷ cs) r e = rw (get_elem?-last c cs r ∙ e) refl

get_elem?-behind : (a x : Text) (k : ℕ) → get_elem? (a ++ x) (length a + k) ≡ get_elem? x k
get_elem?-behind [] x k = ap (get_elem? x) {x = 0 + k} {y = k} (omega arith)
get_elem?-behind (c ∷ cs) x k =
    ap (get_elem? (c ∷ cs ++ x)) {x = suc (length cs) + k} {y = suc (length cs + k)} (omega arith)
    ∙ get_elem?-behind cs x k

wild_at :
    (w r : Text) (k : ℕ)
    → AllPass is_wildcard w
    → k < length w
    → is_wildcard_at (get_elem? (w ++ r) k) ≡ true
wild_at [] r k p h = absurd (omega arith)
wild_at (c ∷ cs) r zero (t, p) h = t
wild_at (c ∷ cs) r (suc k) (t, p) h = wild_at cs r k p (omega arith)

pre_start-wild :
    (a w r : Text) (k : ℕ)
    → AllPass is_wildcard w
    → ends is_wildcard a ≡ false
    → k ≤ length w
    → pre_start (a ++ (w ++ r)) (length a + k) ≡ length a
pre_start-wild a w r zero p e h =
    ap (pre_start (a ++ (w ++ r))) {x = length a + 0} {y = length a} (omega arith)
    ∙ pre_start-end a (w ++ r) e
pre_start-wild a w r (suc k) p e h =
    ap (pre_start (a ++ (w ++ r))) {x = length a + suc k} {y = suc (length a + k)} (omega arith)
    ∙ rw (ap is_wildcard_at (get_elem?-behind a (w ++ r) k) ∙ wild_at w r k p (omega arith))
        (pre_start-wild a w r k p e (omega arith))

first_round :
    (k : ℕ) (expr : Text) (i start name_end : ℕ) (prefix_wild suffix_wild : Text)
    → index_of expr (64 ∷ []) ≡ some i
    → pre_start expr i ≡ start
    → slice start i expr ≡ prefix_wild
    → run_length is_name_byte (drop (i + 1) expr) ≡ name_end
    → take
        (run_length is_wildcard (drop name_end (drop (i + 1) expr)))
        (drop name_end (drop (i + 1) expr))
      ≡ suffix_wild
    → (name_end == 0 || (is_empty prefix_wild && is_empty suffix_wild)) ≡ false
    → convert_rounds (suc k) expr [] 0
      ≡ convert_rounds k expr
          (slice 0 start expr
            ++ concat_text prefix_wild (take name_end (drop (i + 1) expr)) suffix_wild)
          (i + 1 + name_end + length suffix_wild)
unfolding convert_rounds
first_round k expr i start name_end prefix_wild suffix_wild e f g h l m =
    rw
      (
        convert_rounds,
        e,
        zero_right i,
        f,
        g,
        h,
        l,
        m,
        zero_right i,
        f,
        le→ltb start 0 (omega arith),
        zero_right i,
        f,
        g,
        h,
        l,
      )
      refl
  where
    zero_right : (n : ℕ) → n + 0 ≡ n
    zero_right n = omega arith

last_round :
    (k : ℕ) (expr buf : Text) (last_end : ℕ)
    → index_of (drop last_end expr) (64 ∷ []) ≡ none
    → last_end ≢ 0
    → convert_rounds (suc k) expr buf last_end ≡ converted (buf ++ drop last_end expr)
unfolding convert_rounds
last_round k expr buf last_end e n = rw (convert_rounds, e, ==_ne n) refl

-- An expression with one parameter: a text, wildcards, the name, wildcards, and a text.
module _ (a w n s b : Text) where
  abbrev pub expression : Text
  expression = a ++ (w ++ (64 ∷ (n ++ (s ++ b))))

  abbrev at_idx : ℕ
  at_idx = length a + length w

  drop_behind : drop (at_idx + 1) expression ≡ n ++ (s ++ b)
  drop_behind =
      ap (λ k. drop k expression) {x = at_idx + 1} {y = length a + (length w + 1)} (omega arith)
      ∙ drop-append_add (length w + 1) a (w ++ (64 ∷ (n ++ (s ++ b))))
      ∙ drop-append_add 1 w (64 ∷ (n ++ (s ++ b)))

  drop_name : drop (length n) (drop (at_idx + 1) expression) ≡ s ++ b
  drop_name = ap (drop (length n)) drop_behind ∙ drop-length n (s ++ b)

  slice_wild : slice (length a) at_idx expression ≡ w
  slice_wild =
      slice_add (length a) (length w) expression
      ∙ ap (take (length w)) (drop-length a (w ++ (64 ∷ (n ++ (s ++ b)))))
      ∙ take-length w (64 ∷ (n ++ (s ++ b)))

  index_at : IsFree (a ++ w) → index_of expression (64 ∷ []) ≡ some at_idx
  index_at p =
      ap (λ t. index_of t (64 ∷ [])) (sym (append_assoc a w (64 ∷ (n ++ (s ++ b)))))
      ∙ index_of-at (a ++ w) (n ++ (s ++ b)) p
      ∙ ap some (length-append a w)

  drop_last : drop (at_idx + 1 + length n + length s) expression ≡ b
  drop_last =
      ap (λ k. drop k expression) {x = at_idx + 1 + length n + length s}
        {y = length a + (length w + (1 + (length n + length s)))} (omega arith)
      ∙ drop-append_add (length w + (1 + (length n + length s))) a (w ++ (64 ∷ (n ++ (s ++ b))))
      ∙ drop-append_add (1 + (length n + length s)) w (64 ∷ (n ++ (s ++ b)))
      ∙ ap (λ k. drop k (64 ∷ (n ++ (s ++ b)))) {x = 1 + (length n + length s)}
          {y = suc (length n + length s)} (omega arith)
      ∙ drop-append_add (length s) n (s ++ b)
      ∙ drop-length s b

  -- Of an expression that is a text, wildcards, `@` with a name, wildcards, and a text, with
  -- wildcards on one side at least and a name that is not empty, `convertLikeWildcards` gives the
  -- first text, the `CONCAT` of the wildcards in quotes around the parameter, and the last text
  -- unchanged; where the texts have no `@`, the first does not end in a wildcard, the last does not
  -- begin with one, and what follows the name does not begin with a byte of a name.
  pub convert_like_wildcards-one :
      IsFree (a ++ w)
      → IsFree b
      → AllPass is_wildcard w
      → AllPass is_name_byte n
      → AllPass is_wildcard s
      → ends is_wildcard a ≡ false
      → starts is_name_byte (s ++ b) ≡ false
      → starts is_wildcard b ≡ false
      → (length n == 0 || (is_empty w && is_empty s)) ≡ false
      → convert_like_wildcards expression ≡ converted ((a ++ concat_text w n s) ++ b)
  unfolding convert_like_wildcards
  convert_like_wildcards-one fa fb hw hn hs ea es eb k =
      first_round (length expression) expression at_idx (length a) (length n) w s (index_at fa)
        (pre_start-wild a w (64 ∷ (n ++ (s ++ b))) (length w) hw ea (omega arith)) slice_wild
        (ap (run_length is_name_byte) drop_behind ∙ run_length-append is_name_byte n (s ++ b) hn es)
        (ap (λ t. take (run_length is_wildcard t) t) drop_name
          ∙ ap (λ c. take c (s ++ b)) (run_length-append is_wildcard s b hs eb)
          ∙ take-length s b)
        k
      ∙ ap (λ f. convert_rounds f expression buf last_end) {x = length expression}
          {y = suc (length expression - 1)} (omega (arith, long))
      ∙ last_round (length expression - 1) expression buf last_end
          (ap (λ t. index_of t (64 ∷ [])) drop_last ∙ index_of-free b fb)
          (λ e. absurd (omega (arith, e)))
      ∙ ap (λ t. converted (buf ++ t)) drop_last
      ∙ ap (λ t. converted (t ++ b)) buf_eq
    where
      last_end : ℕ
      last_end = at_idx + 1 + length n + length s

      buf : Text
      buf =
          slice 0 (length a) expression
          ++ concat_text w (take (length n) (drop (at_idx + 1) expression)) s

      buf_eq : buf ≡ a ++ concat_text w n s
      buf_eq =
          ap₂ (λ x y. x ++ concat_text w y s)
            (ap (λ k. take k expression) {x = length a - 0} {y = length a} (omega arith)
              ∙ take-length a (w ++ (64 ∷ (n ++ (s ++ b)))))
            (ap (take (length n)) drop_behind ∙ take-length n (s ++ b))

      long : length expression ≡ length a + (length w + suc (length (n ++ (s ++ b))))
      long = omega (
        arith,
        length-append a (w ++ (64 ∷ (n ++ (s ++ b)))),
        length-append w (64 ∷ (n ++ (s ++ b))),
      )
