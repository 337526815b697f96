-- ===== src/Pipeline/Fire.antt =====
-- Which handler an event of the pipeline reaches.
use mathlib.Core.List.{reverse, reverse-cons, map-append}
use mathlib.Core.Option
use mathlib.Core.Path.{subst}
use ag_core.Prelude.{
  ℕ, zero, suc, ◌≡◌, ◌≤◌, refl, ◌∙◌, sym, ap, ap₂, Bool, true, false, not, Option, none, some, List,
  [], ◌∷◌, ◌++◌, map, arith, if◌then◌else◌, length, length-append, append_assoc, Bool-cases,
  Option-cases, inl, inr,
}
use ag_core.Pipeline.{
  Handler, Pipeline, head_handler, tail_handler, find, fire_next, fire_prev, fire_read, fire_write,
  fire_channel_read, fire_channel_write, fire_exception_caught, try_fire_exception,
}
use ag_core.Pipeline.Chain.{Leads}
use ag_core.Codec.Bytes.{length-reverse}
use ag_core.Pipeline.Linked.{Contexts, Holds}

-- The first handler of a list that has an interface.
abbrev pub first_with : (Handler → Bool) → List Handler → Option Handler
first_with has [] = none
first_with has (h ∷ hs) = if has h then some h else first_with has hs

-- The loop finds what a walk through the chain finds, with a round for each context.
find-Leads :
    (k : ℕ) (f : ℕ → Option ℕ) (g : ℕ → Handler) (has : Handler → Bool) (x : ℕ) (xs : List ℕ)
    → length xs ≤ k
    → Leads f x xs
    → Option.map g (find k f (λ a. has (g a)) (f x)) ≡ first_with has (map g xs)
unfolding find
find-Leads zero f g has x [] h l = refl
find-Leads zero f g has x (y ∷ ys) h l = absurd (omega arith)
find-Leads (suc k) f g has x [] h l = rw l refl
find-Leads (suc k) f g has x (y ∷ ys) h (e, l) = elim (Bool-cases (has (g y))) [
  | inl t ↦ rw (e, t) refl
  | inr t ↦ rw (e, t) (find-Leads k f g has y ys (omega arith) l)
]

map-reverse : (g : ℕ → Handler) (xs : List ℕ) → map g (reverse xs) ≡ reverse (map g xs)
map-reverse g [] = refl
map-reverse g (x ∷ xs) =
    ap (map g) (reverse-cons x xs)
    ∙ map-append g (reverse xs) (x ∷ [])
    ∙ ap (λ l. l ++ g x ∷ []) (map-reverse g xs)
    ∙ sym (reverse-cons (g x) (map g xs))

module _ {p : Pipeline} {hs : List Handler} (k : Holds p hs) (has : Handler → Bool) where
  fire_next-head :
      Option.map p.handler (fire_next p has p.head) ≡ first_with has (hs ++ tail_handler ∷ [])
  unfolding fire_next
  fire_next-head =
      let (cs, c) = k in
      find-Leads p.size p.next p.handler has p.head (cs ++ p.tail ∷ [])
        (omega (arith, c.size, length-append cs (p.tail ∷ []))) c.front.path
      ∙ ap (first_with has)
          (map-append p.handler cs (p.tail ∷ []) ∙ ap₂ (λ a b. a ++ b ∷ []) c.handlers c.ends.1)

  fire_prev-tail :
      Option.map p.handler (fire_prev p has p.tail)
      ≡ first_with has (reverse hs ++ head_handler ∷ [])
  unfolding fire_prev
  fire_prev-tail =
      let (cs, c) = k in
      find-Leads p.size p.prev p.handler has p.tail (reverse cs ++ p.head ∷ [])
        (omega (arith, c.size, length-append (reverse cs) (p.head ∷ []), length-reverse cs))
        c.back.path
      ∙ ap (first_with has) (
          map-append p.handler (reverse cs) (p.head ∷ [])
          ∙ ap₂ (λ a b. a ++ b ∷ []) (map-reverse p.handler cs ∙ ap reverse c.handlers) c.ends.0)

-- On a pipeline that holds the handlers `hs`, a read event reaches the first inbound handler of
-- `hs` and the tail, and a write event the first outbound handler of the reverse of `hs` and the
-- head.
pub fire_channel-order :
    {p : Pipeline} {hs : List Handler}
    → Holds p hs
    → (Option.map p.handler (fire_channel_read p)
        ≡ first_with (λ h. h.inbound) (hs ++ tail_handler ∷ []))
      × (Option.map p.handler (fire_channel_write p)
          ≡ first_with (λ h. h.outbound) (reverse hs ++ head_handler ∷ []))
unfolding fire_channel_read fire_channel_write fire_read fire_write
fire_channel-order k = (fire_next-head k (λ h. h.inbound), fire_prev-tail k (λ h. h.outbound))

-- From a context in the middle, an event goes on to the handlers behind it.
Leads-drop :
    (f : ℕ → Option ℕ) (x : ℕ) (xs : List ℕ) (c : ℕ) (ys : List ℕ)
    → Leads f x (xs ++ c ∷ ys)
    → Leads f c ys
Leads-drop f x [] c ys l = l.1
Leads-drop f x (y ∷ xs) c ys l = Leads-drop f y xs c ys l.1

-- A read event that a context of the pipeline passes on reaches the first inbound handler among
-- those behind that context and the tail.
pub fire_read-onward :
    {p : Pipeline} {hs : List Handler} (before : List ℕ) (c : ℕ) (behind : List ℕ)
    → Contexts p (before ++ c ∷ behind) hs
    → Option.map p.handler (fire_read p c)
      ≡ first_with (λ h. h.inbound) (map p.handler behind ++ tail_handler ∷ [])
unfolding fire_read fire_next
fire_read-onward {p} before c behind k =
    find-Leads p.size p.next p.handler (λ h. h.inbound) c (behind ++ p.tail ∷ [])
      (omega (arith, k.size, length-append before (c ∷ behind), length-append behind (p.tail ∷ [])))
      (Leads-drop p.next p.head before c (behind ++ p.tail ∷ [])
        (subst (Leads p.next p.head) (append_assoc before (c ∷ behind) (p.tail ∷ [])) k.front.path))
    ∙ ap (first_with (λ h. h.inbound)) (
        map-append p.handler behind (p.tail ∷ [])
        ∙ ap (λ b. map p.handler behind ++ b ∷ []) k.ends.1)

-- A list that ends with a handler of the interface has a first one.
first_with-end :
    (has : Handler → Bool) (hs : List Handler) (t : Handler)
    → has t ≡ true
    → (h : Handler) × (first_with has (hs ++ t ∷ []) ≡ some h)
first_with-end has [] t e = (t, rw e)
first_with-end has (h ∷ hs) t e = elim (Bool-cases (has h)) [
  | inl q ↦ (h, rw q)
  | inr q ↦ rw q (first_with-end has hs t e)
]

try_fire_exception-some :
    {p : Pipeline} (panics : ℕ → Bool) (c : ℕ)
    → p.handling_exception ≡ false
    → fire_exception_caught p p.head ≡ some c
    → try_fire_exception panics p
      ≡ (some c, not (panics c), record p { handling_exception = panics c })
unfolding try_fire_exception fire_exception_caught fire_next
try_fire_exception-some {p} panics c idle e = elim (Bool-cases (panics c)) [
  | inl q ↦ rw (idle, e, q) refl
  | inr q ↦ rw (idle, e, q) (ap (λ b. (some c, true, record p { handling_exception = b })) idle)
]

-- On a pipeline that holds the handlers `hs` and handles no exception, `TryFireException` calls the
-- first exception handler of `hs` and the tail, reports success unless that panics, and then stays
-- marked as handling one; on a pipeline that is so marked it calls no handler, and reports failure.
pub try_fire_exception-once :
    {p : Pipeline} {hs : List Handler} (panics : ℕ → Bool)
    → Holds p hs
    → p.handling_exception ≡ false
    → (c : ℕ) × (some (p.handler c) ≡ first_with (λ h. h.exception) (hs ++ tail_handler ∷ []))
      × (try_fire_exception panics p
          ≡ (some c, not (panics c), record p { handling_exception = panics c }))
      × (try_fire_exception panics (record p { handling_exception = true })
          ≡ (none, false, record p { handling_exception = true }))
unfolding try_fire_exception fire_exception_caught
try_fire_exception-once {p} {hs} panics k idle =
    elim (Option-cases (fire_next p (λ h. h.exception) p.head)) [
      | inl e ↦
          let (h, f) = first_with-end (λ h. h.exception) hs tail_handler refl in
          let found = ap (Option.map p.handler) (sym e) ∙ fire_next-head k (λ h. h.exception) ∙ f in
          cc found
      | inr (c, e) ↦ (
        c,
        sym (ap (Option.map p.handler) e) ∙ fire_next-head k (λ h. h.exception),
        try_fire_exception-some panics c idle e,
        refl,
      )
    ]
