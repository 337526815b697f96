-- ===== src/Pipeline/Add.antt =====
-- `AddFirst` and `AddLast` on the handlers that a pipeline holds, and `NewPipeline`.
use mathlib.Core.List.{reverse, reverse-cons}
use mathlib.Core.Path.{subst}
use ag_core.Prelude.{
  ℕ, ◌≡◌, refl, ◌∙◌, sym, ap, Bool, true, false, ◌&&◌, Option, some, List, [], ◌∷◌, ◌++◌, arith,
  if◌then◌else◌, append_assoc, append-nil, Bool-cases, inl, inr,
}
use ag_core.Pipeline.{
  Handler, Pipeline, update, new_pipeline, bind_handler, link, link_behind_head, link_before_tail,
  add_first, add_last, add_all, check_handler, add_first_all, add_last_all,
}
use ag_core.Pipeline.Chain.{first, last, first-reverse, Leads-first}
use ag_core.Pipeline.Linked.{Contexts, Holds, link-front, link-end}

-- The flags after a handler is bound.
abbrev pub bind_flag : (ℕ → Bool) → Handler → ℕ → Bool
bind_flag bound h = if h.unshareable then update bound h.id true else bound

-- No handler of the list is bound when its turn comes.
abbrev pub CanBind : (ℕ → Bool) → List Handler → Type 0
CanBind bound [] = Unit {0}
CanBind bound (h ∷ hs) = ((h.unshareable && bound h.id) ≡ false) × CanBind (bind_flag bound h) hs

bind_handler_lem :
    (p : Pipeline) (h : Handler)
    → (h.unshareable && p.bound h.id) ≡ false
    → bind_handler p h ≡ some (record p { bound = bind_flag p.bound h })
unfolding bind_handler
bind_handler_lem p h e = elim (Bool-cases h.unshareable) [
  | inl u ↦ rw (u, unbound u) refl
  | inr u ↦ rw u refl
]
  where
    unbound : h.unshareable ≡ true → p.bound h.id ≡ false
    unbound u = ground (arith, e)

-- Binding changes no context.
bound-Contexts :
    {p : Pipeline} {cs : List ℕ} {hs : List Handler} (bound : ℕ → Bool)
    → Contexts p cs hs
    → Contexts (record p { bound = bound }) cs hs
bound-Contexts bound k = record {
  front = k.front;
  back = k.back;
  handlers = k.handlers;
  ends = k.ends;
  size = k.size;
}

-- What adding one handler gives: a pipeline that holds `hs`, with the flag of `h` set where it has one.
abbrev pub Adds : Option Pipeline → (ℕ → Bool) → List Handler → Type 0
Adds res bound hs = (p' : Pipeline) × (res ≡ some p') × Holds p' hs × (p'.bound ≡ bound)

module _ {p : Pipeline} {hs : List Handler} (k : Holds p hs) (h : Handler)
    (free : (h.unshareable && p.bound h.id) ≡ false) where
  pub add_first-Adds : Adds (add_first p h) (bind_flag p.bound h) (h ∷ hs)
  unfolding add_first link_behind_head
  add_first-Adds =
      let (cs, c) = k in
      let c' = bound-Contexts (bind_flag p.bound h) c in
      (
        link (record p { bound = bind_flag p.bound h }) h p.head (first p.tail cs),
        rw (bind_handler_lem p h free, Leads-first p.next p.head cs p.tail [] c.front.path) refl,
        (p.fresh ∷ cs, link-front c' h),
        unfold link in refl,
      )

  pub add_last-Adds : Adds (add_last p h) (bind_flag p.bound h) (hs ++ h ∷ [])
  unfolding add_last link_before_tail
  add_last-Adds =
      let (cs, c) = k in
      let c' = bound-Contexts (bind_flag p.bound h) c in
      (
        link (record p { bound = bind_flag p.bound h }) h (last p.head cs) p.tail,
        rw
            (
              bind_handler_lem p h free,
              Leads-first p.prev p.tail (reverse cs) p.head [] c.back.path,
              first-reverse p.head cs,
            )
            refl,
        (cs ++ p.fresh ∷ [], link-end c' h),
        unfold link in refl,
      )

add_all-first :
    (new : List Handler) {p : Pipeline} {hs : List Handler}
    → Holds p hs
    → CanBind p.bound new
    → (p' : Pipeline) × (add_all add_first p new ≡ some p') × Holds p' (reverse new ++ hs)
unfolding add_all
add_all-first [] {p} k free = (p, refl, k)
add_all-first (h ∷ new) {p} {hs} k (f, free) =
    let (p₁, e, k₁, b) = add_first-Adds k h f in
    let (p', e', k') = add_all-first new k₁ (subst (λ g. CanBind g new) (sym b) free) in
    (p', rw (e, add_all) e', subst (Holds p') (regroup new h hs) k')
  where
    regroup :
        (new : List Handler) (h : Handler) (hs : List Handler)
        → reverse new ++ h ∷ hs ≡ reverse (h ∷ new) ++ hs
    regroup new h hs =
        sym (ap (λ l. l ++ hs) (reverse-cons h new) ∙ append_assoc (reverse new) (h ∷ []) hs)

add_all-last :
    (new : List Handler) {p : Pipeline} {hs : List Handler}
    → Holds p hs
    → CanBind p.bound new
    → (p' : Pipeline) × (add_all add_last p new ≡ some p') × Holds p' (hs ++ new)
unfolding add_all
add_all-last [] {p} {hs} k free = (p, refl, subst (Holds p) (sym (append-nil hs)) k)
add_all-last (h ∷ new) {p} {hs} k (f, free) =
    let (p₁, e, k₁, b) = add_last-Adds k h f in
    let (p', e', k') = add_all-last new k₁ (subst (λ g. CanBind g new) (sym b) free) in
    (p', rw (e, add_all) e', subst (Holds p') (append_assoc hs (h ∷ []) new) k')

-- On a pipeline that holds the handlers `hs`, `AddFirst` of recognized handlers, none of which is
-- bound when its turn comes, succeeds, and the pipeline holds the new handlers, the last of them
-- first, and then `hs`: along the links forwards and backwards, in contexts that are apart, with
-- the size that they have.
pub add_first_all-Holds :
    {p : Pipeline} {hs : List Handler} (new : List Handler)
    → Holds p hs
    → check_handler new ≡ true
    → CanBind p.bound new
    → (p' : Pipeline) × (add_first_all p new ≡ some p') × Holds p' (reverse new ++ hs)
unfolding add_first_all
add_first_all-Holds new k c free = let (p', e, k') = add_all-first new k free in (p', rw c e, k')

-- On a pipeline that holds the handlers `hs`, `AddLast` of recognized handlers, none of which is
-- bound when its turn comes, succeeds, and the pipeline holds `hs` and then the new handlers in
-- their order: along the links forwards and backwards, in contexts that are apart, with the size
-- that they have.
pub add_last_all-Holds :
    {p : Pipeline} {hs : List Handler} (new : List Handler)
    → Holds p hs
    → check_handler new ≡ true
    → CanBind p.bound new
    → (p' : Pipeline) × (add_last_all p new ≡ some p') × Holds p' (hs ++ new)
unfolding add_last_all
add_last_all-Holds new k c free = let (p', e, k') = add_all-last new k free in (p', rw c e, k')

pub new_pipeline-Contexts : (bound : ℕ → Bool) → Contexts (new_pipeline bound) [] []
unfolding new_pipeline
new_pipeline-Contexts bound = record {
  front = record { path = (refl, refl); distinct = omega arith; below = omega arith };
  back = record { path = (refl, refl); distinct = omega arith; below = omega arith };
  handlers = refl;
  ends = (refl, refl);
  size = refl;
}

pub new_pipeline-Holds : (bound : ℕ → Bool) → Holds (new_pipeline bound) []
new_pipeline-Holds bound = ([], new_pipeline-Contexts bound)
