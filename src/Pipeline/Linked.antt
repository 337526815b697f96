-- ===== src/Pipeline/Linked.antt =====
-- What a pipeline holds: its handlers in their order, along `next` and, backwards, along `prev`; and
-- what adding a handler does to them.
use mathlib.Core.List.{reverse, reverse-cons, reverse-append}
use mathlib.Core.Path.{subst}
use ag_core.Prelude.{
  ℕ, ◌+◌, ◌≡◌, ◌≢◌, ◌<◌, refl, ◌∙◌, sym, ap, ap₂, Option, some, List, [], ◌∷◌, ◌++◌, map, arith,
  ==_eq, ==_ne, length, length-append, append_assoc,
}
use ag_core.Pipeline.{Handler, Pipeline, update, head_handler, tail_handler, link}
use ag_core.Pipeline.Chain.{
  Leads, IsDistinct, Below, first, last, first-reverse, last-reverse, Below-Apart, Below-suc,
  Below-insert, IsDistinct-insert, Leads-insert, map-agree,
}

-- One direction: `f` leads from `x` through `xs` to `z`, at addresses that are apart and below `n`.
pub record Side (f : ℕ → Option ℕ) (x : ℕ) (xs : List ℕ) (z : ℕ) (n : ℕ) : Type 0 where
  pub path : Leads f x (xs ++ z ∷ [])
  pub distinct : IsDistinct (x ∷ (xs ++ z ∷ []))
  pub below : Below n (x ∷ (xs ++ z ∷ []))

-- The stores that put a new context `n` behind `a` and in front of `b`.
abbrev linked_in : (ℕ → Option ℕ) → ℕ → ℕ → ℕ → ℕ → Option ℕ
linked_in f n a b = update (update f n (some b)) a (some n)

module _ (f : ℕ → Option ℕ) (n a b : ℕ) (h : a < n) where
  linked_in-before : linked_in f n a b a ≡ some n
  linked_in-before = rw (==_eq {a = a} refl) refl

  linked_in-new : linked_in f n a b n ≡ some b
  linked_in-new = rw (==_ne {a = n} {b = a} (omega arith), ==_eq {a = n} refl) refl

  linked_in-other : (c : ℕ) → a ≢ c → n ≢ c → linked_in f n a b c ≡ f c
  linked_in-other c p q =
      rw (==_ne {a = c} {b = a} (λ e. p (sym e)), ==_ne {a = c} {b = n} (λ e. q (sym e))) refl

Below-last : (n x : ℕ) (xs zs : List ℕ) → Below n (x ∷ (xs ++ zs)) → last x xs < n
Below-last n x [] zs (h, b) = h
Below-last n x (y ∷ ys) zs (h, b) = Below-last n y ys zs b

Side-end :
    {f : ℕ → Option ℕ} {x : ℕ} {xs : List ℕ} {z n : ℕ}
    → Side f x xs z n
    → Side (linked_in f n (last x xs) z) x (xs ++ n ∷ []) z (n + 1)
Side-end {f} {x} {xs} {z} {n} s = record {
  path = subst (Leads (linked_in f n (last x xs) z) x) regroup (
      Leads-insert f (linked_in f n (last x xs) z) n x xs z []
        (linked_in-before f n (last x xs) z low) (linked_in-new f n (last x xs) z low)
        (linked_in-other f n (last x xs) z low) s.distinct
        (Below-Apart n (x ∷ (xs ++ z ∷ [])) s.below) s.path);
  distinct =
      subst (λ l. IsDistinct (x ∷ l)) regroup
        (IsDistinct-insert n (x ∷ xs) (z ∷ []) (Below-Apart n (x ∷ (xs ++ z ∷ [])) s.below)
          s.distinct);
  below =
      subst (λ l. Below (n + 1) (x ∷ l)) regroup
        (Below-insert (n + 1) n (x ∷ xs) (z ∷ []) (omega arith)
          (Below-suc n (x ∷ (xs ++ z ∷ [])) s.below));
}
  where
    regroup : xs ++ (n ∷ z ∷ []) ≡ (xs ++ n ∷ []) ++ z ∷ []
    regroup = sym (append_assoc xs (n ∷ []) (z ∷ []))

    low : last x xs < n
    low = Below-last n x xs (z ∷ []) s.below

Side-front :
    {f : ℕ → Option ℕ} {x : ℕ} (xs : List ℕ) {z n : ℕ}
    → Side f x xs z n
    → Side (linked_in f n x (first z xs)) x (n ∷ xs) z (n + 1)
Side-front {f} {x} xs {z} {n} s = record {
  path = go xs s.path s.distinct s.below;
  distinct =
      IsDistinct-insert n (x ∷ []) (xs ++ z ∷ []) (Below-Apart n (x ∷ (xs ++ z ∷ [])) s.below)
        s.distinct;
  below =
      Below-insert (n + 1) n (x ∷ []) (xs ++ z ∷ []) (omega arith)
        (Below-suc n (x ∷ (xs ++ z ∷ [])) s.below);
}
  where
    go :
        (xs : List ℕ)
        → Leads f x (xs ++ z ∷ [])
        → IsDistinct (x ∷ (xs ++ z ∷ []))
        → Below n (x ∷ (xs ++ z ∷ []))
        → Leads (linked_in f n x (first z xs)) x (n ∷ (xs ++ z ∷ []))
    go [] l d b =
        Leads-insert f (linked_in f n x z) n x [] z [] (linked_in-before f n x z b.0)
          (linked_in-new f n x z b.0) (linked_in-other f n x z b.0) d (Below-Apart n (x ∷ z ∷ []) b)
          l
    go (y ∷ ys) l d b =
        Leads-insert f (linked_in f n x y) n x [] y (ys ++ z ∷ []) (linked_in-before f n x y b.0)
          (linked_in-new f n x y b.0) (linked_in-other f n x y b.0) d
          (Below-Apart n (x ∷ (y ∷ ys ++ z ∷ [])) b) l

-- The contexts `cs` between head and tail hold the handlers `hs`.
pub record Contexts (p : Pipeline) (cs : List ℕ) (hs : List Handler) : Type 0 where
  pub front : Side p.next p.head cs p.tail p.fresh
  pub back : Side p.prev p.tail (reverse cs) p.head p.fresh
  pub handlers : map p.handler cs ≡ hs
  pub ends : (p.handler p.head ≡ head_handler) × (p.handler p.tail ≡ tail_handler)
  pub size : p.size ≡ length cs + 2

-- A pipeline is well formed, and its handlers are `hs`.
abbrev pub Holds : Pipeline → List Handler → Type 0
Holds p hs = (cs : List ℕ) × Contexts p cs hs

Below-drop_end : (n : ℕ) (xs ys : List ℕ) → Below n (xs ++ ys) → Below n xs
Below-drop_end n [] ys b = tt
Below-drop_end n (x ∷ xs) ys (h, b) = (h, Below-drop_end n xs ys b)

Below-end : (n : ℕ) (xs : List ℕ) (z : ℕ) → Below n (xs ++ z ∷ []) → z < n
Below-end n [] z b = b.0
Below-end n (x ∷ xs) z b = Below-end n xs z b.1

module _ {p : Pipeline} {cs : List ℕ} {hs : List Handler} (k : Contexts p cs hs) (h : Handler) where
  kept : (a : ℕ) → a < p.fresh → update p.handler p.fresh h a ≡ p.handler a
  kept a l = rw (==_ne {a = a} {b = p.fresh} (omega arith)) refl

  kept_all : map (update p.handler p.fresh h) cs ≡ hs
  kept_all =
      map-agree p.handler (update p.handler p.fresh h) p.fresh kept cs
        (Below-drop_end p.fresh cs (p.tail ∷ []) k.front.below.1)
      ∙ k.handlers

  new_handler : update p.handler p.fresh h p.fresh ≡ h
  new_handler = rw (==_eq {a = p.fresh} refl) refl

  kept_ends :
      (update p.handler p.fresh h p.head ≡ head_handler)
      × (update p.handler p.fresh h p.tail ≡ tail_handler)
  kept_ends = (
    kept p.head k.front.below.0 ∙ k.ends.0,
    kept p.tail (Below-end p.fresh cs p.tail k.front.below.1) ∙ k.ends.1,
  )

  pub link-front : Contexts (link p h p.head (first p.tail cs)) (p.fresh ∷ cs) (h ∷ hs)
  unfolding link
  link-front = record {
    front = Side-front cs k.front;
    back =
        subst
          (λ l.
            Side (linked_in p.prev p.fresh (first p.tail cs) p.head) p.tail l p.head (p.fresh + 1))
          (sym (reverse-cons p.fresh cs))
          (subst
            (λ a.
              Side (linked_in p.prev p.fresh a p.head) p.tail (reverse cs ++ p.fresh ∷ []) p.head
                (p.fresh + 1))
            (last-reverse p.tail cs) (Side-end k.back));
    handlers = ap₂ ◌∷◌ new_handler kept_all;
    ends = kept_ends;
    size = omega (arith, k.size);
  }

  pub link-end : Contexts (link p h (last p.head cs) p.tail) (cs ++ p.fresh ∷ []) (hs ++ h ∷ [])
  unfolding link
  link-end = record {
    front = Side-end k.front;
    back =
        subst
          (λ l.
            Side (linked_in p.prev p.fresh p.tail (last p.head cs)) p.tail l p.head (p.fresh + 1))
          (sym (reverse-append cs (p.fresh ∷ [])))
          (subst
            (λ a.
              Side (linked_in p.prev p.fresh p.tail a) p.tail (p.fresh ∷ reverse cs) p.head
                (p.fresh + 1))
            (first-reverse p.head cs) (Side-front (reverse cs) k.back));
    handlers = map-end cs ∙ ap₂ (λ a b. a ++ b ∷ []) kept_all new_handler;
    ends = kept_ends;
    size = omega (arith, k.size, length-append cs (p.fresh ∷ []));
  }
    where
      map-end :
          (xs : List ℕ)
          → map (update p.handler p.fresh h) (xs ++ p.fresh ∷ [])
            ≡ map (update p.handler p.fresh h) xs ++ update p.handler p.fresh h p.fresh ∷ []
      map-end [] = refl
      map-end (x ∷ xs) = ap (λ l. update p.handler p.fresh h x ∷ l) (map-end xs)
