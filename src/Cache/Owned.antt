-- ===== src/Cache/Owned.antt =====
-- Each engine has one owner.
use ag_core.Prelude.{
  ℕ, suc, ◌+◌, ◌≤◌, ◌≡◌, refl, sym, ap, ◌∙◌, true, false, none, some, List, [], ◌∷◌, ◌++◌, inl, inr,
  arith, ◌==◌, ==_iff, if◌then◌else◌, Bool-cases, Option-cases,
}
use ag_core.Placeholder.{Text, text_eq}
use mathlib.Core.Path.{subst}
use ag_core.WhereClause.Index.{text_eq-eq}
use ag_core.Cache.{
  Manager, Registered, find, engines, set_engine_factory, close_manager, register_cache,
}
use ag_core.Cache.Steps.{
  Call, wants, holds, World, count, Step, misses, creates, fails, registers, closes, sets_factory,
  Reaches, here, after, start,
}

abbrev pub held : List Call → List ℕ
held [] = []
held (wants name ∷ calls) = held calls
held (holds name e ∷ calls) = e ∷ held calls

-- How many caches have the name.
abbrev pub named : Text → List (Text × ℕ) → ℕ
named name [] = 0
named name ((key, e) ∷ rest) = if text_eq key name then suc (named name rest) else named name rest

-- Each engine was created once at most, and as often as that it is held by a call that is under way,
-- owned by a cache, or closed; a name has one cache at most.
abbrev pub IsOwned : World → Type 0
IsOwned w =
    ((e : ℕ) → count e w.created ≤ 1)
    × ((e : ℕ)
        → count e w.created
          ≡ count e (held w.calls) + (count e (engines w.manager.caches) + count e w.closed))
    × ((name : Text) → named name w.manager.caches ≤ 1)

count-append : (e : ℕ) (xs ys : List ℕ) → count e (xs ++ ys) ≡ count e xs + count e ys
count-append e [] ys = omega arith
count-append e (x ∷ xs) ys = elim (Bool-cases (x == e)) [
  | inl f ↦ rw f (omega (arith, count-append e xs ys))
  | inr f ↦ rw f (count-append e xs ys)
]

held-append : (xs ys : List Call) → held (xs ++ ys) ≡ held xs ++ held ys
held-append [] ys = refl
held-append (wants name ∷ xs) ys = held-append xs ys
held-append (holds name e ∷ xs) ys = ap (λ l. e ∷ l) (held-append xs ys)

count-held :
    (e : ℕ) (xs ys : List Call) → count e (held (xs ++ ys)) ≡ count e (held xs) + count e (held ys)
count-held e xs ys = ap (count e) (held-append xs ys) ∙ count-append e (held xs) (held ys)

find-none : (name : Text) (rest : List (Text × ℕ)) → find name rest ≡ none → named name rest ≡ 0
find-none name [] f = refl
find-none name ((key, e) ∷ rest) f = elim (Bool-cases (text_eq key name)) [
  | inl g ↦ absurd (cc (sym (ap (λ b. if b then some e else find name rest) g) ∙ f))
  | inr g ↦ rw g (find-none name rest (sym (ap (λ b. if b then some e else find name rest) g) ∙ f))
]

-- Where the name has no cache yet, one more with it is the only one.
named_one :
    (key name : Text) (e : ℕ) (rest : List (Text × ℕ))
    → find key rest ≡ none
    → named name rest ≤ 1
    → named name ((key, e) ∷ rest) ≤ 1
named_one key name e rest f l = elim (Bool-cases (text_eq key name)) [
  | inl g ↦ rw g (
      omega (
        arith,
        sym (find-none name rest (ap (λ k. find k rest) (sym (text_eq-eq key name g)) ∙ f)),
      ))
  | inr g ↦ rw g l
]

creates-IsOwned :
    (w : World) (pre post : List Call) (name : Text) (e : ℕ)
    → w.calls ≡ pre ++ wants name ∷ post
    → count e w.created ≡ 0
    → IsOwned w
    → IsOwned (record w { calls = pre ++ holds name e ∷ post; created = e ∷ w.created })
creates-IsOwned w pre post name e f h (o, p, q) = (once, same, q)
  where
    once : (x : ℕ) → count x (e ∷ w.created) ≤ 1
    once x = elim (Bool-cases (e == x)) [
      | inl g ↦ rw g (omega (arith, sym (ap (λ y. count y w.created) (sym ((==_iff e x).0 g)) ∙ h)))
      | inr g ↦ rw g (o x)
    ]

    same :
        (x : ℕ)
        → count x (e ∷ w.created)
          ≡ count x (held (pre ++ holds name e ∷ post))
            + (count x (engines w.manager.caches) + count x w.closed)
    same x = elim (Bool-cases (e == x)) [
      | inl g ↦ omega (
        arith,
        p x,
        ap (λ l. count x (held l)) f,
        count-held x pre (wants name ∷ post),
        count-held x pre (holds name e ∷ post),
        counted g w.created,
        counted g (held post),
      )
      | inr g ↦ omega (
        arith,
        p x,
        ap (λ l. count x (held l)) f,
        count-held x pre (wants name ∷ post),
        count-held x pre (holds name e ∷ post),
        not_counted g w.created,
        not_counted g (held post),
      )
    ]
      where
        counted : (e == x) ≡ true → (l : List ℕ) → count x (e ∷ l) ≡ suc (count x l)
        counted g l = rw g refl

        not_counted : (e == x) ≡ false → (l : List ℕ) → count x (e ∷ l) ≡ count x l
        not_counted g l = rw g refl

fails-IsOwned :
    (w : World) (pre post : List Call) (name : Text)
    → w.calls ≡ pre ++ wants name ∷ post
    → IsOwned w
    → IsOwned (record w { calls = pre ++ post })
fails-IsOwned w pre post name f (o, p, q) = (
  o,
  λ x. omega (
    arith,
    p x,
    ap (λ l. count x (held l)) f,
    count-held x pre (wants name ∷ post),
    count-held x pre post,
  ),
  q,
)

pub register_cache-new :
    (m : Manager) (name : Text) (e : ℕ)
    → find name m.caches ≡ none
    → register_cache m name e
      ≡ record { manager = record m { caches = (name, e) ∷ m.caches }; result = e; dropped = [] }
unfolding register_cache
register_cache-new m name e g = rw (register_cache, g) refl

register_cache-old :
    (m : Manager) (name : Text) (e x : ℕ)
    → find name m.caches ≡ some x
    → register_cache m name e ≡ record { manager = m; result = x; dropped = e ∷ [] }
unfolding register_cache
register_cache-old m name e x g = rw (register_cache, g) refl

-- The world behind the second time under the lock.
abbrev behind : World → List Call → List Call → Registered → World
behind w pre post r = record w {
  manager = r.manager;
  calls = pre ++ post;
  closed = r.dropped ++ w.closed;
}

registers-IsOwned :
    (w : World) (pre post : List Call) (name : Text) (e : ℕ)
    → w.calls ≡ pre ++ holds name e ∷ post
    → IsOwned w
    → IsOwned (behind w pre post (register_cache w.manager name e))
registers-IsOwned w pre post name e f (o, p, q) = elim (Option-cases (find name w.manager.caches)) [
  | inl g ↦
      subst (λ r. IsOwned (behind w pre post r)) (sym (register_cache-new w.manager name e g))
        (
          o,
          λ x. omega (arith, before x, count-append x (e ∷ []) (engines w.manager.caches)),
          λ key. named_one name key e w.manager.caches g (q key),
        )
  | inr (y, g) ↦
      subst (λ r. IsOwned (behind w pre post r)) (sym (register_cache-old w.manager name e y g))
        (o, λ x. omega (arith, before x, count-append x (e ∷ []) w.closed), q)
]
  where
    before :
        (x : ℕ)
        → count x w.created
          ≡ (count x (held (pre ++ post)) + count x (e ∷ []))
            + (count x (engines w.manager.caches) + count x w.closed)
    before x = omega (
      arith,
      p x,
      ap (λ l. count x (held l)) f,
      count-held x pre (holds name e ∷ post),
      count-held x pre post,
      count-append x (e ∷ []) (held post),
    )

Step-IsOwned : (w w' : World) → Step w w' → IsOwned w → IsOwned w'
unfolding close_manager set_engine_factory
Step-IsOwned w _ (misses name h) (o, p, q) = (o, p, q)
Step-IsOwned w _ (creates pre post name factory e f g h) k = creates-IsOwned w pre post name e f h k
Step-IsOwned w _ (fails pre post name f) k = fails-IsOwned w pre post name f k
Step-IsOwned w _ (registers pre post name e f) k = registers-IsOwned w pre post name e f k
Step-IsOwned w _ closes (o, p, q) = (
  o,
  λ x. omega (arith, p x, count-append x (engines w.manager.caches) w.closed),
  λ name. omega arith,
)
Step-IsOwned w _ (sets_factory name factory) (o, p, q) = (o, p, q)

-- In every world that calls of `getOrCreate`, `Close` and `SetEngineFactory` reach from a manager
-- without caches, in any order of their steps, where a factory never gives one engine twice: each
-- engine was created once at most, and it is held by one call that is under way, or is the engine
-- of one cache, or was closed once; and no two caches have one name.
pub Reaches-IsOwned : (m : Manager) (w : World) → Reaches (start m) w → IsOwned w
Reaches-IsOwned m w r = along (start m) w r (λ e. omega arith, λ e. refl, λ name. omega arith)
  where
    along : (u v : World) → Reaches u v → IsOwned u → IsOwned v
    along u _ here k = k
    along u _ (after {v = v} s r') k = along v _ r' (Step-IsOwned u v s k)
