-- ===== src/Cache/Again.antt =====
-- A cache that was made is found again.
use ag_core.Prelude.{ℕ, ◌≡◌, refl, sym, Option, none, some, inl, inr, Option-cases}
use mathlib.Core.Path.{subst}
use ag_core.Placeholder.{Text}
use ag_core.Placeholder.Search.{text_eq_refl}
use ag_core.Cache.{
  Manager, find, engine_factory, cached, register_cache, Got, got, not_registered, create_failed,
  get_or_create,
}
use ag_core.Cache.Owned.{register_cache-new}

-- The manager of a result has the cache.
abbrev Has : Text → Got → Type 0
Has name (got m e) = find name m.caches ≡ some e
Has name (not_registered engine) = Unit {0}
Has name (create_failed cache) = Unit {0}

register_cache-Has :
    (m : Manager) (name : Text) (e : ℕ)
    → find name m.caches ≡ none
    → find name (register_cache m name e).manager.caches ≡ some (register_cache m name e).result
register_cache-Has m name e g =
    subst (λ r. find name r.manager.caches ≡ some r.result) (sym (register_cache-new m name e g))
      (rw (text_eq_refl name) refl)

get_or_create-Has :
    (create : ℕ → Text → Option ℕ) (m : Manager) (name : Text)
    → Has name (get_or_create create m name)
unfolding get_or_create cached
get_or_create-Has create m name = elim (Option-cases (find name m.caches)) [
  | inr (e, g) ↦ rw (get_or_create, g) g
  | inl g ↦ rw (get_or_create, g) (of_factory g (engine_factory m m.default_engine))
]
  where
    made :
        (o : Option ℕ)
        → find name m.caches ≡ none
        → Has name (elim o [
          | none ↦ create_failed name
          | some engine ↦
              got (register_cache m name engine).manager (register_cache m name engine).result
        ])
    made none g = tt
    made (some e) g = register_cache-Has m name e g

    of_factory :
        find name m.caches ≡ none
        → (o : Option ℕ)
        → Has name (elim o [
          | none ↦ not_registered m.default_engine
          | some f ↦ elim (create f name) [
            | none ↦ create_failed name
            | some engine ↦
                got (register_cache m name engine).manager (register_cache m name engine).result
          ]
        ])
    of_factory g none = tt
    of_factory g (some f) = made (create f name) g

-- Where a call gives an engine, a later one for the name gives the same, whatever its factory would
-- give, and leaves the manager as it is.
pub get_or_create-again :
    (create create' : ℕ → Text → Option ℕ) (m m' : Manager) (name : Text) (e : ℕ)
    → get_or_create create m name ≡ got m' e
    → get_or_create create' m' name ≡ got m' e
unfolding get_or_create cached
get_or_create-again create create' m m' name e h =
    rw (get_or_create, subst (Has name) h (get_or_create-Has create m name)) refl
