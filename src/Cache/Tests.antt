-- ===== src/Cache/Tests.antt =====
-- The theorems on the manager of caches at concrete calls.
use ag_core.Prelude.{refl, [], ◌∷◌, codes}
use ag_core.Cache.{Manager, engine_factory, cached, register_cache}
use ag_core.Cache.Steps.{
  wants, holds, World, misses, creates, registers, Reaches, here, after, start,
}
use ag_core.Cache.Owned.{IsOwned, Reaches-IsOwned}

abbrev manager : Manager
manager = record {
  default_engine = codes "ristretto";
  engine_factories = (codes "ristretto", 3) ∷ [];
  caches = [];
}

-- Two calls for one name create an engine each; the second is closed.
abbrev raced : World
raced = record {
  manager = record manager { caches = (codes "users", 7) ∷ [] };
  calls = [];
  created = 8 ∷ 7 ∷ [];
  closed = 8 ∷ [];
}

race : Reaches (start manager) raced
unfolding cached register_cache engine_factory
race = after (misses (codes "users") refl) (
    after (misses (codes "users") refl) (
      after (creates [] (wants (codes "users") ∷ []) (codes "users") 3 7 refl refl refl) (
        after (creates (holds (codes "users") 7 ∷ []) [] (codes "users") 3 8 refl refl refl) (
          after (registers [] (holds (codes "users") 8 ∷ []) (codes "users") 7 refl)
            (after (registers [] [] (codes "users") 8 refl) here)))))

Reaches-IsOwned_example : IsOwned raced
Reaches-IsOwned_example = Reaches-IsOwned manager raced race
