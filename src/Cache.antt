-- ===== src/Cache.antt =====
-- ag/ag_cache/manager.go: the manager of the named caches. A cache is the engine that it owns, and an
-- engine or a factory is a reference. All caches have one type of values. What `getOrCreate` does
-- under its lock is a function for each of the two times that it takes it; a factory's `Create` stands
-- between them.
pub mod Steps
pub mod Owned
pub mod Again
mod Tests
use ag_core.Prelude.{
  ℕ, Bool, true, false, Option, none, some, List, [], ◌∷◌, ◌++◌, if◌then◌else◌, codes,
}
use ag_core.Placeholder.{Text, is_empty, text_eq}

-- `Manager`, without its lock.
pub record Manager : Type 0 where
  pub default_engine : Text
  pub engine_factories : List (Text × ℕ)
  pub caches : List (Text × ℕ)

-- A lookup in a map.
abbrev pub find : Text → List (Text × ℕ) → Option ℕ
find name [] = none
find name ((key, e) ∷ rest) = if text_eq key name then some e else find name rest

-- `NewManager`, on the default engine of the properties; `none` is nil.
unfoldable pub new_manager : Option Text → Option Manager
new_manager none = none
new_manager (some engine) = some (record {
  default_engine = if is_empty engine then codes "ristretto" else engine;
  engine_factories = [];
  caches = [];
})

-- `SetEngineFactory`
unfoldable pub set_engine_factory : Manager → Text → ℕ → Manager
set_engine_factory m name f = record m { engine_factories = (name, f) ∷ m.engine_factories }

-- `EngineFactory`
unfoldable pub engine_factory : Manager → Text → Option ℕ
engine_factory m name = find name m.engine_factories

abbrev pub engines : List (Text × ℕ) → List ℕ
engines [] = []
engines ((key, e) ∷ rest) = e ∷ engines rest

-- `Close`, with the engines that it closes.
unfoldable pub close_manager : Manager → Manager × List ℕ
close_manager m = (record m { caches = [] }, engines m.caches)

-- `getOrCreate`, the first time under the lock.
unfoldable pub cached : Manager → Text → Option ℕ
cached m name = find name m.caches

-- What the second time under the lock leaves: the manager, the engine of the result, and the engine
-- that is closed.
pub record Registered : Type 0 where
  pub manager : Manager
  pub result : ℕ
  pub dropped : List ℕ

-- `getOrCreate`, the second time under the lock.
unfoldable pub register_cache : Manager → Text → ℕ → Registered
register_cache m name engine = elim (find name m.caches) [
  | some existing ↦ record { manager = m; result = existing; dropped = engine ∷ [] }
  | none ↦ record {
    manager = record m { caches = (name, engine) ∷ m.caches };
    result = engine;
    dropped = [];
  }
]

-- The manager and the engine of the cache, or the error.
pub data Got : Type 0 where
  got : Manager → ℕ → Got
  not_registered : Text → Got
  create_failed : Text → Got

-- `getOrCreate` of a call that nothing interrupts; `create` is the `Create` of a factory.
unfoldable pub get_or_create : (ℕ → Text → Option ℕ) → Manager → Text → Got
get_or_create create m name = elim (cached m name) [
  | some engine ↦ got m engine
  | none ↦ elim (engine_factory m m.default_engine) [
    | none ↦ not_registered m.default_engine
    | some f ↦ elim (create f name) [
      | none ↦ create_failed name
      | some engine ↦
          got (register_cache m name engine).manager (register_cache m name engine).result
    ]
  ]
]
