-- ===== src/Cache/Steps.antt =====
-- Calls of `getOrCreate` that run side by side, with `Close` and `SetEngineFactory` among them.
use ag_core.Prelude.{ℕ, ◌≡◌, ◌==◌, none, some, List, [], ◌∷◌, ◌++◌, suc, if◌then◌else◌}
use ag_core.Placeholder.{Text}
use ag_core.Cache.{
  Manager, set_engine_factory, engine_factory, close_manager, cached, register_cache,
}

-- A call between its two times under the lock: before and behind the factory's `Create`.
pub data Call : Type 0 where
  wants : Text → Call
  holds : Text → ℕ → Call

-- The manager, the calls that are under way, and all engines that were created and closed.
pub record World : Type 0 where
  pub manager : Manager
  pub calls : List Call
  pub created : List ℕ
  pub closed : List ℕ

abbrev pub count : ℕ → List ℕ → ℕ
count e [] = 0
count e (x ∷ xs) = if x == e then suc (count e xs) else count e xs

pub data Step : World → World → Type 0 where
  misses :
      {w : World} (name : Text)
      → cached w.manager name ≡ none
      → Step w (record w { calls = wants name ∷ w.calls })
  -- The factory gives an engine that it did not give before.
  creates :
      {w : World} (before after : List Call) (name : Text) (factory e : ℕ)
      → w.calls ≡ before ++ wants name ∷ after
      → engine_factory w.manager w.manager.default_engine ≡ some factory
      → count e w.created ≡ 0
      → Step w (record w { calls = before ++ holds name e ∷ after; created = e ∷ w.created })
  -- No factory is registered, or its `Create` fails.
  fails :
      {w : World} (before after : List Call) (name : Text)
      → w.calls ≡ before ++ wants name ∷ after
      → Step w (record w { calls = before ++ after })
  registers :
      {w : World} (before after : List Call) (name : Text) (e : ℕ)
      → w.calls ≡ before ++ holds name e ∷ after
      → Step w (record w {
        manager = (register_cache w.manager name e).manager;
        calls = before ++ after;
        closed = (register_cache w.manager name e).dropped ++ w.closed;
      })
  closes :
      {w : World}
      → Step w (record w {
        manager = (close_manager w.manager).0;
        closed = (close_manager w.manager).1 ++ w.closed;
      })
  sets_factory :
      {w : World} (name : Text) (factory : ℕ)
      → Step w (record w { manager = set_engine_factory w.manager name factory })

pub data Reaches : World → World → Type 0 where
  here : {w : World} → Reaches w w
  after : {u v w : World} → Step u v → Reaches v w → Reaches u w

-- A manager without caches, and no call.
abbrev pub start : Manager → World
start m = record { manager = record m { caches = [] }; calls = []; created = []; closed = [] }
