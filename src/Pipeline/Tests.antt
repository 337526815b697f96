-- ===== src/Pipeline/Tests.antt =====
-- The theorems on the pipeline at concrete handlers, and its panics on concrete input.
use ag_core.Prelude.{ℕ, ◌≡◌, refl, true, false, none, some, [], ◌∷◌}
use mathlib.Core.Option
use ag_core.Pipeline.{
  Handler, Pipeline, head_handler, tail_handler, new_pipeline, link, check_handler, is_recognized,
  add_last_all, fire_channel_read, fire_channel_write, try_fire_exception,
}
use ag_core.Pipeline.Linked.{Holds, Contexts, link-end}
use ag_core.Pipeline.Add.{add_last_all-Holds, new_pipeline-Holds, new_pipeline-Contexts}
use ag_core.Pipeline.Fire.{fire_channel-order, try_fire_exception-once}

-- A decoder, an encoder that must not be shared, and a business handler.
abbrev decoder : Handler
decoder = record head_handler { id = 10; inbound = true; outbound = false }

abbrev encoder : Handler
encoder = record head_handler { id = 11; unshareable = true }

abbrev business : Handler
business = record tail_handler { id = 12; inbound = true }

abbrev empty : Pipeline
empty = new_pipeline (λ _. false)

-- The decoder and then the business handler, behind the head.
abbrev loaded : Pipeline
loaded = link (link empty decoder 0 1) business 2 1

loaded-Contexts : Contexts loaded (2 ∷ 3 ∷ []) (decoder ∷ business ∷ [])
unfolding new_pipeline link
loaded-Contexts = link-end (link-end (new_pipeline-Contexts (λ _. false)) decoder) business

add_last_all-Holds_example :
    (p' : Pipeline) × (add_last_all empty (decoder ∷ encoder ∷ []) ≡ some p')
    × Holds p' (decoder ∷ encoder ∷ [])
unfolding new_pipeline check_handler is_recognized
add_last_all-Holds_example =
    add_last_all-Holds {p = empty} {hs = []} (decoder ∷ encoder ∷ [])
      (new_pipeline-Holds (λ _. false)) refl (refl, (refl, tt))

fire_channel-order_example :
    (Option.map loaded.handler (fire_channel_read loaded) ≡ some decoder)
    × (Option.map loaded.handler (fire_channel_write loaded) ≡ some head_handler)
fire_channel-order_example = fire_channel-order {p = loaded} (2 ∷ 3 ∷ [], loaded-Contexts)

try_fire_exception-once_example :
    (c : ℕ) × (some (loaded.handler c) ≡ some business)
    × (try_fire_exception (λ _. true) loaded
        ≡ (some c, false, record loaded { handling_exception = true }))
    × (try_fire_exception (λ _. true) (record loaded { handling_exception = true })
        ≡ (none, false, record loaded { handling_exception = true }))
unfolding new_pipeline link
try_fire_exception-once_example =
    try_fire_exception-once {p = loaded} {hs = decoder ∷ business ∷ []} (λ _. true)
      (2 ∷ 3 ∷ [], loaded-Contexts) refl

-- A handler that only implements `InactiveHandler` is not recognized.
inactive-panics :
    add_last_all empty (record decoder { inbound = false; inactive = true } ∷ []) ≡ none
unfolding add_last_all check_handler is_recognized
inactive-panics = refl
