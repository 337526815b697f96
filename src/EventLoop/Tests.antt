-- ===== src/EventLoop/Tests.antt =====
-- The theorems on the event loop at concrete connections.
use ag_core.Prelude.{
  ℕ, ◌+◌, ◌-◌, ◌^◌, ◌≡◌, ◌≤◌, refl, ap, ◌∙◌, Bool, true, false, some, List, [], ◌∷◌, inl, inr, ◌==◌,
  ==_iff, Bool-cases, length, arith,
}
use ag_core.EventLoop.{
  Loop, has_conn, no_action, shutdown, returned, panicked, engine_shutdown, release, unregister,
  handle_action, close, opened, open_conn, read, wake,
}
use ag_core.EventLoop.Count.{IsDistinct, close-enough}
use ag_core.EventLoop.Sockets.{IsWaiting}
use ag_core.EventLoop.Queue.{
  Event, open_event, read_event, told_opened, told_shutdown, open_told, handle_event,
  reject_remaining, drain, close_all, run_loop, run_eventloop,
}
use ag_core.EventLoop.Run.{Ends, run_eventloop-Ends}
use ag_core.EventLoop.Steps.{World, opens, other_accepts, Reaches, here, after, start}
use ag_core.EventLoop.Limit.{Reaches-start}

abbrev sockets : ℕ → Bool
sockets c = true

-- One connection of three.
abbrev first : World
first = record (start sockets) {
  here = (open_conn 2 (returned no_action) panicked false 7 (start sockets).here).1;
}

abbrev second : World
second = record first { here = record first.here { total_conn = 2 }; others = 1 }

-- The third is refused.
abbrev third : World
third = record second { here = (open_conn 2 (returned no_action) panicked false 8 second.here).1 }

first_to_third : Reaches 2 4 (start sockets) third
unfolding open_conn opened handle_action
first_to_third =
    after (opens (returned no_action) panicked false 7 refl)
      (after (other_accepts refl) (after (opens (returned no_action) panicked false 8 refl) here))

Reaches-start_example :
    IsDistinct third.here.connections
    × (third.here.conn_count ≡ length third.here.connections)
    × (length third.here.connections + 1 ≤ 2)
    × (third.here.total_conn ≡ length third.here.connections + 1 + 0)
unfolding open_conn opened handle_action
Reaches-start_example =
    Reaches-start {max = 2} {loops = 4} (omega arith) (omega arith) sockets {w = third}
      first_to_third

close-enough_example :
    close 1 (returned shutdown) 7 first.here
    ≡ (some engine_shutdown, release (unregister first.here 7) 7)
unfolding open_conn opened handle_action
close-enough_example = close-enough 0 (returned shutdown) 7 first.here

-- Without a limit, `open` does not count up and `close` counts down.
unlimited_total :
    (close 2 panicked 7
      (open_conn 0 (returned no_action) panicked false 7 (start sockets).here).1).1.total_conn
    ≡ 2 ^ 32 - 1
unfolding open_conn opened handle_action close
unlimited_total = refl

-- A loop with connection 7. The queue brings 8 and 9.
abbrev ending : Loop
ending = record { connections = 7 ∷ []; conn_count = 1; total_conn = 1; raw = sockets }

abbrev queued : List Event
queued =
    open_event true (returned no_action) panicked false 8
    ∷ read_event panicked panicked false 7
    ∷ open_event true (returned no_action) panicked false 9
    ∷ []

-- The same, where the handler asks for the engine's shutdown.
abbrev asking : List Event
asking =
    open_event true (returned no_action) panicked false 8
    ∷ read_event (returned shutdown) panicked false 7
    ∷ open_event true (returned no_action) panicked false 9
    ∷ []

run_eventloop-Ends_example :
    Ends 5 2 asking ending (run_eventloop 5 0 2 (λ c. panicked) asking ending)
run_eventloop-Ends_example =
    run_eventloop-Ends 5 0 2 (λ c. panicked) asking ending ((refl, tt), (refl, tt))
      ((refl, (refl, tt)), waiting)
  where
    waiting : (d : ℕ) → has_conn (8 ∷ 9 ∷ []) d ≡ true → IsWaiting d ending
    waiting d e = elim (Bool-cases (7 == d)) [
      | inr f ↦ (rw f refl, refl)
      | inl f ↦ absurd (cc (ap (has_conn (8 ∷ 9 ∷ [])) ((==_iff 7 d).0 f) ∙ e))
    ]

told_in_time :
    (run_eventloop 5 0 0 (λ c. panicked) queued ending).told
    ≡ (8, told_opened) ∷ (9, told_shutdown) ∷ []
unfolding run_eventloop run_loop drain handle_event reject_remaining open_told
told_in_time = refl

-- The callback of 9 is not called, and its socket stays.
not_told :
    ((run_eventloop 5 0 2 (λ c. panicked) asking ending).told ≡ (8, told_opened) ∷ [])
    × ((run_eventloop 5 0 2 (λ c. panicked) asking ending).loop.raw 9 ≡ true)
unfolding run_eventloop run_loop close_all handle_event open_told open_conn opened handle_action
    read wake close
not_told = (refl, refl)
