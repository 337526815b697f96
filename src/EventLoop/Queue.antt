-- ===== src/EventLoop/Queue.antt =====
-- contribute/agonet/event_loop.go: the events in the queue of a loop, and how the loop ends. What the
-- calls of the user's handler give stands in the event. A function of another part of the program is
-- seen by its result. No event arrives while the loop drains its queue, or behind its end.
use ag_core.Prelude.{
  ℕ, zero, suc, Bool, true, false, ◌&&◌, Option, some, List, [], ◌∷◌, ◌++◌, ltb, if◌then◌else◌,
}
use ag_core.EventLoop.{
  Outcome, returned, panicked, LoopError, engine_shutdown, Loop, inc_int32, exceeds, release, close,
  close_rounds, open_conn, read, wake,
}

-- What the callback of an `openConn` is given: nil or one of the errors.
pub data Told : Type 0 where
  told_opened told_rejected told_panicked told_shutdown : Told

-- The types that `handleEvent` distinguishes; a wake is a function that another part sends.
pub data Event : Type 0 where
  error_event : LoopError → Event
  close_event : Outcome → ℕ → Event
  open_event : Bool → Outcome → Outcome → Bool → ℕ → Event
  read_event : Outcome → Outcome → Bool → ℕ → Event
  wake_event : Outcome → Outcome → ℕ → Event
  func_event : Option LoopError → Event

-- The argument of the callback of `open`.
unfoldable pub open_told : ℕ → Outcome → Loop → Told
open_told max on_open s =
    if ltb 0 max && exceeds (inc_int32 s.total_conn) max
    then told_rejected
    else elim on_open [ panicked ↦ told_panicked | returned a ↦ told_opened ]

-- The connections whose callback is called, with its argument.
abbrev pub tell : Bool → ℕ → Told → List (ℕ × Told)
tell true c t = (c, t) ∷ []
tell false c t = []

-- `handleEvent`, with the callbacks.
unfoldable pub handle_event : ℕ → Event → Loop → Option LoopError × Loop × List (ℕ × Told)
handle_event max (error_event e) s = (some e, s, [])
handle_event max (close_event on_close c) s =
    let r = close close_rounds on_close c s in (r.0, r.1, [])
handle_event max (open_event has_cb on_open on_close write_fails c) s =
    let r = open_conn max on_open on_close write_fails c s in
    (r.0, r.1, tell has_cb c (open_told max on_open s))
handle_event max (read_event on_traffic on_close overflow c) s =
    let r = read on_traffic on_close overflow c s in (r.0, r.1, [])
handle_event max (wake_event on_traffic on_close c) s =
    let r = wake on_traffic on_close c s in (r.0, r.1, [])
handle_event max (func_event e) s = (e, s, [])

-- `rejectRemaining`
unfoldable pub reject_remaining : List Event → Loop → Loop × List (ℕ × Told)
reject_remaining [] s = (s, [])
reject_remaining (open_event has_cb on_open on_close write_fails c ∷ events) s =
    let r = reject_remaining events (release s c) in (r.0, tell has_cb c told_shutdown ++ r.1)
reject_remaining (_ ∷ events) s = reject_remaining events s

-- `drain`, where the deadline passes with the event that has `more` before it.
unfoldable pub drain : ℕ → ℕ → List Event → Loop → Loop × List (ℕ × Told)
drain max more [] s = (s, [])
drain max zero (event ∷ events) s =
    let h = handle_event max event s in let r = reject_remaining events h.1 in (r.0, h.2 ++ r.1)
drain max (suc more) (event ∷ events) s =
    let h = handle_event max event s in let r = drain max more events h.1 in (r.0, h.2 ++ r.1)

-- What `run` defers: each connection that is left is closed. The order is that of a map.
unfoldable pub close_all : (ℕ → Outcome) → List ℕ → Loop → Loop
close_all on_close [] s = s
close_all on_close (c ∷ cs) s = close_all on_close cs (close close_rounds (on_close c) c s).1

-- `errors.Is(err, ErrEngineShutdown)`
abbrev pub ends_loop : Option LoopError → Bool
ends_loop (some engine_shutdown) = true
ends_loop _ = false

-- What `run` leaves: the loop, the calls of callbacks, and the events that stay in the queue.
pub record Finished : Type 0 where
  pub loop : Loop
  pub told : List (ℕ × Told)
  pub queued : List Event

-- The `for` of `run`. Of the events that come before it ends, `select` takes `turns` before it takes
-- `ctx.Done`; `drain` gets those behind them.
unfoldable pub run_loop : ℕ → ℕ → ℕ → List Event → Loop → Finished
run_loop max more zero events s =
    let r = drain max more events s in record { loop = r.0; told = r.1; queued = [] }
run_loop max more (suc turns) [] s = record { loop = s; told = []; queued = [] }
run_loop max more (suc turns) (event ∷ events) s =
    let h = handle_event max event s in
    let r = run_loop max more turns events h.1 in
    if ends_loop h.0
    then record { loop = h.1; told = h.2; queued = events }
    else record { loop = r.loop; told = h.2 ++ r.told; queued = r.queued }

-- `run`, with what it defers. The engine that it shuts down there is not part of the loop.
unfoldable pub run_eventloop : ℕ → ℕ → ℕ → (ℕ → Outcome) → List Event → Loop → Finished
run_eventloop max more turns on_close events s =
    let r = run_loop max more turns events s in
    record r { loop = close_all on_close r.loop.connections r.loop }
