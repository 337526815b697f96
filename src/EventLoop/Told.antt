-- ===== src/EventLoop/Told.antt =====
-- What the callbacks of the `openConn`s in the queue are told.
use ag_core.Prelude.{ℕ, zero, suc, ◌≡◌, refl, ap, ap₂, ◌∙◌, true, false, List, [], ◌∷◌, ◌++◌}
use ag_core.EventLoop.{Loop, release}
use ag_core.EventLoop.Queue.{
  Told, Event, error_event, close_event, open_event, read_event, wake_event, func_event,
  handle_event, reject_remaining, drain,
}

-- The connections of the `openConn`s with a callback.
abbrev pub awaited_by : Event → List ℕ
awaited_by (open_event true on_open on_close write_fails c) = c ∷ []
awaited_by _ = []

abbrev pub awaited : List Event → List ℕ
awaited [] = []
awaited (event ∷ events) = awaited_by event ++ awaited events

abbrev pub conns : List (ℕ × Told) → List ℕ
conns [] = []
conns ((c, t) ∷ told) = c ∷ conns told

pub conns-append : (xs ys : List (ℕ × Told)) → conns (xs ++ ys) ≡ conns xs ++ conns ys
conns-append [] ys = refl
conns-append ((c, t) ∷ xs) ys = ap (λ l. c ∷ l) (conns-append xs ys)

pub conns-handle_event :
    (max : ℕ) (event : Event) (s : Loop) → conns (handle_event max event s).2 ≡ awaited_by event
unfolding handle_event
conns-handle_event max (error_event e) s = refl
conns-handle_event max (close_event on_close c) s = refl
conns-handle_event max (open_event true on_open on_close write_fails c) s = refl
conns-handle_event max (open_event false on_open on_close write_fails c) s = refl
conns-handle_event max (read_event on_traffic on_close overflow c) s = refl
conns-handle_event max (wake_event on_traffic on_close c) s = refl
conns-handle_event max (func_event e) s = refl

conns-reject_remaining :
    (events : List Event) (s : Loop) → conns (reject_remaining events s).1 ≡ awaited events
unfolding reject_remaining
conns-reject_remaining [] s = refl
conns-reject_remaining (error_event e ∷ events) s = conns-reject_remaining events s
conns-reject_remaining (close_event on_close c ∷ events) s = conns-reject_remaining events s
conns-reject_remaining (open_event true on_open on_close write_fails c ∷ events) s =
    ap (λ l. c ∷ l) (conns-reject_remaining events (release s c))
conns-reject_remaining (open_event false on_open on_close write_fails c ∷ events) s =
    conns-reject_remaining events (release s c)
conns-reject_remaining (read_event on_traffic on_close overflow c ∷ events) s =
    conns-reject_remaining events s
conns-reject_remaining (wake_event on_traffic on_close c ∷ events) s =
    conns-reject_remaining events s
conns-reject_remaining (func_event e ∷ events) s = conns-reject_remaining events s

pub conns-drain :
    (max more : ℕ) (events : List Event) (s : Loop)
    → conns (drain max more events s).1 ≡ awaited events
unfolding drain
conns-drain max more [] s = refl
conns-drain max zero (event ∷ events) s =
    conns-append (handle_event max event s).2
      (reject_remaining events (handle_event max event s).1).1
    ∙ ap₂ ◌++◌ (conns-handle_event max event s)
        (conns-reject_remaining events (handle_event max event s).1)
conns-drain max (suc more) (event ∷ events) s =
    conns-append (handle_event max event s).2 (drain max more events (handle_event max event s).1).1
    ∙ ap₂ ◌++◌ (conns-handle_event max event s)
        (conns-drain max more events (handle_event max event s).1)
