-- ===== src/EventLoop/Run.antt =====
-- A run of an event loop, however it ends.
use ag_core.Prelude.{
  ℕ, zero, suc, ◌≡◌, ◌≢◌, refl, sym, ap, ap₂, ◌∙◌, Bool, true, false, not, ◌||◌, Option, none, some,
  List, [], ◌∷◌, ◌++◌, ◌⊎◌, inl, inr, if◌then◌else◌, Bool-cases, ◌==◌, append_assoc, append-nil,
}
use ag_core.EventLoop.{
  Outcome, LoopError, engine_shutdown, write_failed, handler_panicked, Loop, has_conn,
}
use ag_core.EventLoop.Sockets.{IsSound, IsWaiting}
use ag_core.EventLoop.Settled.{IsSettled, any_opens, one_behind, drain-IsSettled}
use ag_core.EventLoop.Told.{awaited, conns, conns-append, conns-handle_event, conns-drain}
use ag_core.EventLoop.Down.{
  left, opens, AreReady, Next, close_all-closes, handle_event-Next, drain-IsSound,
}
use ag_core.EventLoop.Queue.{
  Event, error_event, close_event, open_event, read_event, wake_event, func_event, Finished,
  handle_event, drain, ends_loop, run_loop, run_eventloop,
}

-- None of the first events, as many as there are turns, is handled with `ErrEngineShutdown`.
pub data Goes (max : ℕ) : ℕ → List Event → Loop → Type 0 where
  goes_done : {events : List Event} {s : Loop} → Goes max zero events s
  goes_empty : {turns : ℕ} {s : Loop} → Goes max (suc turns) [] s
  goes_on :
      {turns : ℕ} {event : Event} {events : List Event} {s : Loop}
      → (handle_event max event s).0 ≢ some engine_shutdown
      → Goes max turns events (handle_event max event s).1
      → Goes max (suc turns) (event ∷ events) s

-- One of them is, and the last argument is what stands behind the first such event.
pub data Stops (max : ℕ) : ℕ → List Event → Loop → List Event → Type 0 where
  stops_here :
      {turns : ℕ} {event : Event} {events : List Event} {s : Loop}
      → (handle_event max event s).0 ≡ some engine_shutdown
      → Stops max (suc turns) (event ∷ events) s events
  stops_later :
      {turns : ℕ} {event : Event} {events rest : List Event} {s : Loop}
      → (handle_event max event s).0 ≢ some engine_shutdown
      → Stops max turns events (handle_event max event s).1 rest
      → Stops max (suc turns) (event ∷ events) s rest

-- What holds behind the `for` of `run`.
record Runs (max turns : ℕ) (events : List Event) (s : Loop) (r : Finished) : Type 0 where
  ending : (Goes max turns events s × (r.queued ≡ [])) ⊎ Stops max turns events s r.queued
  called : conns r.told ++ awaited r.queued ≡ awaited events
  next : Next r.queued r.loop
  settled :
      (d : ℕ)
      → ((any_opens events d ≡ true) ⊎ IsSettled d s)
      → (any_opens r.queued d ≡ true) ⊎ IsSettled d r.loop

stopped : (err : Option LoopError) → ends_loop err ≡ true → err ≡ some engine_shutdown
stopped none e = absurd (cc e)
stopped (some engine_shutdown) e = refl
stopped (some write_failed) e = absurd (cc e)
stopped (some handler_panicked) e = absurd (cc e)

goes : (err : Option LoopError) → ends_loop err ≡ false → err ≢ some engine_shutdown
goes err e f = absurd (cc (sym e ∙ ap ends_loop f))

run_loop-Runs :
    (max more turns : ℕ) (events : List Event) (s : Loop)
    → Next events s
    → Runs max turns events s (run_loop max more turns events s)
unfolding run_loop
run_loop-Runs max more zero events s h = record {
  ending = inl (goes_done, refl);
  called = append-nil (conns (drain max more events s).1) ∙ conns-drain max more events s;
  next = (drain-IsSound max more events s h, (tt, λ d e. absurd (cc e)));
  settled = λ d p. inr (drain-IsSettled max more events d s p);
}
run_loop-Runs max more (suc turns) [] s h = record {
  ending = inl (goes_empty, refl);
  called = refl;
  next = h;
  settled = λ d p. p;
}
run_loop-Runs max more (suc turns) (event ∷ events) s h =
    let t = (handle_event max event s).1 in
    let after = handle_event-Next max event events s h in
    elim (Bool-cases (ends_loop (handle_event max event s).0)) [
      | inl e ↦ rw e (record {
        ending = inr (stops_here (stopped (handle_event max event s).0 e));
        called = ap (λ l. l ++ awaited events) (conns-handle_event max event s);
        next = after;
        settled = λ d p. one_behind max event events d s p;
      })
      | inr e ↦
          let r = run_loop max more turns events t in
          let k = run_loop-Runs max more turns events t after in
          rw e (record {
            ending = elim k.ending [
              | inl (g, q) ↦ inl (goes_on (goes (handle_event max event s).0 e) g, q)
              | inr q ↦ inr (stops_later (goes (handle_event max event s).0 e) q)
            ];
            called =
                ap (λ l. l ++ awaited r.queued) (conns-append (handle_event max event s).2 r.told)
                ∙ append_assoc (conns (handle_event max event s).2) (conns r.told)
                    (awaited r.queued)
                ∙ ap₂ ◌++◌ (conns-handle_event max event s) k.called;
            next = k.next;
            settled = λ d p. k.settled d (one_behind max event events d s p);
          })
    ]

has_conn-opens : (events : List Event) (d : ℕ) → has_conn (opens events) d ≡ any_opens events d
has_conn-opens [] d = refl
has_conn-opens (open_event has_cb on_open on_close write_fails c ∷ events) d =
    elim (Bool-cases (c == d)) [ inl e ↦ rw e refl | inr e ↦ rw e (has_conn-opens events d) ]
has_conn-opens (error_event e ∷ events) d = has_conn-opens events d
has_conn-opens (close_event on_close c ∷ events) d = has_conn-opens events d
has_conn-opens (read_event on_traffic on_close overflow c ∷ events) d = has_conn-opens events d
has_conn-opens (wake_event on_traffic on_close c ∷ events) d = has_conn-opens events d
has_conn-opens (func_event e ∷ events) d = has_conn-opens events d

left_waiting : (d : ℕ) (s : Loop) → IsWaiting d s → left s.connections s d ≡ true
left_waiting d s (a, r) = rw a r

settled_left : (d : ℕ) (s : Loop) → IsSettled d s → left s.connections s d ≡ false
settled_left d s p = by_cases (has_conn s.connections d) (s.raw d) p
  where
    by_cases : (a b : Bool) → (a || not b) ≡ true → (if a then false else b) ≡ false
    by_cases true b e = refl
    by_cases false true e = absurd (cc e)
    by_cases false false e = refl

when_registered : (d : ℕ) (s : Loop) → has_conn s.connections d ≡ true → IsSettled d s
when_registered d s e = rw e refl

-- What holds behind a run: how the loop ended, which callbacks were called, that no connection is
-- registered, and whose sockets are open.
pub record Ends (max turns : ℕ) (events : List Event) (s : Loop) (r : Finished) : Type 0 where
  pub ending : (Goes max turns events s × (r.queued ≡ [])) ⊎ Stops max turns events s r.queued
  pub called : conns r.told ++ awaited r.queued ≡ awaited events
  pub closed : r.loop.connections ≡ []
  pub sockets :
      (d : ℕ)
      → ((any_opens events d ≡ true) ⊎ (has_conn s.connections d ≡ true))
      → r.loop.raw d ≡ any_opens r.queued d

-- For every run of an event loop, whenever `select` takes `ctx.Done` and whenever the deadline
-- passes: where the registered connections are distinct and have their sockets, and those of the
-- `openConn`s among the events are distinct, not registered, and have theirs, nothing stays in the
-- queue if no event before `ctx.Done` is handled with `ErrEngineShutdown`, and else exactly what
-- stands behind the first such event; the callback of each `openConn` that does not stay there is
-- called once, in the queue's order; no connection stays registered; and of the connections that
-- were registered or that an `openConn` brought, exactly those of the `openConn`s that stay in the
-- queue have their sockets open.
pub run_eventloop-Ends :
    (max more turns : ℕ) (on_close : ℕ → Outcome) (events : List Event) (s : Loop)
    → IsSound s
    → AreReady events s
    → Ends max turns events s (run_eventloop max more turns on_close events s)
unfolding run_eventloop
run_eventloop-Ends max more turns on_close events s h k =
    let r = run_loop max more turns events s in
    let q = run_loop-Runs max more turns events s (h, k) in
    let (gone, l) =
      close_all-closes on_close r.loop.connections r.loop refl q.next.0.0 q.next.0.1 in
    record {
      ending = q.ending;
      called = q.called;
      closed = gone;
      sockets = λ d e. l d ∙ elim (Bool-cases (any_opens r.queued d)) [
        | inl o ↦ left_waiting d r.loop (q.next.1.1 d (has_conn-opens r.queued d ∙ o)) ∙ sym o
        | inr o ↦ settled_left d r.loop (only_settled d o (q.settled d (settled d e))) ∙ sym o
      ];
    }
  where
    settled :
        (d : ℕ)
        → ((any_opens events d ≡ true) ⊎ (has_conn s.connections d ≡ true))
        → (any_opens events d ≡ true) ⊎ IsSettled d s
    settled d (inl e) = inl e
    settled d (inr e) = inr (when_registered d s e)

    only_settled : {P : Type 0} (d : ℕ) {b : Bool} → b ≡ false → ((b ≡ true) ⊎ P) → P
    only_settled d e (inl f) = absurd (cc (sym e ∙ f))
    only_settled d e (inr p) = p
