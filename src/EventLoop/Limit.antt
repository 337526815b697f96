-- ===== src/EventLoop/Limit.antt =====
-- The counters of an event loop and of its engine, over all the steps of
-- contribute/agonet/event_loop.go and of the other loops.
use ag_core.Prelude.{
  ℕ, ◌+◌, ◌^◌, ◌≡◌, ◌≤◌, ◌<◌, refl, Bool, true, false, Option, none, some, arith, ltb, ltb→le,
  lt→ltb, if◌then◌else◌, length, Bool-cases, inl, inr,
}
use ag_core.EventLoop.{
  no_action, close_conn, shutdown, Outcome, returned, panicked, LoopError, Loop, inc_int32,
  dec_int32, exceeds, has_conn, engine_shutdown, handler_panicked, handle_action, close,
  close_rounds, register, opened, open_conn, read, wake,
}
use ag_core.EventLoop.Count.{
  IsDistinct, IsCounted, close-IsCounted, handle_action-IsCounted, register-IsCounted,
  release-IsCounted,
}
use ag_core.EventLoop.Steps.{
  World, count_up, Step, opens, reads, wakes, closes, other_accepts, other_refuses, other_undoes,
  other_closes, Reaches, here, after, start, Holds,
}

within : (max t : ℕ) → t + 1 < 2 ^ 31 → exceeds (inc_int32 t) max ≡ false → t + 1 ≤ max
within max t l e = elim (Bool-cases (ltb max (t + 1))) [
  | inr h ↦ ltb→le max (t + 1) h
  | inl h ↦ absurd (both (rw (same, lt→ltb (t + 1) (2 ^ 31) l, h) refl))
]
  where
    same : inc_int32 t ≡ t + 1
    same = omega arith

    both : exceeds (inc_int32 t) max ≡ true → ⊥
    both f = cc (e, f)

module _ {max loops : ℕ} (limited : 0 < max) (small : max + loops + 1 < 2 ^ 31) where
  opened-IsCounted :
      {others pending : ℕ} (s : Loop) (on_open on_close : Outcome) (write_fails : Bool) (c : ℕ)
      → IsCounted max loops others pending (register s c)
      → IsCounted max loops others pending (opened on_open on_close write_fails c s).1
  unfolding opened
  opened-IsCounted s panicked on_close write_fails c g =
      close-IsCounted small close_rounds on_close c (register s c) g
  opened-IsCounted s (returned a) on_close true c g = g
  opened-IsCounted s (returned a) on_close false c g =
      handle_action-IsCounted small (close close_rounds on_close c) (register s c) a
        (close-IsCounted small close_rounds on_close c (register s c) g) g

  module _ {others pending : ℕ} (s : Loop) (c : ℕ) (g : IsCounted max loops others pending s) where
    low : s.total_conn + 1 < 2 ^ 31
    low = omega (arith, g.total, g.limit, g.refusals)

    open_conn-IsCounted :
        (on_open on_close : Outcome) (write_fails : Bool)
        → has_conn s.connections c ≡ false
        → IsCounted max loops others pending (open_conn max on_open on_close write_fails c s).1
    unfolding open_conn
    open_conn-IsCounted on_open on_close write_fails new =
        elim (Bool-cases (exceeds (inc_int32 s.total_conn) max)) [
          | inl e ↦
              rw (open_conn, lt→ltb 0 max limited, e)
                (release-IsCounted small
                  (record s { total_conn = dec_int32 (inc_int32 s.total_conn) }) c undone)
          | inr e ↦
              rw (open_conn, lt→ltb 0 max limited, e)
                (opened-IsCounted (count_up s) on_open on_close write_fails c
                  (register-IsCounted small s c new (within max s.total_conn low e) g))
        ]
      where
        undone :
            IsCounted max loops others pending
              (record s { total_conn = dec_int32 (inc_int32 s.total_conn) })
        undone = record {
          distinct = g.distinct;
          count = g.count;
          total = omega (arith, low, g.total);
          limit = g.limit;
          refusals = g.refusals;
        }

    read-IsCounted :
        (on_traffic on_close : Outcome) (overflow : Bool)
        → IsCounted max loops others pending (read on_traffic on_close overflow c s).1
    unfolding read
    read-IsCounted on_traffic on_close overflow = elim (Bool-cases (has_conn s.connections c)) [
      | inr e ↦ rw (read, e) g
      | inl e ↦ rw (read, e) (by_outcome on_traffic overflow)
    ]
      where
        closed : IsCounted max loops others pending (close close_rounds on_close c s).1
        closed = close-IsCounted small close_rounds on_close c s g

        by_outcome :
            (o : Outcome) (f : Bool)
            → IsCounted max loops others pending
                (elim o as (λ x. Option LoopError × Loop) [
                  | panicked ↦ close close_rounds on_close c s
                  | returned close_conn ↦ close close_rounds on_close c s
                  | returned shutdown ↦ (some engine_shutdown, s)
                  | returned no_action ↦ if f then close close_rounds on_close c s else (none, s)
                ]).1
        by_outcome panicked f = closed
        by_outcome (returned close_conn) f = closed
        by_outcome (returned shutdown) f = g
        by_outcome (returned no_action) true = closed
        by_outcome (returned no_action) false = g

    wake-IsCounted :
        (on_traffic on_close : Outcome)
        → IsCounted max loops others pending (wake on_traffic on_close c s).1
    unfolding wake
    wake-IsCounted on_traffic on_close = elim (Bool-cases (has_conn s.connections c)) [
      | inr e ↦ rw (wake, e) g
      | inl e ↦ rw (wake, e) (by_outcome on_traffic)
    ]
      where
        by_outcome :
            (o : Outcome)
            → IsCounted max loops others pending
                (elim o as (λ x. Option LoopError × Loop) [
                  | panicked ↦ (some handler_panicked, s)
                  | returned a ↦ handle_action (close close_rounds on_close c) s a
                ]).1
        by_outcome panicked = g
        by_outcome (returned a) =
            handle_action-IsCounted small (close close_rounds on_close c) s a
              (close-IsCounted small close_rounds on_close c s g) g

  Step-Holds : {v w : World} → Step max loops v w → Holds max loops v → Holds max loops w
  Step-Holds (opens {w} on_open on_close write_fails c new) g =
      open_conn-IsCounted w.here c g on_open on_close write_fails new
  Step-Holds (reads {w} on_traffic on_close overflow c) g =
      read-IsCounted w.here c g on_traffic on_close overflow
  Step-Holds (wakes {w} on_traffic on_close c) g = wake-IsCounted w.here c g on_traffic on_close
  Step-Holds (closes {w} on_close c) g = close-IsCounted small close_rounds on_close c w.here g
  Step-Holds (other_accepts {w} e) g =
      let l = low w.here 0 g in
      let m = within max w.here.total_conn l e in
      record {
        distinct = g.distinct;
        count = g.count;
        total = omega (arith, g.total, l);
        limit = omega (arith, g.total, m);
        refusals = g.refusals;
      }
  Step-Holds (other_refuses {w} e h) g =
      let l = low w.here 0 g in
      record {
        distinct = g.distinct;
        count = g.count;
        total = omega (arith, g.total, l);
        limit = g.limit;
        refusals = h;
      }
  Step-Holds (other_undoes {w} h) g =
      let l = low w.here 0 g in
      record {
        distinct = g.distinct;
        count = g.count;
        total = omega (arith, g.total, l);
        limit = g.limit;
        refusals = omega (arith, g.refusals);
      }
  Step-Holds (other_closes {w} h) g =
      let l = low w.here 0 g in
      record {
        distinct = g.distinct;
        count = g.count;
        total = omega (arith, g.total, l);
        limit = omega (arith, g.limit);
        refusals = g.refusals;
      }

  Reaches-Holds : {v w : World} → Reaches max loops v w → Holds max loops v → Holds max loops w
  Reaches-Holds here g = g
  Reaches-Holds (after s r) g = Reaches-Holds r (Step-Holds s g)

  -- For a limit that is not 0 and stays below 2 ^ 31 with the number of the loops and one more, in
  -- every world that the steps reach from the start, whatever the handler gives and however the
  -- other loops use the counter between the steps: the connections of the loop are distinct, its
  -- counter is their number, they and those of the other loops keep the limit, and the counter of
  -- the engine is their sum with the refusals that are under way.
  pub Reaches-start :
      (raw : ℕ → Bool) {w : World}
      → Reaches max loops (start raw) w
      → IsDistinct w.here.connections
        × (w.here.conn_count ≡ length w.here.connections)
        × (length w.here.connections + w.others ≤ max)
        × (w.here.total_conn ≡ length w.here.connections + w.others + w.pending)
  Reaches-start raw {w} r =
      let g = Reaches-Holds r (record {
        distinct = tt;
        count = refl;
        total = refl;
        limit = omega arith;
        refusals = omega arith;
      }) in
      (g.distinct, g.count, g.limit, g.total)
