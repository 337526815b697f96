-- ===== src/EventLoop/Steps.antt =====
-- The steps of an event loop among others of its engine.
use ag_core.Prelude.{ℕ, ◌+◌, ◌-◌, ◌≡◌, ◌≤◌, ◌<◌, Bool, true, false, []}
use ag_core.EventLoop.{
  Outcome, Loop, inc_int32, dec_int32, exceeds, has_conn, close, close_rounds, open_conn, read,
  wake,
}
use ag_core.EventLoop.Count.{IsCounted}

-- A loop, with the connections of the other loops and their refusals that are under way.
pub record World : Type 0 where
  pub here : Loop
  pub others : ℕ
  pub pending : ℕ

abbrev pub count_up : Loop → Loop
count_up s = record s { total_conn = inc_int32 s.total_conn }

abbrev pub count_down : Loop → Loop
count_down s = record s { total_conn = dec_int32 s.total_conn }

-- One event of the loop, for any outcomes of the handler, or one access of another loop to the counter
-- of the engine. Each other loop has one refusal under way at most.
pub data Step (max loops : ℕ) : World → World → Type 0 where
  opens :
      {w : World} (on_open on_close : Outcome) (write_fails : Bool) (c : ℕ)
      → has_conn w.here.connections c ≡ false
      → Step max loops w
          (record w { here = (open_conn max on_open on_close write_fails c w.here).1 })
  reads :
      {w : World} (on_traffic on_close : Outcome) (overflow : Bool) (c : ℕ)
      → Step max loops w (record w { here = (read on_traffic on_close overflow c w.here).1 })
  wakes :
      {w : World} (on_traffic on_close : Outcome) (c : ℕ)
      → Step max loops w (record w { here = (wake on_traffic on_close c w.here).1 })
  closes :
      {w : World} (on_close : Outcome) (c : ℕ)
      → Step max loops w (record w { here = (close close_rounds on_close c w.here).1 })
  other_accepts :
      {w : World}
      → exceeds (inc_int32 w.here.total_conn) max ≡ false
      → Step max loops w (record w { here = count_up w.here; others = w.others + 1 })
  other_refuses :
      {w : World}
      → exceeds (inc_int32 w.here.total_conn) max ≡ true
      → w.pending + 1 ≤ loops
      → Step max loops w (record w { here = count_up w.here; pending = w.pending + 1 })
  other_undoes :
      {w : World}
      → 0 < w.pending
      → Step max loops w (record w { here = count_down w.here; pending = w.pending - 1 })
  other_closes :
      {w : World}
      → 0 < w.others
      → Step max loops w (record w { here = count_down w.here; others = w.others - 1 })

pub data Reaches (max loops : ℕ) : World → World → Type 0 where
  here : {w : World} → Reaches max loops w w
  after : {u v w : World} → Step max loops u v → Reaches max loops v w → Reaches max loops u w

-- No connections, with the sockets that are there.
abbrev pub start : (ℕ → Bool) → World
start raw = record {
  here = record { connections = []; conn_count = 0; total_conn = 0; raw = raw };
  others = 0;
  pending = 0;
}

abbrev pub Holds : ℕ → ℕ → World → Type 0
Holds max loops w = IsCounted max loops w.others w.pending w.here
