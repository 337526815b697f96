-- ===== src/EventLoop.antt =====
-- contribute/agonet/event_loop.go: the connections of an event loop, and the counters that its engine
-- limits them by. A connection is a reference; `raw` tells whether its `rawConn` is there. The user's
-- handler is seen by what its calls give. An `int32` is a number below 2 ^ 32.
pub mod Count
pub mod Steps
pub mod Limit
pub mod Queue
pub mod Sockets
pub mod Settled
pub mod Told
pub mod Down
pub mod Run
mod Tests
use ag_core.Prelude.{
  ℕ, zero, suc, ◌+◌, ◌-◌, ◌%◌, ◌^◌, Bool, true, false, not, ◌&&◌, ◌||◌, Option, none, some, List,
  [], ◌∷◌, ◌==◌, ltb, if◌then◌else◌,
}

-- `Action`, and what a call of the handler gives.
pub data Action : Type 0 where
  no_action close_conn shutdown : Action

pub data Outcome : Type 0 where
  returned : Action → Outcome
  panicked : Outcome

pub data LoopError : Type 0 where
  engine_shutdown write_failed handler_panicked : LoopError

-- `eventloop`, with `totalConn` of its engine.
pub record Loop : Type 0 where
  pub connections : List ℕ
  pub conn_count : ℕ
  pub total_conn : ℕ
  pub raw : ℕ → Bool

-- `atomic.AddInt32` of 1 and of -1, and the test `cur > max` for a `max` that is not negative.
abbrev pub inc_int32 : ℕ → ℕ
inc_int32 n = (n + 1) % 2 ^ 32

abbrev pub dec_int32 : ℕ → ℕ
dec_int32 n = (n + (2 ^ 32 - 1)) % 2 ^ 32

abbrev pub exceeds : ℕ → ℕ → Bool
exceeds cur max = ltb cur (2 ^ 31) && ltb max cur

abbrev pub has_conn : List ℕ → ℕ → Bool
has_conn [] c = false
has_conn (d ∷ ds) c = if d == c then true else has_conn ds c

abbrev pub delete_conn : List ℕ → ℕ → List ℕ
delete_conn [] c = []
delete_conn (d ∷ ds) c = if d == c then delete_conn ds c else d ∷ delete_conn ds c

-- `rawConn.Close` and `release`.
abbrev pub release : Loop → ℕ → Loop
release s c = record s { raw = λ d. if d == c then false else s.raw d }

-- The part of `close` before `OnClose`.
abbrev pub unregister : Loop → ℕ → Loop
unregister s c = record s {
  connections = delete_conn s.connections c;
  conn_count = dec_int32 s.conn_count;
  total_conn = dec_int32 s.total_conn;
}

-- A panic of `OnClose` leaves the action `None`.
abbrev pub close_action : Outcome → Action
close_action (returned a) = a
close_action panicked = no_action

-- `handleAction`; `rec` is the call of `close`.
unfoldable pub handle_action :
    (Loop → Option LoopError × Loop) → Loop → Action → Option LoopError × Loop
handle_action rec s no_action = (none, s)
handle_action rec s close_conn = rec s
handle_action rec s shutdown = (some engine_shutdown, s)

-- `close`. The first argument bounds the calls that its own action leads to.
unfoldable pub close : ℕ → Outcome → ℕ → Loop → Option LoopError × Loop
close zero on_close c s = (none, s)
close (suc k) on_close c s =
    if not (s.raw c && has_conn s.connections c)
    then (none, s)
    else (let (err, s') =
          handle_action (close k on_close c) (unregister s c) (close_action on_close) in
        (err, release s' c))

-- The bound that is enough: the second call finds no connection.
abbrev pub close_rounds : ℕ
close_rounds = 2

abbrev pub register : Loop → ℕ → Loop
register s c = record s { connections = c ∷ s.connections; conn_count = inc_int32 s.conn_count }

-- The part of `open` behind the limit: `write_fails` is for the bytes that `OnOpen` gives.
unfoldable pub opened : Outcome → Outcome → Bool → ℕ → Loop → Option LoopError × Loop
opened on_open on_close write_fails c s = elim on_open [
  | panicked ↦ (none, (close close_rounds on_close c (register s c)).1)
  | returned a ↦
      if write_fails
      then (some write_failed, register s c)
      else handle_action (close close_rounds on_close c) (register s c) a
]

-- `open`, for the limit `max`, 0 for none.
unfoldable pub open_conn : ℕ → Outcome → Outcome → Bool → ℕ → Loop → Option LoopError × Loop
open_conn max on_open on_close write_fails c s =
    if ltb 0 max
    then if exceeds (inc_int32 s.total_conn) max
      then (none, release (record s { total_conn = dec_int32 (inc_int32 s.total_conn) }) c)
      else opened on_open on_close write_fails c (record s { total_conn = inc_int32 s.total_conn })
    else opened on_open on_close write_fails c s

-- `read`, for whether the bytes that are left are too many.
unfoldable pub read : Outcome → Outcome → Bool → ℕ → Loop → Option LoopError × Loop
read on_traffic on_close overflow c s =
    if not (has_conn s.connections c) then (none, s) else elim on_traffic [
      | panicked ↦ close close_rounds on_close c s
      | returned close_conn ↦ close close_rounds on_close c s
      | returned shutdown ↦ (some engine_shutdown, s)
      | returned no_action ↦ if overflow then close close_rounds on_close c s else (none, s)
    ]

-- `wake`; a panic of the handler ends in `safeHandle`.
unfoldable pub wake : Outcome → Outcome → ℕ → Loop → Option LoopError × Loop
wake on_traffic on_close c s =
    if not (has_conn s.connections c) then (none, s) else elim on_traffic [
      | panicked ↦ (some handler_panicked, s)
      | returned a ↦ handle_action (close close_rounds on_close c) s a
    ]
