-- ===== src/Balancer.antt =====
-- contribute/agonet/load_balancer.go: the set of event loops that the acceptor hands connections to.
-- An event loop is a reference; its field `idx` is a function of it.
pub mod Laws
pub mod Spread
mod Tests
use ag_core.Prelude.{
  ℕ, suc, ◌+◌, ◌%◌, ◌^◌, Bool, true, false, Option, none, some, List, [], ◌∷◌, ◌++◌, ◌==◌, ltb, leb,
  if◌then◌else◌, get_elem?,
}
use ag_core.Prelude.Int.{ℤ, pos, negsuc}

-- `baseLoadBalancer`, with `nextIndex` of `roundRobinLoadBalancer`.
pub record LoadBalancer : Type 0 where
  pub event_loops : List ℕ
  pub size : ℕ
  pub next_index : ℕ
  pub idx : ℕ → ℕ

pub new_load_balancer : (ℕ → ℕ) → LoadBalancer
new_load_balancer idx = record { event_loops = []; size = 0; next_index = 0; idx = idx }

unfoldable pub register : LoadBalancer → ℕ → LoadBalancer
register lb el = record lb {
  event_loops = lb.event_loops ++ el ∷ [];
  size = lb.size + 1;
  idx = λ x. if x == el then lb.size else lb.idx x;
}

-- What a lookup gives: an event loop, `nil`, or a panic.
pub data Chosen : Type 0 where
  nothing : Chosen
  loop : ℕ → Chosen
  panicked : Chosen

-- `lb.eventLoops[i]`
unfoldable pub loop_at : LoadBalancer → ℕ → Chosen
loop_at lb i = elim (get_elem? lb.event_loops i) [ none ↦ panicked | some x ↦ loop x ]

unfoldable pub index : LoadBalancer → ℤ → Chosen
index lb (pos i) = if leb lb.size i then nothing else loop_at lb i
index lb (negsuc i) = panicked

-- `iterate`: the calls of the function, up to the first that returns false.
unfoldable pub iterate_from : (ℕ → ℕ → Bool) → ℕ → List ℕ → List (ℕ × ℕ)
iterate_from f i [] = []
iterate_from f i (x ∷ xs) =
    let rest = iterate_from f (i + 1) xs in if f i x then (i, x) ∷ rest else (i, x) ∷ []

unfoldable pub iterate : LoadBalancer → (ℕ → ℕ → Bool) → List (ℕ × ℕ)
iterate lb f = iterate_from f 0 lb.event_loops

-- `roundRobinLoadBalancer.next`; the counter is a `uint64`.
unfoldable pub next_round_robin : LoadBalancer → Chosen × LoadBalancer
next_round_robin lb = if lb.size == 0 then (nothing, lb) else (
  loop_at lb (lb.next_index % lb.size),
  record lb { next_index = (lb.next_index + 1) % 2 ^ 64 },
)

-- The loop of `leastConnectionsLoadBalancer.next`; `count` is `countConn` of an event loop.
unfoldable pub least : (ℕ → ℕ) → ℕ → ℕ → List ℕ → ℕ
least count el min_n [] = el
least count el min_n (v ∷ vs) =
    if ltb (count v) min_n then least count v (count v) vs else least count el min_n vs

unfoldable pub next_least_connections : (ℕ → ℕ) → LoadBalancer → Chosen
next_least_connections count lb =
    if lb.size == 0
    then nothing
    else elim lb.event_loops [ [] ↦ panicked | ◌∷◌ x xs ↦ loop (least count x (count x) xs) ]
