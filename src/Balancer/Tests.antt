-- ===== src/Balancer/Tests.antt =====
-- The theorems on the load balancers at concrete event loops.
use ag_core.Prelude.{ℕ, ◌-◌, ◌≡◌, refl, [], ◌∷◌, arith, if◌then◌else◌, ◌==◌}
use ag_core.Balancer.{LoadBalancer, loop, next_least_connections}
use ag_core.Balancer.Laws.{IsFirstLeast, next_least_connections-first}
use ag_core.Balancer.Spread.{calls, calls-round}

-- Three event loops; the counter is at 7.
abbrev three_loops : LoadBalancer
three_loops = record {
  event_loops = 10 ∷ 11 ∷ 12 ∷ [];
  size = 3;
  next_index = 7;
  idx = λ x. x - 10;
}

-- The second and the third have fewest connections.
abbrev connections : ℕ → ℕ
connections x = if x == 10 then 5 else 2

next_least_connections-first_example :
    (m : ℕ) × (next_least_connections connections three_loops ≡ loop m)
    × IsFirstLeast connections (10 ∷ 11 ∷ 12 ∷ []) m
next_least_connections-first_example =
    next_least_connections-first connections three_loops refl (omega arith)

calls-round_example : calls 3 three_loops ≡ loop 11 ∷ loop 12 ∷ loop 10 ∷ []
calls-round_example = calls-round three_loops refl (omega arith) (omega arith)
