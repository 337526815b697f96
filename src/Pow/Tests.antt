-- ===== src/Pow/Tests.antt =====
-- The powers of two at a concrete number.
use ag_core.Prelude.{ℕ, ◌≡◌, some, arith}
use ag_core.Pow.{ceil_to_power_of_two}
use ag_core.Pow.Laws.{IsCeil, ceil_to_power_of_two-IsCeil}

ceil_to_power_of_two-IsCeil_example : (c : ℕ) × (ceil_to_power_of_two 1000 ≡ some c) × IsCeil 1000 c
ceil_to_power_of_two-IsCeil_example = ceil_to_power_of_two-IsCeil 1000 (omega arith)
