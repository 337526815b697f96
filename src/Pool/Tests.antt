-- ===== src/Pool/Tests.antt =====
-- The theorems on the pool of ring buffers at concrete pools.
use mathlib.Core.List.Perm
use ag_core.Prelude.{ℕ, ◌*◌, ◌/◌, ◌^◌, ◌≡◌, ◌≤◌, ◌<◌, refl, some, List, [], ◌∷◌, replicate, arith}
use ag_core.Samples.{round_ring, round_ring-IsValid}
use ag_core.Pool.{Pool, index, put}
use ag_core.Pool.Index.{index-fits}
use ag_core.Pool.Kept.{IsGood}
use ag_core.Pool.Put.{MayKeep, put-IsGood}

-- A pool whose next call of a small buffer makes it calibrate.
abbrev busy_pool : Pool
busy_pool = record {
  calls = 42000 ∷ replicate 19 3;
  calibrating = 0;
  default_size = 0;
  max_size = 0;
  pool = [];
}

busy_pool-IsGood : IsGood busy_pool
busy_pool-IsGood = record { calls_length = refl; default_in = omega arith; kept = tt }

abbrev zeros : ℕ → List ℕ
zeros n = replicate n 0

index-fits_example :
    (index 100 < 20)
    × (100 ≤ 33554432 → (100 ≤ 64 * 2 ^ index 100) × ((i : ℕ) → 100 ≤ 64 * 2 ^ i → index 100 ≤ i))
index-fits_example = index-fits 100

put-IsGood_example :
    (p' : Pool) × (put (λ l. l) (λ n. n * 95 / 100) busy_pool round_ring ≡ some p')
    × IsGood p'
    × MayKeep [] p' round_ring
put-IsGood_example =
    put-IsGood (λ l. l) (λ n. n * 95 / 100) (λ l. Perm.rfl) busy_pool round_ring busy_pool-IsGood
      round_ring-IsValid
