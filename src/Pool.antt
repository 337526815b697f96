-- ===== src/Pool.antt =====
-- contribute/agonet/pkg/pool/ringbuffer/ringbuffer.go: the pool of ring buffers, with its statistics of
-- sizes. `sync.Pool` hands out any of what it holds, or nothing: `choose` picks a position. `sort` is
-- sort.Sort by descending calls, and `part` the product with `maxPercentile` in `float64`. A panic is
-- `none`. A pool is used by one goroutine at a time here.
pub mod Index
pub mod Kept
pub mod Put
mod Tests
use ag_core.Prelude.{
  ℕ, zero, suc, ◌+◌, ◌-◌, ◌*◌, ◌/◌, ◌%◌, ◌^◌, Bool, true, false, not, ◌||◌, Option, none, some,
  List, [], ◌∷◌, ◌++◌, ◌==◌, ltb, leb, if◌then◌else◌, get_elem?, set, take, drop, replicate,
}
use ag_core.Pow.{bits_len}
use ag_core.Ring.{Buffer, Fresh, new, reset, len, cap}

-- `minBitSize`, `steps`, `minSize` and `calibrateCallsThreshold`
abbrev pub min_bit_size : ℕ
min_bit_size = 6

abbrev pub steps : ℕ
steps = 20

abbrev pub min_size : ℕ
min_size = 64

abbrev pub calibrate_calls_threshold : ℕ
calibrate_calls_threshold = 42000

pub record Pool : Type 0 where
  pub calls : List ℕ
  pub calibrating : ℕ
  pub default_size : ℕ
  pub max_size : ℕ
  pub pool : List Buffer

-- `callSize`
pub record CallSize : Type 0 where
  pub calls : ℕ
  pub size : ℕ

-- `index`, for a length that is not negative.
unfoldable pub index : ℕ → ℕ
index n =
    let m = (n - 1) / 2 ^ min_bit_size in
    let idx = if ltb 0 m then bits_len m else 0 in if leb steps idx then steps - 1 else idx

-- The first loop of `calibrate`: the classes with their calls, and the sum of these.
unfoldable pub call_sizes : ℕ → List ℕ → List CallSize
call_sizes i [] = []
call_sizes i (c ∷ cs) = record { calls = c; size = min_size * 2 ^ i } ∷ call_sizes (i + 1) cs

unfoldable pub calls_sum : ℕ → List ℕ → ℕ
calls_sum sum [] = sum
calls_sum sum (c ∷ cs) = calls_sum ((sum + c) % 2 ^ 64) cs

-- Its second loop: the largest class until the calls pass the limit.
unfoldable pub largest : ℕ → ℕ → ℕ → List CallSize → ℕ
largest max_sum sum max_size [] = max_size
largest max_sum sum max_size (c ∷ cs) =
    let rest =
      largest max_sum ((sum + c.calls) % 2 ^ 64) (if ltb max_size c.size then c.size else max_size)
        cs in
    if ltb max_sum sum then max_size else rest

module _ (sort : List CallSize → List CallSize) (part : ℕ → ℕ) where
  unfoldable pub calibrate : Pool → Option Pool
  calibrate p = if not (p.calibrating == 0) then some p else elim (sort (call_sizes 0 p.calls)) [
    | [] ↦ none
    | ◌∷◌ x xs ↦ some (record p {
      calls = replicate steps 0;
      default_size = x.size;
      max_size = largest (part (calls_sum 0 p.calls)) 0 x.size (x ∷ xs);
    })
  ]

  -- What `Put` does after the statistics.
  unfoldable pub keep : Buffer → Pool → Pool
  keep b p =
      if p.max_size == 0 || leb (cap b) p.max_size then record p { pool = reset b ∷ p.pool } else p

  unfoldable pub put : Pool → Buffer → Option Pool
  put p b = elim (get_elem? p.calls (index (len b))) [
    | none ↦ none
    | some n ↦
        let counted = record p { calls = set p.calls (index (len b)) ((n + 1) % 2 ^ 64) } in
        let measured =
          if ltb calibrate_calls_threshold ((n + 1) % 2 ^ 64)
          then calibrate counted
          else some counted in
        elim measured [ none ↦ none | some p' ↦ some (keep b p') ]
  ]

-- `Get`
module _ (fresh : Fresh) (choose : List Buffer → Option ℕ) where
  unfoldable pub get_new : Pool → Option (Buffer × Pool)
  get_new p = elim (new fresh p.default_size) [ none ↦ none | some b ↦ some (b, p) ]

  unfoldable pub get : Pool → Option (Buffer × Pool)
  get p = elim (choose p.pool) [
    | none ↦ get_new p
    | some i ↦ elim (get_elem? p.pool i) [
      | none ↦ get_new p
      | some b ↦ some (b, record p { pool = take i p.pool ++ drop (i + 1) p.pool })
    ]
  ]
