-- ===== src/Samples.antt =====
-- The data that the tests run on: a pool with no state that hands out buffers without storage, a
-- buffer whose queue goes round the end, and a connection that holds it.
use ag_core.Prelude.{
  ℕ, ◌≡◌, refl, true, false, [], ◌∷◌, some, arith, length, replicate, length-replicate,
}
use ag_core.Ring.{Buffer, Fresh}
use ag_core.Ring.Valid.{IsValid}
use ag_core.Elastic.{RingPool, Elastic}
use ag_core.Elastic.Refine.{IsOpen}
use ag_core.Conn.{Conn}

abbrev pub zeroes : Fresh
zeroes n = replicate n 0

pub length-zeroes : (n : ℕ) → length (zeroes n) ≡ n
length-zeroes n = length-replicate n 0

abbrev pub bare_ring : Buffer
bare_ring = record { buf = []; size = 0; r = 0; w = 0; is_empty = true }

abbrev pub round_ring : Buffer
round_ring = record {
  buf = 10 ∷ 11 ∷ 12 ∷ 13 ∷ 14 ∷ 15 ∷ 16 ∷ 17 ∷ [];
  size = 8;
  r = 6;
  w = 2;
  is_empty = false;
}

pub bare_ring-IsValid : IsValid bare_ring
bare_ring-IsValid = record {
  length_buf = refl;
  r_in = omega arith;
  w_in = omega arith;
  met = λ h. refl;
  stored = λ h. ground arith;
}

pub round_ring-IsValid : IsValid round_ring
round_ring-IsValid = record {
  length_buf = refl;
  r_in = omega arith;
  w_in = omega arith;
  met = λ h. ground arith;
  stored = λ h. omega arith;
}

abbrev pub bare_pool : RingPool
bare_pool = record {
  State = Unit {0};
  get = λ s. (bare_ring, s);
  put = λ b s. s;
  IsGood = λ s. Unit {0};
  get-IsValid = λ s g. bare_ring-IsValid;
  get-empty = λ s g. refl;
  get-IsGood = λ s g. g;
  put-IsGood = λ b s v g. g;
}

abbrev pub round_elastic : Elastic bare_pool
round_elastic = record { rb = some round_ring; pool = tt }

pub round_elastic-IsOpen : IsOpen bare_pool round_elastic
round_elastic-IsOpen = record { ring = round_ring-IsValid; pool = tt }

abbrev pub round_conn : Conn bare_pool
round_conn = record {
  is_open = true;
  inbound = round_elastic;
  buffer = 20 ∷ 21 ∷ 22 ∷ [];
  cache = [];
}
