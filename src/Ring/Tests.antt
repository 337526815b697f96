-- ===== src/Ring/Tests.antt =====
-- The ring buffer's theorems at concrete buffers.
use ag_core.Prelude.{
  min, length, take, ◌++◌, ◌-◌, List, true, ℕ, ◌≡◌, refl, false, [], ◌∷◌, some, arith, replicate,
  length-replicate,
}
use ag_core.Samples.{zeroes, length-zeroes, round_ring, round_ring-IsValid}
use ag_core.Ring.{Buffer, read}
use ag_core.Ring.Write.{write}
use ag_core.Ring.Valid.{IsValid, contents}
use ag_core.Ring.Consume.{Reads, read-Reads}
use ag_core.Ring.Append.{Appends, write-Appends}
use ag_core.Ring.Drain.{Writer, Drained, write_to}
use ag_core.Ring.Drain.Laws.{write_to_lost}

read-Reads_example : Reads round_ring (0 ∷ 0 ∷ 0 ∷ []) (read round_ring (0 ∷ 0 ∷ 0 ∷ []))
read-Reads_example = read-Reads {b = round_ring} (0 ∷ 0 ∷ 0 ∷ []) round_ring-IsValid

write-Appends_example :
    (b' : Buffer) × (write zeroes round_ring (1 ∷ 2 ∷ 3 ∷ []) ≡ some (3, b'))
    × Appends round_ring (1 ∷ 2 ∷ 3 ∷ []) b'
write-Appends_example =
    write-Appends zeroes length-zeroes {b = round_ring} (1 ∷ 2 ∷ 3 ∷ []) round_ring-IsValid
      (omega arith)

-- A full buffer at the threshold.
abbrev full_ring : Buffer
full_ring = record { buf = replicate 4096 0; size = 4096; r = 0; w = 0; is_empty = false }

full_ring-IsValid : IsValid full_ring
full_ring-IsValid = record {
  length_buf = length-replicate {A = ℕ} 4096 0;
  r_in = omega arith;
  w_in = omega arith;
  met = λ h. refl;
  stored = λ h. omega arith;
}

-- A writer that takes the count in its state, or all there is if that is less, and takes nothing
-- more. It keeps what it has taken.
abbrev takes_some : Writer (ℕ × List ℕ)
takes_some p (k, log) =
    (min k (length p), false, (k - min k (length p), log ++ take (min k (length p)) p))

abbrev log_of : ℕ × List ℕ → List ℕ
log_of s = s.1

abbrev takes_none : Writer ℕ
takes_none p s = (0, true, s)

abbrev full_pair : Buffer
full_pair = record { buf = 1 ∷ 2 ∷ []; size = 2; r = 0; w = 0; is_empty = false }

full_pair-IsValid : IsValid full_pair
full_pair-IsValid = record {
  length_buf = refl;
  r_in = omega arith;
  w_in = omega arith;
  met = λ h. refl;
  stored = λ h. omega arith;
}

write_to_lost_example :
    (res : Drained ℕ) × (write_to ℕ takes_none full_pair 0 ≡ some res)
    × (res.n ≡ 0)
    × (contents res.after ≡ [])
write_to_lost_example =
    write_to_lost ℕ takes_none {b = full_pair} 0 (λ p s. refl) full_pair-IsValid refl refl refl
