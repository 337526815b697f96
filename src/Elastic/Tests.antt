-- ===== src/Elastic/Tests.antt =====
-- The elastic buffer's theorems at a buffer whose queue goes round the end.
use ag_core.Prelude.{◌≡◌, [], ◌∷◌, ◌++◌, some, arith}
use ag_core.Prelude.Int.{pos}
use ag_core.Samples.{zeroes, length-zeroes, bare_pool, round_elastic, round_elastic-IsOpen}
use ag_core.Elastic.{Elastic, instance_of, peek, write}
use ag_core.Elastic.Refine.{queue, IsOpen, peek-queue, write-appends}

peek-queue_example :
    (peek bare_pool round_elastic (pos 3)).0 ++ (peek bare_pool round_elastic (pos 3)).1
    ≡ 16 ∷ 17 ∷ 10 ∷ []
peek-queue_example = peek-queue bare_pool round_elastic 2 round_elastic-IsOpen

write-appends_example :
    (e' : Elastic bare_pool) × (write bare_pool zeroes round_elastic (1 ∷ 2 ∷ []) ≡ some (2, e'))
    × (queue bare_pool e' ≡ 16 ∷ 17 ∷ 10 ∷ 11 ∷ 1 ∷ 2 ∷ [])
    × IsOpen bare_pool e'
write-appends_example =
    write-appends bare_pool zeroes length-zeroes round_elastic (1 ∷ 2 ∷ []) round_elastic-IsOpen
      (unfold instance_of in omega arith)
