-- ===== src/Conn/Tests.antt =====
-- The connection's theorems at a connection with bytes in both of its buffers.
use ag_core.Prelude.{ℕ, List, [], ◌∷◌, arith, refl}
use ag_core.Prelude.Int.{pos}
use ag_core.Samples.{bare_pool, round_conn, round_elastic-IsOpen}
use ag_core.Conn.{read, next}
use ag_core.Conn.Stream.{ReadsStream, read-ReadsStream}
use ag_core.Conn.Take.{Takes, next-Takes}

abbrev five : List ℕ
five = 0 ∷ 0 ∷ 0 ∷ 0 ∷ 0 ∷ []

read-ReadsStream_example :
    ReadsStream bare_pool
      (16 ∷ 17 ∷ 10 ∷ 11 ∷ 20 ∷ 21 ∷ 22 ∷ [])
      five
      (read bare_pool round_conn five)
read-ReadsStream_example = read-ReadsStream bare_pool round_conn five refl round_elastic-IsOpen

next-Takes_example :
    Takes bare_pool round_conn refl round_elastic-IsOpen 5 (next bare_pool round_conn (pos 5))
next-Takes_example = next-Takes bare_pool round_conn refl round_elastic-IsOpen 5 (omega arith)
