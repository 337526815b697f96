-- ===== src/Ring/Drain.antt =====
-- contribute/agonet/pkg/buffer/ring/ring_buffer.go: `WriteTo`. The `io.Writer` is a parameter: for the
-- bytes that it is given and its state, the count it reports, whether it fails, and its state after it.
pub mod Given
pub mod Branches
pub mod Laws
use ag_core.Prelude.{
  ℕ, ◌+◌, ◌-◌, ◌%◌, Bool, Option, none, some, List, ltb, leb, if◌then◌else◌, take, drop, slice,
}
use ag_core.Ring.{Buffer, reset_if_met}

-- What is returned: no error, `ErrIsEmpty`, `io.ErrShortWrite`, or the writer's error.
pub data DrainError : Type 0 where
  drained nothing short_write writer_failed : DrainError

module _ {ℓ} (S : Type ℓ) where
  abbrev pub Writer : Type ℓ
  Writer = List ℕ → S → ℕ × Bool × S

  pub record Drained : Type ℓ where
    pub n : ℕ
    pub err : DrainError
    pub after : Buffer
    pub state : S

  -- The end of each branch.
  unfoldable pub close_drain : ℕ → Bool → Buffer → S → Drained
  close_drain n err b s = record {
    n = n;
    err = if err then writer_failed else if b.is_empty then drained else short_write;
    after = b;
    state = s;
  }

  -- `WriteTo` with `w > r`; `none` is the panic on an invalid count.
  unfoldable pub drain_ahead : Writer → Buffer → S → Option Drained
  drain_ahead write b s =
      let (m, err, s') = write (slice b.r (b.r + (b.w - b.r)) b.buf) s in
      if ltb (b.w - b.r) m
      then none
      else some (close_drain m err (reset_if_met (record b { r = b.r + m })) s')

  -- `WriteTo` where the `n` bytes end with the storage.
  unfoldable pub drain_end : Writer → Buffer → ℕ → S → Option Drained
  drain_end write b n s =
      let (m, err, s') = write (slice b.r (b.r + n) b.buf) s in
      if ltb n m
      then none
      else some (close_drain m err (reset_if_met (record b { r = (b.r + m) % b.size })) s')

  -- The second write of `WriteTo`, behind `cum` bytes.
  unfoldable pub drain_second : Writer → Buffer → ℕ → ℕ → S → Option Drained
  drain_second write b cum c2 s =
      let (m, err, s') = write (take c2 b.buf) s in
      if ltb c2 m
      then none
      else some (close_drain (cum + m) err (reset_if_met (record b { r = m })) s')

  -- `WriteTo` of `n` bytes that go round the end.
  unfoldable pub drain_round : Writer → Buffer → ℕ → S → Option Drained
  drain_round write b n s =
      let (m, err, s') = write (drop b.r b.buf) s in
      let b' = record b { r = (b.r + m) % b.size } in
      if ltb (b.size - b.r) m
      then none
      else if err
      then some (record { n = m; err = writer_failed; after = b'; state = s' })
      else if ltb m (b.size - b.r)
      then some (record { n = m; err = short_write; after = b'; state = s' })
      else drain_second write b' m (n - (b.size - b.r)) s'

  -- `WriteTo`
  unfoldable pub write_to : Writer → Buffer → S → Option Drained
  write_to write b s =
      if b.is_empty
      then some (record { n = 0; err = nothing; after = b; state = s })
      else if ltb b.r b.w
      then drain_ahead write b s
      else if leb (b.r + (b.size - b.r + b.w)) b.size
      then drain_end write b (b.size - b.r + b.w) s
      else drain_round write b (b.size - b.r + b.w) s
