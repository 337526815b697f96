-- ===== src/Elastic.antt =====
-- contribute/agonet/pkg/buffer/elastic/elastic_ring_buffer.go: a ring buffer that is taken from a pool
-- on the first write and given back when it runs empty. `nil` is `none`.
-- The pool is an interface: it hands out a buffer and takes one back, over a state of its own.
pub mod Refine
mod Tests
use ag_core.Prelude.{
  ℕ, Bool, true, false, Option, none, some, List, [], ◌==◌, if◌then◌else◌, length, ◌≡◌,
}
use ag_core.Prelude.Int.{ℤ}
use ag_core.Ring
use ag_core.Ring.{Buffer, Fresh, ReadError, is_empty_error}
use ag_core.Ring.Write
use ag_core.Ring.Valid.{IsValid, contents}

-- `rbPool.Get` and `rbPool.Put`: what is handed out is valid and empty, in every state that is
-- reached from a good one.
pub record RingPool : Type 1 where
  pub State : Type 0
  pub get : State → Buffer × State
  pub put : Buffer → State → State
  pub IsGood : State → Type 0
  pub get-IsValid : (s : State) → IsGood s → IsValid (get s).0
  pub get-empty : (s : State) → IsGood s → contents (get s).0 ≡ []
  pub get-IsGood : (s : State) → IsGood s → IsGood (get s).1
  pub put-IsGood : (b : Buffer) (s : State) → IsValid b → IsGood s → IsGood (put b s)

module _ (P : RingPool) where
  -- `RingBuffer`, beside the pool.
  pub record Elastic : Type 0 where
    pub rb : Option Buffer
    pub pool : P.State

  -- `instance`
  unfoldable pub instance_of : Elastic → Buffer × P.State
  instance_of e = elim e.rb [ none ↦ P.get e.pool | some b ↦ (b, e.pool) ]

  -- `Done`
  unfoldable pub finish : Elastic → Elastic
  finish e = elim e.rb [ none ↦ e | some b ↦ record { rb = none; pool = P.put b e.pool } ]

  -- `done`, on the buffer that an operation leaves.
  unfoldable pub release : Buffer → P.State → Elastic
  release b s =
      if b.is_empty
      then record { rb = none; pool = P.put b s }
      else record { rb = some b; pool = s }

  -- `Peek`
  unfoldable pub peek : Elastic → ℤ → List ℕ × List ℕ
  peek e n = elim e.rb [ none ↦ ([], []) | some b ↦ Ring.peek b n ]

  discard_in : P.State → ℕ × Buffer → ℕ × ReadError × Elastic
  discard_in s (k, b) = (k, Ring.ok, release b s)

  -- `Discard`
  unfoldable pub discard : Elastic → ℤ → ℕ × ReadError × Elastic
  unfolding discard_in
  discard e n = elim e.rb [
    | none ↦ (0, is_empty_error, e)
    | some b ↦ discard_in e.pool (Ring.discard b n)
  ]

  -- `Read`: the count, the error, and `p` after it.
  unfoldable pub read : Elastic → List ℕ → ℕ × ReadError × List ℕ × Elastic
  read e p = elim e.rb [
    | none ↦ (0, is_empty_error, p, e)
    | some b ↦ let res = Ring.read b p in (res.n, res.err, res.p, release res.after e.pool)
  ]

  byte_in : P.State → Option (Option ℕ × Buffer) → Option (Option ℕ × Elastic)
  byte_in s none = none
  byte_in s (some (x, b)) = some (x, release b s)

  -- `ReadByte`: the byte, `none` with `ErrIsEmpty`; the outer `none` is a panic.
  unfoldable pub read_byte : Elastic → Option (Option ℕ × Elastic)
  unfolding byte_in
  read_byte e = elim e.rb [ none ↦ some (none, e) | some b ↦ byte_in e.pool (Ring.read_byte b) ]

  wrote_in : P.State → Option (ℕ × Buffer) → Option (ℕ × Elastic)
  wrote_in s none = none
  wrote_in s (some (n, b)) = some (n, record { rb = some b; pool = s })

  -- `Write`, and so `WriteString`.
  unfoldable pub write : Fresh → Elastic → List ℕ → Option (ℕ × Elastic)
  unfolding wrote_in
  write fresh e p =
      if length p == 0
      then some (0, e)
      else let (b, s) = instance_of e in wrote_in s (Write.write fresh b p)

  -- `WriteByte`
  unfoldable pub write_byte : Fresh → Elastic → ℕ → Option Elastic
  write_byte fresh e c =
      let (b, s) = instance_of e in
      elim (Write.write_byte fresh b c) [
        | none ↦ none
        | some b' ↦ some (record { rb = some b'; pool = s })
      ]

  -- `Buffered`
  unfoldable pub buffered : Elastic → ℕ
  buffered e = elim e.rb [ none ↦ 0 | some b ↦ Ring.buffered b ]

  -- `Len`
  len : Elastic → ℕ
  len e = elim e.rb [ none ↦ 0 | some b ↦ Ring.len b ]

  -- `Cap`
  cap : Elastic → ℕ
  cap e = elim e.rb [ none ↦ 0 | some b ↦ Ring.cap b ]

  -- `Available`
  available : Elastic → ℕ
  available e = elim e.rb [ none ↦ 0 | some b ↦ Ring.available b ]

  -- `Bytes`
  unfoldable pub bytes : Elastic → List ℕ
  bytes e = elim e.rb [ none ↦ [] | some b ↦ Write.bytes b ]

  -- `IsFull`
  is_full : Elastic → Bool
  is_full e = elim e.rb [ none ↦ false | some b ↦ Ring.is_full b ]

  -- `IsEmpty`
  unfoldable pub is_empty : Elastic → Bool
  is_empty e = elim e.rb [ none ↦ true | some b ↦ b.is_empty ]

  -- `Reset`
  unfoldable pub reset : Elastic → Elastic
  reset e = elim e.rb [ none ↦ e | some b ↦ record { rb = some (Ring.reset b); pool = e.pool } ]
