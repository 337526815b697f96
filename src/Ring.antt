-- ===== src/Ring.antt =====
-- contribute/agonet/pkg/buffer/ring/ring_buffer.go: the circular byte buffer. Bytes are moved and
-- never computed with, so a byte is any number; sizes and indices are natural numbers. The panics of
-- Go (an index out of range, a capacity that is too large) are `none`.
-- A slice that `byteslice.Get(n)` hands out has `n` bytes of unknown contents: it is `fresh n`, for
-- a parameter `fresh` of the operations that allocate.
pub mod Write
pub mod Valid
pub mod Advance
pub mod Consume
pub mod Grow
pub mod Append
pub mod WriteByte
pub mod ReadByte
pub mod Peek
pub mod Drain
mod Tests
use ag_core.Prelude.{
  ℕ, ◌+◌, ◌-◌, ◌*◌, ◌%◌, Bool, true, not, ◌&&◌, Option, none, some, List, [], ltb, leb, ◌==◌,
  if◌then◌else◌, length, get_elem?, take, drop, slice, copy, copy_at,
}
use ag_core.Prelude.Int.{ℤ, pos_part}
use ag_core.Pow.{ceil_to_power_of_two}

-- `Buffer`
pub record Buffer : Type 0 where
  pub buf : List ℕ
  pub size : ℕ
  pub r : ℕ
  pub w : ℕ
  pub is_empty : Bool

abbrev pub min_read : ℕ
min_read = 512

abbrev pub default_buffer_size : ℕ
default_buffer_size = 1024

abbrev pub buffer_grow_threshold : ℕ
buffer_grow_threshold = 4 * 1024

-- `ErrIsEmpty`, or no error.
pub data ReadError : Type 0 where
  ok is_empty_error : ReadError

abbrev pub Fresh : Type 0
Fresh = ℕ → List ℕ

-- `New`
unfoldable pub new : Fresh → ℕ → Option Buffer
new fresh size =
    if size == 0
    then some (record { buf = []; size = 0; r = 0; w = 0; is_empty = true })
    else elim (ceil_to_power_of_two size) [
      | none ↦ none
      | some n ↦ some (record { buf = fresh n; size = n; r = 0; w = 0; is_empty = true })
    ]

-- `Reset`
unfoldable pub reset : Buffer → Buffer
reset b = record b { r = 0; w = 0; is_empty = true }

-- `Buffered`
unfoldable pub buffered : Buffer → ℕ
buffered b =
    if b.r == b.w
    then (if b.is_empty then 0 else b.size)
    else if ltb b.r b.w
    then b.w - b.r
    else b.size - b.r + b.w

-- `Available`
unfoldable pub available : Buffer → ℕ
available b =
    if b.r == b.w
    then (if b.is_empty then b.size else 0)
    else if ltb b.w b.r
    then b.r - b.w
    else b.size - b.w + b.r

-- `Len`
abbrev pub len : Buffer → ℕ
len b = length b.buf

-- `Cap`
abbrev pub cap : Buffer → ℕ
cap b = b.size

-- `IsFull`
unfoldable pub is_full : Buffer → Bool
is_full b = b.r == b.w && not b.is_empty

-- `peekAll`
unfoldable pub peek_all : Buffer → List ℕ × List ℕ
peek_all b =
    if b.is_empty
    then ([], [])
    else if ltb b.r b.w
    then (slice b.r b.w b.buf, [])
    else (drop b.r b.buf, if b.w == 0 then [] else take b.w b.buf)

-- The part of `Peek` below `w > r`.
unfoldable pub peek_wrapped : Buffer → ℕ → List ℕ × List ℕ
peek_wrapped b n =
    let m = (if ltb n (b.size - b.r + b.w) then n else b.size - b.r + b.w) in
    if leb (b.r + m) b.size
    then (slice b.r (b.r + m) b.buf, [])
    else (drop b.r b.buf, take (m - (b.size - b.r)) b.buf)

-- `Peek`
unfoldable pub peek : Buffer → ℤ → List ℕ × List ℕ
peek b n =
    if b.is_empty
    then ([], [])
    else if pos_part n == 0
    then peek_all b
    else if ltb b.r b.w
    then (
      slice b.r (b.r + (if ltb (pos_part n) (b.w - b.r) then pos_part n else b.w - b.r)) b.buf,
      [],
    )
    else peek_wrapped b (pos_part n)

-- `Discard`
unfoldable pub discard : Buffer → ℤ → ℕ × Buffer
discard b n =
    if pos_part n == 0
    then (0, b)
    else if ltb (pos_part n) (buffered b)
    then (pos_part n, record b { r = (b.r + pos_part n) % b.size })
    else (buffered b, reset b)

-- What `Read(p)` returns, and `p` and the buffer after it.
pub record ReadResult : Type 0 where
  pub n : ℕ
  pub err : ReadError
  pub p : List ℕ
  pub after : Buffer

-- `if rb.r == rb.w { rb.Reset() }`
unfoldable pub reset_if_met : Buffer → Buffer
reset_if_met b = if b.r == b.w then reset b else b

-- `Read` with `w > r`, for a count `n` that is cut already.
unfoldable pub read_straight : Buffer → List ℕ → ℕ → ReadResult
read_straight b p n = record {
  n = n;
  err = ok;
  p = copy p (slice b.r (b.r + n) b.buf);
  after = reset_if_met (record b { r = b.r + n });
}

-- The bytes that `Read` copies with `w <= r`, for a count `n` that is cut already.
unfoldable pub copy_wrapped : Buffer → List ℕ → ℕ → List ℕ
copy_wrapped b p n =
    if leb (b.r + n) b.size
    then copy p (slice b.r (b.r + n) b.buf)
    else copy_at (b.size - b.r) (copy p (drop b.r b.buf)) (take (n - (b.size - b.r)) b.buf)

unfoldable pub read_wrapped : Buffer → List ℕ → ℕ → ReadResult
read_wrapped b p n = record {
  n = n;
  err = ok;
  p = copy_wrapped b p n;
  after = reset_if_met (record b { r = (b.r + n) % b.size });
}

-- `Read`
unfoldable pub read : Buffer → List ℕ → ReadResult
read b p =
    if length p == 0
    then record { n = 0; err = ok; p = p; after = b }
    else if b.is_empty
    then record { n = 0; err = is_empty_error; p = p; after = b }
    else if ltb b.r b.w
    then read_straight b p (if ltb (length p) (b.w - b.r) then length p else b.w - b.r)
    else read_wrapped b p
        (if ltb (length p) (b.size - b.r + b.w) then length p else b.size - b.r + b.w)

-- `ReadByte`: the byte, `none` with `ErrIsEmpty`; the outer `none` is an index out of range.
unfoldable pub read_byte : Buffer → Option (Option ℕ × Buffer)
read_byte b = if b.is_empty then some (none, b) else elim (get_elem? b.buf b.r) [
  | none ↦ none
  | some x ↦ some (some x, reset_if_met (record b { r = if b.r + 1 == b.size then 0 else b.r + 1 }))
]
